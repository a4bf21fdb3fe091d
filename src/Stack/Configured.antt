-- ===== src/Stack/Configured.antt =====
-- A query of lib/srvd/libsrvd/service.c with a default configuration file that asks for the client of
-- lib/srvd/libsrvd/client/unsock.c: the first query, which reads the file, and those that follow it.
use srvd.Base.{
  ℕ, ◌≢◌, ◌≡◌, refl, true, some, List, [], ◌∷◌, ◌++◌, ◌-◌, subst, sym, replicate, length, All, ◌<◌,
}
use srvd.Memory.{Bytes, Mem, ok, Plenty, taken, gave_back}
use srvd.Field.View.{Item}
use srvd.Packet.View.{packet_of}
use srvd.Conf.Items.{IsText, terminated, holds}
use srvd.Conf.Reader.Documents.{Line, IsLine, parsed}
use srvd.Conf.Reader.Files.{document_memory, document_memory-Plenty}
use srvd.Conf.Reader.Latest.{last_value}
use srvd.Conf.File.{ConfFile, fconf_default}
use srvd.Conf.File.Parse.{file_text}
use srvd.Conf.File.Default.{loaded, file_default_get-first, file_default_get-loaded}
use srvd.Client.ByConf.{adapter_key, path_key, unsock_key, Fits}
use srvd.Client.FromFile.{get_by_conf-parsed}
use srvd.Unsock.{unsock_client}
use srvd.Unsock.Talk.{idle, unsock_client-release, talked_memory}
use srvd.Service.Query.{Conversation, talked, query-Session}
use srvd.Service.Numbers.{code_of}
use srvd.Stack.{System, default_conf, client_for, linked_query}

-- A system whose default file has lines that name the adapter "unsock" and a path, and which opens a
-- socket.
pub record Configured (system : System) (path : Bytes) (l : Line) (ls : List Line) : Type 0 where
  pub named : system.default_path ≡ terminated path
  pub text : IsText path
  pub lines : All IsLine (l ∷ ls)
  pub opened : system.opened ≡ some (file_text (l ∷ ls))
  pub mtime : ℕ
  pub known : system.info ≡ some (record { size = length (file_text (l ∷ ls)); mtime = mtime })
  pub adapter : last_value adapter_key (l ∷ ls) ≡ some unsock_key
  pub socket_path : Bytes
  pub configured : last_value path_key (l ∷ ls) ≡ some socket_path
  pub fits : IsText socket_path × (length socket_path < system.sun_path_length)
  pub opens : system.opens ≡ true

module _ (system : System) (path : Bytes) (l : Line) (ls : List Line)
    (configured : Configured system path l ls) where
  abbrev pub conf_memory : Mem → Mem
  conf_memory m = gave_back 1 (document_memory (l ∷ ls) (gave_back 0 (taken (taken m))))

  -- The first query reads the file.
  pub default_conf-first :
      (m : Mem)
      → Plenty m
      → default_conf system fconf_default m ≡ ok (some (holds (parsed (l ∷ ls) []))) (conf_memory m)
  unfolding default_conf
  default_conf-first m plenty =
      rw
        (
          configured.named,
          configured.opened,
          configured.known,
          file_default_get-first l ls path configured.mtime system.checked m configured.lines
              configured.text plenty,
        )
        refl

  pub conf_memory-Plenty : (m : Mem) → Plenty m → Plenty (conf_memory m)
  conf_memory-Plenty m plenty =
      document_memory-Plenty (l ∷ ls) (gave_back 0 (taken (taken m))) plenty

  -- The later ones have what it read, while the time of the file is the same.
  pub default_conf-later :
      (default_path : Bytes) (size mtime : ℕ) (m : Mem)
      → system.checked ≡ some (record { size = size; mtime = mtime })
      → mtime ≢ 0
      → default_conf system (loaded (l ∷ ls) mtime default_path) m
        ≡ ok (some (holds (parsed (l ∷ ls) []))) m
  unfolding default_conf
  default_conf-later default_path size mtime m checked ne =
      rw
        (
          checked,
          file_default_get-loaded (l ∷ ls) default_path system.default_path mtime size system.info
              system.opened m ne,
        )
        refl

  -- The copy of the socket path.
  abbrev sun_path : Bytes
  sun_path =
      configured.socket_path ++ replicate (system.sun_path_length - length configured.socket_path) 0

  client_for-parsed :
      (m : Mem)
      → Plenty m
      → client_for system (holds (parsed (l ∷ ls) [])) m
        ≡ ok (some (unsock_client (idle sun_path) system.socket)) (taken m)
  unfolding client_for
  client_for-parsed m plenty =
      let fits : Fits system.sun_path_length system.opens (last_value path_key (l ∷ ls)) =
        subst (Fits system.sun_path_length system.opens) (sym configured.configured)
          configured.fits in
      rw
        (
          get_by_conf-parsed system.sun_path_length system.opens (l ∷ ls) m configured.lines fits,
          configured.adapter,
          configured.configured,
          plenty m.calls,
          configured.opens,
        )
        refl

  -- The query as a whole, when the conversation with a server ends well: a response with the fields of
  -- the answer, and the code in the first of them.
  pub linked_query-talked :
      (f : ConfFile) (its answer : List Item) (old : ℕ) (m m₁ : Mem)
      → default_conf system f m ≡ ok (some (holds (parsed (l ∷ ls) []))) m₁
      → Plenty m₁
      → ((path : Bytes) (m : Mem)
          → Plenty m
          → Conversation
              (unsock_client (idle path) system.socket)
              (packet_of its)
              []
              m
              true
              answer
              (talked_memory answer m))
      → linked_query system f
          (record { packet = packet_of its })
          (record { packet = packet_of []; status = old })
          m
        ≡ ok
            (true, record { packet = packet_of answer; status = code_of old answer })
            (gave_back 1 (talked_memory answer (taken m₁)))
  unfolding linked_query
  linked_query-talked f its answer old m m₁ read plenty talk =
      query-Session (default_conf system f) (client_for system) (record { packet = packet_of its })
        old [] answer true m (gave_back 1 (talked_memory answer (taken m₁)))
        (talked {m₁ = m₁} {m₂ = taken m₁} {m₃ = talked_memory answer (taken m₁)}
          {conf = holds (parsed (l ∷ ls) [])} {c = unsock_client (idle sun_path) system.socket} read
          (client_for-parsed m₁ plenty) (talk sun_path (taken m₁) plenty)
          (unsock_client-release (idle sun_path) system.socket (talked_memory answer (taken m₁))))
