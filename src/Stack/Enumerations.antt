-- ===== src/Stack/Enumerations.antt =====
-- Enumerations of users over all parts: the calls of lib/srvd/nss/passwd.c with the query of
-- lib/srvd/libsrvd/service.c as it is linked, and the server of lib/srvd/libsrvd/server/unsock.c. The
-- default configuration file has been read before.
use srvd.Base.{
  true, ℕ, zero, suc, ◌+◌, ◌%◌, ◌^◌, ◌<◌, ◌≤◌, ◌≡◌, ◌≢◌, Bool, refl, ap, ◌∙◌, some, Option, List,
  [], ◌∷◌, All, arith, length, zero_add,
}
use srvd.Memory.{Bytes, Mem, ok, Plenty, taken, gave_back, be16, be32}
use srvd.Field.View.{Item}
use srvd.Packet.View.{packet_of}
use srvd.Packet.Ownership.{slots_blocks}
use srvd.Packet.Update.Append.{single}
use srvd.Serial.Unserialize.{IsItem}
use srvd.Serial.Balance.{grant_items-granted, slots_blocks-blocks}
use srvd.Conf.Reader.Documents.{Line}
use srvd.Conf.File.Default.{loaded}
use srvd.Server.{Server}
use srvd.Listener.{Handler, Connection, protocol_status}
use srvd.Listener.Serve.{answer_with}
use srvd.Service.Passwd.{request_entities}
use srvd.Service.EndToEnd.{single-IsWire}
use srvd.Thread.{Once, data_of, of_thread}
use srvd.Nss.{success}
use srvd.Nss.Passwd.Layout.{Filled}
use srvd.Nss.Passwd.Entities.{Caller, opened, moved, Answers, replies, enumerate, enumerate-replies}
use srvd.Nss.Passwd.Threads.{
  Call, Outcome, user_at, served-user_at, run_calls, alone_calls, Within, Roomy, run_calls-alone,
}
use srvd.Unsock.Talk.{talked_memory}
use srvd.Stack.{System, linked_query}
use srvd.Stack.Sockets.{Carries, Replies}
use srvd.Stack.Configured.{Configured}
use srvd.Stack.Trip.{linked_query-later}
use srvd.Stack.Lookup.{items-Filled}

-- The field with the status code, in front of an answer.
abbrev pub status_field : ℕ → Item
status_field code = single protocol_status (be16 code)

user_at-small :
    (table : List (List Item)) (k : ℕ) → (user_at table k).1 % 2 ^ 16 ≡ (user_at table k).1
user_at-small [] k = refl
user_at-small (its ∷ table) zero = refl
user_at-small (its ∷ table) (suc k) = user_at-small table k

users-Filled :
    (table : List (List Item))
    → ((k : ℕ) → k ≤ length table → All Filled (user_at table k).0)
    → All (λ its. All Filled its) table
users-Filled [] h = tt
users-Filled (its ∷ table) h =
    (h 0 (omega arith), users-Filled table λ k le. h (suc k) (omega (arith, le)))

-- A query leaves the blocks of the answer in use.
talked_memory-kept :
    (answer : List Item) (m : Mem)
    → All IsItem answer
    → (((gave_back 1 (talked_memory answer (taken m))).allocated + m.released) ≡ (
        m.allocated
        + slots_blocks ((packet_of answer).fields)
        + (gave_back 1 (talked_memory answer (taken m))).released))
      × (Plenty m → Plenty (gave_back 1 (talked_memory answer (taken m))))
talked_memory-kept answer m good =
    rw (grant_items-granted answer (taken (gave_back 1 (taken (taken m)))))
      (omega (arith, slots_blocks-blocks answer good), λ p. p)

module _ (system : System) (path : Bytes) (l : Line) (ls : List Line)
    (configured : Configured system path l ls) (accepted : Bytes → Connection)
    (monitor : Server Handler) (m₂ : Mem) (carries : Carries system.socket accepted monitor m₂)
    (plenty₂ : Plenty m₂) (default_path : Bytes) (size mtime : ℕ)
    (checked : system.checked ≡ some (record { size = size; mtime = mtime })) (ne : mtime ≢ 0)
    (table : List (List Item))
    (replying : (k : ℕ)
      → k ≤ length table
      → Replies monitor m₂
          (single request_entities (be32 k))
          []
          (user_at table k).0
          (user_at table k).1) where
  -- The program's query answers from the table.
  linked_query-Answers :
      Answers status_field (linked_query system (loaded (l ∷ ls) mtime default_path)) 0 table
  linked_query-Answers k m within plenty =
      let (its, code) = user_at table k in
      let r = replying k within in
      let (kept, plenty') = talked_memory-kept (answer_with code its) m r.wire.items in
      rw (zero_add k, served-user_at status_field table k)
        (
          gave_back 1 (talked_memory (answer_with code its) (taken m)),
          linked_query-later system path l ls configured accepted monitor m₂ carries plenty₂
                default_path size mtime (single request_entities (be32 k)) [] its code m checked ne
                plenty
                (single-IsWire request_entities (be32 k) (omega arith) ((λ e. cc), omega arith)) r
              ∙ ap
                  (λ s.
                    ok (true, record { packet = packet_of (answer_with code its); status = s })
                      (gave_back 1 (talked_memory (answer_with code its) (taken m))))
                  (user_at-small table k),
          (kept, plenty' plenty),
        )

  replying-Filled : All (λ its. All Filled its) table
  replying-Filled =
      users-Filled table
        λ k within. items-Filled (user_at table k).0 (replying k within).wire.items.1

  -- With memory at hand on both sides, a client whose default configuration file has lines that name
  -- the adapter "unsock" and a path, has been read and still has its time, which is not 0, sockets that
  -- carry all of both directions, so that the server hears what the client wrote and the client reads
  -- what the server wrote then, buffers as large as
  -- `bufsize` says, and answers that the wire format can carry with no second field of the type of the
  -- status. When the server's handler
  -- replies to a request for an offset with the fields of the user there, of fewer than 2 ^ 32 users, and
  -- to the offset behind the last user with the code that says "not found", an enumeration starts
  -- over, each call replies with what the fields of the next user lay out, also when that is an error
  -- since the buffer is too small, and behind the last user each call replies "not found". The offset
  -- ends as the number of the users that were replied with, and no block but that of a new offset is
  -- left in use.
  pub enumerate-serve :
      (has_gecos : Bool) (bufsize : ℕ) (before : Option ℕ) (cs : List Caller) (m : Mem)
      → length table < 2 ^ 32
      → All (λ c. bufsize ≤ length c.original) cs
      → Plenty m
      → (m' : Mem) × (enumerate has_gecos bufsize status_field
            (linked_query system (loaded (l ∷ ls) mtime default_path))
            before
            cs
            m
          ≡ ok
              (success, (replies has_gecos bufsize status_field table cs, some (moved table cs)))
              m')
        × ((m'.allocated + m.released) ≡ (opened before + (m.allocated + m'.released)))
  enumerate-serve has_gecos bufsize before cs m small whole plenty =
      enumerate-replies has_gecos bufsize status_field
        (linked_query system (loaded (l ∷ ls) mtime default_path)) table before cs m
        linked_query-Answers small replying-Filled whole plenty

  -- With memory at hand on both sides, a client whose default configuration file has lines that name
  -- the adapter "unsock" and a path, has been read and still has its time, which is not 0, sockets that
  -- carry all of both directions, so that the server hears what the client wrote and the client reads
  -- what the server wrote then, buffers as large as
  -- `bufsize` says, and answers that the wire format can carry with no second field of the type of the
  -- status. When the server's handler
  -- replies to a request for an offset with the fields of the user there, of fewer than 2 ^ 32 users, and
  -- to the offset behind the last user with the code that says "not found": in whatever order calls of
  -- `setpwent`, `getpwent_r` and `endpwent` by any number of threads happen, none of which has an offset
  -- behind the end of the table, and whether or not the key of the offsets was made before, all of them
  -- end, and each thread gets from its calls, and keeps as its offset, what it would alone.
  pub run_calls-serve :
      (has_gecos : Bool) (bufsize : ℕ) (cs : List (ℕ × Call)) (o : Once ℕ) (m : Mem)
      → length table < 2 ^ 32
      → All (λ c. Roomy bufsize c.1) cs
      → ((t : ℕ) → Within table (data_of o t))
      → Plenty m
      → (rs : List (ℕ × Outcome)) × ((o' : Once ℕ) × ((m' : Mem) × (run_calls has_gecos bufsize
                (linked_query system (loaded (l ∷ ls) mtime default_path))
                cs
                o
                m
              ≡ ok (rs, o') m')
            × ((t : ℕ)
                → (of_thread t rs, data_of o' t)
                  ≡ alone_calls has_gecos bufsize table (of_thread t cs) (data_of o t))))
  run_calls-serve has_gecos bufsize cs o m small roomy within plenty =
      run_calls-alone has_gecos bufsize (linked_query system (loaded (l ∷ ls) mtime default_path))
        status_field table linked_query-Answers small replying-Filled cs o m roomy within plenty
