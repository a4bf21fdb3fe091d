-- ===== src/Conf/File/Default.antt =====
-- The default configuration file, `srvd_conf_file_default_get` of lib/srvd/libsrvd/conf.c, and what a
-- file that does not parse leaves.
use srvd.Base.{
  ℕ, suc, true, false, ◌≡◌, ◌≢◌, refl, ap, ◌∙◌, Option, some, List, [], ◌∷◌, arith, if◌then◌else◌,
  length, length-append, All,
}
use srvd.Memory.{Bytes, Mem, ok, fault, pure, ◌>>=◌, malloc, taken, gave_back, Plenty}
use srvd.Conf.Items.{IsText, terminated, holds}
use srvd.Conf.Adding.{strncpy-text, terminate-text}
use srvd.Conf.Reader.Documents.{Line, IsLine, parsed}
use srvd.Conf.Reader.Files.{document_memory}
use srvd.Conf.File.{
  ConfFile, Stat, copy_path, file_initialize, file_uptodate, parse_at, file_parse, fconf_default,
  prepare, file_default_get,
}
use srvd.Conf.File.Parse.{file_text, file_parse-document, file_uptodate-updated}

-- The file in memory after a successful read.
abbrev pub loaded : List Line → ℕ → Bytes → ConfFile
loaded ls mtime path = record {
  conf = holds (parsed ls []);
  updated = true;
  updated_time = mtime;
  path = some path;
}

file_initialize-terminated :
    (f : ConfFile) (s : Bytes) (m : Mem)
    → IsText s
    → Plenty m
    → file_initialize f (some (terminated s)) (length (terminated s)) m
      ≡ ok (true, record fconf_default { path = some (terminated s) }) (taken m)
unfolding file_initialize copy_path malloc
file_initialize-terminated f s m text plenty =
    let n : length (terminated s) ≡ suc (length s) = omega (arith, length-append s (0 ∷ [])) in
    rw (plenty m.calls, n, strncpy-text s 0 [] (taken m) text, terminate-text s 0 (taken m)) refl

default_get-loaded :
    (f : ConfFile) (path default_path : Bytes) (checked info : Option Stat) (opened : Option Bytes)
    (m : Mem)
    → file_uptodate f checked ≡ true
    → f.path ≡ some path
    → file_default_get f default_path checked opened info m ≡ ok (true, f) m
unfolding file_default_get prepare
default_get-loaded f path default_path checked info opened m fresh at =
    ap
      (λ p.
        (prepare p f default_path >>= λ (_, f).
        if file_uptodate f checked then pure (true, f) else file_parse f opened info)
          m)
      at
    ∙ rw fresh refl

-- With no memory for the path the failure of `srvd_conf_file_initialize` is not noticed, and the file
-- is opened through a `NULL` path.
pub file_default_get-refused :
    (default_path : Bytes) (checked info : Option Stat) (opened : Option Bytes) (m : Mem)
    → m.succeeds m.calls ≡ false
    → file_default_get fconf_default default_path checked opened info m ≡ fault
unfolding file_default_get prepare file_initialize malloc file_uptodate file_parse parse_at
file_default_get-refused default_path checked info opened m e = rw e refl

-- The first call, which reads the file.
pub file_default_get-first :
    (l : Line) (ls : List Line) (path : Bytes) (mtime : ℕ) (checked : Option Stat) (m : Mem)
    → All IsLine (l ∷ ls)
    → IsText path
    → Plenty m
    → file_default_get fconf_default
        (terminated path)
        checked
        (some (file_text (l ∷ ls)))
        (some (record { size = length (file_text (l ∷ ls)); mtime = mtime }))
        m
      ≡ ok
          (true, loaded (l ∷ ls) mtime (terminated path))
          (gave_back 1 (document_memory (l ∷ ls) (gave_back 0 (taken (taken m)))))
unfolding file_default_get prepare file_uptodate
file_default_get-first l ls path mtime checked m lines text plenty =
    rw
      (
        file_initialize-terminated fconf_default path m text plenty,
        file_parse-document l ls [] (record fconf_default { path = some (terminated path) })
            (terminated path) mtime (taken m) lines plenty refl refl,
      )
      refl

-- A later call, while `stat` tells the time of the last read.
pub file_default_get-loaded :
    (ls : List Line) (path default_path : Bytes) (mtime size : ℕ) (info : Option Stat)
    (opened : Option Bytes) (m : Mem)
    → mtime ≢ 0
    → file_default_get
        (loaded ls mtime path)
        default_path
        (some (record { size = size; mtime = mtime }))
        opened
        info
        m
      ≡ ok (true, loaded ls mtime path) m
file_default_get-loaded ls path default_path mtime size info opened m ne =
    default_get-loaded (loaded ls mtime path) path default_path
      (some (record { size = size; mtime = mtime })) info opened m
      (file_uptodate-updated (loaded ls mtime path) (record { size = size; mtime = mtime }) refl
        refl ne)
      refl

-- The first call of `srvd_conf_file_default_get`, with memory at hand and a file of lines (at least
-- one) that are settings, comments and empty lines: it returns `SRVD_TRUE` with the settings of the
-- file. A later call, while `stat` tells the same time and that is not 0, returns the same
-- configuration, allocates nothing and does not read the file.
pub file_default_get-twice :
    (l : Line) (ls : List Line) (path default_path : Bytes) (mtime : ℕ) (m : Mem)
    → All IsLine (l ∷ ls)
    → IsText path
    → Plenty m
    → mtime ≢ 0
    → (checked : Option Stat)
    → (size : ℕ) (opened : Option Bytes) (info : Option Stat) (later : Mem)
    → (file_default_get fconf_default
          (terminated path)
          checked
          (some (file_text (l ∷ ls)))
          (some (record { size = length (file_text (l ∷ ls)); mtime = mtime }))
          m
        ≡ ok
            (true, loaded (l ∷ ls) mtime (terminated path))
            (gave_back 1 (document_memory (l ∷ ls) (gave_back 0 (taken (taken m))))))
      × (file_default_get
            (loaded (l ∷ ls) mtime (terminated path))
            default_path
            (some (record { size = size; mtime = mtime }))
            opened
            info
            later
          ≡ ok (true, loaded (l ∷ ls) mtime (terminated path)) later)
file_default_get-twice l ls path default_path mtime m lines text plenty ne checked size opened info
      later =
    (
      file_default_get-first l ls path mtime checked m lines text plenty,
      file_default_get-loaded (l ∷ ls) (terminated path) default_path mtime size info opened later
          ne,
    )
