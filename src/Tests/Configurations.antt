-- ===== src/Tests/Configurations.antt =====
-- The properties of configurations at a file with an adapter, a comment and two paths.
use srvd.Base.{Bool, true, ◌≡◌, refl, none, some, List, [], ◌∷◌, ◌++◌, All, arith}
use srvd.Memory.{Mem, ok, fault, ◌>>=◌, Yields, granted, taken, gave_back}
use srvd.Conf.{conf_initialize, item_get, item_add}
use srvd.Conf.Items.{Setting, IsSetting, is_text-IsText, holds}
use srvd.Conf.Invariant.{
  Reached, initialized, added, IsSound, Added, item_add-Added, item_add-granted, Reached-IsSound,
}
use srvd.Conf.Scan.{eof, is_name, is_line}
use srvd.Conf.Scan.Text.{all-Each, is_plain, is_quotable}
use srvd.Conf.Reader.{read_loop, reader, finish, conf_file_read}
use srvd.Conf.Reader.Progress.{read_loop-end}
use srvd.Conf.Reader.Lines.{bare, between}
use srvd.Conf.Reader.Documents.{Line, setting, comment, blank, IsLine, document}
use srvd.Conf.Reader.Files.{document_memory, conf_file_read-document}
use srvd.Conf.Reader.Latest.{item_get-document}
use srvd.Conf.Reader.Faults.{conf_file_read-comment_end, conf_file_read-no_value}
use srvd.Conf.File.{fconf_default, file_parse, file_default_get}
use srvd.Conf.File.Parse.{file_text}
use srvd.Conf.File.Default.{loaded, file_default_get-twice}
use srvd.Conf.File.Failure.{Parsed, file_parse-Yields}
use srvd.Tests.{start, start-Plenty}

-- client:adapter = unsock, # x, client:path="/a", client:path = /b
abbrev adapter_line : Line
adapter_line =
    setting 99 (108 ∷ 105 ∷ 101 ∷ 110 ∷ 116 ∷ 58 ∷ 97 ∷ 100 ∷ 97 ∷ 112 ∷ 116 ∷ 101 ∷ 114 ∷ [])
      (32 ∷ []) (32 ∷ []) (bare (117 ∷ 110 ∷ 115 ∷ 111 ∷ 99 ∷ 107 ∷ []))

abbrev more_lines : List Line
more_lines =
    comment (32 ∷ 120 ∷ [])
    ∷ setting 99 (108 ∷ 105 ∷ 101 ∷ 110 ∷ 116 ∷ 58 ∷ 112 ∷ 97 ∷ 116 ∷ 104 ∷ []) [] []
        (between (47 ∷ 97 ∷ []))
    ∷ setting 99 (108 ∷ 105 ∷ 101 ∷ 110 ∷ 116 ∷ 58 ∷ 112 ∷ 97 ∷ 116 ∷ 104 ∷ []) (9 ∷ []) []
        (bare (47 ∷ 98 ∷ []))
    ∷ blank
    ∷ []

abbrev file : List Line
file = adapter_line ∷ more_lines

file-lines : All IsLine file
file-lines = (
  (
    all-Each is_name
        (99 ∷ 108 ∷ 105 ∷ 101 ∷ 110 ∷ 116 ∷ 58 ∷ 97 ∷ 100 ∷ 97 ∷ 112 ∷ 116 ∷ 101 ∷ 114 ∷ []) refl,
    (
      (refl, tt),
      ((refl, tt), (refl, all-Each is_plain (117 ∷ 110 ∷ 115 ∷ 111 ∷ 99 ∷ 107 ∷ []) refl)),
    ),
  ),
  (
    all-Each is_line (32 ∷ 120 ∷ []) refl,
    (
      (
        all-Each is_name (99 ∷ 108 ∷ 105 ∷ 101 ∷ 110 ∷ 116 ∷ 58 ∷ 112 ∷ 97 ∷ 116 ∷ 104 ∷ []) refl,
        (tt, (tt, all-Each is_quotable (47 ∷ 97 ∷ []) refl)),
      ),
      (
        (
          all-Each is_name (99 ∷ 108 ∷ 105 ∷ 101 ∷ 110 ∷ 116 ∷ 58 ∷ 112 ∷ 97 ∷ 116 ∷ 104 ∷ []) refl,
          ((refl, tt), (tt, (refl, all-Each is_plain (47 ∷ 98 ∷ []) refl))),
        ),
        (tt, tt),
      ),
    ),
  ),
)

abbrev settings : List Setting
settings =
    record {
      name = 99 ∷ 108 ∷ 105 ∷ 101 ∷ 110 ∷ 116 ∷ 58 ∷ 112 ∷ 97 ∷ 116 ∷ 104 ∷ [];
      value = 47 ∷ 98 ∷ [];
    }
    ∷ record {
      name = 99 ∷ 108 ∷ 105 ∷ 101 ∷ 110 ∷ 116 ∷ 58 ∷ 112 ∷ 97 ∷ 116 ∷ 104 ∷ [];
      value = 47 ∷ 97 ∷ [];
    }
    ∷ record {
      name = 99 ∷ 108 ∷ 105 ∷ 101 ∷ 110 ∷ 116 ∷ 58 ∷ 97 ∷ 100 ∷ 97 ∷ 112 ∷ 116 ∷ 101 ∷ 114 ∷ [];
      value = 117 ∷ 110 ∷ 115 ∷ 111 ∷ 99 ∷ 107 ∷ [];
    }
    ∷ []

conf_file_read-document_example :
    conf_file_read (document file) (holds []) start
    ≡ ok (true, holds settings) (document_memory file start)
conf_file_read-document_example = conf_file_read-document file [] start file-lines tt start-Plenty

item_get-document_example :
    (conf_file_read (document file) conf_initialize.1 >>= λ (_, c).
    item_get c
      (some ((99 ∷ 108 ∷ 105 ∷ 101 ∷ 110 ∷ 116 ∷ 58 ∷ 112 ∷ 97 ∷ 116 ∷ 104 ∷ []) ++ 0 ∷ [])))
      start
    ≡ ok (some (47 ∷ 98 ∷ 0 ∷ [], 3)) (document_memory file start)
item_get-document_example =
    item_get-document file (99 ∷ 108 ∷ 105 ∷ 101 ∷ 110 ∷ 116 ∷ 58 ∷ 112 ∷ 97 ∷ 116 ∷ 104 ∷ []) []
      start file-lines
      (is_text-IsText (99 ∷ 108 ∷ 105 ∷ 101 ∷ 110 ∷ 116 ∷ 58 ∷ 112 ∷ 97 ∷ 116 ∷ 104 ∷ []) refl)
      start-Plenty

read_loop-end_example :
    Yields (λ r. eof r.bp ≡ true) (read_loop 8 (reader (97 ∷ 61 ∷ 98 ∷ 0 ∷ []) (holds [])) start)
    × ((read_loop 13 (reader (97 ∷ 61 ∷ 98 ∷ 0 ∷ []) (holds [])) >>= finish) start
        ≡ conf_file_read (97 ∷ 61 ∷ 98 ∷ 0 ∷ []) (holds []) start)
read_loop-end_example = read_loop-end (97 ∷ 61 ∷ 98 ∷ 0 ∷ []) (holds []) start 5

abbrev first : Setting
first = record { name = 97 ∷ []; value = 98 ∷ [] }

first-IsSetting : IsSetting first
first-IsSetting = (is_text-IsText (97 ∷ []) refl, is_text-IsText (98 ∷ []) refl)

item_add-Added_example :
    (status : Bool) × (ss' : List Setting) × (m' : Mem) × (item_add
        (holds [])
        (some (97 ∷ 0 ∷ []))
        2
        (some (98 ∷ 0 ∷ []))
        2
        start
      ≡ ok (status, holds ss') m')
    × Added 0 [] first status ss' m'
item_add-Added_example = item_add-Added 0 [] first start tt first-IsSetting tt (omega arith)

one-Reached : Reached 0 (holds (first ∷ [])) (granted 3 start)
one-Reached =
    added {m = start} {status = true} first (initialized (omega arith)) first-IsSetting
      (item_add-granted [] first start tt first-IsSetting start-Plenty refl)

Reached-IsSound_example : IsSound 0 (holds (first ∷ [])) (granted 3 start)
Reached-IsSound_example = Reached-IsSound one-Reached

conf_file_read-comment_end_example :
    conf_file_read (10 ∷ 35 ∷ 120 ∷ 0 ∷ []) (holds []) start ≡ fault
conf_file_read-comment_end_example =
    conf_file_read-comment_end (blank ∷ []) [] start (tt, tt) tt start-Plenty (120 ∷ []) (refl, tt)

conf_file_read-no_value_example :
    conf_file_read (10 ∷ 97 ∷ 61 ∷ 10 ∷ 0 ∷ []) (holds []) start ≡ fault
conf_file_read-no_value_example =
    conf_file_read-no_value (blank ∷ []) [] start (tt, tt) tt start-Plenty 97 [] [] 0 [] (refl, tt)
      tt

file_parse-Yields_example :
    Yields (Parsed (loaded file 7 (47 ∷ 0 ∷ [])) (some (record { size = 1; mtime = 8 }))) (
      file_parse
        (loaded file 7 (47 ∷ 0 ∷ []))
        (some (97 ∷ []))
        (some (record { size = 1; mtime = 8 }))
        start)
file_parse-Yields_example =
    file_parse-Yields (loaded file 7 (47 ∷ 0 ∷ [])) (some (97 ∷ []))
      (some (record { size = 1; mtime = 8 })) start

file_default_get-twice_example :
    (file_default_get fconf_default
        (47 ∷ 0 ∷ [])
        none
        (some (file_text file))
        (some (record { size = 62; mtime = 7 }))
        start
      ≡ ok
          (true, loaded file 7 (47 ∷ 0 ∷ []))
          (gave_back 1 (document_memory file (gave_back 0 (taken (taken start))))))
    × (file_default_get
          (loaded file 7 (47 ∷ 0 ∷ []))
          []
          (some (record { size = 0; mtime = 7 }))
          none
          none
          start
        ≡ ok (true, loaded file 7 (47 ∷ 0 ∷ [])) start)
file_default_get-twice_example =
    file_default_get-twice adapter_line more_lines (47 ∷ []) [] 7 start file-lines
      (is_text-IsText (47 ∷ []) refl) start-Plenty (λ z. omega (arith, z)) none 0 none none start

settings-IsSetting : All IsSetting settings
settings-IsSetting = (
  (
    is_text-IsText (99 ∷ 108 ∷ 105 ∷ 101 ∷ 110 ∷ 116 ∷ 58 ∷ 112 ∷ 97 ∷ 116 ∷ 104 ∷ []) refl,
    is_text-IsText (47 ∷ 98 ∷ []) refl,
  ),
  (
    (
      is_text-IsText (99 ∷ 108 ∷ 105 ∷ 101 ∷ 110 ∷ 116 ∷ 58 ∷ 112 ∷ 97 ∷ 116 ∷ 104 ∷ []) refl,
      is_text-IsText (47 ∷ 97 ∷ []) refl,
    ),
    (
      (
        is_text-IsText
            (99 ∷ 108 ∷ 105 ∷ 101 ∷ 110 ∷ 116 ∷ 58 ∷ 97 ∷ 100 ∷ 97 ∷ 112 ∷ 116 ∷ 101 ∷ 114 ∷ [])
            refl,
        is_text-IsText (117 ∷ 110 ∷ 115 ∷ 111 ∷ 99 ∷ 107 ∷ []) refl,
      ),
      tt,
    ),
  ),
)
