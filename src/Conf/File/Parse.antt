-- ===== src/Conf/File/Parse.antt =====
-- `srvd_conf_file_parse` and `srvd_conf_file_default_get` of lib/srvd/libsrvd/conf.c on whole files.
use srvd.Base.{
  ℕ, zero, suc, ◌+◌, ◌*◌, true, false, ◌≡◌, ◌≢◌, refl, ap, ◌∙◌, some, List, [], ◌∷◌, ◌++◌, ◌==◌,
  ==_iff, arith, length, drop, replicate, All, suc_add, take-length, length-replicate, append_assoc,
}
use srvd.Memory.{Bytes, Mem, ok, malloc, free, write, write-append, taken, gave_back, Plenty}
use srvd.Conf.Items.{Setting, holds}
use srvd.Conf.Invariant.{conf_clear-gave_back}
use srvd.Conf.Reader.Lines.{Value, bare, between, value_text}
use srvd.Conf.Reader.Documents.{
  Line, setting, comment, blank, IsLine, line_text, lines_text, parsed,
}
use srvd.Conf.Reader.Files.{document_memory, conf_file_read-document, line_text_lt}
use srvd.Conf.File.{
  ConfFile, Stat, same_time, file_uptodate, parsed_file, read_buffer, parse_opened, parse_at,
  file_parse,
}

drop-replicate : (n : ℕ) → drop {A = ℕ} n (replicate (n + 1) 0) ≡ 0 ∷ []
drop-replicate zero = refl
drop-replicate (suc n) = rw (suc_add n 1) (drop-replicate n)

-- The buffer that is filled from the file ends in a zero.
write-replicate :
    (content : Bytes) (m : Mem)
    → write 0 content (replicate (length content + 1) 0) m ≡ ok (content ++ 0 ∷ []) m
write-replicate content m =
    rw
      (
        write-append 0 content [] (replicate (length content + 1) 0) refl
            (omega (arith, length-replicate {A = ℕ} (length content + 1) 0)),
        drop-replicate (length content),
      )
      refl

value_text-append : (v : Value) (a b : Bytes) → value_text v a ++ b ≡ value_text v (a ++ b)
value_text-append (bare v) a b = append_assoc v a b
value_text-append (between v) a b = ap (◌∷◌ 34) (append_assoc v (34 ∷ a) b)

line_text-append : (l : Line) (a b : Bytes) → line_text l a ++ b ≡ line_text l (a ++ b)
line_text-append (setting c cs before after v) a b =
    rw
      (
        append_assoc cs (before ++ 61 ∷ (after ++ value_text v (10 ∷ a))) b,
        append_assoc before (61 ∷ (after ++ value_text v (10 ∷ a))) b,
        append_assoc after (value_text v (10 ∷ a)) b,
        value_text-append v (10 ∷ a) b,
      )
      refl
line_text-append (comment t) a b = ap (◌∷◌ 35) (append_assoc t (10 ∷ a) b)
line_text-append blank a b = refl

lines_text-append : (ls : List Line) (a b : Bytes) → lines_text ls a ++ b ≡ lines_text ls (a ++ b)
lines_text-append [] a b = refl
lines_text-append (l ∷ ls) a b =
    line_text-append l (lines_text ls a) b ∙ ap (line_text l) (lines_text-append ls a b)

-- What the file holds: its lines.
abbrev pub file_text : List Line → Bytes
file_text ls = lines_text ls []

read_buffer-document :
    (ls : List Line) (old : List Setting) (f : ConfFile) (mtime : ℕ) (m : Mem)
    → All IsLine ls
    → Plenty m
    → f.conf ≡ holds old
    → read_buffer f (file_text ls) (record { size = length (file_text ls); mtime = mtime }) m
      ≡ ok
          (true, record f { conf = holds (parsed ls []); updated = true; updated_time = mtime })
          (gave_back 1 (document_memory ls (gave_back (3 * length old) m)))
unfolding read_buffer parsed_file free
read_buffer-document ls old f mtime m lines plenty shape =
    rw
      (
        take-length (file_text ls),
        write-replicate (file_text ls) m,
        (==_iff (length (file_text ls)) (length (file_text ls))).1 refl,
        shape,
        conf_clear-gave_back old m,
        lines_text-append ls [] (0 ∷ []),
        conf_file_read-document ls [] (gave_back (3 * length old) m) lines tt plenty,
      )
      refl

-- With memory at hand, `srvd_conf_file_parse` of a file of lines (at least one) that are settings,
-- comments and empty lines gives back the old items, loads the settings of the file, notes the time
-- that `stat` told, and gives the buffer back.
pub file_parse-document :
    (l : Line) (ls : List Line) (old : List Setting) (f : ConfFile) (path : Bytes) (mtime : ℕ)
    (m : Mem)
    → All IsLine (l ∷ ls)
    → Plenty m
    → f.conf ≡ holds old
    → f.path ≡ some path
    → file_parse f
        (some (file_text (l ∷ ls)))
        (some (record { size = length (file_text (l ∷ ls)); mtime = mtime }))
        m
      ≡ ok
          (
            true,
            record f { conf = holds (parsed (l ∷ ls) []); updated = true; updated_time = mtime },
          )
          (gave_back 1 (document_memory (l ∷ ls) (gave_back (3 * length old) (taken m))))
unfolding file_parse parse_at parse_opened malloc
file_parse-document l ls old f path mtime m lines plenty shape at =
    let size : (length (file_text (l ∷ ls)) == 0) ≡ false =
      ground (arith, line_text_lt l (file_text ls)) in
    let opened = some (file_text (l ∷ ls)) in
    let info : Stat = record { size = length (file_text (l ∷ ls)); mtime = mtime } in
    ap (λ p. parse_at p f opened (some info) m) at
    ∙ rw
        (
          size,
          plenty m.calls,
          read_buffer-document (l ∷ ls) old f mtime (taken m) lines plenty shape,
        )
        refl

-- A file that was read counts as up to date for as long as `stat` tells the same time, if that is not 0.
pub file_uptodate-updated :
    (f : ConfFile) (info : Stat)
    → f.updated ≡ true
    → info.mtime ≡ f.updated_time
    → f.updated_time ≢ 0
    → file_uptodate f (some info) ≡ true
unfolding file_uptodate same_time
file_uptodate-updated f info loaded same ne = rw (loaded, same) (ground (arith, ne))
