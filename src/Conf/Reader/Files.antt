-- ===== src/Conf/Reader/Files.antt =====
-- Whole files: `_srvd_conf_file_read` of lib/srvd/libsrvd/conf.c on lines in sequence.
use srvd.Base.{
  ℕ, ◌+◌, ◌-◌, ◌*◌, ◌≤◌, ◌<◌, true, false, ◌≡◌, refl, sym, ap, ◌∙◌, List, [], ◌∷◌, ◌++◌, arith,
  length, All, length-append,
}
use srvd.Memory.{Bytes, Mem, ok, and_then, Plenty}
use srvd.Conf.Items.{Setting, holds}
use srvd.Conf.Scan.{eof}
use srvd.Conf.Reader.{read_loop, reader, finish, conf_file_read}
use srvd.Conf.Reader.Progress.{read_loop-eof}
use srvd.Conf.Reader.Store.{HasName}
use srvd.Conf.Reader.Lines.{Value, bare, between, value_text}
use srvd.Conf.Reader.Documents.{
  Line, setting, comment, blank, IsLine, line_text, lines_text, document, with_line, parsed,
  line_memory, line_rounds, read_loop-line,
}

eof-lines_text :
    (z : ℕ) (ls : List Line) (y : ℕ) (ys : Bytes) → eof (z ∷ lines_text ls (y ∷ ys)) ≡ false
eof-lines_text z [] y ys = refl
eof-lines_text z (setting c cs before after v ∷ ls) y ys = refl
eof-lines_text z (comment t ∷ ls) y ys = refl
eof-lines_text z (blank ∷ ls) y ys = refl

with_line-HasName :
    (l : Line) (ss : List Setting) → IsLine l → All HasName ss → All HasName (with_line l ss)
with_line-HasName (setting c cs before after v) ss (named, h) others = (named, others)
with_line-HasName (comment t) ss h others = others
with_line-HasName blank ss h others = others

line_memory-Plenty : (l : Line) (m : Mem) → Plenty m → Plenty (line_memory l m)
line_memory-Plenty (setting c cs before after v) m plenty = plenty
line_memory-Plenty (comment t) m plenty = plenty
line_memory-Plenty blank m plenty = plenty

abbrev pub document_memory : List Line → Mem → Mem
document_memory [] m = m
document_memory (l ∷ ls) m = document_memory ls (line_memory l m)

pub document_memory-Plenty : (ls : List Line) (m : Mem) → Plenty m → Plenty (document_memory ls m)
document_memory-Plenty [] m plenty = plenty
document_memory-Plenty (l ∷ ls) m plenty =
    document_memory-Plenty ls (line_memory l m) (line_memory-Plenty l m plenty)

pub parsed-HasName :
    (ls : List Line) (ss : List Setting)
    → All IsLine ls
    → All HasName ss
    → All HasName (parsed ls ss)
parsed-HasName [] ss h others = others
parsed-HasName (l ∷ ls) ss (h, hs) others =
    parsed-HasName ls (with_line l ss) hs (with_line-HasName l ss h others)

abbrev pub document_rounds : List Line → ℕ → ℕ
document_rounds [] k = k
document_rounds (l ∷ ls) k = line_rounds l (document_rounds ls k)

-- The loop reads the lines and goes on with what follows them.
pub read_loop-lines :
    (ls : List Line) (y : ℕ) (ys : Bytes) (ss : List Setting) (m : Mem) (k : ℕ)
    → All IsLine ls
    → All HasName ss
    → Plenty m
    → read_loop (document_rounds ls k) (reader (lines_text ls (y ∷ ys)) (holds ss)) m
      ≡ read_loop k (reader (y ∷ ys) (holds (parsed ls ss))) (document_memory ls m)
read_loop-lines [] y ys ss m k h others plenty = refl
read_loop-lines (l ∷ ls) y ys ss m k (h, hs) others plenty =
    read_loop-line (lines_text ls (y ∷ ys)) ss m (document_rounds ls k)
      (λ z. eof-lines_text z ls y ys) others plenty l h
    ∙ read_loop-lines ls y ys (with_line l ss) (line_memory l m) k hs
        (with_line-HasName l ss h others) (line_memory-Plenty l m plenty)

line_rounds-add : (l : Line) (j : ℕ) → (n : ℕ) × (n ≤ 2) × ((i : ℕ) → line_rounds l i ≡ n + i)
line_rounds-add (setting c cs [] after v) j = (1, omega arith, λ i. omega arith)
line_rounds-add (setting c cs (b ∷ bs) after v) j = (2, omega arith, λ i. omega arith)
line_rounds-add (comment t) j = (1, omega arith, λ i. omega arith)
line_rounds-add blank j = (1, omega arith, λ i. omega arith)

pub line_text_lt : (l : Line) (rest : Bytes) → length rest < length (line_text l rest)
line_text_lt (setting c cs before after v) rest =
    let tail = after ++ value_text v (10 ∷ rest) in
    omega (
      arith,
      length-append cs (before ++ 61 ∷ tail),
      length-append before (61 ∷ tail),
      length-append after (value_text v (10 ∷ rest)),
      value_text_lt v,
    )
  where
    value_text_lt : (v : Value) → length rest < length (value_text v (10 ∷ rest))
    value_text_lt (bare v) = omega (arith, length-append v (10 ∷ rest))
    value_text_lt (between v) = omega (arith, length-append v (34 ∷ 10 ∷ rest))
line_text_lt (comment t) rest = omega (arith, length-append t (10 ∷ rest))
line_text_lt blank rest = omega arith

-- The fuel is enough for the rounds of the lines, and for as many more as twice what follows them.
pub document_rounds-fuel :
    (ls : List Line) (rest : Bytes) (i : ℕ)
    → (k : ℕ) × (document_rounds ls (k + 2 * length rest) ≡ i + 2 * length (lines_text ls rest))
document_rounds-fuel [] rest i = (i, refl)
document_rounds-fuel (l ∷ ls) rest i =
    let (n, small, rounds) = line_rounds-add l 0 in
    let text = lines_text ls rest in
    let (k, fuel) =
      document_rounds-fuel ls rest (i + 2 * length (line_text l text) - n - 2 * length text) in
    (
      k,
      omega (
        arith,
        small,
        rounds (document_rounds ls (k + 2 * length rest)),
        fuel,
        line_text_lt l text,
      ),
    )

-- The parser on lines and what follows them is the loop on what follows.
pub conf_file_read-lines :
    (ls : List Line) (y : ℕ) (ys : Bytes) (ss : List Setting) (m : Mem)
    → All IsLine ls
    → All HasName ss
    → Plenty m
    → (k : ℕ) × (conf_file_read (lines_text ls (y ∷ ys)) (holds ss) m
        ≡ and_then
            (read_loop
              (k + 2 * length (y ∷ ys))
              (reader (y ∷ ys) (holds (parsed ls ss)))
              (document_memory ls m))
            finish)
unfolding conf_file_read
conf_file_read-lines ls y ys ss m lines others plenty =
    let (k, fuel) = document_rounds-fuel ls (y ∷ ys) 0 in
    let text = lines_text ls (y ∷ ys) in
    let n : document_rounds ls (k + 2 * length (y ∷ ys)) ≡ 2 * length text = omega (arith, fuel) in
    (
      k,
      ap (λ n. and_then (read_loop n (reader text (holds ss)) m) finish) (sym n)
          ∙ ap (λ r. and_then r finish)
              (read_loop-lines ls y ys ss m (k + 2 * length (y ∷ ys)) lines others plenty),
    )

-- With memory at hand, a file of lines that are settings (a name of letters, digits and colons, an
-- equals sign with any spaces and tabs around it, and a value without spaces or in quotes), comments
-- and empty lines is read with `SRVD_TRUE`: the configuration then holds the setting of every line,
-- each a terminated string with its length, in front of what it held, the last line's first, and
-- nothing else; settings of one name are all kept.
pub conf_file_read-document :
    (ls : List Line) (ss : List Setting) (m : Mem)
    → All IsLine ls
    → All HasName ss
    → Plenty m
    → conf_file_read (document ls) (holds ss) m
      ≡ ok (true, holds (parsed ls ss)) (document_memory ls m)
unfolding finish
conf_file_read-document ls ss m lines others plenty =
    let (k, read) = conf_file_read-lines ls 0 [] ss m lines others plenty in
    read
    ∙ ap (λ r. and_then r finish)
        (read_loop-eof (k + 2) (reader (0 ∷ []) (holds (parsed ls ss))) (document_memory ls m) refl)
