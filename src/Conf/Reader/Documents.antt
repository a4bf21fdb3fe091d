-- ===== src/Conf/Reader/Documents.antt =====
-- Whole configuration files: lines with a setting, a comment or nothing, and what
-- `_srvd_conf_file_read` of lib/srvd/libsrvd/conf.c reads of them.
use srvd.Base.{ℕ, suc, true, false, ◌≡◌, ◌≢◌, refl, List, [], ◌∷◌, ◌++◌, arith, All}
use srvd.Memory.{Bytes, Mem, ok, granted, Plenty}
use srvd.Conf.Items.{Setting, holds}
use srvd.Conf.Scan.{byte, eof, is_space, is_name, is_line, eol_read}
use srvd.Conf.Scan.Text.{Each, eof-append, read_while-append, is_name-not}
use srvd.Conf.Reader.{
  assign, Reader, assign_state, name_state, global_state, switch_state, skip_comment, step,
  read_loop, reader,
}
use srvd.Conf.Reader.Store.{HasName}
use srvd.Conf.Reader.Lines.{
  Value, bare, between, content, value_text, IsValue, named_reader, assign_state-equals,
}

-- A name, the spaces before and after the equals sign, and the value; a comment; an empty line.
pub data Line : Type 0 where
  setting : ℕ → Bytes → Bytes → Bytes → Value → Line
  comment : Bytes → Line
  blank : Line

abbrev pub IsLine : Line → Type 0
IsLine (setting c cs before after v) =
    Each is_name (c ∷ cs) × (Each is_space before × (Each is_space after × IsValue v))
IsLine (comment t) = Each is_line t
IsLine blank = Unit {0}

-- A line in the text, before what follows it.
abbrev pub line_text : Line → Bytes → Bytes
line_text (setting c cs before after v) rest =
    c ∷ (cs ++ (before ++ 61 ∷ (after ++ value_text v (10 ∷ rest))))
line_text (comment t) rest = 35 ∷ (t ++ 10 ∷ rest)
line_text blank rest = 10 ∷ rest

abbrev pub lines_text : List Line → Bytes → Bytes
lines_text [] rest = rest
lines_text (l ∷ ls) rest = line_text l (lines_text ls rest)

-- The buffer with a file: its lines and the zero behind them.
abbrev pub document : List Line → Bytes
document ls = lines_text ls (0 ∷ [])

-- The settings that a line puts in front of those before it.
abbrev pub with_line : Line → List Setting → List Setting
with_line (setting c cs before after v) ss = record { name = c ∷ cs; value = content v } ∷ ss
with_line (comment t) ss = ss
with_line blank ss = ss

-- The settings of a file, the last line's first.
abbrev pub parsed : List Line → List Setting → List Setting
parsed [] ss = ss
parsed (l ∷ ls) ss = parsed ls (with_line l ss)

-- The memory and the rounds that a line takes.
abbrev pub line_memory : Line → Mem → Mem
line_memory (setting c cs before after v) m = granted 3 m
line_memory (comment t) m = m
line_memory blank m = m

abbrev pub line_rounds : Line → ℕ → ℕ
line_rounds (setting c cs [] after v) k = suc k
line_rounds (setting c cs (b ∷ bs) after v) k = suc (suc k)
line_rounds (comment t) k = suc k
line_rounds blank k = suc k

space-not-name : (b : ℕ) → is_space b ≡ true → (is_name b ≡ false) × (b ≢ 0)
space-not-name b h = (ground (arith, h), λ z. ground (arith, h, z))

assign_state-space :
    (r : Reader) (s : ℕ) (spaces : Bytes) (y : ℕ) (tail : Bytes) (m : Mem)
    → is_space s ≡ true
    → Each is_space spaces
    → is_space y ≡ false
    → assign_state (record r { bp = s ∷ (spaces ++ y ∷ tail) }) m
      ≡ ok (record r { bp = y ∷ tail }) m
unfolding assign_state byte
assign_state-space r s spaces y tail m e h stop =
    rw (e, read_while-append is_space s spaces y tail m h stop) refl

eof-value_text :
    (z : ℕ) (after : Bytes) (v : Value) (rest : Bytes)
    → IsValue v
    → eof (z ∷ (after ++ value_text v rest)) ≡ false
eof-value_text z after (bare []) rest h = absurd h
eof-value_text z after (bare (c ∷ cs)) rest h = eof-append z after c (cs ++ rest)
eof-value_text z after (between v) rest h = eof-append z after 34 (v ++ 34 ∷ rest)

module _ (rest : Bytes) (ss : List Setting) (m : Mem) (k : ℕ)
    (more : (z : ℕ) → eof (z ∷ rest) ≡ false) (others : All HasName ss) (plenty : Plenty m) where
  pub read_loop-line :
      (l : Line)
      → IsLine l
      → read_loop (line_rounds l k) (reader (line_text l rest) (holds ss)) m
        ≡ read_loop k (reader rest (holds (with_line l ss))) (line_memory l m)
  unfolding read_loop step skip_comment switch_state global_state name_state byte eol_read
  read_loop-line blank h = rw (more 10) refl
  read_loop-line (comment t) h =
      rw (eof-append 35 t 10 rest, read_while-append is_line 35 t 10 rest m h refl) refl
  read_loop-line (setting c cs [] after v) ((e, named), (before, (spaces, h))) =
      let (a, (b, z)) = is_name-not c e in
      let tail = after ++ value_text v (10 ∷ rest) in
      rw
        (
          eof-append c cs 61 tail,
          b,
          a,
          read_while-append is_name c cs 61 tail m named refl,
          assign_state-equals (c ∷ cs) 61 tail rest ss m (e, named) refl (λ t. omega (arith, t))
              others plenty after v spaces h,
        )
        refl
  read_loop-line (setting c cs (s ∷ before) after v)
        ((e, named), ((f, before-spaces), (spaces, h))) =
      let (a, (b, z)) = is_name-not c e in
      let (d, nz) = space-not-name s f in
      let tail = after ++ value_text v (10 ∷ rest) in
      rw
        (
          eof-append c cs s (before ++ 61 ∷ tail),
          b,
          a,
          read_while-append is_name c cs s (before ++ 61 ∷ tail) m named d,
          assign_state-space
              (named_reader (c ∷ cs) s (before ++ 61 ∷ tail) rest ss m (e, named) d nz others plenty
                [] assign)
              s before 61 tail m f before-spaces refl,
          eof-value_text 61 after v (10 ∷ rest) h,
          assign_state-equals (c ∷ cs) s (before ++ 61 ∷ tail) rest ss m (e, named) d nz others
              plenty after v spaces h,
        )
        refl
