-- ===== src/Conf/Reader/Lines.antt =====
-- The lines of a configuration file, and what the states of `_srvd_conf_file_read` in
-- lib/srvd/libsrvd/conf.c read of them.
use srvd.Base.{ℕ, false, ◌≡◌, ◌≢◌, refl, some, List, [], ◌∷◌, ◌++◌, ◌==◌, arith, All}
use srvd.Memory.{Bytes, Mem, ok, granted, Plenty}
use srvd.Conf.Items.{IsText, Setting, holds}
use srvd.Conf.Scan.{byte, next, is_eol, is_space, is_name, eol_read}
use srvd.Conf.Scan.Text.{
  Each, is_plain, is_quotable, read_while-append, plain_loop-append, quoted_loop-append,
}
use srvd.Conf.Reader.{
  ReadState, assign, value, Reader, line_end, close_state, close_quote, after_quoted, quoted, plain,
  value_state, assign_state, reader,
}
use srvd.Conf.Reader.Store.{HasName, store_item-granted}

-- A value as it is, or between quotes.
pub data Value : Type 0 where
  bare : Bytes → Value
  between : Bytes → Value

abbrev pub content : Value → Bytes
content (bare v) = v
content (between v) = v

-- A value in the text, before what follows it.
abbrev pub value_text : Value → Bytes → Bytes
value_text (bare v) rest = v ++ rest
value_text (between v) rest = 34 ∷ (v ++ 34 ∷ rest)

abbrev pub IsValue : Value → Type 0
IsValue (bare []) = ⊥
IsValue (bare (c ∷ cs)) = ((c == 34) ≡ false) × Each is_plain (c ∷ cs)
IsValue (between v) = Each is_quotable v

pub value-IsText : (v : Value) → IsValue v → IsText (content v)
value-IsText (bare []) h = absurd h
value-IsText (bare (c ∷ cs)) (ne, h) = each-plain (c ∷ cs) h
  where
    each-plain : (cs : Bytes) → Each is_plain cs → IsText cs
    each-plain [] h = tt
    each-plain (c ∷ cs) (e, h) = (λ z. ground (arith, e, z), each-plain cs h)
value-IsText (between v) h = each-quotable v h
  where
    each-quotable : (cs : Bytes) → Each is_quotable cs → IsText cs
    each-quotable [] h = tt
    each-quotable (c ∷ cs) (e, h) = (λ z. ground (arith, e, z), each-quotable cs h)

module _ (n : Bytes) (x : ℕ) (before : Bytes) (rest : Bytes) (ss : List Setting) (m : Mem)
    (named : Each is_name n) (stop : is_name x ≡ false) (ne : x ≢ 0) (others : All HasName ss)
    (plenty : Plenty m) where
  -- The variables when the name has been read.
  abbrev pub named_reader : Bytes → ReadState → Reader
  named_reader bp state = record (reader bp (holds ss)) {
    state = state;
    name_start = some (n ++ x ∷ before);
    name_end = some (x ∷ before);
  }

  value_state-value_text :
      (v : Value)
      → IsValue v
      → value_state (named_reader (value_text v (10 ∷ rest)) value) m
        ≡ ok (reader rest (holds (record { name = n; value = content v } ∷ ss))) (granted 3 m)
  unfolding value_state quoted plain after_quoted close_quote close_state line_end byte eol_read
      next
  value_state-value_text (bare []) h = absurd h
  value_state-value_text (bare (c ∷ cs)) (ne', (e, h)) =
      let a : is_space c ≡ false = ground (arith, e) in
      let b : is_eol c ≡ false = ground (arith, e) in
      rw
        (
          a,
          b,
          ne',
          plain_loop-append c cs rest h,
          store_item-granted (record { name = n; value = c ∷ cs }) x before 10 rest ss rest m named
              (value-IsText (bare (c ∷ cs)) (ne', (e, h))) stop ne others plenty,
        )
        refl
  value_state-value_text (between v) h =
      rw
        (
          quoted_loop-append v 10 rest m h,
          store_item-granted (record { name = n; value = v }) x before 34 (10 ∷ rest) ss rest m
              named (value-IsText (between v) h) stop ne others plenty,
        )
        refl

  -- From the equals sign on.
  pub assign_state-equals :
      (after : Bytes) (v : Value)
      → Each is_space after
      → IsValue v
      → assign_state (named_reader (61 ∷ (after ++ value_text v (10 ∷ rest))) assign) m
        ≡ ok (reader rest (holds (record { name = n; value = content v } ∷ ss))) (granted 3 m)
  unfolding assign_state byte
  assign_state-equals after (bare []) spaces h = absurd h
  assign_state-equals after (bare (c ∷ cs)) spaces (ne', (e, h)) =
      let a : is_space c ≡ false = ground (arith, e) in
      rw (read_while-append is_space 61 after c (cs ++ 10 ∷ rest) m spaces a)
        (value_state-value_text (bare (c ∷ cs)) (ne', (e, h)))
  assign_state-equals after (between v) spaces h =
      rw (read_while-append is_space 61 after 34 (v ++ 34 ∷ 10 ∷ rest) m spaces refl)
        (value_state-value_text (between v) h)
