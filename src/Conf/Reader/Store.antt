-- ===== src/Conf/Reader/Store.antt =====
-- What the parser of lib/srvd/libsrvd/conf.c stores for the pointers that it has found.
use srvd.Base.{
  ℕ, suc, true, false, ◌≡◌, ◌≢◌, refl, ap, none, some, List, [], ◌∷◌, ◌++◌, map, ◌==◌, arith,
  length, All, inl, inr, Bool-cases, ==_iff, length-append,
}
use srvd.Memory.{Bytes, Mem, ok, strncmp, granted, Plenty}
use srvd.Conf.{item_has, has_name, item_add}
use srvd.Conf.Items.{IsText, terminated, Setting, stored, holds}
use srvd.Conf.Adding.{new_item-granted}
use srvd.Conf.Scan.{is_name}
use srvd.Conf.Scan.Text.{Each, is_name-not}
use srvd.Conf.Reader.{close, span, store_item}

-- The names in a configuration file consist of letters, digits and colons.
abbrev pub HasName : Setting → Type 0
HasName s = Each is_name s.name

pub name-IsText : (name : Bytes) → Each is_name name → IsText name
name-IsText [] h = tt
name-IsText (c ∷ cs) (e, h) = (λ z. ground (arith, e, z), name-IsText cs h)

-- A stored name is not what the buffer holds from a name on: another byte than a terminator ends it there.
strncmp-unterminated :
    (a b : Bytes) (x : ℕ) (rest : Bytes) (m : Mem)
    → Each is_name a
    → Each is_name b
    → is_name x ≡ false
    → x ≢ 0
    → strncmp (terminated a) (b ++ x ∷ rest) (suc (length a)) m ≡ ok false m
unfolding strncmp
strncmp-unterminated [] [] x rest m p q stop ne = ground (arith, ne)
strncmp-unterminated [] (y ∷ b) x rest m p (e, q) stop ne = ground (arith, e)
strncmp-unterminated (z ∷ a) [] x rest m (e, p) q stop ne = elim (Bool-cases (z == x)) [
  | inl t ↦ absurd (ground (arith, e, stop, (==_iff z x).0 t))
  | inr t ↦ rw t refl
]
strncmp-unterminated (z ∷ a) (y ∷ b) x rest m (e, p) (f, q) stop ne = elim (Bool-cases (z == y)) [
  | inr t ↦ rw t refl
  | inl t ↦ rw (t, (is_name-not z e).1.1, strncmp-unterminated a b x rest m p q stop ne) refl
]

module _ (name : Bytes) (x : ℕ) (rest : Bytes) (m : Mem) (named : Each is_name name)
    (stop : is_name x ≡ false) (ne : x ≢ 0) where
  has_name-unterminated :
      (ss : List Setting)
      → All HasName ss
      → has_name (name ++ x ∷ rest) (map stored ss) m ≡ ok false m
  unfolding has_name
  has_name-unterminated [] h = refl
  has_name-unterminated (s ∷ ss) (e, h) =
      rw (strncmp-unterminated s.name name x rest m e named stop ne) (has_name-unterminated ss h)

  -- A pointer into the buffer is never found to be a name that is there already.
  pub item_has-unterminated :
      (ss : List Setting)
      → All HasName ss
      → item_has (holds ss) (some (name ++ x ∷ rest)) m ≡ ok false m
  unfolding item_has
  item_has-unterminated ss h = has_name-unterminated ss h

pub span-append :
    (s : Bytes) (x : ℕ) (rest : Bytes) (m : Mem)
    → span (some (s ++ x ∷ rest)) (some (x ∷ rest)) m ≡ ok (suc (length s)) m
unfolding span
span-append s x rest m = ap (λ n. ok n m) (omega (arith, length-append s (x ∷ rest)))

pub span-null : (m : Mem) → span none none m ≡ ok 1 m
unfolding span
span-null m = refl

-- With memory at hand, a name and a value that end inside the buffer are stored in front.
pub store_item-granted :
    (s : Setting) (x : ℕ) (rest : Bytes) (y : ℕ) (after : Bytes) (ss : List Setting) (bp : Bytes)
    (m : Mem)
    → HasName s
    → IsText s.value
    → is_name x ≡ false
    → x ≢ 0
    → All HasName ss
    → Plenty m
    → store_item
        (record {
          bp = bp;
          state = close;
          status = true;
          name_start = some (s.name ++ x ∷ rest);
          name_end = some (x ∷ rest);
          value_start = some (s.value ++ y ∷ after);
          value_end = some (y ∷ after);
          conf = holds ss;
        })
        m
      ≡ ok (holds (s ∷ ss)) (granted 3 m)
unfolding store_item item_add
store_item-granted s x rest y after ss bp m named text stop ne others plenty =
    rw
      (
        span-append s.name x rest m,
        span-append s.value y after m,
        item_has-unterminated s.name x rest m named stop ne ss others,
        new_item-granted s (s.name ++ x ∷ rest) (s.value ++ y ∷ after)
            (name-IsText s.name named, text) (x, rest, refl) (y, after, refl) m plenty,
      )
      refl
