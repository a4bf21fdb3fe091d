-- ===== src/Conf/Items.antt =====
-- What the items say: `srvd_conf_item_get` and `srvd_conf_item_has` of
-- lib/srvd/libsrvd/conf.c against a lookup in a list of settings.
use srvd.Base.{
  ℕ, suc, Bool, true, false, not, ◌&&◌, ◌≡◌, ◌≢◌, refl, Option, none, some, List, [], ◌∷◌, ◌++◌,
  map, arith, ◌==◌, if◌then◌else◌, length, All, Bool-cases, inl, inr, ==_iff, is_some,
}
use srvd.Memory.{Bytes, Mem, ok, strncmp}
use srvd.Conf.{ConfItem, Conf, has_name, item_has, get_name, item_get}

abbrev pub IsText : Bytes → Type 0
IsText s = All (λ b. b ≢ 0) s

abbrev pub terminated : Bytes → Bytes
terminated s = s ++ 0 ∷ []

-- A test of a text.
abbrev pub is_text : Bytes → Bool
is_text [] = true
is_text (b ∷ bs) = not (b == 0) && is_text bs

pub is_text-IsText : (s : Bytes) → is_text s ≡ true → IsText s
is_text-IsText [] h = tt
is_text-IsText (b ∷ bs) h = elim (Bool-cases (b == 0)) [
  | inl e ↦ absurd (let never : false ≡ true = rw e at h in cc)
  | inr e ↦ (λ z. ground (arith, e, z), is_text-IsText bs (rw e at h))
]

pub record Setting : Type 0 where
  pub name : Bytes
  pub value : Bytes

abbrev pub IsSetting : Setting → Type 0
IsSetting s = IsText s.name × IsText s.value

-- A setting as an item, and settings as a configuration.
abbrev pub stored : Setting → ConfItem
stored s = record {
  name_length = suc (length s.name);
  value_length = suc (length s.value);
  name = terminated s.name;
  value = terminated s.value;
}

abbrev pub holds : List Setting → Conf
holds ss = record { nodes = map stored ss }

abbrev pub eq_bytes : Bytes → Bytes → Bool
eq_bytes [] [] = true
eq_bytes [] (y ∷ b) = false
eq_bytes (x ∷ a) [] = false
eq_bytes (x ∷ a) (y ∷ b) = x == y && eq_bytes a b

-- The value of the first setting of a name.
abbrev pub lookup : Bytes → List Setting → Option Bytes
lookup name [] = none
lookup name (s ∷ ss) = if eq_bytes s.name name then some s.value else lookup name ss

-- A value as `srvd_conf_item_get` hands it out.
abbrev pub as_item : Option Bytes → Option (Bytes × ℕ)
as_item none = none
as_item (some v) = some (terminated v, suc (length v))

pub eq_bytes_refl : (a : Bytes) → eq_bytes a a ≡ true
eq_bytes_refl [] = refl
eq_bytes_refl (x ∷ a) = rw ((==_iff x x).1 refl, eq_bytes_refl a) refl

pub eq_bytes-eq : (a b : Bytes) → eq_bytes a b ≡ true → a ≡ b
eq_bytes-eq [] [] h = refl
eq_bytes-eq [] (y ∷ b) h = cc
eq_bytes-eq (x ∷ a) [] h = cc
eq_bytes-eq (x ∷ a) (y ∷ b) h = elim (Bool-cases (x == y)) [
  | inl e ↦ rw ((==_iff x y).0 e, eq_bytes-eq a b (rw e at h)) refl
  | inr e ↦ absurd (let never : false ≡ true = rw e at h in cc)
]

-- The comparison of a stored name with a string decides whether they are the same.
pub strncmp-eq_bytes :
    (a b rest : Bytes) (m : Mem)
    → IsText a
    → IsText b
    → strncmp (terminated a) (b ++ 0 ∷ rest) (suc (length a)) m ≡ ok (eq_bytes a b) m
unfolding strncmp
strncmp-eq_bytes [] [] rest m p q = refl
strncmp-eq_bytes [] (y ∷ b) rest m p (ne, q) = ground (arith, ne)
strncmp-eq_bytes (x ∷ a) [] rest m (ne, p) q = ground (arith, ne)
strncmp-eq_bytes (x ∷ a) (y ∷ b) rest m (ne, p) (ne2, q) =
    ground (arith, ne, strncmp-eq_bytes a b rest m p q)

module _ (name rest : Bytes) (m : Mem) (text : IsText name) where
  has_name-lookup :
      (ss : List Setting)
      → All IsSetting ss
      → has_name (name ++ 0 ∷ rest) (map stored ss) m ≡ ok (is_some (lookup name ss)) m
  unfolding has_name
  has_name-lookup [] h = refl
  has_name-lookup (s ∷ ss) ((n, v), h) =
      let first = strncmp-eq_bytes s.name name rest m n text in
      elim (Bool-cases (eq_bytes s.name name)) [
        | inl e ↦ rw (first, e) refl
        | inr e ↦ rw (first, e) (has_name-lookup ss h)
      ]

  get_name-lookup :
      (ss : List Setting)
      → All IsSetting ss
      → get_name (name ++ 0 ∷ rest) (map stored ss) m ≡ ok (as_item (lookup name ss)) m
  unfolding get_name
  get_name-lookup [] h = refl
  get_name-lookup (s ∷ ss) ((n, v), h) =
      let first = strncmp-eq_bytes s.name name rest m n text in
      elim (Bool-cases (eq_bytes s.name name)) [
        | inl e ↦ rw (first, e) refl
        | inr e ↦ rw (first, e) (get_name-lookup ss h)
      ]

  pub item_has-lookup :
      (ss : List Setting)
      → All IsSetting ss
      → item_has (holds ss) (some (name ++ 0 ∷ rest)) m ≡ ok (is_some (lookup name ss)) m
  unfolding item_has
  item_has-lookup ss h = has_name-lookup ss h

  -- `srvd_conf_item_get` in a configuration of terminated settings, for a terminated name, reads no
  -- byte outside a buffer and hands out what a lookup of the name finds: the value of the first item
  -- of that name with its terminator and its length, or nothing.
  pub item_get-lookup :
      (ss : List Setting)
      → All IsSetting ss
      → item_get (holds ss) (some (name ++ 0 ∷ rest)) m ≡ ok (as_item (lookup name ss)) m
  unfolding item_get
  item_get-lookup ss h = get_name-lookup ss h
