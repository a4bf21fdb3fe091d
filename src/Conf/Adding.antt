-- ===== src/Conf/Adding.antt =====
-- What `srvd_conf_item_add` of lib/srvd/libsrvd/conf.c stores, and the blocks it takes.
use srvd.Base.{
  ℕ, suc, ◌+◌, true, false, ◌≡◌, refl, ap, ◌∙◌, Option, none, some, [], ◌∷◌, ◌++◌, arith, length,
  take-append, Bool-cases, inl, inr, length-append,
}
use srvd.Memory.{
  Bytes, Mem, Run, ok, malloc, free, strncpy, strncpy_loop, terminate, terminate-last, taken,
  refused, granted, Plenty,
}
use srvd.Conf.{ConfItem, copy_string, copy_value, finish_item, new_item}
use srvd.Conf.Items.{IsText, terminated, Setting, IsSetting, stored}

-- A pointer to a text with a byte behind it, its terminator or another.
abbrev pub Followed : Bytes → Bytes → Type 0
Followed p s = (x : ℕ) × (rest : Bytes) × (p ≡ s ++ x ∷ rest)

strncpy_loop-text :
    (s : Bytes) (x : ℕ) (rest : Bytes) (m : Mem)
    → IsText s
    → strncpy_loop (s ++ x ∷ rest) (suc (length s)) m ≡ ok (s ++ x ∷ []) m
unfolding strncpy_loop
strncpy_loop-text [] x rest m text = ground arith
strncpy_loop-text (b ∷ s) x rest m (ne, text) =
    ground (arith, ne, strncpy_loop-text s x rest m text)

pub strncpy-text :
    (s : Bytes) (x : ℕ) (rest : Bytes) (m : Mem)
    → IsText s
    → strncpy (some (s ++ x ∷ rest)) (suc (length s)) m ≡ ok (s ++ x ∷ []) m
unfolding strncpy
strncpy-text s x rest m text = strncpy_loop-text s x rest m text

pub terminate-text :
    (s : Bytes) (x : ℕ) (m : Mem) → terminate (suc (length s)) (s ++ x ∷ []) m ≡ ok (terminated s) m
terminate-text s x m =
    terminate-last (length s) (s ++ x ∷ []) m (omega (arith, length-append s (x ∷ [])))
    ∙ ap (λ t. ok (t ++ 0 ∷ []) m) (take-append s (x ∷ []))

module _ (p s : Bytes) (m : Mem) (text : IsText s) (at : Followed p s) where
  pub copy_string-granted :
      m.succeeds m.calls ≡ true
      → copy_string (some p) (suc (length s)) m ≡ ok (some (terminated s)) (taken m)
  unfolding copy_string malloc strncpy
  copy_string-granted e =
      let (x, rest, p-eq) = at in
      rw (e, p-eq, strncpy_loop-text s x rest (taken m) text, terminate-text s x (taken m)) refl

  copy_string-refused :
      m.succeeds m.calls ≡ false → copy_string (some p) (suc (length s)) m ≡ ok none (refused m)
  unfolding copy_string malloc
  copy_string-refused e = rw e refl

-- What a run says of the new item, and of the blocks: three more in use, or none.
abbrev pub Made : Setting → Mem → Option ConfItem → Mem → Type 0
Made s m none m' = (m'.allocated + m.released) ≡ (m.allocated + m'.released)
Made s m (some n) m' =
    (n ≡ stored s) × ((m'.allocated + m.released) ≡ (m.allocated + m'.released + 3))

thrice : (n : ℕ) → n + 1 + 1 + 1 ≡ n + 3
thrice n = omega arith

module _ (s : Setting) (p q : Bytes) (text : IsSetting s) (name_at : Followed p s.name)
    (value_at : Followed q s.value) where
  pub new_item-Made :
      (m : Mem)
      → (n : Option ConfItem) × (m' : Mem) × (new_item
            (some p)
            (suc (length s.name))
            (some q)
            (suc (length s.value))
            m
          ≡ ok n m')
        × Made s m n m'
  unfolding new_item malloc copy_value finish_item free
  new_item-Made m = elim (Bool-cases (m.succeeds m.calls)) [
    | inr e ↦ (none, refused m, rw e refl, omega arith)
    | inl e ↦ elim (Bool-cases (m.succeeds (m.calls + 1))) [
      | inr e2 ↦ (
        none,
        (record (refused (taken m)) { released = m.released + 1 }),
        rw (e, copy_string-refused p s.name (taken m) text.0 name_at e2) refl,
        omega arith,
      )
      | inl e2 ↦ elim (Bool-cases (m.succeeds (m.calls + 1 + 1))) [
        | inr e3 ↦ (
          none,
          (record (refused (taken (taken m))) { released = m.released + 1 + 1 }),
          rw
              (
                e,
                copy_string-granted p s.name (taken m) text.0 name_at e2,
                copy_string-refused q s.value (taken (taken m)) text.1 value_at e3,
              )
              refl,
          omega arith,
        )
        | inl e3 ↦ (
          some (stored s),
          taken (taken (taken m)),
          rw
              (
                e,
                copy_string-granted p s.name (taken m) text.0 name_at e2,
                copy_string-granted q s.value (taken (taken m)) text.1 value_at e3,
              )
              refl,
          (refl, omega arith),
        )
      ]
    ]
  ]

  -- With memory at hand the item is made.
  pub new_item-granted :
      (m : Mem)
      → Plenty m
      → new_item (some p) (suc (length s.name)) (some q) (suc (length s.value)) m
        ≡ ok (some (stored s)) (granted 3 m)
  unfolding new_item malloc copy_value finish_item
  new_item-granted m plenty =
      rw
        (
          plenty m.calls,
          copy_string-granted p s.name (taken m) text.0 name_at (plenty (m.calls + 1)),
          copy_string-granted q s.value (taken (taken m)) text.1 value_at
              (plenty (m.calls + 1 + 1)),
        )
        (three (λ k l. ok (some (stored s)) (record m { calls = k; allocated = l })))
    where
      three :
          (f : ℕ → ℕ → Run (Option ConfItem))
          → f (m.calls + 1 + 1 + 1) (m.allocated + 1 + 1 + 1) ≡ f (m.calls + 3) (m.allocated + 3)
      three f = rw (thrice m.calls, thrice m.allocated) refl
