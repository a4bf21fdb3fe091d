-- ===== src/Links/Segment.antt =====
-- What a part of a doubly linked list of lib/srvd/libsrvd/protocol/packet.c looks like in the store.
use srvd.Base.{
  ℕ, Bool, true, false, ◌||◌, ◌≡◌, refl, sym, ◌∙◌, Option, some, List, [], ◌∷◌, ◌++◌, ◌==◌, arith,
  Bool-cases, inl, inr, ==_iff,
}
use srvd.Links.{Node, Store, put, or_set}

-- The nodes of a list in order: their addresses and what they carry.
abbrev pub Cells : Type 0 → Type 0
Cells A = List (ℕ × A)

pub not_same : (p q : ℕ) → (p == q) ≡ false → (q == p) ≡ false
not_same p q h = ground (arith, h)

pub or_set-some : (o : Option ℕ) (field p : ℕ) → o ≡ some p → or_set o field ≡ o
or_set-some o field p e = rw e refl

module _ {ℓ} {N : Type ℓ} where
  pub put-hit : (h : ℕ → Option N) (p q : ℕ) (c : Option N) → (q == p) ≡ true → put h p c q ≡ c
  unfolding put
  put-hit h p q c e = rw e refl

  pub put-same : (h : ℕ → Option N) (p : ℕ) (c : Option N) → put h p c p ≡ c
  put-same h p c = put-hit h p p c ((==_iff p p).1 refl)

  pub put-other : (h : ℕ → Option N) (p q : ℕ) (c : Option N) → (q == p) ≡ false → put h p c q ≡ h q
  unfolding put
  put-other h p q c e = rw e refl

module _ {A : Type 0} where
  abbrev pub node : A → Option ℕ → Option ℕ → Node A
  node a next previous = record { item = a; next = next; previous = previous }

  abbrev pub has : ℕ → Cells A → Bool
  has p [] = false
  has p ((q, a) ∷ cs) = p == q || has p cs

  -- No address appears twice.
  abbrev pub Apart : Cells A → Type 0
  Apart [] = Unit {0}
  Apart ((p, a) ∷ cs) = (has p cs ≡ false) × Apart cs

  -- From `first` the `next` pointers lead through the cells to `after`, and from `last` the `previous`
  -- pointers lead through them to `before`.
  abbrev pub Linked : Store A → Option ℕ → Option ℕ → Option ℕ → Option ℕ → Cells A → Type 0
  Linked h before first last after [] = (first ≡ after) × (last ≡ before)
  Linked h before first last after ((p, a) ∷ cs) =
      (first ≡ some p)
      × ((next : Option ℕ) × (h p ≡ some (node a next before))
          × Linked h (some p) next last after cs)

  -- A part of a list does not depend on other addresses.
  pub frame :
      (h g : Store A) (before first last after : Option ℕ) (cs : Cells A)
      → Linked h before first last after cs
      → ((p : ℕ) → has p cs ≡ true → g p ≡ h p)
      → Linked g before first last after cs
  frame h g before first last after [] l same = l
  frame h g before first last after ((p, a) ∷ cs) (f, (next, e, l)) same = (
    f,
    (
      next,
      same p (ground arith) ∙ e,
      frame h g (some p) next last after cs l λ q i. same q (ground (arith, i)),
    ),
  )

  pub has-append : (p : ℕ) (cs ds : Cells A) → has p (cs ++ ds) ≡ (has p cs || has p ds)
  has-append p [] ds = refl
  has-append p ((q, a) ∷ cs) ds = ground (arith, has-append p cs ds)

  -- An address among the cells is none that is not.
  pub has-ne : (p q : ℕ) (cs : Cells A) → has p cs ≡ false → has q cs ≡ true → (p == q) ≡ false
  has-ne p q cs out among = elim (Bool-cases (p == q)) [
    | inl e ↦ absurd (
        let same : p ≡ q = omega (arith, (==_iff p q).0 e) in
        let never : true ≡ false = sym among ∙ rw same at out in cc)
    | inr e ↦ e
  ]

  pub last-some :
      (h : Store A) (before first last after : Option ℕ) (c : ℕ × A) (cs : Cells A)
      → Linked h before first last after (c ∷ cs)
      → (q : ℕ) × (last ≡ some q)
  last-some h before first last after (p, a) [] (f, (next, e, (n, l))) = (p, l)
  last-some h before first last after (p, a) (d ∷ cs) (f, (next, e, l)) =
      last-some h (some p) next last after d cs l
