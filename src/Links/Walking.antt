-- ===== src/Links/Walking.antt =====
-- The loops of lib/srvd/libsrvd/protocol/packet.c over a list in the store.
use srvd.Base.{
  ℕ, true, false, ◌≡◌, refl, ◌∙◌, Option, none, some, List, [], ◌∷◌, arith, map, rounds, Bool-cases,
  inl, inr,
}
use srvd.Links.{Store, put, walk, release}
use srvd.Links.Segment.{Cells, has, Apart, Linked, frame, has-ne, put-hit, put-other, not_same}

module _ {A : Type 0} where
  -- What the nodes carry, in order.
  abbrev pub items : Cells A → List A
  items = map (λ c. c.1)

  -- The loop over the nodes sees each of them once, in order, and ends.
  pub walk-items :
      (h : Store A) (cs : Cells A) (n : ℕ) (before first last : Option ℕ)
      → Linked h before first last none cs
      → walk (rounds cs n) first h ≡ some (items cs)
  unfolding walk
  walk-items h [] n before first last (f, l) = rw f refl
  walk-items h ((p, a) ∷ cs) n before first last (f, (next, e, l)) =
      rw (f, e, walk-items h cs n (some p) next last l) refl

  -- The loop that frees the nodes reads none after it is freed, ends, and leaves exactly the others.
  pub release-freed :
      (h : Store A) (cs : Cells A) (n : ℕ) (before first last : Option ℕ)
      → Linked h before first last none cs
      → Apart cs
      → (g : Store A) × (release (rounds cs n) first h ≡ some g)
        × (((q : ℕ) → has q cs ≡ true → g q ≡ none) × ((q : ℕ) → has q cs ≡ false → g q ≡ h q))
  unfolding release
  release-freed h [] n before first last (f, l) apart = (h, rw f refl, ((λ q i. cc), λ q o. refl))
  release-freed h ((p, a) ∷ cs) n before first last (f, (next, e, l)) (alone, apart) =
      let h₁ = put h p none in
      let rest : Linked h₁ (some p) next last none cs =
        frame h h₁ (some p) next last none cs l
          λ q among. put-other h p q none (not_same p q (has-ne p q cs alone among)) in
      let (g, run, (gone, kept)) = release-freed h₁ cs n (some p) next last rest apart in
      (
        g,
        rw (f, e, run) refl,
        (
          λ q among. elim (Bool-cases (has q cs)) [
            | inl i ↦ gone q i
            | inr o ↦ kept q o ∙ put-hit h p q none (ground (arith, among, o))
          ],
          λ q o. kept q (ground (arith, o)) ∙ put-other h p q none (ground (arith, o)),
        ),
      )
