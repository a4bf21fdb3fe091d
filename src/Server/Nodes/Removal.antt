-- ===== src/Server/Nodes/Removal.antt =====
-- `srvd_server_service_remove` of lib/srvd/libsrvd/server.c on the list of nodes.
use srvd.Base.{
  ℕ, Bool, true, false, ◌≡◌, refl, ap, ◌∙◌, Option, none, some, List, [], ◌∷◌, ◌==◌, if◌then◌else◌,
  arith, map, rounds, Bool-cases, inl, inr,
}
use srvd.Links.{put}
use srvd.Links.Segment.{Cells, has, Apart, has-ne, put-hit, put-same, put-other, not_same}
use srvd.Server.{Service, remove_loop}
use srvd.Server.Nodes.{ServiceNode, NodeStore, unlink_node, remove_node}

abbrev pub ServiceCells : Type 0 → Type 0
ServiceCells H = Cells (Service H)

module _ {H : Type 0} where
  -- From `first` the `next` pointers lead through the cells to `NULL`.
  abbrev pub Chain : NodeStore H → Option ℕ → ServiceCells H → Type 0
  Chain h first [] = first ≡ none
  Chain h first ((p, s) ∷ cs) =
      (first ≡ some p)
      × ((next : Option ℕ) × (h p ≡ some (record { service = s; next = next })) × Chain h next cs)

  abbrev pub services_of : ServiceCells H → List (Service H)
  services_of = map (λ c. c.1)

  pub Chain-frame :
      (h g : NodeStore H) (first : Option ℕ) (cs : ServiceCells H)
      → Chain h first cs
      → ((p : ℕ) → has p cs ≡ true → g p ≡ h p)
      → Chain g first cs
  Chain-frame h g first [] c same = c
  Chain-frame h g first ((p, s) ∷ cs) (f, (next, e, c)) same = (
    f,
    (next, same p (ground arith) ∙ e, Chain-frame h g next cs c λ q i. same q (ground (arith, i))),
  )

  -- The cells without the first of the type, and whether there is one.
  abbrev pub without : ℕ → ServiceCells H → ServiceCells H
  without t [] = []
  without t ((p, s) ∷ cs) = let rest = without t cs in if s.type == t then cs else (p, s) ∷ rest

  abbrev pub found : ℕ → ServiceCells H → Bool
  found t [] = false
  found t ((p, s) ∷ cs) = let rest = found t cs in if s.type == t then true else rest

  -- The loop behind a node that stays.
  pub remove_node-behind :
      (t n q : ℕ) (b : Service H) (next services : Option ℕ) (h : NodeStore H) (cs : ServiceCells H)
      → h q ≡ some (record { service = b; next = next })
      → Chain h next cs
      → Apart ((q, b) ∷ cs)
      → (g : NodeStore H) × (remove_node (rounds cs n) t (some q) next services h
          ≡ some (found t cs, services, g))
        × (Chain g (some q) ((q, b) ∷ without t cs)
            × (((a : ℕ) → has a ((q, b) ∷ cs) ≡ false → g a ≡ h a)
                × ((a : ℕ)
                    → has a ((q, b) ∷ cs) ≡ true
                    → has a ((q, b) ∷ without t cs) ≡ false
                    → g a ≡ none)))
  unfolding remove_node unlink_node
  remove_node-behind t n q b next services h [] here c apart =
      (h, rw c refl, ((refl, (next, here, c)), ((λ a o. refl), λ a i o. cc)))
  remove_node-behind t n q b next services h ((p, s) ∷ cs) here (f, (after, e, c)) (alone, apart) =
      elim (Bool-cases (s.type == t)) [
        | inl same ↦
            let h₁ = put h q (some (record { service = b; next = after })) in
            let g = put h₁ p none in
            let n₁ : ServiceNode H = record { service = b; next = after } in
            let others : (a : ℕ) → (a == q) ≡ false → (a == p) ≡ false → g a ≡ h a =
              λ a one two. put-other h₁ p a none two ∙ put-other h q a (some n₁) one in
            (
              g,
              rw (f, e, same, here) refl,
              (
                rw same (
                  refl,
                  (
                    after,
                    put-other h₁ p q none (ground (arith, alone)) ∙ put-same h q (some n₁),
                    Chain-frame h g after cs c λ a i.
                        others a (not_same q a (has-ne q a cs (ground (arith, alone)) i))
                          (not_same p a (has-ne p a cs apart.0 i)),
                  ),
                ),
                (
                  (λ a o. others a (ground (arith, o)) (ground (arith, o))),
                  λ a i o. put-hit h₁ p a none (ground (arith, i, rw same at o)),
                ),
              ),
            )
        | inr other ↦
            let (g, run, (chain, (kept, gone))) =
              remove_node-behind t n p s after services h cs e c apart in
            (
              g,
              rw (f, e, other, run) refl,
              (
                rw other (refl, (some p, kept q alone ∙ rw f at here, chain)),
                (
                  (λ a o. kept a (ground (arith, o))),
                  λ a i o.
                      let out = rw other at o in
                      gone a (ground (arith, i, out)) (ground (arith, out)),
                ),
              ),
            )
      ]

  has-without : (t a : ℕ) (cs : ServiceCells H) → has a cs ≡ false → has a (without t cs) ≡ false
  has-without t a [] o = refl
  has-without t a ((p, s) ∷ cs) o = ground (arith, o, has-without t a cs (ground (arith, o)))

  pub Apart-without : (t : ℕ) (cs : ServiceCells H) → Apart cs → Apart (without t cs)
  Apart-without t [] apart = tt
  Apart-without t ((p, s) ∷ cs) (alone, apart) = elim (Bool-cases (s.type == t)) [
    | inl same ↦ rw same apart
    | inr other ↦ rw other (has-without t p cs alone, Apart-without t cs apart)
  ]

  -- The nodes without the first of the type, as Server takes it out of its list.
  pub remove_loop-without :
      (t : ℕ) (cs : ServiceCells H)
      → remove_loop t (services_of cs)
        ≡ (if found t cs then some (services_of (without t cs)) else none)
  unfolding remove_loop
  remove_loop-without t [] = refl
  remove_loop-without t ((p, s) ∷ cs) = ground (arith, remove_loop-without t cs)

  pub without-absent : (t : ℕ) (cs : ServiceCells H) → found t cs ≡ false → without t cs ≡ cs
  without-absent t [] o = refl
  without-absent t ((p, s) ∷ cs) o = elim (Bool-cases (s.type == t)) [
    | inl same ↦ absurd (let never : true ≡ false = rw same at o in cc)
    | inr other ↦ rw other (ap (λ ds. (p, s) ∷ ds) (without-absent t cs (rw other at o)))
  ]
