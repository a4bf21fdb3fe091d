-- ===== src/Links/Injecting.antt =====
-- `_srvd_protocol_packet_field_inject_locked` of lib/srvd/libsrvd/protocol/packet.c on a list in the
-- store.
use srvd.Base.{ℕ, false, ◌≡◌, refl, sym, subst, ◌∙◌, Option, none, some, [], ◌∷◌, ◌==◌, arith}
use srvd.Links.{Store, Links, put, link_previous, inject_locked, or_set}
use srvd.Field.{increment}
use srvd.Links.Segment.{
  Cells, node, has, Apart, Linked, frame, or_set-some, has-ne, put-same, put-other, not_same,
  last-some,
}

-- The list with one more node in front, which is the new one.
pub inject_locked-Linked :
    {A : Type 0} (l : Links) (field : ℕ) (b : A) (next : Option ℕ) (h : Store A) (cs : Cells A)
    → Linked h none l.head l.tail none cs
    → Apart cs
    → has field cs ≡ false
    → h field ≡ some (node b next none)
    → (g : Store A) × (inject_locked l field h
        ≡ some (
          record { head = some field; tail = or_set l.tail field; count = increment l.count },
          g,
        ))
      × (Linked g none (some field) (or_set l.tail field) none ((field, b) ∷ cs)
          × ((q : ℕ) → has q cs ≡ false → (q == field) ≡ false → g q ≡ h q))
unfolding inject_locked link_previous put
inject_locked-Linked l field b next h [] (f, e) apart out fresh =
    let n = node b none none in
    (
      put h field (some n),
      rw (fresh, f, e) refl,
      (
        (refl, (none, put-same h field (some n), (refl, rw e refl))),
        λ q o ne. put-other h field q (some n) ne,
      ),
    )
inject_locked-Linked l field b next h ((p, a) ∷ cs) (f, (after, e, rest)) (alone, apart) out fresh =
    let h₁ = put h field (some (node b (some p) none)) in
    let n = node a after (some field) in
    let g = put h₁ p (some n) in
    let apart_of : (field == p) ≡ false = ground (arith, out) in
    let found : h₁ p ≡ some (node a after none) =
      put-other h field p (some (node b (some p) none)) (not_same field p apart_of) ∙ e in
    let others : (q : ℕ) → (q == p) ≡ false → (q == field) ≡ false → g q ≡ h q = λ q one two.
      put-other h₁ p q (some n) one ∙ put-other h field q (some (node b (some p) none)) two in
    let (z, ends) = last-some h none l.head l.tail none (p, a) cs (f, (after, e, rest)) in
    (
      g,
      rw (fresh, f, found) refl,
      (
        subst (λ x. Linked g none (some field) x none ((field, b) ∷ (p, a) ∷ cs))
            (sym (or_set-some l.tail field z ends))
            (
              refl,
              (
                some p,
                put-other h₁ p field (some n) apart_of
                    ∙ put-same h field (some (node b (some p) none)),
                (
                  refl,
                  (
                    after,
                    put-same h₁ p (some n),
                    frame h g (some p) after l.tail none cs rest λ q among.
                        others q (not_same p q (has-ne p q cs alone among))
                          (not_same field q (has-ne field q cs (ground (arith, out)) among)),
                  ),
                ),
              ),
            ),
        λ q o ne. others q (ground (arith, o)) ne,
      ),
    )
