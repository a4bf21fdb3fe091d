-- ===== src/Links/Appending.antt =====
-- `_srvd_protocol_packet_field_add_locked` of lib/srvd/libsrvd/protocol/packet.c on a list in the store.
use srvd.Base.{
  ℕ, true, false, ◌≡◌, refl, sym, subst, ◌∙◌, Option, none, some, [], ◌∷◌, ◌++◌, ◌==◌, arith,
}
use srvd.Links.{Store, Links, put, link_next, add_locked, or_set}
use srvd.Field.{increment}
use srvd.Links.Segment.{
  Cells, node, has, Apart, Linked, or_set-some, has-ne, put-same, put-other, not_same,
}

module _ {A : Type 0} (h : Store A) (field : ℕ) (b : A) where
  -- The last node of a list that is not empty, and what the list becomes in a store where only that
  -- node and the new one are written.
  record Tail (before first last : Option ℕ) (cs : Cells A) : Type 0 where
    at : ℕ
    ends : last ≡ some at
    among : has at cs ≡ true
    value : A
    previous : Option ℕ
    holds : h at ≡ some (node value none previous)
    grows :
        (g : Store A)
        → g at ≡ some (node value (some field) previous)
        → g field ≡ some (node b none (some at))
        → ((q : ℕ) → (q == at) ≡ false → (q == field) ≡ false → g q ≡ h q)
        → Linked g before first (some field) none (cs ++ (field, b) ∷ [])

  tail :
      (before first last : Option ℕ) (c : ℕ × A) (cs : Cells A)
      → Linked h before first last none (c ∷ cs)
      → Apart (c ∷ cs)
      → has field (c ∷ cs) ≡ false
      → Tail before first last (c ∷ cs)
  tail before first last (p, a) [] (f, (next, e, (n, l))) apart out = record {
    at = p;
    ends = l;
    among = ground arith;
    value = a;
    previous = before;
    holds = rw (← n) e;
    grows = λ g one two others. (f, (some field, one, (refl, (none, two, (refl, refl)))));
  }
  tail before first last (p, a) (d ∷ cs) (f, (next, e, l)) (alone, apart) out =
      let t = tail (some p) next last d cs l apart (ground (arith, out)) in
      record {
        at = t.at;
        ends = t.ends;
        among = ground (arith, t.among);
        value = t.value;
        previous = t.previous;
        holds = t.holds;
        grows = λ g one two others. (
          f,
          (
            next,
            others p (has-ne p t.at (d ∷ cs) alone t.among) (ground (arith, out)) ∙ e,
            t.grows g one two others,
          ),
        );
      }

-- The list with one more node at the end, which is the new one.
pub add_locked-Linked :
    {A : Type 0} (l : Links) (field : ℕ) (b : A) (previous : Option ℕ) (h : Store A) (cs : Cells A)
    → Linked h none l.head l.tail none cs
    → Apart cs
    → has field cs ≡ false
    → h field ≡ some (node b none previous)
    → (g : Store A) × (add_locked l field h
        ≡ some (
          record { head = or_set l.head field; tail = some field; count = increment l.count },
          g,
        ))
      × (Linked g none (or_set l.head field) (some field) none (cs ++ (field, b) ∷ [])
          × ((q : ℕ) → has q cs ≡ false → (q == field) ≡ false → g q ≡ h q))
unfolding add_locked link_next put
add_locked-Linked l field b previous h [] (f, e) apart out fresh =
    let n = node b none none in
    (
      put h field (some n),
      rw (fresh, f, e) refl,
      (
        (rw f refl, (none, put-same h field (some n), (refl, refl))),
        λ q o ne. put-other h field q (some n) ne,
      ),
    )
add_locked-Linked l field b previous h (c ∷ cs) linked apart out fresh =
    let t = tail h field b none l.head l.tail c cs linked apart out in
    let h₁ = put h field (some (node b none (some t.at))) in
    let n = node t.value (some field) t.previous in
    let g = put h₁ t.at (some n) in
    let apart_of = has-ne field t.at (c ∷ cs) out t.among in
    let found : h₁ t.at ≡ some (node t.value none t.previous) =
      put-other h field t.at (some (node b none (some t.at))) (not_same field t.at apart_of)
      ∙ t.holds in
    let others : (q : ℕ) → (q == t.at) ≡ false → (q == field) ≡ false → g q ≡ h q = λ q one two.
      put-other h₁ t.at q (some n) one ∙ put-other h field q (some (node b none (some t.at))) two in
    (
      g,
      rw (fresh, t.ends, found) refl,
      (
        subst (λ x. Linked g none x (some field) none (c ∷ (cs ++ (field, b) ∷ [])))
            (sym (or_set-some l.head field c.0 linked.0))
            (t.grows g (put-same h₁ t.at (some n))
              (put-other h₁ t.at field (some n) apart_of
                ∙ put-same h field (some (node b none (some t.at))))
              others),
        λ q o ne. others q (has-ne q t.at (c ∷ cs) o t.among) ne,
      ),
    )
