-- ===== src/Links/Statements.antt =====
-- `srvd_protocol_packet_field_add` and `srvd_protocol_packet_field_inject` of
-- lib/srvd/libsrvd/protocol/packet.c by the statement, for threads that share a packet.
use srvd.Base.{ℕ, ◌≡◌, refl, Option, some, [], ◌∷◌, Option-cases, inl, inr}
use srvd.Field.{increment}
use srvd.Links.{
  Store, Links, put, or_set, link_next, link_previous, add_locked, inject_locked, ◌>>=◌,
}
use srvd.Links.Segment.{put-same}
use srvd.Thread.Mutex.{Body}
use srvd.Thread.Mutex.Running.{run_body}

-- The struct that owns the list, and the nodes.
abbrev pub Shared : Type 0 → Type 0
Shared A = Links × Store A

module _ {A : Type 0} where
  abbrev set_head : ℕ → Shared A → Option (Shared A)
  set_head field (l, h) = some (record l { head = some field }, h)

  abbrev set_tail : ℕ → Shared A → Option (Shared A)
  set_tail field (l, h) = some (record l { tail = some field }, h)

  abbrev head_if_null : ℕ → Shared A → Option (Shared A)
  head_if_null field (l, h) = some (record l { head = or_set l.head field }, h)

  abbrev tail_if_null : ℕ → Shared A → Option (Shared A)
  tail_if_null field (l, h) = some (record l { tail = or_set l.tail field }, h)

  unfoldable pub set_previous : ℕ → Shared A → Option (Shared A)
  set_previous field (l, h) = do
    n ← h field
    some (l, put h field (some (record n { previous = l.tail })))

  unfoldable pub set_next : ℕ → Shared A → Option (Shared A)
  set_next field (l, h) = do n ← h field; some (l, put h field (some (record n { next = l.head })))

  unfoldable pub next_of_previous : ℕ → Shared A → Option (Shared A)
  next_of_previous field (l, h) = do n ← h field; h ← link_next n.previous field h; some (l, h)

  unfoldable pub previous_of_next : ℕ → Shared A → Option (Shared A)
  previous_of_next field (l, h) = do n ← h field; h ← link_previous n.next field h; some (l, h)

  abbrev count_up : Shared A → Option (Shared A)
  count_up (l, h) = some (record l { count = increment l.count }, h)

  -- Between the lock and the unlock of `srvd_protocol_packet_field_add`.
  unfoldable pub add_body : ℕ → Body (Shared A)
  add_body field =
      head_if_null field
      ∷ set_previous field
      ∷ next_of_previous field
      ∷ set_tail field
      ∷ count_up
      ∷ []

  -- Between the lock and the unlock of `srvd_protocol_packet_field_inject`.
  unfoldable pub inject_body : ℕ → Body (Shared A)
  inject_body field =
      tail_if_null field ∷ set_next field ∷ previous_of_next field ∷ set_head field ∷ count_up ∷ []

  -- The statements in a row are the function that has them at once.
  pub run_body-add_body :
      (field : ℕ) (l : Links) (h : Store A)
      → run_body (add_body field) (some (l, h)) ≡ add_locked l field h
  unfolding add_body set_previous next_of_previous add_locked
  run_body-add_body field l h = elim (Option-cases (h field)) [
    | inl e ↦ rw e refl
    | inr (n, e) ↦
        let h₁ = put h field (some (record n { previous = l.tail })) in
        elim (Option-cases (link_next l.tail field h₁)) [
          | inl stuck ↦ rw (e, put-same h field (some (record n { previous = l.tail })), stuck) refl
          | inr (g, linked) ↦
              rw (e, put-same h field (some (record n { previous = l.tail })), linked) refl
        ]
  ]

  pub run_body-inject_body :
      (field : ℕ) (l : Links) (h : Store A)
      → run_body (inject_body field) (some (l, h)) ≡ inject_locked l field h
  unfolding inject_body set_next previous_of_next inject_locked
  run_body-inject_body field l h = elim (Option-cases (h field)) [
    | inl e ↦ rw e refl
    | inr (n, e) ↦
        let h₁ = put h field (some (record n { next = l.head })) in
        elim (Option-cases (link_previous l.head field h₁)) [
          | inl stuck ↦ rw (e, put-same h field (some (record n { next = l.head })), stuck) refl
          | inr (g, linked) ↦
              rw (e, put-same h field (some (record n { next = l.head })), linked) refl
        ]
  ]
