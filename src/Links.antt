-- ===== src/Links.antt =====
-- The doubly linked lists of lib/srvd/libsrvd/protocol/packet.c by their pointers: the fields of a
-- packet and the entries of a field, which have the same text. Objects stand at addresses, `none` is
-- `NULL` for a pointer, and a result `none` is an access through `NULL` or to a freed object. Packet
-- and Field have lists of nodes instead.
pub mod Segment
pub mod Appending
pub mod Injecting
pub mod Walking
pub mod Refinement
pub mod Statements
pub mod Pushes
pub mod Sharing
use srvd.Base.{ℕ, zero, suc, Option, none, some, List, [], ◌∷◌, ◌==◌, if◌then◌else◌}
use srvd.Field.{increment}

-- A node: what it carries, and its two pointers.
pub record Node {ℓ} (A : Type ℓ) : Type ℓ where
  pub item : A
  pub next : Option ℕ
  pub previous : Option ℕ

-- `head`, `tail` and `count` of the struct that owns the list
pub record Links : Type 0 where
  pub head : Option ℕ
  pub tail : Option ℕ
  pub count : ℕ

abbrev pub empty : Links
empty = record { head = none; tail = none; count = 0 }

-- The objects that are allocated.
abbrev pub Store {ℓ} : Type ℓ → Type ℓ
Store A = ℕ → Option (Node A)

infixl 5 ◌>>=◌
abbrev pub ◌>>=◌ {ℓ κ} : {A : Type ℓ} {B : Type κ} → Option A → (A → Option B) → Option B
none >>= k = none
some a >>= k = k a

-- A pointer that is set if it was `NULL`.
abbrev pub or_set : Option ℕ → ℕ → Option ℕ
or_set none field = some field
or_set (some p) field = some p

-- A write to an address.
unfoldable pub put {ℓ} : {N : Type ℓ} → (ℕ → Option N) → ℕ → Option N → ℕ → Option N
put h p c a = if a == p then c else h a

module _ {ℓ} {A : Type ℓ} where
  -- `if(field->previous) field->previous->next = field`
  unfoldable pub link_next : Option ℕ → ℕ → Store A → Option (Store A)
  link_next none field h = some h
  link_next (some p) field h = do n ← h p; some (put h p (some (record n { next = some field })))

  -- `if(field->next) field->next->previous = field`
  unfoldable pub link_previous : Option ℕ → ℕ → Store A → Option (Store A)
  link_previous none field h = some h
  link_previous (some p) field h = do
    n ← h p
    some (put h p (some (record n { previous = some field })))

  -- `_srvd_protocol_packet_field_add_locked`
  pub add_locked : Links → ℕ → Store A → Option (Links × Store A)
  add_locked l field h = do
    n ← h field
    h ← link_next l.tail field (put h field (some (record n { previous = l.tail })))
    some (record { head = or_set l.head field; tail = some field; count = increment l.count }, h)

  -- `_srvd_protocol_packet_field_inject_locked`
  pub inject_locked : Links → ℕ → Store A → Option (Links × Store A)
  inject_locked l field h = do
    n ← h field
    h ← link_previous l.head field (put h field (some (record n { next = l.head })))
    some (record { head = some field; tail = or_set l.tail field; count = increment l.count }, h)

  -- `SRVD_PROTOCOL_PACKET_FIELD_ITERATE`: what its body sees, in at most as many rounds.
  pub walk : ℕ → Option ℕ → Store A → Option (List A)
  walk n none h = some []
  walk zero (some p) h = none
  walk (suc n) (some p) h = do i ← h p; rest ← walk n i.next h; some (i.item ∷ rest)

  -- The loop of `srvd_protocol_packet_finalize`, which reads the next pointer before it frees the node.
  pub release : ℕ → Option ℕ → Store A → Option (Store A)
  release n none h = some h
  release zero (some p) h = none
  release (suc n) (some p) h = do i ← h p; release n i.next (put h p none)
