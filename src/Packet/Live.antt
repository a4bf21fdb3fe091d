-- ===== src/Packet/Live.antt =====
-- A packet of lib/srvd/libsrvd/protocol/packet.c none of whose fields was freed.
use srvd.Base.{
  ℕ, zero, suc, ◌+◌, ◌≤◌, ◌<◌, ◌≡◌, Option, none, some, List, [], ◌∷◌, ◌++◌, arith, length,
  get_elem?, set, ◌==◌, Bool-cases, inl, inr, length-append, length-set, last?,
}
use native.Mathlib.Nat.{zero-add}
use srvd.Memory.{Bytes, Mem, Ends, ends, bind, mono, free}
use srvd.Field.{Field}
use srvd.Field.Live.{entry_add-Ends, field_finalize-Ends}
use srvd.Packet.{
  Slot, live, freed, Packet, touch, type_loop, field_get_by_type, field_add_locked, deref_slot,
  field_at, entry_add_at, field_release_at,
}

abbrev pub LiveSlots : List Slot → Type 0
LiveSlots [] = Unit {0}
LiveSlots (live f ∷ ss) = LiveSlots ss
LiveSlots (freed ∷ ss) = ⊥

abbrev pub IsLive : Packet → Type 0
IsLive p = LiveSlots p.fields

-- A position in the packet, if there is one.
abbrev pub InRange : ℕ → Option ℕ → Type 0
InRange n none = Unit {0}
InRange n (some i) = i < n

InRange-suc : (i n : ℕ) (o : Option ℕ) → InRange (i + 1 + n) o → InRange (i + suc n) o
InRange-suc i n none h = tt
InRange-suc i n (some j) h = omega arith

type_loop-Ends :
    (t i : ℕ) (ss : List Slot) (m : Mem)
    → LiveSlots ss
    → Ends (InRange (i + length ss)) (type_loop t i ss m)
unfolding type_loop
type_loop-Ends t i [] m alive = ends tt
type_loop-Ends t i (freed ∷ ss) m alive = absurd alive
type_loop-Ends t i (live f ∷ ss) m alive = elim (Bool-cases (f.type == t)) [
  | inl e ↦ rw e (ends (omega arith))
  | inr e ↦ rw e (mono (type_loop-Ends t (i + 1) ss m alive) (InRange-suc i (length ss)))
]

LiveSlots-append : (ss : List Slot) (f : Field) → LiveSlots ss → LiveSlots (ss ++ live f ∷ [])
LiveSlots-append [] f alive = tt
LiveSlots-append (live g ∷ ss) f alive = LiveSlots-append ss f alive
LiveSlots-append (freed ∷ ss) f alive = absurd alive

LiveSlots-set : (ss : List Slot) (i : ℕ) (f : Field) → LiveSlots ss → LiveSlots (set ss i (live f))
LiveSlots-set [] i f alive = tt
LiveSlots-set (freed ∷ ss) i f alive = absurd alive
LiveSlots-set (live g ∷ ss) zero f alive = alive
LiveSlots-set (live g ∷ ss) (suc i) f alive = LiveSlots-set ss i f alive

touch-last-Ends :
    (ss : List Slot) (m : Mem) → LiveSlots ss → Ends (λ u. Unit {0}) (touch (last? ss) m)
unfolding touch
touch-last-Ends [] m alive = ends tt
touch-last-Ends (live f ∷ []) m alive = ends tt
touch-last-Ends (live f ∷ s ∷ ss) m alive = touch-last-Ends (s ∷ ss) m alive
touch-last-Ends (freed ∷ ss) m alive = absurd alive

deref_slot-Ends :
    (ss : List Slot) (i : ℕ) (m : Mem)
    → LiveSlots ss
    → i < length ss
    → Ends (λ f. Unit {0}) (deref_slot (get_elem? ss i) m)
unfolding deref_slot
deref_slot-Ends [] i m alive h = absurd (omega arith)
deref_slot-Ends (freed ∷ ss) i m alive h = absurd alive
deref_slot-Ends (live f ∷ ss) zero m alive h = ends tt
deref_slot-Ends (live f ∷ ss) (suc i) m alive h = deref_slot-Ends ss i m alive (omega arith)

pub field_at-Ends :
    (p : Packet) (i : ℕ) (m : Mem)
    → IsLive p
    → i < length p.fields
    → Ends (λ f. Unit {0}) (field_at p i m)
unfolding field_at
field_at-Ends p i m alive h = deref_slot-Ends p.fields i m alive h

pub field_get_by_type-Ends :
    (p : Packet) (t : ℕ) (m : Mem)
    → IsLive p
    → Ends (InRange (length p.fields)) (field_get_by_type p t m)
unfolding field_get_by_type
field_get_by_type-Ends p t m alive =
    mono (type_loop-Ends t 0 p.fields m alive) λ o. rw (zero-add (length p.fields)) λ h. h

pub field_add_locked-Ends :
    (p : Packet) (f : Field) (m : Mem)
    → IsLive p
    → Ends (λ q. IsLive q × (length q.fields ≡ length p.fields + 1)) (field_add_locked p f m)
unfolding field_add_locked
field_add_locked-Ends p f m alive =
    bind (touch-last-Ends p.fields m alive)
      λ _ m₁ _. ends (LiveSlots-append p.fields f alive, length-append p.fields (live f ∷ []))

-- `entry_add` through a pointer to a field keeps the packet live, whether it succeeds or not.
pub entry_add_at-Ends :
    (p : Packet) (i size : ℕ) (bs : Bytes) (m : Mem)
    → IsLive p
    → i < length p.fields
    → size ≤ length bs
    → Ends
        (λ (status, q). IsLive q × (length q.fields ≡ length p.fields))
        (entry_add_at p i size (some bs) m)
unfolding entry_add_at
entry_add_at-Ends p i size bs m alive h fits = bind (field_at-Ends p i m alive h) λ f m₁ _.
    bind (entry_add-Ends f size bs m₁ fits)
      λ (status, g) m₂ _. ends (LiveSlots-set p.fields i g alive, length-set p.fields i (live g))

-- The end of a field that the packet links.
pub field_release_at-Ends :
    (p : Packet) (i : ℕ) (m : Mem)
    → IsLive p
    → i < length p.fields
    → Ends (λ q. Unit {0}) (field_release_at p i m)
unfolding field_release_at free
field_release_at-Ends p i m alive h =
    bind (field_at-Ends p i m alive h) λ f m₁ _. bind (field_finalize-Ends f m₁) λ _ m₂ _. ends tt
