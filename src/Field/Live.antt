-- ===== src/Field/Live.antt =====
-- Undefined behaviour and the operations on a field of lib/srvd/libsrvd/protocol/packet.c.
use srvd.Base.{ℕ, ◌≤◌, Bool, true, false, not, some, length, ltb, ◌==◌, Bool-cases, inl, inr}
use srvd.Memory.{Bytes, Mem, Ends, ends, bind, if-Ends, malloc-Ends, copy-Ends}
use srvd.Field.Ownership.{field_finalize-gave_back}
use srvd.Field.{Field, field_finalize, fill_entry, entry_content, new_entry, entry_add}

fill_entry-Ends :
    (size : ℕ) (bs : Bytes) (block : Bool) (m : Mem)
    → size ≤ length bs
    → Ends (λ e. Unit {0}) (fill_entry size (some bs) block m)
unfolding fill_entry
fill_entry-Ends size bs false m h = ends tt
fill_entry-Ends size bs true m h = bind (copy-Ends bs size m h) λ c m₁ _. ends tt

entry_content-Ends :
    (size : ℕ) (bs : Bytes) (m : Mem)
    → size ≤ length bs
    → Ends (λ e. Unit {0}) (entry_content size (some bs) m)
unfolding entry_content
entry_content-Ends size bs m h = elim (Bool-cases (ltb 0 size)) [
  | inl e ↦ rw e (bind (malloc-Ends m) λ block m₁ _. fill_entry-Ends size bs block m₁ h)
  | inr e ↦ rw e (ends tt)
]

new_entry-Ends :
    (size : ℕ) (bs : Bytes) (m : Mem)
    → size ≤ length bs
    → Ends (λ e. Unit {0}) (new_entry size (some bs) m)
unfolding new_entry
new_entry-Ends size bs m h = elim (Bool-cases (size == 0)) [
  | inl e ↦ rw e (ends tt)
  | inr e ↦ rw e (
      bind (malloc-Ends m)
        λ node m₁ _. if-Ends (not node) _ _ m₁ (ends tt) (entry_content-Ends size bs m₁ h))
]

pub entry_add-Ends :
    (f : Field) (size : ℕ) (bs : Bytes) (m : Mem)
    → size ≤ length bs
    → Ends (λ r. Unit {0}) (entry_add f size (some bs) m)
unfolding entry_add
entry_add-Ends f size bs m h = bind (new_entry-Ends size bs m h) λ e m₁ _. ends tt

pub field_finalize-Ends : (f : Field) (m : Mem) → Ends (λ r. Unit {0}) (field_finalize f m)
field_finalize-Ends f m = rw (field_finalize-gave_back f m) (ends tt)
