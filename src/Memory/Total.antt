-- ===== src/Memory/Total.antt =====
-- Total correctness: a run that ends with no undefined behaviour, and what then holds of its result.
use srvd.Base.{
  ℕ, ◌+◌, ◌≤◌, Bool, if◌then◌else◌, true, false, some, [], ◌∷◌, arith, inl, inr, Bool-cases, length,
  drop, length-drop, le→leb,
}
use srvd.Memory.State.{Bytes, Mem, Run, ok, M, and_then, malloc}
use srvd.Memory.Buffer.{word16, read16, copy}

pub data Ends {ℓ κ} {A : Type ℓ} (P : A → Type κ) : Run A → Type (ℓ ⊔ κ) where
  ends : {a : A} {m : Mem} → P a → Ends P (ok a m)

module _ {ℓ κ} {A : Type ℓ} {P : A → Type κ} where
  pub bind {ν ξ} :
      {B : Type ν} {Q : B → Type ξ} {r : Run A} {k : A → M B}
      → Ends P r
      → ((a : A) (m : Mem) → P a → Ends Q (k a m))
      → Ends Q (and_then r k)
  bind (ends p) next = next _ _ p

  pub mono {ξ} : {Q : A → Type ξ} {r : Run A} → Ends P r → ((a : A) → P a → Q a) → Ends Q r
  mono (ends p) weaken = ends (weaken _ p)

-- A branch on a test.
pub if-Ends {ℓ κ} :
    {A : Type ℓ} {P : A → Type κ} (b : Bool) (x y : M A) (m : Mem)
    → Ends P (x m)
    → Ends P (y m)
    → Ends P ((if b then x else y) m)
if-Ends true x y m p q = p
if-Ends false x y m p q = q

pub malloc-Ends : (m : Mem) → Ends (λ b. Unit {0}) (malloc m)
unfolding malloc
malloc-Ends m = elim (Bool-cases (m.succeeds m.calls)) [
  | inl e ↦ rw e (ends tt)
  | inr e ↦ rw e (ends tt)
]

word16-Ends : (bs : Bytes) (m : Mem) → 2 ≤ length bs → Ends (λ v. Unit {0}) (word16 bs m)
unfolding word16
word16-Ends [] m h = absurd (omega arith)
word16-Ends (a ∷ []) m h = absurd (omega arith)
word16-Ends (a ∷ b ∷ bs) m h = ends tt

-- A read of two bytes within the buffer.
pub read16-Ends :
    (buffer : Bytes) (p : ℕ) (m : Mem)
    → p + 2 ≤ length buffer
    → Ends (λ v. Unit {0}) (read16 buffer p m)
unfolding read16
read16-Ends buffer p m h = word16-Ends (drop p buffer) m (omega (arith, length-drop p buffer))

pub copy-Ends :
    (bs : Bytes) (size : ℕ) (m : Mem)
    → size ≤ length bs
    → Ends (λ c. Unit {0}) (copy (some bs) size m)
unfolding copy
copy-Ends bs size m h = rw (le→leb size (length bs) h) (ends tt)
