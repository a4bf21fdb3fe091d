-- ===== src/Memory/Partial.antt =====
-- Partial correctness: what holds of the result of a run, unless its behaviour is undefined.
use srvd.Base.{◌≡◌, refl, Bool, true, false, if◌then◌else◌}
use srvd.Memory.State.{Mem, Run, ok, fault, M, and_then}

pub data Yields {ℓ κ} {A : Type ℓ} (P : A → Type κ) : Run A → Type (ℓ ⊔ κ) where
  result : {a : A} {m : Mem} → P a → Yields P (ok a m)
  faulted : Yields P fault

module _ {ℓ κ} {A : Type ℓ} {P : A → Type κ} where
  pub chain {ν ξ} :
      {B : Type ν} {Q : B → Type ξ} {r : Run A} {k : A → M B}
      → Yields P r
      → ((a : A) (m : Mem) → P a → Yields Q (k a m))
      → Yields Q (and_then r k)
  chain (result p) next = next _ _ p
  chain faulted next = faulted

  -- Continuations that agree on what can be the result.
  pub chain-eq {ν} :
      {B : Type ν} {r : Run A} {k l : A → M B}
      → Yields P r
      → ((a : A) (m : Mem) → P a → k a m ≡ l a m)
      → and_then r k ≡ and_then r l
  chain-eq (result p) same = same _ _ p
  chain-eq faulted same = refl

  pub weaken {ξ} : {Q : A → Type ξ} {r : Run A} → Yields P r → ((a : A) → P a → Q a) → Yields Q r
  weaken (result p) f = result (f _ p)
  weaken faulted f = faulted

  pub if-Yields :
      (b : Bool) (x y : M A) (m : Mem)
      → Yields P (x m)
      → Yields P (y m)
      → Yields P ((if b then x else y) m)
  if-Yields true x y m p q = p
  if-Yields false x y m p q = q

  pub Yields-ok : {a : A} {m : Mem} → Yields P (ok a m) → P a
  Yields-ok (result p) = p

-- Nothing is claimed.
pub any-Yields {ℓ} : {A : Type ℓ} (r : Run A) → Yields (λ a. Unit {0}) r
any-Yields (ok a m) = result tt
any-Yields fault = faulted
