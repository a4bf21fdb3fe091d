-- ===== src/Memory/State.antt =====
-- What `malloc` answers is the environment's choice: `succeeds k` is the answer to call number `k`.
use srvd.Base.{ℕ, ◌+◌, Bool, true, false, List, ◌≡◌, refl, if◌then◌else◌}

abbrev pub Bytes : Type 0
Bytes = List ℕ

pub record Mem : Type 0 where
  pub succeeds : ℕ → Bool
  pub calls : ℕ
  pub allocated : ℕ
  pub released : ℕ

-- `fault` is undefined behaviour: an access outside a buffer, through `NULL` or to a freed object.
pub data Run {ℓ} (A : Type ℓ) : Type ℓ where
  ok : A → Mem → Run A
  fault : Run A

abbrev pub M {ℓ} : Type ℓ → Type ℓ
M A = Mem → Run A

abbrev pub pure {ℓ} : {A : Type ℓ} → A → M A
pure a m = ok a m

abbrev pub undefined {ℓ} : {A : Type ℓ} → M A
undefined m = fault

abbrev pub and_then {ℓ κ} : {A : Type ℓ} {B : Type κ} → Run A → (A → M B) → Run B
and_then (ok a m) k = k a m
and_then fault k = fault

infixl 5 ◌>>=◌ ◌>>◌
abbrev pub ◌>>=◌ {ℓ κ} : {A : Type ℓ} {B : Type κ} → M A → (A → M B) → M B
c >>= k = λ m. and_then (c m) k

abbrev pub ◌>>◌ {ℓ} : {B : Type ℓ} → M (Unit {0}) → M B → M B
c >> k = c >>= λ _. k

abbrev pub taken : Mem → Mem
taken m = record m { calls = m.calls + 1; allocated = m.allocated + 1 }

abbrev pub refused : Mem → Mem
refused m = record m { calls = m.calls + 1 }

-- Whether the call returned a block.
unfoldable pub malloc : M Bool
malloc m = if m.succeeds m.calls then ok true (taken m) else ok false (refused m)

unfoldable pub free : M (Unit {0})
free m = ok tt (record m { released = m.released + 1 })

-- No call of `malloc` fails.
abbrev pub Plenty : Mem → Type 0
Plenty m = (k : ℕ) → m.succeeds k ≡ true

-- `n` blocks more went back to `free`.
abbrev pub gave_back : ℕ → Mem → Mem
gave_back n m = record m { released = m.released + n }

-- `n` calls of `malloc` more, each of which returned a block.
abbrev pub granted : ℕ → Mem → Mem
granted n m = record m { calls = m.calls + n; allocated = m.allocated + n }

pub and_then-fault {ℓ κ} :
    {A : Type ℓ} {B : Type κ} (r : Run A) (k : A → M B)
    → ((a : A) (m : Mem) → k a m ≡ fault)
    → and_then r k ≡ fault
and_then-fault (ok a m) k h = h a m
and_then-fault fault k h = refl

-- Inversion of a run that ends.
pub and_then-eq-ok {ℓ κ} :
    {A : Type ℓ} {B : Type κ} (r : Run A) (k : A → M B) {b : B} {m' : Mem}
    → and_then r k ≡ ok b m'
    → (a : A) × (m : Mem) × (r ≡ ok a m) × (k a m ≡ ok b m')
and_then-eq-ok (ok a m) k h = (a, m, refl, h)
and_then-eq-ok fault k h = cc
