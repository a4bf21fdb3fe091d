-- ===== src/Thread.antt =====
-- include/srvd/thread.h: data of each thread under a key, and a call that runs once, as lib/srvd/nss
-- uses them; Thread/Mutex has the mutexes. Threads have numbers, and `none` is `NULL`.
pub mod Mutex
use srvd.Base.{ℕ, Bool, true, false, ◌≡◌, refl, Option, none, List, [], ◌∷◌, ◌==◌, if◌then◌else◌}
use srvd.Memory.{M, pure, ◌>>=◌}

abbrev pub Key {ℓ} : Type ℓ → Type ℓ
Key D = ℕ → Option D

-- `SRVD_THREAD_KEY_INITIALIZE`: a new key has `NULL` in each thread.
abbrev pub key_initialize {ℓ} : {D : Type ℓ} → Key D
key_initialize t = none

-- `SRVD_THREAD_KEY_DATA_GET`
abbrev pub key_data_get {ℓ} : {D : Type ℓ} → Key D → ℕ → Option D
key_data_get key t = key t

-- A family of what each thread has, changed for one.
unfoldable pub update {ℓ} : {X : Type ℓ} → (ℕ → X) → ℕ → X → ℕ → X
update f t x u = if u == t then x else f u

pub update-own {ℓ} :
    {X : Type ℓ} (f : ℕ → X) (t u : ℕ) (x : X) → (u == t) ≡ true → update f t x u ≡ x
unfolding update
update-own f t u x e = rw e refl

pub update-other {ℓ} :
    {X : Type ℓ} (f : ℕ → X) (t u : ℕ) (x : X) → (u == t) ≡ false → update f t x u ≡ f u
unfolding update
update-other f t u x e = rw e refl

-- `SRVD_THREAD_KEY_DATA_SET`
abbrev pub key_data_set {ℓ} : {D : Type ℓ} → Key D → ℕ → Option D → Key D
key_data_set = update

-- A key, and whether the call that makes it has run.
pub record Once {ℓ} (D : Type ℓ) : Type ℓ where
  pub called : Bool
  pub key : Key D

-- `SRVD_THREAD_ONCE_CALL` with `SRVD_THREAD_KEY_INITIALIZE` as its callback
abbrev pub once_call {ℓ} : {D : Type ℓ} → Once D → Once D
once_call o = if o.called then o else record { called = true; key = key_initialize }

-- What a thread finds under the key when the call has run.
abbrev pub data_of {ℓ} : {D : Type ℓ} → Once D → ℕ → Option D
data_of o t = key_data_get (once_call o).key t

-- A function of the module, called by a thread: it makes the key if it is the first, and works on the
-- data of its thread.
unfoldable pub in_thread {ℓ κ} :
    {D : Type ℓ} {R : Type κ} → ℕ → (Option D → M (R × Option D)) → Once D → M (R × Once D)
in_thread t f o = do
  (r, d) ← f (data_of o t)
  pure (r, record { called = true; key = key_data_set (once_call o).key t d })

-- What belongs to a thread.
abbrev pub of_thread {ℓ} : {X : Type ℓ} → ℕ → List (ℕ × X) → List X
of_thread t [] = []
of_thread t ((u, x) ∷ xs) = let rest = of_thread t xs in if t == u then x ∷ rest else rest
