-- ===== src/Thread/Mutex/Phases.antt =====
-- Where threads stand that share an object with a mutex: outside, or one of them inside.
use srvd.Base.{ℕ, false, ◌≡◌, ◌≢◌, refl, ap, Option, none, some, List, [], ◌∷◌, ◌++◌, ◌==◌}
use srvd.Thread.{of_thread}
use srvd.Thread.Mutex.Running.{run_body, run_all}
use srvd.Thread.Mutex.{Instruction, lock, unlock, statement, Body, System, statements, program}

abbrev pub rest_of : {S : Type 0} → List (Instruction S) → List (Instruction S)
rest_of [] = []
rest_of (i ∷ is) = is

abbrev pub effect_of : {S : Type 0} → List (Instruction S) → S → Option S
effect_of (statement f ∷ is) = f
effect_of _ = some

module _ {S C : Type 0} (code : C → Body S) where
  -- Where the threads stand: which calls have begun, in order, and which have not; and nobody is between
  -- a lock and an unlock, or one thread is, with a rest of its function to do.
  pub data Phase (s : System S) (begun : List (ℕ × C)) (pending : ℕ → List C) (object : Option S)
      : Type 0 where
    outside :
        s.holder ≡ none
        → s.shared ≡ run_all code begun object
        → ((u : ℕ) → s.programs u ≡ program code (pending u))
        → Phase s begun pending object
    inside :
        (t : ℕ) (rest : Body S)
        → s.holder ≡ some t
        → run_body rest s.shared ≡ run_all code begun object
        → s.programs t ≡ statements rest (program code (pending t))
        → ((u : ℕ) → (u == t) ≡ false → s.programs u ≡ program code (pending u))
        → Phase s begun pending object

  pub record Standing (calls : ℕ → List C) (object : Option S) (s : System S) : Type 0 where
    pub begun : List (ℕ × C)
    pub pending : ℕ → List C
    pub split : (u : ℕ) → calls u ≡ of_thread u begun ++ pending u
    pub phase : Phase s begun pending object

  -- A program that starts with a lock has a call to make.
  pub locked-call :
      (bs : List C) (rest : List (Instruction S))
      → program code bs ≡ lock ∷ rest
      → (b : C) × ((cs : List C) × (bs ≡ b ∷ cs) × (statements (code b) (program code cs) ≡ rest))
  locked-call [] rest e = cc
  locked-call (b ∷ cs) rest e = (b, (cs, refl, ap rest_of e))

  -- The instruction of a thread that is outside is a lock.
  pub not_statement :
      (bs : List C) (f : S → Option S) (rest : List (Instruction S))
      → program code bs ≢ statement f ∷ rest
  not_statement [] f rest e = cc
  not_statement (b ∷ bs) f rest e = cc

  pub not_unlock : (bs : List C) (rest : List (Instruction S)) → program code bs ≢ unlock ∷ rest
  not_unlock [] rest e = cc
  not_unlock (b ∷ bs) rest e = cc
