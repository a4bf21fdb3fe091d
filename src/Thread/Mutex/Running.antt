-- ===== src/Thread/Mutex/Running.antt =====
-- Functions that run one after the other, and which of them each thread called.
use srvd.Base.{
  ℕ, true, false, ◌≡◌, refl, ap, Option, List, [], ◌∷◌, ◌++◌, ◌==◌, Bool-cases, inl, inr,
}
use srvd.Links.{◌>>=◌}
use srvd.Thread.{of_thread}
use srvd.Thread.Mutex.{Body}

module _ {S : Type 0} where
  -- A function that is not interrupted.
  abbrev pub run_body : Body S → Option S → Option S
  run_body [] o = o
  run_body (f ∷ fs) o = run_body fs (o >>= f)

  -- Calls one after the other, whichever thread makes them.
  module _ {C : Type 0} (body : C → Body S) where
    abbrev pub run_all : List (ℕ × C) → Option S → Option S
    run_all [] o = o
    run_all ((t, c) ∷ cs) o = run_all cs (run_body (body c) o)

    pub run_all-append :
        (cs : List (ℕ × C)) (t : ℕ) (c : C) (o : Option S)
        → run_all (cs ++ (t, c) ∷ []) o ≡ run_body (body c) (run_all cs o)
    run_all-append [] t c o = refl
    run_all-append ((u, d) ∷ cs) t c o = run_all-append cs t c (run_body (body d) o)

module _ {C : Type 0} where
  pub of_thread-own :
      (cs : List (ℕ × C)) (t u : ℕ) (c : C)
      → (u == t) ≡ true
      → of_thread u (cs ++ (t, c) ∷ []) ≡ of_thread u cs ++ c ∷ []
  of_thread-own [] t u c e = rw e refl
  of_thread-own ((v, d) ∷ cs) t u c e = elim (Bool-cases (u == v)) [
    | inl i ↦ rw i (ap (λ xs. d ∷ xs) (of_thread-own cs t u c e))
    | inr i ↦ rw i (of_thread-own cs t u c e)
  ]

  pub of_thread-other :
      (cs : List (ℕ × C)) (t u : ℕ) (c : C)
      → (u == t) ≡ false
      → of_thread u (cs ++ (t, c) ∷ []) ≡ of_thread u cs
  of_thread-other [] t u c e = rw e refl
  of_thread-other ((v, d) ∷ cs) t u c e = elim (Bool-cases (u == v)) [
    | inl i ↦ rw i (ap (λ xs. d ∷ xs) (of_thread-other cs t u c e))
    | inr i ↦ rw i (of_thread-other cs t u c e)
  ]
