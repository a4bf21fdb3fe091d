-- ===== src/Thread/Mutex/Sections.antt =====
-- What is between a lock and an unlock happens as if at once.
use srvd.Base.{
  ℕ, true, false, ◌≡◌, refl, sym, ap, subst, ◌∙◌, Option, none, some, List, [], ◌∷◌, ◌++◌,
  append_assoc, ◌==◌, ==_iff, Bool-cases, inl, inr,
}
use srvd.Links.{◌>>=◌}
use srvd.Thread.{of_thread, update, update-own, update-other}
use srvd.Thread.Mutex.Running.{run_body, run_all, run_all-append, of_thread-own, of_thread-other}
use srvd.Thread.Mutex.{
  Instruction, lock, unlock, statement, Body, System, statements, program, Step, locks, states,
  unlocks, Reached, begin, later,
}
use srvd.Thread.Mutex.Phases.{
  Phase, outside, inside, Standing, rest_of, effect_of, locked-call, not_statement, not_unlock,
}

module _ {S C : Type 0} (code : C → Body S) (calls : ℕ → List C) (object : Option S) where
  -- The call of a thread that takes the mutex has begun.
  begins :
      (s : System S) (t : ℕ) (rest : List (Instruction S)) (begun : List (ℕ × C))
      (pending : ℕ → List C)
      → ((u : ℕ) → calls u ≡ of_thread u begun ++ pending u)
      → s.shared ≡ run_all code begun object
      → ((u : ℕ) → s.programs u ≡ program code (pending u))
      → s.programs t ≡ lock ∷ rest
      → Standing code calls object
          (record s { holder = some t; programs = update s.programs t rest })
  begins s t rest begun pending split shared programs at =
      let same : (t == t) ≡ true = (==_iff t t).1 refl in
      let (b, (cs, here, body)) = locked-call code (pending t) rest (sym (programs t) ∙ at) in
      record {
        begun = begun ++ (t, b) ∷ [];
        pending = update pending t cs;
        split = λ u. elim (Bool-cases (u == t)) [
          | inl e ↦
              let mine : pending u ≡ b ∷ cs = ap pending ((==_iff u t).0 e) ∙ here in
              rw
                (
                  of_thread-own begun t u b e,
                  update-own pending t u cs e,
                  append_assoc (of_thread u begun) (b ∷ []) cs,
                )
                (split u ∙ ap (λ xs. of_thread u begun ++ xs) mine)
          | inr e ↦ rw (of_thread-other begun t u b e, update-other pending t u cs e) (split u)
        ];
        phase =
            inside t (code b) refl (rw shared (sym (run_all-append code begun t b object)))
              (rw (update-own s.programs t t rest same, update-own pending t t cs same) (sym body))
              (λ u e.
                rw (update-other s.programs t u rest e, update-other pending t u cs e)
                  (programs u));
      }

  -- The thread inside goes on.
  goes_on :
      (s : System S) (t v : ℕ) (f : S → Option S) (rest : List (Instruction S)) (body : Body S)
      (begun : List (ℕ × C)) (pending : ℕ → List C)
      → s.holder ≡ some t
      → run_body body s.shared ≡ run_all code begun object
      → s.programs t ≡ statements body (program code (pending t))
      → ((u : ℕ) → (u == t) ≡ false → s.programs u ≡ program code (pending u))
      → s.programs v ≡ statement f ∷ rest
      → Phase code
          (record s { shared = s.shared >>= f; programs = update s.programs v rest })
          begun
          pending
          object
  goes_on s t v f rest body begun pending held shared own others at = elim (Bool-cases (v == t)) [
    | inl e ↦
        let same : v ≡ t = (==_iff v t).0 e in
        rw same (going body shared (sym own ∙ ap s.programs (sym same) ∙ at))
    | inr e ↦ absurd (not_statement code (pending v) f rest (sym (others v e) ∙ at))
  ]
    where
      going :
          (body : Body S)
          → run_body body s.shared ≡ run_all code begun object
          → statements body (program code (pending t)) ≡ statement f ∷ rest
          → Phase code
              (record s { shared = s.shared >>= f; programs = update s.programs t rest })
              begun
              pending
              object
      going [] shared e = cc
      going (g ∷ body) shared e =
          inside t body held
            (subst (λ k. run_body body (s.shared >>= k) ≡ run_all code begun object)
              (ap effect_of e) shared)
            (update-own s.programs t t rest ((==_iff t t).1 refl) ∙ sym (ap rest_of e))
            (λ u ne. update-other s.programs t u rest ne ∙ others u ne)

  -- The thread inside leaves.
  leaves :
      (s : System S) (t v : ℕ) (rest : List (Instruction S)) (body : Body S) (begun : List (ℕ × C))
      (pending : ℕ → List C)
      → run_body body s.shared ≡ run_all code begun object
      → s.programs t ≡ statements body (program code (pending t))
      → ((u : ℕ) → (u == t) ≡ false → s.programs u ≡ program code (pending u))
      → s.programs v ≡ unlock ∷ rest
      → Phase code
          (record s { holder = none; programs = update s.programs v rest })
          begun
          pending
          object
  leaves s t v rest body begun pending shared own others at = elim (Bool-cases (v == t)) [
    | inl e ↦
        let same : v ≡ t = (==_iff v t).0 e in
        rw same (leaving body shared (sym own ∙ ap s.programs (sym same) ∙ at))
    | inr e ↦ absurd (not_unlock code (pending v) rest (sym (others v e) ∙ at))
  ]
    where
      leaving :
          (body : Body S)
          → run_body body s.shared ≡ run_all code begun object
          → statements body (program code (pending t)) ≡ unlock ∷ rest
          → Phase code
              (record s { holder = none; programs = update s.programs t rest })
              begun
              pending
              object
      leaving (g ∷ body) shared e = cc
      leaving [] shared e = outside refl shared λ u. elim (Bool-cases (u == t)) [
        | inl i ↦
            update-own s.programs t u rest i
            ∙ sym (ap rest_of e)
            ∙ ap (λ x. program code (pending x)) (sym ((==_iff u t).0 i))
        | inr i ↦ update-other s.programs t u rest i ∙ others u i
      ]

  Step-Standing :
      {s s' : System S} → Step s s' → Standing code calls object s → Standing code calls object s'
  Step-Standing {s = s} (locks t rest at free) st = locking st.phase
    where
      locking :
          Phase code s st.begun st.pending object
          → Standing code calls object
              (record s { holder = some t; programs = update s.programs t rest })
      locking (outside held shared programs) =
          begins s t rest st.begun st.pending st.split shared programs at
      locking (inside u body held shared own others) = cc
  Step-Standing {s = s} (states t f rest at) st = record {
    begun = st.begun;
    pending = st.pending;
    split = st.split;
    phase = going st.phase;
  }
    where
      going :
          Phase code s st.begun st.pending object
          → Phase code
              (record s { shared = s.shared >>= f; programs = update s.programs t rest })
              st.begun
              st.pending
              object
      going (outside held shared programs) =
          absurd (not_statement code (st.pending t) f rest (sym (programs t) ∙ at))
      going (inside u body held shared own others) =
          goes_on s u t f rest body st.begun st.pending held shared own others at
  Step-Standing {s = s} (unlocks t rest at) st = record {
    begun = st.begun;
    pending = st.pending;
    split = st.split;
    phase = leaving st.phase;
  }
    where
      leaving :
          Phase code s st.begun st.pending object
          → Phase code
              (record s { holder = none; programs = update s.programs t rest })
              st.begun
              st.pending
              object
      leaving (outside held shared programs) =
          absurd (not_unlock code (st.pending t) rest (sym (programs t) ∙ at))
      leaving (inside u body held shared own others) =
          leaves s u t rest body st.begun st.pending shared own others at

  pub Reached-Standing : {s : System S} → Reached code calls object s → Standing code calls object s
  Reached-Standing begin = record {
    begun = [];
    pending = calls;
    split = λ u. refl;
    phase = outside refl refl (λ u. refl);
  }
  Reached-Standing (later r step) = Step-Standing step (Reached-Standing r)

  -- Whatever threads do in whatever order: when nobody holds the mutex, the object is what some order of
  -- the calls that were made leaves when each of them runs to its end before the next starts; in this
  -- order the calls of each thread stand as it made them, and what a thread has still to do are its
  -- other calls.
  pub Reached-run_all :
      (s : System S)
      → Reached code calls object s
      → s.holder ≡ none
      → (made : List (ℕ × C)) × ((pending : ℕ → List C) × (s.shared ≡ run_all code made object)
          × ((t : ℕ)
              → (calls t ≡ of_thread t made ++ pending t)
                × (s.programs t ≡ program code (pending t))))
  Reached-run_all s r free =
      let st = Reached-Standing r in
      let (shared, programs) = settled st.begun st.pending st.phase in
      (st.begun, (st.pending, shared, λ t. (st.split t, programs t)))
    where
      settled :
          (begun : List (ℕ × C)) (pending : ℕ → List C)
          → Phase code s begun pending object
          → (s.shared ≡ run_all code begun object)
            × ((t : ℕ) → s.programs t ≡ program code (pending t))
      settled begun pending (outside held shared programs) = (shared, programs)
      settled begun pending (inside u body held shared own others) = cc
