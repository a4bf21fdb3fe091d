-- ===== src/Thread/Mutex.antt =====
-- Threads that share an object with a mutex, by the statement: the mutexes of include/srvd/thread.h as
-- lib/srvd/libsrvd/protocol/packet.c uses them. A function locks the mutex, changes the object and
-- unlocks it; between any two statements other threads may go on. A statement may fail, with undefined
-- behaviour, and then the object is `none`.
pub mod Running
pub mod Phases
pub mod Sections
use srvd.Base.{ℕ, ◌≡◌, Option, none, some, List, [], ◌∷◌, ◌==◌, if◌then◌else◌}
use srvd.Links.{◌>>=◌}
use srvd.Thread.{update}

-- `SRVD_THREAD_MUTEX_LOCK`, `SRVD_THREAD_MUTEX_UNLOCK` and a statement between them
pub data Instruction (S : Type 0) : Type 0 where
  lock : Instruction S
  unlock : Instruction S
  statement : (S → Option S) → Instruction S

-- What a function does between the lock and the unlock.
abbrev pub Body : Type 0 → Type 0
Body S = List (S → Option S)

-- The object, the thread that holds the mutex, and what each thread has still to do.
pub record System (S : Type 0) : Type 0 where
  pub holder : Option ℕ
  pub shared : Option S
  pub programs : ℕ → List (Instruction S)

module _ {S : Type 0} where
  abbrev pub statements : Body S → List (Instruction S) → List (Instruction S)
  statements [] rest = unlock ∷ rest
  statements (f ∷ fs) rest = statement f ∷ statements fs rest

  -- A step of a thread: a lock waits until the mutex is free.
  pub data Step (s : System S) : System S → Type 0 where
    locks :
        (t : ℕ) (rest : List (Instruction S))
        → s.programs t ≡ lock ∷ rest
        → s.holder ≡ none
        → Step s (record s { holder = some t; programs = update s.programs t rest })
    states :
        (t : ℕ) (f : S → Option S) (rest : List (Instruction S))
        → s.programs t ≡ statement f ∷ rest
        → Step s (record s { shared = s.shared >>= f; programs = update s.programs t rest })
    unlocks :
        (t : ℕ) (rest : List (Instruction S))
        → s.programs t ≡ unlock ∷ rest
        → Step s (record s { holder = none; programs = update s.programs t rest })

module _ {S C : Type 0} (body : C → Body S) where
  -- The program of a thread that makes calls in a row.
  abbrev pub program : List C → List (Instruction S)
  program [] = []
  program (c ∷ cs) = lock ∷ statements (body c) (program cs)

  -- What threads that make calls reach from an object.
  pub data Reached (calls : ℕ → List C) (object : Option S) : System S → Type 0 where
    begin :
        Reached calls object
          (record { holder = none; shared = object; programs = λ t. program (calls t) })
    later : {s s' : System S} → Reached calls object s → Step s s' → Reached calls object s'
