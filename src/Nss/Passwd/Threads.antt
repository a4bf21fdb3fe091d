-- ===== src/Nss/Passwd/Threads.antt =====
-- Enumerations of lib/srvd/nss/passwd.c by several threads, whose calls of `_nss_srvd_setpwent`,
-- `_nss_srvd_getpwent_r` and `_nss_srvd_endpwent` interleave, with a query that answers from a table.
use srvd.Base.{
  ℕ, zero, suc, ◌+◌, ◌<◌, ◌≤◌, ◌%◌, ◌^◌, Bool, true, false, ◌≡◌, refl, sym, subst, ap, Option, none,
  some, List, [], ◌∷◌, arith, ◌==◌, if◌then◌else◌, length, All, zero_add, Bool-cases, inl, inr,
  ==_iff,
}
use srvd.Memory.{Mem, M, ok, pure, ◌>>=◌, malloc, free, taken, granted, Plenty}
use srvd.Field.View.{Item}
use srvd.Thread.{
  Once, once_call, data_of, key_data_set, in_thread, of_thread, update-own, update-other,
}
use srvd.Service.{Request, Response}
use srvd.Nss.{
  NssStatus, success, Reply, set_entries, end_entries, ensure_offset, initialize_offset, restart,
  get_entry,
}
use srvd.Nss.Passwd.{Filling, setpwent, getpwent_r, endpwent}
use srvd.Nss.Passwd.Layout.{Filled}
use srvd.Nss.Passwd.Populate.{response_of, start_of}
use srvd.Nss.Passwd.Lookup.{reply_for}
use srvd.Nss.Passwd.Entities.{Caller, served, Answers, getpwent_r-served}

-- A call, and what it returns.
pub data Call : Type 0 where
  set_call : Call
  get_call : Caller → Call
  end_call : Call

pub data Outcome : Type 0 where
  of_status : NssStatus → Outcome
  of_reply : Reply Filling → Outcome

-- The fields and the code of the answer for an offset, and the offset behind it.
abbrev pub user_at : List (List Item) → ℕ → List Item × ℕ
user_at [] n = ([], 2)
user_at (its ∷ table) zero = (its, 0)
user_at (its ∷ table) (suc n) = user_at table n

abbrev pub behind : List (List Item) → ℕ → ℕ
behind table n = if (user_at table n).1 == 0 then suc n else n

module _ (has_gecos : Bool) (bufsize : ℕ) (query : Request → Response → M (Bool × Response)) where
  pub run_call : Call → Option ℕ → M (Outcome × Option ℕ)
  run_call set_call offset = do (s, o) ← setpwent offset; pure (of_status s, o)
  run_call (get_call c) offset = do
    (a, o) ← getpwent_r has_gecos bufsize query (start_of c.pwd c.original) offset
    pure (of_reply a, o)
  run_call end_call offset = do (s, o) ← endpwent offset; pure (of_status s, o)

  -- Calls of threads, in the order in which they happen.
  pub run_calls : List (ℕ × Call) → Once ℕ → M (List (ℕ × Outcome) × Once ℕ)
  run_calls [] o = pure ([], o)
  run_calls ((t, c) ∷ cs) o = do
    (r, o) ← in_thread t (run_call c) o
    (rs, o) ← run_calls cs o
    pure ((t, r) ∷ rs, o)

module _ (has_gecos : Bool) (bufsize : ℕ) (table : List (List Item)) where
  abbrev alone_at : Caller → ℕ → Outcome × Option ℕ
  alone_at c n =
      let (its, code) = user_at table n in
      (of_reply (reply_for has_gecos bufsize its code c.pwd c.original), some (behind table n))

  -- What a call returns to a thread that is alone, and its offset then.
  abbrev pub alone : Call → Option ℕ → Outcome × Option ℕ
  alone set_call offset = (of_status success, some 0)
  alone (get_call c) none = alone_at c 0
  alone (get_call c) (some n) = alone_at c n
  alone end_call offset = (of_status success, none)

  -- The same for calls in a row.
  abbrev pub alone_calls : List Call → Option ℕ → List Outcome × Option ℕ
  alone_calls [] offset = ([], offset)
  alone_calls (c ∷ cs) offset =
      let rest = alone_calls cs in
      let (r, o) = alone c offset in let (rs, last) = rest o in (r ∷ rs, last)

pub served-user_at :
    (first : ℕ → Item) (table : List (List Item)) (n : ℕ)
    → served first table n
      ≡ response_of (first (user_at table n).1) (user_at table n).0 (user_at table n).1
served-user_at first [] n = refl
served-user_at first (its ∷ table) zero = refl
served-user_at first (its ∷ table) (suc n) = served-user_at first table n

user_at-Filled :
    (table : List (List Item)) (n : ℕ)
    → All (λ its. All Filled its) table
    → All Filled (user_at table n).0
user_at-Filled [] n h = tt
user_at-Filled (its ∷ table) zero (here, h) = here
user_at-Filled (its ∷ table) (suc n) (here, h) = user_at-Filled table n h

-- An offset of an enumeration.
abbrev pub Within : List (List Item) → Option ℕ → Type 0
Within table none = Unit {0}
Within table (some n) = n ≤ length table

behind-Within :
    (table : List (List Item)) (n : ℕ) → n ≤ length table → behind table n ≤ length table
behind-Within [] n h = h
behind-Within (its ∷ table) zero h = omega arith
behind-Within (its ∷ table) (suc n) h = ground (arith, behind-Within table n (omega arith))

-- The buffer of a caller is as large as it says.
abbrev pub Roomy : ℕ → Call → Type 0
Roomy bufsize (get_call c) = bufsize ≤ length c.original
Roomy bufsize _ = Unit {0}

module _ (has_gecos : Bool) (bufsize : ℕ) (query : Request → Response → M (Bool × Response))
    (first : ℕ → Item) (table : List (List Item)) (answers : Answers first query 0 table)
    (small : length table < 2 ^ 32) (filled : All (λ its. All Filled its) table) where
  -- A call of a thread does what it does alone.
  Alone : Call → Option ℕ → Mem → Type 0
  Alone c offset m =
      (m' : Mem) × (run_call has_gecos bufsize query c offset m
        ≡ ok (alone has_gecos bufsize table c offset) m')
      × Plenty m'

  get_call-Alone :
      (c : Caller) (n : ℕ) (m : Mem)
      → bufsize ≤ length c.original
      → n ≤ length table
      → Plenty m
      → Alone (get_call c) (some n) m
  unfolding Alone run_call
  get_call-Alone c n m whole within plenty =
      let (its, code) = user_at table n in
      let onward : (if code == 0 then (n + 1) % 2 ^ 32 else n) ≡ behind table n =
        ground (arith, behind-Within table n within) in
      let (m', answered, (kept, plenty')) =
        rw (zero_add n, served-user_at first table n) at (answers n (granted 3 m) within plenty) in
      let (m₁, run, (balance, plenty₁)) =
        getpwent_r-served has_gecos bufsize first query n (behind table n) its code c m m' plenty
          (user_at-Filled table n filled) whole onward answered kept plenty' in
      (m₁, rw run refl, plenty₁)

  call-Alone :
      (c : Call) (offset : Option ℕ) (m : Mem)
      → Roomy bufsize c
      → Within table offset
      → Plenty m
      → Alone c offset m
  unfolding Alone run_call set_entries end_entries ensure_offset initialize_offset restart malloc
      free get_entry
  call-Alone set_call none m whole within plenty = (taken m, rw (plenty m.calls) refl, plenty)
  call-Alone set_call (some n) m whole within plenty = (m, refl, plenty)
  call-Alone (get_call c) none m whole within plenty =
      let (m₁, run, plenty₁) = get_call-Alone c 0 (taken m) whole (omega arith) plenty in
      (m₁, rw (plenty m.calls) run, plenty₁)
  call-Alone (get_call c) (some n) m whole within plenty = get_call-Alone c n m whole within plenty
  call-Alone end_call none m whole within plenty = (m, refl, plenty)
  call-Alone end_call (some n) m whole within plenty =
      (record m { released = m.released + 1 }, refl, plenty)

  alone-Within :
      (c : Call) (offset : Option ℕ)
      → Within table offset
      → Within table (alone has_gecos bufsize table c offset).1
  alone-Within set_call offset h = omega arith
  alone-Within (get_call c) none h = behind-Within table 0 (omega arith)
  alone-Within (get_call c) (some n) h = behind-Within table n h
  alone-Within end_call offset h = tt

  -- The data of the threads behind a call of one of them.
  abbrev behind_call : Once ℕ → ℕ → Option ℕ → Once ℕ
  behind_call o t d = record { called = true; key = key_data_set (once_call o).key t d }

  behind_call-own :
      (o : Once ℕ) (t u : ℕ) (d : Option ℕ) → (u == t) ≡ true → data_of (behind_call o t d) u ≡ d
  behind_call-own o t u d e = update-own (once_call o).key t u d e

  behind_call-other :
      (o : Once ℕ) (t u : ℕ) (d : Option ℕ)
      → (u == t) ≡ false
      → data_of (behind_call o t d) u ≡ data_of o u
  behind_call-other o t u d e = update-other (once_call o).key t u d e

  behind_call-Within :
      (o : Once ℕ) (t u : ℕ) (d : Option ℕ)
      → Within table d
      → Within table (data_of o u)
      → Within table (data_of (behind_call o t d) u)
  behind_call-Within o t u d own other = elim (Bool-cases (u == t)) [
    | inl e ↦ subst (Within table) (sym (behind_call-own o t u d e)) own
    | inr e ↦ subst (Within table) (sym (behind_call-other o t u d e)) other
  ]

  -- With memory at hand, fewer than 2 ^ 32 users whose values are not empty, buffers that are as large
  -- as `bufsize` says, and a query that answers from a table: in whatever order the calls of any number
  -- of threads happen, all of them end, and each thread gets from its calls, and keeps as its offset,
  -- what it would alone.
  pub run_calls-alone :
      (cs : List (ℕ × Call)) (o : Once ℕ) (m : Mem)
      → All (λ c. Roomy bufsize c.1) cs
      → ((t : ℕ) → Within table (data_of o t))
      → Plenty m
      → (rs : List (ℕ × Outcome)) × ((o' : Once ℕ) × ((m' : Mem) × (run_calls has_gecos bufsize
                query cs o m
              ≡ ok (rs, o') m')
            × ((t : ℕ)
                → (of_thread t rs, data_of o' t)
                  ≡ alone_calls has_gecos bufsize table (of_thread t cs) (data_of o t))))
  unfolding run_calls in_thread Alone
  run_calls-alone [] o m roomy within plenty = ([], (o, (m, refl, λ t. refl)))
  run_calls-alone ((t, c) ∷ cs) o m (here, roomy) within plenty =
      let (r, d) = alone has_gecos bufsize table c (data_of o t) in
      let o₁ = behind_call o t d in
      let calls = alone_calls has_gecos bufsize table in
      let (m₁, run, plenty₁) = call-Alone c (data_of o t) m here (within t) plenty in
      let (rs, (o₂, (m₂, runs, same))) =
        run_calls-alone cs o₁ m₁ roomy
          (λ u. behind_call-Within o t u d (alone-Within c (data_of o t) (within t)) (within u))
          plenty₁ in
      (
        (t, r) ∷ rs,
        (
          o₂,
          (
            m₂,
            rw (run, runs) refl,
            λ u. elim (Bool-cases (u == t)) [
              | inl e ↦
                  let own : (of_thread u rs, data_of o₂ u) ≡ calls (of_thread u cs) d =
                    subst (λ x. (of_thread u rs, data_of o₂ u) ≡ calls (of_thread u cs) x)
                      (behind_call-own o t u d e) (same u) in
                  rw e (
                    subst (λ x. (r ∷ of_thread u rs, data_of o₂ u) ≡ calls (c ∷ of_thread u cs) x)
                      (sym (ap (data_of o) ((==_iff u t).0 e))) (ap (λ p. (r ∷ p.0, p.1)) own))
              | inr e ↦ rw e (
                  subst (λ x. (of_thread u rs, data_of o₂ u) ≡ calls (of_thread u cs) x)
                    (behind_call-other o t u d e) (same u))
            ],
          ),
        ),
      )
