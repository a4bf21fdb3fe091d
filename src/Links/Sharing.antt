-- ===== src/Links/Sharing.antt =====
-- Threads that add fields to the same packet: `srvd_protocol_packet_field_add` and
-- `srvd_protocol_packet_field_inject` of lib/srvd/libsrvd/protocol/packet.c under `field_lock`.
use srvd.Base.{
  ℕ, true, false, ◌≡◌, refl, sym, ap, subst, ◌∙◌, none, some, List, [], ◌∷◌, ◌++◌, ◌==◌, ==_iff,
  arith, All, Bool-cases, inl, inr,
}
use srvd.Field.{Field}
use srvd.Field.View.{Item}
use srvd.Links.{Store, Links}
use srvd.Links.Segment.{Cells, has, Apart}
use srvd.Links.Refinement.{Represents}
use srvd.Links.Pushes.{
  Push, code, address, field_at_push, push_all, addresses, Fresh, run_all-push_all,
}
use srvd.Links.Statements.{Shared}
use srvd.Thread.{of_thread}
use srvd.Thread.Mutex.{System, Reached, program}
use srvd.Thread.Mutex.Sections.{Reached-run_all}

-- The addresses of the fields of one thread's calls.
abbrev pub own_addresses : List Push → Cells Item
own_addresses [] = []
own_addresses (c ∷ cs) = (address c, field_at_push c) ∷ own_addresses cs

module _ (owner : ℕ → ℕ) (h : Store Field) (cells : Cells Field) where
  -- A thread's calls are for fresh fields of its own, each for another.
  abbrev pub Own : ℕ → Push → Type 0
  Own t c = (owner (address c) ≡ t) × Fresh h cells c

  abbrev pub Calls : ℕ → List Push → Type 0
  Calls t cs = All (Own t) cs × Apart (own_addresses cs)

  has-prefix :
      (p : ℕ) (cs ds : List Push)
      → has p (own_addresses (cs ++ ds)) ≡ false
      → has p (own_addresses cs) ≡ false
  has-prefix p [] ds o = refl
  has-prefix p (c ∷ cs) ds o = ground (arith, o, has-prefix p cs ds (ground (arith, o)))

  Calls-prefix : (t : ℕ) (cs ds : List Push) → Calls t (cs ++ ds) → Calls t cs
  Calls-prefix t [] ds calls = (tt, tt)
  Calls-prefix t (c ∷ cs) ds ((own, owns), (alone, apart)) =
      let (rest, apart') = Calls-prefix t cs ds (owns, apart) in
      ((own, rest), (has-prefix (address c) cs ds alone, apart'))

  -- The calls of a thread behind the first call of all.
  Calls-tail :
      (t u : ℕ) (c : Push) (cs : List (ℕ × Push))
      → Calls u (of_thread u ((t, c) ∷ cs))
      → Calls u (of_thread u cs)
  Calls-tail t u c cs calls = elim (Bool-cases (u == t)) [
    | inl e ↦ let (owns, apart) = rw e at calls in (owns.1, apart.1)
    | inr e ↦ rw e at calls
  ]

  Calls-head :
      (t : ℕ) (c : Push) (cs : List (ℕ × Push))
      → Calls t (of_thread t ((t, c) ∷ cs))
      → Own t c × (has (address c) (own_addresses (of_thread t cs)) ≡ false)
  Calls-head t c cs calls =
      let (owns, apart) = rw ((==_iff t t).1 refl) at calls in (owns.0, apart.0)

  elsewhere :
      (t u p : ℕ) (d : Push)
      → (t == u) ≡ false
      → owner p ≡ t
      → owner (address d) ≡ u
      → (p == address d) ≡ false
  elsewhere t u p d e own other = elim (Bool-cases (p == address d)) [
    | inl i ↦ absurd (
        let same : t ≡ u = sym own ∙ ap owner ((==_iff p (address d)).0 i) ∙ other in
        let never : true ≡ false = sym ((==_iff t u).1 same) ∙ e in cc)
    | inr i ↦ i
  ]

  -- An address of a thread is none of another's, so it is no other if it is none of its own.
  has-addresses :
      (t p : ℕ) (cs : List (ℕ × Push))
      → owner p ≡ t
      → ((u : ℕ) → Calls u (of_thread u cs))
      → has p (own_addresses (of_thread t cs)) ≡ false
      → has p (addresses cs) ≡ false
  has-addresses t p [] own calls out = refl
  has-addresses t p ((u, d) ∷ cs) own calls out =
      let rest : has p (own_addresses (of_thread t cs)) ≡ false → has p (addresses cs) ≡ false =
        has-addresses t p cs own (λ v. Calls-tail u v d cs (calls v)) in
      elim (Bool-cases (t == u)) [
        | inl e ↦ let among = rw e at out in ground (arith, among, rest (ground (arith, among)))
        | inr e ↦
            let other : (p == address d) ≡ false =
              elsewhere t u p d e own (Calls-head u d cs (calls u)).0.0 in
            ground (arith, other, rest (rw e at out))
      ]

  -- What the threads' calls are one by one, all of them are together.
  all-Fresh :
      (cs : List (ℕ × Push))
      → ((u : ℕ) → Calls u (of_thread u cs))
      → All (λ c. Fresh h cells c.1) cs
  all-Fresh [] calls = tt
  all-Fresh ((t, c) ∷ cs) calls =
      ((Calls-head t c cs (calls t)).0.1, all-Fresh cs λ u. Calls-tail t u c cs (calls u))

  all-Apart : (cs : List (ℕ × Push)) → ((u : ℕ) → Calls u (of_thread u cs)) → Apart (addresses cs)
  all-Apart [] calls = tt
  all-Apart ((t, c) ∷ cs) calls =
      let (own, out) = Calls-head t c cs (calls t) in
      let rest : (u : ℕ) → Calls u (of_thread u cs) = λ u. Calls-tail t u c cs (calls u) in
      (has-addresses t (address c) cs own.0 rest out, all-Apart cs rest)

-- When a list in the store has the fields of a packet, and threads add to it and inject into it fresh
-- fields of their own: whatever they do in whatever order, when nobody holds the lock there was no
-- undefined behaviour, and the list has the fields that some order of the calls that were made gives,
-- in which the calls of each thread stand as it made them: no field is lost, and none is linked twice.
pub shared-Represents :
    (owner : ℕ → ℕ) (calls : ℕ → List Push) (h : Store Field) (l : Links) (its : List Item)
    (r : Represents h l its) (s : System (Shared Field))
    → ((t : ℕ) → Calls owner h r.cells t (calls t))
    → Reached code calls (some (l, h)) s
    → s.holder ≡ none
    → (made : List (ℕ × Push)) × ((pending : ℕ → List Push) × ((l' : Links) × ((g : Store Field)
            × (s.shared ≡ some (l', g))
            × Represents g l' (push_all made its)))
        × ((t : ℕ)
            → (calls t ≡ of_thread t made ++ pending t)
              × (s.programs t ≡ program code (pending t))))
shared-Represents owner calls h l its r s own reached free =
    let (made, (pending, shared, parts)) =
      Reached-run_all code calls (some (l, h)) s reached free in
    let each : (t : ℕ) → Calls owner h r.cells t (of_thread t made) = λ t.
      Calls-prefix owner h r.cells t (of_thread t made) (pending t)
        (subst (Calls owner h r.cells t) (parts t).0 (own t)) in
    let (l', (g, runs, result)) =
      run_all-push_all made h l its r (all-Fresh owner h r.cells made each)
        (all-Apart owner h r.cells made each) in
    (made, (pending, (l', (g, shared ∙ runs, result)), parts))
