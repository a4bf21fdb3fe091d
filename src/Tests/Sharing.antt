-- ===== src/Tests/Sharing.antt =====
-- Two threads that share a packet with one field.
use srvd.Base.{
  ℕ, ◌≡◌, refl, none, some, List, [], ◌∷◌, ◌++◌, ◌==◌, ==_iff, if◌then◌else◌, sym, Bool-cases, inl,
  inr,
}
use srvd.Field.{Field}
use srvd.Field.View.{Item, field_of}
use srvd.Packet.Update.Append.{single}
use srvd.Links.{Store, Links, link_next, put}
use srvd.Links.Segment.{node}
use srvd.Links.Refinement.{Represents}
use srvd.Links.Pushes.{Push, appends, injects, code, push_all}
use srvd.Links.Statements.{Shared, add_body, set_previous, next_of_previous}
use srvd.Links.Sharing.{Calls, shared-Represents}
use srvd.Thread.{of_thread, update}
use srvd.Thread.Mutex.{System, locks, states, unlocks, Reached, begin, later, program}
use srvd.Tests.{uid}

abbrev third : Item
third = single 701 (7 ∷ [])

abbrev store : Store Field
store p =
    if p == 8
    then some (node (field_of uid) none none)
    else if p == 24
    then some (node (field_of third) none none)
    else if p == 40
    then some (node (field_of third) none none)
    else none

abbrev links : Links
links = record { head = some 8; tail = some 8; count = 1 }

abbrev one : Represents store links (uid ∷ [])
one = record {
  cells = (8, field_of uid) ∷ [];
  linked = (refl, (none, refl, (refl, refl)));
  apart = (refl, tt);
  carried = refl;
  counted = refl;
}

-- Thread 1 adds the field at 24, thread 2 injects that at 40.
abbrev calls : ℕ → List Push
calls t = if t == 1 then appends 24 third ∷ [] else if t == 2 then injects 40 third ∷ [] else []

abbrev owner : ℕ → ℕ
owner p = if p == 24 then 1 else 2

own : (t : ℕ) → Calls owner store one.cells t (calls t)
own t = elim (Bool-cases (t == 1)) [
  | inl e ↦ rw e (((sym ((==_iff t 1).0 e), (refl, refl)), tt), (refl, tt))
  | inr e ↦ elim (Bool-cases (t == 2)) [
    | inl d ↦ rw (e, d) (((sym ((==_iff t 2).0 d), (refl, refl)), tt), (refl, tt))
    | inr d ↦ rw (e, d) (tt, tt)
  ]
]

-- Thread 1 makes its call, and thread 2 has not begun.
abbrev start : System (Shared Field)
start = record {
  holder = none;
  shared = some (links, store);
  programs = λ t. program code (calls t);
}

added :
    (s : System (Shared Field)) × (Reached code calls (some (links, store)) s × (s.holder ≡ none))
unfolding update add_body set_previous next_of_previous link_next put
added = (
  _,
  (
    later
        (later
          (later
            (later
              (later (later (later begin (locks 1 _ refl refl)) (states 1 _ _ refl))
                (states 1 _ _ refl))
              (states 1 _ _ refl))
            (states 1 _ _ refl))
          (states 1 _ _ refl))
        (unlocks 1 _ refl),
    refl,
  ),
)

shared-Represents_example :
    (made : List (ℕ × Push)) × ((pending : ℕ → List Push) × ((l' : Links) × ((g : Store Field)
          × (added.0.shared ≡ some (l', g))
          × Represents g l' (push_all made (uid ∷ []))))
      × ((t : ℕ)
          → (calls t ≡ of_thread t made ++ pending t)
            × (added.0.programs t ≡ program code (pending t))))
shared-Represents_example =
    shared-Represents owner calls store links (uid ∷ []) one added.0 own added.1.0 added.1.1
