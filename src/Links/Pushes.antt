-- ===== src/Links/Pushes.antt =====
-- Fields that are added to and injected into a packet one after the other, by the pointers, as
-- lib/srvd/libsrvd/protocol/packet.c does.
use srvd.Base.{
  ℕ, true, false, ◌≡◌, refl, ◌∙◌, Option, none, some, List, [], ◌∷◌, ◌++◌, ◌==◌, arith, All,
}
use srvd.Memory.{Mem}
use srvd.Field.{Field}
use srvd.Field.View.{Item, field_of}
use srvd.Links.{Store, Links}
use srvd.Links.Segment.{Cells, node, has, Apart, not_same}
use srvd.Links.Refinement.{Represents, added, injected}
use srvd.Links.Statements.{Shared, add_body, inject_body, run_body-add_body, run_body-inject_body}
use srvd.Thread.Mutex.{Body}
use srvd.Thread.Mutex.Running.{run_body, run_all}

-- A call of `srvd_protocol_packet_field_add` or `srvd_protocol_packet_field_inject`: the address of the
-- field, and the field there.
pub data Push : Type 0 where
  appends : ℕ → Item → Push
  injects : ℕ → Item → Push

abbrev pub code : Push → Body (Shared Field)
code (appends field it) = add_body field
code (injects field it) = inject_body field

abbrev pub address : Push → ℕ
address (appends field it) = field
address (injects field it) = field

abbrev pub field_at_push : Push → Item
field_at_push (appends field it) = it
field_at_push (injects field it) = it

-- What a call makes of the fields of a packet.
abbrev pub pushed : Push → List Item → List Item
pushed (appends field it) its = its ++ it ∷ []
pushed (injects field it) its = it ∷ its

abbrev pub push_all : List (ℕ × Push) → List Item → List Item
push_all [] its = its
push_all ((t, c) ∷ cs) its = push_all cs (pushed c its)

abbrev pub addresses : List (ℕ × Push) → Cells Item
addresses [] = []
addresses ((t, c) ∷ cs) = (address c, field_at_push c) ∷ addresses cs

-- A field that was initialized and is not in the list.
abbrev pub Fresh : Store Field → Cells Field → Push → Type 0
Fresh h cells c =
    (has (address c) cells ≡ false)
    × (h (address c) ≡ some (node (field_of (field_at_push c)) none none))

-- The calls do not allocate.
abbrev any_memory : Mem
any_memory = record { succeeds = λ k. true; calls = 0; allocated = 0; released = 0 }

-- The list behind a call.
pub record Pushed (h : Store Field) (cells : Cells Field) (c : Push) (its : List Item)
    (run : Option (Shared Field)) : Type 0 where
  pub links : Links
  pub store : Store Field
  pub runs : run ≡ some (links, store)
  pub represents : Represents store links (pushed c its)
  pub others :
      (q : ℕ)
      → has q cells ≡ false
      → (q == address c) ≡ false
      → (has q represents.cells ≡ false) × (store q ≡ h q)

push-Pushed :
    (c : Push) (h : Store Field) (l : Links) (its : List Item) (r : Represents h l its)
    → Fresh h r.cells c
    → Pushed h r.cells c its (run_body (code c) (some (l, h)))
push-Pushed (appends field it) h l its r (out, fresh) =
    let a = added h l its it field any_memory r out fresh in
    record {
      links = a.links;
      store = a.store;
      runs = run_body-add_body field l h ∙ a.runs;
      represents = a.represents;
      others = a.others;
    }
push-Pushed (injects field it) h l its r (out, fresh) =
    let a = injected h l its it field any_memory r out fresh in
    record {
      links = a.links;
      store = a.store;
      runs = run_body-inject_body field l h ∙ a.runs;
      represents = a.represents;
      others = a.others;
    }

-- Fields that are fresh stay so behind a call for another one.
still-Fresh :
    (c : Push) (h g : Store Field) (cells cells' : Cells Field) (cs : List (ℕ × Push))
    → ((q : ℕ)
        → has q cells ≡ false
        → (q == address c) ≡ false
        → (has q cells' ≡ false) × (g q ≡ h q))
    → All (λ d. Fresh h cells d.1) cs
    → has (address c) (addresses cs) ≡ false
    → All (λ d. Fresh g cells' d.1) cs
still-Fresh c h g cells cells' [] others fresh out = tt
still-Fresh c h g cells cells' ((t, d) ∷ cs) others ((absent, there), fresh) out =
    let (absent', same) =
      others (address d) absent (not_same (address c) (address d) (ground (arith, out))) in
    ((absent', same ∙ there), still-Fresh c h g cells cells' cs others fresh (ground (arith, out)))

-- With fields at different addresses: the calls in a row end, and the list in the store has the fields
-- that they make of those of the packet.
pub run_all-push_all :
    (cs : List (ℕ × Push)) (h : Store Field) (l : Links) (its : List Item) (r : Represents h l its)
    → All (λ c. Fresh h r.cells c.1) cs
    → Apart (addresses cs)
    → (l' : Links) × ((g : Store Field) × (run_all code cs (some (l, h)) ≡ some (l', g))
        × Represents g l' (push_all cs its))
run_all-push_all [] h l its r fresh apart = (l, (h, refl, r))
run_all-push_all ((t, c) ∷ cs) h l its r (here, fresh) (alone, apart) =
    let p = push-Pushed c h l its r here in
    let (l', (g, runs, result)) =
      run_all-push_all cs p.store p.links (pushed c its) p.represents
        (still-Fresh c h p.store r.cells p.represents.cells cs p.others fresh alone) apart in
    (l', (g, rw p.runs runs, result))
