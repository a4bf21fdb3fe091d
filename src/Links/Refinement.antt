-- ===== src/Links/Refinement.antt =====
-- The two ways of keeping the fields of a packet, by pointers and as the list of Packet.
use mathlib.Core.List.{map-append}
use srvd.Base.{
  ℕ, ◌%◌, ◌^◌, true, false, ◌≡◌, refl, sym, ap, ◌∙◌, Option, none, some, List, [], ◌∷◌, ◌++◌, ◌==◌,
  arith, map, length, length-append, rounds, rounds-zero, length-map,
}
use srvd.Memory.{Mem, Run, ok}
use srvd.Field.{Field}
use srvd.Field.View.{Item, field_of}
use srvd.Packet.{Packet, field_add_locked, field_inject_locked}
use srvd.Packet.View.{packet_of, add_locked-append, inject_locked-cons}
use srvd.Links.{Store, Links, add_locked, inject_locked, walk, release, empty}
use srvd.Links.Segment.{Cells, node, has, Apart, Linked, has-append}
use srvd.Links.Appending.{add_locked-Linked}
use srvd.Links.Injecting.{inject_locked-Linked}
use srvd.Links.Walking.{items, walk-items, release-freed}

-- The list in the store has the fields of a packet.
pub record Represents (h : Store Field) (l : Links) (its : List Item) : Type 0 where
  pub cells : Cells Field
  pub linked : Linked h none l.head l.tail none cells
  pub apart : Apart cells
  pub carried : items cells ≡ map field_of its
  pub counted : l.count ≡ length its % 2 ^ 16

empty-Represents : (h : Store Field) → Represents h empty []
empty-Represents h = record {
  cells = [];
  linked = (refl, refl);
  apart = tt;
  carried = refl;
  counted = refl;
}

-- An operation on the pointers that links a node and one on the packet end; the list in the store has
-- the fields of the packet again, and other nodes are as they were.
pub record Agrees (h : Store Field) (cells : Cells Field) (field : ℕ)
    (pointers : Option (Links × Store Field)) (packet : Run Packet) (its : List Item) (m : Mem)
    : Type 0 where
  pub links : Links
  pub store : Store Field
  pub runs : pointers ≡ some (links, store)
  pub fields : packet ≡ ok (packet_of its) m
  pub represents : Represents store links its
  pub others :
      (q : ℕ)
      → has q cells ≡ false
      → (q == field) ≡ false
      → (has q represents.cells ≡ false) × (store q ≡ h q)

Apart-append :
    (cs : Cells Field) (p : ℕ) (f : Field) → Apart cs → has p cs ≡ false → Apart (cs ++ (p, f) ∷ [])
Apart-append [] p f apart out = (refl, tt)
Apart-append ((q, e) ∷ cs) p f (alone, apart) out = (
  rw (has-append q cs ((p, f) ∷ []), alone) (ground (arith, out)),
  Apart-append cs p f apart (ground (arith, out)),
)

module _ (h : Store Field) (l : Links) (its : List Item) (it : Item) (field : ℕ) (m : Mem)
    (r : Represents h l its) (out : has field r.cells ≡ false)
    (fresh : h field ≡ some (node (field_of it) none none)) where
  pub added :
      Agrees h r.cells field
        (add_locked l field h)
        (field_add_locked (packet_of its) (field_of it) m)
        (its ++ it ∷ [])
        m
  added =
      let (g, runs, (linked, others)) =
        add_locked-Linked l field (field_of it) none h r.cells r.linked r.apart out fresh in
      record {
        links = _;
        store = g;
        runs = runs;
        fields = rw (add_locked-append its it) refl;
        represents = record {
          cells = r.cells ++ (field, field_of it) ∷ [];
          linked = linked;
          apart = Apart-append r.cells field (field_of it) r.apart out;
          carried =
              rw
                (
                  map-append (λ c. c.1) r.cells ((field, field_of it) ∷ []),
                  map-append field_of its (it ∷ []),
                  r.carried,
                )
                refl;
          counted = omega (arith, r.counted, length-append its (it ∷ []));
        };
        others = λ q o ne.
            (rw (has-append q r.cells ((field, field_of it) ∷ []), o, ne) refl, others q o ne);
      }

  pub injected :
      Agrees h r.cells field
        (inject_locked l field h)
        (field_inject_locked (packet_of its) (field_of it) m)
        (it ∷ its)
        m
  injected =
      let (g, runs, (linked, others)) =
        inject_locked-Linked l field (field_of it) none h r.cells r.linked r.apart out fresh in
      record {
        links = _;
        store = g;
        runs = runs;
        fields = rw (inject_locked-cons its it) refl;
        represents = record {
          cells = (field, field_of it) ∷ r.cells;
          linked = linked;
          apart = (out, r.apart);
          carried = ap (λ fs. field_of it ∷ fs) r.carried;
          counted = omega (arith, r.counted);
        };
        others = λ q o ne. (rw (o, ne) refl, others q o ne);
      }

  -- When a list in the store has the fields of a packet, and a field that is not in it has been
  -- initialized: adding it by the pointers and adding it to the list of fields end alike, with a list
  -- in the store that has the fields of the new packet and its count; and injecting it as well.
  pub locked-Agrees :
      Agrees h r.cells field
        (add_locked l field h)
        (field_add_locked (packet_of its) (field_of it) m)
        (its ++ it ∷ [])
        m
      × Agrees h r.cells field
          (inject_locked l field h)
          (field_inject_locked (packet_of its) (field_of it) m)
          (it ∷ its)
          m
  locked-Agrees = (added, injected)

-- When a list in the store has the fields of a packet, a loop over it sees each field once, in the
-- order of the packet, and ends; and the loop of the finalization frees each node once, reads none that
-- it freed, and leaves everything else as it was.
pub walk-release :
    (h : Store Field) (l : Links) (its : List Item) (r : Represents h l its)
    → (walk (length its) l.head h ≡ some (map field_of its))
      × ((g : Store Field) × (release (length its) l.head h ≡ some g)
          × (((q : ℕ) → has q r.cells ≡ true → g q ≡ none)
              × ((q : ℕ) → has q r.cells ≡ false → g q ≡ h q)))
walk-release h l its r =
    let n : rounds r.cells 0 ≡ length its =
      rounds-zero r.cells
      ∙ sym (length-map (λ c. c.1) r.cells)
      ∙ ap length r.carried
      ∙ length-map field_of its in
    (
      rw n at (walk-items h r.cells 0 none l.head l.tail r.linked) ∙ ap some r.carried,
      rw n at (release-freed h r.cells 0 none l.head l.tail r.linked r.apart),
    )
