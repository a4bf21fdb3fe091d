-- ===== src/Nss/Aliases/Populate.antt =====
-- `_srvd_nss_aliases_populate` of lib/srvd/nss/aliases.c on a whole response.
use srvd.Base.{ℕ, ◌≤◌, ◌≡◌, Option, none, some, List, [], ◌∷◌, map, length, All}
use srvd.Memory.{Bytes, Mem, M, Ends, ends, bind}
use srvd.Field.View.{Item}
use srvd.Packet.View.{slot_of, packet_of}
use srvd.Nss.{Errno, continue, populate_fields, populated, populate}
use srvd.Nss.Bounds.{Bounded}
use srvd.Nss.Aliases.{Filling, fill_field, filler}
use srvd.Nss.Aliases.Members.{Carried, fill_field-Ends}

module _ (pointer_size : ℕ) (pointer : ℕ → Bytes)
    (sized : (p : ℕ) → length (pointer p) ≡ pointer_size) (bufsize : ℕ) (original : Bytes)
    (whole : bufsize ≤ length original) where
  abbrev Good : Option Errno × Filling → Type 0
  Good r = Bounded bufsize original r.1.area

  continue-Ends :
      (rest : Filling → M (Option Errno × Filling)) (r : Option Errno × Filling) (m : Mem)
      → Good r
      → ((s : Filling) (m : Mem) → Bounded bufsize original s.area → Ends Good (rest s m))
      → Ends Good (continue rest r m)
  unfolding continue
  continue-Ends rest (none, s) m h others = others s m h
  continue-Ends rest (some errno, s) m h others = ends h

  populate_fields-Ends :
      (its : List Item) (s : Filling) (m : Mem)
      → All Carried its
      → Bounded bufsize original s.area
      → Ends Good (populate_fields (fill_field pointer_size pointer bufsize) (map slot_of its) s m)
  unfolding populate_fields
  populate_fields-Ends [] s m carried bounded = ends bounded
  populate_fields-Ends (it ∷ its) s m (here, carried) bounded =
      bind (fill_field-Ends pointer_size pointer sized bufsize original whole it s m here bounded)
        λ r m2 h. continue-Ends _ r m2 h λ s m3 k. populate_fields-Ends its s m3 carried k

  populated-Bounded :
      (r : Option Errno × Filling) → Good r → Bounded bufsize original ((populated r).filled.area)
  populated-Bounded (none, s) h = h
  populated-Bounded (some errno, s) h = h

  -- For pointers of `pointer_size` bytes, a buffer that is as large as `bufsize` says, and a response
  -- whose fields have fewer than 2 ^ 16 values, none of them empty: filling the structure ends
  -- without a fault, also when it fails, and the strings, the table of the members and the pointers in
  -- the table are written within `bufsize` bytes of the buffer.
  pub aliases_populate-Ends :
      (first : Item) (its : List Item) (code : ℕ) (s : Filling) (m : Mem)
      → All Carried its
      → Bounded bufsize original s.area
      → Ends
          (λ r. Bounded bufsize original r.filled.area)
          (populate
            (filler pointer_size pointer bufsize)
            (record { packet = packet_of (first ∷ its); status = code })
            s
            m)
  unfolding populate
  aliases_populate-Ends first its code s m carried bounded =
      bind
        (populate_fields-Ends its (record s { ae = record (s.ae) { alias_local = 0 } }) m carried
          bounded)
        λ r m2 h. ends (populated-Bounded r h)
