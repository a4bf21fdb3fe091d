-- ===== src/Service/Setters.antt =====
-- The setters of strings in lib/srvd/libsrvd/service/nss.
use srvd.Base.{ℕ, suc, ◌%◌, ◌^◌, ◌<◌, ◌≡◌, refl, some, List, [], ◌∷◌, ◌++◌, arith, length}
use srvd.Memory.{Bytes, Mem, Ends, ends, bind}
use srvd.Field.View.{Item}
use srvd.Packet.View.{packet_of}
use srvd.Packet.Update.Append.{single, Outcome, field_append-Outcome}
use srvd.Service.{string_set}

-- Setting a string that is not empty and whose length fits the `uint16_t` puts a field of its type last in the response,
-- exactly when no field has the type and `malloc` returns the three blocks; otherwise it fails and
-- the fields are as before. The status code stays.
string_set-Outcome :
    (its : List Item) (old t b : ℕ) (bs more : Bytes) (m : Mem)
    → suc (length bs) < 2 ^ 16
    → Ends
        (λ (status, r).
          Outcome its (its ++ single t (b ∷ bs) ∷ []) t m (status, r.packet) × (r.status ≡ old))
        (string_set t
          (record { packet = packet_of its; status = old })
          (some (b ∷ (bs ++ more)))
          (suc (length bs))
          m)
unfolding string_set
string_set-Outcome its old t b bs more m small =
    let size : suc (length bs) % 2 ^ 16 ≡ suc (length bs) = omega arith in
    rw (size) (bind (field_append-Outcome its t b bs more m) λ r m₁ outcome. ends (outcome, refl))
