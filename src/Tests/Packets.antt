-- ===== src/Tests/Packets.antt =====
-- The properties of packets and fields at concrete ones.
use srvd.Base.{arith, ◌≡◌, true, if◌then◌else◌, refl, false, some, [], ◌∷◌, ◌++◌, ◌==◌}
use srvd.Memory.{Mem, ok, Ends, malloc}
use srvd.Field.{new_entry, entry_content, fill_entry, entry_add}
use srvd.Field.View.{field_of}
use srvd.Packet.View.{packet_of}
use srvd.Packet.Update.{field_append}
use srvd.Packet.Update.Append.{single}
use srvd.Packet.Update.Values.{field_append-value_of}
use srvd.Tests.{start, user, uid}

field_append-value_of_example :
    Ends
      (λ (status, q).
        (status ≡ true)
        × (q ≡ packet_of (if status then user ++ single 752 (1 ∷ 2 ∷ []) ∷ [] else user)))
      (field_append (packet_of user) 752 2 (some (1 ∷ 2 ∷ 3 ∷ [])) start)
field_append-value_of_example =
    field_append-value_of user 752 2 (some (1 ∷ 2 ∷ 3 ∷ [])) start (omega arith)

-- The second call of `malloc` fails.
abbrev scarce : Mem
scarce = record { succeeds = λ k. k == 0; calls = 0; allocated = 0; released = 0 }

refused_data :
    entry_add (field_of uid) 1 (some (5 ∷ [])) scarce
    ≡ ok (false, field_of uid) (record scarce { calls = 2; allocated = 1 })
unfolding entry_add new_entry entry_content fill_entry malloc
refused_data = refl
