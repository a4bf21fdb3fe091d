-- ===== src/Tests/Wire.antt =====
-- The properties of the wire format at concrete packets.
use srvd.Base.{◌≡◌, refl, true, false, none, List, [], ◌∷◌, ◌++◌, arith, All}
use srvd.Memory.{ok, fault, ◌>>=◌, Ends, taken, granted, gave_back, read16, word16, free}
use srvd.Field.{field_finalize, finalize_entries}
use srvd.Field.View.{Item}
use srvd.Packet.{field_release_at, field_at, deref_slot, packet_initialize, packet_finalize}
use srvd.Packet.View.{packet_of, doomed}
use srvd.Packet.Update.View.{fresh}
use srvd.Serial.{SerialPacket, null, block, serialize, unserialize_body, read_entries}
use srvd.Serial.Encode.{encode_items}
use srvd.Serial.Entries.{grant_values, append_values}
use srvd.Serial.Serialize.{encode, serial_of, serialize-encode}
use srvd.Serial.Unserialize.{IsItem, grant_items}
use srvd.Serial.Safety.{Accepted, unserialize_body-Ends}
use srvd.Serial.Dangling.{packet_finalize-read_entries}
use srvd.Serial.Balance.{packet_finalize-unserialize_body}
use srvd.Serial.Rejects.{with_empty, ended, unserialize_body-overread, unserialize_body-empty_value}
use srvd.Serial.RoundTrip.{receive, receive-serialize}
use srvd.Tests.{
  user-Counted, user-items, user-Unique, user-IsWire, idle, start, start-Plenty, user, uid,
}

receive-serialize_example :
    (serialize idle (packet_of user) >>= λ (status, u). receive idle u.content (packet_of [])) start
    ≡ ok (true, packet_of user) (grant_items user (taken start))
receive-serialize_example = receive-serialize idle idle user start user-IsWire start-Plenty

serialize-encode_example :
    serialize idle (packet_of user) start
    ≡ ok (true, serial_of user (block (encode user))) (taken start)
serialize-encode_example = serialize-encode idle user start user-Counted refl

-- The serial packet after the header of `user`.
abbrev announced : SerialPacket
announced = record { size = 27; body_size = 19; field_count = 2; content = null }

packet_finalize-unserialize_body_example :
    (unserialize_body announced (packet_of []) (encode_items user ++ []) >>= λ (status, q).
    packet_finalize q)
      start
    ≡ ok packet_initialize (gave_back 8 (granted 8 start))
packet_finalize-unserialize_body_example =
    packet_finalize-unserialize_body announced user [] start refl refl user-items user-Unique
      start-Plenty

unserialize_body-Ends_example :
    Ends Accepted
      (unserialize_body announced (packet_of user) (encode_items user ++ 0 ∷ 0 ∷ 0 ∷ []) start)
unserialize_body-Ends_example =
    unserialize_body-Ends announced (packet_of user) (encode_items user ++ 0 ∷ 0 ∷ 0 ∷ []) start
      (omega arith) tt

-- The header announces two fields and one byte behind the first.
abbrev cut : SerialPacket
cut = record { size = 19; body_size = 11; field_count = 2; content = null }

uid-items : All IsItem (uid ∷ [])
uid-items = ((omega arith, omega arith, ((λ e. cc, omega arith), tt)), tt)

unserialize_body-overread_example :
    unserialize_body cut (packet_of []) (encode_items (uid ∷ []) ++ 9 ∷ []) start ≡ fault
unserialize_body-overread_example =
    unserialize_body-overread cut (uid ∷ []) (9 ∷ []) 0 start refl refl (omega arith)
      (omega arith, omega arith) uid-items (tt, tt) start-Plenty

-- A name and an empty value.
abbrev blank : List Item
blank = uid ∷ with_empty 751 ((114 ∷ []) ∷ []) [] ∷ []

abbrev blank_announced : SerialPacket
blank_announced = record { size = 27; body_size = 19; field_count = 2; content = null }

unserialize_body-empty_value_example :
    (unserialize_body blank_announced (packet_of []) (encode_items blank) start
      ≡ ok
          (false, doomed (uid ∷ []))
          (ended
            (append_values (fresh 751) ((114 ∷ []) ∷ []))
            (grant_values ((114 ∷ []) ∷ []) (taken (grant_items (uid ∷ []) start)))))
    × (packet_finalize (doomed (uid ∷ [])) start ≡ fault)
unserialize_body-empty_value_example =
    unserialize_body-empty_value blank_announced (uid ∷ []) 751 ((114 ∷ []) ∷ []) [] [] start start
      refl refl uid-items (omega arith) (omega arith) ((λ e. cc, omega arith), tt)
      ((λ e. omega arith, tt), (tt, tt)) start-Plenty

-- An entry that is longer than the body.
too_long :
    read_entries 4 (0 ∷ 9 ∷ 1 ∷ 1 ∷ []) 0 1 0 (packet_of (fresh 702 ∷ [])) start
    ≡ ok (none, doomed []) (gave_back 1 start)
unfolding read_entries field_release_at field_at deref_slot field_finalize finalize_entries read16
    word16 free
too_long = refl

packet_finalize-read_entries_example : packet_finalize (doomed []) start ≡ fault
packet_finalize-read_entries_example =
    packet_finalize-read_entries 4 (0 ∷ 9 ∷ 1 ∷ 1 ∷ []) 0 1 0 (packet_of (fresh 702 ∷ []))
      (doomed []) start (gave_back 1 start) start too_long
