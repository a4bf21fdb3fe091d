-- ===== src/Listener/Crash.antt =====
-- The same round for a request with an empty value.
use srvd.Base.{
  ℕ, ◌+◌, ◌^◌, ◌<◌, ◌≡◌, refl, true, false, some, List, [], ◌∷◌, ◌++◌, length, All, ==_iff, ◌==◌,
}
use srvd.Memory.{Bytes, Mem, ok, fault, Plenty, free, malloc, gave_back, taken}
use srvd.Field.View.{Item}
use srvd.Packet.View.{packet_of, doomed}
use srvd.Packet.Freed.{packet_finalize-fault}
use srvd.Packet.Update.View.{fresh}
use srvd.Serial.{SerialPacket, null, serial_finalize, release_block, header_size, serial_initialize}
use srvd.Serial.Encode.{encode_items, encode_header}
use srvd.Serial.Entries.{IsValue, Unique, append_values, grant_values}
use srvd.Serial.Unserialize.{IsItem, grant_items, unserialize_header-encode_header}
use srvd.Serial.Rejects.{with_empty, ended, doomed-HasFreed, unserialize_body-empty_value}
use srvd.Server.{Server}
use srvd.Service.{request_finalize}
use srvd.Unsock.{read_header, read_rest, read_body}
use srvd.Listener.{Handler, Connection, server_read, answer_request, serve}

server_read-doomed :
    (c : Connection) (its : List Item) (t : ℕ) (vs ws : List Bytes) (more : List Item) (m : Mem)
    → c.first ≡ some (encode_header (its ++ with_empty t vs ws ∷ more))
    → c.reads (length (encode_items (its ++ with_empty t vs ws ∷ more)))
      ≡ some (encode_items (its ++ with_empty t vs ws ∷ more))
    → length (its ++ with_empty t vs ws ∷ more) < 2 ^ 16
    → length (encode_items (its ++ with_empty t vs ws ∷ more)) < 2 ^ 32
    → All IsItem its
    → t < 2 ^ 16
    → length (vs ++ [] ∷ ws) < 2 ^ 16
    → All IsValue vs
    → Unique (its ++ with_empty t vs ws ∷ more)
    → Plenty m
    → server_read c (packet_of []) m
      ≡ ok
          (false, doomed its)
          (gave_back 1 (
            ended
              (append_values (fresh t) vs)
              (grant_values vs (taken (grant_items its (taken m))))))
unfolding server_read read_header read_rest read_body serial_finalize release_block free malloc
server_read-doomed c its t vs ws more m header body count small good tag n good_vs unique plenty =
    let all = its ++ with_empty t vs ws ∷ more in
    let size = length (encode_items all) in
    let u : SerialPacket = record c.garbage {
      size = header_size + size;
      body_size = size;
      field_count = length all;
      content = null;
    } in
    let same : (size == size) ≡ true = (==_iff size size).1 refl in
    rw (
      header,
      unserialize_header-encode_header (serial_initialize c.garbage).1 all m count small,
      plenty m.calls,
      body,
      same,
      (unserialize_body-empty_value u its t vs ws more (taken m) m refl refl good tag n good_vs
          unique plenty).0,
    )

-- With memory at hand, a client that sends a packet with an empty value, behind fields that are fine
-- and in a packet without two fields of a type, as the packet interface lets it build one and
-- `serialize` writes it, runs the server into a freed field: the body is turned down, and the end
-- of the request follows the list of fields there.
pub serve-fault :
    (monitor : Server Handler) (c : Connection) (its : List Item) (t : ℕ) (vs ws : List Bytes)
    (more : List Item) (m : Mem)
    → c.first ≡ some (encode_header (its ++ with_empty t vs ws ∷ more))
    → c.reads (length (encode_items (its ++ with_empty t vs ws ∷ more)))
      ≡ some (encode_items (its ++ with_empty t vs ws ∷ more))
    → length (its ++ with_empty t vs ws ∷ more) < 2 ^ 16
    → length (encode_items (its ++ with_empty t vs ws ∷ more)) < 2 ^ 32
    → All IsItem its
    → t < 2 ^ 16
    → length (vs ++ [] ∷ ws) < 2 ^ 16
    → All IsValue vs
    → Unique (its ++ with_empty t vs ws ∷ more)
    → Plenty m
    → serve monitor c m ≡ fault
unfolding serve answer_request request_finalize
serve-fault monitor c its t vs ws more m header body count small good tag n good_vs unique plenty =
    rw (
      server_read-doomed c its t vs ws more m header body count small good tag n good_vs unique
          plenty,
      packet_finalize-fault (doomed its) _ (doomed-HasFreed its),
    )
