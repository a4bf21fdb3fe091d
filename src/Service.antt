-- ===== src/Service.antt =====
-- Requests and responses: lib/srvd/libsrvd/service.c and include/srvd/service.h, and what the
-- accessors of lib/srvd/libsrvd/service/nss have in common.
pub mod Passwd
pub mod Aliases
pub mod Numbers
pub mod Query
pub mod Names
pub mod EndToEnd
pub mod Setters
use srvd.Base.{
  ℕ, suc, ◌+◌, ◌%◌, ◌^◌, Bool, true, false, not, Option, none, some, ltb, ◌==◌, if◌then◌else◌,
}
use srvd.Memory.{Bytes, M, pure, undefined, ◌>>=◌, ◌>>◌, malloc, free, strncpy, terminate}
use srvd.Field.{Entry, Field, entry_get_first, entry_get_uint16, entry_get_uint32}
use srvd.Packet.{Packet, packet_initialize, packet_finalize, field_get_first, field_at}
use srvd.Packet.Update.{field_append}

-- `struct srvd_service_request`
pub record Request : Type 0 where
  pub packet : Packet

-- `struct srvd_service_response`
pub record Response : Type 0 where
  pub packet : Packet
  pub status : ℕ

-- The response codes that the library itself sets.
abbrev pub response_fail : ℕ
response_fail = 1

abbrev pub response_unknown : ℕ
response_unknown = 65535

-- `srvd_service_request_allocate`, `_free`, `_initialize` and `_finalize`
abbrev pub request_allocate : M Bool
request_allocate = malloc

abbrev pub request_free : M (Unit {0})
request_free = free

abbrev pub request_initialize : Bool × Request
request_initialize = let (status, p) = packet_initialize in (status, record { packet = p })

unfoldable pub request_finalize : Request → M (Bool × Request)
request_finalize r = do (status, p) ← packet_finalize r.packet; pure (status, record { packet = p })

-- `srvd_service_response_allocate`, `_free`, `_initialize` and `_finalize`
abbrev pub response_allocate : M Bool
response_allocate = malloc

abbrev pub response_free : M (Unit {0})
response_free = free

abbrev pub response_initialize : Bool × Response
response_initialize =
    let (status, p) = packet_initialize in
    (status, record { packet = p; status = response_unknown })

unfoldable pub response_finalize : Response → M (Bool × Response)
response_finalize r = do
  (status, p) ← packet_finalize r.packet
  pure (status, record { packet = p; status = response_unknown })

-- The field behind a pointer that a lookup left, which is `NULL` after a failure.
pub field_through : Packet → Option ℕ → M Field
field_through p none = undefined
field_through p (some i) = field_at p i

-- The function pointers of `struct srvd_client`. A write also gives the bytes that went to the server,
-- and a read is of what the server makes of the bytes that it got.
pub record Client : Type 0 where
  pub release : M (Unit {0})
  pub connect : M Bool
  pub disconnect : M Bool
  pub write : Packet → M (Bool × Bytes)
  pub read : Bytes → Packet → M (Bool × Packet)

-- `srvd_client_free`, `srvd_client_connect`, `srvd_client_disconnect`, `srvd_client_write` and
-- `srvd_client_read`
abbrev pub client_free : Client → M (Unit {0})
client_free c = c.release

abbrev pub client_connect : Client → M Bool
client_connect c = c.connect

abbrev pub client_disconnect : Client → M Bool
client_disconnect c = c.disconnect

abbrev pub client_write : Client → Packet → M (Bool × Bytes)
client_write c packet = c.write packet

abbrev pub client_read : Client → Bytes → Packet → M (Bool × Packet)
client_read c sent packet = c.read sent packet

pub first_entry : Packet → Option ℕ → M (Option Entry)
first_entry p none = pure none
first_entry p (some i) = do f ← field_at p i; pure (entry_get_first f)

-- A number that could not be read leaves the target as it was.
abbrev pub store : ℕ → Option ℕ → ℕ
store old none = old
store old (some new) = new

pub read_code : Response → Option Entry → M Response
read_code r none = pure (record r { status = response_fail })
read_code r (some e) = do
  code ← entry_get_uint16 e
  pure (record r { status = store r.status code })

-- The status code behind the label of `srvd_service_request_query`: a failure if there is no first
-- field or it has no entry, and else the first entry of the first field.
pub answer : Response → M Response
answer r = first_entry r.packet (field_get_first r.packet) >>= read_code r

-- What is said to the server: the status and the packet of the response. The outcome of `disconnect`
-- only goes to the log.
pub exchange : Client → Packet → Packet → M (Bool × Packet)
exchange c question reply = do
  connected ← client_connect c
  if not connected then pure (false, reply) else do
    (written, sent) ← client_write c question
    if not written then pure (false, reply) else do
      (got, reply) ← client_read c sent reply
      if not got then pure (false, reply) else do _ ← client_disconnect c; pure (true, reply)

pub query_with : Request → Response → Option Client → M (Bool × Response)
query_with request r none = do r ← answer r; pure (false, r)
query_with request r (some c) = do
  (status, reply) ← exchange c request.packet r.packet
  r ← answer (record r { packet = reply })
  client_free c
  pure (status, r)

query_conf {ℓ} :
    {C : Type ℓ} → (C → M (Option Client)) → Request → Response → Option C → M (Bool × Response)
query_conf get_by_conf request r none = query_with request r none
query_conf get_by_conf request r (some conf) = get_by_conf conf >>= query_with request r

-- `srvd_service_request_query`, with what the configuration and the client connector give it: the
-- configuration, if it could be read, and the client for it.
pub query {ℓ} :
    {C : Type ℓ} → M (Option C) → (C → M (Option Client)) → Request → Response → M (Bool × Response)
query default_get get_by_conf request r = default_get >>= query_conf get_by_conf request r

-- The pointer to the first entry of a request of a type, as the getters fetch it; the outer `none`
-- is a guard that returns the status `SRVD_FALSE`.
pub checked_entry : ℕ → Field → Option (Option Entry)
checked_entry type f =
    if not (f.type == type)
    then none
    else if not (f.entry_count == 1)
    then none
    else some (entry_get_first f)

pub request_entry : ℕ → Packet → M (Option (Option Entry))
request_entry type p =
    if not (ltb 0 p.field_count)
    then pure none
    else do f ← field_through p (field_get_first p); pure (checked_entry type f)

-- The string and its block; `none` with the status `SRVD_FALSE`.
pub copy_name : Option (Option Entry) → M (Option Bytes)
copy_name none = pure none
copy_name (some none) = undefined
copy_name (some (some e)) = do
  got ← malloc
  if not got
      then pure none
      else do name ← strncpy e.content e.size; name ← terminate e.size name; pure (some name)

-- `request_name_get` of the passwd and the aliases database, by the type of the request
pub name_get : ℕ → Request → M (Option Bytes)
name_get type request = request_entry type request.packet >>= copy_name

-- `request_name_free`: the status and the pointer
pub name_free : Option Bytes → M (Bool × Option Bytes)
name_free none = pure (false, none)
name_free (some name) = free >> pure (true, none)

pub number_of : Option (Option Entry) → M (Option ℕ)
number_of none = pure none
number_of (some none) = pure none
number_of (some (some e)) = entry_get_uint32 e

-- `request_uid_get` and `request_entities_get`, by the type of the request
pub number_get : ℕ → Request → M (Option ℕ)
number_get type request = request_entry type request.packet >>= number_of

-- The setters of strings, by the type of the field; the length becomes a `uint16_t`.
pub string_set : ℕ → Response → Option Bytes → ℕ → M (Bool × Response)
string_set type r none length = pure (false, r)
string_set type r (some bs) length = do
  (status, p) ← field_append r.packet type (length % 2 ^ 16) (some bs)
  pure (status, record r { packet = p })
