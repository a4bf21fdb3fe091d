-- ===== src/Service/Aliases.antt =====
-- The aliases service: lib/srvd/libsrvd/service/nss/aliases.c and
-- include/srvd/service/nss/aliases.h.
pub mod Members
pub mod Adding
use srvd.Base.{ℕ, Bool, false, Option, none, some, ◌%◌, ◌^◌}
use srvd.Memory.{Bytes, M, pure, ◌>>=◌}
use srvd.Packet.{Packet, entry_add_at}
use srvd.Packet.Update.{field_append_uint8, field_get_or_add}
use srvd.Service.{Request, Response, name_get, name_free, number_get, string_set}

abbrev pub request_name : ℕ
request_name = 101

abbrev pub request_entities : ℕ
request_entities = 102

abbrev pub response_name : ℕ
response_name = 151

abbrev pub response_members : ℕ
response_members = 152

abbrev pub response_local : ℕ
response_local = 153

abbrev pub request_name_get : Request → M (Option Bytes)
request_name_get = name_get request_name

abbrev pub request_name_free : Option Bytes → M (Bool × Option Bytes)
request_name_free = name_free

abbrev pub request_entities_get : Request → M (Option ℕ)
request_entities_get = number_get request_entities

abbrev pub response_name_set : Response → Option Bytes → ℕ → M (Bool × Response)
response_name_set = string_set response_name

pub member_into : Response → Bytes → ℕ → Option ℕ × Packet → M (Bool × Response)
member_into r member length (none, p) = pure (false, record r { packet = p })
member_into r member length (some i, p) = do
  (status, p) ← entry_add_at p i (length % 2 ^ 16) (some member)
  pure (status, record r { packet = p })

pub response_member_add : Response → Option Bytes → ℕ → M (Bool × Response)
response_member_add r none length = pure (false, r)
response_member_add r (some member) length =
    field_get_or_add r.packet response_members >>= member_into r member length

abbrev pub response_local_set : Response → ℕ → M (Bool × Response)
response_local_set r local = do
  (status, p) ← field_append_uint8 r.packet response_local local
  pure (status, record r { packet = p })
