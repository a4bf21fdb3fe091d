-- ===== src/Service/Passwd.antt =====
-- The passwd service: lib/srvd/libsrvd/service/nss/passwd.c and include/srvd/service/nss/passwd.h.
use srvd.Base.{ℕ, Bool, Option}
use srvd.Memory.{Bytes, M, pure, ◌>>=◌}
use srvd.Packet.Update.{field_append_uint32}
use srvd.Service.{Request, Response, name_get, name_free, number_get, string_set}

abbrev pub request_name : ℕ
request_name = 701

abbrev pub request_uid : ℕ
request_uid = 702

abbrev pub request_entities : ℕ
request_entities = 703

abbrev pub response_name : ℕ
response_name = 751

abbrev pub response_uid : ℕ
response_uid = 752

abbrev pub response_gid : ℕ
response_gid = 753

abbrev pub response_dir : ℕ
response_dir = 754

abbrev pub response_shell : ℕ
response_shell = 755

abbrev pub response_gecos : ℕ
response_gecos = 756

abbrev pub request_name_get : Request → M (Option Bytes)
request_name_get = name_get request_name

abbrev pub request_name_free : Option Bytes → M (Bool × Option Bytes)
request_name_free = name_free

abbrev pub request_uid_get : Request → M (Option ℕ)
request_uid_get = number_get request_uid

abbrev pub request_entities_get : Request → M (Option ℕ)
request_entities_get = number_get request_entities

abbrev pub response_name_set : Response → Option Bytes → ℕ → M (Bool × Response)
response_name_set = string_set response_name

abbrev pub response_uid_set : Response → ℕ → M (Bool × Response)
response_uid_set r uid = do
  (status, p) ← field_append_uint32 r.packet response_uid uid
  pure (status, record r { packet = p })

abbrev pub response_gid_set : Response → ℕ → M (Bool × Response)
response_gid_set r gid = do
  (status, p) ← field_append_uint32 r.packet response_gid gid
  pure (status, record r { packet = p })

abbrev pub response_dir_set : Response → Option Bytes → ℕ → M (Bool × Response)
response_dir_set = string_set response_dir

abbrev pub response_shell_set : Response → Option Bytes → ℕ → M (Bool × Response)
response_shell_set = string_set response_shell

abbrev pub response_gecos_set : Response → Option Bytes → ℕ → M (Bool × Response)
response_gecos_set = string_set response_gecos
