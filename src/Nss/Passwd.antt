-- ===== src/Nss/Passwd.antt =====
-- The name switch module for users: lib/srvd/nss/passwd.c.
pub mod Layout
pub mod Populate
pub mod Lookup
pub mod Entities
pub mod Threads
use srvd.Base.{ℕ, ◌+◌, ◌%◌, ◌^◌, Bool, ◌&&◌, Option, none, some, ◌==◌, if◌then◌else◌}
use srvd.Memory.{Bytes, M, pure, ◌>>=◌}
use srvd.Field.{Entry, Field, entry_get_first}
use srvd.Packet.Update.{field_append, field_append_uint32}
use srvd.Service.{Request, Response, request_initialize}
use srvd.Service.Passwd.{
  request_name, request_uid, request_entities, response_name, response_uid, response_gid,
  response_dir, response_shell, response_gecos,
}
use srvd.Nss.{
  NssStatus, Errno, Area, Reply, Filler, Put, put_first, first_uint32, ask, set_entries,
  end_entries, get_entry,
}

-- `struct passwd`, as far as the module fills it; `none` is what the caller left there.
pub record Passwd : Type 0 where
  pub pw_name : Option ℕ
  pub pw_uid : ℕ
  pub pw_gid : ℕ
  pub pw_dir : Option ℕ
  pub pw_shell : Option ℕ
  pub pw_gecos : Option ℕ

-- The structure and the buffer that are filled.
pub record Filling : Type 0 where
  pub pwd : Passwd
  pub area : Area

-- What follows the copy of a string: its pointer, unless there was an error.
pub set_string : (ℕ → Passwd → Passwd) → Filling → Put → M (Option Errno × Filling)
set_string set s (none, (at, area)) = pure (none, record { pwd = set at s.pwd; area = area })
set_string set s (some errno, (at, area)) = pure (some errno, s)

abbrev pub set_number : (ℕ → Passwd) → Filling → Option Errno × ℕ → M (Option Errno × Filling)
set_number set s (errno, n) = pure (errno, record s { pwd = set n })

module _ (has_gecos : Bool) (bufsize : ℕ) where
  fill_string : (ℕ → Passwd → Passwd) → Field → Filling → M (Option Errno × Filling)
  fill_string set f s = put_first bufsize (entry_get_first f) s.area >>= set_string set s

  -- The cases of `_srvd_nss_passwd_populate`; `has_gecos` is `HAVE_PASSWD_GECOS`.
  pub fill_field : Field → Filling → M (Option Errno × Filling)
  fill_field f s =
      if f.type == response_name
      then fill_string (λ at pwd. record pwd { pw_name = some at }) f s
      else if f.type == response_uid
      then (first_uint32 s.pwd.pw_uid (entry_get_first f)
          >>= set_number (λ n. record (s.pwd) { pw_uid = n }) s)
      else if f.type == response_gid
      then (first_uint32 s.pwd.pw_gid (entry_get_first f)
          >>= set_number (λ n. record (s.pwd) { pw_gid = n }) s)
      else if f.type == response_dir
      then fill_string (λ at pwd. record pwd { pw_dir = some at }) f s
      else if f.type == response_shell
      then fill_string (λ at pwd. record pwd { pw_shell = some at }) f s
      else if has_gecos && f.type == response_gecos
      then fill_string (λ at pwd. record pwd { pw_gecos = some at }) f s
      else pure (none, s)

  abbrev pub filler : Filler Filling
  filler = record { enter = λ s. s; fill = fill_field }

  module _ (query : Request → Response → M (Bool × Response)) where
    -- `_nss_srvd_getpwnam_r`, with `sysconf(_SC_LOGIN_NAME_MAX)`; the code of the response comes first.
    unfoldable pub getpwnam_r : ℕ → Bytes → Filling → M (ℕ × Reply Filling)
    getpwnam_r login_name_max name s = do
      (_, p) ←
          field_append request_initialize.1.packet request_name ((login_name_max + 1) % 2 ^ 16)
            (some name)
      ask query filler (record { packet = p }) s

    -- `_nss_srvd_getpwuid_r`
    pub getpwuid_r : ℕ → Filling → M (ℕ × Reply Filling)
    getpwuid_r uid s = do
      (_, p) ← field_append_uint32 request_initialize.1.packet request_uid uid
      ask query filler (record { packet = p }) s

    -- `_nss_srvd_getpwent_r`
    abbrev pub getpwent_r : Filling → Option ℕ → M (Reply Filling × Option ℕ)
    getpwent_r = get_entry query filler request_entities

-- `_nss_srvd_setpwent` and `_nss_srvd_endpwent`
abbrev pub setpwent : Option ℕ → M (NssStatus × Option ℕ)
setpwent = set_entries

abbrev pub endpwent : Option ℕ → M (NssStatus × Option ℕ)
endpwent = end_entries
