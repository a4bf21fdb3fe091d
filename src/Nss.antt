-- ===== src/Nss.antt =====
-- What the two name switch modules share: lib/srvd/nss/nss.h, include/srvd/buffer.h, and the text that
-- lib/srvd/nss/passwd.c and lib/srvd/nss/aliases.c have in common. The caller's buffer is a list of
-- bytes, and a pointer into it is a position. The key of a thread holds the offset of an enumeration
-- or nothing; the call that makes the key runs once and is not modelled.
pub mod Written
pub mod Bounds
pub mod Enumeration
pub mod Overread
pub mod Passwd
pub mod Aliases
use srvd.Base.{
  ℕ, zero, suc, ◌+◌, ◌%◌, ◌^◌, Bool, true, false, not, Option, none, some, List, [], ◌∷◌, leb, ◌==◌,
  if◌then◌else◌,
}
use srvd.Memory.{Bytes, M, pure, undefined, ◌>>=◌, ◌>>◌, malloc, free, strncpy, terminate, write}
use srvd.Field.{Entry, Field, entry_get_uint32}
use srvd.Packet.{Slot, live, freed, Packet}
use srvd.Packet.Update.{field_append_uint32}
use srvd.Service.{
  Request, Response, request_initialize, request_finalize, response_initialize, response_finalize,
  store,
}

-- `enum nss_status`
pub data NssStatus : Type 0 where
  success : NssStatus
  notfound : NssStatus
  unavail : NssStatus
  tryagain : NssStatus

pub data Errno : Type 0 where
  einval : Errno
  erange : Errno

-- The caller's buffer with the iterator in it.
pub record Area : Type 0 where
  pub buffer : Bytes
  pub bi : ℕ

-- A status, what went to `*ret_errno` (`none` when nothing did), and what was filled.
pub record Reply {ℓ} (S : Type ℓ) : Type ℓ where
  pub status : NssStatus
  pub errno : Option Errno
  pub filled : S

-- The error that ended the work, and the pointer to the string that was put into the buffer.
abbrev pub Put : Type 0
Put = Option Errno × (ℕ × Area)

-- `SRVD_BUFFER_CHECK_OFFSET`
abbrev pub check_offset : Area → ℕ → ℕ → Bool
check_offset a bufsize length = leb (a.bi + length) bufsize

-- An entry goes into the buffer as a string.
pub put_entry : ℕ → Entry → Area → M Put
put_entry bufsize e a =
    if not (check_offset a bufsize e.size) then pure (some erange, (a.bi, a)) else do
      s ← strncpy e.content e.size
      s ← terminate e.size s
      buffer ← write a.bi s a.buffer
      pure (none, (a.bi, record { buffer = buffer; bi = a.bi + e.size }))

-- The first entry of a field goes into the buffer.
pub put_first : ℕ → Option Entry → Area → M Put
put_first bufsize none a = pure (some einval, (a.bi, a))
put_first bufsize (some e) a = put_entry bufsize e a

-- The first entry of a field as a number; one that cannot be read leaves the target as it was.
pub first_uint32 : ℕ → Option Entry → M (Option Errno × ℕ)
first_uint32 old none = pure (some einval, old)
first_uint32 old (some e) = do n ← entry_get_uint32 e; pure (none, store old n)

-- `SRVD_SERVICE_RESPONSE_FIELD_ITERATE` skips the first field.
abbrev pub after_first : List Slot → List Slot
after_first [] = []
after_first (f ∷ fs) = fs

-- What a module does with a response: before its fields, and with each of them.
pub record Filler {ℓ} (S : Type ℓ) : Type ℓ where
  pub enter : S → S
  pub fill : Field → S → M (Option Errno × S)

module _ {ℓ} {S : Type ℓ} where
  -- What follows a field: the next one, or the end after an error.
  continue : (S → M (Option Errno × S)) → Option Errno × S → M (Option Errno × S)
  continue rest (none, s) = rest s
  continue rest (some errno, s) = pure (some errno, s)

  pub populate_fields : (Field → S → M (Option Errno × S)) → List Slot → S → M (Option Errno × S)
  populate_fields fill [] s = pure (none, s)
  populate_fields fill (freed ∷ fs) s = undefined
  populate_fields fill (live f ∷ fs) s = fill f s >>= continue (populate_fields fill fs)

  abbrev pub populated : Option Errno × S → Reply S
  populated (none, s) = record { status = success; errno = none; filled = s }
  populated (some errno, s) = record { status = tryagain; errno = some errno; filled = s }

  -- `_srvd_nss_passwd_populate` and `_srvd_nss_aliases_populate`
  pub populate : Filler S → Response → S → M (Reply S)
  populate filler r s = do
    done ← populate_fields filler.fill (after_first r.packet.fields) (filler.enter s)
    pure (populated done)

  -- What a response is for the caller, by its code.
  pub reply : Filler S → Response → S → M (Reply S)
  reply filler r s =
      if r.status == 2
      then pure (record { status = notfound; errno = none; filled = s })
      else if r.status == 3
      then pure (record { status = unavail; errno = none; filled = s })
      else if not (r.status == 0)
      then pure (record { status = tryagain; errno = some einval; filled = s })
      else populate filler r s

  -- A request with its response: the code of the response, and what it is for the caller.
  pub ask : (Request → Response → M (Bool × Response)) → Filler S → Request → S → M (ℕ × Reply S)
  ask query filler request s = do
    (_, response) ← query request response_initialize.1
    answer ← reply filler response s
    _ ← request_finalize request
    _ ← response_finalize response
    pure (response.status, answer)

-- `_srvd_nss_passwd_pwent_initialize_offset` and `_srvd_nss_aliases_aliasent_initialize_offset`
pub initialize_offset : M (Bool × Option ℕ)
initialize_offset = do got ← malloc; if not got then pure (false, none) else pure (true, some 0)

-- The offset of the thread, which is made if it is not there.
pub ensure_offset : Option ℕ → M (Bool × Option ℕ)
ensure_offset none = initialize_offset
ensure_offset (some n) = pure (true, some n)

restart : Bool × Option ℕ → M (NssStatus × Option ℕ)
restart (true, some n) = pure (success, some 0)
restart (true, none) = undefined
restart (false, offset) = pure (unavail, offset)

-- `_nss_srvd_setpwent` and `_nss_srvd_setaliasent`: the status and the offset of the thread
pub set_entries : Option ℕ → M (NssStatus × Option ℕ)
set_entries offset = ensure_offset offset >>= restart

-- `_nss_srvd_endpwent` and `_nss_srvd_endaliasent`
pub end_entries : Option ℕ → M (NssStatus × Option ℕ)
end_entries none = pure (success, none)
end_entries (some n) = free >> pure (success, none)

-- `_nss_srvd_getpwent_r` and `_nss_srvd_getaliasent_r`, by the type of the request and what they do
-- with a response: the reply and the offset of the thread
module _ {ℓ} {S : Type ℓ} where
  get_at :
      (Request → Response → M (Bool × Response))
      → Filler S
      → ℕ
      → S
      → Bool × Option ℕ
      → M (Reply S × Option ℕ)
  get_at query filler type s (false, offset) =
      pure (record { status = unavail; errno = none; filled = s }, offset)
  get_at query filler type s (true, none) = undefined
  get_at query filler type s (true, some n) = do
    (_, p) ← field_append_uint32 request_initialize.1.packet type n
    (code, answer) ← ask query filler (record { packet = p }) s
    pure (answer, some (if code == 0 then (n + 1) % 2 ^ 32 else n))

  pub get_entry :
      (Request → Response → M (Bool × Response))
      → Filler S
      → ℕ
      → S
      → Option ℕ
      → M (Reply S × Option ℕ)
  get_entry query filler type s offset = ensure_offset offset >>= get_at query filler type s
