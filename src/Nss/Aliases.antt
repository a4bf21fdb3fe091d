-- ===== src/Nss/Aliases.antt =====
-- The name switch module for mail aliases: lib/srvd/nss/aliases.c. How a pointer stands in the
-- buffer is the system's matter, a parameter.
pub mod Members
pub mod Slots
pub mod Table
pub mod Layout
pub mod Outcome
pub mod Populate
use srvd.Base.{
  ℕ, ◌+◌, ◌*◌, ◌%◌, ◌^◌, Bool, not, Option, none, some, List, [], ◌∷◌, ◌==◌, if◌then◌else◌,
  replicate,
}
use srvd.Memory.{Bytes, M, pure, ◌>>=◌, write}
use srvd.Field.{Entry, Field, entry_get_first, entry_get_uint8}
use srvd.Packet.Update.{field_append}
use srvd.Service.{Request, Response, request_initialize, store}
use srvd.Service.Aliases.{
  request_name, request_entities, response_name, response_members, response_local,
}
use srvd.Nss.{
  NssStatus, Errno, einval, erange, Area, Reply, Filler, Put, check_offset, put_entry, put_first,
  populate, ask, set_entries, end_entries, get_entry,
}

-- `struct aliasent`; `none` is what the caller left there.
pub record Aliasent : Type 0 where
  pub alias_name : Option ℕ
  pub alias_members_len : ℕ
  pub alias_members : Option ℕ
  pub alias_local : ℕ

-- The structure and the buffer that are filled.
pub record Filling : Type 0 where
  pub ae : Aliasent
  pub area : Area

pub set_name : Filling → Put → M (Option Errno × Filling)
set_name s (none, (at, area)) =
    pure (none, record { ae = record (s.ae) { alias_name = some at }; area = area })
set_name s (some errno, (at, area)) = pure (some errno, s)

-- The number goes through a pointer to the first byte of `alias_local`, an `int` that is zero before: on a
-- machine with the low byte first, that is the number.
pub set_local : Filling → Option Entry → M (Option Errno × Filling)
set_local s none = pure (some einval, s)
set_local s (some e) = do
  n ← entry_get_uint8 e
  pure (none, record s { ae = record (s.ae) { alias_local = store s.ae.alias_local n } })

module _ (pointer_size : ℕ) (pointer : ℕ → Bytes) (bufsize : ℕ) where
  -- `ae->alias_members[entry_offset] = bi`, unless there was an error.
  link_member : ℕ → ℕ → Put → M (Option Errno × Area)
  link_member members i (some errno, (at, area)) = pure (some errno, area)
  link_member members i (none, (at, area)) = do
    buffer ← write (members + i * pointer_size) (pointer at) area.buffer
    pure (none, record area { buffer = buffer })

  next_member : (Area → M (Option Errno × Area)) → Option Errno × Area → M (Option Errno × Area)
  next_member rest (none, area) = rest area
  next_member rest (some errno, area) = pure (some errno, area)

  -- The loop over the members, with `entry_offset` from `i` on.
  pub put_members : ℕ → ℕ → List Entry → Area → M (Option Errno × Area)
  put_members members i [] area = pure (none, area)
  put_members members i (e ∷ es) area =
      put_entry bufsize e area
      >>= link_member members i
      >>= next_member (put_members members ((i + 1) % 2 ^ 16) es)

  pub fill_members : Field → Filling → M (Option Errno × Filling)
  fill_members f s =
      let counted = record (s.ae) { alias_members_len = f.entry_count } in
      let size = f.entry_count * pointer_size in
      if not (check_offset s.area bufsize size)
      then pure (some erange, record s { ae = counted })
      else do
        buffer ← write s.area.bi (replicate size 0) s.area.buffer
        (errno, area) ←
            put_members s.area.bi 0 f.entries (record { buffer = buffer; bi = s.area.bi + size })
        pure (
          errno,
          record { ae = record counted { alias_members = some (s.area.bi) }; area = area },
        )

  -- The cases of `_srvd_nss_aliases_populate`
  pub fill_field : Field → Filling → M (Option Errno × Filling)
  fill_field f s =
      if f.type == response_name
      then (put_first bufsize (entry_get_first f) s.area >>= set_name s)
      else if f.type == response_members
      then fill_members f s
      else if f.type == response_local
      then set_local s (entry_get_first f)
      else pure (none, s)

  -- Servers are not required to send the field for `alias_local`.
  abbrev pub filler : Filler Filling
  filler = record {
    enter = λ s. record s { ae = record (s.ae) { alias_local = 0 } };
    fill = fill_field;
  }

  module _ (query : Request → Response → M (Bool × Response)) where
    -- `_nss_srvd_getaliasbyname_r`, with `sysconf(_SC_LOGIN_NAME_MAX)`
    unfoldable pub getaliasbyname_r : ℕ → Bytes → Filling → M (ℕ × Reply Filling)
    getaliasbyname_r login_name_max name s = do
      (_, p) ←
          field_append request_initialize.1.packet request_name ((login_name_max + 1) % 2 ^ 16)
            (some name)
      ask query filler (record { packet = p }) s

    -- `_nss_srvd_getaliasent_r`
    abbrev pub getaliasent_r : Filling → Option ℕ → M (Reply Filling × Option ℕ)
    getaliasent_r = get_entry query filler request_entities

-- `_nss_srvd_setaliasent` and `_nss_srvd_endaliasent`
abbrev pub setaliasent : Option ℕ → M (NssStatus × Option ℕ)
setaliasent = set_entries

abbrev pub endaliasent : Option ℕ → M (NssStatus × Option ℕ)
endaliasent = end_entries
