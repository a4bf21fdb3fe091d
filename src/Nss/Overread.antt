-- ===== src/Nss/Overread.antt =====
-- The name in a request of `_nss_srvd_getpwnam_r` and `_nss_srvd_getaliasbyname_r`, lib/srvd/nss/passwd.c
-- and lib/srvd/nss/aliases.c.
use srvd.Base.{ℕ, ◌+◌, ◌%◌, ◌^◌, ◌<◌, Bool, ◌≡◌, refl, length}
use srvd.Memory.{Bytes, Mem, M, fault, Plenty}
use srvd.Service.{Request, Response}
use srvd.Packet.Update.Overread.{field_append-overread}
use srvd.Nss.Passwd
use srvd.Nss.Aliases

-- With memory at hand, a name that takes with its terminator fewer bytes than
-- sysconf(_SC_LOGIN_NAME_MAX) + 1, as every login name does, is read behind its end, whatever the query
-- would do and whatever is to be filled.
pub getpwnam_r-overread :
    (query : Request → Response → M (Bool × Response)) (has_gecos : Bool) (pointer_size : ℕ)
    (pointer : ℕ → Bytes) (bufsize login_name_max : ℕ) (name : Bytes) (s : Passwd.Filling)
    (t : Aliases.Filling) (m : Mem)
    → Plenty m
    → length name < (login_name_max + 1) % 2 ^ 16
    → (Passwd.getpwnam_r has_gecos bufsize query login_name_max name s m ≡ fault)
      × (Aliases.getaliasbyname_r pointer_size pointer bufsize query login_name_max name t m
          ≡ fault)
unfolding Passwd.getpwnam_r Aliases.getaliasbyname_r
getpwnam_r-overread query has_gecos pointer_size pointer bufsize login_name_max name s t m plenty
      short =
    let size = (login_name_max + 1) % 2 ^ 16 in
    (
      rw (field_append-overread 701 size name m plenty short) refl,
      rw (field_append-overread 101 size name m plenty short) refl,
    )
