-- ===== src/Client.antt =====
-- The client that a configuration asks for: lib/srvd/libsrvd/client.c.
pub mod ByConf
pub mod FromFile
use srvd.Base.{ℕ, Bool, true, false, not, Option, none, some, List, [], ◌∷◌, if◌then◌else◌}
use srvd.Memory.{Bytes, M, pure, ◌>>=◌, ◌>>◌, free, strncmp}
use srvd.Conf.{Conf, item_get}
use srvd.Unsock.{Unsock, unsock_allocate, unsock_initialize}

-- "client:adapter", "client:path", "unsock" and "tcp", with their terminators
abbrev pub client_adapter : Bytes
client_adapter =
    99 ∷ 108 ∷ 105 ∷ 101 ∷ 110 ∷ 116 ∷ 58 ∷ 97 ∷ 100 ∷ 97 ∷ 112 ∷ 116 ∷ 101 ∷ 114 ∷ 0 ∷ []

abbrev pub client_path : Bytes
client_path = 99 ∷ 108 ∷ 105 ∷ 101 ∷ 110 ∷ 116 ∷ 58 ∷ 112 ∷ 97 ∷ 116 ∷ 104 ∷ 0 ∷ []

abbrev pub unsock_name : Bytes
unsock_name = 117 ∷ 110 ∷ 115 ∷ 111 ∷ 99 ∷ 107 ∷ 0 ∷ []

abbrev pub tcp_name : Bytes
tcp_name = 116 ∷ 99 ∷ 112 ∷ 0 ∷ []

module _ (sun_path_length : ℕ) (opens : Bool) where
  started : Bool × Unsock → M (Bool × Option Unsock)
  started (false, r) = free >> pure (false, none)
  started (true, r) = pure (true, some r)

  start_unsock : Option (Bytes × ℕ) → M (Bool × Option Unsock)
  start_unsock none = pure (false, none)
  start_unsock (some (path, path_length)) = do
    got ← unsock_allocate
    if not got then pure (false, none) else unsock_initialize sun_path_length path opens >>= started

  choose_adapter : Conf → Option (Bytes × ℕ) → M (Bool × Option Unsock)
  choose_adapter conf none = pure (false, none)
  choose_adapter conf (some (adapter, adapter_length)) = do
    unsock ← strncmp adapter unsock_name adapter_length
    if unsock then item_get conf (some client_path) >>= start_unsock else do
      tcp ← strncmp adapter tcp_name adapter_length
      if tcp then pure (false, none) else pure (false, none)

  -- `srvd_client_get_by_conf` for a `*client` that is `NULL`: the status and what it then points to.
  -- `sun_path_length` is the size of `sun_path` and `opens` whether `socket` succeeds.
  pub get_by_conf : Conf → M (Bool × Option Unsock)
  get_by_conf conf = item_get conf (some client_adapter) >>= choose_adapter conf
