-- ===== src/Stack.antt =====
-- The query of lib/srvd/libsrvd/service.c over the configuration, the choice of the client and the
-- client for UNIX domain sockets.
pub mod Sockets
pub mod Configured
pub mod Trip
pub mod Lookup
pub mod Enumerations
use srvd.Base.{ℕ, Bool, true, false, Option, none, some, if◌then◌else◌}
use srvd.Memory.{Bytes, M, pure, ◌>>=◌}
use srvd.Service.{Request, Response, Client, query}
use srvd.Conf.{Conf}
use srvd.Conf.File.{ConfFile, Stat, file_default_get}
use srvd.Client.{get_by_conf}
use srvd.Unsock.{Unsock, Socket, unsock_client}

-- What the system answers on the way: `stat`, `fopen` and `stat` again for the default configuration
-- file, and the calls on the socket.
pub record System : Type 0 where
  pub default_path : Bytes
  pub checked : Option Stat
  pub opened : Option Bytes
  pub info : Option Stat
  pub sun_path_length : ℕ
  pub opens : Bool
  pub socket : Socket

abbrev pub with_socket : Socket → Option Unsock → Option Client
with_socket s none = none
with_socket s (some c) = some (unsock_client c s)

-- The configuration of the default file.
pub default_conf : System → ConfFile → M (Option Conf)
default_conf system f = do
  (status, f) ← file_default_get f system.default_path system.checked system.opened system.info
  pure (if status then some f.conf else none)

pub client_for : System → Conf → M (Option Client)
client_for system conf = do
  (status, c) ← get_by_conf system.sun_path_length system.opens conf
  pure (if status then with_socket system.socket c else none)

-- `srvd_service_request_query` as it is linked in the library.
pub linked_query : System → ConfFile → Request → Response → M (Bool × Response)
linked_query system f = query (default_conf system f) (client_for system)
