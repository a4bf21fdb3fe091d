-- ===== src/Listener.antt =====
-- The server over a UNIX domain socket: lib/srvd/libsrvd/server/unsock.c. The answers of the socket
-- calls are arguments, as for the client.
pub mod Serve
pub mod Finalize
pub mod Crash
use srvd.Base.{ℕ, ◌-◌, Bool, true, false, not, Option, none, some, List, [], ◌∷◌, if◌then◌else◌}
use srvd.Memory.{Bytes, M, pure, ◌>>=◌, ◌>>◌, malloc, free, strncpy, terminate}
use srvd.Packet.{Packet, field_get_first, field_at}
use srvd.Packet.Update.{field_insert_uint16}
use srvd.Serial.{SerialPacket, serial_initialize, serialize}
use srvd.Service.{
  Request, Response, request_initialize, request_finalize, response_initialize, response_finalize,
}
use srvd.Server.{Server, server_initialize, server_finalize, service_get}
use srvd.Unsock.{write_serial, read_header}

-- `srvd_server_service_handler_pt`: what a handler makes of the response.
abbrev pub Handler : Type 0
Handler = Request → Response → M Response

-- `struct srvd_server_unsock`
pub record Listener : Type 0 where
  pub monitor : Server Handler
  pub path : Bytes
  pub queue_size : ℕ
  pub sun_path : Bytes

-- `SRVD_PROTOCOL_STATUS` and `SRVD_SERVICE_RESPONSE_UNAVAIL`
abbrev pub protocol_status : ℕ
protocol_status = 65535

abbrev pub response_unavail : ℕ
response_unavail = 3

-- `srvd_server_unsock_allocate` and `srvd_server_unsock_free`
abbrev pub listener_allocate : M Bool
listener_allocate = malloc

abbrev pub listener_free : M (Unit {0})
listener_free = free

-- `srvd_server_unsock_initialize` of a path with its terminator and a queue size
pub listener_initialize : ℕ → Bytes → ℕ → Bool → M (Bool × Listener)
listener_initialize sun_path_length path queue_size opens = do
  copy ← strncpy (some path) sun_path_length
  copy ← terminate sun_path_length copy
  pure (
    opens,
    record { monitor = server_initialize.1; path = path; queue_size = queue_size; sun_path = copy },
  )

-- `srvd_server_unsock_finalize`
pub listener_finalize : Listener → M (Bool × Listener)
listener_finalize l =
    if not l.monitor.executing
    then pure (false, l)
    else do (status, s) ← server_finalize l.monitor; pure (status, record l { monitor = s })

-- What the calls on the descriptor of a client answer, and what the serial packets on the stack
-- hold before they are initialized.
pub record Connection : Type 0 where
  pub first : Option Bytes
  pub reads : ℕ → Option Bytes
  pub writes : Bytes → Option ℕ
  pub garbage : SerialPacket

-- `_srvd_server_unsock_read` and `_srvd_server_unsock_write`, which have the text of the client's
-- behind the guards
pub server_read : Connection → Packet → M (Bool × Packet)
server_read c packet = read_header (serial_initialize c.garbage).1 c.reads packet c.first

pub server_write : Connection → Packet → M (Bool × Bytes)
server_write c packet = serialize (serial_initialize c.garbage).1 packet >>= write_serial c.writes

-- The status code becomes the first field; that this fails is not noticed.
pub insert_status : Response → ℕ → M Response
insert_status r code = do
  (_, p) ← field_insert_uint16 r.packet protocol_status code
  pure (record r { packet = p })

pub respond : Option Handler → Request → Response → M Response
respond none request r = insert_status r response_unavail
respond (some handler) request r = do r ← handler request r; insert_status r r.status

-- The answer to a request that was read, by the type of its first field; `none` if it has none.
pub dispatch :
    Server Handler → Connection → Request → Option ℕ → M (Option (Bool × Bytes) × Response)
dispatch monitor c request none = pure (none, response_initialize.1)
dispatch monitor c request (some i) = do
  f ← field_at request.packet i
  r ← respond (service_get monitor f.type) request response_initialize.1
  written ← server_write c r.packet
  pure (some written, r)

pub answer_request :
    Server Handler → Connection → Bool × Packet → M (Option (Bool × Bytes) × Request × Response)
answer_request monitor c (false, p) = pure (none, record { packet = p }, response_initialize.1)
answer_request monitor c (true, p) = do
  (written, r) ← dispatch monitor c (record { packet = p }) (field_get_first p)
  pure (written, record { packet = p }, r)

-- The round of the loop of `srvd_server_unsock_execute` for one client: whether the answer was
-- written, and its bytes, if there was one.
pub serve : Server Handler → Connection → M (Option (Bool × Bytes))
serve monitor c = do
  got ← server_read c request_initialize.1.packet
  (written, request, response) ← answer_request monitor c got
  _ ← request_finalize request
  _ ← response_finalize response
  pure written

-- The loop, for the first answers of `accept`; -1 is `none`.
serve_all : Server Handler → List (Option Connection) → M (List (Option (Bool × Bytes)))
serve_all monitor [] = pure []
serve_all monitor (none ∷ cs) = serve_all monitor cs
serve_all monitor (some c ∷ cs) = do
  written ← serve monitor c
  rest ← serve_all monitor cs
  pure (written ∷ rest)

-- `srvd_server_unsock_execute`: the status if it returns, which it does before the loop only, and
-- what the rounds so far did.
pub execute :
    Listener
    → Bool
    → Bool
    → List (Option Connection)
    → M (Option Bool × Listener × List (Option (Bool × Bytes)))
execute l binds listens cs =
    let l' : Listener = record l { monitor = record l.monitor { executing = true } } in
    if not binds
    then pure (some false, l', [])
    else if not listens
    then pure (some false, l', [])
    else do rounds ← serve_all l'.monitor cs; pure (none, l', rounds)
