-- ===== src/Unsock.antt =====
-- The client over a UNIX domain socket: lib/srvd/libsrvd/client/unsock.c. What the calls `socket`,
-- `connect`, `close`, `write` and `read` answer is an argument of the function that makes the call:
-- `none` stands for -1, and a call that succeeds returns a count or the bytes that it read. A function
-- that writes also returns the bytes that it handed to `write`, since what the other end answers may
-- depend on them.
pub mod Transfer
pub mod Lifecycle
pub mod Talk
use srvd.Base.{ℕ, Bool, true, false, not, Option, none, some, [], ◌==◌, if◌then◌else◌, length}
use srvd.Memory.{Bytes, M, pure, undefined, ◌>>=◌, ◌>>◌, malloc, free, strncpy}
use srvd.Packet.{Packet}
use srvd.Service.{Client}
use srvd.Serial.{
  Block, null, dangling, block, SerialPacket, header_size, serial_initialize, serial_finalize,
  serialize, unserialize_header, unserialize_body,
}

-- `struct srvd_client_unsock`; the descriptor is not modelled beyond the answers of its calls.
pub record Unsock : Type 0 where
  pub connected : Bool
  pub sun_path : Bytes

-- `srvd_client_unsock_allocate` and `srvd_client_unsock_free`
abbrev pub unsock_allocate : M Bool
unsock_allocate = malloc

abbrev pub unsock_free : M (Unit {0})
unsock_free = free

-- `srvd_client_unsock_initialize` of a path with its terminator; `sun_path_length` is the size of
-- `sun_path` on the system.
unfoldable pub unsock_initialize : ℕ → Bytes → Bool → M (Bool × Unsock)
unsock_initialize sun_path_length path opens = do
  copy ← strncpy (some path) sun_path_length
  pure (opens, record { connected = false; sun_path = copy })

-- `srvd_client_unsock_connect`
unfoldable pub unsock_connect : Unsock → Bool → Bool × Unsock
unsock_connect c connects =
    if c.connected
    then (false, c)
    else if not connects
    then (false, c)
    else (true, record c { connected = true })

-- `srvd_client_unsock_disconnect`, which leaves `connected` alone
unfoldable pub unsock_disconnect : Unsock → Bool → Bool × Unsock
unsock_disconnect c closes = if not c.connected then (false, c) else (closes, c)

-- `srvd_client_unsock_finalize`
pub unsock_finalize : Unsock → Bool → Bool × Unsock
unsock_finalize c closes = if c.connected then unsock_disconnect c closes else (true, c)

-- The `size` bytes behind `serial.data`, as `write` reads them.
pub sent_bytes : Block → M Bytes
sent_bytes null = undefined
sent_bytes dangling = undefined
sent_bytes (block bytes) = pure bytes

-- Whether a call returned this count.
abbrev pub complete : ℕ → Option ℕ → Bool
complete size none = false
complete size (some n) = n == size

unfoldable pub write_serial : (Bytes → Option ℕ) → Bool × SerialPacket → M (Bool × Bytes)
write_serial writes (false, s) = do _ ← serial_finalize s; pure (false, [])
write_serial writes (true, s) = do
  bytes ← sent_bytes s.content
  _ ← serial_finalize s
  pure (complete s.size (writes bytes), bytes)

-- `srvd_client_unsock_write`; `garbage` is what the serial packet on the stack holds before it is
-- initialized.
pub unsock_write : SerialPacket → Unsock → (Bytes → Option ℕ) → Packet → M (Bool × Bytes)
unsock_write garbage c writes packet =
    if not c.connected
    then pure (false, [])
    else serialize (serial_initialize garbage).1 packet >>= write_serial writes

-- What comes behind the second `read`, into the block for the body.
unfoldable pub read_body : SerialPacket → Packet → Option Bytes → M (Bool × Packet)
read_body s packet none = pure (false, packet)
read_body s packet (some body) =
    if not (length body == s.body_size)
    then pure (false, packet)
    else unserialize_body s packet body

unfoldable pub read_rest : (ℕ → Option Bytes) → Packet → Bool × SerialPacket → M (Bool × Packet)
read_rest reads packet (false, s) = do _ ← serial_finalize s; pure (false, packet)
read_rest reads packet (true, s) = do
  got ← malloc
  if not got then (do _ ← serial_finalize s; pure (false, packet)) else do
    (status, packet) ← read_body s packet (reads s.body_size)
    _ ← serial_finalize s
    free
    pure (status, packet)

unfoldable pub read_header :
    SerialPacket → (ℕ → Option Bytes) → Packet → Option Bytes → M (Bool × Packet)
read_header s reads packet none = do _ ← serial_finalize s; pure (false, packet)
read_header s reads packet (some header) =
    if not (length header == header_size)
    then (do _ ← serial_finalize s; pure (false, packet))
    else unserialize_header s header >>= read_rest reads packet

-- `srvd_client_unsock_read`: `first` is what the `read` of the header answers, and `reads` what that
-- of a body of a size does.
pub unsock_read :
    SerialPacket → Unsock → Option Bytes → (ℕ → Option Bytes) → Packet → M (Bool × Packet)
unsock_read garbage c first reads packet =
    if not c.connected
    then pure (false, packet)
    else read_header (serial_initialize garbage).1 reads packet first

-- What the calls on the socket of a client answer, the reads by what was written before, and what its serial packets on the stack hold
-- before they are initialized.
pub record Socket : Type 0 where
  pub connects : Bool
  pub closes : Bool
  pub writes : Bytes → Option ℕ
  pub first : Bytes → Option Bytes
  pub reads : Bytes → ℕ → Option Bytes
  pub garbage_out : SerialPacket
  pub garbage_in : SerialPacket

-- The function pointers that `srvd_client_unsock_allocate` sets, on a client that is asked to connect
-- first: what `connect` leaves is what the others find.
pub unsock_client : Unsock → Socket → Client
unsock_client c s =
    let connected = (unsock_connect c s.connects).1 in
    record {
      release = unsock_free;
      connect = pure (unsock_connect c s.connects).0;
      disconnect = pure (unsock_disconnect connected s.closes).0;
      write = unsock_write s.garbage_out connected s.writes;
      read = λ sent. unsock_read s.garbage_in connected (s.first sent) (s.reads sent);
    }
