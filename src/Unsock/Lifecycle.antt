-- ===== src/Unsock/Lifecycle.antt =====
-- Connecting, disconnecting and finalizing in lib/srvd/libsrvd/client/unsock.c.
use srvd.Base.{arith, Bool, true, false, ◌≡◌}
use srvd.Unsock.{Unsock, unsock_connect, unsock_disconnect, unsock_finalize}

-- A client that was connected and then disconnected still counts as connected: it cannot be
-- connected again, and `unsock_finalize` closes its socket a second time and returns what that
-- `close` answers.
pub unsock_finalize-unsock_disconnect :
    (c d e : Unsock) (connects again : Bool)
    → unsock_connect c true ≡ (true, d)
    → unsock_disconnect d true ≡ (true, e)
    → (unsock_connect e connects ≡ (false, e)) × (unsock_finalize e again ≡ (again, e))
unfolding unsock_connect unsock_disconnect unsock_finalize
unsock_finalize-unsock_disconnect c d e connects again up down = ground arith
