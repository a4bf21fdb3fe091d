-- ===== src/Listener/Finalize.antt =====
-- `srvd_server_unsock_finalize` of lib/srvd/libsrvd/server/unsock.c.
use srvd.Base.{ℕ, some, Bool, false, ◌≡◌, refl}
use srvd.Memory.{Bytes, Mem, ok, strncpy, terminate, Yields, result, chain, any-Yields}
use srvd.Listener.{listener_initialize, listener_finalize}

-- A listener that was initialized and never executed cannot be finalized: the status is a failure
-- and its services stay, although nothing executes.
pub listener_finalize-listener_initialize :
    (sun_path_length : ℕ) (path : Bytes) (queue_size : ℕ) (opens : Bool) (m k : Mem)
    → Yields
        (λ (_, l). listener_finalize l k ≡ ok (false, l) k)
        (listener_initialize sun_path_length path queue_size opens m)
unfolding listener_initialize listener_finalize
listener_finalize-listener_initialize n path queue_size opens m k =
    chain (any-Yields (strncpy (some path) n m))
      λ copy m₁ _. chain (any-Yields (terminate n copy m₁)) λ c m₂ _. result refl
