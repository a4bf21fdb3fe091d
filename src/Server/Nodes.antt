-- ===== src/Server/Nodes.antt =====
-- The list of services of lib/srvd/libsrvd/server.c by its pointers. Nodes stand at addresses, `none` is
-- `NULL` for a pointer, and a result `none` is an access through `NULL` or to a freed node.
pub mod Removal
pub mod Refinement
use srvd.Base.{ℕ, zero, suc, Bool, true, false, Option, none, some, ◌==◌, if◌then◌else◌}
use srvd.Links.{◌>>=◌, put}
use srvd.Server.{Service}

-- `struct srvd_server_service`
pub record ServiceNode (H : Type 0) : Type 0 where
  pub service : Service H
  pub next : Option ℕ

abbrev pub NodeStore : Type 0 → Type 0
NodeStore H = ℕ → Option (ServiceNode H)

module _ {H : Type 0} where
  -- `server->services = i->next` or `pi->next = i->next`
  pub unlink_node : Option ℕ → Option ℕ → Option ℕ → NodeStore H → Option (Option ℕ × NodeStore H)
  unlink_node none next services h = some (next, h)
  unlink_node (some q) next services h = do
    n ← h q
    some (services, put h q (some (record n { next = next })))

  -- The loop of `srvd_server_service_remove` from `pi` and `i` on, in at most as many rounds: the
  -- status, `server->services` and the nodes.
  pub remove_node :
      ℕ → ℕ → Option ℕ → Option ℕ → Option ℕ → NodeStore H → Option (Bool × Option ℕ × NodeStore H)
  remove_node n type pi none services h = some (false, services, h)
  remove_node zero type pi (some p) services h = none
  remove_node (suc n) type pi (some p) services h =
      let further = remove_node n type (some p) in
      do
        i ← h p
        if i.service.type == type
            then (do
              (services, h) ← unlink_node pi i.next services h
              some (true, services, put h p none))
            else further i.next services h
