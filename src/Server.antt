-- ===== src/Server.antt =====
-- The registry of services: lib/srvd/libsrvd/server.c. The linked list of services is a list of its
-- nodes, in order; a handler is a value of the type `H`.
pub mod Registry
pub mod Nodes
use srvd.Base.{ℕ, Bool, true, false, not, Option, none, some, List, [], ◌∷◌, ◌==◌, if◌then◌else◌}
use srvd.Memory.{M, pure, ◌>>=◌, ◌>>◌, malloc, free}

-- `struct srvd_server_service`
pub record Service {ℓ} (H : Type ℓ) : Type ℓ where
  pub type : ℕ
  pub handler : H

-- `struct srvd_server`
pub record Server {ℓ} (H : Type ℓ) : Type ℓ where
  pub services : List (Service H)
  pub executing : Bool

module _ {ℓ} {H : Type ℓ} where
  -- `srvd_server_initialize`
  abbrev pub server_initialize : Bool × Server H
  server_initialize = (true, record { services = []; executing = false })

  pub free_services : List (Service H) → M (Unit {0})
  free_services [] = pure tt
  free_services (n ∷ ns) = do free; free_services ns

  -- `srvd_server_finalize`
  pub server_finalize : Server H → M (Bool × Server H)
  server_finalize s = do free_services s.services; pure server_initialize

  unfoldable pub service_loop : ℕ → List (Service H) → Option H
  service_loop type [] = none
  service_loop type (n ∷ ns) =
      let rest = service_loop type ns in if n.type == type then some n.handler else rest

  -- `srvd_server_service_get`
  unfoldable pub service_get : Server H → ℕ → Option H
  service_get s type = service_loop type s.services

  pub has_loop : ℕ → List (Service H) → Bool
  has_loop type [] = false
  has_loop type (n ∷ ns) = let rest = has_loop type ns in if n.type == type then true else rest

  -- `srvd_server_service_has`
  pub service_has : Server H → ℕ → Bool
  service_has s type = has_loop type s.services

  -- `srvd_server_service_add`: the status and the server
  pub service_add : Server H → ℕ → H → M (Bool × Server H)
  service_add s type handler =
      if not (service_has s type)
      then (do
        got ← malloc
        if not got
            then pure (false, s)
            else pure (
              true,
              record s { services = record { type = type; handler = handler } ∷ s.services },
            ))
      else pure (false, s)

  -- The nodes without the first of the type; `none` if there is none.
  pub remove_loop : ℕ → List (Service H) → Option (List (Service H))
  remove_loop type [] = none
  remove_loop type (n ∷ ns) =
      let rest = remove_loop type ns in
      if n.type == type then some ns else elim rest [ none ↦ none | some ms ↦ some (n ∷ ms) ]

  pub unlink : Server H → Option (List (Service H)) → M (Bool × Server H)
  unlink s none = pure (false, s)
  unlink s (some ns) = free >> pure (true, record s { services = ns })

  -- `srvd_server_service_remove`
  pub service_remove : Server H → ℕ → M (Bool × Server H)
  service_remove s type = unlink s (remove_loop type s.services)
