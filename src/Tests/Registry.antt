-- ===== src/Tests/Registry.antt =====
-- The properties of the registry of services at a concrete one.
use srvd.Base.{ℕ, refl, true, false, [], ◌∷◌}
use srvd.Memory.{Ends}
use srvd.Server.{Server, service_add, service_remove, service_loop}
use srvd.Server.Registry.{IsRegistry, Added, Removed, service_add-Added, service_remove-Removed}
use srvd.Tests.{start}

-- A registry with two handlers.
abbrev registry : Server ℕ
registry = record {
  services = record { type = 701; handler = 10 } ∷ record { type = 702; handler = 20 } ∷ [];
  executing = false;
}

registry-IsRegistry : IsRegistry registry
unfolding service_loop
registry-IsRegistry = (refl, (refl, tt))

service_add-Added_example : Ends (Added registry 703 30 true) (service_add registry 703 30 start)
service_add-Added_example = service_add-Added registry 703 30 start registry-IsRegistry

service_remove-Removed_example : Ends (Removed registry 701) (service_remove registry 701 start)
service_remove-Removed_example = service_remove-Removed registry 701 start registry-IsRegistry
