-- ===== src/Server/Nodes/Refinement.antt =====
-- The two ways of keeping the services in lib/srvd/libsrvd/server.c, by pointers and as the list of
-- Server.
use srvd.Base.{
  ℕ, Bool, true, false, ◌≡◌, refl, sym, ap, ◌∙◌, Option, none, some, List, [], ◌∷◌, ◌==◌,
  if◌then◌else◌, arith, length, length-map, rounds, rounds-zero, Bool-cases, inl, inr,
}
use srvd.Memory.{Mem, Run, ok, free, gave_back}
use srvd.Links.{put}
use srvd.Links.Segment.{has, Apart, has-ne, put-hit, put-other, not_same}
use srvd.Server.{Service, Server, remove_loop, unlink, service_remove}
use srvd.Server.Nodes.{NodeStore, unlink_node, remove_node}
use srvd.Server.Nodes.Removal.{
  ServiceCells, Chain, services_of, without, found, Chain-frame, remove_node-behind, Apart-without,
  remove_loop-without, without-absent,
}

module _ {H : Type 0} where
  -- The nodes from `first` on have the services.
  pub record Keeps (h : NodeStore H) (first : Option ℕ) (services : List (Service H)) : Type 0 where
    pub cells : ServiceCells H
    pub chain : Chain h first cells
    pub apart : Apart cells
    pub held : services_of cells ≡ services

  -- The removal by the pointers and the removal from the list, with what each leaves.
  pub record Removed (h : NodeStore H) (cells : ServiceCells H)
      (pointers : Option (Bool × Option ℕ × NodeStore H)) (registry : Run (Bool × Server H))
      : Type 0 where
    pub status : Bool
    pub first : Option ℕ
    pub store : NodeStore H
    pub server : Server H
    pub memory : Mem
    pub runs : pointers ≡ some (status, first, store)
    pub removes : registry ≡ ok (status, server) memory
    pub keeps : Keeps store first server.services
    pub kept : (a : ℕ) → has a cells ≡ false → store a ≡ h a
    pub gone : (a : ℕ) → has a cells ≡ true → has a keeps.cells ≡ false → store a ≡ none

  remove_node-Chain :
      (t n : ℕ) (services : Option ℕ) (h : NodeStore H) (cs : ServiceCells H)
      → Chain h services cs
      → Apart cs
      → (first : Option ℕ) × ((g : NodeStore H) × (remove_node
              (rounds cs n)
              t
              none
              services
              services
              h
            ≡ some (found t cs, first, g))
          × (Chain g first (without t cs)
              × (((a : ℕ) → has a cs ≡ false → g a ≡ h a)
                  × ((a : ℕ) → has a cs ≡ true → has a (without t cs) ≡ false → g a ≡ none))))
  unfolding remove_node unlink_node
  remove_node-Chain t n services h [] c apart =
      (none, (h, rw c refl, (refl, ((λ a o. refl), λ a i o. cc))))
  remove_node-Chain t n services h ((p, s) ∷ cs) (f, (next, e, c)) apart =
      elim (Bool-cases (s.type == t)) [
        | inl same ↦
            let g = put h p none in
            (
              next,
              (
                g,
                rw (f, e, same) refl,
                (
                  rw same (
                      Chain-frame h g next cs c
                        λ a i. put-other h p a none (not_same p a (has-ne p a cs apart.0 i))),
                  (
                    (λ a o. put-other h p a none (ground (arith, o))),
                    λ a i o. put-hit h p a none (ground (arith, i, rw same at o)),
                  ),
                ),
              ),
            )
        | inr other ↦
            let (g, run, (chain, (kept, gone))) =
              remove_node-behind t n p s next (some p) h cs e c apart in
            (some p, (g, rw (f, e, other, run) refl, (rw other chain, (kept, rw other gone))))
      ]

  service_remove-loop :
      (s : Server H) (t : ℕ) (cs : ServiceCells H) (m : Mem)
      → services_of cs ≡ s.services
      → (server : Server H) × ((m' : Mem) × (service_remove s t m ≡ ok (found t cs, server) m')
          × (services_of (without t cs) ≡ server.services))
  unfolding service_remove unlink free
  service_remove-loop s t cs m e =
      let loop : remove_loop t s.services
          ≡ (if found t cs then some (services_of (without t cs)) else none) =
        rw e at (remove_loop-without t cs) in
      elim (Bool-cases (found t cs)) [
        | inl there ↦ (
          record s { services = services_of (without t cs) },
          (gave_back 1 m, rw (loop, there) refl, refl),
        )
        | inr absent ↦ (s, (m, rw (loop, absent) refl, rw (without-absent t cs absent) e))
      ]

  -- When the nodes from `server->services` on have the services of the registry: removing a type by the
  -- pointers and removing it from the list end with the same status, and the nodes have the services
  -- that are left; the node that was removed is freed, once and after its last use, and every other
  -- object is as it was, but for the pointer that led to it.
  pub service_remove-remove_node :
      (s : Server H) (t : ℕ) (first : Option ℕ) (h : NodeStore H) (m : Mem)
      (k : Keeps h first s.services)
      → Removed h k.cells
          (remove_node (length s.services) t none first first h)
          (service_remove s t m)
  service_remove-remove_node s t first h m k =
      let (after, (g, run, (chain, (kept, gone)))) =
        remove_node-Chain t 0 first h k.cells k.chain k.apart in
      let (server, (m', removes, left)) = service_remove-loop s t k.cells m k.held in
      let n : rounds k.cells 0 ≡ length s.services =
        rounds-zero k.cells ∙ sym (length-map (λ c. c.1) k.cells) ∙ ap length k.held in
      record {
        status = found t k.cells;
        first = after;
        store = g;
        server = server;
        memory = m';
        runs = rw n at run;
        removes = removes;
        keeps = record {
          cells = without t k.cells;
          chain = chain;
          apart = Apart-without t k.cells k.apart;
          held = left;
        };
        kept = kept;
        gone = gone;
      }
