-- ===== src/Server/Registry.antt =====
-- The registry of lib/srvd/libsrvd/server.c as a partial map from types to handlers.
use srvd.Base.{
  ℕ, ◌≡◌, refl, sym, ap, ◌∙◌, inl, inr, subst, Bool, true, false, not, ◌&&◌, Option, none, some,
  List, [], ◌∷◌, ◌==◌, if◌then◌else◌, arith, length, is_some, Bool-cases, Option-cases,
}
use srvd.Memory.{Mem, ok, malloc, free, gave_back, Ends, ends}
use srvd.Server.{
  Service, Server, server_initialize, free_services, server_finalize, service_loop, service_get,
  has_loop, service_has, service_add, remove_loop, unlink, service_remove,
}

module _ {ℓ} {H : Type ℓ} where
  -- No type has two nodes.
  abbrev Distinct : List (Service H) → Type ℓ
  Distinct [] = Unit {ℓ}
  Distinct (n ∷ ns) = (service_loop n.type ns ≡ none) × Distinct ns

  abbrev pub IsRegistry : Server H → Type ℓ
  IsRegistry s = Distinct s.services

  has_loop-service_loop :
      (t : ℕ) (ns : List (Service H)) → has_loop t ns ≡ is_some (service_loop t ns)
  unfolding has_loop service_loop
  has_loop-service_loop t [] = refl
  has_loop-service_loop t (n ∷ ns) = ground (arith, has_loop-service_loop t ns)

  -- `service_has` tells whether `service_get` finds a handler.
  pub service_has-service_get : (s : Server H) (t : ℕ) → service_has s t ≡ is_some (service_get s t)
  unfolding service_has service_get
  service_has-service_get s t = has_loop-service_loop t s.services

  remove_loop-head :
      (t u : ℕ) (n : Service H) (ns : List (Service H))
      → n.type ≡ t
      → service_loop n.type ns ≡ none
      → service_loop u ns ≡ (if t == u then none else service_loop u (n ∷ ns))
  unfolding service_loop
  remove_loop-head t u n ns e d = ground arith

  remove_loop-removed :
      (t : ℕ) (ns ms : List (Service H))
      → Distinct ns
      → remove_loop t ns ≡ some ms
      → (u : ℕ) → service_loop u ms ≡ (if t == u then none else service_loop u ns)
  unfolding remove_loop service_loop
  remove_loop-removed t [] ms d e u = cc
  remove_loop-removed t (n ∷ ns) ms (d, ds) e u = elim (Option-cases (remove_loop t ns)) [
    | inl none_left ↦ ground (arith, d)
    | inr (ks, some_left) ↦ ground (arith, remove_loop-removed t ns ks ds some_left u)
  ]

  Distinct-tail :
      (t : ℕ) (n : Service H) (ns ms : List (Service H))
      → Distinct ns
      → remove_loop t ns ≡ none
      → remove_loop t (n ∷ ns) ≡ some ms
      → Distinct ms
  unfolding remove_loop
  Distinct-tail t n ns ms ds none_left e = elim (Bool-cases (n.type == t)) [
    | inl same ↦ subst Distinct (ground arith) ds
    | inr other ↦ ground arith
  ]

  Distinct-both :
      (t : ℕ) (n : Service H) (ns ks ms : List (Service H))
      → Distinct (n ∷ ns)
      → remove_loop t ns ≡ some ks
      → Distinct ks
      → remove_loop t (n ∷ ns) ≡ some ms
      → Distinct ms
  unfolding remove_loop
  Distinct-both t n ns ks ms (d, ds) some_left dks e = elim (Bool-cases (n.type == t)) [
    | inl same ↦ subst Distinct (ground arith) ds
    | inr other ↦
        subst Distinct {x = n ∷ ks} (ground arith)
          (ground (arith, remove_loop-removed t ns ks ds some_left n.type), dks)
  ]

  remove_loop-Distinct :
      (t : ℕ) (ns ms : List (Service H)) → Distinct ns → remove_loop t ns ≡ some ms → Distinct ms
  unfolding remove_loop
  remove_loop-Distinct t [] ms d e = cc
  remove_loop-Distinct t (n ∷ ns) ms (d, ds) e = elim (Option-cases (remove_loop t ns)) [
    | inl none_left ↦ Distinct-tail t n ns ms ds none_left e
    | inr (ks, some_left) ↦
        Distinct-both t n ns ks ms (d, ds) some_left (remove_loop-Distinct t ns ks ds some_left) e
  ]

  remove_loop-none :
      (t : ℕ) (ns : List (Service H)) → is_some (remove_loop t ns) ≡ is_some (service_loop t ns)
  unfolding remove_loop service_loop
  remove_loop-none t [] = refl
  remove_loop-none t (n ∷ ns) = ground (arith, remove_loop-none t ns)

  -- `q` is `s` without its handler of the type, if it has one; `status` tells whether it does.
  abbrev pub Removed : Server H → ℕ → Bool × Server H → Type ℓ
  Removed s t (status, q) =
      (status ≡ is_some (service_get s t))
      × IsRegistry q
      × ((u : ℕ) → service_get q u ≡ (if t == u then none else service_get s u))

  unlink-Removed :
      (s : Server H) (t : ℕ) (o : Option (List (Service H))) (m : Mem)
      → IsRegistry s
      → remove_loop t s.services ≡ o
      → Ends (Removed s t) (unlink s o m)
  unfolding unlink free service_get
  unlink-Removed s t none m reg found =
      let gone : is_some (service_loop t s.services) ≡ false =
        sym (remove_loop-none t s.services) ∙ ap is_some found in
      ends (sym gone, reg, λ u. ground (arith, gone))
  unlink-Removed s t (some ns) m reg found =
      let there : is_some (service_loop t s.services) ≡ true =
        sym (remove_loop-none t s.services) ∙ ap is_some found in
      ends (
        sym there,
        remove_loop-Distinct t s.services ns reg found,
        remove_loop-removed t s.services ns reg found,
      )

  -- `service_remove` takes a type out of a registry without duplicates, leaves the other types as
  -- they are and makes no duplicate; it succeeds exactly when the type has a handler.
  pub service_remove-Removed :
      (s : Server H) (t : ℕ) (m : Mem) → IsRegistry s → Ends (Removed s t) (service_remove s t m)
  unfolding service_remove
  service_remove-Removed s t m reg = unlink-Removed s t (remove_loop t s.services) m reg refl

  -- `q` is `s` with the handler, unless the type has one or the node could not be allocated.
  abbrev pub Added : Server H → ℕ → H → Bool → Bool × Server H → Type ℓ
  Added s t h granted (status, q) =
      (status ≡ (not (is_some (service_get s t)) && granted))
      × IsRegistry q
      × ((u : ℕ) → service_get q u ≡ (if status && t == u then some h else service_get s u))

  -- In a registry without duplicates, `service_add` gives a type its handler, leaves the other types
  -- as they are and adds no duplicate; it succeeds exactly when the type has none and `malloc`
  -- returns a node, and changes nothing otherwise.
  pub service_add-Added :
      (s : Server H) (t : ℕ) (h : H) (m : Mem)
      → IsRegistry s
      → Ends (Added s t h (m.succeeds m.calls)) (service_add s t h m)
  unfolding service_add malloc service_has service_get service_loop
  service_add-Added s t h m reg = elim (Option-cases (service_loop t s.services)) [
    | inr (h', found) ↦
        rw (has_loop-service_loop t s.services, found)
          (ends {a = (false, s)}
            (ap (λ o. not (is_some o) && m.succeeds m.calls) (sym found), reg, λ u. refl))
    | inl absent ↦ elim (Bool-cases (m.succeeds m.calls)) [
      | inl got ↦
          rw (has_loop-service_loop t s.services, absent, got)
            (ends
              {a = (true, record s { services = record { type = t; handler = h } ∷ s.services })}
              (ap (λ o. not (is_some o) && true) (sym absent), (absent, reg), λ u. refl))
      | inr gone ↦
          rw (has_loop-service_loop t s.services, absent, gone)
            (ends {a = (false, s)}
              (ap (λ o. not (is_some o) && false) (sym absent), reg, λ u. refl))
    ]
  ]

  free_services-gave_back :
      (ns : List (Service H)) (m : Mem) → free_services ns m ≡ ok tt (gave_back (length ns) m)
  unfolding free_services free
  free_services-gave_back [] m = ground arith
  free_services-gave_back (n ∷ ns) m = ground (arith, free_services-gave_back ns (gave_back 1 m))

  -- `server_finalize` gives each node back once and leaves a server with no services.
  pub server_finalize-gave_back :
      (s : Server H) (m : Mem)
      → server_finalize s m ≡ ok server_initialize (gave_back (length s.services) m)
  unfolding server_finalize
  server_finalize-gave_back s m = rw (free_services-gave_back s.services m)
