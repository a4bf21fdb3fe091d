-- ===== src/Nss/Enumeration.antt =====
-- The enumerations and the lookups of lib/srvd/nss/passwd.c and lib/srvd/nss/aliases.c: what is asked
-- for, and the offset of the thread.
use srvd.Base.{
  ℕ, suc, ◌+◌, ◌%◌, ◌^◌, Bool, true, ◌≡◌, refl, ap, subst, ◌∙◌, Option, none, some, [], ◌∷◌, arith,
  ◌==◌, if◌then◌else◌, Bool-cases, inl, inr,
}
use srvd.Memory.{
  Mem, M, ok, pure, ◌>>=◌, malloc, granted, Plenty, Yields, result, chain, weaken, Yields-ok,
  if-Yields, any-Yields, be32,
}
use srvd.Packet.View.{packet_of}
use srvd.Packet.Update.{field_append_uint32}
use srvd.Packet.Update.Append.{single}
use srvd.Service.{
  Request, Response, request_initialize, request_finalize, response_finalize, response_initialize,
}
use srvd.Service.EndToEnd.{append_uint32}
use srvd.Nss.{
  success, unavail, Reply, Filler, populate, reply, ask, ensure_offset, initialize_offset, restart,
  set_entries, get_at, get_entry,
}

module _ {ℓ} {S : Type ℓ} (query : Request → Response → M (Bool × Response))
    (filler : Filler S) where
  -- A reply of success is to a response of success.
  reply-Yields :
      (r : Response) (s : S) (m : Mem)
      → Yields (λ a. a.status ≡ success → (r.status == 0) ≡ true) (reply filler r s m)
  unfolding reply
  reply-Yields r s m = if-Yields (r.status == 2) _ _ m (result (λ e. cc)) (
      if-Yields (r.status == 3) _ _ m (result (λ e. cc)) (elim (Bool-cases (r.status == 0)) [
        | inl z ↦ rw z (weaken (any-Yields (populate filler r s m)) λ a t e. refl)
        | inr z ↦ rw z (result (λ e. cc))
      ]))

  ask-Yields :
      (request : Request) (s : S) (m : Mem)
      → Yields (λ a. a.1.status ≡ success → (a.0 == 0) ≡ true) (ask query filler request s m)
  unfolding ask
  ask-Yields request s m = chain (any-Yields (query request response_initialize.1 m)) λ q m2 t.
      chain (reply-Yields q.1 s m2) λ a m3 h.
        chain (any-Yields (request_finalize request m3))
          λ x m4 t2. chain (any-Yields (response_finalize q.1 m4)) λ y m5 t3. result h

  get_entry-Yields :
      (type : ℕ) (s : S) (n : ℕ) (m : Mem)
      → Yields
          (λ a. a.0.status ≡ success → a.1 ≡ some ((n + 1) % 2 ^ 32))
          (get_entry query filler type s (some n) m)
  unfolding get_entry get_at ensure_offset
  get_entry-Yields type s n m =
      chain (any-Yields (field_append_uint32 request_initialize.1.packet type n m)) λ p m2 t.
        chain (ask-Yields (record { packet = p.1 }) s m2)
          λ a m3 h. result (λ e. ap (λ b. some (if b then (n + 1) % 2 ^ 32 else n)) (h e))

  -- What a thread reaches that starts an enumeration and makes calls that succeed: its offset, and
  -- the number of the calls.
  pub data Enumerated (type : ℕ) : Option ℕ → ℕ → Type ℓ where
    restarted :
        (before : Option ℕ) {after : Option ℕ} (m m' : Mem)
        → set_entries before m ≡ ok (success, after) m'
        → Enumerated type after 0
    advanced :
        (before : Option ℕ) {after : Option ℕ} {k : ℕ} (s : S) (a : Reply S) (m m' : Mem)
        → Enumerated type before k
        → get_entry query filler type s before m ≡ ok (a, after) m'
        → a.status ≡ success
        → Enumerated type after (suc k)

  set_entries-Yields :
      (offset : Option ℕ) (m : Mem)
      → Yields (λ a. a.0 ≡ success → a.1 ≡ some 0) (set_entries offset m)
  unfolding set_entries ensure_offset initialize_offset restart malloc
  set_entries-Yields (some n) m = result (λ e. refl)
  set_entries-Yields none m = elim (Bool-cases (m.succeeds m.calls)) [
    | inl got ↦ rw got (result {a = (success, some 0)} (λ e. refl))
    | inr got ↦ rw got (result {a = (unavail, none)} (λ e. cc))
  ]

  -- In an enumeration whose calls succeed, the offset of the thread, which is the entity that the next
  -- call asks for, is the number of the calls so far, as a `uint32_t`: no entity is asked for twice
  -- and none is left out.
  pub Enumerated-offset :
      {type : ℕ} {offset : Option ℕ} {k : ℕ} → Enumerated type offset k → offset ≡ some (k % 2 ^ 32)
  Enumerated-offset (restarted before m m' run) =
      Yields-ok
        (subst (Yields (λ a. a.0 ≡ success → a.1 ≡ some 0)) run (set_entries-Yields before m)) refl
  Enumerated-offset {type = type} (advanced before {k = k} s a m m' r run good) =
      let at = Enumerated-offset r in
      let next : Yields (λ a. a.0.status ≡ success → a.1 ≡ some ((k % 2 ^ 32 + 1) % 2 ^ 32))
          (get_entry query filler type s before m) =
        rw at (get_entry-Yields type s (k % 2 ^ 32) m) in
      let moved : (k % 2 ^ 32 + 1) % 2 ^ 32 ≡ suc k % 2 ^ 32 = omega arith in
      Yields-ok
        (subst (Yields (λ a. a.0.status ≡ success → a.1 ≡ some ((k % 2 ^ 32 + 1) % 2 ^ 32))) run
          next)
        good
      ∙ ap some moved

  -- With memory at hand, a call of an enumeration sends a request with the type of the enumeration
  -- and the offset of the thread, and the offset moves on exactly when the code of the response is
  -- that of success, whatever was made of the response.
  pub get_entry-asked :
      (type n : ℕ) (s : S) (m : Mem)
      → Plenty m
      → get_entry query filler type s (some n) m
        ≡ (ask query filler (record { packet = packet_of (single type (be32 n) ∷ []) }) s
              >>= λ (code, a). pure (a, some (if code == 0 then (n + 1) % 2 ^ 32 else n)))
            (granted 3 m)
  unfolding get_entry get_at ensure_offset
  get_entry-asked type n s m plenty = rw (append_uint32 type n m plenty) refl

-- An enumeration that is there starts again.
pub set_entries-some : (n : ℕ) (m : Mem) → set_entries (some n) m ≡ ok (success, some 0) m
unfolding set_entries ensure_offset restart
set_entries-some n m = refl
