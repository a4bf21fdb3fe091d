-- ===== src/Nss/Passwd/Lookup.antt =====
-- `_nss_srvd_getpwuid_r` of lib/srvd/nss/passwd.c with a query that brings a response.
use srvd.Base.{
  ℕ, ◌+◌, ◌≤◌, Bool, true, not, ◌≡◌, refl, none, some, List, [], ◌∷◌, arith, ◌==◌, if◌then◌else◌,
  length, All, Bool-cases, inl, inr,
}
use srvd.Memory.{Bytes, Mem, M, ok, granted, gave_back, Plenty, be32}
use srvd.Field.View.{Item}
use srvd.Packet.View.{packet_of}
use srvd.Packet.Ownership.{slots_blocks, packet_finalize-gave_back}
use srvd.Serial.Balance.{live-slot_of}
use srvd.Packet.Update.Append.{single}
use srvd.Service.{Request, Response, request_finalize, response_finalize, response_initialize}
use srvd.Service.EndToEnd.{append_uint32}
use srvd.Service.Passwd.{request_uid}
use srvd.Nss.{notfound, unavail, tryagain, einval, Reply, populated, reply, ask}
use srvd.Nss.Passwd.{Passwd, Filling, filler, getpwuid_r}
use srvd.Nss.Passwd.Layout.{lay_all, in_buffer, Filled}
use srvd.Nss.Passwd.Populate.{response_of, start_of, populate-lay_all}

-- What the caller gets for a response of a code: what the fields lay out, if it is a success.
abbrev pub reply_for : Bool → ℕ → List Item → ℕ → Passwd → Bytes → Reply Filling
reply_for has_gecos bufsize its code pwd original =
    if code == 2
    then record { status = notfound; errno = none; filled = start_of pwd original }
    else if code == 3
    then record { status = unavail; errno = none; filled = start_of pwd original }
    else if not (code == 0)
    then record { status = tryagain; errno = some einval; filled = start_of pwd original }
    else populated
        (in_buffer original (lay_all bufsize has_gecos its (record { pwd = pwd; written = [] })))

module _ (has_gecos : Bool) (bufsize : ℕ) (first : Item) (its : List Item) (code : ℕ) (pwd : Passwd)
    (original : Bytes) (filled : All Filled its) (whole : bufsize ≤ length original) where
  reply-reply_for :
      (m : Mem)
      → reply (filler has_gecos bufsize) (response_of first its code) (start_of pwd original) m
        ≡ ok (reply_for has_gecos bufsize its code pwd original) m
  unfolding reply
  reply-reply_for m = elim (Bool-cases (code == 2)) [
    | inl a ↦ rw a refl
    | inr a ↦ elim (Bool-cases (code == 3)) [
      | inl b ↦ rw (a, b) refl
      | inr b ↦ elim (Bool-cases (code == 0)) [
        | inr c ↦ rw (a, b, c) refl
        | inl c ↦
            rw (a, b, c)
              (populate-lay_all has_gecos bufsize first its code pwd original m filled whole)
      ]
    ]
  ]

  pub ask-reply_for :
      (query : Request → Response → M (Bool × Response)) (asked : Item) (m m₁ : Mem)
      → query (record { packet = packet_of (asked ∷ []) }) response_initialize.1 m
        ≡ ok (true, response_of first its code) m₁
      → ask query
          (filler has_gecos bufsize)
          (record { packet = packet_of (asked ∷ []) })
          (start_of pwd original)
          m
        ≡ ok
            (code, reply_for has_gecos bufsize its code pwd original)
            (gave_back
              (slots_blocks ((packet_of (first ∷ its)).fields))
              (gave_back (slots_blocks ((packet_of (asked ∷ [])).fields)) m₁))
  unfolding ask request_finalize response_finalize
  ask-reply_for query asked m m₁ answered =
      rw
        (
          answered,
          reply-reply_for m₁,
          packet_finalize-gave_back (packet_of (asked ∷ [])) m₁ tt,
          packet_finalize-gave_back (packet_of (first ∷ its))
              (gave_back (slots_blocks ((packet_of (asked ∷ [])).fields)) m₁) (live-slot_of its),
        )
        refl

  pub getpwuid_r-answered :
      (query : Request → Response → M (Bool × Response)) (uid : ℕ) (m m₁ : Mem)
      → Plenty m
      → query
          (record { packet = packet_of (single request_uid (be32 uid) ∷ []) })
          response_initialize.1
          (granted 3 m)
        ≡ ok (true, response_of first its code) m₁
      → getpwuid_r has_gecos bufsize query uid (start_of pwd original) m
        ≡ ok
            (code, reply_for has_gecos bufsize its code pwd original)
            (gave_back (slots_blocks ((packet_of (first ∷ its)).fields)) (gave_back 3 m₁))
  unfolding getpwuid_r
  getpwuid_r-answered query uid m m₁ plenty answered =
      rw
        (
          append_uint32 request_uid uid m plenty,
          ask-reply_for query (single request_uid (be32 uid)) (granted 3 m) m₁ answered,
        )
        refl

  -- With memory at hand, when the query answers the request for a user id with a response whose values
  -- are not empty: the caller gets "not found", "unavailable" or "try again" by the code of the
  -- response, or for a success the structure and the buffer that the fields behind the first one lay
  -- out; the request and the response give their blocks back, and no other block is left in use.
  pub getpwuid_r-reply_for :
      (query : Request → Response → M (Bool × Response)) (uid : ℕ) (m : Mem)
      → Plenty m
      → query
          (record { packet = packet_of (single request_uid (be32 uid) ∷ []) })
          response_initialize.1
          (granted 3 m)
        ≡ ok
            (true, response_of first its code)
            (granted (slots_blocks ((packet_of (first ∷ its)).fields)) (granted 3 m))
      → (m' : Mem) × (getpwuid_r has_gecos bufsize query uid (start_of pwd original) m
          ≡ ok (code, reply_for has_gecos bufsize its code pwd original) m')
        × ((m'.allocated + m.released) ≡ (m.allocated + m'.released))
  getpwuid_r-reply_for query uid m plenty answered =
      let fields = (packet_of (first ∷ its)).fields in
      let m₁ = granted (slots_blocks fields) (granted 3 m) in
      (
        gave_back (slots_blocks fields) (gave_back 3 m₁),
        getpwuid_r-answered query uid m m₁ plenty answered,
        omega arith,
      )
