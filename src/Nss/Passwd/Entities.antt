-- ===== src/Nss/Passwd/Entities.antt =====
-- A whole enumeration of lib/srvd/nss/passwd.c: a call of `_nss_srvd_setpwent` and calls of
-- `_nss_srvd_getpwent_r` in a row, with a query that answers from a table of users.
use srvd.Base.{
  ℕ, zero, suc, ◌+◌, ◌<◌, ◌≤◌, ◌%◌, ◌^◌, Bool, true, ◌≡◌, refl, sym, ◌∙◌, Option, none, some, List,
  [], ◌∷◌, arith, ◌==◌, if◌then◌else◌, length, All, zero_add,
}
use srvd.Memory.{Bytes, Mem, M, ok, pure, ◌>>=◌, malloc, taken, granted, gave_back, Plenty, be32}
use srvd.Field.View.{Item}
use srvd.Packet.View.{packet_of}
use srvd.Packet.Ownership.{slots_blocks}
use srvd.Packet.Update.Append.{single}
use srvd.Service.{Request, Response, response_initialize}
use srvd.Service.Passwd.{request_entities}
use srvd.Nss.{NssStatus, success, Reply, set_entries, ensure_offset, initialize_offset, restart}
use srvd.Nss.Enumeration.{get_entry-asked}
use srvd.Nss.Passwd.{Passwd, Filling, filler, setpwent, getpwent_r}
use srvd.Nss.Passwd.Layout.{Filled}
use srvd.Nss.Passwd.Populate.{response_of, start_of}
use srvd.Nss.Passwd.Lookup.{reply_for, ask-reply_for}

-- What a caller passes to a call: a structure and a buffer.
pub record Caller : Type 0 where
  pub pwd : Passwd
  pub original : Bytes

-- The block of the offset of a thread that has none.
abbrev pub opened : Option ℕ → ℕ
opened none = 1
opened (some n) = 0

-- How far the offset moves.
abbrev pub moved : List (List Item) → List Caller → ℕ
moved [] cs = 0
moved (its ∷ table) [] = 0
moved (its ∷ table) (c ∷ cs) = suc (moved table cs)

abbrev pub asking : ℕ → Request
asking n = record { packet = packet_of (single request_entities (be32 n) ∷ []) }

module _ (first : ℕ → Item) where
  -- The response for an offset: the fields of the user there, or "not found" behind the last one.
  abbrev pub served : List (List Item) → ℕ → Response
  served [] n = response_of (first 2) [] 2
  served (its ∷ table) zero = response_of (first 0) its 0
  served (its ∷ table) (suc n) = served table n

  -- The query answers requests for the offsets from `n` on from the table, as far as the first one
  -- behind it, and leaves no block in use but those of the response.
  abbrev pub Answers : (Request → Response → M (Bool × Response)) → ℕ → List (List Item) → Type 0
  Answers query n table =
      (k : ℕ) (m : Mem)
      → k ≤ length table
      → Plenty m
      → (m' : Mem) × (query (asking (n + k)) response_initialize.1 m ≡ ok (true, served table k) m')
        × (((m'.allocated + m.released)
              ≡ (m.allocated + slots_blocks (served table k).packet.fields + m'.released))
            × Plenty m')

module _ (has_gecos : Bool) (bufsize : ℕ) (first : ℕ → Item) where
  -- The replies to the callers, in order.
  abbrev pub replies : List (List Item) → List Caller → List (Reply Filling)
  replies table [] = []
  replies [] (c ∷ cs) = reply_for has_gecos bufsize [] 2 c.pwd c.original ∷ replies [] cs
  replies (its ∷ table) (c ∷ cs) =
      reply_for has_gecos bufsize its 0 c.pwd c.original ∷ replies table cs

  module _ (query : Request → Response → M (Bool × Response)) where
    -- Calls of `getpwent_r` in a row.
    pub getpwents : List Caller → Option ℕ → M (List (Reply Filling) × Option ℕ)
    getpwents [] offset = pure ([], offset)
    getpwents (c ∷ cs) offset = do
      (a, next) ← getpwent_r has_gecos bufsize query (start_of c.pwd c.original) offset
      (rest, last) ← getpwents cs next
      pure (a ∷ rest, last)

    -- One call.
    pub getpwent_r-served :
        (n next : ℕ) (its : List Item) (code : ℕ) (c : Caller) (m m₁ : Mem)
        → Plenty m
        → All Filled its
        → bufsize ≤ length c.original
        → (if code == 0 then (n + 1) % 2 ^ 32 else n) ≡ next
        → query (asking n) response_initialize.1 (granted 3 m)
          ≡ ok (true, response_of (first code) its code) m₁
        → (m₁.allocated + m.released)
          ≡ (m.allocated + 3 + slots_blocks ((packet_of (first code ∷ its)).fields) + m₁.released)
        → Plenty m₁
        → (m' : Mem) × (getpwent_r has_gecos bufsize query (start_of c.pwd c.original) (some n) m
            ≡ ok (reply_for has_gecos bufsize its code c.pwd c.original, some next) m')
          × (((m'.allocated + m.released) ≡ (m.allocated + m'.released)) × Plenty m')
    getpwent_r-served n next its code c m m₁ plenty filled whole onward answered balance plenty₁ =
        let fields = (packet_of (first code ∷ its)).fields in
        (
          gave_back (slots_blocks fields) (gave_back 3 m₁),
          get_entry-asked query (filler has_gecos bufsize) request_entities n
                (start_of c.pwd c.original) m plenty
              ∙ rw
                  (
                    ask-reply_for has_gecos bufsize (first code) its code c.pwd c.original filled
                        whole query (single request_entities (be32 n)) (granted 3 m) m₁ answered,
                    onward,
                  )
                  refl,
          (omega (arith, balance), plenty₁),
        )

    -- The result of calls from the offset `n` on.
    abbrev Walked : ℕ → List (List Item) → List Caller → Mem → Type 0
    Walked n table cs m =
        (m' : Mem) × (getpwents cs (some n) m ≡ ok (replies table cs, some (n + moved table cs)) m')
        × ((m'.allocated + m.released) ≡ (m.allocated + m'.released))

    -- A call and those that follow it.
    then_calls :
        (table : List (List Item)) (c : Caller) (cs : List Caller) (n next : ℕ) (a : Reply Filling)
        (m m₁ : Mem)
        → getpwent_r has_gecos bufsize query (start_of c.pwd c.original) (some n) m
          ≡ ok (a, some next) m₁
        → (m₁.allocated + m.released) ≡ (m.allocated + m₁.released)
        → Walked next table cs m₁
        → (m' : Mem) × (getpwents (c ∷ cs) (some n) m
            ≡ ok (a ∷ replies table cs, some (next + moved table cs)) m')
          × ((m'.allocated + m.released) ≡ (m.allocated + m'.released))
    unfolding getpwents
    then_calls table c cs n next a m m₁ run balance (m₂, run₂, balance₂) =
        (m₂, rw (run, run₂) refl, omega arith)

    getpwents-Walked :
        (table : List (List Item)) (cs : List Caller) (n : ℕ) (m : Mem)
        → Answers first query n table
        → n + length table < 2 ^ 32
        → All (λ its. All Filled its) table
        → All (λ c. bufsize ≤ length c.original) cs
        → Plenty m
        → Walked n table cs m
    unfolding getpwents
    getpwents-Walked [] [] n m answers small filled whole plenty =
        let same : n + 0 ≡ n = omega arith in (m, rw same refl, refl)
    getpwents-Walked (its ∷ table) [] n m answers small filled whole plenty =
        let same : n + 0 ≡ n = omega arith in (m, rw same refl, refl)
    getpwents-Walked [] (c ∷ cs) n m answers small filled (here, whole) plenty =
        let same : n + 0 ≡ n = omega arith in
        let (m', answered, (kept, plenty')) =
          rw same at (answers 0 (granted 3 m) (omega arith) plenty) in
        let (m₁, run, (balance, plenty₁)) =
          getpwent_r-served n n [] 2 c m m' plenty tt here refl answered kept plenty' in
        then_calls [] c cs n n (reply_for has_gecos bufsize [] 2 c.pwd c.original) m m₁ run balance
          (getpwents-Walked [] cs n m₁ answers small filled whole plenty₁)
    getpwents-Walked (its ∷ table) (c ∷ cs) n m answers small (this, filled) (here, whole) plenty =
        let same : n + 0 ≡ n = omega arith in
        let onward : (n + 1) % 2 ^ 32 ≡ suc n = omega arith in
        let further : (k : ℕ) → n + suc k ≡ suc n + k = λ k. omega arith in
        let (m', answered, (kept, plenty')) =
          rw same at (answers 0 (granted 3 m) (omega arith) plenty) in
        let (m₁, run, (balance, plenty₁)) =
          getpwent_r-served n (suc n) its 0 c m m' plenty this here onward answered kept plenty' in
        rw (further (moved table cs)) (
          then_calls table c cs n (suc n) (reply_for has_gecos bufsize its 0 c.pwd c.original) m m₁
            run balance
            (getpwents-Walked table cs (suc n) m₁
              (λ k m h p. rw (sym (further k)) (answers (suc k) m (omega arith) p)) (omega arith)
              filled whole plenty₁))

    -- The whole enumeration: it starts over, whatever the thread did before.
    pub enumerate : Option ℕ → List Caller → M (NssStatus × (List (Reply Filling) × Option ℕ))
    enumerate before cs = do
      (status, offset) ← setpwent before
      r ← getpwents cs offset
      pure (status, r)

    -- With memory at hand, fewer than 2 ^ 32 users whose values are not empty, buffers that are as large
    -- as `bufsize` says, and a query that answers an offset with the fields of the user there and one
    -- behind the last user with "not found", and leaves no block in use but those of the response: the enumeration starts over, each call replies with what
    -- the fields of the next user lay out, also when that is an error since the buffer is too small, and
    -- behind the last user each call replies "not found". The offset ends as the number of the users
    -- that were replied with, and no block but that of a new offset is left in use.
    pub enumerate-replies :
        (table : List (List Item)) (before : Option ℕ) (cs : List Caller) (m : Mem)
        → Answers first query 0 table
        → length table < 2 ^ 32
        → All (λ its. All Filled its) table
        → All (λ c. bufsize ≤ length c.original) cs
        → Plenty m
        → (m' : Mem) × (enumerate before cs m
            ≡ ok (success, (replies table cs, some (moved table cs))) m')
          × ((m'.allocated + m.released) ≡ (opened before + (m.allocated + m'.released)))
    unfolding enumerate set_entries ensure_offset initialize_offset restart malloc
    enumerate-replies table (some n) cs m answers small filled whole plenty =
        let (m₁, run, balance) =
          getpwents-Walked table cs 0 m answers (omega arith) filled whole plenty in
        (m₁, rw (run, zero_add (moved table cs)) refl, omega arith)
    enumerate-replies table none cs m answers small filled whole plenty =
        let (m₁, run, balance) =
          getpwents-Walked table cs 0 (taken m) answers (omega arith) filled whole plenty in
        (m₁, rw (plenty m.calls, run, zero_add (moved table cs)) refl, omega arith)
