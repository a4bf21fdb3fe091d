-- ===== src/Client/ByConf.antt =====
-- Which client `srvd_client_get_by_conf` of lib/srvd/libsrvd/client.c makes for which settings.
use srvd.Base.{
  ℕ, ◌-◌, ◌<◌, Bool, true, false, not, ◌≡◌, refl, Option, none, some, List, [], ◌∷◌, ◌++◌,
  if◌then◌else◌, length, replicate, All, Bool-cases, inl, inr,
}
use srvd.Memory.{
  Bytes, Mem, M, Run, ok, pure, malloc, free, strncpy-terminated, taken, refused, gave_back,
}
use srvd.Conf.Items.{
  IsText, is_text-IsText, Setting, IsSetting, holds, eq_bytes, lookup, as_item, item_get-lookup,
  strncmp-eq_bytes,
}
use srvd.Unsock.{Unsock, unsock_initialize}
use srvd.Client.{started, start_unsock, choose_adapter, get_by_conf}

-- "client:adapter", "client:path", "unsock" and "tcp"
abbrev pub adapter_key : Bytes
adapter_key = 99 ∷ 108 ∷ 105 ∷ 101 ∷ 110 ∷ 116 ∷ 58 ∷ 97 ∷ 100 ∷ 97 ∷ 112 ∷ 116 ∷ 101 ∷ 114 ∷ []

abbrev pub path_key : Bytes
path_key = 99 ∷ 108 ∷ 105 ∷ 101 ∷ 110 ∷ 116 ∷ 58 ∷ 112 ∷ 97 ∷ 116 ∷ 104 ∷ []

abbrev pub unsock_key : Bytes
unsock_key = 117 ∷ 110 ∷ 115 ∷ 111 ∷ 99 ∷ 107 ∷ []

abbrev pub tcp_key : Bytes
tcp_key = 116 ∷ 99 ∷ 112 ∷ []

-- The socket path for an adapter and a path, if the adapter is the one for UNIX domain sockets.
abbrev pub path_for : Option Bytes → Option Bytes → Option Bytes
path_for none path = none
path_for (some adapter) path = if eq_bytes adapter unsock_key then path else none

abbrev pub socket_path : List Setting → Option Bytes
socket_path ss = path_for (lookup adapter_key ss) (lookup path_key ss)

abbrev KnownText : Option Bytes → Type 0
KnownText none = Unit {0}
KnownText (some v) = IsText v

lookup-KnownText :
    (name : Bytes) (ss : List Setting) → All IsSetting ss → KnownText (lookup name ss)
lookup-KnownText name [] h = tt
lookup-KnownText name (s ∷ ss) ((n, v), h) = elim (Bool-cases (eq_bytes s.name name)) [
  | inl e ↦ rw e v
  | inr e ↦ rw e (lookup-KnownText name ss h)
]

module _ (sun_path_length : ℕ) (opens : Bool) where
  -- The client for a path: there is one if its block and its socket are granted.
  abbrev pub made : Option Bytes → Mem → Run (Bool × Option Unsock)
  made none m = ok (false, none) m
  made (some path) m =
      if not (m.succeeds m.calls)
      then ok (false, none) (refused m)
      else if opens
      then ok
          (
            true,
            some (record {
              connected = false;
              sun_path = path ++ replicate (sun_path_length - length path) 0;
            }),
          )
          (taken m)
      else ok (false, none) (gave_back 1 (taken m))

  -- A path that is there leaves room for its terminator.
  abbrev pub Fits : Option Bytes → Type 0
  Fits none = Unit {0}
  Fits (some path) = IsText path × (length path < sun_path_length)

  start_unsock-made :
      (path : Option Bytes) (m : Mem)
      → Fits path
      → start_unsock sun_path_length opens (as_item path) m ≡ made path m
  unfolding start_unsock started unsock_initialize malloc free
  start_unsock-made none m fits = refl
  start_unsock-made (some path) m (text, short) = elim (Bool-cases (m.succeeds m.calls)) [
    | inr e ↦ rw e refl
    | inl e ↦ elim (Bool-cases opens) [
      | inl o ↦ rw (e, strncpy-terminated path [] sun_path_length (taken m) text short, o) refl
      | inr o ↦ rw (e, strncpy-terminated path [] sun_path_length (taken m) text short, o) refl
    ]
  ]

  choose_adapter-made :
      (adapter : Option Bytes) (ss : List Setting) (m : Mem)
      → KnownText adapter
      → All IsSetting ss
      → Fits (lookup path_key ss)
      → choose_adapter sun_path_length opens (holds ss) (as_item adapter) m
        ≡ made (path_for adapter (lookup path_key ss)) m
  unfolding choose_adapter
  choose_adapter-made none ss m h settings fits = refl
  choose_adapter-made (some a) ss m text settings fits =
      let first = strncmp-eq_bytes a unsock_key [] m text (is_text-IsText unsock_key refl) in
      let second = strncmp-eq_bytes a tcp_key [] m text (is_text-IsText tcp_key refl) in
      let get = item_get-lookup path_key [] m (is_text-IsText path_key refl) ss settings in
      elim (Bool-cases (eq_bytes a unsock_key)) [
        | inl e ↦ rw (first, e, get) (start_unsock-made (lookup path_key ss) m fits)
        | inr e ↦ rw (first, e, second) (same-if (eq_bytes a tcp_key) m)
      ]
    where
      failed : M (Bool × Option Unsock)
      failed = pure (false, none)

      same-if : (b : Bool) (m : Mem) → (if b then failed else failed) m ≡ ok (false, none) m
      same-if true m = refl
      same-if false m = refl

  -- Terminated settings whose path, if there is one, leaves room for a terminator in `sun_path`, and
  -- whatever `malloc` and `socket` answer: `srvd_client_get_by_conf` makes a client over a UNIX domain
  -- socket with the configured path if the configured adapter is "unsock"; for another adapter, with
  -- no adapter or no path, with no memory or no socket it fails, points to no client, and keeps no
  -- block.
  pub get_by_conf-made :
      (ss : List Setting) (m : Mem)
      → All IsSetting ss
      → Fits (lookup path_key ss)
      → get_by_conf sun_path_length opens (holds ss) m ≡ made (socket_path ss) m
  unfolding get_by_conf
  get_by_conf-made ss m settings fits =
      rw (item_get-lookup adapter_key [] m (is_text-IsText adapter_key refl) ss settings) (
        choose_adapter-made (lookup adapter_key ss) ss m (lookup-KnownText adapter_key ss settings)
          settings fits)
