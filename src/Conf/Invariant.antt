-- ===== src/Conf/Invariant.antt =====
-- The states that `srvd_conf_item_add` and `srvd_conf_clear` of lib/srvd/libsrvd/conf.c reach.
use srvd.Base.{
  ℕ, suc, ◌+◌, ◌*◌, Bool, true, false, ◌≡◌, refl, ap, ◌∙◌, subst, Option, none, some, List, [], ◌∷◌,
  map, arith, length, All, inl, inr, ◌⊎◌, Option-cases,
}
use srvd.Memory.{Bytes, Mem, M, Run, ok, fault, free, gave_back, granted, Plenty}
use srvd.Conf.{
  ConfItem, Conf, conf_initialize, clear_nodes, conf_clear, conf_finalize, new_item, item_add,
  link_item,
}
use srvd.Conf.Items.{terminated, Setting, IsSetting, stored, holds, lookup, item_has-lookup}
use srvd.Conf.Adding.{Made, new_item-Made, new_item-granted}

-- No name is there twice.
abbrev pub Distinct : List Setting → Type 0
Distinct [] = Unit {0}
Distinct (s ∷ ss) = (lookup s.name ss ≡ none) × Distinct ss

-- Three blocks for each setting, beside `base` others.
abbrev pub Owns : ℕ → List Setting → Mem → Type 0
Owns base ss m = m.allocated ≡ m.released + base + 3 * length ss

-- Terminated settings of different names that own their blocks.
pub record IsSound (base : ℕ) (c : Conf) (m : Mem) : Type 0 where
  pub settings : List Setting
  pub shape : c ≡ holds settings
  pub texts : All IsSetting settings
  pub distinct : Distinct settings
  pub owned : Owns base settings m

-- What is reached from an initialized configuration, whatever `malloc` answers.
pub data Reached (base : ℕ) : Conf → Mem → Type 0 where
  initialized : {m : Mem} → m.allocated ≡ m.released + base → Reached base conf_initialize.1 m
  added :
      {c : Conf} {m : Mem} {status : Bool} {c' : Conf} {m' : Mem} (s : Setting)
      → Reached base c m
      → IsSetting s
      → item_add c
          (some (terminated s.name))
          (suc (length s.name))
          (some (terminated s.value))
          (suc (length s.value))
          m
        ≡ ok (status, c') m'
      → Reached base c' m'
  cleared :
      {c : Conf} {m : Mem} {status : Bool} {c' : Conf} {m' : Mem}
      → Reached base c m
      → conf_clear c m ≡ ok (status, c') m'
      → Reached base c' m'

clear_nodes-gave_back :
    (ss : List Setting) (m : Mem)
    → clear_nodes (map stored ss) m ≡ ok tt (gave_back (3 * length ss) m)
unfolding clear_nodes free
clear_nodes-gave_back [] m = ap (λ r. ok tt (record m { released = r })) (omega arith)
clear_nodes-gave_back (s ∷ ss) m =
    clear_nodes-gave_back ss (record m { released = m.released + 1 + 1 + 1 })
    ∙ ap (λ r. ok tt (record m { released = r })) (omega arith)

-- `srvd_conf_clear` gives back three blocks for each setting and leaves none.
pub conf_clear-gave_back :
    (ss : List Setting) (m : Mem)
    → conf_clear (holds ss) m ≡ ok conf_initialize (gave_back (3 * length ss) m)
unfolding conf_clear
conf_clear-gave_back ss m = rw (clear_nodes-gave_back ss m) refl

module _ (ss : List Setting) (s : Setting) (m : Mem) (texts : All IsSetting ss)
    (text : IsSetting s) where
  abbrev adding : M (Bool × Conf)
  adding =
      item_add (holds ss) (some (terminated s.name)) (suc (length s.name))
        (some (terminated s.value)) (suc (length s.value))

  -- A name that is there already is refused, and nothing changes.
  pub item_add-present : (v : Bytes) → lookup s.name ss ≡ some v → adding m ≡ ok (false, holds ss) m
  unfolding item_add
  item_add-present v found = rw (item_has-lookup s.name [] m text.0 ss texts, found) refl

  item_add-absent :
      (n : Option ConfItem) (m' : Mem)
      → lookup s.name ss ≡ none
      → new_item
          (some (terminated s.name))
          (suc (length s.name))
          (some (terminated s.value))
          (suc (length s.value))
          m
        ≡ ok n m'
      → adding m ≡ ok (link_item (holds ss) n) m'
  unfolding item_add
  item_add-absent n m' missing made =
      rw (item_has-lookup s.name [] m text.0 ss texts, missing, made) refl

  -- With memory at hand, a new name is taken in.
  pub item_add-granted :
      Plenty m → lookup s.name ss ≡ none → adding m ≡ ok (true, holds (s ∷ ss)) (granted 3 m)
  item_add-granted plenty missing = item_add-absent (some (stored s)) (granted 3 m) missing (
      new_item-granted s (terminated s.name) (terminated s.value) text (0, [], refl) (0, [], refl) m
        plenty)

-- What a call leaves: the new setting in front with `SRVD_TRUE`, or no change with `SRVD_FALSE`.
abbrev pub Added : ℕ → List Setting → Setting → Bool → List Setting → Mem → Type 0
Added base ss s status ss' m =
    All IsSetting ss'
    × (Distinct ss'
        × (Owns base ss' m × ((status ≡ true) × (ss' ≡ s ∷ ss) ⊎ (status ≡ false) × (ss' ≡ ss))))

module _ (base : ℕ) (ss : List Setting) (s : Setting) (m : Mem) (texts : All IsSetting ss)
    (text : IsSetting s) (distinct : Distinct ss) (owned : Owns base ss m) where
  link-Added :
      (n : Option ConfItem) (m' : Mem)
      → lookup s.name ss ≡ none
      → Made s m n m'
      → adding ss s m texts text m ≡ ok (link_item (holds ss) n) m'
      → (status : Bool) × (ss' : List Setting) × (m' : Mem) × (adding ss s m texts text m
          ≡ ok (status, holds ss') m')
        × Added base ss s status ss' m'
  link-Added none m' missing made run =
      (false, ss, m', run, (texts, (distinct, (omega (arith, owned, made), inr (refl, refl)))))
  link-Added (some n) m' missing (shape, blocks) run = (
    true,
    s ∷ ss,
    m',
    run ∙ ap (λ n. ok (link_item (holds ss) (some n)) m') shape,
    ((text, texts), ((missing, distinct), (omega (arith, owned, blocks), inl (refl, refl)))),
  )

  -- `srvd_conf_item_add` with a terminated name and value, whatever `malloc` answers: it ends without
  -- a fault, and either returns `SRVD_TRUE` with the setting in front of the others and three blocks
  -- more in use, or returns `SRVD_FALSE` with the settings and the blocks in use as they were; the
  -- settings still have different names.
  pub item_add-Added :
      (status : Bool) × (ss' : List Setting) × (m' : Mem) × (adding ss s m texts text m
        ≡ ok (status, holds ss') m')
      × Added base ss s status ss' m'
  item_add-Added = elim (Option-cases (lookup s.name ss)) [
    | inr (v, e) ↦ (
      false,
      ss,
      m,
      item_add-present ss s m texts text v e,
      (texts, (distinct, (owned, inr (refl, refl)))),
    )
    | inl e ↦
        let (n, m', run, made) =
          new_item-Made s (terminated s.name) (terminated s.value) text (0, [], refl) (0, [], refl)
            m in
        link-Added n m' e made (item_add-absent ss s m texts text n m' e run)
  ]

-- What a run leaves, if it ends.
Leaves : ℕ → Run (Bool × Conf) → Type 0
Leaves base (ok (status, c) m) = IsSound base c m
Leaves base fault = Unit {0}

added-IsSound :
    {base : ℕ} {c : Conf} {m : Mem} (s : Setting)
    → IsSound base c m
    → IsSetting s
    → Leaves base (
        item_add c
          (some (terminated s.name))
          (suc (length s.name))
          (some (terminated s.value))
          (suc (length s.value))
          m)
unfolding Leaves
added-IsSound {base = base} {m = m} s sound text =
    let (status, ss', m2, run, (texts, (distinct, (owned, what)))) =
      item_add-Added base sound.settings s m sound.texts text sound.distinct sound.owned in
    let left : IsSound base (holds ss') m2 = record {
      settings = ss';
      shape = refl;
      texts = texts;
      distinct = distinct;
      owned = owned;
    } in
    rw (sound.shape, run) left

cleared-IsSound : {base : ℕ} {c : Conf} {m : Mem} → IsSound base c m → Leaves base (conf_clear c m)
unfolding Leaves
cleared-IsSound {base = base} {m = m} sound =
    let left : IsSound base conf_initialize.1 (gave_back (3 * length sound.settings) m) = record {
      settings = [];
      shape = refl;
      texts = tt;
      distinct = tt;
      owned = omega (arith, sound.owned);
    } in
    rw (sound.shape, conf_clear-gave_back sound.settings m) left

-- However `srvd_conf_item_add` and `srvd_conf_clear` are called on an initialized configuration, with
-- terminated names and values, and whatever `malloc` answers: the configuration holds terminated
-- settings of different names, with their lengths, and owns three blocks for each of them, no more
-- and no fewer.
pub Reached-IsSound : {base : ℕ} {c : Conf} {m : Mem} → Reached base c m → IsSound base c m
unfolding Leaves
Reached-IsSound (initialized h) = record {
  settings = [];
  shape = refl;
  texts = tt;
  distinct = tt;
  owned = omega (arith, h);
}
Reached-IsSound (added s r text run) =
    subst (Leaves _) run (added-IsSound s (Reached-IsSound r) text)
Reached-IsSound (cleared r run) = subst (Leaves _) run (cleared-IsSound (Reached-IsSound r))

-- Finalizing a configuration that was reached gives every block back that its items took.
pub conf_finalize-Reached :
    {base : ℕ} {c : Conf} {m : Mem}
    → Reached base c m
    → (m' : Mem) × (conf_finalize c m ≡ ok (true, conf_initialize.1) m')
      × (m'.allocated ≡ m'.released + base)
conf_finalize-Reached {m = m} r =
    let sound = Reached-IsSound r in
    (
      gave_back (3 * length sound.settings) m,
      rw (sound.shape, conf_clear-gave_back sound.settings m) refl,
      omega (arith, sound.owned),
    )
