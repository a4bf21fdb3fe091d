-- ===== src/Memory/Strings.antt =====
-- `strncpy` and the terminator that the code writes behind it.
use srvd.Base.{
  ℕ, zero, suc, ◌+◌, ◌-◌, ◌<◌, Bool, true, false, not, ◌≡◌, ◌≢◌, refl, ap, Option, none, some, [],
  ◌∷◌, ◌++◌, arith, ◌==◌, if◌then◌else◌, length, replicate, All, take, Bool-cases, inl, inr, le→leb,
  take-append, ◌∙◌, length-replicate, length-take, drop-eq-nil, length-append,
}
use srvd.Memory.State.{Bytes, Mem, M, ok, pure, undefined, ◌>>=◌}
use srvd.Memory.Buffer.{write}

-- The bytes up to a zero, and zeros from there on.
unfoldable pub strncpy_loop : Bytes → ℕ → M Bytes
strncpy_loop bs zero = pure []
strncpy_loop [] (suc n) = undefined
strncpy_loop (b ∷ bs) (suc n) =
    let rest = strncpy_loop bs n in
    if b == 0 then pure (replicate (suc n) 0) else do r ← rest; pure (b ∷ r)

-- What `strncpy(target, source, n)` leaves in the `n` bytes of the target.
unfoldable pub strncpy : Option Bytes → ℕ → M Bytes
strncpy none n = undefined
strncpy (some bs) n = strncpy_loop bs n

-- Whether `strncmp(a, b, n)` is 0.
unfoldable pub strncmp : Bytes → Bytes → ℕ → M Bool
strncmp a b zero = pure true
strncmp [] b (suc n) = undefined
strncmp (x ∷ a) [] (suc n) = undefined
strncmp (x ∷ a) (y ∷ b) (suc n) =
    let rest = strncmp a b n in
    if not (x == y) then pure false else if x == 0 then pure true else rest

-- `target[size - 1] = '\0'`
unfoldable pub terminate : ℕ → Bytes → M Bytes
terminate zero target = undefined
terminate (suc n) target = write n (0 ∷ []) target

-- A value from its first zero on.
abbrev pub padded : Bytes → Bytes
padded [] = []
padded (b ∷ bs) = if b == 0 then replicate (suc (length bs)) 0 else b ∷ padded bs

-- The string in a value: up to the first zero, with zeros behind, and a zero at the end.
abbrev pub string_in : Bytes → Bytes
string_in [] = []
string_in (b ∷ bs) = take (length bs) (padded (b ∷ bs)) ++ 0 ∷ []

length-padded : (v : Bytes) → length (padded v) ≡ length v
length-padded [] = refl
length-padded (b ∷ bs) =
    ground (arith, length-padded bs, length-replicate {A = ℕ} (suc (length bs)) 0)

pub length-string_in : (v : Bytes) → length (string_in v) ≡ length v
length-string_in [] = refl
length-string_in (b ∷ bs) = omega (
  arith,
  length-append (take (length bs) (padded (b ∷ bs))) (0 ∷ []),
  length-take (length bs) (padded (b ∷ bs)),
  length-padded (b ∷ bs),
)

strncpy_loop-padded : (v : Bytes) (m : Mem) → strncpy_loop v (length v) m ≡ ok (padded v) m
unfolding strncpy_loop
strncpy_loop-padded [] m = refl
strncpy_loop-padded (b ∷ bs) m = elim (Bool-cases (b == 0)) [
  | inl e ↦ rw (e) refl
  | inr e ↦ rw (e, strncpy_loop-padded bs m) refl
]

pub strncpy-padded : (v : Bytes) (m : Mem) → strncpy (some v) (length v) m ≡ ok (padded v) m
unfolding strncpy
strncpy-padded v m = strncpy_loop-padded v m

pub terminate-last :
    (n : ℕ) (target : Bytes) (m : Mem)
    → length target ≡ suc n
    → terminate (suc n) target m ≡ ok (take n target ++ 0 ∷ []) m
unfolding terminate write
terminate-last n target m whole =
    rw (le→leb (n + 1) (length target) (omega arith), drop-eq-nil (n + 1) target (omega arith))

-- `terminate` behind `strncpy` of a value that is not empty.
pub terminate-padded :
    (b : ℕ) (bs : Bytes) (m : Mem)
    → terminate (suc (length bs)) (padded (b ∷ bs)) m ≡ ok (string_in (b ∷ bs)) m
terminate-padded b bs m = terminate-last (length bs) (padded (b ∷ bs)) m (length-padded (b ∷ bs))

padded-terminated : (s : Bytes) → All (λ b. b ≢ 0) s → padded (s ++ 0 ∷ []) ≡ s ++ 0 ∷ []
padded-terminated [] nonzero = refl
padded-terminated (b ∷ bs) (ne, nonzero) = ground (arith, ne, padded-terminated bs nonzero)

-- A string with its terminator is copied as it is.
pub string_in-terminated : (s : Bytes) → All (λ b. b ≢ 0) s → string_in (s ++ 0 ∷ []) ≡ s ++ 0 ∷ []
string_in-terminated [] nonzero = refl
string_in-terminated (b ∷ bs) nonzero =
    let n : length (bs ++ 0 ∷ []) ≡ length (b ∷ bs) = omega (arith, length-append bs (0 ∷ [])) in
    let same : padded (b ∷ (bs ++ 0 ∷ [])) ≡ (b ∷ bs) ++ 0 ∷ [] =
      padded-terminated (b ∷ bs) nonzero in
    ap (λ x. take (length (bs ++ 0 ∷ [])) x ++ 0 ∷ []) same
    ∙ ap (λ k. take k ((b ∷ bs) ++ 0 ∷ []) ++ 0 ∷ []) n
    ∙ ap (λ x. x ++ 0 ∷ []) (take-append (b ∷ bs) (0 ∷ []))

strncpy_loop-terminated :
    (s rest : Bytes) (n : ℕ) (m : Mem)
    → All (λ b. b ≢ 0) s
    → length s < n
    → strncpy_loop (s ++ 0 ∷ rest) n m ≡ ok (s ++ replicate (n - length s) 0) m
unfolding strncpy_loop
strncpy_loop-terminated s rest zero m text h = absurd (omega arith)
strncpy_loop-terminated [] rest (suc n) m text h =
    let e : suc n ≡ suc n - 0 = omega arith in ap (λ k. ok (replicate k 0) m) e
strncpy_loop-terminated (b ∷ s) rest (suc n) m (ne, text) h =
    let e : suc n - suc (length s) ≡ n - length s = omega arith in
    ground (arith, ne, e, strncpy_loop-terminated s rest n m text (omega (arith, h)))

-- `strncpy` of a string that is shorter than the target fills the target up with zeros.
pub strncpy-terminated :
    (s rest : Bytes) (n : ℕ) (m : Mem)
    → All (λ b. b ≢ 0) s
    → length s < n
    → strncpy (some (s ++ 0 ∷ rest)) n m ≡ ok (s ++ replicate (n - length s) 0) m
unfolding strncpy
strncpy-terminated s rest n m text h = strncpy_loop-terminated s rest n m text h
