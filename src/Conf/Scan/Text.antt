-- ===== src/Conf/Scan/Text.antt =====
-- What the inner loops of `_srvd_conf_file_read` in lib/srvd/libsrvd/conf.c read of a text.
use srvd.Base.{
  ℕ, Bool, true, false, not, ◌||◌, ◌&&◌, ◌≡◌, refl, [], ◌∷◌, ◌++◌, ◌==◌, arith, All, inl, inr,
  Bool-cases,
}
use srvd.Memory.{Bytes, Mem, ok}
use srvd.Conf.Scan.{
  next, eof, is_eol, is_space, is_name, skip_while, read_while, plain_loop, body_skip, quoted_loop,
}

abbrev pub Each : (ℕ → Bool) → Bytes → Type 0
Each check xs = All (λ c. check c ≡ true) xs

-- A test of all bytes.
abbrev pub all : (ℕ → Bool) → Bytes → Bool
all check [] = true
all check (x ∷ xs) = check x && all check xs

pub all-Each : (check : ℕ → Bool) (xs : Bytes) → all check xs ≡ true → Each check xs
all-Each check [] h = tt
all-Each check (x ∷ xs) h = elim (Bool-cases (check x)) [
  | inl e ↦ (e, all-Each check xs (rw e at h))
  | inr e ↦ absurd (let never : false ≡ true = rw e at h in cc)
]

-- A byte of a plain value, and one of a quoted value that stands for itself.
abbrev pub is_plain : ℕ → Bool
is_plain c = not (is_space c || (is_eol c || c == 0))

abbrev pub is_quotable : ℕ → Bool
is_quotable c = not (c == 34 || (c == 92 || (is_eol c || c == 0)))

pub eof-append : (x : ℕ) (xs : Bytes) (y : ℕ) (ys : Bytes) → eof (x ∷ (xs ++ y ∷ ys)) ≡ false
eof-append x [] y ys = refl
eof-append x (z ∷ xs) y ys = refl

skip_while-append :
    (check : ℕ → Bool) (xs : Bytes) (y : ℕ) (ys : Bytes)
    → Each check xs
    → check y ≡ false
    → skip_while check (xs ++ y ∷ ys) ≡ y ∷ ys
unfolding skip_while
skip_while-append check [] y ys h stop = elim (Bool-cases (eof (y ∷ ys))) [
  | inl e ↦ rw e refl
  | inr e ↦ rw (e, stop) refl
]
skip_while-append check (x ∷ xs) y ys (e, h) stop =
    rw (eof-append x xs y ys, e, skip_while-append check xs y ys h stop) refl

-- What a reading macro passes: the byte it stands on and those that pass its check.
pub read_while-append :
    (check : ℕ → Bool) (x : ℕ) (xs : Bytes) (y : ℕ) (ys : Bytes) (m : Mem)
    → Each check xs
    → check y ≡ false
    → read_while check (x ∷ (xs ++ y ∷ ys)) m ≡ ok (y ∷ ys) m
unfolding read_while next
read_while-append check x xs y ys m h stop = rw (skip_while-append check xs y ys h stop) refl

skip_while-end :
    (check : ℕ → Bool) (xs : Bytes) (y : ℕ)
    → Each check xs
    → skip_while check (xs ++ y ∷ []) ≡ y ∷ []
unfolding skip_while
skip_while-end check [] y h = refl
skip_while-end check (x ∷ xs) y (e, h) =
    rw (eof-append x xs y [], e, skip_while-end check xs y h) refl

-- At the end of the buffer the last byte is not passed.
pub read_while-end :
    (check : ℕ → Bool) (x : ℕ) (xs : Bytes) (y : ℕ) (m : Mem)
    → Each check xs
    → read_while check (x ∷ (xs ++ y ∷ [])) m ≡ ok (y ∷ []) m
unfolding read_while next
read_while-end check x xs y m h = rw (skip_while-end check xs y h) refl

-- From the last byte a reading macro leaves the buffer.
pub read_while-last : (check : ℕ → Bool) (x : ℕ) (m : Mem) → read_while check (x ∷ []) m ≡ ok [] m
unfolding read_while next skip_while
read_while-last check x m = refl

pub plain_loop-append :
    (x : ℕ) (xs ys : Bytes) → Each is_plain xs → plain_loop (x ∷ (xs ++ 10 ∷ ys)) ≡ 10 ∷ ys
unfolding plain_loop
plain_loop-append x [] ys h = refl
plain_loop-append x (z ∷ xs) ys (e, h) =
    let go : (is_space z || is_eol z) ≡ false = ground (arith, e) in
    rw (go, plain_loop-append z xs ys h) refl

body_skip-zero :
    (x : ℕ) (xs : Bytes) (m : Mem)
    → (x == 92) ≡ false
    → (x == 13) ≡ false
    → (x == 10) ≡ false
    → body_skip x xs m ≡ ok 0 m
unfolding body_skip
body_skip-zero x xs m b c d = rw (b, c, d) refl

pub quoted_loop-append :
    (xs : Bytes) (y : ℕ) (ys : Bytes) (m : Mem)
    → Each is_quotable xs
    → quoted_loop (xs ++ 34 ∷ y ∷ ys) 0 m ≡ ok (34 ∷ y ∷ ys) m
unfolding quoted_loop
quoted_loop-append [] y ys m h = refl
quoted_loop-append (x ∷ xs) y ys m (e, h) =
    let a : (x == 34) ≡ false = ground (arith, e) in
    let b : (x == 92) ≡ false = ground (arith, e) in
    let c : (x == 13) ≡ false = ground (arith, e) in
    let d : (x == 10) ≡ false = ground (arith, e) in
    rw
      (
        eof-append x xs 34 (y ∷ ys),
        a,
        body_skip-zero x (xs ++ 34 ∷ y ∷ ys) m b c d,
        quoted_loop-append xs y ys m h,
      )
      refl

-- A name's byte is none of the others.
pub is_name-not :
    (c : ℕ)
    → is_name c ≡ true
    → ((is_eol c || is_space c) ≡ false) × (((c == 35) ≡ false) × ((c == 0) ≡ false))
is_name-not c h = ground (arith, h)

-- A newline in a quoted value takes the byte behind it along, whatever that byte is: a closing quote
-- as well, and the last byte of the buffer.
pub quoted_loop-newline :
    (c : ℕ) (rest : Bytes) (m : Mem) → quoted_loop (10 ∷ c ∷ rest) 0 m ≡ quoted_loop rest 0 m
unfolding quoted_loop body_skip
quoted_loop-newline c rest m = refl
