-- ===== src/Conf/Scan/Advance.antt =====
-- How far the inner loops of `_srvd_conf_file_read` in lib/srvd/libsrvd/conf.c move the pointer.
use srvd.Base.{
  ℕ, zero, suc, ◌≤◌, ◌<◌, Bool, ◌||◌, [], ◌∷◌, ◌==◌, arith, length, inl, inr, Bool-cases,
}
use srvd.Memory.{
  Bytes, Mem, pure, ◌>>=◌, Yields, result, faulted, chain, weaken, if-Yields, any-Yields,
}
use srvd.Conf.Scan.{
  next, eof, is_eol, is_space, skip_while, read_while, after_return, eol_read, plain_loop,
  body_skip, quoted_loop,
}

-- A run that leaves the pointer behind where it was.
abbrev pub Shorter : Bytes → Bytes → Type 0
Shorter xs ys = length ys < length xs

pub next-Yields : (xs : Bytes) (m : Mem) → Yields (Shorter xs) (next xs m)
unfolding next
next-Yields [] m = faulted
next-Yields (x ∷ xs) m = result (omega arith)

skip_while_le : (check : ℕ → Bool) (xs : Bytes) → length (skip_while check xs) ≤ length xs
unfolding skip_while
skip_while_le check [] = omega arith
skip_while_le check (x ∷ xs) = elim (Bool-cases (eof (x ∷ xs))) [
  | inl e ↦ rw e (omega arith)
  | inr e ↦ elim (Bool-cases (check x)) [
    | inl c ↦ rw (e, c) (omega (arith, skip_while_le check xs))
    | inr c ↦ rw (e, c) (omega arith)
  ]
]

pub read_while-Yields :
    (check : ℕ → Bool) (xs : Bytes) (m : Mem) → Yields (Shorter xs) (read_while check xs m)
unfolding read_while
read_while-Yields check xs m =
    chain (next-Yields xs m) λ ys m2 h. result (omega (arith, h, skip_while_le check ys))

after_return-Yields :
    (xs : Bytes) (m : Mem) → Yields (λ ys. length ys ≤ length xs) (after_return xs m)
unfolding after_return
after_return-Yields [] m = faulted
after_return-Yields (y ∷ ys) m = elim (Bool-cases (y == 10)) [
  | inl e ↦ rw e (result (omega arith))
  | inr e ↦ rw e (result (omega arith))
]

pub eol_read-Yields : (xs : Bytes) (m : Mem) → Yields (Shorter xs) (eol_read xs m)
unfolding eol_read
eol_read-Yields [] m = faulted
eol_read-Yields (x ∷ xs) m =
    if-Yields (x == 13) (after_return xs) (pure xs) m
      (weaken (after_return-Yields xs m) λ ys h. omega (arith, h)) (result (omega arith))

pub plain_loop_le : (xs : Bytes) → length (plain_loop xs) ≤ length xs
unfolding plain_loop
plain_loop_le [] = omega arith
plain_loop_le (x ∷ []) = omega arith
plain_loop_le (x ∷ y ∷ ys) = elim (Bool-cases (is_space y || is_eol y)) [
  | inl e ↦ rw e (omega arith)
  | inr e ↦ rw e (omega (arith, plain_loop_le (y ∷ ys)))
]

pub quoted_loop-Yields :
    (xs : Bytes) (skip : ℕ) (m : Mem) → Yields (λ ys. length ys ≤ length xs) (quoted_loop xs skip m)
unfolding quoted_loop
quoted_loop-Yields [] zero m = result (omega arith)
quoted_loop-Yields [] (suc skip) m = faulted
quoted_loop-Yields (x ∷ xs) (suc skip) m =
    weaken (quoted_loop-Yields xs skip m) λ ys h. omega (arith, h)
quoted_loop-Yields (x ∷ xs) zero m =
    if-Yields (eof (x ∷ xs) || x == 34) (pure (x ∷ xs)) (body_skip x xs >>= quoted_loop xs) m
      (result (omega arith))
      (chain (any-Yields (body_skip x xs m))
        λ skip m2 t. weaken (quoted_loop-Yields xs skip m2) λ ys h. omega (arith, h))
