-- ===== src/Conf/Reader/Progress.antt =====
-- The rounds of the loop of `_srvd_conf_file_read` in lib/srvd/libsrvd/conf.c.
use srvd.Base.{
  ℕ, zero, suc, ◌+◌, ◌*◌, ◌≤◌, ◌<◌, true, false, not, ◌||◌, ◌≡◌, ◌⊎◌, refl, ap, ◌∙◌, suc_add,
  zero_add, some, [], ◌∷◌, ◌==◌, arith, length, inl, inr, Bool-cases,
}
use srvd.Memory.{
  Bytes, Mem, ok, and_then, ◌>>=◌, Yields, result, chain, chain-eq, weaken, if-Yields, any-Yields,
}
use srvd.Conf.{Conf}
use srvd.Conf.Scan.{byte, eof, is_eol, is_space, is_name, is_line}
use srvd.Conf.Scan.Advance.{
  next-Yields, read_while-Yields, eol_read-Yields, plain_loop_le, quoted_loop-Yields,
}
use srvd.Conf.Reader.{
  ReadState, global, name, assign, value, close, Reader, store_item, line_end, close_state,
  close_quote, after_quoted, quoted, plain, value_state, assign_state, name_state, global_state,
  switch_state, skip_comment, step, read_loop, reader, finish, conf_file_read,
}

abbrev pub pending : ReadState → ℕ
pending value = 1
pending _ = 0

-- What is left to do: a line's end after a value is found in one round and read in the next.
abbrev pub weight : Reader → ℕ
weight r = 2 * length r.bp + pending r.state

pending_le : (s : ReadState) → pending s ≤ 1
pending_le global = omega arith
pending_le name = omega arith
pending_le assign = omega arith
pending_le value = omega arith
pending_le close = omega arith

-- The pointer is not before where it was, and behind it unless that was the end.
line_end-Yields :
    (r : Reader) (c : ℕ) (m : Mem)
    → Yields
        (λ e. (length e.0 ≤ length r.bp) × (eof r.bp ≡ false → length e.0 < length r.bp))
        (line_end r c m)
unfolding line_end
line_end-Yields r c m =
    if-Yields (is_eol c) _ _ m
      (chain (eol_read-Yields r.bp m) λ bp m2 h. result (omega (arith, h), λ e. h))
      (elim (Bool-cases (eof r.bp)) [
        | inl e ↦ rw e (result (omega arith, λ more. absurd cc))
        | inr e ↦
            rw e (
              chain (read_while-Yields is_line r.bp m) λ bp m2 h. result (omega (arith, h), λ e. h))
      ])

close_state-Yields :
    (r : Reader) (m : Mem)
    → Yields
        (λ r'. (weight r' ≤ 2 * length r.bp) × (eof r.bp ≡ false → weight r' < 2 * length r.bp))
        (close_state r m)
unfolding close_state
close_state-Yields r m = chain (any-Yields (byte r.bp m)) λ c m2 t.
    chain (line_end-Yields r c m2) λ e m3 h.
      chain (any-Yields (store_item (record r { bp = e.0; status = e.1 }) m3))
        λ conf m4 u. result (omega (arith, h.0), λ more. omega (arith, h.1 more))

close_quote-Yields :
    (r : Reader) (bp : Bytes) (m : Mem)
    → Yields (λ r'. weight r' ≤ 2 * length bp) (close_quote r bp m)
unfolding close_quote
close_quote-Yields r bp m = chain (next-Yields bp m) λ after m2 h.
    weaken (close_state-Yields (record r { bp = after; state = close; value_end = some bp }) m2)
      λ r' k. omega (arith, h, k.0)

after_quoted-Yields :
    (r : Reader) (bp : Bytes) (m : Mem)
    → Yields (λ r'. weight r' ≤ 2 * length bp) (after_quoted r bp m)
unfolding after_quoted
after_quoted-Yields r bp m =
    if-Yields (eof bp) _ _ m
      (chain (any-Yields (byte bp m)) λ c m2 t.
        if-Yields (not (c == 34)) _ _ m2 (result (omega arith)) (close_quote-Yields r bp m2))
      (close_quote-Yields r bp m)

value_state-Yields :
    (r : Reader) (m : Mem) → Yields (λ r'. weight r' ≤ 2 * length r.bp) (value_state r m)
unfolding value_state quoted plain
value_state-Yields r m = chain (any-Yields (byte r.bp m)) λ c m2 t.
    if-Yields (is_space c) _ _ m2
      (chain (read_while-Yields is_space r.bp m2)
        λ bp m3 h. result (omega (arith, h, pending_le r.state)))
      (if-Yields (is_eol c) _ _ m2 (result (omega arith)) (
        if-Yields (c == 34) _ _ m2
          (chain (next-Yields r.bp m2) λ start m3 h.
            chain (quoted_loop-Yields start 0 m3) λ bp m4 k.
              weaken (after_quoted-Yields (record r { value_start = some start }) bp m4)
                λ r' l. omega (arith, h, k, l))
          (weaken (close_state-Yields _ m2) λ r' k. omega (arith, k.0, plain_loop_le r.bp))))

assign_state-Yields :
    (r : Reader) (m : Mem) → Yields (λ r'. weight r' < 2 * length r.bp) (assign_state r m)
unfolding assign_state
assign_state-Yields r m = chain (any-Yields (byte r.bp m)) λ c m2 t.
    if-Yields (is_space c) _ _ m2
      (chain (read_while-Yields is_space r.bp m2)
        λ bp m3 h. result (omega (arith, h, pending_le r.state)))
      (if-Yields (c == 61) _ _ m2
        (chain (read_while-Yields is_space r.bp m2) λ bp m3 h.
          weaken (value_state-Yields (record r { bp = bp; state = value }) m3)
            λ r' k. omega (arith, h, k))
        (if-Yields (c == 35) _ _ m2
          (chain (read_while-Yields is_line r.bp m2) λ bp m3 h. result (omega (arith, h)))
          (if-Yields (is_eol c) _ _ m2
            (chain (eol_read-Yields r.bp m2) λ bp m3 h. result (omega (arith, h)))
            (chain (next-Yields r.bp m2)
              λ bp m3 h. result (omega (arith, h, pending_le r.state))))))

name_state-Yields :
    (r : Reader) (m : Mem) → Yields (λ r'. weight r' < 2 * length r.bp) (name_state r m)
unfolding name_state
name_state-Yields r m =
    chain (read_while-Yields is_name r.bp m)
      λ bp m2 h. weaken (assign_state-Yields _ m2) λ r' k. omega (arith, h, k)

global_state-Yields :
    (r : Reader) (m : Mem) → Yields (λ r'. weight r' < 2 * length r.bp) (global_state r m)
unfolding global_state
global_state-Yields r m = chain (any-Yields (byte r.bp m)) λ c m2 t.
    if-Yields (is_eol c || is_space c) _ _ m2
      (chain (eol_read-Yields r.bp m2) λ bp m3 h. result (omega (arith, h, pending_le r.state)))
      (name_state-Yields _ m2)

-- A state's code makes progress, except for the end of a value's line at the end of the buffer.
switch_state-Yields :
    (s : ReadState) (r : Reader) (m : Mem)
    → Yields
        (λ r'.
          (weight r' ≤ 2 * length r.bp)
          × (eof r.bp ≡ false → weight r' < 2 * length r.bp + pending s))
        (switch_state s r m)
unfolding switch_state
switch_state-Yields global r m =
    weaken (global_state-Yields r m) λ r' h. (omega (arith, h), λ e. omega (arith, h))
switch_state-Yields name r m =
    weaken (name_state-Yields r m) λ r' h. (omega (arith, h), λ e. omega (arith, h))
switch_state-Yields assign r m =
    weaken (assign_state-Yields r m) λ r' h. (omega (arith, h), λ e. omega (arith, h))
switch_state-Yields value r m =
    weaken (value_state-Yields r m) λ r' h. (omega (arith, h), λ e. omega (arith, h))
switch_state-Yields close r m =
    weaken (close_state-Yields r m) λ r' h. (h.0, λ e. omega (arith, h.1 e))

skip_comment-Yields :
    (xs : Bytes) (m : Mem) → Yields (λ ys. (ys ≡ xs) ⊎ (length ys < length xs)) (skip_comment xs m)
unfolding skip_comment
skip_comment-Yields xs m = chain (any-Yields (byte xs m)) λ c m2 t.
    if-Yields (c == 35) _ _ m2 (weaken (read_while-Yields is_line xs m2) λ ys h. inr h)
      (result (inl refl))

-- Every round leaves less to do.
pub step-Yields :
    (r : Reader) (m : Mem) → eof r.bp ≡ false → Yields (λ r'. weight r' < weight r) (step r m)
unfolding step
step-Yields r m more = chain (skip_comment-Yields r.bp m) λ bp m2 moved.
    weaken (switch_state-Yields r.state (record r { bp = bp }) m2) λ r' h. elim moved [
      | inl e ↦ let less = h.1 (ap eof e ∙ more) in omega (arith, less, ap length e)
      | inr l ↦ omega (arith, h.0, l)
    ]

eof-short : (xs : Bytes) → length xs ≤ 0 → eof xs ≡ true
eof-short [] h = refl
eof-short (x ∷ xs) h = absurd (omega arith)

-- As many rounds as there is weight bring the pointer to the end of the buffer, unless there is a fault.
pub read_loop-Yields :
    (n : ℕ) (r : Reader) (m : Mem)
    → weight r ≤ n
    → Yields (λ r'. eof r'.bp ≡ true) (read_loop n r m)
unfolding read_loop
read_loop-Yields zero r m h = result (eof-short r.bp (omega (arith, h)))
read_loop-Yields (suc n) r m h = elim (Bool-cases (eof r.bp)) [
  | inl e ↦ rw e (result e)
  | inr e ↦
      rw e
        (chain (step-Yields r m e) λ r' m2 less. read_loop-Yields n r' m2 (omega (arith, less, h)))
]

pub read_loop-eof : (k : ℕ) (r : Reader) (m : Mem) → eof r.bp ≡ true → read_loop k r m ≡ ok r m
unfolding read_loop
read_loop-eof zero r m e = refl
read_loop-eof (suc k) r m e = rw e refl

-- Rounds beyond the weight change nothing.
pub read_loop-more :
    (n k : ℕ) (r : Reader) (m : Mem) → weight r ≤ n → read_loop (n + k) r m ≡ read_loop n r m
unfolding read_loop
read_loop-more zero k r m h =
    rw (zero_add k) (read_loop-eof k r m (eof-short r.bp (omega (arith, h))))
read_loop-more (suc n) k r m h = elim (Bool-cases (eof r.bp)) [
  | inl e ↦ rw (suc_add n k, e) refl
  | inr e ↦
      rw (suc_add n k, e)
        (chain-eq (step-Yields r m e)
          λ r' m2 less. read_loop-more n k r' m2 (omega (arith, less, h)))
]

-- The loop of the parser ends, on every buffer: within twice as many rounds as the buffer has bytes
-- the pointer is at the end of the buffer, unless a round has undefined behaviour, and more rounds
-- than that give the same result.
pub read_loop-end :
    (buffer : Bytes) (c : Conf) (m : Mem) (k : ℕ)
    → Yields (λ r. eof r.bp ≡ true) (read_loop (2 * length buffer) (reader buffer c) m)
      × ((read_loop (2 * length buffer + k) (reader buffer c) >>= finish) m
          ≡ conf_file_read buffer c m)
unfolding conf_file_read
read_loop-end buffer c m k = (
  read_loop-Yields (2 * length buffer) (reader buffer c) m (omega arith),
  ap (λ run. and_then run finish)
      (read_loop-more (2 * length buffer) k (reader buffer c) m (omega arith)),
)
