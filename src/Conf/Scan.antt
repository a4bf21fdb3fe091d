-- ===== src/Conf/Scan.antt =====
-- The macros and the inner loops of `_srvd_conf_file_read` in lib/srvd/libsrvd/conf.c. A pointer into
-- the buffer is what the buffer holds from there on; dereferencing it at the end is a fault, and so
-- is moving it past the end.
pub mod Advance
pub mod Text
use srvd.Base.{ℕ, zero, suc, Bool, true, false, ◌||◌, ◌&&◌, [], ◌∷◌, leb, ◌==◌, if◌then◌else◌}
use srvd.Memory.{Bytes, M, pure, undefined, ◌>>=◌}

-- `*(p)`
unfoldable pub byte : Bytes → M ℕ
byte [] = undefined
byte (x ∷ xs) = pure x

-- `p + 1`
unfoldable pub next : Bytes → M Bytes
next [] = undefined
next (x ∷ xs) = pure xs

-- `_BP_EOF_CHECK`: the last byte of the buffer, or behind it.
abbrev pub eof : Bytes → Bool
eof [] = true
eof (x ∷ []) = true
eof (x ∷ y ∷ ys) = false

-- `_BP_EOL_CHECK`
abbrev pub is_eol : ℕ → Bool
is_eol c = c == 13 || c == 10

-- `_BP_SPACE_CHECK`
abbrev pub is_space : ℕ → Bool
is_space c = c == 32 || c == 9

abbrev pub within : ℕ → ℕ → ℕ → Bool
within low high c = leb low c && leb c high

-- `isalnum` in the C locale
abbrev pub isalnum : ℕ → Bool
isalnum c = within 48 57 c || (within 65 90 c || within 97 122 c)

-- `_BP_NAME_CHECK`
abbrev pub is_name : ℕ → Bool
is_name c = isalnum c || c == 58

-- The test of `_BP_COMMENT_READ` and `_BP_LINE_READ`
abbrev pub is_line : ℕ → Bool
is_line c = if is_eol c then false else true

pub skip_while : (ℕ → Bool) → Bytes → Bytes
skip_while check [] = []
skip_while check (x ∷ xs) =
    let rest = skip_while check xs in
    if eof (x ∷ xs) then x ∷ xs else if check x then rest else x ∷ xs

-- `while((p)++ && !_BP_EOF_CHECK(p) && check(p))`: `_BP_NAME_READ`, `_BP_SPACE_READ`,
-- `_BP_COMMENT_READ` and `_BP_LINE_READ` by their checks.
pub read_while : (ℕ → Bool) → Bytes → M Bytes
read_while check p = do p ← next p; pure (skip_while check p)

unfoldable pub after_return : Bytes → M Bytes
after_return [] = undefined
after_return (y ∷ ys) = pure (if y == 10 then ys else y ∷ ys)

-- `_BP_EOL_READ`
unfoldable pub eol_read : Bytes → M Bytes
eol_read [] = undefined
eol_read (x ∷ xs) = if x == 13 then after_return xs else pure xs

-- The loop over a plain value.
pub plain_loop : Bytes → Bytes
plain_loop [] = []
plain_loop (x ∷ []) = x ∷ []
plain_loop (x ∷ y ∷ ys) =
    let rest = plain_loop (y ∷ ys) in if is_space y || is_eol y then y ∷ ys else rest

-- How many bytes behind `*bp` the body of the quoted loop passes over, beside the step of its
-- condition: an escaped quote, and what `_BP_EOL_READ` consumes.
pub body_skip : ℕ → Bytes → M ℕ
body_skip x xs =
    if x == 92
    then (do y ← byte xs; pure (if y == 34 then 1 else 0))
    else if x == 13
    then (do y ← byte xs; pure (if y == 10 then 2 else 1))
    else pure (if x == 10 then 1 else 0)

-- The loop over a quoted value, from the test of its condition on; first `skip` bytes are passed.
pub quoted_loop : Bytes → ℕ → M Bytes
quoted_loop [] zero = pure []
quoted_loop [] (suc skip) = undefined
quoted_loop (x ∷ xs) (suc skip) = quoted_loop xs skip
quoted_loop (x ∷ xs) zero =
    let rest = quoted_loop xs in
    if eof (x ∷ xs) || x == 34 then pure (x ∷ xs) else (body_skip x xs >>= rest)
