-- ===== src/Conf/Reader.antt =====
-- The parser of configuration files, `_srvd_conf_file_read` of lib/srvd/libsrvd/conf.c. A `goto` to a
-- label is a call; the line number, which only the log's messages read, is left out.
pub mod Progress
pub mod Store
pub mod Lines
pub mod Documents
pub mod Files
pub mod Latest
pub mod Faults
pub mod Failure
use srvd.Base.{
  ℕ, zero, suc, ◌+◌, ◌-◌, ◌*◌, Bool, true, false, not, ◌||◌, ◌&&◌, Option, none, some, [], ◌∷◌,
  ◌==◌, if◌then◌else◌, length,
}
use srvd.Memory.{Bytes, M, pure, undefined, ◌>>=◌}
use srvd.Conf.{Conf, item_add, conf_clear}
use srvd.Conf.Scan.{
  byte, next, eof, is_eol, is_space, is_name, is_line, read_while, eol_read, plain_loop,
  quoted_loop,
}

-- `enum _srvd_conf_file_read_state`
pub data ReadState : Type 0 where
  global : ReadState
  name : ReadState
  assign : ReadState
  value : ReadState
  close : ReadState

-- The variables of the function; `none` is `NULL`.
pub record Reader : Type 0 where
  pub bp : Bytes
  pub state : ReadState
  pub status : Bool
  pub name_start : Option Bytes
  pub name_end : Option Bytes
  pub value_start : Option Bytes
  pub value_end : Option Bytes
  pub conf : Conf

-- `end - start + 1`
pub span : Option Bytes → Option Bytes → M ℕ
span none none = pure 1
span (some s) (some e) = pure (length s - length e + 1)
span _ _ = undefined

-- The setting goes into the configuration, whatever `srvd_conf_item_add` returns.
pub store_item : Reader → M Conf
store_item r =
    if r.status
    then (do
      n ← span r.name_start r.name_end
      v ← span r.value_start r.value_end
      (_, c) ← item_add r.conf r.name_start n r.value_start v
      pure c)
    else pure r.conf

-- Where the line ends, and whether it ended there.
line_end : Reader → ℕ → M (Bytes × Bool)
line_end r c =
    if is_eol c
    then (do bp ← eol_read r.bp; pure (bp, r.status))
    else if eof r.bp
    then pure (r.bp, r.status)
    else (do bp ← read_while is_line r.bp; pure (bp, false))

-- `_SRVD_CONF_FILE_READ_STATE_CLOSE`
pub close_state : Reader → M Reader
close_state r = do
  c ← byte r.bp
  (bp, status) ← line_end r c
  conf ← store_item (record r { bp = bp; status = status })
  pure (record {
    bp = bp;
    state = global;
    status = status;
    name_start = none;
    name_end = none;
    value_start = none;
    value_end = none;
    conf = conf;
  })

close_quote : Reader → Bytes → M Reader
close_quote r bp = do
  value_end ← pure (some bp)
  bp ← next bp
  close_state (record r { bp = bp; state = close; value_end = value_end })

-- What follows the loop over a quoted value.
after_quoted : Reader → Bytes → M Reader
after_quoted r bp =
    let closed = close_quote r bp in
    if eof bp
    then (do
      c ← byte bp
      if not (c == 34) then pure (record r { bp = bp; state = global; status = false }) else closed)
    else closed

quoted : Reader → M Reader
quoted r = do
  start ← next r.bp
  bp ← quoted_loop start 0
  after_quoted (record r { value_start = some start }) bp

plain : Reader → M Reader
plain r =
    let bp = plain_loop r.bp in
    close_state (record r { bp = bp; state = close; value_start = some r.bp; value_end = some bp })

-- `_SRVD_CONF_FILE_READ_STATE_VALUE`
pub value_state : Reader → M Reader
value_state r = do
  c ← byte r.bp
  if is_space c
      then (do bp ← read_while is_space r.bp; pure (record r { bp = bp }))
      else if is_eol c
      then pure (record r { state = close })
      else if c == 34
      then quoted r
      else plain r

-- `_SRVD_CONF_FILE_READ_STATE_ASSIGN`
pub assign_state : Reader → M Reader
assign_state r = do
  c ← byte r.bp
  if is_space c
      then (do bp ← read_while is_space r.bp; pure (record r { bp = bp }))
      else if c == 61
      then (do bp ← read_while is_space r.bp; value_state (record r { bp = bp; state = value }))
      else if c == 35
      then (do
        bp ← read_while is_line r.bp
        pure (record r { bp = bp; state = global; status = false }))
      else if is_eol c
      then (do bp ← eol_read r.bp; pure (record r { bp = bp; state = global; status = false }))
      else (do bp ← next r.bp; pure (record r { bp = bp; status = false }))

-- `_SRVD_CONF_FILE_READ_STATE_NAME`
name_state : Reader → M Reader
name_state r = do
  bp ← read_while is_name r.bp
  assign_state (record r { bp = bp; state = assign; name_start = some r.bp; name_end = some bp })

-- `_SRVD_CONF_FILE_READ_STATE_GLOBAL`
global_state : Reader → M Reader
global_state r = do
  c ← byte r.bp
  if is_eol c || is_space c
      then (do bp ← eol_read r.bp; pure (record r { bp = bp }))
      else name_state (record r { state = name })

switch_state : ReadState → Reader → M Reader
switch_state global r = global_state r
switch_state name r = name_state r
switch_state assign r = assign_state r
switch_state value r = value_state r
switch_state close r = close_state r

skip_comment : Bytes → M Bytes
skip_comment bp = do c ← byte bp; if c == 35 then read_while is_line bp else pure bp

-- The body of the loop.
pub step : Reader → M Reader
step r = do bp ← skip_comment r.bp; switch_state r.state (record r { bp = bp })

-- The loop, with at most `n` rounds.
pub read_loop : ℕ → Reader → M Reader
read_loop zero r = pure r
read_loop (suc n) r = let again = read_loop n in if eof r.bp then pure r else step r >>= again

abbrev pub is_global : ReadState → Bool
is_global global = true
is_global _ = false

abbrev pub reader : Bytes → Conf → Reader
reader buffer c = record {
  bp = buffer;
  state = global;
  status = true;
  name_start = none;
  name_end = none;
  value_start = none;
  value_end = none;
  conf = c;
}

-- What follows the loop.
pub finish : Reader → M (Bool × Conf)
finish r =
    if r.status && is_global r.state
    then pure (true, r.conf)
    else (do (_, c) ← conf_clear r.conf; pure (false, c))

-- `_srvd_conf_file_read`: the status and the configuration
pub conf_file_read : Bytes → Conf → M (Bool × Conf)
conf_file_read buffer c = read_loop (2 * length buffer) (reader buffer c) >>= finish
