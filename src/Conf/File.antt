-- ===== src/Conf/File.antt =====
-- Configuration files: lib/srvd/libsrvd/conf.c from `srvd_conf_file_allocate` on, but for the parser.
-- What `stat`, `fopen` and `fread` answer is an argument of the function that calls them. The
-- functions that store through a pointer argument are called with one to `NULL`, as they demand; the
-- lock around the default file is not modelled.
pub mod Parse
pub mod Default
pub mod Failure
use srvd.Base.{
  ℕ, zero, suc, ◌+◌, Bool, true, false, not, ◌||◌, Option, none, some, [], ◌∷◌, ◌==◌, if◌then◌else◌,
  length, take, replicate,
}
use srvd.Memory.{Bytes, M, pure, undefined, ◌>>=◌, ◌>>◌, malloc, free, strncpy, terminate, write}
use srvd.Conf.{Conf, conf_initialize, conf_clear, conf_finalize}
use srvd.Conf.Reader.{conf_file_read}

-- `struct srvd_conf_file`
pub record ConfFile : Type 0 where
  pub conf : Conf
  pub updated : Bool
  pub updated_time : ℕ
  pub path : Option Bytes

-- What a `stat` that succeeds tells of the file.
pub record Stat : Type 0 where
  pub size : ℕ
  pub mtime : ℕ

-- `srvd_conf_file_allocate` and `srvd_conf_file_free`
abbrev pub file_allocate : M Bool
file_allocate = malloc

abbrev pub file_free : M (Unit {0})
file_free = free

copy_path : ConfFile → Bytes → ℕ → M (Bool × ConfFile)
copy_path f path path_length = do
  p ← strncpy (some path) path_length
  p ← terminate path_length p
  (initialized, conf) ← pure conf_initialize
  f ← pure (record { conf = conf; updated = false; updated_time = 0; path = some p })
  if not initialized then free >> pure (false, f) else pure (true, f)

-- `srvd_conf_file_initialize`
pub file_initialize : ConfFile → Option Bytes → ℕ → M (Bool × ConfFile)
file_initialize f none path_length = pure (false, f)
file_initialize f (some path) path_length = do
  got ← malloc
  if not got then pure (false, record f { path = none }) else copy_path f path path_length

free_path : Option Bytes → M (Unit {0})
free_path none = pure tt
free_path (some p) = free

-- `srvd_conf_file_finalize`
pub file_finalize : ConfFile → M (Bool × ConfFile)
file_finalize f = do
  free_path f.path
  (finalized, conf) ← conf_finalize f.conf
  if not finalized
      then pure (false, record f { conf = conf; path = none })
      else pure (true, record { conf = conf; updated = false; updated_time = 0; path = none })

same_time : ℕ → Option Stat → Bool
same_time time none = false
same_time time (some info) =
    if info.mtime == 0 then false else if not (info.mtime == time) then false else true

-- `srvd_conf_file_uptodate`, with the answer of `stat`
pub file_uptodate : ConfFile → Option Stat → Bool
file_uptodate f info = if not f.updated then false else same_time f.updated_time info

-- What follows the parser: the file counts as up to date, or stays as it was.
parsed_file : ConfFile → ℕ → Bool × Conf → Bool × ConfFile
parsed_file f mtime (true, conf) =
    (true, record f { conf = conf; updated = true; updated_time = mtime })
parsed_file f mtime (false, conf) = (false, record f { conf = conf })

-- From the buffer on, which is given back in the end; `content` is what `fread` finds in the file.
read_buffer : ConfFile → Bytes → Stat → M (Bool × ConfFile)
read_buffer f content info = do
  buffer ← write 0 (take info.size content) (replicate (info.size + 1) 0)
  if not (length (take info.size content) == info.size) then free >> pure (false, f) else do
    (_, conf) ← conf_clear f.conf
    read ← conf_file_read buffer conf
    free
    pure (parsed_file f info.mtime read)

parse_opened : ConfFile → Option Bytes → Option Stat → M (Bool × ConfFile)
parse_opened f none info = pure (false, f)
parse_opened f (some content) none = pure (false, f)
parse_opened f (some content) (some info) =
    if info.size == 0
    then pure (false, f)
    else (do got ← malloc; if not got then pure (false, f) else read_buffer f content info)

parse_at : Option Bytes → ConfFile → Option Bytes → Option Stat → M (Bool × ConfFile)
parse_at none f opened info = undefined
parse_at (some path) f opened info = parse_opened f opened info

-- `srvd_conf_file_parse`: `opened` is what is in the file, or `none` when it does not open, and
-- `info` is the answer of `stat`.
pub file_parse : ConfFile → Option Bytes → Option Stat → M (Bool × ConfFile)
file_parse f opened info = parse_at f.path f opened info

-- `fconf_default`
abbrev pub fconf_default : ConfFile
fconf_default = record {
  conf = record { nodes = [] };
  updated = false;
  updated_time = 0;
  path = none;
}

prepare : Option Bytes → ConfFile → Bytes → M (Bool × ConfFile)
prepare none f default_path = file_initialize f (some default_path) (length default_path)
prepare (some path) f default_path = pure (true, f)

-- `srvd_conf_file_default_get` with the default path and its terminator: `checked` is the answer of
-- the `stat` that asks whether the file is up to date; the other answers are those of the parser.
pub file_default_get :
    ConfFile → Bytes → Option Stat → Option Bytes → Option Stat → M (Bool × ConfFile)
file_default_get f default_path checked opened info = do
  (_, f) ← prepare f.path f default_path
  if file_uptodate f checked then pure (true, f) else file_parse f opened info
