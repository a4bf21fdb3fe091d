-- ===== src/Conf.antt =====
-- The items of a configuration: lib/srvd/libsrvd/conf.c up to `srvd_conf_item_has`, and
-- include/srvd/conf.h. The linked list is a list of its nodes, in order.
pub mod Items
pub mod Adding
pub mod Invariant
pub mod Scan
pub mod Reader
pub mod File
use srvd.Base.{ℕ, Bool, true, false, not, Option, none, some, List, [], ◌∷◌, if◌then◌else◌}
use srvd.Memory.{Bytes, M, pure, ◌>>=◌, ◌>>◌, malloc, free, strncpy, strncmp, terminate}

-- `struct srvd_conf_item`, with the node that holds it
pub record ConfItem : Type 0 where
  pub name_length : ℕ
  pub value_length : ℕ
  pub name : Bytes
  pub value : Bytes

-- `struct srvd_conf`
pub record Conf : Type 0 where
  pub nodes : List ConfItem

-- `srvd_conf_allocate`, `srvd_conf_free` and `srvd_conf_initialize`
abbrev pub conf_allocate : M Bool
conf_allocate = malloc

abbrev pub conf_free : M (Unit {0})
conf_free = free

abbrev pub conf_initialize : Bool × Conf
conf_initialize = (true, record { nodes = [] })

clear_nodes : List ConfItem → M (Unit {0})
clear_nodes [] = pure tt
clear_nodes (n ∷ ns) = do free; free; free; clear_nodes ns

-- `srvd_conf_clear` and `srvd_conf_finalize`
pub conf_clear : Conf → M (Bool × Conf)
conf_clear c = do clear_nodes c.nodes; pure conf_initialize

abbrev pub conf_finalize : Conf → M (Bool × Conf)
conf_finalize c = do (_, c) ← conf_clear c; pure (true, c)

has_name : Bytes → List ConfItem → M Bool
has_name name [] = pure false
has_name name (n ∷ ns) =
    let rest = has_name name ns in
    do same ← strncmp n.name name n.name_length; if same then pure true else rest

-- `srvd_conf_item_has` for a pointer to a name
pub item_has : Conf → Option Bytes → M Bool
item_has c none = pure false
item_has c (some name) = has_name name c.nodes

get_name : Bytes → List ConfItem → M (Option (Bytes × ℕ))
get_name name [] = pure none
get_name name (n ∷ ns) =
    let rest = get_name name ns in
    do
      same ← strncmp n.name name n.name_length
      if same then pure (some (n.value, n.value_length)) else rest

-- `srvd_conf_item_get`: the value and its length, or `none` with the status `SRVD_FALSE`
pub item_get : Conf → Option Bytes → M (Option (Bytes × ℕ))
item_get c none = pure none
item_get c (some name) = get_name name c.nodes

-- The block for a string of a length, with the copy in it; `none` if it could not be allocated.
pub copy_string : Option Bytes → ℕ → M (Option Bytes)
copy_string string length = do
  got ← malloc
  if not got then pure none else do s ← strncpy string length; s ← terminate length s; pure (some s)

-- What follows the copy of the name, and the copy of the value; a failure gives the blocks back.
finish_item : ℕ → ℕ → Bytes → Option Bytes → M (Option ConfItem)
finish_item name_length value_length name none = free >> (free >> pure none)
finish_item name_length value_length name (some value) = pure (
    some (record {
      name_length = name_length;
      value_length = value_length;
      name = name;
      value = value;
    }))

copy_value : ℕ → Option Bytes → ℕ → Option Bytes → M (Option ConfItem)
copy_value name_length value value_length none = free >> pure none
copy_value name_length value value_length (some name) =
    copy_string value value_length >>= finish_item name_length value_length name

-- The new node of `item_add`; `none` after a failed allocation.
pub new_item : Option Bytes → ℕ → Option Bytes → ℕ → M (Option ConfItem)
new_item name name_length value value_length = do
  node ← malloc
  if not node
      then pure none
      else copy_string name name_length >>= copy_value name_length value value_length

abbrev pub link_item : Conf → Option ConfItem → Bool × Conf
link_item c none = (false, c)
link_item c (some n) = (true, record c { nodes = n ∷ c.nodes })

-- `srvd_conf_item_add`: the status and the configuration
pub item_add : Conf → Option Bytes → ℕ → Option Bytes → ℕ → M (Bool × Conf)
item_add c name name_length value value_length = do
  has ← item_has c name
  if has
      then pure (false, c)
      else do n ← new_item name name_length value value_length; pure (link_item c n)
