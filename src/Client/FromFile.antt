-- ===== src/Client/FromFile.antt =====
-- From a configuration file to a client: lib/srvd/libsrvd/conf.c and lib/srvd/libsrvd/client.c.
use srvd.Base.{ℕ, Bool, ◌≡◌, refl, sym, subst, ◌∙◌, List, [], All}
use srvd.Memory.{Bytes, Mem}
use srvd.Conf.Items.{holds, lookup}
use srvd.Conf.Reader.Documents.{Line, IsLine, parsed}
use srvd.Conf.Reader.Latest.{last_value, lookup-parsed, or_else-none, parsed-IsSetting}
use srvd.Client.{get_by_conf}
use srvd.Client.ByConf.{adapter_key, path_key, path_for, Fits, made, get_by_conf-made}

lookup-last_value :
    (name : Bytes) (ls : List Line) → lookup name (parsed ls []) ≡ last_value name ls
lookup-last_value name ls = lookup-parsed name ls [] ∙ or_else-none (last_value name ls)

-- The client for the settings of a file.
pub get_by_conf-parsed :
    (sun_path_length : ℕ) (opens : Bool) (ls : List Line) (m : Mem)
    → All IsLine ls
    → Fits sun_path_length opens (last_value path_key ls)
    → get_by_conf sun_path_length opens (holds (parsed ls [])) m
      ≡ made sun_path_length opens (path_for (last_value adapter_key ls) (last_value path_key ls)) m
get_by_conf-parsed sun_path_length opens ls m lines fits =
    let there = subst (Fits sun_path_length opens) (sym (lookup-last_value path_key ls)) fits in
    get_by_conf-made sun_path_length opens (parsed ls []) m (parsed-IsSetting ls [] lines tt) there
    ∙ rw (lookup-last_value adapter_key ls, lookup-last_value path_key ls) refl
