-- ===== src/Conf/Reader/Latest.antt =====
-- A configuration file read by `_srvd_conf_file_read` and asked with `srvd_conf_item_get`, both of
-- lib/srvd/libsrvd/conf.c.
use srvd.Base.{
  ◌≡◌, refl, ◌∙◌, Option, none, some, List, [], ◌∷◌, ◌++◌, if◌then◌else◌, All, inl, inr, Bool-cases,
}
use srvd.Memory.{Bytes, Mem, ok, ◌>>=◌, Plenty}
use srvd.Conf.{item_get, conf_initialize}
use srvd.Conf.Items.{IsText, Setting, IsSetting, eq_bytes, lookup, as_item, item_get-lookup}
use srvd.Conf.Reader.{conf_file_read}
use srvd.Conf.Reader.Store.{name-IsText}
use srvd.Conf.Reader.Lines.{content, value-IsText}
use srvd.Conf.Reader.Documents.{Line, setting, comment, blank, IsLine, document, with_line, parsed}
use srvd.Conf.Reader.Files.{document_memory, conf_file_read-document}

-- What a line says of a name.
abbrev pub line_value : Bytes → Line → Option Bytes
line_value name (setting c cs before after v) =
    if eq_bytes (c ∷ cs) name then some (content v) else none
line_value name _ = none

abbrev pub or_else : Option Bytes → Option Bytes → Option Bytes
or_else none o = o
or_else (some v) o = some v

-- The value of the last line for a name.
abbrev pub last_value : Bytes → List Line → Option Bytes
last_value name [] = none
last_value name (l ∷ ls) = or_else (last_value name ls) (line_value name l)

or_else_assoc : (a b c : Option Bytes) → or_else (or_else a b) c ≡ or_else a (or_else b c)
or_else_assoc none b c = refl
or_else_assoc (some v) b c = refl

pub or_else-none : (a : Option Bytes) → or_else a none ≡ a
or_else-none none = refl
or_else-none (some v) = refl

module _ (name : Bytes) where
  lookup-with_line :
      (l : Line) (ss : List Setting)
      → lookup name (with_line l ss) ≡ or_else (line_value name l) (lookup name ss)
  lookup-with_line (setting c cs before after v) ss = elim (Bool-cases (eq_bytes (c ∷ cs) name)) [
    | inl e ↦ rw e refl
    | inr e ↦ rw e refl
  ]
  lookup-with_line (comment t) ss = refl
  lookup-with_line blank ss = refl

  pub lookup-parsed :
      (ls : List Line) (ss : List Setting)
      → lookup name (parsed ls ss) ≡ or_else (last_value name ls) (lookup name ss)
  lookup-parsed [] ss = refl
  lookup-parsed (l ∷ ls) ss =
      lookup-parsed ls (with_line l ss)
      ∙ rw
          (
            lookup-with_line l ss,
            or_else_assoc (last_value name ls) (line_value name l) (lookup name ss),
          )
          refl

with_line-IsSetting :
    (l : Line) (ss : List Setting) → IsLine l → All IsSetting ss → All IsSetting (with_line l ss)
with_line-IsSetting (setting c cs before after v) ss (named, (b, (a, h))) others =
    ((name-IsText (c ∷ cs) named, value-IsText v h), others)
with_line-IsSetting (comment t) ss h others = others
with_line-IsSetting blank ss h others = others

pub parsed-IsSetting :
    (ls : List Line) (ss : List Setting)
    → All IsLine ls
    → All IsSetting ss
    → All IsSetting (parsed ls ss)
parsed-IsSetting [] ss h others = others
parsed-IsSetting (l ∷ ls) ss (h, hs) others =
    parsed-IsSetting ls (with_line l ss) hs (with_line-IsSetting l ss h others)

-- With memory at hand, when a file of lines that are settings, comments and empty lines has been read
-- into an initialized configuration, `srvd_conf_item_get` for a terminated name hands out the value
-- of the last line for that name, with its terminator and its length, and finds nothing if no line
-- is for the name.
pub item_get-document :
    (ls : List Line) (name rest : Bytes) (m : Mem)
    → All IsLine ls
    → IsText name
    → Plenty m
    → (conf_file_read (document ls) conf_initialize.1 >>= λ (_, c).
          item_get c (some (name ++ 0 ∷ rest)))
        m
      ≡ ok (as_item (last_value name ls)) (document_memory ls m)
item_get-document ls name rest m lines text plenty =
    rw
      (
        conf_file_read-document ls [] m lines tt plenty,
        item_get-lookup name rest (document_memory ls m) text (parsed ls [])
            (parsed-IsSetting ls [] lines tt),
        lookup-parsed name ls [],
        or_else-none (last_value name ls),
      )
      refl
