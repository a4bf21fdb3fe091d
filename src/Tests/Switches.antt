-- ===== src/Tests/Switches.antt =====
-- The properties of the name switch modules at the response for a user, and at one for an alias.
use srvd.Base.{
  ◌++◌, Bool, true, false, ◌≡◌, refl, ◌∙◌, none, some, List, [], ◌∷◌, All, arith, replicate,
}
use srvd.Memory.{Bytes, M, ok, fault, Ends, granted, gave_back, be32}
use srvd.Field.View.{Item}
use srvd.Packet.View.{packet_of}
use srvd.Packet.Ownership.{slots_blocks}
use srvd.Packet.Update.Append.{single}
use srvd.Service.{Request, Response}
use srvd.Nss.{success, populate, get_entry}
use srvd.Nss.Written.{area_of}
use srvd.Nss.Bounds.{Bounded}
use srvd.Nss.Enumeration.{get_entry-asked}
use srvd.Nss.Overread.{getpwnam_r-overread}
use srvd.Nss.Passwd
use srvd.Nss.Passwd.Layout.{Filled}
use srvd.Nss.Passwd.Populate.{response_of, start_of, populate-Ends}
use srvd.Nss.Passwd.Lookup.{reply_for, ask-reply_for}
use srvd.Nss.Aliases
use srvd.Nss.Aliases.Members.{Carried}
use srvd.Nss.Aliases.Layout
use srvd.Nss.Aliases.Outcome.{populate-laid_out}
use srvd.Nss.Aliases.Populate.{aliases_populate-Ends}
use srvd.Tests.{start, start-Plenty}

abbrev blank : Passwd.Passwd
blank = record {
  pw_name = none;
  pw_uid = 0;
  pw_gid = 0;
  pw_dir = none;
  pw_shell = none;
  pw_gecos = none;
}

abbrev code : Item
code = record { tag = 65535; values = (0 ∷ 0 ∷ []) ∷ [] }

abbrev user : List Item
user =
    record { tag = 751; values = (114 ∷ 0 ∷ []) ∷ [] }
    ∷ record { tag = 752; values = (0 ∷ 0 ∷ 3 ∷ 232 ∷ []) ∷ [] }
    ∷ []

user-Filled : All Filled user
user-Filled = (((λ e. cc), tt), (((λ e. cc), tt), tt))

abbrev room : Bytes
room = 9 ∷ 9 ∷ 9 ∷ 9 ∷ []

-- A query that is answered with `user`.
abbrev answering : Request → Response → M (Bool × Response)
answering q r m =
    ok (true, response_of code user 0) (granted (slots_blocks ((packet_of (code ∷ user)).fields)) m)

populate-Ends_example :
    Ends
      (λ r. Bounded 1 room r.filled.area)
      (populate (Passwd.filler false 1) (response_of code user 0) (start_of blank room) start)
populate-Ends_example = populate-Ends false 1 code user 0 blank room start user-Filled (omega arith)

first_call :
    get_entry answering (Passwd.filler true 4) 703 (start_of blank room) (some 0) start
    ≡ ok
        (reply_for true 4 user 0 blank room, some 1)
        (gave_back 9 (gave_back 3 (granted 9 (granted 3 start))))
first_call =
    get_entry-asked answering (Passwd.filler true 4) 703 0 (start_of blank room) start start-Plenty
    ∙ rw
        (ask-reply_for true 4 code user 0 blank room user-Filled (omega arith) answering
          (single 703 (be32 0)) (granted 3 start)
          (granted (slots_blocks ((packet_of (code ∷ user)).fields)) (granted 3 start)) refl)
        refl

-- An alias with two members.
abbrev alias_fields : List Item
alias_fields =
    record { tag = 151; values = (114 ∷ 0 ∷ []) ∷ [] }
    ∷ record { tag = 152; values = (97 ∷ 0 ∷ []) ∷ (98 ∷ 0 ∷ []) ∷ [] }
    ∷ []

alias_fields-Carried : All Carried alias_fields
alias_fields-Carried =
    ((((λ e. cc), tt), omega arith), ((((λ e. cc), ((λ e. cc), tt)), omega arith), tt))

abbrev blank_alias : Aliases.Filling
blank_alias = record {
  ae = record { alias_name = none; alias_members_len = 0; alias_members = none; alias_local = 1 };
  area = record { buffer = replicate 30 9; bi = 0 };
}

aliases_populate-Ends_example :
    Ends
      (λ r. Bounded 22 (replicate 30 9) r.filled.area)
      (populate
        (Aliases.filler 8 (λ p. replicate 8 p) 22)
        (record { packet = packet_of (code ∷ alias_fields); status = 0 })
        blank_alias
        start)
aliases_populate-Ends_example =
    aliases_populate-Ends 8 (λ p. replicate 8 p) (λ p. refl) 22 (replicate 30 9) (omega arith) code
      alias_fields 0 blank_alias start alias_fields-Carried (refl, (refl, omega arith))

populate-laid_out_example :
    populate
      (Aliases.filler 8 (λ p. replicate 8 p) 22)
      (record { packet = packet_of (code ∷ alias_fields); status = 0 })
      (Layout.filling (replicate 30 9) (record { ae = blank_alias.ae; written = [] }))
      start
    ≡ ok
        (record {
          status = success;
          errno = none;
          filled = record {
            ae = record {
              alias_name = some 0;
              alias_members_len = 2;
              alias_members = some 2;
              alias_local = 0;
            };
            area =
                area_of
                  (replicate 30 9)
                  (114 ∷ 0 ∷ (replicate 8 18 ++ (replicate 8 20 ++ (97 ∷ 0 ∷ 98 ∷ 0 ∷ []))));
          };
        })
        start
populate-laid_out_example =
    populate-laid_out 8 (λ p. replicate 8 p) (λ p. refl) 22 (replicate 30 9) (omega arith) code
      alias_fields 0 blank_alias.ae start alias_fields-Carried

getpwnam_r-overread_example :
    (Passwd.getpwnam_r true 4 answering 256 (114 ∷ 0 ∷ []) (start_of blank room) start ≡ fault)
    × (Aliases.getaliasbyname_r 8
          (λ p. replicate 8 p)
          4
          answering
          256
          (114 ∷ 0 ∷ [])
          blank_alias
          start
        ≡ fault)
getpwnam_r-overread_example =
    getpwnam_r-overread answering true 8 (λ p. replicate 8 p) 4 256 (114 ∷ 0 ∷ [])
      (start_of blank room) blank_alias start start-Plenty (omega arith)
