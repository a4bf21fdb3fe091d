-- ===== src/Tests/Services.antt =====
-- The properties of requests, responses and queries at concrete ones.
use srvd.Base.{◌≡◌, true, some, List, [], ◌∷◌, arith}
use srvd.Memory.{ok, Ends, ◌>>=◌, granted, taken, be32}
use srvd.Field.View.{Item}
use srvd.Packet.View.{packet_of}
use srvd.Packet.Update.{field_append, field_append_uint32}
use srvd.Packet.Update.Append.{single}
use srvd.Serial.Unserialize.{grant_items}
use srvd.Service.Passwd.{request_uid, request_uid_get}
use srvd.Service.Aliases.{request_name_get, response_member_add}
use srvd.Service.Aliases.Members.{push_to}
use srvd.Service.Aliases.Adding.{response_member_add-with_member}
use srvd.Service.EndToEnd.{transfer, number_get-transfer, name_get-transfer}
use srvd.Tests.{start, start-Plenty, idle}

number_get-transfer_example :
    (field_append_uint32 (packet_of []) request_uid 1000 >>= λ (_, p).
    transfer idle idle p >>= λ (_, q). request_uid_get (record { packet = q }))
      start
    ≡ ok (some 1000) (grant_items (single request_uid (be32 1000) ∷ []) (taken (granted 3 start)))
number_get-transfer_example =
    number_get-transfer idle idle request_uid 1000 start (omega arith) start-Plenty

name_get-transfer_example :
    (field_append (packet_of []) 101 3 (some (114 ∷ 111 ∷ 0 ∷ [])) >>= λ (_, p).
    transfer idle idle p >>= λ (_, q). request_name_get (record { packet = q }))
      start
    ≡ ok
        (some (114 ∷ 111 ∷ 0 ∷ []))
        (taken (grant_items (single 101 (114 ∷ 111 ∷ 0 ∷ []) ∷ []) (taken (granted 3 start))))
name_get-transfer_example =
    name_get-transfer idle idle 101 114 (111 ∷ []) start (omega arith)
      ((λ e. omega arith), ((λ e. omega arith), tt)) (omega arith) start-Plenty

-- An alias with one member gets another.
abbrev alias : List Item
alias = single 151 (114 ∷ 0 ∷ []) ∷ single 152 (97 ∷ 0 ∷ []) ∷ []

response_member_add-with_member_example :
    Ends
      (λ r. r ≡ (true, record { packet = packet_of (push_to 152 (98 ∷ 0 ∷ []) alias); status = 0 }))
      (response_member_add
        (record { packet = packet_of alias; status = 0 })
        (some (98 ∷ 0 ∷ []))
        2
        start)
response_member_add-with_member_example =
    response_member_add-with_member alias 0 2 (some (98 ∷ 0 ∷ [])) start (omega arith) (omega arith)
      start-Plenty
