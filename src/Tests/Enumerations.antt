-- ===== src/Tests/Enumerations.antt =====
-- A whole enumeration of lib/srvd/nss/passwd.c, with two users, a buffer that is too small for the first
-- one, and a call behind the end.
use srvd.Base.{
  ℕ, length, ◌≤◌, zero, suc, ◌+◌, ◌*◌, ◌^◌, Bool, true, false, ◌≡◌, refl, Option, none, some, List,
  [], ◌∷◌, All, arith,
}
use srvd.Memory.{Bytes, Mem, M, ok}
use srvd.Field.{Entry}
use srvd.Field.View.{Item}
use srvd.Packet.{Slot, live}
use srvd.Service.{Request, Response}
use srvd.Nss.{success, notfound, tryagain, erange}
use srvd.Nss.Passwd.{Passwd, Filling}
use srvd.Nss.Passwd.Layout.{Filled}
use srvd.Nss.Passwd.Entities.{Caller, enumerate}
use srvd.Nss.Passwd.Threads.{
  Call, user_at, set_call, get_call, end_call, Outcome, run_calls, alone_calls,
}
use srvd.Thread.{Once, data_of, of_thread}
use srvd.Memory.{gave_back, taken, be32, pure}
use srvd.Packet.View.{packet_of}
use srvd.Packet.Update.Append.{single}
use srvd.Serial.Unserialize.{grant_items}
use srvd.Serial.RoundTrip.{IsWire}
use srvd.Server.{Server, service_get, service_loop}
use srvd.Listener.{Handler}
use srvd.Listener.Serve.{handled, answer_with}
use srvd.Service.Passwd.{request_entities}
use srvd.Conf.File.Default.{loaded}
use srvd.Stack.{linked_query}
use srvd.Stack.Sockets.{Replies}
use srvd.Stack.Enumerations.{status_field, enumerate-serve, run_calls-serve}
use srvd.Tests.Trips.{
  adapter_line, path_line, text, accepted, socket_to-Carries, system, system-Configured,
}
use srvd.Tests.{start, start-Plenty}

abbrev table : List (List Item)
table =
    (record { tag = 751; values = (114 ∷ 0 ∷ []) ∷ [] }
      ∷ record { tag = 752; values = (0 ∷ 0 ∷ 3 ∷ 232 ∷ []) ∷ [] }
      ∷ [])
    ∷ (record { tag = 752; values = (0 ∷ 0 ∷ 3 ∷ 233 ∷ []) ∷ [] } ∷ [])
    ∷ []

table-Filled : All (λ its. All Filled its) table
table-Filled = ((((λ e. cc), tt), (((λ e. cc), tt), tt)), ((((λ e. cc), tt), tt), tt))

-- The offset in a request.
abbrev number_of : Option Bytes → ℕ
number_of (some (a ∷ b ∷ c ∷ d ∷ [])) = a * 2 ^ 24 + (b * 2 ^ 16 + (c * 2 ^ 8 + d))
number_of _ = 0

abbrev first_of : List Entry → ℕ
first_of [] = 0
first_of (e ∷ es) = number_of e.content

abbrev wanted : List Slot → ℕ
wanted (live f ∷ fs) = first_of f.entries
wanted _ = 0

-- A handler that answers from the table.
abbrev by_offset : Handler
by_offset = λ request response.
    let (its, status) = user_at table (wanted request.packet.fields) in
    pure (record { packet = packet_of its; status = status })

abbrev server : Server Handler
server = record {
  services = record { type = request_entities; handler = by_offset } ∷ [];
  executing = true;
}

has_by_offset : service_get server request_entities ≡ some by_offset
unfolding service_get service_loop
has_by_offset = refl

abbrev heard : ℕ → Mem
heard k = gave_back 1 (grant_items (single request_entities (be32 k) ∷ []) (taken start))

first_user-IsWire : IsWire (answer_with 0 (user_at table 0).0)
first_user-IsWire = record {
  counted = (omega arith, (omega arith, (omega arith, (omega arith, tt))));
  small = omega arith;
  items = (
    (omega arith, omega arith, ((λ e. cc, omega arith), tt)),
    (
      (omega arith, omega arith, ((λ e. cc, omega arith), tt)),
      ((omega arith, omega arith, ((λ e. cc, omega arith), tt)), tt),
    ),
  );
  unique = ((λ e. omega arith, (λ e. omega arith, tt)), ((λ e. omega arith, tt), (tt, tt)));
}

second_user-IsWire : IsWire (answer_with 0 (user_at table 1).0)
second_user-IsWire = record {
  counted = (omega arith, (omega arith, (omega arith, tt)));
  small = omega arith;
  items = (
    (omega arith, omega arith, ((λ e. cc, omega arith), tt)),
    ((omega arith, omega arith, ((λ e. cc, omega arith), tt)), tt),
  );
  unique = ((λ e. omega arith, tt), (tt, tt));
}

not_found-IsWire : IsWire (answer_with 2 [])
not_found-IsWire = record {
  counted = (omega arith, (omega arith, tt));
  small = omega arith;
  items = ((omega arith, omega arith, ((λ e. cc, omega arith), tt)), tt);
  unique = (tt, tt);
}

server-Replies :
    (k : ℕ)
    → k ≤ length table
    → Replies server start
        (single request_entities (be32 k))
        []
        (user_at table k).0
        (user_at table k).1
server-Replies zero h = record {
  after = heard 0;
  outcome = handled {m₁ = heard 0} {handler = by_offset} has_by_offset refl;
  plenty = start-Plenty;
  wire = first_user-IsWire;
  absent = refl;
}
server-Replies (suc zero) h = record {
  after = heard 1;
  outcome = handled {m₁ = heard 1} {handler = by_offset} has_by_offset refl;
  plenty = start-Plenty;
  wire = second_user-IsWire;
  absent = refl;
}
server-Replies (suc (suc zero)) h = record {
  after = heard 2;
  outcome = handled {m₁ = heard 2} {handler = by_offset} has_by_offset refl;
  plenty = start-Plenty;
  wire = not_found-IsWire;
  absent = refl;
}
server-Replies (suc (suc (suc k))) h = absurd (omega arith)

-- The query of a client that has read its configuration.
abbrev asked : Request → Response → M (Bool × Response)
asked = linked_query (system server) (loaded (adapter_line ∷ path_line ∷ []) 5 (47 ∷ 0 ∷ []))

abbrev blank : Passwd
blank = record {
  pw_name = none;
  pw_uid = 0;
  pw_gid = 0;
  pw_dir = none;
  pw_shell = none;
  pw_gecos = none;
}

abbrev caller : Caller
caller = record { pwd = blank; original = 9 ∷ [] }

abbrev filled_with : Passwd → Filling
filled_with pwd = record { pwd = pwd; area = record { buffer = 9 ∷ []; bi = 0 } }

enumerate-serve_example :
    (m' : Mem) × (enumerate false 1 status_field asked none (caller ∷ caller ∷ caller ∷ []) start
      ≡ ok
          (
            success,
            (
              record { status = tryagain; errno = some erange; filled = filled_with blank }
                  ∷ record {
                    status = success;
                    errno = none;
                    filled = filled_with (record blank { pw_uid = 1001 });
                  }
                  ∷ record { status = notfound; errno = none; filled = filled_with blank }
                  ∷ [],
              some 2,
            ),
          )
          m')
    × ((m'.allocated + 0) ≡ (1 + (0 + m'.released)))
enumerate-serve_example =
    enumerate-serve (system server) (47 ∷ []) adapter_line (path_line ∷ [])
      (system-Configured server) accepted server start (socket_to-Carries server) start-Plenty
      (47 ∷ 0 ∷ []) (length text) 5 refl (λ e. omega arith) table server-Replies false 1 none
      (caller ∷ caller ∷ caller ∷ []) start (omega arith)
      (omega arith, (omega arith, (omega arith, tt))) start-Plenty

-- Two threads whose enumerations interleave, before the key is made.
abbrev schedule : List (ℕ × Call)
schedule =
    (1, set_call)
    ∷ (2, get_call caller)
    ∷ (1, get_call caller)
    ∷ (2, get_call caller)
    ∷ (2, end_call)
    ∷ (1, get_call caller)
    ∷ []

abbrev unmade : Once ℕ
unmade = record { called = false; key = λ t. some 77 }

run_calls-serve_example :
    (rs : List (ℕ × Outcome)) × ((o' : Once ℕ) × ((m' : Mem) × (run_calls false 1 asked schedule
            unmade start
          ≡ ok (rs, o') m')
        × ((t : ℕ)
            → (of_thread t rs, data_of o' t)
              ≡ alone_calls false 1 table (of_thread t schedule) (data_of unmade t))))
run_calls-serve_example =
    run_calls-serve (system server) (47 ∷ []) adapter_line (path_line ∷ [])
      (system-Configured server) accepted server start (socket_to-Carries server) start-Plenty
      (47 ∷ 0 ∷ []) (length text) 5 refl (λ e. omega arith) table server-Replies false 1 schedule
      unmade start (omega arith)
      (tt, (omega arith, (omega arith, (omega arith, (tt, (omega arith, tt)))))) (λ t. tt)
      start-Plenty
