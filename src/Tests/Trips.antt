-- ===== src/Tests/Trips.antt =====
-- A request for a user on its way through all parts.
use srvd.Base.{
  Bool, Option, ap, take, drop, true, ◌≡◌, refl, none, some, List, [], ◌∷◌, length, arith,
}
use srvd.Memory.{Bytes, Mem, Run, ok, fault, Ends, ends, be32}
use srvd.Field.View.{Item}
use srvd.Packet.View.{packet_of}
use srvd.Serial.RoundTrip.{IsWire}
use srvd.Conf.Items.{is_text-IsText}
use srvd.Conf.Scan.{is_name}
use srvd.Conf.Scan.Text.{all-Each, is_plain}
use srvd.Conf.Reader.Lines.{bare}
use srvd.Conf.Reader.Documents.{Line, setting}
use srvd.Conf.File.{fconf_default}
use srvd.Conf.File.Parse.{file_text}
use srvd.Service.{response_initialize}
use srvd.Listener.{Handler, Connection, serve}
use srvd.Listener.Serve.{handled, answer_with}
use srvd.Nss.{success}
use srvd.Nss.Passwd.{Passwd, getpwuid_r}
use srvd.Nss.Passwd.Populate.{start_of}
use srvd.Stack.{System, linked_query}
use srvd.Stack.Lookup.{getpwuid_r-serve}
use srvd.Stack.Sockets.{Carries, Replies}
use srvd.Stack.Configured.{Configured}
use srvd.Stack.Trip.{linked_query-serve}
use srvd.Serial.{header_size}
use srvd.Serial.Serialize.{encode}
use srvd.Unsock.{Socket}
use srvd.Server.{Server}
use srvd.Packet.Update.Append.{single}
use srvd.Service.Passwd.{request_uid}
use srvd.Tests.{start, start-Plenty, uid, idle}
use srvd.Tests.Listeners.{named, by_uid, monitor, heard, uid-IsWire, has_handler}

-- client:adapter=unsock and client:path=/s
abbrev pub adapter_line : Line
adapter_line =
    setting 99 (108 ∷ 105 ∷ 101 ∷ 110 ∷ 116 ∷ 58 ∷ 97 ∷ 100 ∷ 97 ∷ 112 ∷ 116 ∷ 101 ∷ 114 ∷ []) [] []
      (bare (117 ∷ 110 ∷ 115 ∷ 111 ∷ 99 ∷ 107 ∷ []))

abbrev pub path_line : Line
path_line =
    setting 99 (108 ∷ 105 ∷ 101 ∷ 110 ∷ 116 ∷ 58 ∷ 112 ∷ 97 ∷ 116 ∷ 104 ∷ []) [] []
      (bare (47 ∷ 115 ∷ []))

abbrev pub text : Bytes
text = file_text (adapter_line ∷ path_line ∷ [])

-- What the server of the test answers.
abbrev answer : List Item
answer = answer_with 0 named

answer-IsWire : IsWire answer
answer-IsWire = record {
  counted = (omega arith, (omega arith, (omega arith, tt)));
  small = omega arith;
  items = (
    (omega arith, omega arith, ((λ e. cc, omega arith), tt)),
    ((omega arith, omega arith, ((λ e. cc, omega arith), tt)), tt),
  );
  unique = ((λ e. omega arith, tt), (tt, tt));
}

-- What a server answered.
abbrev answered : Run (Option (Bool × Bytes)) → Bytes
answered (ok (some (true, back)) m) = back
answered _ = []

answered-back :
    (r : Run (Option (Bool × Bytes))) (back : Bytes)
    → Ends (λ r. r ≡ some (true, back)) r
    → answered r ≡ back
answered-back (ok a m) back (ends e) = rw e refl
answered-back fault back r = elim r [ ]

-- Sockets that carry all, between the client and a server in the memory `start`.
abbrev pub accepted : Bytes → Connection
accepted sent = record {
  first = some (take header_size sent);
  reads = λ n. some (take n (drop header_size sent));
  writes = λ back. some (length back);
  garbage = idle;
}

abbrev pub socket_to : Server Handler → Socket
socket_to server = record {
  connects = true;
  closes = true;
  writes = λ sent. some (length sent);
  first = λ sent. some (take header_size (answered (serve server (accepted sent) start)));
  reads =
      λ sent n. some (take n (drop header_size (answered (serve server (accepted sent) start))));
  garbage_out = idle;
  garbage_in = idle;
}

pub socket_to-Carries : (server : Server Handler) → Carries (socket_to server) accepted server start
socket_to-Carries server = record {
  connects = refl;
  takes = λ sent. refl;
  heard_header = λ sent. refl;
  heard_body = λ sent n. refl;
  takes_answer = λ sent back. refl;
  header = λ sent back e.
      ap (λ bs. some (take header_size bs))
        (answered-back (serve server (accepted sent) start) back e);
  body = λ sent back n e.
      ap (λ bs. some (take n (drop header_size bs)))
        (answered-back (serve server (accepted sent) start) back e);
}

abbrev pub system : Server Handler → System
system server = record {
  default_path = 47 ∷ 0 ∷ [];
  checked = some (record { size = length text; mtime = 5 });
  opened = some text;
  info = some (record { size = length text; mtime = 5 });
  sun_path_length = 108;
  opens = true;
  socket = socket_to server;
}

pub system-Configured :
    (server : Server Handler) → Configured (system server) (47 ∷ []) adapter_line (path_line ∷ [])
system-Configured server = record {
  named = refl;
  text = is_text-IsText (47 ∷ []) refl;
  lines = (
    (
      all-Each is_name
          (99 ∷ 108 ∷ 105 ∷ 101 ∷ 110 ∷ 116 ∷ 58 ∷ 97 ∷ 100 ∷ 97 ∷ 112 ∷ 116 ∷ 101 ∷ 114 ∷ []) refl,
      (tt, (tt, (refl, all-Each is_plain (117 ∷ 110 ∷ 115 ∷ 111 ∷ 99 ∷ 107 ∷ []) refl))),
    ),
    (
      (
        all-Each is_name (99 ∷ 108 ∷ 105 ∷ 101 ∷ 110 ∷ 116 ∷ 58 ∷ 112 ∷ 97 ∷ 116 ∷ 104 ∷ []) refl,
        (tt, (tt, (refl, all-Each is_plain (47 ∷ 115 ∷ []) refl))),
      ),
      tt,
    ),
  );
  opened = refl;
  mtime = 5;
  known = refl;
  adapter = refl;
  socket_path = 47 ∷ 115 ∷ [];
  configured = refl;
  fits = (is_text-IsText (47 ∷ 115 ∷ []) refl, omega arith);
  opens = refl;
}

-- The server of the tests on the request for a user id.
uid-Replies : Replies monitor start uid [] named 0
uid-Replies = record {
  after = heard;
  outcome = handled {m₁ = heard} {handler = by_uid} has_handler refl;
  plenty = start-Plenty;
  wire = answer-IsWire;
  absent = refl;
}

linked_query-serve_example :
    Ends
      (λ r. r ≡ some (true, encode (answer_with 0 named)))
      (serve monitor (accepted (encode (uid ∷ []))) start)
    × ((m' : Mem) × (linked_query
            (system monitor)
            fconf_default
            (record { packet = packet_of (uid ∷ []) })
            response_initialize.1
            start
          ≡ ok (true, record { packet = packet_of (answer_with 0 named); status = 0 }) m'))
linked_query-serve_example =
    linked_query-serve (system monitor) (47 ∷ []) adapter_line (path_line ∷ [])
      (system-Configured monitor) accepted monitor start (socket_to-Carries monitor) start-Plenty
      uid [] named 0 start start-Plenty uid-IsWire uid-Replies

abbrev nobody : Passwd
nobody = record {
  pw_name = none;
  pw_uid = 0;
  pw_gid = 0;
  pw_dir = none;
  pw_shell = none;
  pw_gecos = none;
}

getpwuid_r-serve_example :
    Ends
      (λ r. r ≡ some (true, encode (answer_with 0 named)))
      (serve monitor (accepted (encode (single request_uid (be32 16909060) ∷ []))) start)
    × ((m' : Mem) × (getpwuid_r true 3
            (linked_query (system monitor) fconf_default)
            16909060
            (start_of nobody (9 ∷ 9 ∷ 9 ∷ []))
            start
          ≡ ok
              (
                0,
                record {
                  status = success;
                  errno = none;
                  filled = record {
                    pwd = record nobody { pw_name = some 0 };
                    area = record { buffer = 114 ∷ 0 ∷ 9 ∷ []; bi = 2 };
                  };
                },
              )
              m'))
getpwuid_r-serve_example =
    getpwuid_r-serve (system monitor) (47 ∷ []) adapter_line (path_line ∷ [])
      (system-Configured monitor) accepted monitor start (socket_to-Carries monitor) start-Plenty
      true 3 16909060 nobody (9 ∷ 9 ∷ 9 ∷ []) named 0 start (omega arith) start-Plenty uid-Replies
