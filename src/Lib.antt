-- ===== src/Lib.antt =====
-- A model of srvd, a service daemon: clients send packets of typed fields to a server, which answers
-- with packets.
--
-- The parts and their files. Paths are those of the repository; `srvd_` and `srvd_protocol_` are
-- left out of the names of functions.
--   Base     numbers, Boolean tests, lists and options for all modules
--   Memory   what the code relies on in C: `malloc` and `free`, the byte order of words, accesses to
--            a buffer; and two judgements on a run, `Ends` (it ends, and with what) and `Yields`
--            (what holds of its result if its behaviour is defined)
--   Field    include/srvd/protocol/packet.h and lib/srvd/libsrvd/protocol/packet.c: a field of a
--            packet and its entries (`packet_field_entry_add` is `entry_add`, and so on)
--   Thread   include/srvd/thread.h: data of a thread under a key, and Thread/Mutex: threads that interleave
--            by the statement, under a lock
--   Links    the lists of the same files by their pointers: Packet and Field have lists of nodes, and
--            Links/Refinement relates the two; Links/Statements and Links/Sharing are about threads
--            that share a packet
--   Packet   the same two files: the packet and its fields; Packet/Update has the operations that
--            look a type up and add a field for it (`packet_field_append` is `field_append`)
--   Serial   lib/srvd/libsrvd/protocol/serial_packet.c: the wire format
--   Service  lib/srvd/libsrvd/service.c: requests, responses and the query, and what the accessors of
--            the two services have in common; Service/Passwd and Service/Aliases are
--            lib/srvd/libsrvd/service/nss/passwd.c and aliases.c. The getters and setters have the
--            same text up to the type of the field, so each is an instance of a shared definition
--   Unsock   lib/srvd/libsrvd/client/unsock.c: the client over a UNIX domain socket. The answers of
--            the socket calls are arguments, so the theorems are about any; what is written is
--            returned, and what a client reads may depend on it
--   Server   lib/srvd/libsrvd/server.c: the registry of services; Server/Nodes has its list by the pointers
--   Listener lib/srvd/libsrvd/server/unsock.c: the server over a UNIX domain socket; a handler is a
--            function of the request and the response
--   Conf     lib/srvd/libsrvd/conf.c and include/srvd/conf.h: the items of a configuration;
--            Conf/Scan and Conf/Reader have the parser (`_srvd_conf_file_read`), Conf/File the files
--            and the default file; Conf/Reader/Documents has the grammar of the files
--   Client   lib/srvd/libsrvd/client.c: the client that a configuration asks for
--   Nss      lib/srvd/nss and include/srvd/buffer.h: the name switch modules, which fill the structure
--            and the buffer of a caller; Nss has what lib/srvd/nss/passwd.c and aliases.c share,
--            Nss/Passwd and Nss/Aliases the rest; Nss/Passwd/Entities calls them in a row,
--            Nss/Passwd/Threads in several threads; Nss/Passwd/Layout and Nss/Aliases/Layout say
--            what a filled buffer holds
--   Stack    the query of service.c linked with Conf, Client and Unsock, its way to Listener, and the
--            lookups and enumerations of Nss over all of these. Stack/Sockets has what is asked of the
--            sockets: bytes that a client writes are those that the server reads, and back
--   Tests    the properties at concrete inputs
-- Serial calls Packet/Update and Field; Packet/Update calls Packet; Packet calls Field; Service calls
-- Packet/Update, and a query talks to the server through a client, which is a record of its function
-- pointers; Unsock and Listener call Serial, and Listener calls Service and Server; Client calls Conf
-- and Unsock; Nss calls Packet/Update and Service; Stack calls Service, Conf, Client, Unsock and Nss.
-- In each module, View or Encode relates the structs to an abstract value (a field is an `Item`: a type
-- with its values, a packet is a list of them), and the other children prove properties.
--
-- How the code is modelled.
--   A function is a function of the structs that it reads and returns those that it changes, with its
--   status; it runs in `M`, which passes the memory on. `fault` is undefined behaviour: an access
--   outside a buffer, through `NULL`, or to a freed object. A property that a run is `ok` says that
--   it has none.
--   `malloc` may fail at each call: `succeeds` in the memory has the outcome of each call, and the
--   theorems hold for any, unless they ask for `Plenty` or for an outcome. Blocks are counted, given
--   out and taken back, and not named; which object a block belongs to is the struct's matter.
--   A linked list is the list of its nodes, and a pointer to a field that is in a packet is its
--   position; Links and Server/Nodes have the pointers. A field that was freed while it is linked stays there as `freed`.
--   The data pointer of an entry is `none` for `NULL`, or the bytes behind it, of which there may be
--   more than the size says.
--   `uint16_t` counters wrap around. The `size_t` sums are over data that is in memory, so they
--   stay below its range and are not wrapped.
--   Loops are structural recursion on the list or the counter, so they end, and no fuel is needed. The
--   loop over the states of the parser has fuel, twice the bytes of the buffer: a round moves the
--   pointer, or finds the end of a value's line that the next round then moves over. The loop of the
--   server does not end: it runs over the first answers of `accept`.
--
-- Not modelled. The guards against `NULL` for a pointer to a struct, and those of result pointers
-- (`*field == NULL`), since the callers in the library pass the addresses of their own objects,
-- initialized to `NULL`. The mutexes outside Links: there each operation is one step, which is what
-- Links proves of adding and injecting. Log messages, and with them the line number that the parser
-- counts. `isalnum` is that of the C locale on bytes. A query of Service has the configuration and the
-- choice of the client as parameters, which Stack fills in, and the name switch modules have the query.
-- The byte that goes to `alias_local` of `struct aliasent` is taken for the low one of the `int`, as it
-- is on machines with the low byte first. A socket path as long as `sun_path` or longer, which leaves no room for a terminator, is beyond the
-- theorems on clients.
pub mod Base
pub mod Memory
pub mod Field
pub mod Links
pub mod Packet
pub mod Serial
pub mod Service
pub mod Unsock
pub mod Server
pub mod Listener
pub mod Conf
pub mod Client
pub mod Thread
pub mod Nss
pub mod Stack
pub mod Tests
