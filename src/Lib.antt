-- ===== src/Lib.antt =====
-- vpverk is a VPN over TCP: a server that gives each client an address of 10.123.0.0/16 and routes
-- packets between a tunnel device and the clients, and a client that does the same for one machine.
-- A session opens with an exchange of an AES key under RSA, then the check of a login, then the
-- address; after that both ends pass packets, each behind its size, under AES in counter mode.
--
-- The parts, and the files that model them:
--   Address: `SessionsControl::getNewAddress` and the release of an address at the end of
--     `startConnection` (src/server/contexts/sessionscontrol.cpp). A pool is the counter and the set
--     of the addresses taken; each call runs under the mutex of the pool, so calls are a sequence.
--   Router: `emptyQueue` (same file) and `aq_route` (src/server/atomic_queue_type.hpp). Sessions push
--     requests to add or remove a route; one thread applies them to the map.
--   Net: `cvk_asio` (src/shared/asioapi.cpp). Tcp is the interface of a socket, Send and Read the
--     loops over partial transfers, Calls the mutex around a call, Wire a socket that meets the
--     interface.
--   Aes: `aig::AesSession` (src/shared/cvkaes.hpp) over an interface of the cipher, with Box a
--     cipher that meets it. Duplex is a pair of sessions that sends both ways at once, Contexts the
--     objects that own the contexts of OpenSSL.
--   Rsa: `aig::RsaKey` (src/shared/cvkrsa.hpp) over what OpenSSL answers for a key.
--   Connection: `Connection` (src/server/connection.hpp, src/server/connection.cpp). The record holds
--     the flag `closed`, both locks and the socket; Close treats `close`, Locks the locks as a step
--     relation over any number of coroutines.
--   Settings: `Settings` and `SettingsSnapshot` (src/server/contexts/settings.cpp,
--     src/server/types/settingssnapshot.hpp), and the binary search of `authenticateUser`.
--   Session: `exchangeAESkey`, `authenticateUser` and `sendIp`
--     (src/server/contexts/sessionscontrol.cpp), and the key material and first message of `startAsync`
--     (src/client/async.cpp). It uses Net, Aes, Rsa, Connection and Settings through their operations.
--   Traffic: `performDataExchange` (src/server/contexts/sessionscontrol.cpp), with the tunnel as the
--     list of packets written to it, and the buffer that `startTunRead` (src/client/async.cpp) fills.
--   Forward and Dispatch: `routeTunToClients` (src/server/contexts/sessionscontrol.cpp). Forward is
--     a round up to the peer that a packet goes to; it runs `emptyQueue` of Router first. Dispatch
--     is the loop, the write lock of the peer with the rounds that run while it is held, and the
--     send or the close.
--   Lifecycle: `startConnection` (src/server/contexts/sessionscontrol.cpp). It runs Session,
--     Address and Traffic, pushes the requests that Router applies, and keeps a trace of what it
--     takes and gives back.
--   Sessions: any number of sessions of `startConnection` and the loop of `routeTunToClients`, by their
--     accesses to the pool of Address, the queue and the router of Router. Delivery adds the packet of
--     Forward.
--   Accept: `acceptConnection` (same file), with the sessions and sweeps that it starts.
--   Sweep: `closeOldSessions` (same file), over a table of connections.
--   Tun: `Tun` (src/shared/tun.hpp, src/shared/tun.cpp), as steps of any number of coroutines.
--     Descriptor is its constructor and destructor, Lock the objects that hold its flags, and Turns
--     what a coroutine does in one turn of the event loop.
--   Loop: the posting and resuming of coroutines on a thread and `co_await` of a future
--     (src/shared/other_coroutinethings.hpp), and coroutines that nobody awaits
--     (src/shared/coroutinesthings.hpp), with those of the program that are so. The order in which
--     the loop calls the handlers is an argument.
--   Schedule: systems of coroutines that take steps in turn, shared by Tun, Sessions and the locks of
--     Connection, and the change of one place of a function.
--   Log: the queue of messages with its worker, `stop` and the exit (src/shared/log/impl.hpp,
--     src/shared/log/logger.hpp), and the text of a message (src/shared/log/write.cpp). It keeps
--     the streams in a FlatMap.
--   Startup: `main` of the server (src/server/main.cpp) and `onAsyncStart` of the contexts. It reads
--     Settings. Contexts is the start of the threads of the contexts, with the checks of Threads;
--     Control is `asyncStart` of SessionsControl, which opens the tunnel of Tun and sets up the host of
--     Client.
--   Threads: the checks of threads of a debug build (src/shared/threadchecking.hpp).
--   Client: `read_block_size`, `startTunRead` and `startSocketRead` (src/client/async.cpp); Start
--     is `startAsync`, Host `setupTun` of both ends and `restore_network` (src/client/main.cpp).
--     Main is `main` of the client with the handler of the signals. Login and Address put the
--     client's end against the server's.
--   Pointers: objects that own what they point to, shared by Aes and Tun.
--   FlatMap: `cvk::flat_map` (src/shared/flat_map.hpp), with numbers as keys.
--   Base and Effect: numbers, lists and options; ways in which a call ends.
--
-- State is passed explicitly. A call ends by a value, by an exception, by `cuabort`, or, where it has
-- a loop, by fuel that ran out; what was written before a throw stays written.
--
-- Fuel. `allot` has a round of the 65533 host parts. `send` and `read_some` have one step more than
-- there are bytes to move, since every transfer that succeeds moves at least one. The drain of
-- `close` has one step more than there are bytes available. `retry` has three rounds more than
-- there are requests kept, and its for loop `pass` one step more than there are, which is enough
-- below 2 ^ 32 requests, where the counter of 32 bits reaches their number; a search of the logins,
-- or of a flat map, one step more than there are entries. `performDataExchange` loops until an
-- error, so it runs for a number of rounds. The spin on the write lock in `close`, and the one on a
-- full queue at the end of a session, have as many rounds as the caller gives; between two rounds
-- `yield` or `meanwhile` stands for what others do to the connection or to what is shared. The
-- sweep has one round more than there are connections. The rounds of `routeTunToClients` and of a
-- client's loop are as many as the caller gives.
--
-- Bytes are natural numbers, a buffer is a list of them, and counters of 16, 32 and 64 bits wrap. An
-- out buffer is given by its size, and what is written to it is a result. What a buffer holds behind
-- a packet that was read into it is an argument of Forward.
--
-- The checks of the bytes of an address and of a packet, which the code makes with a `cuabort` at the
-- end, are parameters of Address, Lifecycle, Sessions and Forward: the theorems hold for every check,
-- and say what comes of one that lets pass. `probe` and `probe_packet` are those of the code, which
-- never do. The asserts are those of a build without NDEBUG.
--
-- Not under the sources, and arguments here: asio's sockets and the file descriptor of the tunnel,
-- as far as the operations use them, OpenSSL, the JSON library, the lock-free queue, and the
-- commands of the host. Not modelled: statistics, which the sources leave empty, the parser of the
-- command line, which is a copy of another library, the path of the program, which the system
-- gives, and how a coroutine learns its own handle. The handler of the peek in `read_block_size`
-- resumes a coroutine that may wait elsewhere by then: the peek is modelled by what its start
-- leaves in the buffer, and that late resume is not. What the parser, the store of the contexts,
-- the library of futures and the event loops give are arguments. The debug traps of the macro
-- `breakpoint` are taken as left at once.
pub mod Base
pub mod Effect
pub mod Address
pub mod Router
pub mod Net
pub mod Aes
pub mod Rsa
pub mod Connection
pub mod Settings
pub mod Session
pub mod FlatMap
pub mod Traffic
pub mod Forward
pub mod Schedule
pub mod Pointers
pub mod Tun
pub mod Lifecycle
pub mod Sweep
pub mod Client
pub mod Dispatch
pub mod Threads
pub mod Accept
pub mod Log
pub mod Sessions
pub mod Startup
pub mod Loop
