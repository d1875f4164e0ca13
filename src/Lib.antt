-- ===== src/Lib.antt =====
-- A file synchronisation service: servers in a ring, of which one is primary, a name server that
-- knows the primary one, and clients.
--
-- The parts, and the files that model them:
-- - Net.Reader (server/src/reader.cpp): `tcp_reader` is `Reader`, with its two buffers. The socket is
--   the list of what its next calls of read(2) return, and fails when the list has ended. Each
--   `read_*` is the function of the same name in `Exec Reader`: `none` is `return false`, and the
--   state is kept either way. Net.Reader.Stream, Word and Short say what the reads take.
-- - Net.Writer (server/src/writer.cpp): `tcp_writer` is `Writer`. The socket is the list of what its
--   next calls of send(2) do, and the bytes that it has accepted.
-- - Net.Connection (server/src/connection.cpp): `connection_t`, `conn_new`; Talk has the rules by
--   which the exchanges of the other modules are followed.
-- - Protocol (server/src/protocol.cpp): the packets between clients and servers. Protocol has the
--   server's side, Protocol.Request the `request_*` functions.
-- - Clients (server/src/client.cpp): the list of connected clients, and the events that wait for
--   them. What `getsockopt` reports is an argument, a function of the socket.
-- - Node (server/src/state.cpp): the state of a server, its locks, `comp` and `server_eq`. A call
--   returns, exits, reads through a null pointer or waits for a lock that is taken.
-- - Election (server/src/election.cpp): the messages of an election, `getNextServer`, both handlers,
--   and a round of the listener. Order, Ring, Walk and Winner are on the whole ring, Handlers,
--   Repeat and Start on one server.
-- - Coms (server/src/coms.cpp): Client has `_coms_sync_execute_request`, Server `coms_handle_request`
--   with every case, and the deferred requests; Fetch, Answer, Register and Deferred are on these.
--   Listener has the loops of a connection (`coms_handle_connection`) and of the listener
--   (`coms_listener_thread`); Ends and Rounds are on their ends, Leak on a lock that stays taken.
-- - Dns (dns/src/dns.cpp, dns/src/state.cpp): the name server.
-- - Session (server/src/server.cpp): the thread of a client, `client_handler_thread`, with a record of
--   its variables, and a primary server's requests to the backup servers. Spec is what a client may
--   expect, with no wire; Sent, Rounds, Loop and Thread lead from one answer to the whole thread, Calm
--   and Halts to its end, Letters, Passing and Replicas to the backup servers, and Store joins the
--   session with the files.
-- - Files (server/src/file_manager.cpp): `netfs`, over a file system that is a parameter (`Os`).
-- - Startup (server/src/main.cpp): `check_port`, `primary_init` and `backup_init`, with the requests of
--   a new backup server in Requests.
-- - Heartbeat (server/src/heartbeat.cpp): a connection of the listener (`heartbeat_listen`), and a round
--   of the thread that beats (`heartbeat_round`), for a number of beats that is an argument; its bytes
--   in Beats.
-- - App (client/src/app.cpp): the state that the threads of a client share (`Process`), what the
--   directory, the network and the command line do to it, and the `network_task_t` of
--   client/src/network.cpp. Watch (client/src/fs_notify.cpp) has the events of inotify; Known and
--   Padded say which changes are uploaded.
-- - Network (client/src/network.cpp, client/src/protocol.cpp): the network thread of a client, its
--   tasks, its updates and its search for the primary server. Answers is on the tasks, Halts and Ends
--   on the end of its loops, Dns on the name server, Updates and Deadlock on the updates,
--   and Upload and Served on a client and its server together.
-- - Start (client/src/main.cpp): what the main thread of a client does before its command line.
--   Waiting has a round of the network thread for a task, Downloads the whole start, Served a client
--   and its server together.
-- - Queue (client/include/async_queue.h): the queue between the threads of a client. Order has the calls
--   on a list of tasks, Wait the rounds of `pop_by_id`.
-- - Examples: concrete connections, servers and clients on which the theorems are applied.
--
-- Protocol, Election, Coms and Dns use the reader and the writer through Net.Connection. Election
-- uses Coms.Client to fetch the metadata of the elected server, and its `tell_dns` sends the message
-- that Dns takes as an update.
--
-- Bytes and the members of the C++ types are native numbers, and where a function needs a number to
-- fit its type the theorem says so; ports are taken modulo 2 ^ 16 where they are dialled. Strings and
-- arrays are lists of bytes. The loop of a client's thread has fuel, one unit for a round; a round
-- that goes on takes a byte from the client, so that one more than the bytes to come is enough; the
-- same holds of the inner loop of a client's network thread and the bytes of its server, and of the
-- loop of a connection between servers. A wait of the start has fuel for rounds of the network
-- thread, of which one is enough where the task is done in it. All other loops recurse on the results
-- of the system, on lists, or on the number of rounds left.
-- `RSIZE` and `WSIZE` are 32, as in the source.
--
-- `connect(2)` is a parameter (`Dial`), which gives a connection or a failure. Writes of the log are
-- left out. A function that runs under a lock is one step.
--
-- `Netfs` is the interface between the threads and files: Session and App take it, `netfs` of
-- Session.Store gives it, for a file system on which the calls return. A theorem on a thread that has
-- a `Netfs` says nothing of a disk on which `write_file` or `read_file` goes on for ever, as the one
-- of Files.Progress.
--
-- The calls of a socket in a model come to a failure in the end, with an errno other than EAGAIN.
-- A peer that keeps its connection open and silent, for which read(2) waits for ever, is in no theorem,
-- nor is an end of the stream on which `fill_buffer` goes round for ever, with EAGAIN in errno from an
-- earlier call. Memory is taken to be there for every length that is announced.
--
-- Not modelled: silent peers, disks on which a call goes on for ever and memory that cannot be had, as
-- above; the threads that a process starts, the setup of listening sockets and of inotify, the
-- command line of the client, and its table printer, which is a library's copy.
pub mod Prelude
pub mod Net
pub mod Protocol
pub mod Clients
pub mod Node
pub mod Coms
pub mod Election
pub mod Dns
pub mod Session
pub mod Start
pub mod Files
pub mod Startup
pub mod App
pub mod Network
pub mod Queue
pub mod Heartbeat
pub mod Examples
