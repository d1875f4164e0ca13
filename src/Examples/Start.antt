-- ===== src/Examples/Start.antt =====
-- A client that starts, with one file on its server.
use mathlib.Core.Option.{some-injective}
use trabalho_sistemas_operac.Prelude.{
  ◌≡◌, ◌∙◌, refl, ◌++◌, List, [], ◌∷◌, arith, inr, some, true, false, subst, All,
}
use trabalho_sistemas_operac.Examples.{line_with, line-IsReady, line, dial, ℕ}
use trabalho_sistemas_operac.Examples.App.{Disk, host, process, name-IsText}
use trabalho_sistemas_operac.Examples.Served.{session}
use trabalho_sistemas_operac.Node.{is_primary, state_init}
use trabalho_sistemas_operac.Net.Connection.{conn_new}
use trabalho_sistemas_operac.Net.Reader.{ReadResult, got}
use trabalho_sistemas_operac.Net.Reader.Stream.{pending, arriving}
use trabalho_sistemas_operac.Net.Reader.Word.{counted, little_endian}
use trabalho_sistemas_operac.Net.Writer.{init_writer}
use trabalho_sistemas_operac.Protocol.{status_success, status_empty}
use trabalho_sistemas_operac.Protocol.Wire.{packet}
use trabalho_sistemas_operac.Protocol.Request.{request_handshake}
use trabalho_sistemas_operac.Protocol.Answers.{IsWritable, descriptions, description}
use trabalho_sistemas_operac.Clients.{
  Client, new_client, client_new, can_connect, erase_invalid, invalid_from, count_clients,
  client_get_event, get_event,
}
use trabalho_sistemas_operac.Session.{Session, Netfs, client_handler_thread, take_event}
use trabalho_sistemas_operac.Session
use trabalho_sistemas_operac.Session.Spec.{success, stream}
use trabalho_sistemas_operac.Session.Sent.{IsReady}
use trabalho_sistemas_operac.Session.Rounds.{Lists}
use trabalho_sistemas_operac.Session.Loop.{Serves}
use trabalho_sistemas_operac.Queue.Order.{free}
use trabalho_sistemas_operac.App.{Process}
use trabalho_sistemas_operac.Network.{Thread, new_thread}
use trabalho_sistemas_operac.Network.Served.{greeting}
use trabalho_sistemas_operac.Start.{started, initial_sync}
use trabalho_sistemas_operac.Start.Downloads.{
  Downloads, initial_sync-refused, Stored, Sendable, listed, list_sent, contents_sent, saved,
  cleared,
}
use trabalho_sistemas_operac.Start.Served.{
  Holds, fetches, start_requests, initial_sync-client_handler_thread,
}

abbrev file : Stored
file = (record { filename = 102 ∷ []; mtime = 1; atime = 2; ctime = 3 }, 5 ∷ [])

file-Sendable : Sendable file
file-Sendable = (
  record {
    mtime_lt = omega arith;
    atime_lt = omega arith;
    ctime_lt = omega arith;
    name_text = name-IsText;
    name_lt = omega arith;
  },
  omega arith,
)

-- The answers, in pieces, and the requests.
abbrev told : List ReadResult
told =
    got success
    ∷ got (packet status_success (little_endian 8 1 ++ little_endian 8 1))
    ∷ got (little_endian 8 2 ++ little_endian 8 3)
    ∷ got (counted (102 ∷ []))
    ∷ got (packet status_empty [])
    ∷ got (packet status_success (counted (5 ∷ [])))
    ∷ got (packet status_empty [])
    ∷ []

abbrev asked : List ReadResult
asked =
    got (packet 0 (counted (117 ∷ []) ++ 0 ∷ []))
    ∷ got (packet 4 [] ++ packet 6 [])
    ∷ got (packet 1 (counted (102 ∷ [])) ++ packet 6 [])
    ∷ []

told-IsReady :
    IsReady (line told)
    × (pending (line told).reader ≡ success ++ (list_sent (file ∷ []) ++ contents_sent (file ∷ [])))
unfolding conn_new init_writer packet counted little_endian arriving list_sent contents_sent listed
    descriptions description
told-IsReady =
    let x = line-IsReady told (
      (omega arith, omega arith),
      (
        (omega arith, omega arith),
        (
          (omega arith, omega arith),
          (
            (omega arith, omega arith),
            (
              (omega arith, omega arith),
              ((omega arith, omega arith), ((omega arith, omega arith), tt)),
            ),
          ),
        ),
      ),
    ) in
    (x.0, x.1 ∙ refl)

abbrev calm : Process Disk
calm = record process { task_queue = free [] }

-- A file system in which every directory has that file.
abbrev fs : Netfs Disk
fs = record (host.netfs) {
  list_files = λ path disk. some (file.0 ∷ []);
  read_file = λ path disk. some (5 ∷ []);
}

fs-Lists : Lists fs
fs-Lists path disk files e =
    subst (λ l. All IsWritable l) (some-injective _ _ e) (file-Sendable.0, tt)

abbrev server : Session Disk
server = record session { conn = line asked }

server-Serves :
    Serves server
    × (pending server.conn.reader
        ≡ greeting (117 ∷ []) ++ (stream (start_requests (file ∷ [])) ++ []))
unfolding is_primary state_init conn_new init_writer packet counted little_endian greeting stream
    arriving fetches
server-Serves =
    let x = line-IsReady asked (
      (omega arith, omega arith),
      ((omega arith, omega arith), ((omega arith, omega arith), tt)),
    ) in
    (record { alone = inr (refl, (refl, tt)); ready = x.0; events = tt }, x.1 ∙ refl)

abbrev clients : List Client
clients = new_client (117 ∷ []) 1 3 false ∷ []

lets_in : client_new (λ sockfd. 0) (117 ∷ []) 1 3 false [] ≡ some (true, clients)
unfolding new_client client_new can_connect erase_invalid invalid_from count_clients
lets_in = refl

server-Holds : Holds fs (record { username = 117 ∷ []; connection_id = 1 }) [] clients (file ∷ [])
unfolding listed take_event new_client client_get_event get_event
server-Holds = record { lists = refl; reads = (refl, tt); quiet = refl }

initial_sync-client_handler_thread_example :
    (t' : Thread Disk) × (s' : Session Disk) × ((request_handshake (117 ∷ []) false (line told)).0
      ≡ some status_success)
    × (initial_sync host 1
          (new_thread host 9 calm (request_handshake (117 ∷ []) false (line told)).1)
        ≡ started t')
    × (t'.conn.writer.sent
        ≡ (line told).writer.sent ++ (greeting (117 ∷ []) ++ stream (start_requests (file ∷ []))))
    × (t'.process.disk ≡ saved host (117 ∷ []) (file ∷ []) (cleared host (117 ∷ []) process.disk))
    × (client_handler_thread dial fs 5 (λ sockfd. 0) server ≡ Session.turn false s')
    × (s'.conn.writer.sent
        ≡ server.conn.writer.sent
          ++ (success ++ (list_sent (file ∷ []) ++ contents_sent (file ∷ []))))
    × (s'.disk ≡ [])
unfolding listed fetches
initial_sync-client_handler_thread_example =
    initial_sync-client_handler_thread dial (λ sockfd. 0) host fs calm (file ∷ []) server clients
      (line told) 0 5 9 (refl, refl) server-Holds fs-Lists (server-Serves.0) lets_in
      ((λ e. ground (arith, e)), tt) (omega arith) (file-Sendable, tt) (omega arith)
      (told-IsReady.0) (told-IsReady.1) (server-Serves.1) (omega arith)

-- The list is refused.
abbrev refused : List ℕ
refused = packet 20 [] ++ packet status_empty []

refused-IsReady : IsReady (line_with refused) × (pending (line_with refused).reader ≡ refused)
unfolding packet little_endian arriving
refused-IsReady =
    let x = line-IsReady (got refused ∷ []) ((omega arith, omega arith), tt) in (x.0, x.1 ∙ refl)

abbrev alone : Thread Disk
alone = new_thread host 9 calm (line_with refused)

initial_sync-refused_example :
    (t' : Thread Disk) × (initial_sync host 1 alone ≡ started t')
    × Downloads host alone t' (cleared host (117 ∷ []) process.disk) (packet 4 [] ++ packet 6 []) []
unfolding packet little_endian
initial_sync-refused_example =
    initial_sync-refused host 0 20 alone []
      (record { ready = refused-IsReady.0; waiting = refl; finished = refl }) refl
      (refused-IsReady.1)
