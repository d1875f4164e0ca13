-- ===== src/Examples/Served.antt =====
-- A client that uploads a file to a primary server without backup servers.
use trabalho_sistemas_operac.Prelude.{
  ◌≡◌, ◌∙◌, refl, inr, true, false, some, List, [], ◌∷◌, ◌++◌, arith, bytes_eq,
}
use trabalho_sistemas_operac.Examples.{line-IsReady, line, dial}
use trabalho_sistemas_operac.Examples.App.{
  Disk, host, host-Rereads, contents, waiting, process, name-IsText,
}
use trabalho_sistemas_operac.Node.{primary, is_primary, state_init}
use trabalho_sistemas_operac.Net.Connection.{conn_new}
use trabalho_sistemas_operac.Net.Reader.{ReadResult, got, unset}
use trabalho_sistemas_operac.Net.Reader.Stream.{pending, arriving}
use trabalho_sistemas_operac.Net.Reader.Word.{counted, little_endian}
use trabalho_sistemas_operac.Net.Writer.{init_writer}
use trabalho_sistemas_operac.Protocol.{status_success}
use trabalho_sistemas_operac.Protocol.Wire.{packet}
use trabalho_sistemas_operac.Protocol.Answers.{event_bytes}
use trabalho_sistemas_operac.Protocol.Request.{request_handshake}
use trabalho_sistemas_operac.Clients.{
  new_client, client_new, can_connect, erase_invalid, invalid_from, count_clients,
}
use trabalho_sistemas_operac.Session.{Session, client_handler_thread}
use trabalho_sistemas_operac.Session
use trabalho_sistemas_operac.Session.Spec.{success, stream}
use trabalho_sistemas_operac.Session.Sent.{IsReady}
use trabalho_sistemas_operac.Session.Loop.{Serves}
use trabalho_sistemas_operac.Queue.Order.{free}
use trabalho_sistemas_operac.App.{lookup, c_str}
use trabalho_sistemas_operac.Network
use trabalho_sistemas_operac.Network.{Thread, network_round, new_thread}
use trabalho_sistemas_operac.Network.Upload.{Uploads}
use trabalho_sistemas_operac.Network.Served.{
  Receives, requests, answers, greeting, network_round-client_handler_thread,
}

-- What the server sends, and what the client sends.
abbrev told : List ReadResult
told = got success ∷ got (answers (102 ∷ []) (5 ∷ [])) ∷ []

abbrev asked : List ReadResult
asked =
    got (packet 0 (counted (117 ∷ []) ++ 0 ∷ []))
    ∷ got (packet 2 (counted (102 ∷ []) ++ counted (5 ∷ [])))
    ∷ got (packet 6 [] ++ packet 1 (counted (102 ∷ [])))
    ∷ []

told-IsReady :
    IsReady (line told) × (pending (line told).reader ≡ success ++ answers (102 ∷ []) (5 ∷ []))
unfolding conn_new init_writer packet counted little_endian answers event_bytes arriving
told-IsReady =
    let x = line-IsReady told ((omega arith, omega arith), ((omega arith, omega arith), tt)) in
    (x.0, x.1 ∙ refl)

abbrev pub session : Session Disk
session = record {
  node = state_init 17 4010 primary 5 2000;
  clients = [];
  disk = [];
  conn = line asked;
  connection_id = 1;
  sockfd = 3;
  username = [];
  packet = record {
    header = record { protocol_version = 0; packet_type = 0 };
    filename = [];
    array = record { length = 0; bytes = unset };
  };
  status = 0;
}

session-Serves :
    Serves session
    × (pending session.conn.reader
        ≡ greeting (117 ∷ []) ++ (stream (requests (102 ∷ []) (5 ∷ [])) ++ []))
unfolding is_primary state_init conn_new init_writer packet counted little_endian greeting stream
    arriving
session-Serves =
    let x = line-IsReady asked (
      (omega arith, omega arith),
      ((omega arith, omega arith), ((omega arith, omega arith), tt)),
    ) in
    (record { alone = inr (refl, (refl, tt)); ready = x.0; events = tt }, x.1 ∙ refl)

process-Uploads :
    Uploads host process waiting [] [] (5 ∷ []) ((100 ∷ 47 ∷ 102 ∷ [], 5 ∷ []) ∷ process.disk)
unfolding lookup c_str contents bytes_eq
process-Uploads = record {
  type = refl;
  waiting = refl;
  answered_before = refl;
  mutex = refl;
  contents = refl;
  news = refl;
  written = refl;
}

abbrev stored : Disk
stored = (host.netfs.write_file (Session.file_path (117 ∷ []) (102 ∷ [])) (5 ∷ []) []).1

session-Receives :
    Receives host.netfs (λ sockfd. 0) session (117 ∷ []) (102 ∷ []) (5 ∷ []) [] stored
unfolding new_client client_new can_connect erase_invalid invalid_from count_clients
session-Receives = record {
  lists = λ path disk files e. cc;
  keeps = host-Rereads;
  serves = session-Serves.0;
  lets_in = refl;
  others = tt;
  stores = refl;
}

network_round-client_handler_thread_example :
    (t' : Thread Disk) × (s' : Session Disk) × ((request_handshake (117 ∷ []) false (line told)).0
      ≡ some status_success)
    × (network_round host
          (new_thread host 9 process (request_handshake (117 ∷ []) false (line told)).1)
        ≡ Network.turn true t')
    × (t'.conn.writer.sent
        ≡ (line told).writer.sent ++ (greeting (117 ∷ []) ++ stream (requests (102 ∷ []) (5 ∷ []))))
    × (t'.process.done_queue ≡ free ((0, record waiting { success = true }) ∷ []))
    × (t'.process.disk ≡ (100 ∷ 47 ∷ 102 ∷ [], 5 ∷ []) ∷ process.disk)
    × (client_handler_thread dial host.netfs 4 (λ sockfd. 0) session ≡ Session.turn false s')
    × (s'.conn.writer.sent ≡ session.conn.writer.sent ++ (success ++ answers (102 ∷ []) (5 ∷ [])))
    × (s'.disk ≡ stored)
network_round-client_handler_thread_example =
    network_round-client_handler_thread dial (λ sockfd. 0) host host.netfs process waiting [] []
      (5 ∷ []) ((100 ∷ 47 ∷ 102 ∷ [], 5 ∷ []) ∷ process.disk) session [] stored (line told) 4 9
      process-Uploads session-Receives ((λ e. ground (arith, e)), tt) (omega arith) name-IsText
      (omega arith) (omega arith) (told-IsReady.0) (told-IsReady.1) (session-Serves.1) (omega arith)
