-- ===== src/Network/Served.antt =====
-- The network thread of a client and the thread of the server that serves it
-- (client/src/network.cpp, server/src/server.cpp).
use trabalho_sistemas_operac.Prelude.{
  ℕ, ◌≡◌, ◌∙◌, ◌==◌, ==_self, refl, ap, Bool, Bool-cases, inl, inr, true, false, Option, none, some,
  List, [], ◌∷◌, ◌++◌, All, bytes_eq, bytes_eq_self, if◌then◌else◌, sym, append-nil, length, ◌<◌,
  ◌^◌, append_assoc,
}
use trabalho_sistemas_operac.Net.Reader.Word.{counted}
use trabalho_sistemas_operac.Protocol.{FileEvent, status_success}
use trabalho_sistemas_operac.Protocol.Wire.{packet, request_handshake-Delivers}
use trabalho_sistemas_operac.Protocol.Answers.{event_bytes}
use trabalho_sistemas_operac.Protocol.Parse.{Request, upload, update, download}
use trabalho_sistemas_operac.Clients.{
  Client, broadcast, new_client, client_new, client_get_event, get_event,
  client_broadcast_file_modified,
}
use trabalho_sistemas_operac.Session.{
  Session, Netfs, file_path, mkdir_command, take_event, client_handler_thread,
}
use trabalho_sistemas_operac.Session.Spec.{answers_to, answer_to, stream, success}
use trabalho_sistemas_operac.Session.Rounds.{Lists}
use trabalho_sistemas_operac.Session.Loop.{Serves}
use trabalho_sistemas_operac.Session.Store.{Keeps}
use trabalho_sistemas_operac.Session.Thread.{answers_after, client_handler_thread-refines}
use trabalho_sistemas_operac.Network
use trabalho_sistemas_operac.Network.{Thread, network_round, new_thread, request_handshake}
use trabalho_sistemas_operac.App.{Task, Process, Host}
use trabalho_sistemas_operac.Coms.Client.{Dial}
use trabalho_sistemas_operac.Net.Connection.{Connection}
use trabalho_sistemas_operac.Queue.Order.{free}
use trabalho_sistemas_operac.Session
use trabalho_sistemas_operac.Network.Updates.{modified, questions, Delivers-Exchanged}
use trabalho_sistemas_operac.Network.Upload.{Uploads, network_round-uploads}
use trabalho_sistemas_operac.Net.Writer.Word.{IsText}
use trabalho_sistemas_operac.Session.Sent.{IsReady}
use trabalho_sistemas_operac.Net.Reader.Stream.{pending}

-- A server whose own client is told of a change.
module _ (username : List ℕ) (event : FileEvent) (connection_id sockfd : ℕ) where
  take_event-broadcast :
      (kept : List Client)
      → All (λ c. (c.connection_id == connection_id) ≡ false) kept
      → (take_event connection_id (
          broadcast username event (kept ++ new_client username connection_id sockfd false ∷ []))).0
        ≡ some event
  unfolding take_event broadcast new_client client_get_event get_event
  take_event-broadcast [] h =
      let first : Client = new_client username connection_id sockfd false in
      let told : Bool → Option FileEvent = λ b.
        (take_event connection_id
          ((if b then record first { pending_events = event ∷ [] } else first) ∷ [])).0 in
      let picked : Bool → Option FileEvent × List Client = λ b.
        if b
        then (some event, record first { pending_events = [] } ∷ [])
        else (none, record first { pending_events = event ∷ [] } ∷ []) in
      ap told (bytes_eq_self username) ∙ ap (λ b. (picked b).0) (==_self connection_id)
  take_event-broadcast (c ∷ kept) h = elim (Bool-cases (bytes_eq c.username username)) [
    | inl e ↦ rw (e, h.0) (take_event-broadcast kept h.1)
    | inr e ↦ rw (e, h.0) (take_event-broadcast kept h.1)
  ]

module _ {E : Type 0} (fs : Netfs E) (so_error : ℕ → ℕ) where
  -- A server that lets the client in, on a connection of which no other client has the id, and can
  -- store the file.
  pub record Receives (s : Session E) (username filename file : List ℕ) (kept : List Client)
      (remote : E) : Type 0 where
    pub lists : Lists fs
    pub keeps : Keeps fs
    pub serves : Serves s
    pub lets_in :
        client_new so_error username s.connection_id s.sockfd false s.clients
        ≡ some (true, kept ++ new_client username s.connection_id s.sockfd false ∷ [])
    pub others : All (λ c. (c.connection_id == s.connection_id) ≡ false) kept
    pub stores :
        fs.write_file (file_path username filename) file (fs.system (mkdir_command username) s.disk)
        ≡ (true, remote)

-- What a client with a file to upload asks of its server, and what the server answers.
abbrev pub requests : List ℕ → List ℕ → List Request
requests filename file = upload filename file ∷ update ∷ download filename ∷ []

unfoldable pub answers : List ℕ → List ℕ → List ℕ
answers filename file =
    packet status_success []
    ++ (packet status_success (event_bytes (modified filename))
        ++ (packet status_success (counted file) ++ []))

unfoldable pub greeting : List ℕ → List ℕ
greeting username = packet 0 (counted username ++ 0 ∷ [])

answers_after_lem :
    {E : Type 0} (fs : Netfs E) (so_error : ℕ → ℕ) (s : Session E) (username filename file : List ℕ)
    (kept : List Client) (remote : E)
    → Receives fs so_error s username filename file kept remote
    → (answers_after fs s username
        (kept ++ new_client username s.connection_id s.sockfd false ∷ [])
        (requests filename file)).bytes
      ≡ answers filename file
unfolding answers_to answer_to answers client_broadcast_file_modified
answers_after_lem fs so_error s username filename file kept remote h = rw (h.stores) (
    rw
      (
        take_event-broadcast username (modified filename) s.connection_id s.sockfd kept h.others,
        h.keeps _ _ _ _ h.stores,
      )
      refl)

answers_after_disk :
    {E : Type 0} (fs : Netfs E) (so_error : ℕ → ℕ) (s : Session E) (username filename file : List ℕ)
    (kept : List Client) (remote : E)
    → Receives fs so_error s username filename file kept remote
    → (answers_after fs s username
        (kept ++ new_client username s.connection_id s.sockfd false ∷ [])
        (requests filename file)).disk
      ≡ remote
unfolding answers_to answer_to
answers_after_disk fs so_error s username filename file kept remote h = rw (h.stores) refl

requests-stream :
    (filename file : List ℕ)
    → packet 2 (counted filename ++ counted file) ++ questions filename
      ≡ stream (requests filename file)
unfolding stream questions
requests-stream filename file =
    ap (λ bs. packet 2 (counted filename ++ counted file) ++ (packet 6 [] ++ bs))
      (sym (append-nil (packet 1 (counted filename))))

module _ {D E : Type 0} (dial : Dial) (so_error : ℕ → ℕ) (host : Host D) (fs : Netfs E) where
  -- A client with an upload task in front, and a server that passes no request on, lets the client
  -- in and can store the file, each on an open connection with nothing left to send, where the
  -- names have no 0 in them and all lengths fit: if what is pending for the client is the success
  -- of the handshake and then the three answers, and what is pending for the server is the
  -- handshake and the three requests, then the client's handshake succeeds and its next round sends
  -- exactly the bytes pending for the server, and the server's thread returns and sends exactly the
  -- bytes pending for the client; the task is finished with success, the file is on the server's
  -- disk, and the event that the server sends back to the same client has it write the file to its
  -- own directory.
  pub network_round-client_handler_thread :
      (p : Process D) (task : Task) (tasks finished : List (ℕ × Task)) (file : List ℕ) (local : D)
      (s : Session E) (kept : List Client) (remote : E) (c : Connection) (fuel memory : ℕ)
      → Uploads host p task tasks finished file local
      → Receives fs so_error s p.username task.filename file kept remote
      → IsText p.username
      → length p.username < 2 ^ 64
      → IsText task.filename
      → length task.filename < 2 ^ 64
      → length file < 2 ^ 64
      → IsReady c
      → pending c.reader ≡ success ++ answers task.filename file
      → pending s.conn.reader ≡ greeting p.username ++ (stream (requests task.filename file) ++ [])
      → 3 < fuel
      → (t' : Thread D) × (s' : Session E) × ((request_handshake p.username false c).0
          ≡ some status_success)
        × (network_round host (new_thread host memory p (request_handshake p.username false c).1)
            ≡ Network.turn true t')
        × (t'.conn.writer.sent
            ≡ c.writer.sent ++ (greeting p.username ++ stream (requests task.filename file)))
        × (t'.process.done_queue
            ≡ free (finished ++ (task.task_id, record task { success = true }) ∷ []))
        × (t'.process.disk ≡ local)
        × (client_handler_thread dial fs fuel so_error s ≡ Session.turn false s')
        × (s'.conn.writer.sent ≡ s.conn.writer.sent ++ (success ++ answers task.filename file))
        × (s'.disk ≡ remote)
  unfolding greeting answers
  network_round-client_handler_thread p task tasks finished file local s kept remote c fuel memory u
        r user_text user_fits text fits small ready told asked enough =
      let (hello, x) =
        Delivers-Exchanged c (answers task.filename file)
          (request_handshake-Delivers p.username false status_success user_text) ready told in
      let thread : Thread D = new_thread host memory p (request_handshake p.username false c).1 in
      let (t', round, process, left_over, sent) =
        network_round-uploads host thread task tasks finished file local u [] text fits small
          x.ready x.reads in
      let (s', served, answered) =
        client_handler_thread-refines dial fs so_error s p.username false
          (kept ++ new_client p.username s.connection_id s.sockfd false ∷ [])
          (requests task.filename file) [] fuel r.lists r.serves user_fits r.lets_in
          ((((fits, small), text), ((tt, tt), ((fits, text), tt)))) asked (inr refl) enough in
      (
        t',
        s',
        hello,
        round,
        sent
            ∙ ap
                (λ bs.
                  bs
                  ++ (packet 2 (counted task.filename ++ counted file) ++ questions task.filename))
                x.sent
            ∙ append_assoc c.writer.sent (greeting p.username) _
            ∙ ap (λ bs. c.writer.sent ++ (greeting p.username ++ bs))
                (requests-stream task.filename file),
        ap (λ q. q.done_queue) process,
        ap (λ q. q.disk) process,
        served,
        answered.sent
            ∙ ap (λ bs. s.conn.writer.sent ++ (success ++ bs))
                (answers_after_lem fs so_error s p.username task.filename file kept remote r),
        answered.disk
            ∙ answers_after_disk fs so_error s p.username task.filename file kept remote r,
      )
