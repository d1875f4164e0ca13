-- ===== src/Start/Served.antt =====
-- A client that starts and the thread of the server that serves it (client/src/main.cpp,
-- client/src/network.cpp, server/src/server.cpp).
use trabalho_sistemas_operac.Prelude.{
  ℕ, suc, ◌≡◌, ◌∙◌, refl, ap, sym, inr, true, false, none, some, List, [], ◌∷◌, ◌++◌, All, length,
  ◌<◌, ◌^◌, append_assoc, append-nil,
}
use trabalho_sistemas_operac.Session.Sent.{IsReady}
use trabalho_sistemas_operac.Net.Reader.Stream.{pending}
use trabalho_sistemas_operac.Protocol.Wire.{request_handshake-Delivers, packet}
use trabalho_sistemas_operac.Protocol.Request.{request_handshake}
use trabalho_sistemas_operac.Protocol.{status_success}
use trabalho_sistemas_operac.Net.Connection.{Connection}
use trabalho_sistemas_operac.Net.Writer.Word.{IsText}
use trabalho_sistemas_operac.Coms.Client.{Dial}
use trabalho_sistemas_operac.Session.{
  client_handler_thread, Netfs, client_dir, file_path, take_event, Session, mkdir_command,
}
use trabalho_sistemas_operac.Session
use trabalho_sistemas_operac.Session.Spec.{success, Asker, answers_to, answer_to, stream, IsProper}
use trabalho_sistemas_operac.Session.Rounds.{Lists}
use trabalho_sistemas_operac.Session.Loop.{Serves}
use trabalho_sistemas_operac.Session.Thread.{client_handler_thread-refines}
use trabalho_sistemas_operac.Queue.Order.{free}
use trabalho_sistemas_operac.App.{Process, Host}
use trabalho_sistemas_operac.Network.{new_thread, Thread}
use trabalho_sistemas_operac.Network.Served.{greeting}
use trabalho_sistemas_operac.Network.Updates.{Delivers-Exchanged}
use trabalho_sistemas_operac.Start.{started, initial_sync}
use trabalho_sistemas_operac.Start.Downloads.{
  saved, cleared, initial_sync-Downloads, Stored, Sendable, listed, list_sent, contents_sent,
  downloads_asked,
}
use trabalho_sistemas_operac.Net.Reader.Word.{counted}
use trabalho_sistemas_operac.Protocol.Parse.{Request, list_files, update, download}
use trabalho_sistemas_operac.Clients.{Client, client_new}

-- What the client asks for behind the list.
unfoldable pub fetches : List Stored → List Request
fetches [] = []
fetches (f ∷ files) = download f.0.filename ∷ update ∷ fetches files

abbrev pub start_requests : List Stored → List Request
start_requests files = list_files ∷ update ∷ fetches files

fetches-stream : (files : List Stored) → stream (fetches files) ≡ downloads_asked files
unfolding fetches stream downloads_asked
fetches-stream [] = refl
fetches-stream (f ∷ files) =
    ap (λ bs. packet 1 (counted f.0.filename) ++ (packet 6 [] ++ bs)) (fetches-stream files)

fetches-IsProper : (files : List Stored) → All Sendable files → All IsProper (fetches files)
unfolding fetches
fetches-IsProper [] h = tt
fetches-IsProper (f ∷ files) h =
    ((h.0.0.name_lt, h.0.0.name_text), ((tt, tt), fetches-IsProper files h.1))

-- The server has these files of the user in its directory, and no event for the client.
pub record Holds {E : Type 0} (fs : Netfs E) (who : Asker) (disk : E) (clients : List Client)
    (files : List Stored) : Type 0 where
  pub lists : fs.list_files (client_dir who.username) disk ≡ some (listed files)
  pub reads : All (λ f. fs.read_file (file_path who.username f.0.filename) disk ≡ some f.1) files
  pub quiet : take_event who.connection_id clients ≡ (none, clients)

module _ {E : Type 0} (fs : Netfs E) (who : Asker) (disk : E) (clients : List Client)
    (quiet : take_event who.connection_id clients ≡ (none, clients)) where
  fetches-answers :
      (files : List Stored)
      → All (λ f. fs.read_file (file_path who.username f.0.filename) disk ≡ some f.1) files
      → answers_to fs who (fetches files) disk clients
        ≡ record { bytes = contents_sent files; disk = disk; clients = clients; going = true }
  unfolding answers_to answer_to fetches contents_sent
  fetches-answers [] h = refl
  fetches-answers (f ∷ files) h = rw (h.0, quiet) (rw (fetches-answers files h.1) refl)

answers_lem :
    {E : Type 0} (fs : Netfs E) (who : Asker) (disk : E) (clients : List Client)
    (files : List Stored)
    → Holds fs who disk clients files
    → answers_to fs who (start_requests files) disk clients ≡ record {
      bytes = list_sent files ++ contents_sent files;
      disk = disk;
      clients = clients;
      going = true;
    }
unfolding answers_to answer_to list_sent
answers_lem fs who disk clients files h =
    rw (h.lists, h.quiet)
      (rw (fetches-answers fs who disk clients h.quiet files h.reads) (
        ap (λ bs. record { bytes = bs; disk = disk; clients = clients; going = true })
          (sym (append_assoc _ _ (contents_sent files)))))

-- No task waits, and none is finished, before the thread has its connection.
abbrev pub IsFresh : {D : Type 0} → Process D → Type 0
IsFresh p = (p.task_queue ≡ free []) × (p.done_queue ≡ free [])

module _ {D E : Type 0} (dial : Dial) (so_error : ℕ → ℕ) (host : Host D) (fs : Netfs E) where
  -- A client with no task waiting or finished, and a server that passes no request on, lets the
  -- client in, has no event for it and has some files of the user in its directory, each on an open
  -- connection with nothing left to send, where the user name has no 0 in it, the descriptions of
  -- the files fit on the wire and all lengths fit: if what is pending for the client is the success
  -- of the handshake, the list and the contents of the files, and what is pending for the server is
  -- the handshake and the requests for these, then the client's handshake succeeds, its start goes
  -- on to the command line with a round for each wait and sends exactly the bytes pending for the
  -- server, and the server's thread returns and sends exactly the bytes pending for the client; the
  -- client has written each file, whose list and contents are the server's, under its name behind
  -- the two shell commands, and the server's disk is as after its own shell command.
  pub initial_sync-client_handler_thread :
      (p : Process D) (files : List Stored) (s : Session E) (clients : List Client) (c : Connection)
      (rounds fuel memory : ℕ)
      → let who : Asker = record { username = p.username; connection_id = s.connection_id } in
        let disk = fs.system (mkdir_command p.username) s.disk in
        IsFresh p
        → Holds fs who disk clients files
        → Lists fs
        → Serves s
        → client_new so_error p.username s.connection_id s.sockfd false s.clients
          ≡ some (true, clients)
        → IsText p.username
        → length p.username < 2 ^ 64
        → All Sendable files
        → length (listed files) < 2 ^ 64
        → IsReady c
        → pending c.reader ≡ success ++ (list_sent files ++ contents_sent files)
        → pending s.conn.reader ≡ greeting p.username ++ (stream (start_requests files) ++ [])
        → length (start_requests files) < fuel
        → (t' : Thread D) × (s' : Session E) × ((request_handshake p.username false c).0
            ≡ some status_success)
          × (initial_sync host
                (suc rounds)
                (new_thread host memory p (request_handshake p.username false c).1)
              ≡ started t')
          × (t'.conn.writer.sent
              ≡ c.writer.sent ++ (greeting p.username ++ stream (start_requests files)))
          × (t'.process.disk ≡ saved host p.username files (cleared host p.username p.disk))
          × (client_handler_thread dial fs fuel so_error s ≡ Session.turn false s')
          × (s'.conn.writer.sent
              ≡ s.conn.writer.sent ++ (success ++ (list_sent files ++ contents_sent files)))
          × (s'.disk ≡ disk)
  unfolding greeting stream
  initial_sync-client_handler_thread p files s clients c rounds fuel memory fresh holds lists serves
        lets_in text user_fits sendable fits ready told asked enough =
      let who : Asker = record { username = p.username; connection_id = s.connection_id } in
      let disk = fs.system (mkdir_command p.username) s.disk in
      let (hello, x) =
        Delivers-Exchanged c (list_sent files ++ contents_sent files)
          (request_handshake-Delivers p.username false status_success text) ready told in
      let thread : Thread D = new_thread host memory p (request_handshake p.username false c).1 in
      let (t', ran, result) =
        initial_sync-Downloads host rounds files thread []
          (record { ready = x.ready; waiting = fresh.0; finished = fresh.1 }) sendable fits
          (x.reads ∙ ap (λ bs. list_sent files ++ bs) (sym (append-nil (contents_sent files)))) in
      let (s', served, answered) =
        client_handler_thread-refines dial fs so_error s p.username false clients
          (start_requests files) [] fuel lists serves user_fits lets_in
          ((tt, tt), ((tt, tt), fetches-IsProper files sendable)) asked (inr refl) enough in
      let spec = answers_lem fs who disk clients files holds in
      (
        t',
        s',
        hello,
        ran,
        result.sent
            ∙ ap (λ bs. bs ++ (packet 4 [] ++ (packet 6 [] ++ downloads_asked files))) x.sent
            ∙ append_assoc c.writer.sent (greeting p.username) _
            ∙ ap
                (λ bs.
                  c.writer.sent ++ (greeting p.username ++ (packet 4 [] ++ (packet 6 [] ++ bs))))
                (sym (fetches-stream files)),
        result.disk,
        served,
        answered.sent ∙ ap (λ a. s.conn.writer.sent ++ (success ++ a.bytes)) spec,
        answered.disk ∙ ap (λ a. a.disk) spec,
      )
