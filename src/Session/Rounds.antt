-- ===== src/Session/Rounds.antt =====
-- A round of the session of a server with nobody to pass requests on to answers one request
-- (server/src/server.cpp).
use trabalho_sistemas_operac.Prelude.{
  ◌⊎◌, refl, ℕ, ◌≡◌, true, false, Option, none, some, List, [], All, inl, inr, Bool-cases, ◌∷◌,
}
use trabalho_sistemas_operac.Prelude.Exec.{Exec}
use trabalho_sistemas_operac.Net.Connection.{Connection}
use trabalho_sistemas_operac.Node.{is_primary, Node, Server, acquire_metadata}
use trabalho_sistemas_operac.Coms.Client.{Dial}
use trabalho_sistemas_operac.Protocol.{
  FileDescription, respond_status, FileEvent, respond_update_none, respond_download_fail,
  respond_list_files_fail, respond_update_some, respond_download_success,
  respond_list_files_success, status_fail, status_empty, respond_upload_success,
  respond_upload_fail, status_success, respond_delete_success, Packet, respond_delete_fail,
}
use trabalho_sistemas_operac.Protocol.Wire.{
  packet, respond_status-Delivers, respond_download_success-Delivers,
}
use trabalho_sistemas_operac.Protocol.Answers.{
  IsWritable, respond_list_files_success-Delivers, respond_update_some-Delivers,
}
use trabalho_sistemas_operac.Protocol.Parse.{
  Request, download, delete, upload, list_files, leave, update, type_of, assigned,
}
use trabalho_sistemas_operac.Clients.{client_broadcast_file_modified, client_broadcast_file_deleted}
use trabalho_sistemas_operac.Session.{
  pass_to_all, Session, Netfs, turn, respond, tell, handle_packet, handle_download, store_file,
  handle_upload, remove_file, handle_delete, handle_list_files, handle_update, pass_on_request,
  take_event, then_on, pointed, file_path, client_dir, request_upload, request_delete, drop_array,
}
use trabalho_sistemas_operac.Session.Spec.{answer_to, event_answer, file_answer, list_answer}
use trabalho_sistemas_operac.Session.Events.{TextEvents, TextEvent, take_event-TextEvents}
use trabalho_sistemas_operac.Session.Sent.{
  IsReady, Sent-nothing, asker, Done, respond_lem, tell_lem, kept,
}

-- A server that passes no request on: it is not the primary one, or it knows no backup server.
abbrev pub Alone : Node → Type 0
Alone n =
    (is_primary n.current_server ≡ false)
    ⊎ ((n.metadata_mutex ≡ true) × All (λ b. is_primary b ≡ true) n.servers)

-- A list of files that `list_files` gives can be written to a client.
abbrev pub Lists : {D : Type 0} → Netfs D → Type 0
Lists {D} fs =
    (path : List ℕ) (disk : D) (files : List FileDescription)
    → fs.list_files path disk ≡ some files
    → All IsWritable files

module _ {D : Type 0} where
  fail_lem :
      (status : ℕ) (s : Session D)
      → IsReady s.conn
      → Done (respond (respond_status status) s) s (kept s (packet status []))
  fail_lem status s r = respond_lem (respond_status status) s _ (respond_status-Delivers status) r

  contents_lem :
      (s : Session D) (read : Option (List ℕ))
      → IsReady s.conn
      → Done
          (elim read [
            | some contents ↦ turn true (tell (respond_download_success contents) s)
            | none ↦ respond respond_download_fail s
          ])
          s
          (kept s (file_answer read))
  unfolding respond_download_fail
  contents_lem s none r = fail_lem status_fail s r
  contents_lem s (some contents) r =
      tell_lem (respond_download_success contents) s _ (respond_download_success-Delivers contents)
        r

  files_lem :
      (s : Session D) (listed : Option (List FileDescription))
      → ((files : List FileDescription) → listed ≡ some files → All IsWritable files)
      → IsReady s.conn
      → Done
          (elim listed [
            | some files ↦ respond (respond_list_files_success files) s
            | none ↦ respond respond_list_files_fail s
          ])
          s
          (kept s (list_answer listed))
  unfolding respond_list_files_fail
  files_lem s none l r = fail_lem status_fail s r
  files_lem s (some files) l r =
      respond_lem (respond_list_files_success files) s _
        (respond_list_files_success-Delivers files (l files refl)) r

  event_lem :
      (s : Session D) (event : Option FileEvent)
      → TextEvent event
      → IsReady s.conn
      → Done
          (elim event [
            | none ↦ respond respond_update_none s
            | some e ↦ respond (respond_update_some e) s
          ])
          s
          (kept s (event_answer event))
  unfolding respond_update_none
  event_lem s none t r = fail_lem status_empty s r
  event_lem s (some e) t r =
      respond_lem (respond_update_some e) s _ (respond_update_some-Delivers e t) r

  nothing_passed :
      (dial : Dial) (request : Exec Connection ℕ) (servers : List Server) (s : Session D)
      → All (λ b. is_primary b ≡ true) servers
      → pass_to_all dial request servers s ≡ turn true s
  unfolding pass_to_all
  nothing_passed dial request [] s h = refl
  nothing_passed dial request (b ∷ servers) s h =
      rw (h.0) (nothing_passed dial request servers s h.1)

  module _ (dial : Dial) (fs : Netfs D) (s : Session D) (ready : IsReady s.conn) where
    download_lem :
        Done
          (handle_download dial fs s)
          s
          (answer_to fs (asker s) (download s.packet.filename) s.disk s.clients)
    unfolding handle_download answer_to
    download_lem =
        contents_lem s (fs.read_file (file_path s.username s.packet.filename) s.disk) ready

    list_lem :
        Lists fs
        → Done (handle_list_files dial fs s) s (answer_to fs (asker s) list_files s.disk s.clients)
    unfolding handle_list_files answer_to
    list_lem l =
        files_lem s (fs.list_files (client_dir s.username) s.disk) (λ files e. l _ _ files e) ready

    update_lem :
        TextEvents s.clients
        → Done (handle_update dial fs s) s (answer_to fs (asker s) update s.disk s.clients)
    unfolding handle_update answer_to
    update_lem t =
        let x = take_event-TextEvents s.connection_id s.clients t in
        event_lem (record s { clients = (take_event s.connection_id s.clients).1 })
          (take_event s.connection_id s.clients).0 x.0 ready

    pub store_lem :
        (file : List ℕ)
        → Done
            (store_file dial fs file s)
            s
            (answer_to fs (asker s) (upload s.packet.filename file) s.disk s.clients)
    unfolding store_file answer_to respond_upload_success respond_upload_fail
    store_lem file =
        elim (Bool-cases (fs.write_file (file_path s.username s.packet.filename) file s.disk).0) [
          | inl e ↦ rw e (
              respond_lem (respond_status status_success)
                (record s {
                  clients = client_broadcast_file_modified s.username s.packet.filename s.clients;
                  disk = (fs.write_file (file_path s.username s.packet.filename) file s.disk).1;
                  packet = drop_array s.packet;
                })
                _ (respond_status-Delivers status_success) ready)
          | inr e ↦ rw e (
              fail_lem status_fail
                (record s {
                  disk = (fs.write_file (file_path s.username s.packet.filename) file s.disk).1;
                  packet = drop_array s.packet;
                })
                ready)
        ]

    pub remove_lem :
        Done
          (remove_file dial fs s)
          s
          (answer_to fs (asker s) (delete s.packet.filename) s.disk s.clients)
    unfolding remove_file answer_to respond_delete_success respond_delete_fail
    remove_lem =
        elim (Bool-cases (fs.delete_file (file_path s.username s.packet.filename) s.disk).0) [
          | inl e ↦ rw e (
              respond_lem (respond_status status_success)
                (record s {
                  clients = client_broadcast_file_deleted s.username s.packet.filename s.clients;
                  disk = (fs.delete_file (file_path s.username s.packet.filename) s.disk).1;
                })
                _ (respond_status-Delivers status_success) ready)
          | inr e ↦ rw e (
              fail_lem status_fail
                (record s {
                  disk = (fs.delete_file (file_path s.username s.packet.filename) s.disk).1;
                })
                ready)
        ]

    pass_on_request-Alone :
        (request : Exec Connection ℕ) → Alone s.node → pass_on_request dial request s ≡ turn true s
    unfolding pass_on_request acquire_metadata
    pass_on_request-Alone request (inl e) = rw e refl
    pass_on_request-Alone request (inr (free, all)) =
        elim (Bool-cases (is_primary s.node.current_server)) [
          | inl e ↦ rw (e, free) (nothing_passed dial request s.node.servers _ all)
          | inr e ↦ rw e refl
        ]

    upload_lem :
        (file : List ℕ)
        → Alone s.node
        → pointed s.packet.array ≡ some file
        → Done
            (handle_upload dial fs s)
            s
            (answer_to fs (asker s) (upload s.packet.filename file) s.disk s.clients)
    unfolding handle_upload then_on
    upload_lem file b e =
        rw (e, pass_on_request-Alone (request_upload s.packet.filename file) b, handle_upload)
          (store_lem file)

    delete_lem :
        Alone s.node
        → Done
            (handle_delete dial fs s)
            s
            (answer_to fs (asker s) (delete s.packet.filename) s.disk s.clients)
    unfolding handle_delete then_on
    delete_lem b =
        rw (pass_on_request-Alone (request_delete s.packet.filename) b, handle_delete) (remove_lem)

  module _ (dial : Dial) (fs : Netfs D) where
    pub handle_packet-answers :
        (q : Request) (p : Packet) (s : Session D)
        → Alone s.node
        → Lists fs
        → TextEvents s.clients
        → IsReady s.conn
        → Done
            (handle_packet dial fs (type_of q) (record s { packet = assigned p q }))
            s
            (answer_to fs (asker s) q s.disk s.clients)
    unfolding handle_packet pointed answer_to
    handle_packet-answers (download filename) p s b l t r =
        download_lem dial fs (record s { packet = assigned p (download filename) }) r
    handle_packet-answers (upload filename file) p s b l t r =
        upload_lem dial fs (record s { packet = assigned p (upload filename file) }) r file b refl
    handle_packet-answers (delete filename) p s b l t r =
        delete_lem dial fs (record s { packet = assigned p (delete filename) }) r b
    handle_packet-answers list_files p s b l t r =
        list_lem dial fs (record s { packet = assigned p list_files }) r l
    handle_packet-answers update p s b l t r =
        update_lem dial fs (record s { packet = assigned p update }) r t
    handle_packet-answers leave p s b l t r = (
      record s { packet = assigned p leave },
      refl,
      record { sent = Sent-nothing s.conn r; disk = refl; clients = refl; who = refl; node = refl },
    )
