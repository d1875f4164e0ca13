-- ===== src/Session/Calm.antt =====
-- Handlers of requests leave the reader of the client's connection as it was
-- (server/src/server.cpp).
use trabalho_sistemas_operac.Prelude.{
  ℕ, ◌≡◌, ◌==◌, refl, subst, Bool, true, false, Option, none, some, List, [], ◌∷◌, inl, inr,
  Bool-cases, if◌then◌else◌,
}
use trabalho_sistemas_operac.Prelude.Exec.{Exec}
use trabalho_sistemas_operac.Net.Reader.{Reader}
use trabalho_sistemas_operac.Net.Connection.{Connection}
use trabalho_sistemas_operac.Protocol.{
  FileEvent, FileDescription, respond_download_success, respond_download_fail, respond_upload_fail,
  respond_upload_success, respond_delete_success, respond_delete_fail, respond_list_files_success,
  respond_list_files_fail, respond_update_some, respond_update_none, packet_type_download,
  packet_type_upload, packet_type_delete, packet_type_list_files, packet_type_update,
  status_success, status_fail, status_empty, respond_status,
}
use trabalho_sistemas_operac.Protocol.Quiet.{
  Quiet, respond_status-Quiet, respond_download_success-Quiet, respond_list_files_success-Quiet,
  respond_update_some-Quiet,
}
use trabalho_sistemas_operac.Node.{
  Server, Outcome, returned, exited, crashed, blocked, is_primary, acquire_metadata,
}
use trabalho_sistemas_operac.Coms.Client.{Dial}
use trabalho_sistemas_operac.Session.{
  Session, Netfs, Turn, turn, faulted, waiting, quit, then_on, respond, tell, after_pass, pass_to,
  pass_to_all, with_metadata, pass_on_request, handle_download, store_file, handle_upload,
  remove_file, handle_delete, handle_list_files, handle_update, handle_packet, take_event,
  request_upload,
}

module _ {D : Type 0} where
  -- What ends with the reader `r`, if it returns.
  abbrev pub Calm : Reader → Turn D → Type 0
  Calm r (turn running s) = s.conn.reader ≡ r
  Calm r faulted = Unit
  Calm r waiting = Unit
  Calm r quit = Unit

  respond-Calm :
      (m : Exec Connection (Unit {0})) (s : Session D) → Quiet m → Calm s.conn.reader (respond m s)
  unfolding respond
  respond-Calm m s q = q.at s.conn

  pub tell-Calm :
      (m : Exec Connection (Unit {0})) (s : Session D)
      → Quiet m
      → (tell m s).conn.reader ≡ s.conn.reader
  unfolding tell
  tell-Calm m s q = q.at s.conn

  then_on-Calm :
      (r : Reader) (t : Turn D) (f : Session D → Turn D)
      → Calm r t
      → ((s : Session D) → Calm s.conn.reader (f s))
      → Calm r (then_on t f)
  unfolding then_on
  then_on-Calm r (turn running s) f e h = subst (λ r. Calm r (f s)) e (h s)
  then_on-Calm r faulted f e h = tt
  then_on-Calm r waiting f e h = tt
  then_on-Calm r quit f e h = tt

  module _ (dial : Dial) where
    after_pass-Calm :
        (s : Session D) (o : Outcome (Option (Option ℕ))) → Calm s.conn.reader (after_pass dial s o)
    unfolding after_pass respond_upload_fail
    after_pass-Calm s (returned (some (some status)) node) =
        elim (Bool-cases (status == status_success)) [
          | inl e ↦ rw e refl
          | inr e ↦ rw e (
              tell-Calm _ (record s { node = node; status = status })
                (respond_status-Quiet status_fail))
        ]
    after_pass-Calm s (returned (some none) node) = tt
    after_pass-Calm s (returned none node) = tt
    after_pass-Calm s exited = tt
    after_pass-Calm s crashed = tt
    after_pass-Calm s blocked = tt

    pass_to_all-Calm :
        (request : Exec Connection ℕ) (servers : List Server) (s : Session D)
        → Calm s.conn.reader (pass_to_all dial request servers s)
    unfolding pass_to_all pass_to
    pass_to_all-Calm request [] s = refl
    pass_to_all-Calm request (b ∷ servers) s = elim (Bool-cases (is_primary b)) [
      | inl e ↦ rw e (pass_to_all-Calm request servers s)
      | inr e ↦ rw e (then_on-Calm _ _ _ (after_pass-Calm s _) (pass_to_all-Calm request servers))
    ]

    with_metadata-Calm :
        (request : Exec Connection ℕ) (s : Session D) (o : Outcome (List Server))
        → Calm s.conn.reader (with_metadata dial request s o)
    with_metadata-Calm request s (returned servers node) =
        pass_to_all-Calm request servers (record s { node = record node { metadata_mutex = true } })
    with_metadata-Calm request s exited = tt
    with_metadata-Calm request s crashed = tt
    with_metadata-Calm request s blocked = tt

    pass_on_request-Calm :
        (request : Exec Connection ℕ) (s : Session D)
        → Calm s.conn.reader (pass_on_request dial request s)
    unfolding pass_on_request
    pass_on_request-Calm request s = elim (Bool-cases (is_primary s.node.current_server)) [
      | inl e ↦ rw e (with_metadata-Calm request s (acquire_metadata s.node))
      | inr e ↦ rw e refl
    ]

    module _ (fs : Netfs D) where
      handle_download-Calm : (s : Session D) → Calm s.conn.reader (handle_download dial fs s)
      unfolding handle_download respond_download_fail
      handle_download-Calm s = go _
        where
          go :
              (read : Option (List ℕ))
              → Calm s.conn.reader (elim read [
                | some contents ↦ turn true (tell (respond_download_success contents) s)
                | none ↦ respond respond_download_fail s
              ])
          go none = respond-Calm _ s (respond_status-Quiet status_fail)
          go (some contents) = tell-Calm _ s (respond_download_success-Quiet contents)

      handle_list_files-Calm : (s : Session D) → Calm s.conn.reader (handle_list_files dial fs s)
      unfolding handle_list_files respond_list_files_fail
      handle_list_files-Calm s = go _
        where
          go :
              (listed : Option (List FileDescription))
              → Calm s.conn.reader (elim listed [
                | some files ↦ respond (respond_list_files_success files) s
                | none ↦ respond respond_list_files_fail s
              ])
          go none = respond-Calm _ s (respond_status-Quiet status_fail)
          go (some files) = respond-Calm _ s (respond_list_files_success-Quiet files)

      event-Calm :
          (s : Session D) (event : Option FileEvent)
          → Calm s.conn.reader (elim event [
            | none ↦ respond respond_update_none s
            | some e ↦ respond (respond_update_some e) s
          ])
      unfolding respond_update_none
      event-Calm s none = respond-Calm _ s (respond_status-Quiet status_empty)
      event-Calm s (some e) = respond-Calm _ s (respond_update_some-Quiet e)

      handle_update-Calm : (s : Session D) → Calm s.conn.reader (handle_update dial fs s)
      unfolding handle_update
      handle_update-Calm s =
          event-Calm (record s { clients = (take_event s.connection_id s.clients).1 })
            (take_event s.connection_id s.clients).0

      -- A change of the disk, and its answer.
      answer-Calm :
          (done : Bool) (told untold : Session D)
          → told.conn ≡ untold.conn
          → Calm untold.conn.reader (
              if done
              then respond (respond_status status_success) told
              else respond (respond_status status_fail) untold)
      answer-Calm true told untold e =
          subst (λ c. Calm c.reader (respond (respond_status status_success) told)) e
            (respond-Calm _ told (respond_status-Quiet status_success))
      answer-Calm false told untold e = respond-Calm _ untold (respond_status-Quiet status_fail)

      store_file-Calm :
          (bytes : List ℕ) (s : Session D) → Calm s.conn.reader (store_file dial fs bytes s)
      unfolding store_file respond_upload_success respond_upload_fail
      store_file-Calm bytes s = answer-Calm _ _ (record s { disk = _; packet = _ }) refl

      remove_file-Calm : (s : Session D) → Calm s.conn.reader (remove_file dial fs s)
      unfolding remove_file respond_delete_success respond_delete_fail
      remove_file-Calm s = answer-Calm _ _ (record s { disk = _ }) refl

      handle_upload-Calm : (s : Session D) → Calm s.conn.reader (handle_upload dial fs s)
      unfolding handle_upload
      handle_upload-Calm s = go _
        where
          go :
              (bytes : Option (List ℕ))
              → Calm s.conn.reader (elim bytes [
                | none ↦ faulted
                | some bytes ↦
                    then_on
                      (pass_on_request dial (request_upload s.packet.filename bytes) s)
                      (store_file dial fs bytes)
              ])
          go none = tt
          go (some bytes) = then_on-Calm _ _ _ (pass_on_request-Calm _ s) (store_file-Calm bytes)

      handle_delete-Calm : (s : Session D) → Calm s.conn.reader (handle_delete dial fs s)
      unfolding handle_delete
      handle_delete-Calm s = then_on-Calm _ _ _ (pass_on_request-Calm _ s) remove_file-Calm

      pub handle_packet-Calm :
          (packet_type : ℕ) (s : Session D)
          → Calm s.conn.reader (handle_packet dial fs packet_type s)
      unfolding handle_packet
      handle_packet-Calm t s = elim (Bool-cases (t == packet_type_download)) [
        | inl e ↦ rw e (handle_download-Calm s)
        | inr e ↦ rw e (elim (Bool-cases (t == packet_type_upload)) [
          | inl e ↦ rw e (handle_upload-Calm s)
          | inr e ↦ rw e (elim (Bool-cases (t == packet_type_delete)) [
            | inl e ↦ rw e (handle_delete-Calm s)
            | inr e ↦ rw e (elim (Bool-cases (t == packet_type_list_files)) [
              | inl e ↦ rw e (handle_list_files-Calm s)
              | inr e ↦ rw e (elim (Bool-cases (t == packet_type_update)) [
                | inl e ↦ rw e (handle_update-Calm s)
                | inr e ↦ rw e refl
              ])
            ])
          ])
        ])
      ]
