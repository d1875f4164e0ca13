-- ===== src/Session/Replicas.antt =====
-- Uploads and deletes on a primary server with backup servers (server/src/server.cpp).
use trabalho_sistemas_operac.Prelude.{subst, ℕ, ◌≡◌, refl, ◌∙◌, true, some, List, [], ◌++◌}
use trabalho_sistemas_operac.Prelude.Exec.{Exec}
use trabalho_sistemas_operac.Net.Connection.{Connection}
use trabalho_sistemas_operac.Net.Connection.Talk.{Delivers}
use trabalho_sistemas_operac.Net.Reader.Word.{counted}
use trabalho_sistemas_operac.Net.Writer.Word.{IsText}
use trabalho_sistemas_operac.Protocol.Request.{request_upload, request_delete}
use trabalho_sistemas_operac.Protocol.Wire.{
  packet, request_upload-Delivers, request_delete-Delivers,
}
use trabalho_sistemas_operac.Node.{Server, Envelope, is_primary, acquire_metadata}
use trabalho_sistemas_operac.Coms.Client.{Dial}
use trabalho_sistemas_operac.Session.{
  Session, Turn, turn, then_on, Netfs, pass_on_request, handle_upload, handle_delete, pointed,
}
use trabalho_sistemas_operac.Session.Spec.{Answer, answer_to}
use trabalho_sistemas_operac.Session.Sent.{IsReady, asker, Follows, Done}
use trabalho_sistemas_operac.Session.Letters.{
  Reached, letters, refusals, introduction, with_posts, Sent-append,
}
use trabalho_sistemas_operac.Session.Passing.{Passed, Passes, pass_to_all_lem}
use trabalho_sistemas_operac.Session.Rounds.{store_lem, remove_lem}
use trabalho_sistemas_operac.Protocol.Parse.{upload, delete}

-- A primary server that reaches its backup servers, which answer `status`.
pub record Leads {D : Type 0} (dial : Dial) (status : Server → ℕ) (s : Session D) : Type 0 where
  pub primary : is_primary s.node.current_server ≡ true
  pub free : s.node.metadata_mutex ≡ true
  pub reached : Reached dial status s.node.servers
  pub named : IsText s.username
  pub ready : IsReady s.conn

module _ {D : Type 0} (dial : Dial) (fs : Netfs D) (status : Server → ℕ) (s : Session D)
    (leads : Leads dial status s) where
  -- The answer of the primary server, after those for the backup servers that refuse.
  abbrev pub Replicated : Turn D → List ℕ → Answer D → Type 0
  Replicated t bytes a =
      (s' : Session D) × (t ≡ turn a.going s')
      × Follows s.conn (asker s)
          (with_posts s.node (letters (introduction s.username ++ bytes) s.node.servers)) s'
          (record a { bytes = refusals status s.node.servers ++ a.bytes })

  pass_on_request-Passes :
      (request : Exec Connection ℕ) (bytes : List ℕ)
      → ((status : ℕ) → Delivers request status (packet status []) bytes)
      → Passes
          (pass_on_request dial request s)
          s
          (letters (introduction s.username ++ bytes) s.node.servers)
          (refusals status s.node.servers)
  unfolding pass_on_request acquire_metadata
  pass_on_request-Passes request bytes d =
      rw (leads.primary, leads.free)
        (pass_to_all_lem dial request bytes status s.node.servers
          (record s { node = record s.node { metadata_mutex = true } }) leads.named leads.ready d
          leads.reached)

  after_passing :
      (s1 : Session D) (t : Turn D) (a : Answer D) (posts : List Envelope) (bytes : List ℕ)
      → Passed s s1 posts bytes
      → Done t s1 a
      → (s' : Session D) × (t ≡ turn a.going s')
        × Follows s.conn
            (asker s)
            (with_posts s.node posts)
            s'
            (record a { bytes = bytes ++ a.bytes })
  after_passing s1 t a posts bytes p d = (
    d.0,
    d.1,
    record {
      sent = Sent-append s.conn s1.conn d.0.conn bytes a.bytes p.sent d.2.sent;
      disk = d.2.disk;
      clients = d.2.clients;
      who = d.2.who ∙ p.who;
      node = d.2.node ∙ p.node;
    },
  )

  -- On a primary server with the lock of the metadata free and a connection to the client that is
  -- open with nothing left to send, whose backup servers can be dialled and answer both requests,
  -- each with a status of its own, for a user and a file name with no 0 in them: `handle_upload`
  -- sends each backup server in order the handshake of a primary server and the upload, sends the
  -- client one upload-fail answer for each backup server whose status is not success and then its
  -- own answer, and stores the file and tells the other clients as a server alone does.
  pub handle_upload-replicates :
      (file : List ℕ)
      → pointed s.packet.array ≡ some file
      → IsText s.packet.filename
      → Replicated
          (handle_upload dial fs s)
          (packet 2 (counted s.packet.filename ++ counted file))
          (answer_to fs (asker s) (upload s.packet.filename file) s.disk s.clients)
  unfolding handle_upload then_on
  handle_upload-replicates file e t =
      let x =
        pass_on_request-Passes (request_upload s.packet.filename file) _
          (λ st. request_upload-Delivers s.packet.filename file st t) in
      let p = x.2 in
      let same : answer_to fs (asker x.0) (upload x.0.packet.filename file) x.0.disk x.0.clients
          ≡ answer_to fs (asker s) (upload s.packet.filename file) s.disk s.clients =
        rw (p.who, p.packet, p.disk, p.clients) refl in
      rw (e, handle_upload, x.1)
        (after_passing x.0 _ _ _ _ p
          (subst (Done _ x.0) same (store_lem dial fs x.0 p.sent.ready file)))

  -- The same for a delete.
  pub handle_delete-replicates :
      IsText s.packet.filename
      → Replicated
          (handle_delete dial fs s)
          (packet 3 (counted s.packet.filename))
          (answer_to fs (asker s) (delete s.packet.filename) s.disk s.clients)
  unfolding handle_delete then_on
  handle_delete-replicates t =
      let x =
        pass_on_request-Passes (request_delete s.packet.filename) _
          (λ st. request_delete-Delivers s.packet.filename st t) in
      let p = x.2 in
      let same : answer_to fs (asker x.0) (delete x.0.packet.filename) x.0.disk x.0.clients
          ≡ answer_to fs (asker s) (delete s.packet.filename) s.disk s.clients =
        rw (p.who, p.packet, p.disk, p.clients) refl in
      rw (x.1, handle_delete)
        (after_passing x.0 _ _ _ _ p
          (subst (Done _ x.0) same (remove_lem dial fs x.0 p.sent.ready)))
