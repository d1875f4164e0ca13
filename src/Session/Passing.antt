-- ===== src/Session/Passing.antt =====
-- A primary server passes a request on to each of its backup servers (server/src/server.cpp).
use trabalho_sistemas_operac.Prelude.{
  subst, ℕ, ◌≡◌, ◌==◌, inl, inr, refl, ap, ◌∙◌, true, some, List, [], ◌∷◌, ◌++◌, Bool-cases,
  if◌then◌else◌,
}
use trabalho_sistemas_operac.Prelude.Exec.{Exec}
use trabalho_sistemas_operac.Net.Connection.{Connection}
use trabalho_sistemas_operac.Net.Connection.Talk.{Delivers}
use trabalho_sistemas_operac.Net.Writer.Word.{IsText}
use trabalho_sistemas_operac.Protocol.{
  status_success, status_fail, respond_status, respond_upload_fail,
}
use trabalho_sistemas_operac.Protocol.Wire.{packet, respond_status-Delivers}
use trabalho_sistemas_operac.Node.{returned, Node, Server, Envelope, is_primary}
use trabalho_sistemas_operac.Coms.Client.{Dial}
use trabalho_sistemas_operac.Election.{talk}
use trabalho_sistemas_operac.Session.{
  Session, Turn, turn, tell, pass_exchange, pass_to, pass_to_all, after_pass, then_on,
}
use trabalho_sistemas_operac.Session.Spec.{failure}
use trabalho_sistemas_operac.Session.Sent.{IsReady, Sent, Sent-nothing, Delivers-Sent, asker}
use trabalho_sistemas_operac.Session.Letters.{
  Listens, Reached, letter, letters, refusal, refusals, introduction, with_posts, with_posts-append,
  with_posts-nil, Sent-append, pass_exchange_lem, listening,
}

module _ {D : Type 0} where
  -- What the session `s` has done when the requests were passed on.
  pub record Passed (s s' : Session D) (posts : List Envelope) (bytes : List ℕ) : Type 0 where
    pub sent : Sent s.conn s'.conn bytes
    pub node : s'.node ≡ with_posts s.node posts
    pub disk : s'.disk ≡ s.disk
    pub clients : s'.clients ≡ s.clients
    pub who : asker s' ≡ asker s
    pub packet : s'.packet ≡ s.packet

  abbrev pub Passes : Turn D → Session D → List Envelope → List ℕ → Type 0
  Passes t s posts bytes = (s' : Session D) × (t ≡ turn true s') × Passed s s' posts bytes

module _ {D : Type 0} (dial : Dial) where
  talk_lem :
      (request : Exec Connection ℕ) (bytes : List ℕ) (b : Server) (status : ℕ) (s : Session D)
      → IsText s.username
      → Delivers request status (packet status []) bytes
      → Listens dial b status
      → talk dial b.ip b.port (pass_exchange s.username request s.status) s.node
        ≡ returned (some (some status)) (record s.node {
          outbox = s.node.outbox ++ letter (introduction s.username ++ bytes) b ∷ [];
        })
  unfolding talk
  talk_lem request bytes b status s t h l =
      let x =
        pass_exchange_lem s.username bytes request s.status l.welcome status l.conn t h l.opened
          l.fresh l.reads in
      rw (l.dialled, talk, x.0, x.1) refl

  after_pass_lem :
      (status : ℕ) (s : Session D) (node : Node) (post : Envelope)
      → IsReady s.conn
      → node ≡ record s.node { outbox = s.node.outbox ++ post ∷ [] }
      → Passes
          (after_pass dial s (returned (some (some status)) node))
          s
          (post ∷ [])
          (if status == status_success then [] else failure)
  unfolding after_pass respond_upload_fail tell
  after_pass_lem status s node post r n = elim (Bool-cases (status == status_success)) [
    | inl e ↦ rw e (
      record s { node = node; status = status },
      refl,
      record {
        sent = Sent-nothing s.conn r;
        node = n;
        disk = refl;
        clients = refl;
        who = refl;
        packet = refl;
      },
    )
    | inr e ↦ rw e (
      record s { node = node; status = status; conn = (respond_status status_fail s.conn).1 },
      refl,
      record {
        sent = (Delivers-Sent s.conn (respond_status-Delivers status_fail) r).1;
        node = n;
        disk = refl;
        clients = refl;
        who = refl;
        packet = refl;
      },
    )
  ]

  Passed-append :
      (s s' s'' : Session D) (posts more : List Envelope) (bytes next : List ℕ)
      → Passed s s' posts bytes
      → Passed s' s'' more next
      → Passed s s'' (posts ++ more) (bytes ++ next)
  Passed-append s s' s'' posts more bytes next a b = record {
    sent = Sent-append s.conn s'.conn s''.conn bytes next a.sent b.sent;
    node = b.node ∙ ap (λ n. with_posts n more) a.node ∙ with_posts-append s.node posts more;
    disk = b.disk ∙ a.disk;
    clients = b.clients ∙ a.clients;
    who = b.who ∙ a.who;
    packet = b.packet ∙ a.packet;
  }

  pass_to_lem :
      (request : Exec Connection ℕ) (bytes : List ℕ) (b : Server) (status : ℕ) (s : Session D)
      → IsText s.username
      → IsReady s.conn
      → Delivers request status (packet status []) bytes
      → Listens dial b status
      → Passes
          (pass_to dial request b s)
          s
          (letter (introduction s.username ++ bytes) b ∷ [])
          (refusal status)
  unfolding pass_to
  pass_to_lem request bytes b status s t r h l =
      rw (talk_lem request bytes b status s t h l, pass_to) (after_pass_lem status s _ _ r refl)

  then_on-Passes :
      (t : Turn D) (f : Session D → Turn D) (s : Session D) (posts more : List Envelope)
      (bytes next : List ℕ) (x : Passes t s posts bytes)
      → Passes (f x.0) x.0 more next
      → Passes (then_on t f) s (posts ++ more) (bytes ++ next)
  unfolding then_on
  then_on-Passes t f s posts more bytes next x y =
      (y.0, rw (x.1, then_on) (y.1), Passed-append s x.0 y.0 posts more bytes next x.2 y.2)

  pub pass_to_all_lem :
      (request : Exec Connection ℕ) (bytes : List ℕ) (status : Server → ℕ) (servers : List Server)
      (s : Session D)
      → IsText s.username
      → IsReady s.conn
      → ((status : ℕ) → Delivers request status (packet status []) bytes)
      → Reached dial status servers
      → Passes
          (pass_to_all dial request servers s)
          s
          (letters (introduction s.username ++ bytes) servers)
          (refusals status servers)
  unfolding pass_to_all letters refusals
  pass_to_all_lem request bytes status [] s t r d h = (
    s,
    refl,
    record {
      sent = Sent-nothing s.conn r;
      node = with_posts-nil s.node;
      disk = refl;
      clients = refl;
      who = refl;
      packet = refl;
    },
  )
  pass_to_all_lem request bytes status (b ∷ servers) s t r d (h, hs) =
      elim (Bool-cases (is_primary b)) [
        | inl e ↦ rw e (pass_to_all_lem request bytes status servers s t r d hs)
        | inr e ↦ rw e (
            let x = pass_to_lem request bytes b (status b) s t r (d (status b)) (listening e h) in
            let same = ap (λ a. a.username) (x.2.who) in
            let y =
              pass_to_all_lem request bytes status servers x.0 (rw same t) (x.2.sent.ready) d hs in
            then_on-Passes (pass_to dial request b s) (pass_to_all dial request servers) s _ _ _ _ x
              (subst
                (λ u.
                  Passes (pass_to_all dial request servers x.0) x.0
                    (letters (introduction u ++ bytes) servers) (refusals status servers))
                same y))
      ]
