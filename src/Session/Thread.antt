-- ===== src/Session/Thread.antt =====
-- The whole thread of a client (server/src/server.cpp).
use trabalho_sistemas_operac.Prelude.{
  ℕ, ◌≡◌, ◌==◌, ◌<◌, ◌^◌, refl, Bool, true, false, List, [], ◌∷◌, ◌++◌, if◌then◌else◌, length, some,
  ◌∙◌, ap, All, ◌⊎◌, ap₂, subst,
}
use trabalho_sistemas_operac.Protocol.{
  handshake, protocol_version, respond_handshake_success, status_success, respond_status,
}
use trabalho_sistemas_operac.Protocol.Wire.{packet, respond_status-Delivers}
use trabalho_sistemas_operac.Protocol.Parse.{header-Hears, Request}
use trabalho_sistemas_operac.Net.Connection.Talk.{
  Hears, Hears-bind, Hears-bind_last, Hears-reading, Hears-pure, Hears-require,
}
use trabalho_sistemas_operac.Net.Reader.Word.{little_endian, counted, Reads-u8, Reads-string}
use trabalho_sistemas_operac.Session.{
  Session, Netfs, connect_to_client, accept_client, tell, mkdir_command, client_handler_thread,
  turn, session_loop,
}
use trabalho_sistemas_operac.Coms.Client.{Dial}
use trabalho_sistemas_operac.Session.Spec.{Answer, success, IsProper, stream, answers_to}
use trabalho_sistemas_operac.Session.Loop.{
  Serves, receive-IsReady, session_loop-answers, Ends, chain,
}
use trabalho_sistemas_operac.Net.Reader.Stream.{pending}
use trabalho_sistemas_operac.Clients.{Client, client_new, client_remove}
use trabalho_sistemas_operac.Session.Sent.{asker, Delivers-Sent}
use trabalho_sistemas_operac.Session.Rounds.{Lists}
use trabalho_sistemas_operac.Session.Events.{TextEvents, client_new-Allowed}

-- The flag of a handshake.
abbrev pub flag : Bool → ℕ
flag from_primary = if from_primary then 1 else 0

flag-eq : (from_primary : Bool) → (flag from_primary == 1) ≡ from_primary
flag-eq true = refl
flag-eq false = refl

-- The answer of `request_handshake`'s packet: what `handshake` makes of it.
pub handshake-Hears :
    (old username : List ℕ) (from_primary : Bool)
    → length username < 2 ^ 64
    → Hears
        (handshake old)
        (username, from_primary)
        (packet 0 (counted username ++ flag from_primary ∷ []))
unfolding handshake packet little_endian
handshake-Hears old username from_primary h =
    Hears-bind _ _ (record { protocol_version = protocol_version; packet_type = 0 }) _
      (header-Hears 0)
      (Hears-bind _ _ tt _ (Hears-require refl) (
        Hears-bind _ _ username _ (Hears-reading (Reads-string old username h)) (
          Hears-bind_last _ _ (flag from_primary) _ (Hears-reading (Reads-u8 (flag from_primary)))
            (rw (flag-eq from_primary) Hears-pure))))

-- What the thread leaves of the session `s`: the bytes that it has sent, the disk, and the clients.
pub record Served {D : Type 0} (s s' : Session D) (a : Answer D) : Type 0 where
  pub sent : s'.conn.writer.sent ≡ s.conn.writer.sent ++ (success ++ a.bytes)
  pub disk : s'.disk ≡ a.disk
  pub clients : s'.clients ≡ client_remove s.connection_id a.clients
  pub node : s'.node ≡ s.node

-- What the abstract session answers after the handshake of `username`.
abbrev pub answers_after :
    {D : Type 0} → Netfs D → Session D → List ℕ → List Client → List Request → Answer D
answers_after fs s username clients' qs =
    answers_to fs (record { username = username; connection_id = s.connection_id }) qs
      (fs.system (mkdir_command username) s.disk) clients'

module _ {D : Type 0} (dial : Dial) (fs : Netfs D) (so_error : ℕ → ℕ) where
  -- The session after the handshake of `username`, who is let in.
  abbrev Welcome : Session D → List ℕ → List Client → List ℕ → Type 0
  Welcome s username clients' rest =
      (s' : Session D) × (connect_to_client dial fs so_error s ≡ some (true, s'))
      × Serves s'
      × (pending s'.conn.reader ≡ rest)
      × (s'.conn.writer.sent ≡ s.conn.writer.sent ++ success)
      × (s'.disk ≡ fs.system (mkdir_command username) s.disk)
      × (s'.clients ≡ clients')
      × (asker s' ≡ record { username = username; connection_id = s.connection_id })
      × (s'.node ≡ s.node)

  connect_to_client-welcomes :
      (s : Session D) (username : List ℕ) (from_primary : Bool) (clients' : List Client)
      (rest : List ℕ)
      → Serves s
      → length username < 2 ^ 64
      → client_new so_error username s.connection_id s.sockfd from_primary s.clients
        ≡ some (true, clients')
      → pending s.conn.reader ≡ packet 0 (counted username ++ flag from_primary ∷ []) ++ rest
      → Welcome s username clients' rest
  unfolding connect_to_client accept_client tell respond_handshake_success
  connect_to_client-welcomes s username from_primary clients' rest v h new e =
      let x = (handshake-Hears [] username from_primary h).at s.conn rest v.ready.opened.sound e in
      let c = (handshake [] s.conn).1 in
      let y =
        Delivers-Sent c (respond_status-Delivers status_success)
          (receive-IsReady s.conn c v.ready x.1 x.3) in
      let t : TextEvents clients' = rw new at (
        client_new-Allowed so_error username s.connection_id s.sockfd from_primary s.clients
          v.events) in
      (
        record s {
          conn = (respond_status status_success c).1;
          clients = clients';
          username = username;
          disk = fs.system (mkdir_command username) s.disk;
        },
        rw (x.0, connect_to_client, new, accept_client) refl,
        record { alone = v.alone; ready = y.1.ready; events = t },
        y.1.reads ∙ x.2,
        y.1.sent ∙ ap (λ w. w.sent ++ success) (x.3),
        refl,
        refl,
        refl,
        refl,
      )

  -- The client leaves the list at the end.
  client_leaves :
      (s s1 s2 : Session D) (username : List ℕ) (a : Answer D) (fuel : ℕ)
      → connect_to_client dial fs so_error s ≡ some (true, s1)
      → session_loop dial fs fuel s1 ≡ turn false s2
      → Ends s1 s2 a
      → s1.conn.writer.sent ≡ s.conn.writer.sent ++ success
      → asker s1 ≡ record { username = username; connection_id = s.connection_id }
      → s1.node ≡ s.node
      → (s' : Session D) × (client_handler_thread dial fs fuel so_error s ≡ turn false s')
        × Served s s' a
  unfolding client_handler_thread
  client_leaves s s1 s2 username a fuel c l e sent who node = (
    record s2 { clients = client_remove s2.connection_id s2.clients },
    rw (c, client_handler_thread, l) refl,
    record {
      sent = chain success a.bytes s.conn.writer.sent e.sent sent;
      disk = e.disk;
      clients = ap₂ client_remove (ap (λ x. x.connection_id) (e.who ∙ who)) e.clients;
      node = e.node ∙ node;
    },
  )

  -- On a server that passes no request on, as it is not the primary one or knows no backup server,
  -- whose connection with the client is open with nothing left to send and whose waiting events
  -- name no file with a 0, where `list_files` gives only files that fit on the wire: if
  -- `client_new` lets the client in, and after the handshake the bytes pending are those of proper
  -- requests, up to an exit or the end of the stream, then with fuel for more rounds than requests
  -- `client_handler_thread` returns, has sent the success of the handshake and then exactly the
  -- answers of the abstract session, in order, has left the disk as the abstract session leaves it,
  -- and has removed the client.
  pub client_handler_thread-refines :
      (s : Session D) (username : List ℕ) (from_primary : Bool) (clients' : List Client)
      (qs : List Request) (rest : List ℕ) (fuel : ℕ)
      → Lists fs
      → Serves s
      → length username < 2 ^ 64
      → client_new so_error username s.connection_id s.sockfd from_primary s.clients
        ≡ some (true, clients')
      → All IsProper qs
      → pending s.conn.reader
        ≡ packet 0 (counted username ++ flag from_primary ∷ []) ++ (stream qs ++ rest)
      → ((answers_after fs s username clients' qs).going ≡ false) ⊎ (rest ≡ [])
      → length qs < fuel
      → (s' : Session D) × (client_handler_thread dial fs fuel so_error s ≡ turn false s')
        × Served s s' (answers_after fs s username clients' qs)
  client_handler_thread-refines s username from_primary clients' qs rest fuel lists v h new e_proper
        e ends enough =
      let (s1, c, v1, reads, sent, disk, clients, who, node) =
        connect_to_client-welcomes s username from_primary clients' (stream qs ++ rest) v h new e in
      let w =
        session_loop-answers dial fs lists qs rest fuel s1 v1 e_proper reads
          (rw (disk, clients, who) ends) enough in
      client_leaves s s1 w.0 username (answers_after fs s username clients' qs) fuel c w.1
        (subst (Ends s1 w.0) (same s1 disk clients who) w.2) sent who node
    where
      same :
          (s1 : Session D)
          → s1.disk ≡ fs.system (mkdir_command username) s.disk
          → s1.clients ≡ clients'
          → asker s1 ≡ record { username = username; connection_id = s.connection_id }
          → answers_to fs (asker s1) qs s1.disk s1.clients ≡ answers_after fs s username clients' qs
      same s1 disk clients who = rw (disk, clients, who) refl
