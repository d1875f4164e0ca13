-- ===== src/Session/Halts.antt =====
-- The thread of a client ends, on a disk on which `netfs` returns and with sockets whose reads fail in
-- the end (server/src/server.cpp).
use trabalho_sistemas_operac.Prelude.{
  zero, suc, ℕ, ◌≡◌, refl, Bool, true, false, Option, none, some, List, [], inl, inr, Bool-cases,
  ◌+◌, ◌<◌, ◌≤◌, arith, ap,
}
use trabalho_sistemas_operac.Net.Reader.{Reader}
use trabalho_sistemas_operac.Net.Connection.{Connection}
use trabalho_sistemas_operac.Protocol.{
  status_success, status_fail, respond_status, respond_handshake_success, receive_packet,
  respond_handshake_fail, handshake,
}
use trabalho_sistemas_operac.Protocol.Quiet.{respond_status-Quiet}
use trabalho_sistemas_operac.Coms.Client.{Dial}
use trabalho_sistemas_operac.Session.{
  Session, Netfs, Turn, turn, faulted, waiting, quit, tell, one_round, session_loop, finish,
  accept_client, Client, connect_to_client, client_handler_thread, mkdir_command,
}
use trabalho_sistemas_operac.Net.Reader.Left.{left, Fell}
use trabalho_sistemas_operac.Protocol.Left.{receive_packet-left, handshake-Uses}
use trabalho_sistemas_operac.Session.Calm.{Calm, handle_packet-Calm, tell-Calm}

-- Whether the fuel ended before the thread did.
abbrev pub still_running : {D : Type 0} → Turn D → Bool
still_running (turn running s) = running
still_running faulted = false
still_running waiting = false
still_running quit = false

module _ {D : Type 0} (dial : Dial) (fs : Netfs D) where
  -- Another round only after a byte was taken.
  abbrev Within : ℕ → Turn D → Type 0
  Within n (turn true s) = left s.conn.reader + 1 ≤ n
  Within n (turn false s) = Unit
  Within n faulted = Unit
  Within n waiting = Unit
  Within n quit = Unit

  Within-Calm : (n : ℕ) (r : Reader) (t : Turn D) → left r + 1 ≤ n → Calm r t → Within n t
  Within-Calm n r (turn true s) h e = omega (arith, ap left e)
  Within-Calm n r (turn false s) h e = tt
  Within-Calm n r faulted h e = tt
  Within-Calm n r waiting h e = tt
  Within-Calm n r quit h e = tt

  one_round-Within : (s : Session D) → Within (left s.conn.reader) (one_round dial fs s)
  unfolding one_round
  one_round-Within s =
      let h = receive_packet-left s.packet s.conn in
      elim (Bool-cases (receive_packet s.packet s.conn).0.0) [
        | inl e ↦ rw e (
            Within-Calm _ _ _ (h.1 e) (
              handle_packet-Calm dial fs _
                (record s { packet = _; conn = (receive_packet s.packet s.conn).1 })))
        | inr e ↦ rw e tt
      ]

  session_loop-Stopped :
      (fuel : ℕ) (s : Session D)
      → left s.conn.reader < fuel
      → still_running (session_loop dial fs fuel s) ≡ false
  unfolding session_loop
  session_loop-Stopped zero s h = elim h [ ]
  session_loop-Stopped (suc fuel) s h =
      go (one_round dial fs s) (λ s' k. session_loop-Stopped fuel s' k) (one_round-Within s)
    where
      go :
          (t : Turn D)
          → ((s' : Session D)
              → left s'.conn.reader < fuel
              → still_running (session_loop dial fs fuel s') ≡ false)
          → Within (left s.conn.reader) t
          → still_running (elim t [
            | turn true s' ↦ session_loop dial fs fuel s'
            | turn false s' ↦ turn false s'
            | faulted ↦ faulted
            | waiting ↦ waiting
            | quit ↦ quit
          ])
            ≡ false
      go (turn true s') next w = next s' (omega arith)
      go (turn false s') next w = refl
      go faulted next w = refl
      go waiting next w = refl
      go quit next w = refl

  finish-Stopped : (t : Turn D) → still_running t ≡ false → still_running (finish t) ≡ false
  finish-Stopped (turn true s) h = h
  finish-Stopped (turn false s) h = refl
  finish-Stopped faulted h = refl
  finish-Stopped waiting h = refl
  finish-Stopped quit h = refl

  -- The session after the handshake has no more to read than before.
  Accepted : ℕ → Option (Bool × Session D) → Type 0
  Accepted n none = Unit
  Accepted n (some (accepted, s)) = left s.conn.reader ≤ n

  accept_client-Accepted :
      (so_error : ℕ → ℕ) (who : List ℕ × Bool) (s : Session D)
      → Accepted (left s.conn.reader) (accept_client dial fs so_error who s)
  unfolding accept_client respond_handshake_success respond_handshake_fail Accepted
  accept_client-Accepted so_error (username, from_primary) s = go _
    where
      go :
          (x : Option (Bool × List Client))
          → Accepted (left s.conn.reader) (elim x [
            | none ↦ none
            | some (false, clients') ↦
                some (false, tell (respond_status status_fail) (record s { clients = clients' }))
            | some (true, clients') ↦ some (
              true,
              tell (respond_status status_success) (record s {
                clients = clients';
                username = username;
                disk = fs.system (mkdir_command username) s.disk;
              }),
            )
          ])
      go none = tt
      go (some (false, clients')) = omega (
        arith,
        ap left (
            tell-Calm (respond_status status_fail) (record s { clients = clients' })
              (respond_status-Quiet status_fail)),
      )
      go (some (true, clients')) = omega (
        arith,
        ap left (
            tell-Calm (respond_status status_success)
              (record s {
                clients = clients';
                username = username;
                disk = fs.system (mkdir_command username) s.disk;
              })
              (respond_status-Quiet status_success)),
      )

  connect_to_client-Accepted :
      (so_error : ℕ → ℕ) (s : Session D)
      → Accepted (left s.conn.reader) (connect_to_client dial fs so_error s)
  unfolding connect_to_client Accepted
  connect_to_client-Accepted so_error s = go (handshake [] s.conn) ((handshake-Uses []).at s.conn)
    where
      weaken : (n m : ℕ) (x : Option (Bool × Session D)) → n ≤ m → Accepted n x → Accepted m x
      weaken n m none h a = tt
      weaken n m (some (accepted, s)) h a = omega arith

      go :
          (x : Option (List ℕ × Bool) × Connection)
          → Fell 2 (left s.conn.reader) (x.0, x.1.reader)
          → Accepted (left s.conn.reader) (elim x.0 [
            | none ↦ some (false, record s { conn = x.1 })
            | some who ↦ accept_client dial fs so_error who (record s { conn = x.1 })
          ])
      go (none, c) h = h
      go (some who, c) h =
          weaken _ _ _ (omega arith) (accept_client-Accepted so_error who (record s { conn = c }))

  -- On a disk on which the functions of `netfs` return, with memory for what is announced, and
  -- where the reads of each socket come to a failure in the end: whatever bytes and errors the
  -- client's socket gives before, whatever the backup servers answer and the state is, with fuel
  -- for more rounds than there are bytes to come `client_handler_thread` does not run out of fuel:
  -- the loop ends, by itself, by a fault, a lock or the end of the process.
  pub client_handler_thread-ends :
      (so_error : ℕ → ℕ) (fuel : ℕ) (s : Session D)
      → left s.conn.reader < fuel
      → still_running (client_handler_thread dial fs fuel so_error s) ≡ false
  unfolding client_handler_thread Accepted
  client_handler_thread-ends so_error fuel s h =
      go (connect_to_client dial fs so_error s) (connect_to_client-Accepted so_error s)
    where
      go :
          (x : Option (Bool × Session D))
          → Accepted (left s.conn.reader) x
          → still_running (elim x [
            | none ↦ faulted
            | some (false, s') ↦ turn false s'
            | some (true, s') ↦ finish (session_loop dial fs fuel s')
          ])
            ≡ false
      go none a = refl
      go (some (false, s')) a = refl
      go (some (true, s')) a = finish-Stopped _ (session_loop-Stopped fuel s' (omega arith))
