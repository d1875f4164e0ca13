-- ===== src/Network/Ends.antt =====
-- The two loops of the network thread end (client/src/network.cpp).
use trabalho_sistemas_operac.Prelude.{
  ℕ, zero, suc, ◌+◌, ◌≡◌, ◌≤◌, ◌<◌, ◌==◌, refl, Bool, true, false, Bool-cases, Option-cases, inl,
  inr, Option, none, some, List, [], ◌∷◌, arith, All,
}
use trabalho_sistemas_operac.Net.Reader.{ByteArray}
use trabalho_sistemas_operac.Net.Reader.Left.{left, Fell}
use trabalho_sistemas_operac.Net.Connection.{Connection}
use trabalho_sistemas_operac.Protocol.{
  FileEvent, FileEventType, event_file_modified, event_file_deleted, status_success,
}
use trabalho_sistemas_operac.Protocol.Request.{request_handshake, request_update}
use trabalho_sistemas_operac.Protocol.Asked.{left-Uses, request_handshake-Uses, request_update-Uses}
use trabalho_sistemas_operac.Session.{pointed}
use trabalho_sistemas_operac.Coms.Client.{Dial}
use trabalho_sistemas_operac.Queue.{Call, done, try_pop}
use trabalho_sistemas_operac.App.{Task, Process, Host, network_deleted}
use trabalho_sistemas_operac.Network.{
  Thread, Turn, turn, Life, searching, looping, from_app, request_download_into, modified_read,
  modified_done, handle_file_event, update_done, handle_updates, then_updates, with_popped,
  network_round, network_loop, new_thread, thread_function, find_server, connected, retries, exits,
  handshaken, reach_server, Attempt, ask_dns,
}
use trabalho_sistemas_operac.Network.Halts.{
  AtMost, from_app-AtMost, handle_task-AtMost, request_download_into-left,
}

-- A connection with fewer bytes to come than there is fuel.
Short : ℕ → Attempt → Type 0
Short fuel (connected c) = left c.reader < fuel
Short fuel retries = Unit
Short fuel exits = Unit

handshaken-Short :
    (fuel : ℕ) (x : Option ℕ × Connection) → left x.1.reader < fuel → Short fuel (handshaken x)
unfolding Short
handshaken-Short fuel (none, c) h = tt
handshaken-Short fuel (some status, c) h = elim (Bool-cases (status == status_success)) [
  | inl e ↦ rw e h
  | inr e ↦ rw e tt
]

-- No connection that can be dialled has as many bytes to come as there is fuel.
abbrev pub Brief : ℕ → Dial → Type 0
Brief fuel dial = (ip port : ℕ) (c : Connection) → dial ip port ≡ some c → left c.reader < fuel

reach_server-Short :
    (fuel : ℕ) (dial : Dial) (username : List ℕ) (x : Option (ℕ × ℕ))
    → Brief fuel dial
    → Short fuel (reach_server dial username x)
unfolding Short
reach_server-Short fuel dial username none h = tt
reach_server-Short fuel dial username (some (ip, port)) h = elim (Option-cases (dial ip port)) [
  | inl e ↦ rw (e, Short) tt
  | inr (c, e) ↦
      rw (e, Short)
        (handshaken-Short fuel (request_handshake username false c)
          (omega (arith, h ip port c e, left-Uses (request_handshake-Uses username false) c)))
]

find_server-Short :
    (fuel : ℕ) (dial : Dial) (dns_ip dns_port : ℕ) (username : List ℕ)
    → Brief fuel dial
    → Short fuel (find_server dial dns_ip dns_port username)
unfolding find_server Short
find_server-Short fuel dial dns_ip dns_port username h =
    elim (Option-cases (dial dns_ip dns_port)) [
      | inl e ↦ rw (e, find_server) tt
      | inr (c, e) ↦ rw (e, find_server) (reach_server-Short fuel dial username (ask_dns c).0 h)
    ]

module _ {D : Type 0} where
  -- Another round only after a byte was taken.
  Within : ℕ → Turn D → Type 0
  Within n (turn true t) = left t.conn.reader + 1 ≤ n
  Within n (turn false t) = Unit
  Within n Turn.waits = Unit
  Within n Turn.faults = Unit

  AtMost-Within : (m n : ℕ) (o : Turn D) → m + 1 ≤ n → AtMost m o → Within n o
  unfolding AtMost Within
  AtMost-Within m n (turn true t) h a = omega arith
  AtMost-Within m n (turn false t) h a = tt
  AtMost-Within m n Turn.waits h a = tt
  AtMost-Within m n Turn.faults h a = tt

  Within-mono : (m n : ℕ) (o : Turn D) → m ≤ n → Within m o → Within n o
  unfolding Within
  Within-mono m n (turn true t) h a = omega arith
  Within-mono m n (turn false t) h a = tt
  Within-mono m n Turn.waits h a = tt
  Within-mono m n Turn.faults h a = tt

  -- Whether the fuel ended before the inner loop did.
  abbrev still_looping : Turn D → Bool
  still_looping (turn running t) = running
  still_looping Turn.waits = false
  still_looping Turn.faults = false

  -- Whether a life is one that has not left the inner loop.
  abbrev pub is_looping : Life D → Bool
  is_looping (looping t) = true
  is_looping (searching p) = false
  is_looping Life.exited = false
  is_looping Life.stuck = false
  is_looping Life.faulty = false

  module _ (host : Host D) where
    modified_read-AtMost :
        (running : Bool) (filename : List ℕ) (t : Thread D) (n : ℕ) (x : Option (List ℕ))
        → left t.conn.reader ≤ n
        → AtMost n (modified_read host running filename t x)
    unfolding AtMost
    modified_read-AtMost running filename t n none h = tt
    modified_read-AtMost running filename t n (some bytes) h = from_app-AtMost n running t _ h

    modified_done-AtMost :
        (running : Bool) (filename : List ℕ) (t : Thread D) (n : ℕ)
        (x : (Option ℕ × ByteArray) × Connection)
        → left x.1.reader ≤ n
        → AtMost n (modified_done host running filename t x)
    unfolding AtMost
    modified_done-AtMost running filename t n ((none, array), c) h = h
    modified_done-AtMost running filename t n ((some status, array), c) h =
        modified_read-AtMost running filename (record t { conn = c; array = array }) n
          (pointed array) h

    handle_file_event-AtMost :
        (running : Bool) (event : FileEvent) (t : Thread D)
        → AtMost (left t.conn.reader) (handle_file_event host running event t)
    unfolding handle_file_event
    handle_file_event-AtMost running event t = go event.type
      where
        go :
            (type : FileEventType)
            → AtMost (left t.conn.reader) (elim type [
              | event_file_modified ↦
                  modified_done host running event.filename t
                    (request_download_into t.array event.filename t.conn)
              | event_file_deleted ↦
                  from_app running t (network_deleted host event.filename t.process)
            ])
        go event_file_modified =
            modified_done-AtMost running event.filename t _ _
              (request_download_into-left t.array event.filename t.conn)
        go event_file_deleted = from_app-AtMost _ running t _ (omega arith)

    handle_updates-Within :
        (running : Bool) (t : Thread D)
        → Within (left t.conn.reader) (handle_updates host running t)
    unfolding handle_updates Within
    handle_updates-Within running t = go (request_update t.conn) (request_update-Uses.at t.conn)
      where
        still : (n : ℕ) (b : Bool) (u : Thread D) → left u.conn.reader + 1 ≤ n → Within n (turn b u)
        still n true u h = h
        still n false u h = tt

        go :
            (x : Option (ℕ × Option FileEvent) × Connection)
            → Fell 1 (left t.conn.reader) (x.0, x.1.reader)
            → Within (left t.conn.reader) (update_done host running t x)
        go (none, c) h = tt
        go (some (status, none), c) h = still _ running _ h
        go (some (status, some event), c) h =
            AtMost-Within (left c.reader) _ _ h
              (handle_file_event-AtMost running event (record t { conn = c }))

    then_updates-Within : (n : ℕ) (o : Turn D) → AtMost n o → Within n (then_updates host o)
    unfolding AtMost Within
    then_updates-Within n (turn running t) h = Within-mono _ n _ h (handle_updates-Within running t)
    then_updates-Within n Turn.waits h = tt
    then_updates-Within n Turn.faults h = tt

    network_round-Within : (t : Thread D) → Within (left t.conn.reader) (network_round host t)
    unfolding network_round Within
    network_round-Within t = go (try_pop t.process.task_queue)
      where
        go : (x : Call Task (Option Task)) → Within (left t.conn.reader) (with_popped host t x)
        go (done none q) = handle_updates-Within true _
        go (done (some task) q) = then_updates-Within _ _ (handle_task-AtMost host task _)
        go Call.waits = tt
        go Call.broken = tt

    network_loop-Stopped :
        (fuel : ℕ) (t : Thread D)
        → left t.conn.reader < fuel
        → still_looping (network_loop host fuel t) ≡ false
    unfolding network_loop Within
    network_loop-Stopped zero t h = elim h [ ]
    network_loop-Stopped (suc fuel) t h =
        go (network_round host t) (λ u k. network_loop-Stopped fuel u k) (network_round-Within t)
      where
        go :
            (o : Turn D)
            → ((u : Thread D)
                → left u.conn.reader < fuel
                → still_looping (network_loop host fuel u) ≡ false)
            → Within (left t.conn.reader) o
            → still_looping (elim o [
              | turn true u ↦ network_loop host fuel u
              | turn false u ↦ turn false u
              | Turn.waits ↦ Turn.waits
              | Turn.faults ↦ Turn.faults
            ])
              ≡ false
        go (turn true u) next w = next u (omega arith)
        go (turn false u) next w = refl
        go Turn.waits next w = refl
        go Turn.faults next w = refl

    -- On a disk on which the functions of `netfs` return, with memory for the lengths that a server
    -- announces, and where the reads of every connection come to a failure in the end and no
    -- connection that can be dialled has as many bytes to come as there is fuel for its rounds,
    -- `thread_function` leaves the inner loop on each of its connections before the fuel ends,
    -- whatever the tasks, the answers of the servers and the results of the disk are.
    pub thread_function-ends :
        (fuel dns_ip dns_port : ℕ) (dials : List (Dial × ℕ)) (p : Process D)
        → All (λ d. Brief fuel d.0) dials
        → is_looping (thread_function host fuel dns_ip dns_port dials p) ≡ false
    unfolding thread_function Short
    thread_function-ends fuel dns_ip dns_port [] p h = refl
    thread_function-ends fuel dns_ip dns_port ((dial, memory) ∷ dials) p h =
        tried (find_server dial dns_ip dns_port p.username)
          (λ q. thread_function-ends fuel dns_ip dns_port dials q h.1)
          (find_server-Short fuel dial dns_ip dns_port p.username h.0)
      where
        left_loop :
            (o : Turn D)
            → ((q : Process D)
                → is_looping (thread_function host fuel dns_ip dns_port dials q) ≡ false)
            → still_looping o ≡ false
            → is_looping (elim o [
              | turn true t ↦ looping t
              | turn false t ↦ thread_function host fuel dns_ip dns_port dials t.process
              | Turn.waits ↦ Life.stuck
              | Turn.faults ↦ Life.faulty
            ])
              ≡ false
        left_loop (turn true t) next e = e
        left_loop (turn false t) next e = next t.process
        left_loop Turn.waits next e = refl
        left_loop Turn.faults next e = refl

        tried :
            (a : Attempt)
            → ((q : Process D)
                → is_looping (thread_function host fuel dns_ip dns_port dials q) ≡ false)
            → Short fuel a
            → is_looping (elim a [
              | exits ↦ Life.exited
              | retries ↦ thread_function host fuel dns_ip dns_port dials p
              | connected conn ↦ elim (network_loop host fuel (new_thread host memory p conn)) [
                | turn true t ↦ looping t
                | turn false t ↦ thread_function host fuel dns_ip dns_port dials t.process
                | Turn.waits ↦ Life.stuck
                | Turn.faults ↦ Life.faulty
              ]
            ])
              ≡ false
        tried exits next s = refl
        tried retries next s = next p
        tried (connected conn) next s =
            left_loop (network_loop host fuel (new_thread host memory p conn)) next
              (network_loop-Stopped fuel (new_thread host memory p conn) s)
