-- ===== src/Startup/Backup.antt =====
-- A new backup server learns the metadata of the primary server (server/src/main.cpp).
use trabalho_sistemas_operac.Prelude.{
  ℕ, ◌+◌, ◌%◌, ◌<◌, ◌^◌, ◌≡◌, ◌==◌, refl, sym, ap, ◌∙◌, Bool, true, some, List, [], ◌∷◌, ◌++◌, All,
  length, append-nil, append_assoc, arith,
}
use trabalho_sistemas_operac.Prelude.Exec.{Exec, pure, ◌>>=◌}
use trabalho_sistemas_operac.Net.Reader.Stream.{pending}
use trabalho_sistemas_operac.Net.Reader.Word.{little_endian, Reads-u16, Reads-u32}
use trabalho_sistemas_operac.Net.Writer.Stream.{written, Writes-u8}
use trabalho_sistemas_operac.Net.Writer.Word.{Writes-u16}
use trabalho_sistemas_operac.Net.Connection.{Connection, require}
use trabalho_sistemas_operac.Net.Connection.Talk.{
  Says-bind, IsOpen, Delivers, Hears-bind, Hears-bind_last, Hears-pure, Hears-reading, Says-writing,
  Delivers-Says_last, Delivers-Hears, Hears-require,
}
use trabalho_sistemas_operac.Protocol.Wire.{Delivers-flush_then}
use trabalho_sistemas_operac.Node.{
  Node, Server, Envelope, returned, backup, state_init, req_hello, req_register, req_get_primary,
  req_fetch_metadata, acquire_metadata, release_metadata, get_primary_server,
}
use trabalho_sistemas_operac.Coms.Client.{
  Dial, execute_request, write_request, read_response, read_primary, status_only, status_ok,
}
use trabalho_sistemas_operac.Coms.Fetch.{FitsServer, keep_first, fetch-Delivers, metadata_bytes}
use trabalho_sistemas_operac.Election.{talk}
use trabalho_sistemas_operac.Election.Handlers.{bind_lem}
use trabalho_sistemas_operac.Session.Sent.{written-flushed}
use trabalho_sistemas_operac.Startup.{Arguments, backup_init, register}
use trabalho_sistemas_operac.Startup.Requests.{ask_primary, ask_registration}

-- An answer with nothing but the status OK.
abbrev pub ok : List ℕ
ok = little_endian 2 0

hello-Delivers : (port : ℕ) → Delivers (execute_request port req_hello) (status_only 0) ok (15 ∷ [])
unfolding execute_request write_request read_response
hello-Delivers port = Delivers-Says_last _ _ tt _ (Says-writing (Writes-u8 15)) (
    Delivers-flush_then
      (Hears-bind_last _ _ 0 _ (Hears-reading (Reads-u16 0 (omega arith))) Hears-pure))

registers-Delivers :
    (port : ℕ)
    → Delivers (execute_request port req_register) (status_only 0) ok (16 ∷ little_endian 2 port)
unfolding execute_request write_request read_response
registers-Delivers port =
    Delivers-Says_last _ _ tt _
      (Says-bind _ _ tt _ (Says-writing (Writes-u8 16)) (Says-writing (Writes-u16 port)))
      (Delivers-flush_then
        (Hears-bind_last _ _ 0 _ (Hears-reading (Reads-u16 0 (omega arith))) Hears-pure))

primary-Delivers :
    (port ip primary_port : ℕ)
    → ip < 2 ^ 32
    → primary_port < 2 ^ 16
    → Delivers
        (execute_request port req_get_primary)
        (record { status = 0; servers = []; ip = ip; port = primary_port })
        (ok ++ (little_endian 4 ip ++ little_endian 2 primary_port))
        (17 ∷ [])
unfolding execute_request write_request read_response read_primary
primary-Delivers port ip primary_port hi hp =
    Delivers-Says_last _ _ tt _ (Says-writing (Writes-u8 17)) (
      Delivers-flush_then (
        Hears-bind _ _ 0 _ (Hears-reading (Reads-u16 0 (omega arith))) (
          Hears-bind _ _ ip _ (Hears-reading (Reads-u32 ip hi)) (
            Hears-bind_last _ _ primary_port _ (Hears-reading (Reads-u16 primary_port hp))
              Hears-pure))))

-- A request whose status is checked, and the rest of the conversation.
checked :
    {A B : Type 0} (m : Exec Connection A) (ok_status : A → Bool) (k : A → Exec Connection B)
    (a : A) (b : B) (i j o p : List ℕ)
    → Delivers m a i o
    → ok_status a ≡ true
    → Delivers (k a) b j p
    → Delivers (m >>= λ r. require (ok_status r) >>= λ _. k r) b (i ++ j) (o ++ p)
unfolding ◌>>=◌ require pure
checked m ok_status k a b i j o p hm e hk = record {
  at = λ c rest s q.
      let x = hm.at c (j ++ rest) s (q ∙ append_assoc i j rest) in
      let z = hk.at (m c).1 rest x.1 x.2 in
      rw (x.0, e)
        (
          z.0,
          z.1,
          z.2,
          z.3
              ∙ ap (λ bs. bs ++ p) (written-flushed (m c).1.writer x.4 ∙ x.3)
              ∙ append_assoc (written c.writer) o p,
          z.4,
        );
}

checked_last :
    {A B : Type 0} (m : Exec Connection A) (ok_status : A → Bool) (f : A → B) (a : A) (i o : List ℕ)
    → Delivers m a i o
    → ok_status a ≡ true
    → Delivers (m >>= λ r. require (ok_status r) >>= λ _. pure (f r)) (f a) i o
checked_last m ok_status f a i o hm e = rw append-nil at (
    Delivers-Hears m (λ r. require (ok_status r) >>= λ _. pure (f r)) a (f a) hm
      (Hears-bind (require (ok_status a)) (λ _. pure (f a)) tt (f a) (Hears-require e) Hears-pure))

ask_primary-Delivers :
    (port ip primary_port : ℕ)
    → ip < 2 ^ 32
    → primary_port < 2 ^ 16
    → Delivers
        (ask_primary port)
        (ip, primary_port)
        (ok ++ (ok ++ (little_endian 4 ip ++ little_endian 2 primary_port)))
        (15 ∷ 17 ∷ [])
unfolding ask_primary
ask_primary-Delivers port ip primary_port hi hp =
    checked (execute_request port req_hello) (λ r. r.status == status_ok) _ (status_only 0) _ ok _
      (15 ∷ []) (17 ∷ []) (hello-Delivers port) refl
      (checked_last (execute_request port req_get_primary) (λ r. r.status == status_ok)
        (λ r. (r.ip, r.port)) _ _ _ (primary-Delivers port ip primary_port hi hp) refl)

ask_registration-Delivers :
    (port : ℕ) (servers : List Server)
    → All FitsServer servers
    → length servers < 2 ^ 64
    → Delivers
        (ask_registration port)
        (keep_first servers)
        (ok ++ (ok ++ (ok ++ metadata_bytes servers)))
        (15 ∷ 16 ∷ (little_endian 2 port ++ 14 ∷ []))
unfolding ask_registration
ask_registration-Delivers port servers fits small =
    checked (execute_request port req_hello) (λ r. r.status == status_ok) _ (status_only 0) _ ok _
      (15 ∷ []) _ (hello-Delivers port) refl
      (checked (execute_request port req_register) (λ r. r.status == status_ok) _ (status_only 0) _
        ok _ (16 ∷ little_endian 2 port) (14 ∷ []) (registers-Delivers port) refl
        (checked_last (execute_request port req_fetch_metadata) (λ r. r.status == status_ok)
          (λ r. r.servers) _ _ _ (fetch-Delivers port servers fits small) refl))

-- A server that takes a connection and has this to say.
pub record Speaks (dial : Dial) (ip port : ℕ) (bytes : List ℕ) : Type 0 where
  pub conn : Connection
  pub dialled : dial ip (port % 2 ^ 16) ≡ some conn
  pub opened : IsOpen conn
  pub fresh : written conn.writer ≡ []
  pub reads : pending conn.reader ≡ bytes

abbrev pub post : ℕ → ℕ → List ℕ → Envelope
post ip port bytes = record { ip = ip; port = port % 2 ^ 16; bytes = bytes }

-- A conversation that goes well.
talk_lem :
    {A : Type 0} (dial : Dial) (ip port : ℕ) (m : Exec Connection A) (a : A) (i o : List ℕ)
    (n : Node)
    → Delivers m a i o
    → Speaks dial ip port i
    → talk dial ip port m n
      ≡ returned (some (some a)) (record n { outbox = n.outbox ++ post ip port o ∷ [] })
unfolding talk
talk_lem dial ip port m a i o n h k =
    let x = h.at k.conn [] k.opened (k.reads ∙ sym (append-nil i)) in
    let sent = x.3 ∙ ap (λ bs. bs ++ o) (k.fresh) in rw (k.dialled, talk, x.0, sent) refl

-- Where the other server can be dialled and answers with the address of a primary server, and that
-- server can be dialled and accepts the registration and answers with servers whose numbers fit:
-- `backup_init` sends exactly those requests, to port + 2 of each, and ends with these servers as
-- its metadata, the first primary one as the only primary, and with its locks free.
pub backup_init-learns :
    (dial : Dial) (args : Arguments) (ip primary_port : ℕ) (servers : List Server)
    → ip < 2 ^ 32
    → primary_port < 2 ^ 16
    → All FitsServer servers
    → length servers < 2 ^ 64
    → Speaks dial args.next_server_ip
        (args.next_server_port + 2)
        (ok ++ (ok ++ (little_endian 4 ip ++ little_endian 2 primary_port)))
    → Speaks dial ip (primary_port + 2) (ok ++ (ok ++ (ok ++ metadata_bytes servers)))
    → backup_init dial args
      ≡ returned tt (record (state_init args.ip args.port backup args.dns_ip args.dns_port) {
        servers = keep_first servers;
        outbox =
            post args.next_server_ip (args.next_server_port + 2) (15 ∷ 17 ∷ [])
            ∷ post ip (primary_port + 2) (15 ∷ 16 ∷ (little_endian 2 args.port ++ 14 ∷ []))
            ∷ [];
      })
unfolding backup_init register state_init get_primary_server acquire_metadata release_metadata
backup_init-learns dial args ip primary_port servers hi hp fits small other first =
    let n = state_init args.ip args.port backup args.dns_ip args.dns_port in
    let x =
      talk_lem dial args.next_server_ip (args.next_server_port + 2) (ask_primary args.port) _ _ _ n
        (ask_primary-Delivers args.port ip primary_port hi hp) other in
    let n' : Node = record n {
      outbox = post args.next_server_ip (args.next_server_port + 2) (15 ∷ 17 ∷ []) ∷ [];
    } in
    let y =
      talk_lem dial ip (primary_port + 2) (ask_registration args.port) _ _ _ n'
        (ask_registration-Delivers args.port servers fits small) first in
    bind_lem (talk dial args.next_server_ip (args.next_server_port + 2) (ask_primary args.port)) _ n
      x
    ∙ bind_lem (talk dial ip (primary_port + 2) (ask_registration args.port)) _ n' y
