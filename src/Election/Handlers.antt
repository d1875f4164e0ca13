-- ===== src/Election/Handlers.antt =====
-- What the handlers of the election messages do to the state of a server, and what they send, on a
-- network that reaches every server.
use trabalho_sistemas_operac.Prelude.{
  refl, ap, ◌∙◌, ℕ, ◌+◌, ◌%◌, ◌^◌, ◌<◌, ◌≡◌, inl, inr, true, false, none, some, List, [], ◌∷◌, ◌++◌,
  length, ◌==◌, Bool-cases,
}
use trabalho_sistemas_operac.Node.{
  returned, Outcome, ◌>>=◌, return, Run, Server, Node, Envelope, acquire_metadata, release_metadata,
}
use trabalho_sistemas_operac.Coms.Client.{Dial}
use trabalho_sistemas_operac.Election.{
  write_message, read_message, Connection, talk, send_message, tell_dns, primary, set_elected,
  backup, mark_primary, become_primary, without_primary, Option, pass_on,
  handle_async_election_message, get_next_server, index_of, server_eq, next_server, comp,
}
use trabalho_sistemas_operac.Net.Reader.Word.{little_endian, Reads-u8, Reads-u32, Reads-u16}
use trabalho_sistemas_operac.Net.Connection.Talk.{
  Delivers, Hears, IsOpen, Delivers-Says, Says-writing, Hears-bind, Hears-reading,
  Delivers-Says_last, Hears-bind_last, Delivers-flush, Hears-pure,
}
use trabalho_sistemas_operac.Net.Reader.Stream.{pending}
use trabalho_sistemas_operac.Net.Writer.Stream.{written, Writes-u8}
use trabalho_sistemas_operac.Net.Writer.Word.{Writes-u32, Writes-u16}
use trabalho_sistemas_operac.Election.Ring.{decide}

-- Every dial gives a fresh connection on which everything can be sent.
pub record IsReachable (dial : Dial) : Type 0 where
  pub at :
      (ip port : ℕ)
      → (c : Connection) × (dial ip port ≡ some c) × IsOpen c × (written c.writer ≡ [])

-- The bytes of a message.
unfoldable pub message : ℕ → Server → List ℕ
message kind subject = kind ∷ (little_endian 4 subject.ip ++ little_endian 2 subject.port)

-- On any open connection the message of a server, of any kind, is handed to the socket: the kind,
-- the address and the port.
pub write_message-Delivers :
    (kind : ℕ) (subject : Server)
    → Delivers (write_message kind subject) tt [] (message kind subject)
unfolding write_message message
write_message-Delivers kind subject = Delivers-Says _ _ tt _ (Says-writing (Writes-u8 kind)) (
    Delivers-Says _ _ tt _ (Says-writing (Writes-u32 subject.ip))
      (Delivers-Says_last _ _ tt _ (Says-writing (Writes-u16 subject.port)) Delivers-flush))

-- On any connection with a sound reader and the message of a server pending, whose numbers fit
-- their types, the election listener reads the kind of the message and that server as a backup
-- server, and takes just the message.
pub read_message-Hears :
    (kind : ℕ) (subject : Server)
    → subject.ip < 2 ^ 32
    → subject.port < 2 ^ 16
    → Hears read_message (kind, record subject { server_type = backup }) (message kind subject)
unfolding read_message message
read_message-Hears kind subject hi hp = Hears-bind _ _ kind _ (Hears-reading (Reads-u8 kind)) (
    Hears-bind _ _ subject.ip _ (Hears-reading (Reads-u32 subject.ip hi))
      (Hears-bind_last _ _ subject.port _ (Hears-reading (Reads-u16 subject.port hp)) Hears-pure))

abbrev pub posted : Node → Envelope → Node
posted n e = record n { outbox = n.outbox ++ e ∷ [] }

abbrev pub envelope : ℕ → ℕ → ℕ → Server → Envelope
envelope ip port kind subject = record {
  ip = ip;
  port = port % 2 ^ 16;
  bytes = message kind subject;
}

pub bind_lem :
    {A B : Type 0} (m : Run A) (f : A → Run B) (n : Node) {a : A} {n' : Node}
    → m n ≡ returned a n'
    → (m >>= f) n ≡ f a n'
bind_lem m f n e = ap (λ r. ((λ _. r) >>= f) n) e

pub acquire_lem :
    (n : Node)
    → n.metadata_mutex ≡ true
    → acquire_metadata n ≡ returned n.servers (record n { metadata_mutex = false })
unfolding acquire_metadata
acquire_lem n free = rw free refl

pub get_next_server_lem :
    (current : Server) (n : Node)
    → n.metadata_mutex ≡ true
    → (index_of current n.servers == length n.servers) ≡ false
    → get_next_server current n
      ≡ returned (next_server n.servers current) (record n { metadata_mutex = true })
unfolding get_next_server release_metadata
get_next_server_lem current n free found =
    bind_lem acquire_metadata _ n (acquire_lem n free) ∙ rw found refl

-- The state of a server that was elected, before it tells the next one.
abbrev pub elected_node : Node → Node
elected_node n =
    let current = record (n.current_server) { server_type = primary } in
    posted
      (record n {
        current_server = current;
        servers = mark_primary current n.servers;
        metadata_mutex = true;
      })
      (envelope n.dns_ip n.dns_port 20 current)

-- What is left of the metadata.
abbrev pub demoted : Node → Node
demoted n = record n { servers = without_primary n.servers; metadata_mutex = true }

-- The message that a server sends on when it is not elected.
abbrev pub told_on : Option Server → Server → Node → Outcome (Unit {0})
told_on none next n =
    let n' = elected_node n in
    returned tt (posted n' (envelope next.ip (next.port + 1) 20 n'.current_server))
told_on (some w) next n = returned tt (posted n (envelope next.ip (next.port + 1) 10 w))

module _ (dial : Dial) (reach : IsReachable dial) where
  talk_lem :
      (ip port kind : ℕ) (subject : Server) (n : Node)
      → talk dial ip port (write_message kind subject) n
        ≡ returned (some (some tt)) (posted n (envelope ip port kind subject))
  unfolding talk
  talk_lem ip port kind subject n =
      let line = reach.at ip (port % 2 ^ 16) in
      let x = (write_message-Delivers kind subject).at line.0 (pending line.0.reader) line.2 refl in
      rw (line.1, talk)
        (rw (x.0) (
          ap
            (λ bs.
              returned (some (some tt))
                (posted n (record { ip = ip; port = port % 2 ^ 16; bytes = bs })))
            (x.3 ∙ ap (λ bs. bs ++ message kind subject) (line.3))))

  pub send_message_lem :
      (kind : ℕ) (next subject : Server) (n : Node)
      → send_message dial kind next subject n
        ≡ returned tt (posted n (envelope next.ip (next.port + 1) kind subject))
  unfolding send_message
  send_message_lem kind next subject n =
      bind_lem (talk dial next.ip (next.port + 1) (write_message kind subject)) (λ _. return tt) n
        (talk_lem next.ip (next.port + 1) kind subject n)

  tell_dns_lem :
      (current : Server) (n : Node)
      → tell_dns dial current n ≡ returned tt (posted n (envelope n.dns_ip n.dns_port 20 current))
  unfolding tell_dns
  tell_dns_lem current n = rw (talk_lem n.dns_ip n.dns_port 20 current n, tell_dns) refl

  set_elected_lem :
      (n : Node) → n.metadata_mutex ≡ true → set_elected dial n ≡ returned tt (elected_node n)
  unfolding set_elected acquire_metadata release_metadata become_primary
  set_elected_lem n free = bind_lem acquire_metadata _ n (acquire_lem n free) ∙ tell_dns_lem _ _

  pass_on_lem :
      (n : Node) (next winner : Server)
      → n.metadata_mutex ≡ true
      → pass_on dial n.current_server next winner n
        ≡ told_on (decide n.current_server winner) next n
  unfolding pass_on decide
  pass_on_lem n next winner free = elim (Bool-cases (server_eq n.current_server winner)) [
    | inl same ↦ rw same (
        bind_lem (set_elected dial) _ n (set_elected_lem n free)
        ∙ send_message_lem 20 next _ (elected_node n))
    | inr other ↦ elim (Bool-cases (comp n.current_server winner)) [
      | inl better ↦ rw (other, better) (send_message_lem 10 next n.current_server n)
      | inr worse ↦ rw (other, worse) (send_message_lem 10 next winner n)
    ]
  ]

  -- With the lock free, the current server in what is left of the metadata, and a network that
  -- reaches every server, the handler of an election message drops the primary servers from the
  -- metadata and follows `decide`: a server that hears of itself becomes primary in its state and
  -- its metadata, tells the name server and sends an elected message; any other server sends an
  -- election message with the better of the two. The message goes to the election port of the next
  -- server.
  pub handle_async_election_message_lem :
      (n : Node) (winner : Server)
      → n.metadata_mutex ≡ true
      → (index_of n.current_server (without_primary n.servers)
          == length (without_primary n.servers))
        ≡ false
      → handle_async_election_message dial winner n
        ≡ told_on
            (decide n.current_server winner)
            (next_server (without_primary n.servers) n.current_server)
            (demoted n)
  unfolding handle_async_election_message acquire_metadata release_metadata get_next_server
  handle_async_election_message_lem n winner free found =
      bind_lem acquire_metadata _ n (acquire_lem n free)
      ∙ bind_lem (get_next_server n.current_server) _ (demoted n)
          (get_next_server_lem n.current_server (demoted n) refl found)
      ∙ pass_on_lem (demoted n) _ winner refl
