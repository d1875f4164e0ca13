-- ===== src/Coms/Register.antt =====
-- Registering at a server (server/src/coms.cpp, request 16), with requests to other servers that are
-- refused, answered or fail.
use trabalho_sistemas_operac.Prelude.{
  refl, ap, ◌∙◌, ℕ, ◌+◌, ◌%◌, ◌^◌, ◌<◌, ◌≡◌, inl, inr, Bool, true, false, none, some, Option, List,
  [], ◌∷◌, ◌++◌, if◌then◌else◌, Bool-cases, Option-cases,
}
use trabalho_sistemas_operac.Prelude.Exec.{Exec}
use trabalho_sistemas_operac.Node.{
  returned, Node, Server, is_primary, server_eq, acquire_metadata, release_metadata,
  req_update_metadata, ◌>>=◌, Run,
}
use trabalho_sistemas_operac.Net.Connection.{Connection, reading}
use trabalho_sistemas_operac.Net.Reader.{read_u8, read_u16}
use trabalho_sistemas_operac.Net.Reader.Stream.{pending}
use trabalho_sistemas_operac.Net.Reader.Word.{little_endian, Reads-u8, Reads-u16}
use trabalho_sistemas_operac.Net.Connection.Talk.{
  IsOpen, Hears-reading, Delivers, Delivers-Says_last, Delivers-flush, Says-writing,
}
use trabalho_sistemas_operac.Net.Writer.Stream.{written}
use trabalho_sistemas_operac.Net.Writer.Word.{Writes-u16}
use trabalho_sistemas_operac.Coms.Client.{Dial, execute_request, status_ok, Response}
use trabalho_sistemas_operac.Coms.Server.{
  Link, on_socket, send_status, set_peer_port, request_updates, serve_register, serve_request,
  coms_handle_request, check, accept, refuse, answered,
}
use trabalho_sistemas_operac.Coms.Answer.{serve_bind, serve_says, serve_state}
use trabalho_sistemas_operac.Election.{talk}
use trabalho_sistemas_operac.Election.Handlers.{bind_lem, acquire_lem}

-- The metadata is as it was, and free.
pub record Keeps (n n' : Node) : Type 0 where
  pub servers : n'.servers ≡ n.servers
  pub free : n'.metadata_mutex ≡ n.metadata_mutex

Keeps-refl : (n : Node) → Keeps n n
Keeps-refl n = record { servers = refl; free = refl }

pub talk-Keeps :
    {A : Type 0} (dial : Dial) (ip port : ℕ) (exchange : Exec Connection A) (n : Node)
    → (res : Option (Option A)) × (n' : Node) × (talk dial ip port exchange n ≡ returned res n')
      × Keeps n n'
unfolding talk
talk-Keeps dial ip port exchange n = elim (Option-cases (dial ip (port % 2 ^ 16))) [
  | inl e ↦ (none, n, rw (e, talk) refl, Keeps-refl n)
  | inr (c, e) ↦ (
    some (exchange c).0,
    record n {
      outbox =
          n.outbox
          ++ record { ip = ip; port = port % 2 ^ 16; bytes = (exchange c).1.writer.sent } ∷ [];
    },
    rw (e, talk) refl,
    record { servers = refl; free = refl },
  )
]

Keeps-trans : (a b c : Node) → Keeps a b → Keeps b c → Keeps a c
Keeps-trans a b c h k = record { servers = k.servers ∙ h.servers; free = k.free ∙ h.free }

answered-Keeps :
    (rest : Run Bool) (m : Run (Option (Option Response))) (n : Node)
    (res : Option (Option Response)) (n1 : Node)
    → m n ≡ returned res n1
    → Keeps n n1
    → (done : Bool) × (n' : Node) × (rest n1 ≡ returned done n') × Keeps n1 n'
    → (done : Bool) × (n' : Node) × ((m >>= answered rest) n ≡ returned done n') × Keeps n n'
unfolding answered
answered-Keeps rest m n none n1 e k later = (false, n1, bind_lem m (answered rest) n e, k)
answered-Keeps rest m n (some none) n1 e k later = (false, n1, bind_lem m (answered rest) n e, k)
answered-Keeps rest m n (some (some response)) n1 e k later =
    (later.0, later.1, bind_lem m (answered rest) n e ∙ later.2, Keeps-trans n n1 later.1 k later.3)

request_updates-Keeps :
    (dial : Dial) (peer : Server) (servers : List Server) (n : Node)
    → (done : Bool) × (n' : Node) × (request_updates dial peer servers n ≡ returned done n')
      × Keeps n n'
unfolding request_updates
request_updates-Keeps dial peer [] n = (true, n, refl, Keeps-refl n)
request_updates-Keeps dial peer (s ∷ servers) n = elim (Bool-cases (is_primary s)) [
  | inl p ↦ rw p (request_updates-Keeps dial peer servers n)
  | inr b ↦ elim (Bool-cases (server_eq s peer)) [
    | inl e ↦ rw (b, e) (request_updates-Keeps dial peer servers n)
    | inr e ↦
        let asked =
          talk-Keeps dial s.ip (s.port + 2)
            (execute_request n.current_server.port req_update_metadata) n in
        rw (b, e)
          (answered-Keeps (request_updates dial peer servers)
            (talk dial s.ip (s.port + 2)
              (execute_request n.current_server.port req_update_metadata))
            n asked.0 asked.1 (asked.2) asked.3 (request_updates-Keeps dial peer servers asked.1))
  ]
]

pub send_status-Delivers :
    (status : ℕ) → Delivers (send_status status) tt [] (little_endian 2 status)
unfolding send_status
send_status-Delivers status =
    Delivers-Says_last _ _ tt _ (Says-writing (Writes-u16 status)) Delivers-flush

check_lem :
    (dial : Dial) (done : Bool) (link : Link) (n : Node)
    → check dial done link n ≡ returned (if done then some tt else none, link) n
unfolding check accept refuse
check_lem dial true link n = refl
check_lem dial false link n = refl

-- On an open connection to which nothing has been written, with the request to register a 16-bit
-- port pending and the lock free: where each server that is asked to update refuses the connection,
-- answers or fails, and none keeps it open and silent, the handler returns, the metadata has the
-- server at the other end with that port behind the old servers, the lock is free, and just a
-- success status has been sent.
pub coms_handle_request_registers :
    (dial : Dial) (link : Link) (n : Node) (port : ℕ) (rest : List ℕ)
    → IsOpen link.conn
    → written link.conn.writer ≡ []
    → pending link.conn.reader ≡ 16 ∷ (little_endian 2 port ++ rest)
    → port < 2 ^ 16
    → n.metadata_mutex ≡ true
    → (o : Option (Unit {0})) × (link' : Link) × (n' : Node) × (coms_handle_request dial link n
        ≡ returned (o, link') n')
      × (n'.servers ≡ n.servers ++ record (link.peer) { port = port } ∷ [])
      × (n'.metadata_mutex ≡ true)
      × (link'.conn.writer.sent ≡ little_endian 2 status_ok)
unfolding coms_handle_request serve_request serve_register set_peer_port accept release_metadata
coms_handle_request_registers dial link n port rest open_line fresh e fits free =
    let x =
      (Hears-reading (Reads-u8 16)).at link.conn (little_endian 2 port ++ rest) open_line.sound e in
    let c1 : Connection = (reading read_u8 link.conn).1 in
    let y = (Hears-reading (Reads-u16 port fits)).at c1 rest x.1 x.2 in
    let c2 : Connection = (reading read_u16 c1).1 in
    let peer : Server = record (link.peer) { port = port } in
    let z =
      (send_status-Delivers status_ok).at c2 rest
        (record { sound = y.1; reliable = rw (y.3) (rw (x.3) (open_line.reliable)) }) y.2 in
    let c3 : Connection = (send_status status_ok c2).1 in
    let l1 : Link = record link { conn = c1 } in
    let l2 : Link = record link { conn = c2 } in
    let l2' : Link = record { conn = c2; peer = peer } in
    let l3 : Link = record { conn = c3; peer = peer } in
    let n1 : Node = record n { servers = n.servers ++ peer ∷ []; metadata_mutex = true } in
    let told = request_updates-Keeps dial peer n1.servers n1 in
    (
      if told.0 then some tt else none,
      l3,
      told.1,
      serve_bind (on_socket (reading read_u8)) _ link n (serve_says link n (reading read_u8) (x.0))
          ∙ serve_bind (on_socket (reading read_u16)) _ l1 n
              (serve_says l1 n (reading read_u16) (y.0))
          ∙ serve_bind (set_peer_port port) _ l2 n {link' = l2'} refl
          ∙ serve_bind _ _ l2' n {n' = n1}
              (serve_state _ l2' n (bind_lem acquire_metadata _ n (acquire_lem n free)))
          ∙ serve_bind _ _ l2' n1 (serve_says l2' n1 (send_status status_ok) (z.0))
          ∙ serve_bind _ _ l3 n1 {n' = n1}
              (serve_state _ l3 n1 (bind_lem acquire_metadata _ n1 (acquire_lem n1 refl)))
          ∙ serve_bind _ _ l3 n1 (serve_state (request_updates dial peer n1.servers) l3 n1 (told.2))
          ∙ check_lem dial told.0 l3 told.1,
      told.3.servers,
      told.3.free,
      z.3 ∙ ap (λ k. k ++ little_endian 2 status_ok) (ap written (y.3) ∙ ap written (x.3) ∙ fresh),
    )
