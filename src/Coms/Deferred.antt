-- ===== src/Coms/Deferred.antt =====
-- The deferred requests of a server (server/src/coms.cpp): an update of the metadata that it is told
-- of, and the fetch that follows before the next accept.
use trabalho_sistemas_operac.Prelude.{
  refl, ◌∙◌, ℕ, ◌≡◌, true, some, List, [], ◌∷◌, ◌++◌, ◌%◌, ◌^◌, ◌+◌, All, length, ◌<◌, ap, false,
}
use trabalho_sistemas_operac.Node.{
  returned, Node, acquire_deferred_requests, release_deferred_requests, req_update_metadata, Server,
  release_metadata, first_primary, acquire_metadata, req_fetch_metadata, get_primary_server,
}
use trabalho_sistemas_operac.Net.Connection.{Connection, reading}
use trabalho_sistemas_operac.Net.Reader.{read_u8}
use trabalho_sistemas_operac.Net.Reader.Stream.{pending}
use trabalho_sistemas_operac.Net.Reader.Word.{Reads-u8, little_endian}
use trabalho_sistemas_operac.Net.Connection.Talk.{IsOpen, Hears-reading}
use trabalho_sistemas_operac.Coms.Client.{Dial, status_ok, Response, execute_request}
use trabalho_sistemas_operac.Coms.Server.{
  Link, on_socket, send_status, serve_request, serve_update_metadata, defer_request,
  coms_handle_request, run_deferred, handle_deferred, run_all,
}
use trabalho_sistemas_operac.Coms.Answer.{serve_bind, serve_says, serve_state}
use trabalho_sistemas_operac.Coms.Register.{send_status-Delivers}
use trabalho_sistemas_operac.Heartbeat.Twice.{get_primary_server_lem}
use trabalho_sistemas_operac.Election.Handlers.{posted, bind_lem, acquire_lem}
use trabalho_sistemas_operac.Election.{talk, take_metadata}
use trabalho_sistemas_operac.Prelude.Exec.{Exec}
use trabalho_sistemas_operac.Coms.Fetch.{metadata_bytes, FitsServer, keep_first, fetch-Delivers}

-- The update is put off.
abbrev deferred : Node → Node
deferred n = record n {
  deferred_requests = n.deferred_requests ++ req_update_metadata ∷ [];
  deferred_requests_mutex = true;
}

defer_request_lem :
    (dial : Dial) (n : Node)
    → n.deferred_requests_mutex ≡ true
    → defer_request dial req_update_metadata n ≡ returned tt (deferred n)
unfolding defer_request acquire_deferred_requests release_deferred_requests
defer_request_lem dial n free = rw free refl

serve_update_metadata_lem :
    (dial : Dial) (link : Link) (n : Node) (rest : List ℕ)
    → IsOpen link.conn
    → pending link.conn.reader ≡ 18 ∷ rest
    → n.deferred_requests_mutex ≡ true
    → (link' : Link) × (coms_handle_request dial link n ≡ returned (some tt, link') (deferred n))
unfolding coms_handle_request serve_request serve_update_metadata
serve_update_metadata_lem dial link n rest open_line e free =
    let x = (Hears-reading (Reads-u8 18)).at link.conn rest open_line.sound e in
    let c1 : Connection = (reading read_u8 link.conn).1 in
    let y =
      (send_status-Delivers status_ok).at c1 rest
        (record { sound = x.1; reliable = rw (x.3) (open_line.reliable) }) x.2 in
    let l1 : Link = record link { conn = c1 } in
    let l2 : Link = record link { conn = (send_status status_ok c1).1 } in
    (
      l2,
      serve_bind (on_socket (reading read_u8)) _ link n (serve_says link n (reading read_u8) (x.0))
          ∙ serve_bind (on_socket (send_status status_ok)) _ l1 n
              (serve_says l1 n (send_status status_ok) (y.0))
          ∙ serve_state (defer_request dial req_update_metadata) l2 n
              (defer_request_lem dial n free),
    )

-- The network after an exchange with the server at `ip` and `port`.
abbrev pub asked : Node → ℕ → ℕ → Connection → Node
asked n ip port c = posted n (record { ip = ip; port = port % 2 ^ 16; bytes = c.writer.sent })

pub talk-connected :
    {A : Type 0} (dial : Dial) (ip port : ℕ) (exchange : Exec Connection A) (n : Node)
    (c : Connection) {a : A}
    → dial ip (port % 2 ^ 16) ≡ some c
    → (exchange c).0 ≡ some a
    → talk dial ip port exchange n ≡ returned (some (some a)) (asked n ip port (exchange c).1)
unfolding talk
talk-connected dial ip port exchange n c e ok = rw (e, talk) (rw ok refl)

take_metadata_lem :
    (response : Response) (n : Node)
    → response.status ≡ 0
    → n.metadata_mutex ≡ true
    → take_metadata (some (some response)) n
      ≡ returned true (record n { servers = response.servers; metadata_mutex = true })
unfolding take_metadata release_metadata
take_metadata_lem response n ok free = rw ok (bind_lem acquire_metadata _ n (acquire_lem n free))

-- What the primary server sends for its metadata.
abbrev pub fetched : List Server → List ℕ
fetched servers = little_endian 2 0 ++ metadata_bytes servers

module _ (dial : Dial) (s : Server) (c : Connection) (servers : List Server) (rest : List ℕ) where
  -- The exchange with the primary server succeeds.
  run_deferred_lem :
      (n : Node)
      → n.metadata_mutex ≡ true
      → first_primary n.servers ≡ some s
      → dial s.ip ((s.port + 2) % 2 ^ 16) ≡ some c
      → IsOpen c
      → pending c.reader ≡ fetched servers ++ rest
      → All FitsServer servers
      → length servers < 2 ^ 64
      → run_deferred dial req_update_metadata n
        ≡ returned tt
            (record (asked n s.ip
              (s.port + 2)
              (execute_request n.current_server.port req_fetch_metadata c).1) {
                servers = keep_first servers;
                metadata_mutex = true;
              })
  unfolding run_deferred
  run_deferred_lem n free found dialled open_line e fits small =
      let port = n.current_server.port in
      let exchange = execute_request port req_fetch_metadata in
      let x = (fetch-Delivers port servers fits small).at c rest open_line e in
      let n1 : Node = record n { metadata_mutex = true } in
      bind_lem get_primary_server _ n (rw found at (get_primary_server_lem n free))
      ∙ bind_lem (talk dial s.ip (s.port + 2) exchange) _ n1
          (talk-connected dial s.ip (s.port + 2) exchange n1 c dialled (x.0))
      ∙ bind_lem (take_metadata (some (some _))) _ (asked n1 s.ip (s.port + 2) (exchange c).1)
          (take_metadata_lem _ (asked n1 s.ip (s.port + 2) (exchange c).1) refl refl)

handle_deferred_lem :
    (dial : Dial) (n n' : Node)
    → n.deferred_requests_mutex ≡ true
    → n.deferred_requests ≡ req_update_metadata ∷ []
    → run_deferred dial req_update_metadata (record n { deferred_requests_mutex = false })
      ≡ returned tt n'
    → handle_deferred dial n ≡ returned tt (record n' { deferred_requests_mutex = true })
unfolding handle_deferred run_all acquire_deferred_requests release_deferred_requests
handle_deferred_lem dial n n' free one ran =
    let held : Node = record n { deferred_requests_mutex = false } in
    let acquired : acquire_deferred_requests n ≡ returned n.deferred_requests held = rw free refl in
    bind_lem acquire_deferred_requests _ n acquired
    ∙ bind_lem (run_all dial n.deferred_requests) _ held (
        ap (λ requests. run_all dial requests held) one
        ∙ bind_lem (run_deferred dial req_update_metadata) _ held ran)

-- On an open connection with the request 18 pending, with both locks free, nothing deferred, a
-- primary server in the metadata, and an open connection to it on which the answer to a request for
-- the metadata is pending, for servers whose numbers fit their types: the request succeeds and
-- leaves the servers as they are; the deferred requests that are run after it replace them by the
-- servers of the answer, the first primary one as the only primary, and leave both locks free and
-- the request in the list.
pub coms_handle_request-handle_deferred :
    (dial : Dial) (link : Link) (n : Node) (s : Server) (c : Connection) (servers : List Server)
    (next rest : List ℕ)
    → IsOpen link.conn
    → pending link.conn.reader ≡ 18 ∷ next
    → n.deferred_requests_mutex ≡ true
    → n.deferred_requests ≡ []
    → n.metadata_mutex ≡ true
    → first_primary n.servers ≡ some s
    → dial s.ip ((s.port + 2) % 2 ^ 16) ≡ some c
    → IsOpen c
    → pending c.reader ≡ fetched servers ++ rest
    → All FitsServer servers
    → length servers < 2 ^ 64
    → (link' : Link) × (n1 n2 : Node) × (coms_handle_request dial link n
        ≡ returned (some tt, link') n1)
      × (handle_deferred dial n1 ≡ returned tt n2)
      × (n1.servers ≡ n.servers)
      × (n2.servers ≡ keep_first servers)
      × (n2.metadata_mutex ≡ true)
      × (n2.deferred_requests_mutex ≡ true)
      × (n2.deferred_requests ≡ req_update_metadata ∷ [])
coms_handle_request-handle_deferred dial link n s c servers next rest o e free none_yet free' found
      dialled open_line hears fits small =
    let x = serve_update_metadata_lem dial link n next o e free in
    let one : n.deferred_requests ++ req_update_metadata ∷ [] ≡ req_update_metadata ∷ [] =
      ap (λ l. l ++ req_update_metadata ∷ []) none_yet in
    let held : Node = record (deferred n) { deferred_requests_mutex = false } in
    (
      x.0,
      deferred n,
      _,
      x.1,
      handle_deferred_lem dial (deferred n) _ refl one (
          run_deferred_lem dial s c servers rest held free' found dialled open_line hears fits
            small),
      refl,
      refl,
      refl,
      refl,
      one,
    )
