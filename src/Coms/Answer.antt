-- ===== src/Coms/Answer.antt =====
-- What a server answers to a request for its metadata (server/src/coms.cpp).
use trabalho_sistemas_operac.Prelude.{
  refl, ap, ◌∙◌, ℕ, ◌≡◌, some, List, [], ◌∷◌, ◌++◌, true, false, append-nil, append_assoc, All,
  length, ◌<◌, ◌^◌,
}
use trabalho_sistemas_operac.Prelude.Exec.{Exec}
use trabalho_sistemas_operac.Node.{
  returned, Run, Node, return, acquire_metadata, release_metadata, req_fetch_metadata,
}
use trabalho_sistemas_operac.Net.Connection.{Connection, writing, reading}
use trabalho_sistemas_operac.Net.Writer.{write_u16, flush}
use trabalho_sistemas_operac.Net.Connection.Talk.{IsOpen, Says-writing, Hears-reading, Delivers}
use trabalho_sistemas_operac.Net.Writer.Stream.{written, Sends-flush}
use trabalho_sistemas_operac.Net.Writer.Word.{Writes-u16}
use trabalho_sistemas_operac.Coms.Client.{status_ok, Dial, execute_request}
use trabalho_sistemas_operac.Coms.Server.{
  Serve, Link, and_then, on_socket, on_state, write_metadata, serve_fetch_metadata,
  coms_handle_request, serve_request,
}
use trabalho_sistemas_operac.Coms.Fetch.{
  metadata_bytes, write_metadata-Says, FitsServer, keep_first, fetch-Delivers,
}
use trabalho_sistemas_operac.Election.Handlers.{bind_lem, acquire_lem}
use trabalho_sistemas_operac.Net.Reader.Word.{little_endian, Reads-u8}
use trabalho_sistemas_operac.Net.Reader.Stream.{pending}
use trabalho_sistemas_operac.Net.Reader.{read_u8}

-- Steps of the handler.
pub serve_bind :
    {A B : Type 0} (m : Serve A) (f : A → Serve B) (link : Link) (n : Node) {a : A} {link' : Link}
    {n' : Node}
    → m link n ≡ returned (some a, link') n'
    → and_then m f link n ≡ f a link' n'
unfolding and_then
serve_bind m f link n e = rw (e, and_then) refl

module _ (link : Link) (n : Node) where
  abbrev linked : Connection → Link
  linked c = record link { conn = c }

  pub serve_says :
      {A : Type 0} (m : Exec Connection A) {a : A}
      → (m link.conn).0 ≡ some a
      → on_socket m link n ≡ returned (some a, linked (m link.conn).1) n
  unfolding on_socket
  serve_says m e = ap (λ o. returned (o, linked (m link.conn).1) n) e

pub serve_state :
    {A : Type 0} (m : Run A) (link : Link) (n : Node) {a : A} {n' : Node}
    → m n ≡ returned a n'
    → on_state m link n ≡ returned (some a, link) n'
unfolding on_state
serve_state m link n e = bind_lem m (λ a. return (some a, link)) n e

-- The answer to a request for the metadata, with the lock free.
serve_fetch_metadata_lem :
    (link : Link) (n : Node)
    → IsOpen link.conn
    → n.metadata_mutex ≡ true
    → (link' : Link) × (serve_fetch_metadata link n
        ≡ returned (some tt, link') (record n { metadata_mutex = true }))
      × (link'.conn.writer.sent
          ≡ written link.conn.writer ++ (little_endian 2 0 ++ metadata_bytes n.servers))
unfolding serve_fetch_metadata writing release_metadata
serve_fetch_metadata_lem link n o free =
    let x1 = (Says-writing (Writes-u16 0)).at link.conn o.reliable in
    let c1 : Connection = (writing (write_u16 0) link.conn).1 in
    let x2 = (write_metadata-Says n.servers).at c1 x1.1 in
    let c2 : Connection = (write_metadata n.servers c1).1 in
    let x3 = Sends-flush.at c2.writer x2.1 in
    let held : Node = record n { metadata_mutex = false } in
    (
      record link { conn = (writing flush c2).1 },
      serve_bind (on_socket (writing (write_u16 status_ok))) _ link n (serve_says link n _ (x1.0))
          ∙ serve_bind (on_state acquire_metadata) _ (record link { conn = c1 }) n
              (serve_state acquire_metadata (record link { conn = c1 }) n (acquire_lem n free))
          ∙ serve_bind (on_socket (write_metadata n.servers)) _ (record link { conn = c1 }) held
              (serve_says (record link { conn = c1 }) held _ (x2.0))
          ∙ serve_bind (on_state release_metadata) _ (record link { conn = c2 }) held
              (serve_state release_metadata (record link { conn = c2 }) held refl)
          ∙ serve_says (record link { conn = c2 }) (record n { metadata_mutex = true })
              (writing flush) (x3.0),
      x3.2
          ∙ append-nil _
          ∙ x2.2
          ∙ ap (λ bs. bs ++ metadata_bytes n.servers) (x1.2)
          ∙ append_assoc (written link.conn.writer) _ _,
    )

-- On an open connection to which nothing has been written, with a request for the metadata pending,
-- the lock free, and servers whose numbers fit their types: the server answers, and is back with
-- the lock free and the rest of its state as it was. On any open connection with these bytes
-- pending the client sends that request, and reads the servers in their order, with the first
-- primary one as the only primary.
pub coms_handle_request-execute_request :
    (dial : Dial) (link : Link) (n : Node) (port : ℕ) (rest : List ℕ)
    → IsOpen link.conn
    → written link.conn.writer ≡ []
    → pending link.conn.reader ≡ 14 ∷ rest
    → n.metadata_mutex ≡ true
    → All FitsServer n.servers
    → length n.servers < 2 ^ 64
    → (link' : Link) × (coms_handle_request dial link n
        ≡ returned (some tt, link') (record n { metadata_mutex = true }))
      × Delivers
          (execute_request port req_fetch_metadata)
          (record { status = 0; servers = keep_first n.servers; ip = 0; port = 0 })
          link'.conn.writer.sent
          (14 ∷ [])
unfolding coms_handle_request serve_request
coms_handle_request-execute_request dial link n port rest o w e free fits small =
    let x = (Hears-reading (Reads-u8 14)).at link.conn rest o.sound e in
    let c : Connection = (reading read_u8 link.conn).1 in
    let y =
      serve_fetch_metadata_lem (record link { conn = c }) n
        (record { sound = x.1; reliable = rw (x.3) (o.reliable) }) free in
    let bytes =
      y.2
      ∙ ap (λ k. written k ++ (little_endian 2 0 ++ metadata_bytes n.servers)) (x.3)
      ∙ ap (λ k. k ++ (little_endian 2 0 ++ metadata_bytes n.servers)) w in
    (
      y.0,
      serve_bind (on_socket (reading read_u8)) _ link n (serve_says link n (reading read_u8) (x.0))
          ∙ y.1,
      rw bytes (fetch-Delivers port n.servers fits small),
    )
