-- ===== src/Net/Connection.antt =====
-- A connection (server/src/connection.cpp): its addresses and its buffered reader and writer.
pub mod Left
pub mod Talk
pub mod Fresh
use trabalho_sistemas_operac.Prelude.{ℕ, ◌+◌, ◌%◌, ◌^◌, Bool, List, true, false}
use trabalho_sistemas_operac.Prelude.Exec.{Exec, pure, fail}
use trabalho_sistemas_operac.Net.Reader.{Reader, ReadResult, init_reader}
use trabalho_sistemas_operac.Net.Writer.{Writer, SendResult, init_writer}

-- `connection_t`
pub record Connection : Type 0 where
  pub connection_id : ℕ
  pub server_address : ℕ
  pub server_port : ℕ
  pub client_address : ℕ
  pub client_port : ℕ
  pub sockfd : ℕ
  pub reader : Reader
  pub writer : Writer

-- The memory that `malloc` hands out: what the three buffers hold at first.
pub record Memory : Type 0 where
  pub a : List ℕ
  pub b : List ℕ
  pub w : List ℕ

-- What the peer and the network do on a socket.
pub record Socket : Type 0 where
  pub sockfd : ℕ
  pub incoming : List ReadResult
  pub sends : List SendResult

-- `conn_new`, with the counter `client_id` passed in and out; it is a `uint64_t`.
unfoldable pub conn_new : ℕ → ℕ → ℕ → ℕ → ℕ → Memory → Socket → Connection × ℕ
conn_new client_id server_address server_port client_address client_port memory socket = (
  record {
    connection_id = client_id;
    server_address = server_address;
    server_port = server_port;
    client_address = client_address;
    client_port = client_port;
    sockfd = socket.sockfd;
    reader = init_reader memory.a memory.b socket.incoming;
    writer = init_writer memory.w socket.sends;
  },
  (client_id + 1) % 2 ^ 64,
)

-- A call on `connection->reader`, and one on `connection->writer`.
unfoldable pub reading : {A : Type 0} → Exec Reader A → Exec Connection A
reading m c = let (o, r) = m c.reader in (o, record c { reader = r })

unfoldable pub writing : {A : Type 0} → Exec Writer A → Exec Connection A
writing m c = let (o, w) = m c.writer in (o, record c { writer = w })

-- `if (!test) return false;`
unfoldable pub require : Bool → Exec Connection (Unit {0})
require true = pure tt
require false = fail
