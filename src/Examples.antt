-- ===== src/Examples.antt =====
-- Concrete connections, servers and clients on which the theorems of the other modules are applied.
mod Net
mod Protocol
mod Clients
mod Election
mod Servers
mod Listener
mod Session
mod Startup
mod App
mod Served
mod Start
use trabalho_sistemas_operac.Prelude.{
  ℕ, zero, suc, refl, ◌∙◌, ◌≡◌, ◌<◌, ◌≤◌, List, [], ◌∷◌, append-nil, arith, length, some, Option,
  All,
}
use trabalho_sistemas_operac.Net.Reader.{ReadResult, got}
use trabalho_sistemas_operac.Net.Reader.Stream.{pending, arriving, IsChunk}
use trabalho_sistemas_operac.Net.Writer.{init_writer}
use trabalho_sistemas_operac.Session.Sent.{IsReady}
use trabalho_sistemas_operac.Net.Writer.Stream.{written}
use trabalho_sistemas_operac.Net.Connection.{Connection, conn_new}
use trabalho_sistemas_operac.Net.Connection.Talk.{IsOpen}
use trabalho_sistemas_operac.Net.Connection.Fresh.{conn_new-IsOpen}
use trabalho_sistemas_operac.Node.{Server, Node, backup, primary, state_init}
use trabalho_sistemas_operac.Coms.Client.{Dial}
use trabalho_sistemas_operac.Election.Handlers.{IsReachable}

abbrev blank : ℕ → List ℕ
blank zero = []
blank (suc n) = 0 ∷ blank n

-- A new connection on which `bytes` arrive at once.
abbrev pub line : List ReadResult → Connection
line incoming =
    (conn_new 1 0 4000 0 4001 (record { a = blank 32; b = blank 32; w = blank 32 })
      (record { sockfd = 3; incoming = incoming; sends = [] })).0

abbrev pub line_with : List ℕ → Connection
line_with bytes = line (got bytes ∷ [])

-- Nothing has been written on it, and what arrives is pending.
pub line-IsReady :
    (incoming : List ReadResult)
    → All IsChunk incoming
    → IsReady (line incoming)
      × (pending (line incoming).reader ≡ arriving incoming)
      × (written (line incoming).writer ≡ [])
unfolding conn_new init_writer
line-IsReady incoming h =
    let x =
      conn_new-IsOpen 1 0 4000 0 4001 (record { a = blank 32; b = blank 32; w = blank 32 })
        (record { sockfd = 3; incoming = incoming; sends = [] }) refl refl refl h tt in
    (record { opened = x.0; flushed = refl }, x.1, x.2)

pub line_with-IsOpen :
    (bytes : List ℕ)
    → 0 < length bytes
    → length bytes ≤ 32
    → IsOpen (line_with bytes)
      × (pending (line_with bytes).reader ≡ bytes)
      × (written (line_with bytes).writer ≡ [])
unfolding arriving
line_with-IsOpen bytes h k =
    let x = line-IsReady (got bytes ∷ []) ((h, k), tt) in (x.0.opened, x.1 ∙ append-nil bytes, x.2)

abbrev pub first_server : Server
first_server = record { ip = 16; port = 4000; server_type = backup }

abbrev pub second_server : Server
second_server = record { ip = 17; port = 4000; server_type = backup }

abbrev pub third_server : Server
third_server = record { ip = 17; port = 4010; server_type = backup }

abbrev pub old_primary : Server
old_primary = record { ip = 99; port = 4000; server_type = primary }

-- A server that has lost its primary server.
abbrev pub node : Node
node = record (state_init 17 4010 backup 5 2000) {
  servers = first_server ∷ old_primary ∷ second_server ∷ third_server ∷ [];
}

-- Every dial gives a new connection.
abbrev pub dial : Dial
dial ip port = some (line [])

pub dial-IsReachable : IsReachable dial
unfolding arriving
dial-IsReachable = record {
  at = λ ip port. let x = line-IsReady [] tt in (line [], refl, x.0.opened, x.2);
}
