-- ===== src/Heartbeat.antt =====
-- Heartbeats (server/src/heartbeat.cpp): a backup server writes to the primary one as long as it
-- can, and then starts an election. The time between two beats is left out, and the two places
-- where the connections are kept are not in the state, as nothing reads them.
pub mod Beats
pub mod Twice
use trabalho_sistemas_operac.Prelude.{
  ℕ, zero, suc, ◌+◌, Option, none, some, List, [], ◌∷◌, ◌++◌, if◌then◌else◌,
}
use trabalho_sistemas_operac.Heartbeat.Beats.{heartbeat}
use trabalho_sistemas_operac.Net.Reader.{read_u16}
use trabalho_sistemas_operac.Net.Connection.{Connection, reading}
use trabalho_sistemas_operac.Node.{
  Node, Server, Run, Outcome, returned, exited, crashed, get_primary_server, get_current_server,
  server_eq, return, ◌>>=◌, ◌>>◌,
}
use trabalho_sistemas_operac.Coms.Client.{Dial}
use trabalho_sistemas_operac.Election.{talk, initiate_election}

-- A round of `heartbeat_listener_thread`, on the connections so far: a connection that does not send
-- its port ends the process.
unfoldable pub heartbeat_listen : Connection → List Connection → Run (List Connection)
heartbeat_listen connection connections n = elim ((reading read_u16 connection).0) [
  | none ↦ exited
  | some client_port ↦ returned (connections ++ (reading read_u16 connection).1 ∷ []) n
]

-- What a round of `heartbeat_writer_thread` ends in: the server is the primary one and the thread
-- ends, an election was started, or the beats go on.
pub data Watch : Type 0 where
  leaves again beating : Watch

-- `*primary_server_ref`
abbrev pub dereferenced : Option Server → Run Server
dereferenced none n = crashed
dereferenced (some server) n = returned server n

module _ (dial : Dial) where
  abbrev pub watched : Server → Option (Option (Unit {0})) → Run Watch
  watched primary_server (some (some sent)) = return beating
  watched primary_server (some none) = do initiate_election dial primary_server; return again
  watched primary_server none = do initiate_election dial primary_server; return again

  -- A round of `heartbeat_writer_thread` while `should_stop` is false, up to its first `count` beats.
  unfoldable pub heartbeat_round : ℕ → Run Watch
  heartbeat_round count = do
    primary_server_ref ← get_primary_server
    primary_server ← dereferenced primary_server_ref
    current ← get_current_server
    if server_eq primary_server current then return leaves else do
      sent ← talk dial primary_server.ip (primary_server.port + 3) (heartbeat current.port count)
      watched primary_server sent
