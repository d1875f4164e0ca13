-- ===== src/Coms/Listener.antt =====
-- The loops of the listener of server/src/coms.cpp: over the requests of a connection, and over the
-- connections.
use trabalho_sistemas_operac.Prelude.{ℕ, zero, suc, true, false, Option, none, some, List, [], ◌∷◌}
use trabalho_sistemas_operac.Node.{Run, returned, exited, crashed, blocked, ◌>>=◌, return}
use trabalho_sistemas_operac.Node.{backup}
use trabalho_sistemas_operac.Net.Connection.{Connection}
use trabalho_sistemas_operac.Coms.Client.{Dial}
use trabalho_sistemas_operac.Coms.Server.{Link, coms_handle_request, handle_deferred}

-- The loop of `coms_handle_connection`: `none` where the fuel ends before the loop.
unfoldable pub coms_handle_connection : Dial → ℕ → Link → Run (Option Link)
coms_handle_connection dial zero link n = returned none n
coms_handle_connection dial (suc fuel) link n = elim n.should_stop [
  | true ↦ returned (some link) n
  | false ↦ elim (coms_handle_request dial link n) [
    | returned (some u, link') n' ↦ coms_handle_connection dial fuel link' n'
    | returned (none, link') n' ↦ returned (some link') n'
    | exited ↦ exited
    | crashed ↦ crashed
    | blocked ↦ blocked
  ]
]

-- A round of the listener: the network when it starts, and the connection that `conn_new` makes of
-- what accept(2) gives, `none` for an error.
pub record Round : Type 0 where
  pub dial : Dial
  pub accepted : Option Connection

-- How the listener ends up: it has served the rounds there are, or a connection has used up the
-- fuel.
pub data Listened : Type 0 where
  served still_busy : Listened

-- The next round, behind a connection that has ended.
unfoldable pub with_ended : Run Listened → Option Link → Run Listened
with_ended rest none = return still_busy
with_ended rest (some link) = rest

-- The peer of a connection is a backup server at its client address and port.
abbrev pub link_of : Connection → Link
link_of conn = record {
  conn = conn;
  peer = record { ip = conn.client_address; port = conn.client_port; server_type = backup };
}

-- What follows on accept(2).
unfoldable pub with_accepted : Dial → ℕ → Run Listened → Option Connection → Run Listened
with_accepted dial fuel rest none = λ n. exited
with_accepted dial fuel rest (some conn) =
    coms_handle_connection dial fuel (link_of conn) >>= with_ended rest

-- The loop of `coms_listener_thread`, of which only `exit` is an end.
unfoldable pub listen_loop : ℕ → List Round → Run Listened
listen_loop fuel [] n = returned served n
listen_loop fuel (round ∷ rounds) n = elim n.should_stop [
  | true ↦ exited
  | false ↦
      (handle_deferred round.dial >>= λ u.
      with_accepted round.dial fuel (listen_loop fuel rounds) round.accepted)
        n
]
