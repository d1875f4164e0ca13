-- ===== src/Startup.antt =====
-- The start of a server (server/src/main.cpp): its arguments, the registration of a primary server
-- at the name server, and that of a backup server at the primary one. The threads that are started
-- on the way are modelled in their own modules.
pub mod Requests
pub mod Port
pub mod Backup
pub mod Primary
use trabalho_sistemas_operac.Prelude.{
  ℕ, ◌+◌, ◌-◌, ◌*◌, Bool, true, false, Option, none, some, List, [], ◌∷◌, ◌==◌, ◌&&◌, leb, ltb,
  if◌then◌else◌, bytes_eq,
}
use trabalho_sistemas_operac.Startup.Requests.{ask_primary, ask_registration}
use trabalho_sistemas_operac.Net.Connection.{Connection, require}
use trabalho_sistemas_operac.Node.{
  Node, Server, ServerType, primary, backup, Run, Outcome, returned, exited, crashed, blocked,
  state_init, acquire_metadata, release_metadata, set_servers, get_current_server,
  get_primary_server, return, ◌>>=◌, ◌>>◌, req_hello, req_get_primary, req_register,
  req_fetch_metadata,
}
use trabalho_sistemas_operac.Coms.Client.{Dial, Response, execute_request, status_ok}
use trabalho_sistemas_operac.Election.{talk, tell_dns}

-- `arguments_t`, without the type of the server.
pub record Arguments : Type 0 where
  pub ip : ℕ
  pub port : ℕ
  pub next_server_ip : ℕ
  pub next_server_port : ℕ
  pub dns_ip : ℕ
  pub dns_port : ℕ

-- The loop of `check_port`.
unfoldable pub port_loop : List ℕ → ℕ → Option ℕ
port_loop [] temp = some temp
port_loop (c ∷ str) temp =
    let next = 10 * temp + (c - 48) in
    let rest = port_loop str next in
    if leb 48 c && leb c 57 then (if ltb 0xffff next then none else rest) else none

unfoldable pub check_port : List ℕ → Option ℕ
check_port str = port_loop str 0

-- `none`: the connection failed, and what is read is a pointer that was never set. A request that
-- fails, or whose status is not OK, ends the process.
abbrev pub require_talk : {A : Type 0} → Option (Option A) → Run A
require_talk (some (some a)) n = returned a n
require_talk (some none) n = exited
require_talk none n = crashed

module _ (dial : Dial) where
  -- `primary_init`, up to the loop that accepts clients.
  unfoldable pub primary_init : Arguments → Outcome (Unit {0})
  primary_init args =
      (get_current_server >>= tell_dns dial)
        (state_init args.ip args.port primary args.dns_ip args.dns_port)

  -- The steps of `backup_init` after `state_init`.
  unfoldable pub register : Arguments → Run (Unit {0})
  register args = do
    current ← get_current_server
    asked ← talk dial args.next_server_ip (args.next_server_port + 2) (ask_primary current.port)
    primary_at ← require_talk asked
    get_primary_server
    registered ← talk dial primary_at.0 (primary_at.1 + 2) (ask_registration current.port)
    servers ← require_talk registered
    acquire_metadata
    set_servers servers
    release_metadata

  unfoldable pub backup_init : Arguments → Outcome (Unit {0})
  backup_init args = register args (state_init args.ip args.port backup args.dns_ip args.dns_port)
