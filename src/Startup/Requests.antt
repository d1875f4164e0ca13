-- ===== src/Startup/Requests.antt =====
-- The requests that a new backup server makes (server/src/main.cpp).
use trabalho_sistemas_operac.Prelude.{ℕ, ◌==◌, List}
use trabalho_sistemas_operac.Prelude.Exec.{Exec, pure, ◌>>=◌, ◌>>◌}
use trabalho_sistemas_operac.Net.Connection.{Connection, require}
use trabalho_sistemas_operac.Node.{
  Server, req_hello, req_get_primary, req_register, req_fetch_metadata,
}
use trabalho_sistemas_operac.Coms.Client.{execute_request, status_ok}

-- To the server that it knows: which one is primary?
unfoldable pub ask_primary : ℕ → Exec Connection (ℕ × ℕ)
ask_primary port = do
  hello ← execute_request port req_hello
  require (hello.status == status_ok)
  response ← execute_request port req_get_primary
  require (response.status == status_ok)
  pure (response.ip, response.port)

-- To the primary server: registration, and the metadata.
unfoldable pub ask_registration : ℕ → Exec Connection (List Server)
ask_registration port = do
  hello ← execute_request port req_hello
  require (hello.status == status_ok)
  registered ← execute_request port req_register
  require (registered.status == status_ok)
  fetched ← execute_request port req_fetch_metadata
  require (fetched.status == status_ok)
  pure fetched.servers
