-- ===== src/Coms/Client.antt =====
-- `connect_to_server` and `_coms_sync_execute_request` of server/src/coms.cpp.
use trabalho_sistemas_operac.Prelude.{
  ℕ, zero, suc, ◌+◌, Option, List, [], ◌∷◌, ◌++◌, ◌==◌, if◌then◌else◌,
}
use trabalho_sistemas_operac.Prelude.Exec.{Exec, pure, fail, ◌>>=◌, ◌>>◌}
use trabalho_sistemas_operac.Node.{
  req_fetch_metadata, req_hello, req_register, req_get_primary, req_update_metadata, primary,
  backup, Server, RequestType,
}
use trabalho_sistemas_operac.Net.Connection.{Connection, writing, reading}
use trabalho_sistemas_operac.Net.Writer.{write_u8, flush, write_u16}
use trabalho_sistemas_operac.Net.Reader.{read_u32, read_u64, read_u16}

-- `STATUS_OK` and the other codes of coms.h
abbrev pub status_ok : ℕ
status_ok = 0

abbrev pub status_invalid_request_type : ℕ
status_invalid_request_type = 10

-- `response_t`: the fields that no answer has filled are 0 and [].
pub record Response : Type 0 where
  pub status : ℕ
  pub servers : List Server
  pub ip : ℕ
  pub port : ℕ

-- What `connect(2)` gives for an address and a port: a new connection, or a failure.
abbrev pub Dial : Type 0
Dial = ℕ → ℕ → Option Connection

abbrev pub status_only : ℕ → Response
status_only status = record { status = status; servers = []; ip = 0; port = 0 }

-- The first `switch` of `_coms_sync_execute_request`; `port` is that of the current server.
unfoldable pub write_request : ℕ → RequestType → Exec Connection (Unit {0})
write_request port req_fetch_metadata = writing (write_u8 14)
write_request port req_hello = writing (write_u8 15)
write_request port req_register = do writing (write_u8 16); writing (write_u16 port)
write_request port req_get_primary = writing (write_u8 17)
write_request port req_update_metadata = writing (write_u8 18)

-- The loop that reads the servers, with `n` rounds left: the one at `primary_index` is the primary.
unfoldable pub read_servers : ℕ → ℕ → ℕ → List Server → Exec Connection (List Server)
read_servers zero i primary_index servers = pure servers
read_servers (suc n) i primary_index servers = do
  ip ← reading read_u32
  port ← reading read_u16
  read_servers n (i + 1) primary_index (
      servers
      ++ record {
        ip = ip;
        port = port;
        server_type = if i == primary_index then primary else backup;
      }
        ∷ [])

unfoldable pub read_metadata : ℕ → Exec Connection Response
read_metadata status =
    if status == status_ok
    then (do
      metadata_length ← reading read_u64
      primary_index ← reading read_u64
      servers ← read_servers metadata_length 0 primary_index []
      pure (record { status = status; servers = servers; ip = 0; port = 0 }))
    else pure (status_only status)

unfoldable pub read_primary : ℕ → Exec Connection Response
read_primary status =
    if status == status_ok
    then (do
      ip ← reading read_u32
      port ← reading read_u16
      pure (record { status = status; servers = []; ip = ip; port = port }))
    else fail

-- The second `switch`.
unfoldable pub read_response : RequestType → Exec Connection Response
read_response req_fetch_metadata = do status ← reading read_u16; read_metadata status
read_response req_hello = do status ← reading read_u16; pure (status_only status)
read_response req_register = do status ← reading read_u16; pure (status_only status)
read_response req_get_primary = do status ← reading read_u16; read_primary status
read_response req_update_metadata = do status ← reading read_u16; pure (status_only status)

unfoldable pub execute_request : ℕ → RequestType → Exec Connection Response
execute_request port request = do write_request port request; writing flush; read_response request
