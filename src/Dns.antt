-- ===== src/Dns.antt =====
-- The name server (dns/src/dns.cpp and dns/src/state.cpp): it keeps the address of the primary
-- server, which clients ask for and an elected server replaces.
pub mod Update
use trabalho_sistemas_operac.Prelude.{ℕ, Option, none, some, List, [], ◌∷◌, ◌==◌, if◌then◌else◌}
use trabalho_sistemas_operac.Prelude.Exec.{Exec, pure, ◌>>=◌, ◌>>◌}
use trabalho_sistemas_operac.Net.Connection.{Connection, writing, reading}
use trabalho_sistemas_operac.Net.Writer.{write_u32, write_u16, flush}
use trabalho_sistemas_operac.Net.Reader.{read_u8, read_u16, read_u32}

-- `program_state_t`; the mutex only orders the lines of the log.
pub record Dns : Type 0 where
  pub primary_ip : ℕ
  pub primary_port : ℕ

-- `set_primary_server`; `state_init` makes the same record.
unfoldable pub set_primary_server : ℕ → ℕ → Dns → Dns
set_primary_server ip port dns = record dns { primary_ip = ip; primary_port = port }

-- Message 10: the address of the primary server is sent.
unfoldable pub send_primary : Dns → Exec Connection (Unit {0})
send_primary dns = do
  writing (write_u32 dns.primary_ip)
  writing (write_u16 dns.primary_port)
  writing flush

-- Message 20: a new address is read.
unfoldable pub read_primary_server : Exec Connection (ℕ × ℕ)
read_primary_server = do ip ← reading read_u32; port ← reading read_u16; pure (ip, port)

unfoldable pub update_primary : Connection → Dns → Dns × Connection
update_primary conn dns =
    let (read, conn') = read_primary_server conn in
    elim read [ none ↦ (dns, conn') | some (ip, port) ↦ (set_primary_server ip port dns, conn') ]

-- One round of the loop of the listener on an accepted connection: any failure, and any other
-- message type, closes the connection and leaves the state as it is.
unfoldable pub answer : ℕ → Connection → Dns → Dns × Connection
answer message_type conn dns =
    if message_type == 10
    then (dns, (send_primary dns conn).1)
    else if message_type == 20
    then update_primary conn dns
    else (dns, conn)

unfoldable pub serve : Connection → Dns → Dns × Connection
serve conn dns =
    let (read, conn') = reading read_u8 conn in
    elim read [ none ↦ (dns, conn') | some message_type ↦ answer message_type conn' dns ]

-- The loop over the connections that `accept` gives, and the state behind it.
unfoldable pub serve_all : List Connection → Dns → Dns
serve_all [] dns = dns
serve_all (conn ∷ conns) dns = serve_all conns (serve conn dns).0
