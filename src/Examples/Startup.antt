-- ===== src/Examples/Startup.antt =====
-- The start of servers, what a primary server passes on, and the queue of a client, on concrete
-- data.
use trabalho_sistemas_operac.Prelude.{
  ℕ, ◌≡◌, ◌↔◌, ◌∙◌, refl, some, List, [], ◌∷◌, ◌++◌, All, ◌==◌, if◌then◌else◌, arith, append-nil,
  ◌<◌, ◌^◌, sym,
}
use trabalho_sistemas_operac.Node.{is_primary, Server, backup, primary, state_init, returned}
use trabalho_sistemas_operac.Coms.Server.{primary_index}
use trabalho_sistemas_operac.Coms.Client.{Dial}
use trabalho_sistemas_operac.Coms.Fetch.{server_bytes, metadata_bytes, keep_first}
use trabalho_sistemas_operac.Election.Handlers.{posted, message}
use trabalho_sistemas_operac.Net.Reader.{got}
use trabalho_sistemas_operac.Net.Reader.Stream.{arriving}
use trabalho_sistemas_operac.Net.Reader.Word.{little_endian}
use trabalho_sistemas_operac.Net.Connection.Fresh.{conn_new-IsOpen}
use trabalho_sistemas_operac.Dns
use trabalho_sistemas_operac.Dns.{serve_all}
use trabalho_sistemas_operac.Examples.{
  line, line-IsReady, line_with, line_with-IsOpen, blank, dial, old_primary,
}
use trabalho_sistemas_operac.Startup.{Arguments, check_port, backup_init, primary_init}
use trabalho_sistemas_operac.Startup.Port.{check_port-reads, IsDigit, decimal}
use trabalho_sistemas_operac.Startup.Backup.{ok, Speaks, post, backup_init-learns}
use trabalho_sistemas_operac.Startup.Primary.{registration, primary_init-serve}
use trabalho_sistemas_operac.Queue.{pop_by_id, done}
use trabalho_sistemas_operac.Queue.Wait.{pop_by_id-pushes, turns, all_pushed}
use trabalho_sistemas_operac.Queue.Order.{
  Op, op_push, op_try_pop, op_by_id, run, serve, free, run-serve, lookup, remove,
}

abbrev blank_dns : Dns.Dns
blank_dns = record { primary_ip = 0; primary_port = 0 }

check_port-reads_example : (check_port (52 ∷ 48 ∷ 48 ∷ 48 ∷ []) ≡ some 4000) ↔ (
    All IsDigit (52 ∷ 48 ∷ 48 ∷ 48 ∷ [])
    × (decimal (52 ∷ 48 ∷ 48 ∷ 48 ∷ []) ≡ 4000)
    × (4000 < 2 ^ 16))
check_port-reads_example = check_port-reads (52 ∷ 48 ∷ 48 ∷ 48 ∷ []) 4000

abbrev calls : List (Op ℕ)
calls = op_push 1 7 ∷ op_push 2 8 ∷ op_by_id 2 ∷ op_try_pop ∷ op_try_pop ∷ []

run-serve_example : run calls (free []) ≡ serve calls []
run-serve_example = run-serve calls []

-- The task with the id 2 is pushed in the second round.
pop_by_id-pushes_example :
    (earlier later : List (ℕ × ℕ)) × (earlier ++ later ≡ (1, 7) ∷ (2, 8) ∷ [])
    × (pop_by_id 2 (turns ([] ∷ ((2, 8) ∷ []) ∷ [])) (free ((1, 7) ∷ []))
        ≡ done (some 8) (free (remove 2 earlier)))
unfolding lookup all_pushed
pop_by_id-pushes_example = pop_by_id-pushes 2 8 ((1, 7) ∷ []) [] (((2, 8) ∷ []) ∷ []) refl

abbrev args : Arguments
args = record {
  ip = 17;
  port = 4010;
  next_server_ip = 16;
  next_server_port = 4000;
  dns_ip = 5;
  dns_port = 2000;
}

abbrev known : List Server
known = old_primary ∷ record { ip = 17; port = 4010; server_type = backup } ∷ []

-- The server that is known, and the primary one.
abbrev other_bytes : List ℕ
other_bytes = ok ++ (ok ++ (little_endian 4 99 ++ little_endian 2 4000))

-- The 34 bytes of the primary server come in two chunks.
abbrev first_chunk : List ℕ
first_chunk = ok ++ (ok ++ ok)

abbrev second_chunk : List ℕ
second_chunk = metadata_bytes known

abbrev dial_two : Dial
dial_two ip port =
    if ip == 16
    then some (line_with other_bytes)
    else some (line (got first_chunk ∷ got second_chunk ∷ []))

first-Speaks : Speaks dial_two 16 4002 other_bytes
unfolding little_endian
first-Speaks =
    let x = line_with-IsOpen other_bytes (omega arith) (omega arith) in
    record { conn = line_with other_bytes; dialled = refl; opened = x.0; fresh = x.2; reads = x.1 }

primary-Speaks : Speaks dial_two 99 4002 (ok ++ (ok ++ (ok ++ metadata_bytes known)))
unfolding little_endian metadata_bytes arriving server_bytes primary_index is_primary
primary-Speaks =
    let x =
      conn_new-IsOpen 1 0 4000 0 4001 (record { a = blank 32; b = blank 32; w = blank 32 })
        (record { sockfd = 3; incoming = got first_chunk ∷ got second_chunk ∷ []; sends = [] }) refl
        refl refl ((omega arith, omega arith), ((omega arith, omega arith), tt)) tt in
    record {
      conn = line (got first_chunk ∷ got second_chunk ∷ []);
      dialled = refl;
      opened = x.0;
      fresh = x.2;
      reads = x.1 ∙ refl;
    }

backup_init-learns_example :
    backup_init dial_two args
    ≡ returned tt (record (state_init 17 4010 backup 5 2000) {
      servers = keep_first known;
      outbox =
          post 16 4002 (15 ∷ 17 ∷ [])
          ∷ post 99 4002 (15 ∷ 16 ∷ (little_endian 2 4010 ++ 14 ∷ []))
          ∷ [];
    })
backup_init-learns_example =
    backup_init-learns dial_two args 99 4000 known (omega arith) (omega arith)
      ((omega arith, omega arith), ((omega arith, omega arith), tt)) (omega arith) first-Speaks
      primary-Speaks

primary_init-serve_example :
    (primary_init dial args
      ≡ returned tt (posted (state_init 17 4010 primary 5 2000) (registration args)))
    × ((Dns.serve
          (line_with (10 ∷ []))
          (serve_all (line_with (registration args).bytes ∷ []) blank_dns)).1.writer.sent
        ≡ little_endian 4 17 ++ little_endian 2 4010)
unfolding little_endian message
primary_init-serve_example =
    let x = line_with-IsOpen (registration args).bytes (omega arith) (omega arith) in
    let q = line_with-IsOpen (10 ∷ []) (omega arith) (omega arith) in
    let c = line-IsReady [] tt in
    primary_init-serve dial args blank_dns (line []) (line_with (registration args).bytes)
      (line_with (10 ∷ [])) [] [] [] refl (c.0.opened) (c.2) x.0 (x.1 ∙ sym (append-nil _))
      (omega arith) (omega arith) tt q.0 q.2 q.1
