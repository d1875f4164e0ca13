-- ===== src/Examples/Listener.antt =====
-- The listener for the other servers, on concrete connections.
use mathlib.Core.Option.{some-injective}
use trabalho_sistemas_operac.Prelude.Exec
use trabalho_sistemas_operac.Prelude.{refl, ℕ, ◌≡◌, ◌<◌, List, [], ◌∷◌, arith, some, true, subst}
use trabalho_sistemas_operac.Node.{
  returned, blocked, state_init, req_update_metadata, first_primary, is_primary,
}
use trabalho_sistemas_operac.Net.Reader.{
  got, read_u8, init_reader, peek, fill_buffer, fill_loop, receive, step, curr_buf, read_into,
}
use trabalho_sistemas_operac.Net.Reader.Left.{left, total}
use trabalho_sistemas_operac.Net.Reader.Word.{little_endian}
use trabalho_sistemas_operac.Net.Reader.Stream.{pending}
use trabalho_sistemas_operac.Net.Writer.{
  failed, write_u16, write_u32, write_u64, write_word, write_u8, init_writer, flush, put,
  send_buffer,
}
use trabalho_sistemas_operac.Net.Connection.{conn_new, reading, writing}
use trabalho_sistemas_operac.Net.Connection.Talk.{IsOpen}
use trabalho_sistemas_operac.Coms.Client.{Dial}
use trabalho_sistemas_operac.Coms.Server.{
  Link, coms_handle_request, handle_deferred, primary_index, write_metadata, write_servers,
}
use trabalho_sistemas_operac.Coms.Fetch.{keep_first, metadata_bytes, server_bytes}
use trabalho_sistemas_operac.Coms.Listener.{listen_loop, link_of}
use trabalho_sistemas_operac.Coms.Rounds.{ShortRound, is_served, listen_loop-ends}
use trabalho_sistemas_operac.Coms.Deferred.{fetched, coms_handle_request-handle_deferred}
use trabalho_sistemas_operac.Coms.Leak.{FailsLate, round_of, listen_loop-blocks}
use trabalho_sistemas_operac.Examples.{
  line_with, line_with-IsOpen, node, dial, blank, first_server, old_primary, second_server, Node,
  Connection,
}

-- A server that asks for nothing, and one that asks for the primary server.
abbrev quiet : Connection
quiet = line_with (15 ∷ 15 ∷ [])

abbrev curious : Connection
curious = line_with (17 ∷ [])

quiet-Short : ShortRound 3 (round_of dial quiet)
unfolding left total conn_new init_reader
quiet-Short c e = subst (λ c. left c.reader < 3) (some-injective _ _ e) (omega arith)

listen_loop-ends_example :
    is_served (listen_loop 3 (round_of dial quiet ∷ round_of dial quiet ∷ []) node) ≡ true
listen_loop-ends_example =
    listen_loop-ends 3 (round_of dial quiet ∷ round_of dial quiet ∷ []) node
      (quiet-Short, (quiet-Short, tt))

-- An update that a server is told of.
abbrev update : Link
update = record { conn = line_with (18 ∷ []); peer = second_server }

abbrev reply : List ℕ
reply = fetched (first_server ∷ [])

abbrev dial_primary : Dial
dial_primary ip port = some (line_with reply)

reply-IsPending : IsOpen (line_with reply) × (pending (line_with reply).reader ≡ reply)
unfolding metadata_bytes server_bytes little_endian primary_index
reply-IsPending = let x = line_with-IsOpen reply (omega arith) (omega arith) in (x.0, x.1)

coms_handle_request-handle_deferred_example :
    (link' : Link) × (n1 n2 : Node) × (coms_handle_request dial_primary update node
      ≡ returned (some tt, link') n1)
    × (handle_deferred dial_primary n1 ≡ returned tt n2)
    × (n1.servers ≡ node.servers)
    × (n2.servers ≡ keep_first (first_server ∷ []))
    × (n2.metadata_mutex ≡ true)
    × (n2.deferred_requests_mutex ≡ true)
    × (n2.deferred_requests ≡ req_update_metadata ∷ [])
unfolding state_init first_primary is_primary little_endian metadata_bytes server_bytes
coms_handle_request-handle_deferred_example =
    coms_handle_request-handle_deferred dial_primary update node old_primary (line_with reply)
      (first_server ∷ []) [] [] (line_with-IsOpen (18 ∷ []) (omega arith) (omega arith)).0
      ((line_with-IsOpen (18 ∷ []) (omega arith) (omega arith)).1) refl refl refl refl refl
      reply-IsPending.0 (reply-IsPending.1) ((omega arith, omega arith), tt) (omega arith)

-- The first bytes of the metadata fill the buffer of the writer, and cannot be sent.
abbrev broken : Connection
broken =
    (conn_new 1 0 4000 0 4001 (record { a = blank 32; b = blank 32; w = blank 32 })
      (record { sockfd = 3; incoming = got (14 ∷ []) ∷ []; sends = failed ∷ [] })).0

broken-FailsLate : FailsLate (link_of broken) node
unfolding state_init reading read_u8 Exec.◌>>=◌ peek fill_buffer fill_loop conn_new init_reader
    receive step curr_buf read_into writing write_u16 write_word write_u8 init_writer write_metadata
    write_u64 primary_index write_servers flush put send_buffer write_u32 is_primary Exec.pure
broken-FailsLate = record { asks = refl; status = refl; fails = refl }

listen_loop-blocks_example :
    listen_loop 2 (round_of dial broken ∷ round_of dial curious ∷ []) node ≡ blocked
unfolding state_init reading read_u8 Exec.◌>>=◌ peek fill_buffer fill_loop conn_new init_reader
    receive step curr_buf read_into
listen_loop-blocks_example =
    listen_loop-blocks dial dial 1 broken curious [] node
      (record { going = refl; free = refl; none_deferred = refl }) refl broken-FailsLate refl
