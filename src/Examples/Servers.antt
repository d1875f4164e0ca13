-- ===== src/Examples/Servers.antt =====
-- The requests between servers, and to the name server, on concrete connections.
use trabalho_sistemas_operac.Prelude.{refl, ◌≡◌, ◌++◌, [], ◌∷◌, arith, some, true}
use trabalho_sistemas_operac.Node.{returned, state_init, req_fetch_metadata}
use trabalho_sistemas_operac.Net.Reader.Word.{little_endian}
use trabalho_sistemas_operac.Net.Connection.Talk.{Delivers}
use trabalho_sistemas_operac.Coms.Client.{execute_request, status_ok}
use trabalho_sistemas_operac.Coms.Server.{Link, coms_handle_request}
use trabalho_sistemas_operac.Coms.Fetch.{keep_first}
use trabalho_sistemas_operac.Coms.Answer.{coms_handle_request-execute_request}
use trabalho_sistemas_operac.Examples.{
  line_with, line_with-IsOpen, node, dial, second_server, Option, Node,
}
use trabalho_sistemas_operac.Coms.Register.{coms_handle_request_registers}

abbrev link : Link
link = record { conn = line_with (14 ∷ []); peer = second_server }

coms_handle_request-execute_request_example :
    (link' : Link) × (coms_handle_request dial link node
      ≡ returned (some tt, link') (record node { metadata_mutex = true }))
    × Delivers
        (execute_request 4000 req_fetch_metadata)
        (record { status = 0; servers = keep_first node.servers; ip = 0; port = 0 })
        link'.conn.writer.sent
        (14 ∷ [])
unfolding state_init
coms_handle_request-execute_request_example =
    coms_handle_request-execute_request dial link node 4000 []
      (line_with-IsOpen (14 ∷ []) (omega arith) (omega arith)).0
      ((line_with-IsOpen (14 ∷ []) (omega arith) (omega arith)).2)
      ((line_with-IsOpen (14 ∷ []) (omega arith) (omega arith)).1) refl
      (
        (omega arith, omega arith),
        (
          (omega arith, omega arith),
          ((omega arith, omega arith), ((omega arith, omega arith), tt)),
        ),
      )
      (omega arith)

abbrev newcomer : Link
newcomer = record { conn = line_with (16 ∷ 160 ∷ 15 ∷ []); peer = second_server }

coms_handle_request_registers_example :
    (o : Option (Unit {0})) × (link' : Link) × (n' : Node) × (coms_handle_request dial newcomer node
      ≡ returned (o, link') n')
    × (n'.servers ≡ node.servers ++ second_server ∷ [])
    × (n'.metadata_mutex ≡ true)
    × (link'.conn.writer.sent ≡ little_endian 2 status_ok)
unfolding state_init little_endian
coms_handle_request_registers_example =
    coms_handle_request_registers dial newcomer node 4000 []
      (line_with-IsOpen (16 ∷ 160 ∷ 15 ∷ []) (omega arith) (omega arith)).0
      ((line_with-IsOpen (16 ∷ 160 ∷ 15 ∷ []) (omega arith) (omega arith)).2)
      ((line_with-IsOpen (16 ∷ 160 ∷ 15 ∷ []) (omega arith) (omega arith)).1) (omega arith) refl
