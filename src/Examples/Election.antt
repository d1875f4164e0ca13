-- ===== src/Examples/Election.antt =====
-- The election theorems on a ring of three servers.
use trabalho_sistemas_operac.Prelude.{
  refl, ◌≡◌, inr, [], ◌∷◌, arith, ◌+◌, if◌then◌else◌, ◌==◌, none, inl,
}
use trabalho_sistemas_operac.Node.{
  server_eq, comp, is_primary, exited, state_init, ◌>>◌, returned, first_primary, crashed,
}
use trabalho_sistemas_operac.Election.{
  handle_async_election_message, next_server, without_primary, index_of, without, initiate_election,
}
use trabalho_sistemas_operac.Election.Ring.{lap, elected, decide}
use trabalho_sistemas_operac.Election.Walk.{walk}
use trabalho_sistemas_operac.Election.Winner.{election-elects_best}
use trabalho_sistemas_operac.Election.Handlers.{
  handle_async_election_message_lem, told_on, demoted, posted, envelope,
}
use trabalho_sistemas_operac.Election.Repeat.{handle_async_election_message-twice}
use trabalho_sistemas_operac.Examples.{
  first_server, second_server, third_server, node, dial, dial-IsReachable, backup, old_primary,
  Dial, Node, some, line,
}
use trabalho_sistemas_operac.Election.Start.{bereft, initiate_election_lem}
use trabalho_sistemas_operac.Heartbeat.{heartbeat_round, again}
use trabalho_sistemas_operac.Heartbeat.Twice.{heartbeat_round-twice}

election-elects_best_example :
    lap second_server (walk (first_server ∷ second_server ∷ third_server ∷ []) 9 second_server)
    ≡ elected third_server
unfolding server_eq comp
election-elects_best_example =
    election-elects_best (first_server ∷ []) (third_server ∷ []) second_server third_server 9
      ((refl, (refl, tt)), ((refl, tt), (tt, tt)))
      (inr ([], first_server ∷ [], refl, tt, (refl, (refl, tt)))) (omega arith)

handle_async_election_message_lem_example :
    handle_async_election_message dial second_server node
    ≡ told_on
        (decide node.current_server second_server)
        (next_server (without_primary node.servers) node.current_server)
        (demoted node)
unfolding state_init index_of without_primary server_eq is_primary
handle_async_election_message_lem_example =
    handle_async_election_message_lem dial dial-IsReachable node second_server refl refl

handle_async_election_message-twice_example :
    (handle_async_election_message dial third_server
        >> handle_async_election_message dial first_server)
      node
    ≡ exited
unfolding state_init index_of without_primary server_eq is_primary
handle_async_election_message-twice_example =
    handle_async_election_message-twice dial dial-IsReachable node third_server first_server refl
      ((refl, (refl, (refl, tt))), ((refl, (refl, tt)), ((refl, tt), (tt, tt)))) refl refl

initiate_election_lem_example :
    initiate_election dial old_primary node
    ≡ returned tt (
        posted (bereft old_primary node) (
          envelope first_server.ip
            (first_server.port + 1)
            10
            (record { ip = 17; port = 4010; server_type = backup })))
unfolding state_init index_of without server_eq is_primary next_server
initiate_election_lem_example =
    initiate_election_lem dial dial-IsReachable old_primary node refl refl refl refl

-- The primary server is gone.
abbrev dial_backups : Dial
dial_backups ip port = if ip == 99 then none else some (line [])

heartbeat_round-twice_example :
    (n' : Node) × (heartbeat_round dial_backups 4 node ≡ returned again n')
    × (n'.servers ≡ without old_primary node.servers)
    × (heartbeat_round dial_backups 6 n' ≡ crashed)
unfolding state_init index_of without server_eq is_primary first_primary
heartbeat_round-twice_example =
    heartbeat_round-twice dial_backups 4 6 old_primary node
      (record { free = refl; backup = refl; known = refl; found = refl }) refl
      (inr refl, (inl refl, (inr refl, (inr refl, tt)))) refl (inl refl)
