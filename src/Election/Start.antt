-- ===== src/Election/Start.antt =====
-- How an election starts: `initiateElection` of server/src/election.cpp.
use trabalho_sistemas_operac.Prelude.{refl, ◌∙◌, ◌+◌, ◌≡◌, false, ◌==◌, length}
use trabalho_sistemas_operac.Node.{
  returned, Node, Server, is_primary, acquire_metadata, release_metadata,
}
use trabalho_sistemas_operac.Coms.Client.{Dial}
use trabalho_sistemas_operac.Election.{
  without, index_of, next_server, drop_primary, get_next_server, initiate_election, true,
}
use trabalho_sistemas_operac.Election.Handlers.{
  IsReachable, bind_lem, acquire_lem, get_next_server_lem, send_message_lem, posted, envelope,
}

-- The state behind the loss of the primary server.
abbrev pub bereft : Server → Node → Node
bereft primary_server n = record n {
  servers = without primary_server n.servers;
  metadata_mutex = true;
}

pub drop_primary_lem :
    (primary_server : Server) (n : Node)
    → n.metadata_mutex ≡ true
    → (length (without primary_server n.servers) == length n.servers) ≡ false
    → drop_primary primary_server n ≡ returned true (bereft primary_server n)
unfolding drop_primary release_metadata
drop_primary_lem primary_server n free lost =
    bind_lem acquire_metadata _ n (acquire_lem n free) ∙ rw lost refl

-- On a network that reaches every server, with the lock free, a backup server, a lost primary
-- server that is in the metadata, and the current server in what is left of it: `initiateElection`
-- takes the lost server out of the metadata and sends just one message, an election message with
-- the current server's own address to the election port of the next server.
pub initiate_election_lem :
    (dial : Dial)
    → IsReachable dial
    → (primary_server : Server) (n : Node) → n.metadata_mutex ≡ true
    → is_primary n.current_server ≡ false
    → (length (without primary_server n.servers) == length n.servers) ≡ false
    → (index_of n.current_server (without primary_server n.servers)
        == length (without primary_server n.servers))
      ≡ false
    → let next = next_server (without primary_server n.servers) n.current_server in
      initiate_election dial primary_server n
      ≡ returned tt
          (posted (bereft primary_server n) (envelope next.ip (next.port + 1) 10 n.current_server))
unfolding initiate_election
initiate_election_lem dial reach primary_server n free backup lost found =
    let left : Node = bereft primary_server n in
    let next : Server = next_server left.servers n.current_server in
    rw backup (
      bind_lem (drop_primary primary_server) _ n (drop_primary_lem primary_server n free lost)
      ∙ bind_lem (get_next_server n.current_server) _ left
          (get_next_server_lem n.current_server left refl found)
      ∙ send_message_lem dial reach 10 next n.current_server left)
