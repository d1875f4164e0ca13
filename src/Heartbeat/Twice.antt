-- ===== src/Heartbeat/Twice.antt =====
-- A backup server that loses the primary one twice (server/src/heartbeat.cpp).
use trabalho_sistemas_operac.Prelude.{
  ℕ, ◌%◌, ◌^◌, ◌+◌, ◌++◌, ◌≡◌, ◌==◌, ◌⊎◌, inl, inr, refl, ap, ◌∙◌, true, false, none, some, Option,
  List, [], ◌∷◌, All, Bool-cases, length,
}
use trabalho_sistemas_operac.Node.{
  Node, Server, Outcome, returned, crashed, first_primary, get_primary_server, acquire_metadata,
  release_metadata, is_primary, server_eq, return,
}
use trabalho_sistemas_operac.Coms.Client.{Dial}
use trabalho_sistemas_operac.Election.{
  talk, without, index_of, initiate_election, drop_primary, get_next_server, send_message,
  next_server, write_message,
}
use trabalho_sistemas_operac.Election.Handlers.{bind_lem, acquire_lem, get_next_server_lem}
use trabalho_sistemas_operac.Election.Start.{bereft, drop_primary_lem}
use trabalho_sistemas_operac.Coms.Register.{talk-Keeps}
use trabalho_sistemas_operac.Heartbeat.Beats.{heartbeat}
use trabalho_sistemas_operac.Net.Connection.{Connection}
use trabalho_sistemas_operac.Heartbeat.{heartbeat_round, watched, Watch, again}
use trabalho_sistemas_operac.Prelude.Exec.{Exec}

-- No other server is primary.
abbrev pub OnlyPrimary : Server → List Server → Type 0
OnlyPrimary p = All (λ s. (server_eq s p ≡ true) ⊎ (is_primary s ≡ false))

backup_of :
    (s p : Server)
    → server_eq s p ≡ false
    → (server_eq s p ≡ true) ⊎ (is_primary s ≡ false)
    → is_primary s ≡ false
backup_of s p e (inl h) = cc (e, h)
backup_of s p e (inr h) = h

first_primary-without :
    (p : Server) (servers : List Server)
    → OnlyPrimary p servers
    → first_primary (without p servers) ≡ none
unfolding first_primary without
first_primary-without p [] h = refl
first_primary-without p (s ∷ servers) (h, hs) = elim (Bool-cases (server_eq s p)) [
  | inl e ↦ rw e (first_primary-without p servers hs)
  | inr e ↦ rw (e, backup_of s p e h) (first_primary-without p servers hs)
]

pub get_primary_server_lem :
    (n : Node)
    → n.metadata_mutex ≡ true
    → get_primary_server n ≡ returned (first_primary n.servers) (record n { metadata_mutex = true })
unfolding get_primary_server release_metadata
get_primary_server_lem n free = bind_lem acquire_metadata _ n (acquire_lem n free)

-- Without a primary server in the metadata.
heartbeat_round-crashes :
    (dial : Dial) (count : ℕ) (n : Node)
    → n.metadata_mutex ≡ true
    → first_primary n.servers ≡ none
    → heartbeat_round dial count n ≡ crashed
unfolding heartbeat_round
heartbeat_round-crashes dial count n free e =
    bind_lem get_primary_server _ n (get_primary_server_lem n free) ∙ rw e refl

-- A backup server `n` that still has the primary server `p` in its metadata, and would find itself
-- without it.
pub record Follower (p : Server) (n : Node) : Type 0 where
  pub free : n.metadata_mutex ≡ true
  pub backup : is_primary n.current_server ≡ false
  pub known : (length (without p n.servers) == length n.servers) ≡ false
  pub found :
      (index_of n.current_server (without p n.servers) == length (without p n.servers)) ≡ false

initiate_election-drops :
    (dial : Dial) (p : Server) (n : Node)
    → Follower p n
    → (n' : Node) × (initiate_election dial p n ≡ returned tt n')
      × (n'.servers ≡ without p n.servers)
      × (n'.metadata_mutex ≡ true)
unfolding initiate_election send_message
initiate_election-drops dial p n f =
    let left : Node = bereft p n in
    let next : Server = next_server left.servers n.current_server in
    let (res, n', told, keeps) =
      talk-Keeps dial next.ip (next.port + 1) (write_message 10 n.current_server) left in
    (
      n',
      rw (f.backup) (
          bind_lem (drop_primary p) _ n (drop_primary_lem p n f.free f.known)
          ∙ bind_lem (get_next_server n.current_server) _ left
              (get_next_server_lem n.current_server left refl f.found)
          ∙ bind_lem (talk dial next.ip (next.port + 1) (write_message 10 n.current_server))
              (λ _. return tt) left told),
      keeps.servers,
      keeps.free,
    )

-- The primary server cannot be dialled, or a write to it fails.
abbrev pub Lost : Dial → Server → ℕ → ℕ → Type 0
Lost dial p port count =
    (dial p.ip ((p.port + 3) % 2 ^ 16) ≡ none)
    ⊎ ((c : Connection) × (dial p.ip ((p.port + 3) % 2 ^ 16) ≡ some c)
        × ((heartbeat port count c).0 ≡ none))

-- A round up to the election.
abbrev Drops : Dial → Server → Node → Outcome Watch → Type 0
Drops dial p n o =
    (n' : Node) × (o ≡ returned again n')
    × (n'.servers ≡ without p n.servers)
    × (n'.metadata_mutex ≡ true)

watched-Drops :
    (dial : Dial) (p : Server) (n m : Node) (res : Option (Option (Unit {0})))
    → (res ≡ none) ⊎ (res ≡ some none)
    → Follower p m
    → m.servers ≡ n.servers
    → Drops dial p n (watched dial p res m)
watched-Drops dial p n m res (inl e) f s =
    let x = initiate_election-drops dial p m f in
    (
      x.0,
      rw e (bind_lem (initiate_election dial p) (λ _. return again) m x.1),
      x.2 ∙ ap (without p) s,
      x.3,
    )
watched-Drops dial p n m res (inr e) f s =
    let x = initiate_election-drops dial p m f in
    (
      x.0,
      rw e (bind_lem (initiate_election dial p) (λ _. return again) m x.1),
      x.2 ∙ ap (without p) s,
      x.3,
    )

talk-none :
    {A : Type 0} (dial : Dial) (ip port : ℕ) (exchange : Exec Connection A) (n : Node)
    → dial ip (port % 2 ^ 16) ≡ none
    → talk dial ip port exchange n ≡ returned none n
unfolding talk
talk-none dial ip port exchange n e = rw (e, talk) refl

talk-fails :
    {A : Type 0} (dial : Dial) (ip port : ℕ) (exchange : Exec Connection A) (n : Node)
    (c : Connection)
    → dial ip (port % 2 ^ 16) ≡ some c
    → (exchange c).0 ≡ none
    → talk dial ip port exchange n
      ≡ returned (some none) (record n {
        outbox =
            n.outbox
            ++ record { ip = ip; port = port % 2 ^ 16; bytes = (exchange c).1.writer.sent } ∷ [];
      })
unfolding talk
talk-fails dial ip port exchange n c e f = rw (e, f, talk) refl

abbrev locked : Node → Node
locked n = record n { metadata_mutex = true }

round-Drops :
    (dial : Dial) (count : ℕ) (p : Server) (n m : Node) (res : Option (Option (Unit {0})))
    → Follower p n
    → first_primary n.servers ≡ some p
    → server_eq p n.current_server ≡ false
    → talk dial p.ip (p.port + 3) (heartbeat n.current_server.port count) (locked n)
      ≡ returned res m
    → Drops dial p n (watched dial p res m)
    → Drops dial p n (heartbeat_round dial count n)
unfolding heartbeat_round
round-Drops dial count p n m res f first other told (n', o, same, free) =
    let path =
      bind_lem (talk dial p.ip (p.port + 3) (heartbeat n.current_server.port count))
        (watched dial p) (locked n) told
      ∙ o in
    (
      n',
      bind_lem get_primary_server _ n (get_primary_server_lem n f.free) ∙ rw (first, other) path,
      same,
      free,
    )

locked-Follower : (p : Server) (n : Node) → Follower p n → Follower p (locked n)
locked-Follower p n f = record { free = refl; backup = f.backup; known = f.known; found = f.found }

failed-Drops :
    (dial : Dial) (count : ℕ) (p : Server) (n : Node)
    → Follower p n
    → first_primary n.servers ≡ some p
    → server_eq p n.current_server ≡ false
    → Lost dial p n.current_server.port count
    → Drops dial p n (heartbeat_round dial count n)
failed-Drops dial count p n f first other (inl e) =
    round-Drops dial count p n (locked n) none f first other
      (talk-none dial p.ip (p.port + 3) (heartbeat n.current_server.port count) (locked n) e)
      (watched-Drops dial p n (locked n) none (inl refl) (locked-Follower p n f) refl)
failed-Drops dial count p n f first other (inr (c, e, fails)) =
    let port : ℕ = n.current_server.port in
    let m : Node = record n {
      metadata_mutex = true;
      outbox =
          n.outbox
          ++ record {
            ip = p.ip;
            port = (p.port + 3) % 2 ^ 16;
            bytes = (heartbeat port count c).1.writer.sent;
          }
            ∷ [];
    } in
    round-Drops dial count p n m (some none) f first other
      (talk-fails dial p.ip (p.port + 3) (heartbeat port count) (locked n) c e fails)
      (watched-Drops dial p n m (some none) (inr refl)
        (record { free = refl; backup = f.backup; known = f.known; found = f.found }) refl)

-- On a backup server with the lock of the metadata free, whose metadata has one primary server,
-- another one than itself, and itself: where that server cannot be dialled, or a write to it fails,
-- the round of `heartbeat_writer_thread` starts an election and goes on, with the primary server
-- out of the metadata; and a further round from that state reads a null pointer.
pub heartbeat_round-twice :
    (dial : Dial) (count later : ℕ) (p : Server) (n : Node)
    → Follower p n
    → first_primary n.servers ≡ some p
    → OnlyPrimary p n.servers
    → server_eq p n.current_server ≡ false
    → Lost dial p n.current_server.port count
    → (n' : Node) × (heartbeat_round dial count n ≡ returned again n')
      × (n'.servers ≡ without p n.servers)
      × (heartbeat_round dial later n' ≡ crashed)
heartbeat_round-twice dial count later p n f first only other lost =
    let (n', o, s, free) = failed-Drops dial count p n f first other lost in
    (
      n',
      o,
      s,
      heartbeat_round-crashes dial later n' free
          (ap first_primary s ∙ first_primary-without p n.servers only),
    )
