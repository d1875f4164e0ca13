-- ===== src/Election/Repeat.antt =====
-- A second election message at a server that was elected (server/src/election.cpp): what the
-- handlers leave in the metadata ends the process.
use trabalho_sistemas_operac.Prelude.{
  refl, ◌+◌, sym, ap, ◌∙◌, suc, ◌≡◌, inl, inr, true, false, List, [], ◌∷◌, ◌==◌, All, Bool-cases,
  arith, length,
}
use trabalho_sistemas_operac.Node.{
  exited, Run, Node, Server, ◌>>=◌, ◌>>◌, server_eq, is_primary, acquire_metadata, release_metadata,
}
use trabalho_sistemas_operac.Coms.Client.{Dial}
use trabalho_sistemas_operac.Election.{
  without_primary, index_of, mark_primary, get_next_server, next_server,
  handle_async_election_message,
}
use trabalho_sistemas_operac.Election.Ring.{Distinct, Apart, decide}
use trabalho_sistemas_operac.Election.Handlers.{
  IsReachable, bind_lem, acquire_lem, handle_async_election_message_lem, demoted, elected_node,
  posted, envelope,
}

-- Only primary servers have the address of `current`.
abbrev pub PrimaryOnly : Server → List Server → Type 0
PrimaryOnly current = All (λ s. server_eq s current ≡ true → is_primary s ≡ true)

index_of-absent :
    (current : Server) (servers : List Server)
    → PrimaryOnly current servers
    → index_of current (without_primary servers) ≡ length (without_primary servers)
unfolding index_of without_primary
index_of-absent current [] h = refl
index_of-absent current (s ∷ servers) h = elim (Bool-cases (is_primary s)) [
  | inl p ↦ rw p (index_of-absent current servers h.1)
  | inr b ↦ elim (Bool-cases (server_eq s current)) [
    | inl e ↦ absurd (differ (sym (h.0 e) ∙ b))
    | inr e ↦ rw (b, e) (ap suc (index_of-absent current servers h.1))
  ]
]
  where
    differ : true ≡ false → ⊥
    differ h = ground arith

Apart-without :
    (s : Server) (servers : List Server) → Apart s servers → Apart s (without_primary servers)
unfolding without_primary
Apart-without s [] a = tt
Apart-without s (x ∷ servers) a = elim (Bool-cases (is_primary x)) [
  | inl p ↦ rw p (Apart-without s servers a.1)
  | inr b ↦ rw b (a.0, Apart-without s servers a.1)
]

Distinct-without : (servers : List Server) → Distinct servers → Distinct (without_primary servers)
unfolding without_primary
Distinct-without [] d = tt
Distinct-without (x ∷ servers) d = elim (Bool-cases (is_primary x)) [
  | inl p ↦ rw p (Distinct-without servers d.1)
  | inr b ↦ rw b (Apart-without x servers d.0, Distinct-without servers d.1)
]

-- Behind an entry with the address of `current` there is no other one.
PrimaryOnly-rest :
    (current s : Server) (servers : List Server)
    → server_eq current s ≡ true
    → Apart s servers
    → PrimaryOnly current servers
PrimaryOnly-rest current s [] e a = tt
PrimaryOnly-rest current s (x ∷ servers) e a =
    (λ same. absurd (twice x same a.0), PrimaryOnly-rest current s servers e a.1)
  where
    twice : (x : Server) → server_eq x current ≡ true → server_eq x s ≡ false → ⊥
    twice x same other = unfold server_eq in ground arith

mark_primary-PrimaryOnly :
    (current : Server) (servers : List Server)
    → Distinct servers
    → PrimaryOnly current (mark_primary current servers)
unfolding mark_primary
mark_primary-PrimaryOnly current [] d = tt
mark_primary-PrimaryOnly current (s ∷ servers) d = elim (Bool-cases (server_eq current s)) [
  | inl e ↦ rw e ((λ same. unfold is_primary in refl), PrimaryOnly-rest current s servers e d.0)
  | inr e ↦ rw e ((λ same. absurd (one_way same e)), mark_primary-PrimaryOnly current servers d.1)
]
  where
    one_way : server_eq s current ≡ true → server_eq current s ≡ false → ⊥
    one_way same e = unfold server_eq in ground arith

bind_exited :
    {A B : Type 0} (m : Run A) (f : A → Run B) (n : Node) → m n ≡ exited → (m >>= f) n ≡ exited
bind_exited m f n e = ap (λ r. ((λ _. r) >>= f) n) e

election_exits :
    (dial : Dial) (n : Node) (winner : Server)
    → n.metadata_mutex ≡ true
    → PrimaryOnly n.current_server n.servers
    → handle_async_election_message dial winner n ≡ exited
unfolding handle_async_election_message release_metadata get_next_server
election_exits dial n winner free h =
    let gone : (index_of n.current_server (without_primary n.servers)
          == length (without_primary n.servers))
        ≡ true =
      let e = index_of-absent n.current_server n.servers h in ground arith in
    bind_lem acquire_metadata _ n (acquire_lem n free)
    ∙ bind_exited (get_next_server n.current_server) _ (demoted n)
        (bind_lem acquire_metadata _ (demoted n) (acquire_lem (demoted n) refl) ∙ rw gone refl)

-- On a network that reaches every server, with the lock free, servers with different addresses, and
-- the current server among those of the metadata that are not primary: a server that hears an
-- election message with its own address, and then any election message, exits.
pub handle_async_election_message-twice :
    (dial : Dial)
    → IsReachable dial
    → (n : Node) (winner second : Server) → n.metadata_mutex ≡ true
    → Distinct n.servers
    → (index_of n.current_server (without_primary n.servers) == length (without_primary n.servers))
      ≡ false
    → server_eq n.current_server winner ≡ true
    → (handle_async_election_message dial winner >> handle_async_election_message dial second) n
      ≡ exited
unfolding decide
handle_async_election_message-twice dial reach n winner second free d found same =
    let next : Server = next_server (without_primary n.servers) n.current_server in
    let after : Node = elected_node (demoted n) in
    bind_lem (handle_async_election_message dial winner) _ n
      {n' = posted after (envelope next.ip (next.port + 1) 20 after.current_server)}
      (handle_async_election_message_lem dial reach n winner free found ∙ rw same refl)
    ∙ election_exits dial (posted after (envelope next.ip (next.port + 1) 20 after.current_server))
        second refl
        (mark_primary-PrimaryOnly after.current_server (without_primary n.servers)
          (Distinct-without n.servers d))
