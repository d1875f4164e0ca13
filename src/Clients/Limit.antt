-- ===== src/Clients/Limit.antt =====
-- The limit on the connections of one user.
use trabalho_sistemas_operac.Prelude.{
  refl, sym, ap, subst, ◌-◌, ◌∙◌, ℕ, zero, suc, ◌+◌, ◌≤◌, ◌<◌, ◌≡◌, inl, inr, Bool, true, false,
  not, ◌&&◌, Option, none, some, List, [], ◌∷◌, ◌++◌, ltb, if◌then◌else◌, length, arith, Bool-cases,
  bytes_eq, ltb→lt, eq_of_bytes_eq,
}
use trabalho_sistemas_operac.Clients.{
  Client, count_clients, erase_loop, can_connect, client_remove, broadcast, max_active_connections,
  erase_invalid, client_new, FileEvent, invalid_from, new_client,
}

-- No user has more than `MAX_ACTIVE_CONNECTIONS` clients that are not primary servers.
abbrev pub WithinLimit : List Client → Type 0
WithinLimit clients = (username : List ℕ) → count_clients username clients ≤ max_active_connections

abbrev pub one_if : Bool → ℕ
one_if b = if b then 1 else 0

count-append :
    (u : List ℕ) (clients : List Client) (c : Client)
    → count_clients u (clients ++ c ∷ [])
      ≡ count_clients u clients + one_if (bytes_eq c.username u && not c.from_primary)
unfolding count_clients
count-append u [] c = ground arith
count-append u (d ∷ clients) c = ground (arith, count-append u clients c)

pub erase_loop-none :
    (invalid : List ℕ) (i : ℕ) (clients : List Client) → erase_loop invalid i clients ≡ none
unfolding erase_loop
erase_loop-none invalid zero clients = refl
erase_loop-none invalid (suc i) clients = erase_loop-none invalid i _

-- Where `can_connect` returns, the list is as it was.
can_connect-kept :
    (so_error : ℕ → ℕ) (username : List ℕ) (clients : List Client) (allowed : Bool)
    (kept : List Client)
    → can_connect so_error username clients ≡ some (allowed, kept)
    → (kept ≡ clients) × (allowed ≡ ltb (count_clients username clients) max_active_connections)
unfolding can_connect erase_invalid
can_connect-kept so_error username clients allowed kept e = ground (
  arith,
  erase_loop-none (invalid_from so_error 0 clients) (length (invalid_from so_error 0 clients) - 1)
      clients,
)

pair_eq :
    {x y : Bool} {xs ys : List Client}
    → ◌≡◌ {A = Option (Bool × List Client)} (some (x, xs)) (some (y, ys))
    → xs ≡ ys
pair_eq e = ground arith

-- A client that is not a primary server is let in below the limit only.
added :
    (username u : List ℕ) (id sockfd : ℕ) (clients : List Client)
    → WithinLimit clients
    → count_clients username clients < max_active_connections
    → count_clients u (clients ++ new_client username id sockfd false ∷ []) ≤ max_active_connections
unfolding new_client
added username u id sockfd clients h room = elim (Bool-cases (bytes_eq username u)) [
  | inl same ↦
      let e : username ≡ u = eq_of_bytes_eq username u same in
      ground (
        arith,
        count-append u clients (new_client username id sockfd false),
        ap (λ x. count_clients x clients) e,
      )
  | inr other ↦ ground (arith, h u, count-append u clients (new_client username id sockfd false))
]

new_cases :
    (so_error : ℕ → ℕ) (username : List ℕ) (id sockfd : ℕ) (clients : List Client) (created : Bool)
    (after : List Client)
    → client_new so_error username id sockfd false clients ≡ some (created, after)
    → WithinLimit clients
    → WithinLimit after
unfolding client_new
new_cases so_error username id sockfd clients created after e h u =
    go (can_connect so_error username clients) refl
  where
    go :
        (r : Option (Bool × List Client))
        → can_connect so_error username clients ≡ r
        → count_clients u after ≤ max_active_connections
    go none x = absurd (cc)
    go (some (true, kept)) x =
        let k = can_connect-kept so_error username clients true kept x in
        let room : count_clients username clients < max_active_connections =
          ltb→lt _ _ (sym (k.1)) in
        let eq : kept ++ new_client username id sockfd false ∷ [] ≡ after = cc in
        subst (λ l. count_clients u l ≤ max_active_connections)
          (ap (λ l. l ++ new_client username id sockfd false ∷ []) (sym (k.0)) ∙ eq)
          (added username u id sockfd clients h room)
    go (some (false, kept)) x =
        let k = can_connect-kept so_error username clients false kept x in
        let eq : kept ≡ after = cc in
        subst (λ l. count_clients u l ≤ max_active_connections) (sym (k.0) ∙ eq) (h u)

pub client_new-WithinLimit :
    (so_error : ℕ → ℕ) (username : List ℕ) (id sockfd : ℕ) (from_primary : Bool)
    (clients : List Client) (created : Bool) (after : List Client)
    → client_new so_error username id sockfd from_primary clients ≡ some (created, after)
    → WithinLimit clients
    → WithinLimit after
unfolding client_new
client_new-WithinLimit so_error username id sockfd true clients created after e h u =
    subst (λ l. count_clients u l ≤ max_active_connections) (pair_eq e)
      (unfold new_client in
        ground (arith, h u, count-append u clients (new_client username id sockfd true)))
client_new-WithinLimit so_error username id sockfd false clients created after e h u =
    new_cases so_error username id sockfd clients created after e h u

client_remove-count :
    (id : ℕ) (u : List ℕ) (clients : List Client)
    → count_clients u (client_remove id clients) ≤ count_clients u clients
unfolding client_remove count_clients
client_remove-count id u [] = omega arith
client_remove-count id u (c ∷ clients) = ground (arith, client_remove-count id u clients)

broadcast-count :
    (username u : List ℕ) (event : FileEvent) (clients : List Client)
    → count_clients u (broadcast username event clients) ≡ count_clients u clients
unfolding broadcast count_clients
broadcast-count username u event [] = refl
broadcast-count username u event (c ∷ clients) =
    ground (arith, broadcast-count username u event clients)

-- What the threads of a server do with its list of clients.
pub data Call : Type 0 where
  connect : List ℕ → ℕ → ℕ → Bool → Call
  leave : ℕ → Call
  tell : List ℕ → FileEvent → Call

abbrev list_of : Option (Bool × List Client) → Option (List Client)
list_of none = none
list_of (some (created, clients)) = some clients

-- One call, where `none` is undefined behaviour.
unfoldable pub step : (ℕ → ℕ) → List Client → Call → Option (List Client)
step so_error clients (connect username id sockfd from_primary) =
    list_of (client_new so_error username id sockfd from_primary clients)
step so_error clients (leave id) = some (client_remove id clients)
step so_error clients (tell username event) = some (broadcast username event clients)

unfoldable pub run : (ℕ → ℕ) → List Client → List Call → Option (List Client)
run so_error clients [] = some clients
run so_error clients (call ∷ calls) = elim (step so_error clients call) [
  | none ↦ none
  | some after ↦ run so_error after calls
]

some_eq : {xs ys : List Client} → some xs ≡ some ys → xs ≡ ys
some_eq e = cc

step-WithinLimit :
    (so_error : ℕ → ℕ) (clients : List Client) (call : Call) (after : List Client)
    → step so_error clients call ≡ some after
    → WithinLimit clients
    → WithinLimit after
unfolding step
step-WithinLimit so_error clients (connect username id sockfd from_primary) after e h =
    go (client_new so_error username id sockfd from_primary clients) refl
  where
    go :
        (r : Option (Bool × List Client))
        → client_new so_error username id sockfd from_primary clients ≡ r
        → WithinLimit after
    go none x = absurd (cc)
    go (some (created, kept)) x =
        client_new-WithinLimit so_error username id sockfd from_primary clients created after (cc) h
step-WithinLimit so_error clients (leave id) after e h = λ u.
    subst (λ l. count_clients u l ≤ max_active_connections) (some_eq e)
      (omega (arith, h u, client_remove-count id u clients))
step-WithinLimit so_error clients (tell username event) after e h = λ u.
    subst (λ l. count_clients u l ≤ max_active_connections) (some_eq e)
      (omega (arith, h u, broadcast-count username u event clients))

-- Wherever a run of the calls of the threads is well defined, whatever the sockets report, it keeps
-- the limit: no user has more than two clients that are not primary servers.
pub run-WithinLimit :
    (so_error : ℕ → ℕ) (clients : List Client) (calls : List Call) (after : List Client)
    → run so_error clients calls ≡ some after
    → WithinLimit clients
    → WithinLimit after
unfolding run
run-WithinLimit so_error clients [] after e h = subst WithinLimit (some_eq e) h
run-WithinLimit so_error clients (call ∷ calls) after e h =
    go (step so_error clients call) refl (λ next. run-WithinLimit so_error next calls after)
  where
    go :
        (r : Option (List Client))
        → step so_error clients call ≡ r
        → ((next : List Client)
            → run so_error next calls ≡ some after
            → WithinLimit next
            → WithinLimit after)
        → WithinLimit after
    go none x ih = absurd (cc)
    go (some next) x ih =
        ih next (rw (x, run) at e) (step-WithinLimit so_error clients call next x h)
