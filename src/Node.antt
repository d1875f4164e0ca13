-- ===== src/Node.antt =====
-- The state of a server process (server/src/state.cpp, state.h and the types of election.h), and
-- what a call of one of its threads can end in. A semaphore that is free is `true`.
use trabalho_sistemas_operac.Prelude.{
  ℕ, ◌&&◌, Bool, true, false, Option, none, some, List, [], ◌∷◌, ltb, ◌==◌, if◌then◌else◌,
}

-- `server_type_t`
pub data ServerType : Type 0 where
  primary backup : ServerType

-- `server_t`
pub record Server : Type 0 where
  pub ip : ℕ
  pub port : ℕ
  pub server_type : ServerType

-- `request_type_t`
pub data RequestType : Type 0 where
  req_fetch_metadata req_hello req_register req_get_primary req_update_metadata : RequestType

-- Bytes that a socket to the port `port` of `ip` has accepted.
pub record Envelope : Type 0 where
  pub ip : ℕ
  pub port : ℕ
  pub bytes : List ℕ

-- `program_state_t`, as far as servers talk to one another; `outbox` stands for the network.
pub record Node : Type 0 where
  pub current_server : Server
  pub metadata_mutex : Bool
  pub servers : List Server
  pub should_stop : Bool
  pub deferred_requests_mutex : Bool
  pub deferred_requests : List RequestType
  pub dns_ip : ℕ
  pub dns_port : ℕ
  pub outbox : List Envelope

-- A call returns, ends the process (`exit(EXIT_FAILURE)`), reads through a null pointer, or waits
-- for a semaphore that is taken.
pub data Outcome (A : Type 0) : Type 0 where
  returned : A → Node → Outcome A
  exited crashed blocked : Outcome A

abbrev pub Run : Type 0 → Type 0
Run A = Node → Outcome A

infixl 10 ◌>>=◌ ◌>>◌
abbrev pub ◌>>=◌ : {A B : Type 0} → Run A → (A → Run B) → Run B
◌>>=◌ m f n = elim (m n) [
  | returned a n' ↦ f a n'
  | exited ↦ exited
  | crashed ↦ crashed
  | blocked ↦ blocked
]

abbrev pub ◌>>◌ : {A B : Type 0} → Run A → Run B → Run B
m >> k = m >>= λ _. k

abbrev pub return : {A : Type 0} → A → Run A
return a n = returned a n

-- `state_init`
unfoldable pub state_init : ℕ → ℕ → ServerType → ℕ → ℕ → Node
state_init ip port type dns_ip dns_port =
    let current : Server = record { ip = ip; port = port; server_type = type } in
    record {
      current_server = current;
      metadata_mutex = true;
      servers = current ∷ [];
      should_stop = false;
      deferred_requests_mutex = true;
      deferred_requests = [];
      dns_ip = dns_ip;
      dns_port = dns_port;
      outbox = [];
    }

-- `acquire_metadata` and `release_metadata`
unfoldable pub acquire_metadata : Run (List Server)
acquire_metadata n =
    if n.metadata_mutex then returned n.servers (record n { metadata_mutex = false }) else blocked

unfoldable pub release_metadata : Run (Unit {0})
release_metadata n = returned tt (record n { metadata_mutex = true })

-- `acquire_deferred_requests` and `release_deferred_requests`
unfoldable pub acquire_deferred_requests : Run (List RequestType)
acquire_deferred_requests n =
    if n.deferred_requests_mutex
    then returned n.deferred_requests (record n { deferred_requests_mutex = false })
    else blocked

unfoldable pub release_deferred_requests : Run (Unit {0})
release_deferred_requests n = returned tt (record n { deferred_requests_mutex = true })

abbrev pub set_servers : List Server → Run (Unit {0})
set_servers servers n = returned tt (record n { servers = servers })

abbrev pub get_current_server : Run Server
get_current_server n = returned n.current_server n

unfoldable pub is_primary : Server → Bool
is_primary s = elim s.server_type [ primary ↦ true | backup ↦ false ]

-- The loop of `get_primary_server`.
unfoldable pub first_primary : List Server → Option Server
first_primary [] = none
first_primary (s ∷ servers) = if is_primary s then some s else first_primary servers

-- `none` is the null pointer.
unfoldable pub get_primary_server : Run (Option Server)
unfolding acquire_metadata release_metadata
get_primary_server = do servers ← acquire_metadata; release_metadata; return (first_primary servers)

-- `comp`
unfoldable pub comp : Server → Server → Bool
comp a b = if ltb b.ip a.ip then true else if ltb a.ip b.ip then false else ltb b.port a.port

unfoldable pub server_eq : Server → Server → Bool
server_eq a b = (a.ip == b.ip) && (a.port == b.port)
