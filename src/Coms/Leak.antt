-- ===== src/Coms/Leak.antt =====
-- The metadata that stays acquired (server/src/coms.cpp, request 14).
use trabalho_sistemas_operac.Prelude.{
  refl, ap, ◌∙◌, ◌≡◌, Bool, true, false, none, some, arith, [], ℕ, List, suc, ◌∷◌, if◌then◌else◌,
}
use trabalho_sistemas_operac.Prelude.Exec.{Exec}
use trabalho_sistemas_operac.Node.{
  returned, blocked, Run, Node, ◌>>=◌, acquire_metadata, get_primary_server,
  acquire_deferred_requests, release_deferred_requests,
}
use trabalho_sistemas_operac.Net.Connection.{Connection, reading, writing}
use trabalho_sistemas_operac.Net.Reader.{read_u8}
use trabalho_sistemas_operac.Net.Writer.{write_u16}
use trabalho_sistemas_operac.Coms.Listener.{link_of}
use trabalho_sistemas_operac.Coms.Client.{Dial, status_ok}
use trabalho_sistemas_operac.Coms.Server.{
  Link, Serve, and_then, on_socket, on_state, serve_request, serve_fetch_metadata,
  serve_get_primary, write_metadata, coms_handle_request, handle_deferred, run_all,
}
use trabalho_sistemas_operac.Coms.Answer.{serve_bind, serve_says, serve_state}
use trabalho_sistemas_operac.Election.Handlers.{acquire_lem, bind_lem}
use trabalho_sistemas_operac.Coms.Listener.{
  listen_loop, Round, coms_handle_connection, with_accepted, with_ended,
}

-- The first failure is that of the whole.
serve_fails :
    {A B : Type 0} (m : Serve A) (f : A → Serve B) (link : Link) (n : Node) {link' : Link}
    {n' : Node}
    → m link n ≡ returned (none, link') n'
    → and_then m f link n ≡ returned (none, link') n'
unfolding and_then
serve_fails m f link n e = rw (e, and_then) refl

serve_blocks :
    {A B : Type 0} (m : Serve A) (f : A → Serve B) (link : Link) (n : Node)
    → m link n ≡ blocked
    → and_then m f link n ≡ blocked
unfolding and_then
serve_blocks m f link n e = rw (e, and_then) refl

bind_blocks :
    {A B : Type 0} (m : Run A) (f : A → Run B) (n : Node) → m n ≡ blocked → (m >>= f) n ≡ blocked
bind_blocks m f n e = ap (λ r. ((λ _. r) >>= f) n) e

fails_on :
    {A : Type 0} (m : Exec Connection A) (link : Link) (n : Node)
    → (m link.conn).0 ≡ none
    → on_socket m link n ≡ returned (none, record link { conn = (m link.conn).1 }) n
unfolding on_socket
fails_on m link n e = ap (λ o. returned (o, record link { conn = (m link.conn).1 }) n) e

abbrev read_kind : Link → Link
read_kind link = record link { conn = (reading read_u8 link.conn).1 }

abbrev sent_status : Link → Link
sent_status link = record link { conn = (writing (write_u16 status_ok) link.conn).1 }

-- A request for the metadata is asked for, the status is written, and then a write fails.
pub record FailsLate (link : Link) (n : Node) : Type 0 where
  pub asks : (reading read_u8 link.conn).0 ≡ some 14
  pub status : (writing (write_u16 status_ok) (read_kind link).conn).0 ≡ some tt
  pub fails : (write_metadata n.servers (sent_status (read_kind link)).conn).0 ≡ none

abbrev leaked : Node → Node
leaked n = record n { metadata_mutex = false }

coms_handle_request-FailsLate :
    (dial : Dial) (link : Link) (n : Node)
    → n.metadata_mutex ≡ true
    → FailsLate link n
    → (link' : Link) × (coms_handle_request dial link n ≡ returned (none, link') (leaked n))
unfolding coms_handle_request serve_request serve_fetch_metadata
coms_handle_request-FailsLate dial link n free h =
    let l1 = read_kind link in
    let l2 = sent_status l1 in
    (
      record l2 { conn = (write_metadata n.servers l2.conn).1 },
      serve_bind (on_socket (reading read_u8)) _ link n
            (serve_says link n (reading read_u8) (h.asks))
          ∙ serve_bind (on_socket (writing (write_u16 status_ok))) _ l1 n
              (serve_says l1 n _ (h.status))
          ∙ serve_bind (on_state acquire_metadata) _ l2 n
              (serve_state acquire_metadata l2 n (acquire_lem n free))
          ∙ serve_fails (on_socket (write_metadata n.servers)) _ l2 (leaked n)
              (fails_on (write_metadata n.servers) l2 (leaked n) (h.fails)),
    )

-- With the metadata taken, a request for the primary server waits for ever.
coms_handle_request-blocks :
    (dial : Dial) (link : Link) (n : Node)
    → n.metadata_mutex ≡ false
    → (reading read_u8 link.conn).0 ≡ some 17
    → coms_handle_request dial link n ≡ blocked
unfolding coms_handle_request serve_request serve_get_primary get_primary_server acquire_metadata
    on_state
coms_handle_request-blocks dial link n taken asks =
    let waits : get_primary_server n ≡ blocked = rw (taken, get_primary_server) refl in
    serve_bind (on_socket (reading read_u8)) _ link n (serve_says link n (reading read_u8) asks)
    ∙ serve_blocks (on_state get_primary_server) _ (read_kind link) n
        (bind_blocks get_primary_server _ n waits)

runs_on :
    {A : Type 0} (stop : Bool) (a b : A) → stop ≡ false → (elim stop [ true ↦ a | false ↦ b ]) ≡ b
runs_on true a b e = ground arith
runs_on false a b e = refl

-- A process that goes on, with no deferred request.
pub record IsIdle (n : Node) : Type 0 where
  pub going : n.should_stop ≡ false
  pub free : n.deferred_requests_mutex ≡ true
  pub none_deferred : n.deferred_requests ≡ []

abbrev unlocked : Node → Node
unlocked n = record n { deferred_requests_mutex = true }

handle_deferred-idle :
    (dial : Dial) (n : Node) → IsIdle n → handle_deferred dial n ≡ returned tt (unlocked n)
unfolding handle_deferred run_all acquire_deferred_requests release_deferred_requests
handle_deferred-idle dial n h =
    let held : Node = record n { deferred_requests_mutex = false } in
    let acquired : acquire_deferred_requests n ≡ returned n.deferred_requests held =
      ap (λ b. if b then returned n.deferred_requests held else blocked) (h.free) in
    bind_lem acquire_deferred_requests _ n acquired
    ∙ bind_lem (run_all dial n.deferred_requests) _ held
        (ap (λ requests. run_all dial requests held) (h.none_deferred))

-- A round of an idle process goes straight to its connection.
listen_loop-idle :
    (fuel : ℕ) (round : Round) (rounds : List Round) (n : Node)
    → IsIdle n
    → listen_loop fuel (round ∷ rounds) n
      ≡ with_accepted round.dial fuel (listen_loop fuel rounds) round.accepted (unlocked n)
unfolding listen_loop
listen_loop-idle fuel round rounds n h =
    runs_on n.should_stop _ _ (h.going)
    ∙ bind_lem (handle_deferred round.dial) _ n (handle_deferred-idle round.dial n h)

abbrev pub round_of : Dial → Connection → Round
round_of dial c = record { dial = dial; accepted = some c }

blocks_in :
    (dial : Dial) (fuel : ℕ) (link : Link) (n : Node)
    → n.should_stop ≡ false
    → coms_handle_request dial link n ≡ blocked
    → coms_handle_connection dial (suc fuel) link n ≡ blocked
unfolding coms_handle_connection
blocks_in dial fuel link n going e =
    runs_on n.should_stop _ _ going ∙ rw (e, coms_handle_connection) refl

ends_in :
    (dial : Dial) (fuel : ℕ) (link : Link) (n : Node) {link' : Link} {n' : Node}
    → n.should_stop ≡ false
    → coms_handle_request dial link n ≡ returned (none, link') n'
    → coms_handle_connection dial (suc fuel) link n ≡ returned (some link') n'
unfolding coms_handle_connection
ends_in dial fuel link n going e =
    runs_on n.should_stop _ _ going ∙ rw (e, coms_handle_connection) refl

-- In a process that goes on, with no deferred request and the locks free: where a server asks for
-- the metadata and, behind the status, a write of it fails, a second server that asks for the
-- primary server makes the listener wait for the metadata, which the first request has left
-- acquired, whatever the network is.
pub listen_loop-blocks :
    (dial dial' : Dial) (fuel : ℕ) (c c' : Connection) (rounds : List Round) (n : Node)
    → IsIdle n
    → n.metadata_mutex ≡ true
    → FailsLate (link_of c) n
    → (reading read_u8 c').0 ≡ some 17
    → listen_loop (suc fuel) (round_of dial c ∷ round_of dial' c' ∷ rounds) n ≡ blocked
unfolding with_accepted with_ended
listen_loop-blocks dial dial' fuel c c' rounds n h free fails asks =
    let link = link_of c in
    let link' = link_of c' in
    let n1 = unlocked n in
    let n2 = leaked n1 in
    let failed : FailsLate (link_of c) n1 = record {
      asks = fails.asks;
      status = fails.status;
      fails = fails.fails;
    } in
    let x = coms_handle_request-FailsLate dial link n1 free failed in
    let idle : IsIdle n2 = record {
      going = h.going;
      free = refl;
      none_deferred = h.none_deferred;
    } in
    listen_loop-idle (suc fuel) (round_of dial c) _ n h
    ∙ bind_lem (coms_handle_connection dial (suc fuel) link) _ n1
        (ends_in dial fuel link n1 (h.going) (x.1))
    ∙ listen_loop-idle (suc fuel) (round_of dial' c') rounds n2 idle
    ∙ bind_blocks (coms_handle_connection dial' (suc fuel) link') _ n2 (
        blocks_in dial' fuel link' n2 (h.going)
          (coms_handle_request-blocks dial' link' n2 refl asks))
