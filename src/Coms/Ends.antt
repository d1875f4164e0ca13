-- ===== src/Coms/Ends.antt =====
-- The loop over the requests of a connection ends (server/src/coms.cpp).
use trabalho_sistemas_operac.Prelude.{
  ℕ, zero, suc, ◌+◌, ◌≤◌, ◌<◌, ◌≡◌, ◌==◌, refl, Bool, true, false, Option, none, some, List, [],
  ◌∷◌, arith, if◌then◌else◌,
}
use trabalho_sistemas_operac.Prelude.Exec.{Exec}
use trabalho_sistemas_operac.Node.{Outcome, Run, Server, Node, returned, exited, crashed, blocked}
use trabalho_sistemas_operac.Net.Reader.Left.{left, Fell, read_u8-Drains, read_word-Drains}
use trabalho_sistemas_operac.Net.Connection.{Connection, writing, reading}
use trabalho_sistemas_operac.Net.Writer.{Writer}
use trabalho_sistemas_operac.Net.Reader.{read_u16}
use trabalho_sistemas_operac.Net.Connection.Left.{Uses, Uses-reading, Uses-pure}
use trabalho_sistemas_operac.Protocol.Asked.{Uses-writing, Uses-after}
use trabalho_sistemas_operac.Coms.Client.{Dial}
use trabalho_sistemas_operac.Coms.Server.{
  Link, Serve, and_then, on_socket, on_state, accept, refuse, coms_handle_request, serve_request,
  serve_fetch_metadata, serve_register, serve_get_primary, serve_update_metadata, serve_invalid,
  write_servers, write_metadata, send_status, check, dereference, set_peer_port,
}
use trabalho_sistemas_operac.Coms.Listener.{coms_handle_connection}

-- At least `k` bytes are taken where the handler goes on.
After : {A : Type 0} → ℕ → ℕ → Outcome (Option A × Link) → Type 0
After k m (returned (some a, link) n) = left link.conn.reader + k ≤ m
After k m (returned (none, link) n) = Unit
After k m exited = Unit
After k m crashed = Unit
After k m blocked = Unit

record Takes {A : Type 0} (m : Serve A) (k : ℕ) : Type 0 where
  at : (link : Link) (n : Node) → After k (left link.conn.reader) (m link n)

Takes-and_then :
    {A B : Type 0} (m : Serve A) (f : A → Serve B) (k : ℕ)
    → Takes m k
    → ((a : A) → Takes (f a) 0)
    → Takes (and_then m f) k
unfolding and_then After
Takes-and_then {A} {B} m f k hm hf = record { at = λ link n. go link (m link n) (hm.at link n) }
  where
    next : (j i : ℕ) (o : Outcome (Option B × Link)) → i + k ≤ j → After 0 i o → After k j o
    next j i (returned (some b, link) n) h a = omega arith
    next j i (returned (none, link) n) h a = tt
    next j i exited h a = tt
    next j i crashed h a = tt
    next j i blocked h a = tt

    go :
        (link : Link) (o : Outcome (Option A × Link))
        → After k (left link.conn.reader) o
        → After k (left link.conn.reader) (elim o as (λ o. Outcome (Option B × Link)) [
          | returned (none, link') n' ↦ returned (none, link') n'
          | returned (some a, link') n' ↦ f a link' n'
          | exited ↦ exited
          | crashed ↦ crashed
          | blocked ↦ blocked
        ])
    go link (returned (some a, link') n') h = next _ _ (f a link' n') h ((hf a).at link' n')
    go link (returned (none, link') n') h = tt
    go link exited h = tt
    go link crashed h = tt
    go link blocked h = tt

Takes-on_socket : {A : Type 0} (m : Exec Connection A) (k : ℕ) → Uses m k → Takes (on_socket m) k
unfolding on_socket After
Takes-on_socket {A} m k h = record { at = λ link n. go link n (m link.conn) (h.at link.conn) }
  where
    go :
        (link : Link) (n : Node) (x : Option A × Connection)
        → Fell k (left link.conn.reader) (x.0, x.1.reader)
        → After k (left link.conn.reader) (returned (x.0, record link { conn = x.1 }) n)
    go link n (none, c) h = tt
    go link n (some a, c) h = h

Takes-on_state : {A : Type 0} (m : Run A) → Takes (on_state m) 0
unfolding on_state After
Takes-on_state {A} m = record { at = λ link n. go link (m n) }
  where
    go :
        (link : Link) (o : Outcome A)
        → After 0 (left link.conn.reader) (elim o as (λ o. Outcome (Option A × Link)) [
          | returned a n' ↦ returned (some a, link) n'
          | exited ↦ exited
          | crashed ↦ crashed
          | blocked ↦ blocked
        ])
    go link (returned a n') = omega arith
    go link exited = tt
    go link crashed = tt
    go link blocked = tt

Takes-accept : {A : Type 0} (a : A) → Takes (accept a) 0
unfolding accept After
Takes-accept a = record { at = λ link n. omega arith }

Takes-refuse : {A : Type 0} → Takes (refuse {A = A}) 0
unfolding refuse After
Takes-refuse = record { at = λ link n. tt }

-- A part of the handler that writes.
Takes-writes : {A : Type 0} (m : Exec Writer A) → Takes (on_socket (writing m)) 0
Takes-writes m = Takes-on_socket (writing m) 0 (Uses-writing m)

write_servers-Uses : (servers : List Server) → Uses (write_servers servers) 0
unfolding write_servers
write_servers-Uses [] = Uses-pure tt
write_servers-Uses (s ∷ servers) =
    Uses-after _ _ (λ a. Uses-after _ _ (λ b. write_servers-Uses servers))

Takes-metadata : (servers : List Server) → Takes (on_socket (write_metadata servers)) 0
unfolding write_metadata
Takes-metadata servers =
    Takes-on_socket _ 0 (Uses-after _ _ (λ a. Uses-after _ _ (λ b. write_servers-Uses servers)))

Takes-status : (status : ℕ) → Takes (on_socket (send_status status)) 0
unfolding send_status
Takes-status status = Takes-on_socket _ 0 (Uses-after _ _ (λ a. Uses-writing _))

Takes-dereference : (dial : Dial) (s : Option Server) → Takes (dereference dial s) 0
unfolding dereference accept After
Takes-dereference dial none = record { at = λ link n. tt }
Takes-dereference dial (some s) = record { at = λ link n. omega arith }

Takes-read_u16 : Takes (on_socket (reading read_u16)) 0
unfolding read_u16
Takes-read_u16 = Takes-on_socket _ 0 (Uses-reading (read_word-Drains 2 0 0))

Takes-port : (port : ℕ) → Takes (set_peer_port port) 0
unfolding set_peer_port accept After
Takes-port port = record { at = λ link n. omega arith }

-- Every case of the switch.
serve_fetch_metadata-Takes : Takes serve_fetch_metadata 0
unfolding serve_fetch_metadata
serve_fetch_metadata-Takes = Takes-and_then _ _ 0 (Takes-writes _) (λ a.
    Takes-and_then _ _ 0 (Takes-on_state _) (λ servers.
      Takes-and_then _ _ 0 (Takes-metadata servers)
        (λ b. Takes-and_then _ _ 0 (Takes-on_state _) (λ c. Takes-writes _))))

module _ (dial : Dial) where
  Takes-check : (b : Bool) → Takes (check dial b) 0
  unfolding check
  Takes-check true = Takes-accept tt
  Takes-check false = Takes-refuse

  serve_register-Takes : Takes (serve_register dial) 0
  unfolding serve_register
  serve_register-Takes = Takes-and_then _ _ 0 Takes-read_u16 (λ port.
      Takes-and_then _ _ 0 (Takes-port port) (λ peer. Takes-and_then _ _ 0 (Takes-on_state _) (λ a.
        Takes-and_then _ _ 0 (Takes-status _) (λ b.
          Takes-and_then _ _ 0 (Takes-on_state _)
            (λ copy. Takes-and_then _ _ 0 (Takes-on_state _) Takes-check)))))

  serve_get_primary-Takes : Takes (serve_get_primary dial) 0
  unfolding serve_get_primary
  serve_get_primary-Takes = Takes-and_then _ _ 0 (Takes-on_state _) (λ primary_server.
      Takes-and_then _ _ 0 (Takes-writes _) (λ a.
        Takes-and_then _ _ 0 (Takes-dereference dial primary_server) (λ s.
          Takes-and_then _ _ 0 (Takes-writes _)
            (λ b. Takes-and_then _ _ 0 (Takes-writes _) (λ c. Takes-writes _)))))

  Takes-if :
      {A : Type 0} (b : Bool) (m k : Serve A) → Takes m 0 → Takes k 0 → Takes (if b then m else k) 0
  Takes-if true m k h j = h
  Takes-if false m k h j = j

  serve_request-Takes : (request : ℕ) → Takes (serve_request dial request) 0
  unfolding serve_request serve_update_metadata serve_invalid
  serve_request-Takes request = Takes-if (request == 14) _ _ serve_fetch_metadata-Takes (
      Takes-if (request == 15) _ _ (Takes-status _) (
        Takes-if (request == 16) _ _ serve_register-Takes (
          Takes-if (request == 17) _ _ serve_get_primary-Takes (
            Takes-if (request == 18) _ _
              (Takes-and_then _ _ 0 (Takes-status _) (λ a. Takes-on_state _))
              (Takes-and_then _ _ 0 (Takes-status _) (λ a. Takes-refuse))))))

  coms_handle_request-Takes : Takes (coms_handle_request dial) 1
  unfolding coms_handle_request
  coms_handle_request-Takes =
      Takes-and_then _ _ 1 (Takes-on_socket _ 1 (Uses-reading read_u8-Drains)) serve_request-Takes

  -- Whether the loop was left, or waits for ever in a call: not when the fuel ended.
  abbrev pub is_over : Outcome (Option Link) → Bool
  is_over (returned none n) = false
  is_over (returned (some link) n) = true
  is_over exited = true
  is_over crashed = true
  is_over blocked = true

  -- doc
  pub coms_handle_connection-ends :
      (fuel : ℕ) (link : Link) (n : Node)
      → left link.conn.reader < fuel
      → is_over (coms_handle_connection dial fuel link n) ≡ true
  unfolding coms_handle_connection After
  coms_handle_connection-ends zero link n h = elim h [ ]
  coms_handle_connection-ends (suc fuel) link n h =
      again n.should_stop (coms_handle_request dial link n)
        (λ l k. coms_handle_connection-ends fuel l k) (coms_handle_request-Takes.at link n)
    where
      again :
          (stop : Bool) (o : Outcome (Option (Unit {0}) × Link))
          → ((l : Link) (k : Node)
              → left l.conn.reader < fuel
              → is_over (coms_handle_connection dial fuel l k) ≡ true)
          → After 1 (left link.conn.reader) o
          → is_over (elim stop [
            | true ↦ returned (some link) n
            | false ↦ elim o [
              | returned (some u, link') n' ↦ coms_handle_connection dial fuel link' n'
              | returned (none, link') n' ↦ returned (some link') n'
              | exited ↦ exited
              | crashed ↦ crashed
              | blocked ↦ blocked
            ]
          ])
            ≡ true
      again true o next a = refl
      again false (returned (some u, l) k) next a = next l k (omega arith)
      again false (returned (none, l) k) next a = refl
      again false exited next a = refl
      again false crashed next a = refl
      again false blocked next a = refl
