-- ===== src/Coms/Rounds.antt =====
-- The rounds of the listener of server/src/coms.cpp.
use trabalho_sistemas_operac.Prelude.{
  ℕ, ◌<◌, ◌≡◌, refl, Bool, true, false, Option, none, some, List, [], ◌∷◌, All,
}
use trabalho_sistemas_operac.Node.{Outcome, Run, Node, returned, exited, crashed, blocked}
use trabalho_sistemas_operac.Net.Connection.{Connection}
use trabalho_sistemas_operac.Coms.Listener.{link_of}
use trabalho_sistemas_operac.Coms.Client.{Dial}
use trabalho_sistemas_operac.Coms.Server.{Link, handle_deferred}
use trabalho_sistemas_operac.Coms.Listener.{
  Round, Listened, served, still_busy, listen_loop, coms_handle_connection, with_ended,
  with_accepted,
}
use trabalho_sistemas_operac.Coms.Ends.{is_over, coms_handle_connection-ends}
use trabalho_sistemas_operac.Net.Reader.Left.{left}

-- A connection that is accepted has fewer bytes to come than there is fuel.
abbrev pub ShortRound : ℕ → Round → Type 0
ShortRound fuel round = (c : Connection) → round.accepted ≡ some c → left c.reader < fuel

-- Whether the fuel sufficed.
abbrev pub is_served : Outcome Listened → Bool
is_served (returned served n) = true
is_served (returned still_busy n) = false
is_served exited = true
is_served crashed = true
is_served blocked = true

is_served-bind :
    {A : Type 0} (o : Outcome A) (f : A → Run Listened)
    → ((a : A) (n : Node) → is_served (f a n) ≡ true)
    → is_served
        (elim o [ returned a n ↦ f a n | exited ↦ exited | crashed ↦ crashed | blocked ↦ blocked ])
      ≡ true
is_served-bind (returned a n) f h = h a n
is_served-bind exited f h = refl
is_served-bind crashed f h = refl
is_served-bind blocked f h = refl

abbrev Serves : Run Listened → Type 0
Serves rest = (n : Node) → is_served (rest n) ≡ true

with_ended-Serves :
    (dial : Dial) (rest : Run Listened) (o : Outcome (Option Link))
    → Serves rest
    → is_over dial o ≡ true
    → is_served (elim o [
      | returned ended n ↦ with_ended rest ended n
      | exited ↦ exited
      | crashed ↦ crashed
      | blocked ↦ blocked
    ])
      ≡ true
unfolding with_ended
with_ended-Serves dial rest (returned none n) h e = e
with_ended-Serves dial rest (returned (some link) n) h e = h n
with_ended-Serves dial rest exited h e = refl
with_ended-Serves dial rest crashed h e = refl
with_ended-Serves dial rest blocked h e = refl

with_accepted-Serves :
    (dial : Dial) (fuel : ℕ) (rest : Run Listened) (accepted : Option Connection)
    → ((c : Connection) → accepted ≡ some c → left c.reader < fuel)
    → Serves rest
    → Serves (with_accepted dial fuel rest accepted)
unfolding with_accepted
with_accepted-Serves dial fuel rest none h k n = refl
with_accepted-Serves dial fuel rest (some c) h k n =
    with_ended-Serves dial rest (coms_handle_connection dial fuel (link_of c) n) k
      (coms_handle_connection-ends dial fuel (link_of c) n (h c refl))

unless_stopped :
    (stop : Bool) (o : Outcome Listened)
    → is_served o ≡ true
    → is_served (elim stop [ true ↦ exited | false ↦ o ]) ≡ true
unless_stopped true o h = refl
unless_stopped false o h = h

-- Where the reads of every connection come to a failure in the end, so that no peer keeps one open
-- and silent, and every connection that is accepted has fewer bytes to come than there is fuel: the
-- fuel suffices for all rounds of the listener, whatever the bytes, the state, the deferred
-- requests and the answers of the dialled servers are; each loop over the requests of a connection
-- ends, or a call in it waits for a lock or ends the process.
pub listen_loop-ends :
    (fuel : ℕ) (rounds : List Round) (n : Node)
    → All (ShortRound fuel) rounds
    → is_served (listen_loop fuel rounds n) ≡ true
unfolding listen_loop
listen_loop-ends fuel [] n h = refl
listen_loop-ends fuel (round ∷ rounds) n h = unless_stopped n.should_stop _ (
    is_served-bind (handle_deferred round.dial n) _ (λ u.
      with_accepted-Serves round.dial fuel _ round.accepted h.0
        (λ k. listen_loop-ends fuel rounds k h.1)))
