-- ===== src/Session/Sent.antt =====
-- What an answer does to the session (server/src/server.cpp).
use trabalho_sistemas_operac.Prelude.{
  refl, sym, ap, ◌∙◌, ℕ, ◌≡◌, true, some, List, [], ◌++◌, append-nil,
}
use trabalho_sistemas_operac.Prelude.Exec.{Exec}
use trabalho_sistemas_operac.Net.Connection.{Connection}
use trabalho_sistemas_operac.Net.Connection.Talk.{IsOpen, Delivers}
use trabalho_sistemas_operac.Net.Reader.Stream.{pending}
use trabalho_sistemas_operac.Net.Writer.{Writer}
use trabalho_sistemas_operac.Net.Writer.Stream.{written}
use trabalho_sistemas_operac.Node.{Node}
use trabalho_sistemas_operac.Session.{Session, Turn, turn, respond, tell}
use trabalho_sistemas_operac.Session.Spec.{Answer, Asker}

-- Open, and with nothing left in the buffer.
pub record IsReady (c : Connection) : Type 0 where
  pub opened : IsOpen c
  pub flushed : c.writer.index ≡ 0

pub written-flushed : (w : Writer) → w.index ≡ 0 → written w ≡ w.sent
written-flushed w e = unfold written in rw e (append-nil w.sent)

-- What the answer to a request does to a connection.
pub record Sent (c c' : Connection) (bytes : List ℕ) : Type 0 where
  pub ready : IsReady c'
  pub reads : pending c'.reader ≡ pending c.reader
  pub sent : c'.writer.sent ≡ c.writer.sent ++ bytes

pub Delivers-Sent :
    {A : Type 0} {m : Exec Connection A} {a : A} {bytes : List ℕ} (c : Connection)
    → Delivers m a [] bytes
    → IsReady c
    → ((m c).0 ≡ some a) × Sent c (m c).1 bytes
Delivers-Sent {bytes} c h r =
    let x = h.at c (pending c.reader) r.opened refl in
    (
      x.0,
      record {
        ready = record { opened = x.1; flushed = x.4 };
        reads = x.2;
        sent = x.3 ∙ ap (λ bs. bs ++ bytes) (written-flushed c.writer r.flushed);
      },
    )

pub Sent-nothing : (c : Connection) → IsReady c → Sent c c []
Sent-nothing c r = record { ready = r; reads = refl; sent = sym (append-nil c.writer.sent) }

-- The one whom a session serves.
abbrev pub asker : {D : Type 0} → Session D → Asker
asker s = record { username = s.username; connection_id = s.connection_id }

-- The session `s'` has given the answer `a` on the connection `c`, and still serves `for_asker`.
pub record Follows {D : Type 0} (c : Connection) (for_asker : Asker) (at_node : Node)
    (s' : Session D) (a : Answer D) : Type 0 where
  pub sent : Sent c s'.conn a.bytes
  pub disk : s'.disk ≡ a.disk
  pub clients : s'.clients ≡ a.clients
  pub who : asker s' ≡ for_asker
  pub node : s'.node ≡ at_node

abbrev pub Done : {D : Type 0} → Turn D → Session D → Answer D → Type 0
Done {D} t s a = (s' : Session D) × (t ≡ turn a.going s') × Follows s.conn (asker s) s.node s' a

module _ {D : Type 0} where
  abbrev pub kept : Session D → List ℕ → Answer D
  kept s bytes = record { bytes = bytes; disk = s.disk; clients = s.clients; going = true }

  pub respond_lem :
      (m : Exec Connection (Unit {0})) (s : Session D) (bytes : List ℕ)
      → Delivers m tt [] bytes
      → IsReady s.conn
      → Done (respond m s) s (kept s bytes)
  unfolding respond
  respond_lem m s bytes h r =
      let x = Delivers-Sent s.conn h r in
      (
        record s { conn = (m s.conn).1 },
        rw (x.0) refl,
        record { sent = x.1; disk = refl; clients = refl; who = refl; node = refl },
      )

  pub tell_lem :
      (m : Exec Connection (Unit {0})) (s : Session D) (bytes : List ℕ)
      → Delivers m tt [] bytes
      → IsReady s.conn
      → Done (turn true (tell m s)) s (kept s bytes)
  unfolding tell
  tell_lem m s bytes h r =
      let x = Delivers-Sent s.conn h r in
      (
        record s { conn = (m s.conn).1 },
        refl,
        record { sent = x.1; disk = refl; clients = refl; who = refl; node = refl },
      )
