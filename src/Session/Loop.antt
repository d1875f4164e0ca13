-- ===== src/Session/Loop.antt =====
-- The session of a server with nobody to pass requests on to answers them in order
-- (server/src/server.cpp).
use trabalho_sistemas_operac.Prelude.{
  ℕ, zero, suc, ◌≡◌, ◌<◌, ◌∙◌, ◌⊎◌, inl, inr, refl, sym, ap, false, true, Bool-cases, List, [], ◌∷◌,
  ◌++◌, All, length, append_assoc, append-nil, arith, none,
}
use trabalho_sistemas_operac.Protocol.{Packet, receive_packet, read_header}
use trabalho_sistemas_operac.Prelude.Exec.{◌>>=◌}
use trabalho_sistemas_operac.Protocol.Wire.{packet}
use trabalho_sistemas_operac.Protocol.Parse.{
  Request, download, delete, upload, list_files, leave, update, Fits, type_of, body_of, assigned,
  receive_packet-Gives,
}
use trabalho_sistemas_operac.Net.Connection.{Connection, reading}
use trabalho_sistemas_operac.Net.Reader.Stream.{IsSound, pending}
use trabalho_sistemas_operac.Coms.Client.{Dial}
use trabalho_sistemas_operac.Session.{Session, Netfs, turn, one_round, session_loop}
use trabalho_sistemas_operac.Session.Spec.{
  Answer, answer_to, answers_to, stream, IsProper, answer_to-TextEvents,
}
use trabalho_sistemas_operac.Session.Events.{TextEvents}
use trabalho_sistemas_operac.Session.Sent.{asker, IsReady}
use trabalho_sistemas_operac.Session.Rounds.{Alone, Lists, handle_packet-answers}
use trabalho_sistemas_operac.Net.Reader.{read_u16}
use trabalho_sistemas_operac.Net.Reader.Short.{word-short}

-- A server at work that passes nothing on, between two requests.
pub record Serves {D : Type 0} (s : Session D) : Type 0 where
  pub alone : Alone s.node
  pub ready : IsReady s.conn
  pub events : TextEvents s.clients

-- What is left of a session `s` after the answers `a`.
pub record Ends {D : Type 0} (s s' : Session D) (a : Answer D) : Type 0 where
  pub sent : s'.conn.writer.sent ≡ s.conn.writer.sent ++ a.bytes
  pub disk : s'.disk ≡ a.disk
  pub clients : s'.clients ≡ a.clients
  pub who : asker s' ≡ asker s
  pub node : s'.node ≡ s.node

assigned-type : (p : Packet) (q : Request) → (assigned p q).header.packet_type ≡ type_of q
assigned-type p (download filename) = refl
assigned-type p (upload filename file) = refl
assigned-type p (delete filename) = refl
assigned-type p list_files = refl
assigned-type p leave = refl
assigned-type p update = refl

pub receive-IsReady :
    (c c' : Connection) → IsReady c → IsSound c'.reader → c'.writer ≡ c.writer → IsReady c'
receive-IsReady c c' r s e = record {
  opened = record { sound = s; reliable = rw e (r.opened.reliable) };
  flushed = rw e (r.flushed);
}

pub chain : (a b : List ℕ) {x y : List ℕ} (w : List ℕ) → y ≡ x ++ b → x ≡ w ++ a → y ≡ w ++ (a ++ b)
chain a b w e h = e ∙ ap (λ bs. bs ++ b) h ∙ append_assoc w a b

header-ended :
    (c : Connection)
    → IsSound c.reader
    → pending c.reader ≡ []
    → read_header c ≡ (none, record c { reader = (read_u16 c.reader).1 })
unfolding read_header ◌>>=◌ reading read_u16
header-ended c h e = rw (word-short 2 0 0 c.reader h (omega (arith, ap length e))) refl

receive_packet-ended :
    (p : Packet) (c : Connection)
    → IsSound c.reader
    → pending c.reader ≡ []
    → receive_packet p c ≡ ((false, p), record c { reader = (read_u16 c.reader).1 })
unfolding receive_packet
receive_packet-ended p c h e =
    let x = header-ended c h e in
    rw (ap (λ y. y.0) x, receive_packet) (ap (λ y. ((false, p), y.1)) x)

module _ {D : Type 0} (dial : Dial) (fs : Netfs D) (lists : Lists fs) where
  abbrev Answered : Session D → Answer D → List ℕ → Type 0
  Answered s a rest =
      (s' : Session D) × (one_round dial fs s ≡ turn a.going s')
      × Ends s s' a
      × IsReady s'.conn
      × (pending s'.conn.reader ≡ rest)

  one_round-answers :
      (q : Request) (rest : List ℕ) (s : Session D)
      → Serves s
      → Fits q
      → pending s.conn.reader ≡ packet (type_of q) (body_of q) ++ rest
      → Answered s (answer_to fs (asker s) q s.disk s.clients) rest
  unfolding one_round
  one_round-answers q rest s v h e =
      let x = receive_packet-Gives q s.packet s.conn rest h v.ready.opened.sound e in
      let c' = (receive_packet s.packet s.conn).1 in
      let ready = receive-IsReady s.conn c' v.ready x.1 x.3 in
      let y =
        handle_packet-answers dial fs q s.packet (record s { conn = c' }) v.alone lists v.events
          ready in
      (
        y.0,
        rw (x.0, assigned-type s.packet q) (y.1),
        record {
          sent = rw (x.3) at (y.2.sent.sent);
          disk = y.2.disk;
          clients = y.2.clients;
          who = y.2.who;
          node = y.2.node;
        },
        y.2.sent.ready,
        y.2.sent.reads ∙ x.2,
      )

  -- The client has closed its end.
  one_round-ended :
      (s : Session D)
      → IsSound s.conn.reader
      → pending s.conn.reader ≡ []
      → (s' : Session D) × (one_round dial fs s ≡ turn false s')
        × Ends s s' (answers_to fs (asker s) [] s.disk s.clients)
  unfolding one_round answers_to
  one_round-ended s h e = (
    record s { conn = record s.conn { reader = (read_u16 s.conn.reader).1 } },
    rw (receive_packet-ended s.packet s.conn h e, one_round) refl,
    record {
      sent = sym (append-nil s.conn.writer.sent);
      disk = refl;
      clients = refl;
      who = refl;
      node = refl;
    },
  )

  -- One answer, and then the others.
  Ends-step :
      (q : Request) (qs : List Request) (s s' s'' : Session D)
      → (answer_to fs (asker s) q s.disk s.clients).going ≡ true
      → Ends s s' (answer_to fs (asker s) q s.disk s.clients)
      → Ends s' s'' (answers_to fs (asker s') qs s'.disk s'.clients)
      → Ends s s'' (answers_to fs (asker s) (q ∷ qs) s.disk s.clients)
  unfolding answers_to
  Ends-step q qs s s' s'' g a b =
      let b' = rw (a.who, a.disk, a.clients) at b in
      rw g (record {
        sent = chain _ _ _ b'.sent a.sent;
        disk = b'.disk;
        clients = b'.clients;
        who = b'.who ∙ a.who;
        node = b'.node ∙ a.node;
      })

  Ends-last :
      (q : Request) (qs : List Request) (s s' : Session D)
      → (answer_to fs (asker s) q s.disk s.clients).going ≡ false
      → Ends s s' (answer_to fs (asker s) q s.disk s.clients)
      → Ends s s' (answers_to fs (asker s) (q ∷ qs) s.disk s.clients)
  unfolding answers_to
  Ends-last q qs s s' g a = simp g a

  -- How the requests end does not change.
  still_to_end :
      (q : Request) (qs : List Request) (s s' : Session D) (rest : List ℕ)
      → (answer_to fs (asker s) q s.disk s.clients).going ≡ true
      → Ends s s' (answer_to fs (asker s) q s.disk s.clients)
      → ((answers_to fs (asker s) (q ∷ qs) s.disk s.clients).going ≡ false) ⊎ (rest ≡ [])
      → ((answers_to fs (asker s') qs s'.disk s'.clients).going ≡ false) ⊎ (rest ≡ [])
  unfolding answers_to
  still_to_end q qs s s' rest g a (inl e) = inl (rw (a.who, a.disk, a.clients) (rw g at e))
  still_to_end q qs s s' rest g a (inr e) = inr e

  ended :
      (s : Session D) (rest : List ℕ)
      → ((answers_to fs (asker s) [] s.disk s.clients).going ≡ false) ⊎ (rest ≡ [])
      → rest ≡ []
  unfolding answers_to
  ended s rest (inl e) = cc (e)
  ended s rest (inr e) = e

  Serves-after :
      (q : Request) (s s' : Session D)
      → Serves s
      → IsProper q
      → Ends s s' (answer_to fs (asker s) q s.disk s.clients)
      → IsReady s'.conn
      → Serves s'
  Serves-after q s s' v h a r = record {
    alone = rw (a.node) (v.alone);
    ready = r;
    events = rw (a.clients) (answer_to-TextEvents fs (asker s) q s.disk s.clients h.1 v.events);
  }

  pub session_loop-answers :
      (qs : List Request) (rest : List ℕ) (fuel : ℕ) (s : Session D)
      → Serves s
      → All IsProper qs
      → pending s.conn.reader ≡ stream qs ++ rest
      → ((answers_to fs (asker s) qs s.disk s.clients).going ≡ false) ⊎ (rest ≡ [])
      → length qs < fuel
      → (s' : Session D) × (session_loop dial fs fuel s ≡ turn false s')
        × Ends s s' (answers_to fs (asker s) qs s.disk s.clients)
  unfolding session_loop stream
  session_loop-answers [] rest zero s v h e w k = elim k [ ]
  session_loop-answers (q ∷ qs) rest zero s v h e w k = elim k [ ]
  session_loop-answers [] rest (suc fuel) s v h e w k =
      let x = one_round-ended s v.ready.opened.sound (e ∙ ended s rest w) in
      (x.0, rw (x.1, session_loop) refl, x.2)
  session_loop-answers (q ∷ qs) rest (suc fuel) s v h e w k =
      let x =
        one_round-answers q (stream qs ++ rest) s v h.0.0
          (e ∙ append_assoc (packet (type_of q) (body_of q)) (stream qs) rest) in
      elim (Bool-cases (answer_to fs (asker s) q s.disk s.clients).going) [
        | inl g ↦
            let r =
              session_loop-answers qs rest fuel x.0 (Serves-after q s x.0 v h.0 x.2 x.3) h.1 x.4
                (still_to_end q qs s x.0 rest g x.2 w) (omega arith) in
            (r.0, rw (x.1, session_loop, g) (r.1), Ends-step q qs s x.0 r.0 g x.2 r.2)
        | inr g ↦ (x.0, rw (x.1, session_loop, g) refl, Ends-last q qs s x.0 g x.2)
      ]
