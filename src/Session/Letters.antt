-- ===== src/Session/Letters.antt =====
-- What a primary server sends to its backup servers, and to its client for those that refuse
-- (server/src/server.cpp).
use trabalho_sistemas_operac.Prelude.{
  ℕ, ◌%◌, ◌^◌, ◌≡◌, ◌==◌, ◌⊎◌, inl, inr, refl, sym, ap, ◌∙◌, true, false, some, List, [], ◌∷◌, ◌++◌,
  All, if◌then◌else◌, append-nil, append_assoc,
}
use trabalho_sistemas_operac.Prelude.Exec.{Exec}
use trabalho_sistemas_operac.Net.Connection.{Connection}
use trabalho_sistemas_operac.Net.Connection.Talk.{IsOpen, Delivers}
use trabalho_sistemas_operac.Net.Reader.Stream.{pending}
use trabalho_sistemas_operac.Net.Reader.Word.{counted}
use trabalho_sistemas_operac.Net.Writer.Stream.{written}
use trabalho_sistemas_operac.Net.Writer.Word.{IsText}
use trabalho_sistemas_operac.Protocol.{status_success}
use trabalho_sistemas_operac.Protocol.Request.{request_handshake}
use trabalho_sistemas_operac.Protocol.Wire.{packet, request_handshake-Delivers}
use trabalho_sistemas_operac.Node.{Node, Server, Envelope, is_primary}
use trabalho_sistemas_operac.Coms.Client.{Dial}
use trabalho_sistemas_operac.Session.{pass_exchange}
use trabalho_sistemas_operac.Session.Loop.{chain}
use trabalho_sistemas_operac.Session.Spec.{failure}
use trabalho_sistemas_operac.Session.Sent.{Sent, written-flushed}

-- The handshake of a primary server.
abbrev pub introduction : List ℕ → List ℕ
introduction username = packet 0 (counted username ++ 1 ∷ [])

-- A backup server that takes connections, lets the primary server in, and answers `status`.
pub record Listens (dial : Dial) (b : Server) (status : ℕ) : Type 0 where
  pub conn : Connection
  pub welcome : ℕ
  pub dialled : dial b.ip (b.port % 2 ^ 16) ≡ some conn
  pub opened : IsOpen conn
  pub fresh : written conn.writer ≡ []
  pub reads : pending conn.reader ≡ packet welcome [] ++ packet status []

abbrev pub letter : List ℕ → Server → Envelope
letter bytes b = record { ip = b.ip; port = b.port % 2 ^ 16; bytes = bytes }

-- What the backup servers receive.
unfoldable pub letters : List ℕ → List Server → List Envelope
letters bytes [] = []
letters bytes (b ∷ servers) =
    let rest = letters bytes servers in if is_primary b then rest else letter bytes b ∷ rest

-- What the client is sent for the backup servers that do not report success.
abbrev pub refusal : ℕ → List ℕ
refusal status = if status == status_success then [] else failure

unfoldable pub refusals : (Server → ℕ) → List Server → List ℕ
refusals status [] = []
refusals status (b ∷ servers) =
    let rest = refusals status servers in if is_primary b then rest else refusal (status b) ++ rest

-- Each server is the primary one, or listens.
abbrev pub Reached : Dial → (Server → ℕ) → List Server → Type 0
Reached dial status = All (λ b. (is_primary b ≡ true) ⊎ Listens dial b (status b))

abbrev pub with_posts : Node → List Envelope → Node
with_posts n posts = record n { outbox = n.outbox ++ posts }

pub with_posts-append :
    (n : Node) (posts more : List Envelope)
    → with_posts (with_posts n posts) more ≡ with_posts n (posts ++ more)
with_posts-append n posts more =
    ap (λ o. record n { outbox = o }) (append_assoc n.outbox posts more)

pub with_posts-nil : (n : Node) → n ≡ with_posts n []
with_posts-nil n = ap (λ o. record n { outbox = o }) (sym (append-nil n.outbox))

pub Sent-append :
    (c c' c'' : Connection) (bytes more : List ℕ)
    → Sent c c' bytes
    → Sent c' c'' more
    → Sent c c'' (bytes ++ more)
Sent-append c c' c'' bytes more a b = record {
  ready = b.ready;
  reads = b.reads ∙ a.reads;
  sent = chain bytes more c.writer.sent b.sent a.sent;
}

pub pass_exchange_lem :
    (username bytes : List ℕ) (request : Exec Connection ℕ) (old welcome status : ℕ)
    (c : Connection)
    → IsText username
    → Delivers request status (packet status []) bytes
    → IsOpen c
    → written c.writer ≡ []
    → pending c.reader ≡ packet welcome [] ++ packet status []
    → ((pass_exchange username request old c).0 ≡ some status)
      × ((pass_exchange username request old c).1.writer.sent ≡ introduction username ++ bytes)
unfolding pass_exchange
pass_exchange_lem username bytes request old welcome status c t h o w e =
    let x = (request_handshake-Delivers username true welcome t).at c (packet status []) o e in
    let c' = (request_handshake username true c).1 in
    let y = h.at c' [] x.1 (x.2 ∙ sym (append-nil (packet status []))) in
    (
      rw (y.0) refl,
      y.3
          ∙ ap (λ bs. bs ++ bytes)
              (written-flushed c'.writer x.4 ∙ x.3 ∙ ap (λ bs. bs ++ introduction username) w),
    )

pub listening :
    {dial : Dial} {b : Server} {status : ℕ}
    → is_primary b ≡ false
    → (is_primary b ≡ true) ⊎ Listens dial b status
    → Listens dial b status
listening e (inl p) = cc (e, p)
listening e (inr l) = l
