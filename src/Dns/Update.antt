-- ===== src/Dns/Update.antt =====
-- What the name server answers behind an update (dns/src/dns.cpp).
use trabalho_sistemas_operac.Prelude.{
  refl, ap, ◌∙◌, ℕ, ◌^◌, ◌<◌, ◌≡◌, inl, inr, some, List, [], ◌∷◌, ◌++◌, ◌==◌, All, Bool-cases,
  Option-cases, arith,
}
use trabalho_sistemas_operac.Net.Connection.{Connection, reading}
use trabalho_sistemas_operac.Net.Connection.Talk.{
  Hears, Delivers, IsOpen, Hears-bind, Hears-bind_last, Hears-reading, Hears-pure, Delivers-Says,
  Delivers-Says_last, Delivers-flush, Says-writing,
}
use trabalho_sistemas_operac.Net.Reader.{read_u8}
use trabalho_sistemas_operac.Net.Reader.Stream.{pending}
use trabalho_sistemas_operac.Net.Reader.Word.{little_endian, Reads-u8, Reads-u32, Reads-u16}
use trabalho_sistemas_operac.Net.Writer.Stream.{written}
use trabalho_sistemas_operac.Net.Writer.Word.{Writes-u16, Writes-u32}
use trabalho_sistemas_operac.Node.{Server}
use trabalho_sistemas_operac.Election.Handlers.{message}
use trabalho_sistemas_operac.Dns.{
  Dns, send_primary, read_primary_server, update_primary, answer, serve, serve_all,
  set_primary_server,
}

send_primary-Delivers :
    (dns : Dns)
    → Delivers
        (send_primary dns)
        tt
        []
        (little_endian 4 dns.primary_ip ++ little_endian 2 dns.primary_port)
unfolding send_primary
send_primary-Delivers dns =
    Delivers-Says _ _ tt _ (Says-writing (Writes-u32 dns.primary_ip))
      (Delivers-Says_last _ _ tt _ (Says-writing (Writes-u16 dns.primary_port)) Delivers-flush)

read_primary_server-Hears :
    (ip port : ℕ)
    → ip < 2 ^ 32
    → port < 2 ^ 16
    → Hears read_primary_server (ip, port) (little_endian 4 ip ++ little_endian 2 port)
unfolding read_primary_server
read_primary_server-Hears ip port hi hp =
    Hears-bind _ _ ip _ (Hears-reading (Reads-u32 ip hi))
      (Hears-bind_last _ _ port _ (Hears-reading (Reads-u16 port hp)) Hears-pure)

-- The connection asks for something else than an update, or for nothing.
abbrev pub IsOther : Connection → Type 0
IsOther conn = ((reading read_u8 conn).0 ≡ some 20) → ⊥

serve_other : (conn : Connection) (dns : Dns) → IsOther conn → (serve conn dns).0 ≡ dns
unfolding serve answer
serve_other conn dns other = elim (Option-cases ((reading read_u8 conn).0)) [
  | inl e ↦ rw (e, serve) refl
  | inr (t, e) ↦ elim (Bool-cases (t == 20)) [
    | inl h ↦ let is_update : t ≡ 20 = ground arith in absurd (other (e ∙ ap some is_update))
    | inr h ↦ elim (Bool-cases (t == 10)) [
      | inl k ↦ rw (e, serve) (rw k refl)
      | inr k ↦ rw (e, serve) (rw (k, h) refl)
    ]
  ]
]

serve_all_others :
    (conns : List Connection) (dns : Dns) → All IsOther conns → serve_all conns dns ≡ dns
unfolding serve_all
serve_all_others [] dns others = refl
serve_all_others (conn ∷ conns) dns others =
    ap (serve_all conns) (serve_other conn dns others.0) ∙ serve_all_others conns dns others.1

serve_update :
    (conn : Connection) (rest : List ℕ) (subject : Server) (dns : Dns)
    → IsOpen conn
    → pending conn.reader ≡ message 20 subject ++ rest
    → subject.ip < 2 ^ 32
    → subject.port < 2 ^ 16
    → (serve conn dns).0 ≡ record { primary_ip = subject.ip; primary_port = subject.port }
unfolding serve answer update_primary message set_primary_server
serve_update conn rest subject dns o e hi hp =
    let x =
      (Hears-reading (Reads-u8 20)).at conn
        ((little_endian 4 subject.ip ++ little_endian 2 subject.port) ++ rest) o.sound e in
    let y =
      (read_primary_server-Hears subject.ip subject.port hi hp).at (reading read_u8 conn).1 rest x.1
        x.2 in
    rw (x.0, serve) (rw (y.0, update_primary) refl)

serve_query :
    (conn : Connection) (rest : List ℕ) (dns : Dns)
    → IsOpen conn
    → written conn.writer ≡ []
    → pending conn.reader ≡ 10 ∷ rest
    → (serve conn dns).1.writer.sent
      ≡ little_endian 4 dns.primary_ip ++ little_endian 2 dns.primary_port
unfolding serve answer
serve_query conn rest dns o w e =
    let x = (Hears-reading (Reads-u8 10)).at conn rest o.sound e in
    let still : IsOpen (reading read_u8 conn).1 = record {
      sound = x.1;
      reliable = rw (x.3) (o.reliable);
    } in
    let y = (send_primary-Delivers dns).at (reading read_u8 conn).1 rest still x.2 in
    rw (x.0, serve)
      (y.3
        ∙ ap
            (λ k. written k ++ (little_endian 4 dns.primary_ip ++ little_endian 2 dns.primary_port))
            (x.3)
        ∙ ap (λ k. k ++ (little_endian 4 dns.primary_ip ++ little_endian 2 dns.primary_port)) w)

-- After an update on an open connection with the address of a server, whose numbers fit their
-- types, and any connections that are not updates, a query on an open connection to which nothing
-- has been written is answered with exactly that address.
pub serve_update-query :
    (dns : Dns) (subject : Server) (update query : Connection) (others : List Connection)
    (sent asked : List ℕ)
    → IsOpen update
    → pending update.reader ≡ message 20 subject ++ sent
    → subject.ip < 2 ^ 32
    → subject.port < 2 ^ 16
    → All IsOther others
    → IsOpen query
    → written query.writer ≡ []
    → pending query.reader ≡ 10 ∷ asked
    → (serve query (serve_all (update ∷ others) dns)).1.writer.sent
      ≡ little_endian 4 subject.ip ++ little_endian 2 subject.port
unfolding serve_all
serve_update-query dns subject update query others sent asked o e hi hp other oq w q =
    let state : Dns = serve_all others (serve update dns).0 in
    let known =
      serve_all_others others (serve update dns).0 other
      ∙ serve_update update sent subject dns o e hi hp in
    serve_query query asked state oq w q
    ∙ ap (λ k. little_endian 4 k.primary_ip ++ little_endian 2 k.primary_port) known
