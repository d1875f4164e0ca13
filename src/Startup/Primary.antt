-- ===== src/Startup/Primary.antt =====
-- A primary server that starts is known to the name server (server/src/main.cpp, dns/src/dns.cpp).
use trabalho_sistemas_operac.Prelude.{
  ◌%◌, ◌∙◌, refl, ap, Option, some, ℕ, ◌<◌, ◌^◌, ◌≡◌, List, [], ◌∷◌, ◌++◌, All,
}
use trabalho_sistemas_operac.Net.Reader.Stream.{pending}
use trabalho_sistemas_operac.Net.Reader.Word.{little_endian}
use trabalho_sistemas_operac.Net.Writer.Stream.{written}
use trabalho_sistemas_operac.Net.Connection.{Connection}
use trabalho_sistemas_operac.Net.Connection.Talk.{IsOpen}
use trabalho_sistemas_operac.Node.{
  Outcome, exited, crashed, blocked, Server, Envelope, primary, returned, state_init,
}
use trabalho_sistemas_operac.Coms.Client.{Dial}
use trabalho_sistemas_operac.Election.Handlers.{write_message-Delivers, message, posted, envelope}
use trabalho_sistemas_operac.Dns.{Dns, serve, serve_all}
use trabalho_sistemas_operac.Dns.Update.{IsOther, serve_update-query}
use trabalho_sistemas_operac.Election.{tell_dns, write_message}
use trabalho_sistemas_operac.Coms.Deferred.{talk-connected}
use trabalho_sistemas_operac.Startup.{Arguments, primary_init}

-- The server, as it starts, and what it tells the name server.
abbrev pub starting : Arguments → Server
starting args = record { ip = args.ip; port = args.port; server_type = primary }

abbrev pub registration : Arguments → Envelope
registration args = envelope args.dns_ip args.dns_port 20 (starting args)

-- The name server hears of a server that starts, where it can be reached.
primary_init_lem :
    (dial : Dial) (args : Arguments) (c : Connection)
    → dial args.dns_ip (args.dns_port % 2 ^ 16) ≡ some c
    → IsOpen c
    → written c.writer ≡ []
    → primary_init dial args
      ≡ returned tt (
          posted
            (state_init args.ip args.port primary args.dns_ip args.dns_port)
            (registration args))
unfolding primary_init state_init tell_dns
primary_init_lem dial args c e o w =
    let n = state_init args.ip args.port primary args.dns_ip args.dns_port in
    let exchange = write_message 20 (starting args) in
    let x = (write_message-Delivers 20 (starting args)).at c (pending c.reader) o refl in
    let after : Outcome (Option (Option (Unit {0}))) → Outcome (Unit {0}) = λ r. elim r [
      | returned (some (some _)) n' ↦ returned tt n'
      | returned _ n' ↦ exited
      | exited ↦ exited
      | crashed ↦ crashed
      | blocked ↦ blocked
    ] in
    ap after (talk-connected dial args.dns_ip args.dns_port exchange n c e (x.0))
    ∙ ap
        (λ bs.
          returned tt
            (posted n (record { ip = args.dns_ip; port = args.dns_port % 2 ^ 16; bytes = bs })))
        (x.3 ∙ ap (λ bs. bs ++ message 20 (starting args)) w)

-- Where the name server can be dialled, on an open connection to which nothing has been written,
-- `primary_init` returns with one message sent, to the name server; and a name server that receives
-- that message on an open connection, with an address and a port that fit their types, then any
-- others that are not updates, answers a query on an open connection to which nothing has been
-- written with the address and the port of this server.
pub primary_init-serve :
    (dial : Dial) (args : Arguments) (dns : Dns) (c update query : Connection)
    (others : List Connection) (sent asked : List ℕ)
    → dial args.dns_ip (args.dns_port % 2 ^ 16) ≡ some c
    → IsOpen c
    → written c.writer ≡ []
    → IsOpen update
    → pending update.reader ≡ (registration args).bytes ++ sent
    → args.ip < 2 ^ 32
    → args.port < 2 ^ 16
    → All IsOther others
    → IsOpen query
    → written query.writer ≡ []
    → pending query.reader ≡ 10 ∷ asked
    → (primary_init dial args
        ≡ returned tt (
            posted
              (state_init args.ip args.port primary args.dns_ip args.dns_port)
              (registration args)))
      × ((serve query (serve_all (update ∷ others) dns)).1.writer.sent
          ≡ little_endian 4 args.ip ++ little_endian 2 args.port)
primary_init-serve dial args dns c update query others sent asked dialled open_line fresh o e hi hp
      other oq w q =
    (
      primary_init_lem dial args c dialled open_line fresh,
      serve_update-query dns (starting args) update query others sent asked o e hi hp other oq w q,
    )
