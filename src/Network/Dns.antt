-- ===== src/Network/Dns.antt =====
-- A client finds the server that the name server knows (client/src/network.cpp, dns/src/dns.cpp).
use trabalho_sistemas_operac.Prelude.{ℕ, ◌^◌, ◌<◌, ◌≡◌, ◌∙◌, ap, some, List, [], ◌∷◌, ◌++◌, All}
use trabalho_sistemas_operac.Net.Reader.Stream.{pending}
use trabalho_sistemas_operac.Net.Reader.Word.{little_endian, Reads-u32, Reads-u16}
use trabalho_sistemas_operac.Net.Writer.Stream.{written, Writes-u8}
use trabalho_sistemas_operac.Net.Connection.{Connection}
use trabalho_sistemas_operac.Net.Connection.Talk.{
  Delivers, IsOpen, Hears-bind, Hears-bind_last, Hears-reading, Hears-pure, Delivers-Says_last,
  Says-writing,
}
use trabalho_sistemas_operac.Protocol.Wire.{Delivers-flush_then}
use trabalho_sistemas_operac.Node.{Server}
use trabalho_sistemas_operac.Election.Handlers.{message}
use trabalho_sistemas_operac.Dns.{Dns, serve, serve_all}
use trabalho_sistemas_operac.Dns.Update.{IsOther, serve_update-query}
use trabalho_sistemas_operac.Network.{ask_dns}

ask_dns-Delivers :
    (ip port : ℕ)
    → ip < 2 ^ 32
    → port < 2 ^ 16
    → Delivers ask_dns (ip, port) (little_endian 4 ip ++ little_endian 2 port) (10 ∷ [])
unfolding ask_dns
ask_dns-Delivers ip port hi hp = Delivers-Says_last _ _ tt _ (Says-writing (Writes-u8 10)) (
    Delivers-flush_then (
      Hears-bind _ _ ip _ (Hears-reading (Reads-u32 ip hi))
        (Hears-bind_last _ _ port _ (Hears-reading (Reads-u16 port hp)) Hears-pure)))

-- Behind an update on an open connection with the address of a server, whose numbers fit their
-- types, and any connections that are not updates, a query on an open connection is answered: a
-- client on an open connection on which that answer is pending asks with the one byte 10 and gets
-- exactly that address and port.
pub ask_dns-serve_all :
    (dns : Dns) (subject : Server) (update query client : Connection) (others : List Connection)
    (sent asked rest : List ℕ)
    → IsOpen update
    → pending update.reader ≡ message 20 subject ++ sent
    → subject.ip < 2 ^ 32
    → subject.port < 2 ^ 16
    → All IsOther others
    → IsOpen query
    → written query.writer ≡ []
    → pending query.reader ≡ (10 ∷ []) ++ asked
    → IsOpen client
    → written client.writer ≡ []
    → pending client.reader ≡ (serve query (serve_all (update ∷ others) dns)).1.writer.sent ++ rest
    → ((ask_dns client).0 ≡ some (subject.ip, subject.port))
      × ((ask_dns client).1.writer.sent ≡ 10 ∷ [])
ask_dns-serve_all dns subject update query client others sent asked rest o e hi hp other oq w q oc v
      c =
    let answer =
      serve_update-query dns subject update query others sent asked o e hi hp other oq w q in
    let x =
      (ask_dns-Delivers subject.ip subject.port hi hp).at client rest oc
        (c ∙ ap (λ bytes. bytes ++ rest) answer) in
    (x.0, x.3 ∙ ap (λ bytes. bytes ++ (10 ∷ [])) v)
