-- ===== src/Coms/Fetch.antt =====
-- Fetching the metadata of another server (server/src/coms.cpp): what the server sends, and what the
-- client makes of it.
use native.Mathlib.Nat.{zero-add}
use trabalho_sistemas_operac.Prelude.{
  refl, ap, ◌∙◌, ℕ, suc, ◌+◌, ◌^◌, ◌<◌, ◌≡◌, inl, inr, true, false, List, [], ◌∷◌, ◌++◌, ◌==◌,
  if◌then◌else◌, All, Bool-cases, arith, length, append-nil, append_assoc, ◌≤◌, subst,
}
use trabalho_sistemas_operac.Net.Connection.Talk.{
  Hears, Says, Delivers, Hears-bind, Hears-bind_last, Hears-reading, Hears-pure, Delivers-Says_last,
  Says-writing, Says-bind, Says-pure,
}
use trabalho_sistemas_operac.Net.Reader.Word.{little_endian, Reads-u16, Reads-u32, Reads-u64}
use trabalho_sistemas_operac.Net.Writer.Stream.{Writes-u8}
use trabalho_sistemas_operac.Net.Writer.Word.{Writes-u16, Writes-u32, Writes-u64}
use trabalho_sistemas_operac.Node.{
  Server, primary, backup, is_primary, req_fetch_metadata, ServerType,
}
use trabalho_sistemas_operac.Coms.Client.{
  read_servers, read_metadata, read_response, execute_request, write_request,
}
use trabalho_sistemas_operac.Coms.Server.{primary_index, write_servers, write_metadata}
use trabalho_sistemas_operac.Protocol.Wire.{Delivers-flush_then}

-- The bytes of the servers, and of an answer to the request for the metadata.
unfoldable pub server_bytes : List Server → List ℕ
server_bytes [] = []
server_bytes (s ∷ servers) =
    (little_endian 4 s.ip ++ little_endian 2 s.port) ++ server_bytes servers

unfoldable pub metadata_bytes : List Server → List ℕ
metadata_bytes servers =
    little_endian 8 (length servers)
    ++ (little_endian 8 (primary_index servers) ++ server_bytes servers)

-- The members fit their types.
abbrev pub FitsServer : Server → Type 0
FitsServer s = (s.ip < 2 ^ 32) × (s.port < 2 ^ 16)

abbrev pub as_backup : Server → Server
as_backup s = record s { server_type = backup }

unfoldable pub all_backup : List Server → List Server
all_backup [] = []
all_backup (s ∷ servers) = as_backup s ∷ all_backup servers

-- Only the first primary server stays primary.
unfoldable pub keep_first : List Server → List Server
keep_first [] = []
keep_first (s ∷ servers) =
    let rest = as_backup s ∷ keep_first servers in
    if is_primary s then s ∷ all_backup servers else rest

-- What the loop that reads the servers makes of them.
unfoldable pub typed : ℕ → ℕ → List Server → List Server
typed i k [] = []
typed i k (s ∷ servers) =
    record s { server_type = if i == k then primary else backup } ∷ typed (i + 1) k servers

read_servers-Hears :
    (servers : List Server) (i k : ℕ) (acc : List Server)
    → All FitsServer servers
    → Hears
        (read_servers (length servers) i k acc)
        (acc ++ typed i k servers)
        (server_bytes servers)
unfolding read_servers server_bytes typed
read_servers-Hears [] i k acc fits = rw append-nil Hears-pure
read_servers-Hears (s ∷ servers) i k acc fits =
    rw (append_assoc (little_endian 4 s.ip) (little_endian 2 s.port) (server_bytes servers)) (
      Hears-bind _ _ s.ip _ (Hears-reading (Reads-u32 s.ip fits.0.0)) (
        Hears-bind _ _ s.port _ (Hears-reading (Reads-u16 s.port fits.0.1)) (
          rw append_assoc at (
            read_servers-Hears servers (i + 1) k
              (acc ++ record s { server_type = if i == k then primary else backup } ∷ []) fits.1))))

write_servers-Says :
    (servers : List Server) → Says (write_servers servers) tt (server_bytes servers)
unfolding write_servers server_bytes
write_servers-Says [] = Says-pure
write_servers-Says (s ∷ servers) =
    rw (append_assoc (little_endian 4 s.ip) (little_endian 2 s.port) (server_bytes servers)) (
      Says-bind _ _ tt _ (Says-writing (Writes-u32 s.ip))
        (Says-bind _ _ tt _ (Says-writing (Writes-u16 s.port)) (write_servers-Says servers)))

pub write_metadata-Says :
    (servers : List Server) → Says (write_metadata servers) tt (metadata_bytes servers)
unfolding write_metadata metadata_bytes
write_metadata-Says servers = Says-bind _ _ tt _ (Says-writing (Writes-u64 (length servers))) (
    Says-bind _ _ tt _ (Says-writing (Writes-u64 (primary_index servers)))
      (write_servers-Says servers))

primary_again : (s : Server) → is_primary s ≡ true → record s { server_type = primary } ≡ s
unfolding is_primary
primary_again s h = ap (λ t. record s { server_type = t }) (is_it s.server_type h)
  where
    is_it : (t : ServerType) → is_primary (record s { server_type = t }) ≡ true → primary ≡ t
    is_it primary h = refl
    is_it backup h = ground arith

typed_past : (servers : List Server) (i k : ℕ) → k < i → typed i k servers ≡ all_backup servers
unfolding typed all_backup
typed_past [] i k h = refl
typed_past (s ∷ servers) i k h =
    let other : (i == k) ≡ false = ground arith in
    rw other (ap (◌∷◌ (as_backup s)) (typed_past servers (i + 1) k (omega (arith, h))))

typed_first :
    (servers : List Server) (i : ℕ)
    → typed i (i + primary_index servers) servers ≡ keep_first servers
unfolding typed keep_first primary_index
typed_first [] i = refl
typed_first (s ∷ servers) i = elim (Bool-cases (is_primary s)) [
  | inl h ↦
      let here : (i == (i + 0)) ≡ true = ground arith in
      rw (h) (
        rw here (
          ap (λ x. x ∷ typed (i + 1) (i + 0) servers) (primary_again s h)
          ∙ ap (◌∷◌ s) (typed_past servers (i + 1) (i + 0) (omega arith))))
  | inr h ↦
      let other : (i == (i + suc (primary_index servers))) ≡ false = ground arith in
      let size : i + suc (primary_index servers) ≡ i + 1 + primary_index servers = omega arith in
      rw h (
        rw other (
          ap (λ k. as_backup s ∷ typed (i + 1) k servers) size
          ∙ ap (◌∷◌ (as_backup s)) (typed_first servers (i + 1))))
]

typed_as : (servers : List Server) → typed 0 (primary_index servers) servers ≡ keep_first servers
typed_as servers =
    subst (λ k. typed 0 k servers ≡ keep_first servers) (zero-add _) (typed_first servers 0)

primary_index-le : (servers : List Server) → primary_index servers ≤ length servers
unfolding primary_index
primary_index-le [] = omega arith
primary_index-le (s ∷ servers) =
    let rest = primary_index-le servers in
    elim (Bool-cases (is_primary s)) [
      | inl h ↦ rw h (omega arith)
      | inr h ↦ rw h (omega (arith, rest))
    ]

-- What a client makes of an answer of its peer, and what it sends for it.
pub fetch-Delivers :
    (port : ℕ) (servers : List Server)
    → All FitsServer servers
    → length servers < 2 ^ 64
    → Delivers
        (execute_request port req_fetch_metadata)
        (record { status = 0; servers = keep_first servers; ip = 0; port = 0 })
        (little_endian 2 0 ++ metadata_bytes servers)
        (14 ∷ [])
unfolding execute_request write_request read_response read_metadata metadata_bytes
fetch-Delivers port servers fits small =
    let heard : Hears (read_servers (length servers) 0 (primary_index servers) [])
        (keep_first servers) (server_bytes servers) =
      subst
        (λ l.
          Hears (read_servers (length servers) 0 (primary_index servers) []) l
            (server_bytes servers))
        (typed_as servers) (read_servers-Hears servers 0 (primary_index servers) [] fits) in
    Delivers-Says_last _ _ tt _ (Says-writing (Writes-u8 14)) (
      Delivers-flush_then (
        Hears-bind _ _ 0 _ (Hears-reading (Reads-u16 0 (omega arith))) (
          Hears-bind _ _ (length servers) _ (Hears-reading (Reads-u64 (length servers) small)) (
            Hears-bind _ _ (primary_index servers) _
              (Hears-reading (
                Reads-u64 (primary_index servers) (omega (arith, primary_index-le servers, small))))
              (Hears-bind_last _ _ (keep_first servers) _ heard Hears-pure)))))
