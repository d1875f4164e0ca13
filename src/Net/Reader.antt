-- ===== src/Net/Reader.antt =====
-- The buffered reader of server/src/reader.cpp. A socket is the list of what its next calls of
-- read(2) return; behind the list every call fails, with an errno other than EAGAIN, as at the end of
-- the stream or on an error. So a socket whose calls come to no such failure is left out: a peer that
-- keeps the connection open and silent, and an end of the stream that finds EAGAIN in errno, on which
-- `fill_buffer` goes on for ever. The sockets of the program block, so that read(2) does not set
-- EAGAIN itself. Memory is taken to be there: the `reserve` of a length that cannot be had throws,
-- and the result of `malloc` is not checked.
pub mod Stream
pub mod Word
pub mod Short
pub mod Left
use trabalho_sistemas_operac.Prelude.{
  ℕ, zero, suc, ◌+◌, ◌*◌, ◌^◌, Bool, true, false, not, none, some, List, [], ◌∷◌, ◌++◌, leb,
  if◌then◌else◌, length, get_or, drop, bit_or,
}
use trabalho_sistemas_operac.Prelude.Exec.{Exec, pure, ◌>>=◌, ◌>>◌}

-- `RSIZE`
abbrev pub rsize : ℕ
rsize = 32

-- One result of read(2): bytes, a result of 0 or less while errno is EAGAIN, whichever call left it
-- there, or one with another errno.
pub data ReadResult : Type 0 where
  got : List ℕ → ReadResult
  again failed : ReadResult

-- `struct tcp_reader`; `incoming` stands for the socket.
pub record Reader : Type 0 where
  pub a_buffer : List ℕ
  pub b_buffer : List ℕ
  pub index : ℕ
  pub length : ℕ
  pub buffer_switch : Bool
  pub incoming : List ReadResult

-- The buffers of a new reader hold what the memory held, `a` and `b`.
unfoldable pub init_reader : List ℕ → List ℕ → List ReadResult → Reader
init_reader a b incoming = record {
  a_buffer = a;
  b_buffer = b;
  index = 0;
  length = 0;
  buffer_switch = false;
  incoming = incoming;
}

unfoldable pub curr_buf : Reader → List ℕ
curr_buf r = if r.buffer_switch then r.a_buffer else r.b_buffer

-- `read` writes the bytes to the front of the current buffer.
unfoldable pub read_into : List ℕ → List ℕ → List ℕ
read_into bytes buffer = bytes ++ drop (length bytes) buffer

abbrev pub flip : Reader → Reader
flip r = record r { buffer_switch = not r.buffer_switch }

-- A successful call of read(2) in `fill_buffer`, after the flip.
unfoldable pub receive : List ℕ → List ReadResult → Reader → Reader
receive bytes rest r = record {
  a_buffer = if r.buffer_switch then read_into bytes r.a_buffer else r.a_buffer;
  b_buffer = if r.buffer_switch then r.b_buffer else read_into bytes r.b_buffer;
  index = 0;
  length = length bytes;
  buffer_switch = r.buffer_switch;
  incoming = rest;
}

-- The loop of `fill_buffer`, by recursion on the results still to come, behind which `read` fails
-- with an errno other than EAGAIN.
unfoldable pub fill_loop : List ReadResult → Exec Reader (Unit {0})
fill_loop [] r =
    if leb r.length r.index then (none, record (flip r) { incoming = [] }) else (some tt, r)
fill_loop (got bytes ∷ rest) r =
    let next = fill_loop rest (receive bytes rest (flip r)) in
    if leb r.length r.index then next else (some tt, r)
fill_loop (again ∷ rest) r =
    let next = fill_loop rest (record (flip r) { incoming = rest }) in
    if leb r.length r.index then next else (some tt, r)
fill_loop (failed ∷ rest) r =
    if leb r.length r.index then (none, record (flip r) { incoming = rest }) else (some tt, r)

unfoldable pub fill_buffer : Exec Reader (Unit {0})
fill_buffer r = fill_loop r.incoming r

unfoldable pub peek : Exec Reader ℕ
peek = do fill_buffer; λ r. (some (get_or (curr_buf r) r.index 0), r)

unfoldable pub step : Exec Reader (Unit {0})
step = do fill_buffer; λ r. (some tt, record r { index = r.index + 1 })

unfoldable pub read_u8 : Exec Reader ℕ
read_u8 = do res ← peek; step; pure res

-- The loop of `read_u16`, `read_u32` and `read_u64`: `n` rounds are left, and `i` are done.
unfoldable pub read_word : ℕ → ℕ → ℕ → Exec Reader ℕ
read_word zero i res = pure res
read_word (suc n) i res = do temp ← read_u8; read_word n (i + 1) (bit_or res (temp * 2 ^ (8 * i)))

unfoldable pub read_u16 : Exec Reader ℕ
read_u16 = read_word 2 0 0

unfoldable pub read_u32 : Exec Reader ℕ
read_u32 = read_word 4 0 0

unfoldable pub read_u64 : Exec Reader ℕ
read_u64 = read_word 8 0 0

unfoldable pub read_char : Exec Reader ℕ
read_char = do res ← peek; step; pure res

unfoldable pub read_chars : ℕ → List ℕ → Exec Reader (List ℕ)
read_chars zero str = pure str
read_chars (suc n) str = do c ← read_char; read_chars n (str ++ c ∷ [])

abbrev pub or_else {ℓ} : {S A B : Type ℓ} → Exec S A → B → (A → Exec S B) → Exec S B
or_else m b f s = let (r, s') = m s in elim r [ none ↦ (some b, s') | some a ↦ f a s' ]

-- `old` is what `*val` held: it stays, and the call succeeds, where the length cannot be read.
-- `reserve` is taken to succeed.
unfoldable pub read_string : List ℕ → Exec Reader (List ℕ)
read_string old = or_else read_u64 old (λ len. read_chars len [])

unfoldable pub read_bytes : ℕ → List ℕ → Exec Reader (List ℕ)
read_bytes zero val = pure val
read_bytes (suc n) val = do b ← peek; step; read_bytes n (val ++ b ∷ [])

-- What a `uint8_t *` points to: nothing yet, an allocated array, or memory that was freed.
pub data Buffer : Type 0 where
  unset freed : Buffer
  owned : List ℕ → Buffer

-- The two results of `read_byte_array`.
pub record ByteArray : Type 0 where
  pub length : ℕ
  pub bytes : Buffer

unfoldable pub fill_array : ℕ → Reader → (Bool × ByteArray) × Reader
fill_array len r =
    let (res, r') = read_bytes len [] r in
    elim res [
      | none ↦ ((false, record { length = len; bytes = freed }), r')
      | some bs ↦ ((true, record { length = len; bytes = owned bs }), r')
    ]

-- The result of reading the length is ignored: where that fails, the old length stands. `malloc` is
-- taken to succeed; the source tests the address of its result, not the result.
unfoldable pub read_byte_array : ByteArray → Reader → (Bool × ByteArray) × Reader
unfolding fill_array
read_byte_array old r =
    let (res, r') = read_u64 r in fill_array (elim res [ none ↦ old.length | some len ↦ len ]) r'
