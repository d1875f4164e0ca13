-- ===== src/Net/Connection/Fresh.antt =====
-- What `conn_new` of server/src/connection.cpp gives.
use trabalho_sistemas_operac.Prelude.{refl, ℕ, ◌≡◌, [], All, length, arith}
use trabalho_sistemas_operac.Net.Reader.{rsize, curr_buf, init_reader}
use trabalho_sistemas_operac.Net.Writer.{wsize, init_writer}
use trabalho_sistemas_operac.Net.Connection.{Memory, Socket, conn_new}
use trabalho_sistemas_operac.Net.Connection.Talk.{IsOpen}
use trabalho_sistemas_operac.Net.Reader.Stream.{IsChunk, pending, arriving, available}
use trabalho_sistemas_operac.Net.Writer.Stream.{IsAll, written}

-- In memory of the right sizes, whatever it held, and on a socket that delivers chunks and accepts
-- all bytes, `conn_new` gives an open connection: just what arrives is pending, and nothing has
-- been written.
pub conn_new-IsOpen :
    (id server_address server_port client_address client_port : ℕ) (memory : Memory)
    (socket : Socket)
    → length memory.a ≡ rsize
    → length memory.b ≡ rsize
    → length memory.w ≡ wsize
    → All IsChunk socket.incoming
    → All IsAll socket.sends
    → let c = (conn_new id server_address server_port client_address client_port memory socket).0 in
      IsOpen c × (pending c.reader ≡ arriving socket.incoming) × (written c.writer ≡ [])
unfolding conn_new init_reader init_writer pending available written curr_buf
conn_new-IsOpen id server_address server_port client_address client_port memory socket ha hb hw
      chunks alls =
    (
      record {
        sound = record {
          index_le = omega arith;
          length_le = omega arith;
          a_size = ha;
          b_size = hb;
          chunks = chunks;
        };
        reliable = record { index_le = omega arith; size = hw; accepts = alls };
      },
      refl,
      refl,
    )
