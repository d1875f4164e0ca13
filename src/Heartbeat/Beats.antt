-- ===== src/Heartbeat/Beats.antt =====
-- What a backup server writes to the primary one (server/src/heartbeat.cpp).
use trabalho_sistemas_operac.Prelude.{ℕ, zero, suc}
use trabalho_sistemas_operac.Prelude.Exec.{Exec, pure, ◌>>◌}
use trabalho_sistemas_operac.Net.Writer.{write_u8, write_u16, flush}
use trabalho_sistemas_operac.Net.Connection.{Connection, writing}

-- The inner loop of `heartbeat_writer_thread`, for a number of rounds.
unfoldable pub beats : ℕ → Exec Connection (Unit {0})
beats zero = pure tt
beats (suc count) = do writing (write_u8 0); writing flush; beats count

-- The port, which is not flushed by itself, and the beats.
unfoldable pub heartbeat : ℕ → ℕ → Exec Connection (Unit {0})
heartbeat port count = do writing (write_u16 port); beats count
