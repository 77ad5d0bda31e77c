-- ===== src/RingStream/Flush.antt =====
-- RingStream::flush, which moves both positions and leaves `_overflow` as it was.
use command_station_ex_la_bo.Prelude.{ℕ, ◌≡◌, true, false, arith}
use command_station_ex_la_bo.RingStream.{RingStream, write, flush, is_empty}
use command_station_ex_la_bo.RingStream.Valid.{used}

-- A ring that is flushed after an overflow is not empty: it reports all its places as held bytes,
-- and refuses the next write.
pub flush_overflowed :
    (s : RingStream) (b : ℕ)
    → s.overflow ≡ true
    → (is_empty (flush s) ≡ false) × (used (flush s) ≡ s.len) × (write (flush s) b ≡ (flush s, 0))
unfolding flush write
flush_overflowed s b e = ground arith
