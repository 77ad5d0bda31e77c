-- ===== src/RingStream/Tests.antt =====
-- Runs of the ring on small inputs.
use command_station_ex_la_bo.Prelude.Int.{pos, ℤ}
use command_station_ex_la_bo.RingStream.Delivery.{receive, receive_lem}
use command_station_ex_la_bo.RingStream.Commit.{Sent, send, send_lem}
use command_station_ex_la_bo.RingStream.Valid.{IsValid, init-IsValid, contents}
use command_station_ex_la_bo.RingStream.{RingStream, init, mark, write_all, write, commit, read}
use command_station_ex_la_bo.Prelude.{ℕ, ◌≡◌, refl, false, List, [], ◌∷◌, arith}

abbrev payload : List ℕ
payload = 65 ∷ 66 ∷ []

abbrev empty : RingStream
empty = init 12

-- A ring with one frame in it.
abbrev held : RingStream
held = (send empty 3 payload).0

empty-IsValid : IsValid empty
empty-IsValid = init-IsValid 12 (omega arith)

send_example : Sent empty 3 payload (send empty 3 payload)
unfolding init
send_example = send_lem empty 3 payload empty-IsValid refl

-- The second frame does not fit, and the first is still there.
too_long : (send held 4 (1 ∷ 2 ∷ 3 ∷ 4 ∷ [])).1 ≡ false
unfolding init mark write_all write commit
too_long = refl

receive_example :
    let (s', client, cs) = receive held in
    (client ≡ pos 3) × (cs ≡ pos 65 ∷ pos 66 ∷ []) × (contents s' ≡ []) × IsValid s'
unfolding init
receive_example =
    receive_lem held 3 payload [] send_example.2 (omega arith) (omega arith) (omega arith)
      (omega arith, (omega arith, tt)) send_example.1

-- Nothing is taken from a ring with no frame.
nothing_received : receive (init 8) ≡ (init 8, ℤ.negsuc 0, [])
unfolding init receive read
nothing_received = refl

-- A ring of four bytes that three payload bytes overflow.
abbrev overflowed : RingStream
overflowed = write_all (init 4) (1 ∷ 2 ∷ 3 ∷ 4 ∷ [])
