-- ===== src/RingStream.antt =====
-- RingStream.h and RingStream.cpp: the byte ring that carries framed replies to network clients.
-- A frame is a client byte, two count bytes and the payload. The 32-bit targets are modelled: on
-- them `printFlash` writes the bytes of the text, so no flash insert is ever pending and
-- `_flashInsert` stays null. `int` is 32 bits and none of its values here leaves the ring's size,
-- but for `_count`, which only grows by one for each byte stored.
pub mod Valid
pub mod Frame
pub mod Commit
pub mod Delivery
pub mod Flush
mod Tests
use command_station_ex_la_bo.Prelude.{
  ℕ, zero, suc, ◌+◌, ◌-◌, ◌*◌, ◌/◌, ◌%◌, Bool, true, false, not, ◌&&◌, List, [], ◌∷◌, ltb, ◌==◌,
  if◌then◌else◌, get_or, set, replicate,
}
use command_station_ex_la_bo.Prelude.Int.{ℤ, pos, ◌-ℤ◌, sub_ℕ}

pub record RingStream : Type 0 where
  pub len : ℕ
  pub pos_write : ℕ
  pub pos_read : ℕ
  pub overflow : Bool
  pub start : ℕ
  pub count : ℕ
  pub buffer : List ℕ
  pub ring_client : ℕ

abbrev pub no_client : ℕ
no_client = 255

abbrev pub flash_insert_marker : ℕ
flash_insert_marker = 0xff

-- `new byte[len]` holds anything; it is written before it is read, so it is filled with 0 here.
pub init : ℕ → RingStream
init n = record {
  len = n;
  pos_write = 0;
  pos_read = 0;
  overflow = false;
  start = 0;
  count = 0;
  buffer = replicate n 0;
  ring_client = no_client;
}

-- `++p; if (p == _len) p = 0;`
abbrev pub next : ℕ → ℕ → ℕ
next n p = if p + 1 == n then 0 else p + 1

-- The number is what the call returns.
pub write : RingStream → ℕ → RingStream × ℕ
write s b =
    let pw = next s.len s.pos_write in
    let buf = set s.buffer s.pos_write b in
    if s.overflow
    then (s, 0)
    else if pw == s.pos_read
    then (record s { buffer = buf; pos_write = pw; overflow = true }, 0)
    else (record s { buffer = buf; pos_write = pw; count = s.count + 1 }, 1)

-- `Print::write(const uint8_t *, size_t)` and the `print` functions end in one `write` a byte.
pub write_all : RingStream → List ℕ → RingStream
write_all s [] = s
write_all s (b ∷ bs) = write_all (write s b).0 bs

pub read_raw_byte : RingStream → RingStream × ℕ
read_raw_byte s =
    (record s { pos_read = next s.len s.pos_read; overflow = false }, get_or s.buffer s.pos_read 0)

abbrev pub is_empty : RingStream → Bool
is_empty s = s.pos_read == s.pos_write && not s.overflow

-- `pos` for a byte, and -1 for an empty ring. A marker byte, which a 32-bit target never writes
-- itself, is read as a question mark.
pub read : RingStream → RingStream × ℤ
read s =
    let (s', b) = read_raw_byte s in
    if is_empty s
    then (s, ℤ.negsuc 0)
    else if b == flash_insert_marker
    then (s', pos b'?')
    else (s', pos b)

-- C++ leaves the order of the two calls open; the left one is taken first here, as the frame needs.
pub read_count : RingStream → RingStream × ℕ
read_count s =
    let (s1, hi) = read_raw_byte s in let (s2, lo) = read_raw_byte s1 in (s2, hi * 256 + lo)

pub peek : RingStream → ℤ
peek s = if is_empty s then ℤ.negsuc 0 else pos (get_or s.buffer s.pos_read 0)

pub free_space : RingStream → ℤ
free_space s =
    if ltb s.pos_write s.pos_read
    then sub_ℕ s.pos_read s.pos_write -ℤ pos 3
    else sub_ℕ (s.len + s.pos_read) s.pos_write -ℤ pos 3

pub mark : RingStream → ℕ → RingStream
mark s b =
    let s1 = record s { ring_client = b; start = s.pos_write } in
    let s2 = (write s1 b).0 in
    let s3 = (write s2 0).0 in let s4 = (write s3 0).0 in record s4 { count = 0 }

pub peek_target_mark : RingStream → ℕ
peek_target_mark s = s.ring_client

-- The third branch writes the count into the two bytes behind the mark, which it moves along.
pub commit : RingStream → RingStream × Bool
commit s =
    let m1 = next s.len s.start in
    let m2 = next s.len m1 in
    let buf1 = set s.buffer m1 (s.count / 256 % 256) in
    let buf2 = set buf1 m2 (s.count % 256) in
    if s.overflow
    then (record s { pos_write = s.start; overflow = false }, false)
    else if s.count == 0
    then (record s { pos_write = s.start; ring_client = no_client }, true)
    else (record s { start = m2; buffer = buf2; ring_client = no_client }, true)

pub flush : RingStream → RingStream
flush s = record s {
  pos_write = 0;
  pos_read = 0;
  buffer = set s.buffer 0 0;
  ring_client = no_client;
}
