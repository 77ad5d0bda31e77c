-- ===== src/Waveform/Channel.antt =====
-- DCCRMT.cpp: the signal of an ESP32, for which a packet is written out as items of two half bits, without
-- the cutout for RailCom. What is given to `rmt_fill_tx_items` is a result of the
-- interrupt: the items and the place in the channel's memory. The end of the preamble is
-- the first 0 of the data, and a packet has one byte at least.
pub mod Items
pub mod Queue
use command_station_ex_la_bo.Waveform.{preamble_bits_main, preamble_bits_prog, max_packet_size}
use command_station_ex_la_bo.Prelude.{
  ℕ, zero, suc, ◌+◌, ◌-◌, ◌*◌, ◌/◌, ◌%◌, ◌^◌, ◌≤◌, ◌<◌, ◌≡◌, refl, sym, ap, ap₂, ◌∙◌, subst, ◌≢◌,
  ◌↔◌, ◌⊎◌, inl, inr, Bool, true, false, not, ◌&&◌, ◌||◌, Option, none, some, List, [], ◌∷◌, ◌++◌,
  map, append-nil, append_assoc, arith, length, length-append, get_or, get_elem?, set, take, drop,
  replicate, ltb, leb, ◌==◌, ltb→lt, lt→ltb, leb→le, ==_iff, if◌then◌else◌, Bool-cases,
  Option-cases, inr, bit_and, bit_or, bit_xor, length-set, dec_lt, dec_le, ℕ_discrete, all_below,
  digit, digit-or, digit-and, digit-lt, and_power, length-replicate, length-take, length-drop, All,
  take_all, take-append, find,
}

abbrev dcc_1_halfperiod : ℕ
dcc_1_halfperiod = 58

abbrev dcc_0_halfperiod : ℕ
dcc_0_halfperiod = 100

pub record Item : Type 0 where
  pub level0 : Bool
  pub duration0 : ℕ
  pub level1 : Bool
  pub duration1 : ℕ

abbrev symmetric : ℕ → Item
symmetric duration = record {
  level0 = true;
  duration0 = duration;
  level1 = false;
  duration1 = duration;
}

abbrev pub dcc_bit_1 : Item
dcc_bit_1 = symmetric dcc_1_halfperiod

abbrev pub dcc_bit_0 : Item
dcc_bit_0 = symmetric dcc_0_halfperiod

abbrev pub eot : Item
eot = record { level0 = false; duration0 = 0; level1 = false; duration1 = 0 }

abbrev pub data_len : ℕ → ℕ
data_len n = n * 9 + 1

-- `plen` ones, a 0, and the mark of the end.
abbrev pub preamble : ℕ → List Item
preamble plen = replicate plen dcc_bit_1 ++ (dcc_bit_0 ∷ eot ∷ [])

abbrev pub idle : Bool → List Item
idle true =
    replicate 8 dcc_bit_1
    ++ (replicate 10 dcc_bit_0 ++ (replicate 8 dcc_bit_1 ++ (dcc_bit_1 ∷ eot ∷ [])))
idle false = replicate 26 dcc_bit_0 ++ (dcc_bit_1 ∷ eot ∷ [])

abbrev pub transmit_mask : List ℕ
transmit_mask = 0x80 ∷ 0x40 ∷ 0x20 ∷ 0x10 ∷ 0x08 ∷ 0x04 ∷ 0x02 ∷ 0x01 ∷ []

abbrev pub bit_item : Bool → Item
bit_item true = dcc_bit_1
bit_item false = dcc_bit_0

-- Each byte's bits, with a 0 behind them.
unfoldable pub converted : List ℕ → List Item
converted [] = []
converted (b ∷ bs) =
    (map (λ mask. bit_item (not (bit_and b mask == 0))) transmit_mask ++ (dcc_bit_0 ∷ []))
    ++ converted bs

-- The last 0 becomes a 1, and the mark of the end follows.
abbrev pub converted_packet : List ℕ → List Item
converted_packet bytes = set (converted bytes) (length bytes * 9 - 1) dcc_bit_1 ++ (eot ∷ [])

pub record Channel : Type 0 where
  pub preamble_items : List Item
  pub idle_items : List Item
  pub data_items : List Item
  pub max_data_len : ℕ
  pub packet_counter : ℕ
  pub data_ready : Bool
  pub data_repeat : ℕ

abbrev pub rmt_channel : Bool → Channel
rmt_channel is_main = record {
  preamble_items = preamble (if is_main then preamble_bits_main else preamble_bits_prog);
  idle_items = idle is_main;
  data_items = [];
  max_data_len = data_len (max_packet_size + 1);
  packet_counter = 0;
  data_ready = false;
  data_repeat = 0;
}

-- What `RMTfillData` returns: 0, the repeats that are left, 1000, or -1.
pub data Filled : Type 0 where
  filled : Filled
  old_work : ℕ → Filled
  not_copied : Filled
  too_long : Filled

unfoldable pub rmt_fill_data : List ℕ → ℕ → Channel → Filled × Channel
rmt_fill_data buffer repeat_count c =
    if ltb 0 c.data_repeat
    then (old_work c.data_repeat, c)
    else if c.data_ready
    then (not_copied, c)
    else if ltb c.max_data_len (data_len (length buffer))
    then (too_long, c)
    else (
      filled,
      record c {
        data_items = converted_packet buffer;
        data_ready = true;
        data_repeat = (repeat_count + 1) % 256;
      },
    )

-- A call of `rmt_fill_tx_items`: the items, and the place where they go.
abbrev pub Fill : Type 0
Fill = List Item × ℕ

unfoldable pub rmt_interrupt : Channel → Channel × Option Fill
rmt_interrupt c =
    let counted = record c { packet_counter = (c.packet_counter + 1) % 4294967296 } in
    let place = length c.preamble_items - 1 in
    let repeat = c.data_repeat - 1 in
    if not c.data_ready && c.data_repeat == 0
    then (counted, some (c.idle_items, place))
    else if c.data_ready
    then (record counted { data_ready = false; data_repeat = repeat }, some (c.data_items, place))
    else (record counted { data_repeat = repeat }, none)

unfoldable pub busy : Channel → Bool
busy c = ltb 0 c.data_repeat || c.data_ready
