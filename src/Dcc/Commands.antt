-- ===== src/Dcc/Commands.antt =====
-- DCC.cpp: the function groups, and the packets for accessories.
use command_station_ex_la_bo.Dcc.Roundtrip.{read_loco-address}
use command_station_ex_la_bo.Dcc.Receiver.{
  read_accessory, read_extended_accessory, read_loco, functions, read_order,
}
use command_station_ex_la_bo.Prelude.{
  ℕ, zero, suc, ◌+◌, ◌-◌, ◌*◌, ◌/◌, ◌%◌, ◌^◌, ◌≤◌, ◌<◌, ◌≡◌, refl, ap, ◌∙◌, Bool, true, false, ◌&&◌,
  some, [], ◌∷◌, arith, leb, ◌==◌, ==_iff, if◌then◌else◌, bit_and, bit_or, bit_xor, all_below,
  all_below_at,
}
use command_station_ex_la_bo.Dcc.Packets.{
  function_packet, group_bytes, accessory_packet, extended_accessory_packet,
}

-- The number of the first function of a group, and how many functions it has.
abbrev first_function : ℕ → ℕ
first_function group =
    if group == 1
    then 0
    else if group == 2
    then 5
    else if group == 3
    then 9
    else if group == 4
    then 13
    else 21

abbrev group_size : ℕ → ℕ
group_size group = if group == 1 then 5 else if leb 4 group then 8 else 4

group1_table :
    all_below 32
      (λ x. bit_or (bit_or 128 (x / 2 % 16)) (x % 2 * 16) == 128 + x / 2 % 16 + x % 2 * 16)
    ≡ true
unfolding all_below
group1_table = refl

group23_table : all_below 16 (λ x. (bit_or 176 x == 176 + x) && (bit_or 160 x == 160 + x)) ≡ true
unfolding all_below
group23_table = refl

group1 : (f : ℕ) → bit_or (bit_or 128 (f / 2 % 16)) (f % 2 * 16) ≡ 128 + f / 2 % 16 + f % 2 * 16
group1 f =
    let a : f / 2 % 16 ≡ f % 32 / 2 % 16 = omega arith in
    let b : f % 2 ≡ f % 32 % 2 = omega arith in
    rw (a, b) ((==_iff _ _).0 (all_below_at 32 _ (f % 32) group1_table (omega arith)))

group23 : (x : ℕ) → x < 16 → (bit_or 176 x ≡ 176 + x) × (bit_or 160 x ≡ 160 + x)
group23 x h = ground (
  arith,
  all_below_at 16 (λ x. (bit_or 176 x == 176 + x) && (bit_or 160 x == 160 + x)) x group23_table h,
)

group_order1 :
    (f : ℕ)
    → read_order (bit_or (bit_or 128 (f / 2 % 16)) (f % 2 * 16) ∷ []) ≡ some (functions 0 (f % 32))
unfolding read_order
group_order1 f = rw (group1 f) (ground arith)

group_order2 : (x : ℕ) → x < 16 → read_order (bit_or 176 x ∷ []) ≡ some (functions 5 x)
unfolding read_order
group_order2 x h = rw ((group23 x h).0) (ground arith)

group_order3 : (x : ℕ) → x < 16 → read_order (bit_or 160 x ∷ []) ≡ some (functions 9 x)
unfolding read_order
group_order3 x h = rw ((group23 x h).1) (ground arith)

group_order4 : (x : ℕ) → read_order (222 ∷ x ∷ []) ≡ some (functions 13 x)
unfolding read_order
group_order4 x = refl

group_order5 : (x : ℕ) → read_order (223 ∷ x ∷ []) ≡ some (functions 21 x)
unfolding read_order
group_order5 x = refl

-- The reminder of each of the function groups 1 to 5 tells a loco up to 10239 the state of each
-- function of the group.
pub function_group_lem :
    (cab group f : ℕ)
    → cab ≤ 10239
    → 0 < group
    → group ≤ 5
    → let (byte1, byte2) = group_bytes group f in
      read_loco (function_packet cab byte1 byte2)
      ≡ some (
        cab,
        functions (first_function group) (f / 2 ^ first_function group % 2 ^ group_size group),
      )
unfolding function_packet group_bytes
function_group_lem cab zero f h l u = absurd (omega arith)
function_group_lem cab (suc zero) f h l u =
    read_loco-address cab _ _ h (group_order1 f ∙ ap (λ k. some (functions 0 k)) (omega arith))
function_group_lem cab (suc (suc zero)) f h l u =
    read_loco-address cab _ _ h (group_order2 (f / 2 ^ 5 % 16) (omega arith))
function_group_lem cab (suc (suc (suc zero))) f h l u =
    read_loco-address cab _ _ h (group_order3 (f / 2 ^ 9 % 16) (omega arith))
function_group_lem cab (suc (suc (suc (suc zero)))) f h l u =
    read_loco-address cab _ _ h (group_order4 (f / 2 ^ 13 % 256))
function_group_lem cab (suc (suc (suc (suc (suc zero))))) f h l u =
    read_loco-address cab _ _ h (group_order5 (f / 2 ^ 21 % 256))
function_group_lem cab (suc (suc (suc (suc (suc (suc g)))))) f h l u = absurd (omega arith)

abbrev accessory_bits : ℕ → ℕ
accessory_bits x = x / 8 * 16 + x / 2 % 4 * 2 + x % 2

accessory_table :
    all_below 64 (λ x.
      (bit_xor (x / 8 * 16 + x / 2 % 4 * 2 + x % 2) 0xF8
        == 248 - x / 8 * 16 + x / 2 % 4 * 2 + x % 2)
      && (bit_and (bit_xor (x / 8 * 16 + x / 2 % 4 * 2 + x % 2) 0xF8) 0xF7
          == 240 - x / 8 * 16 + x / 2 % 4 * 2 + x % 2))
    ≡ true
unfolding all_below
accessory_table = refl

-- `x` holds the three high bits of the address, the port and the gate.
accessory_byte :
    (a port g : ℕ)
    → a < 8
    → port < 4
    → g < 2
    → (bit_xor (a * 16 + port * 2 + g) 0xF8 ≡ 248 - a * 16 + port * 2 + g)
      × (bit_and (bit_xor (a * 16 + port * 2 + g) 0xF8) 0xF7 ≡ 240 - a * 16 + port * 2 + g)
accessory_byte a port g ha hp hg =
    let x = a * 8 + port * 2 + g in
    let ea : x / 8 ≡ a = omega arith in
    let ep : x / 2 % 4 ≡ port = omega arith in
    let eg : x % 2 ≡ g = omega arith in
    let t =
      all_below_at 64
        (λ x.
          (bit_xor (accessory_bits x) 0xF8 == 248 - x / 8 * 16 + x / 2 % 4 * 2 + x % 2)
          && (bit_and (bit_xor (accessory_bits x) 0xF8) 0xF7
              == 240 - x / 8 * 16 + x / 2 % 4 * 2 + x % 2))
        x accessory_table (omega arith) in
    ground (arith, t)

-- A basic accessory packet carries the address, the port, the gate, and whether the coil goes on.
pub accessory_lem :
    (addr port : ℕ) (gate on : Bool)
    → addr < 512
    → port < 4
    → read_accessory (accessory_packet addr port gate on) ≡ some (addr, port, gate, on)
unfolding read_accessory accessory_packet
accessory_lem addr port true true h k =
    rw ((accessory_byte (addr / 64 % 8) (port % 4) 1 (omega arith) (omega arith) (omega arith)).0)
      (ground arith)
accessory_lem addr port true false h k =
    rw ((accessory_byte (addr / 64 % 8) (port % 4) 1 (omega arith) (omega arith) (omega arith)).1)
      (ground arith)
accessory_lem addr port false true h k =
    rw ((accessory_byte (addr / 64 % 8) (port % 4) 0 (omega arith) (omega arith) (omega arith)).0)
      (ground arith)
accessory_lem addr port false false h k =
    rw ((accessory_byte (addr / 64 % 8) (port % 4) 0 (omega arith) (omega arith) (omega arith)).1)
      (ground arith)

extended_table :
    all_below 32
      (λ x. bit_or (bit_or 0x01 ((7 - x / 4) * 16)) (x % 4 * 2) == 1 + (7 - x / 4) * 16 + x % 4 * 2)
    ≡ true
unfolding all_below
extended_table = refl

or_80_table : all_below 128 (λ x. bit_or 0x80 x == 128 + x) ≡ true
unfolding all_below
or_80_table = refl

extended_byte :
    (a d : ℕ)
    → a < 8
    → d < 4
    → bit_or (bit_or 0x01 ((7 - a) * 16)) (d * 2) ≡ 1 + (7 - a) * 16 + d * 2
extended_byte a d ha hd =
    let x = a * 4 + d in
    let ea : x / 4 ≡ a = omega arith in
    let ed : x % 4 ≡ d = omega arith in
    let t =
      all_below_at 32
        (λ x.
          bit_or (bit_or 0x01 ((7 - x / 4) * 16)) (x % 4 * 2) == 1 + (7 - x / 4) * 16 + x % 4 * 2)
        x extended_table (omega arith) in
    ground (arith, t)

or_80 : (x : ℕ) → x < 128 → bit_or 0x80 x ≡ 128 + x
or_80 x h = (==_iff _ _).0 (all_below_at 128 _ x or_80_table h)

-- An extended accessory packet carries the address of eleven bits and the aspect.
pub extended_accessory_lem :
    (addr value : ℕ)
    → addr < 2048
    → value < 32
    → read_extended_accessory (extended_accessory_packet addr value) ≡ some (addr, value)
unfolding read_extended_accessory extended_accessory_packet
extended_accessory_lem addr value h k =
    rw
      (
        or_80 (addr / 4 % 64) (omega arith),
        extended_byte (addr / 256 % 8) (addr % 4) (omega arith) (omega arith),
      )
      (ground arith)
