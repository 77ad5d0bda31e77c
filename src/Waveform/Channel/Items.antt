-- ===== src/Waveform/Channel/Items.antt =====
-- DCCRMT.cpp: the items of a packet are the bits that the timer's interrupt sends.
use command_station_ex_la_bo.Waveform.Repeats.{packet_bits}
use command_station_ex_la_bo.Waveform.Packets.{framed_all}
use command_station_ex_la_bo.Waveform.Channel.{
  bit_item, converted, transmit_mask, dcc_bit_0, dcc_bit_1, Item, preamble, eot, converted_packet,
}
use command_station_ex_la_bo.Waveform.Bytes.{byte_bits, masked_bits, framed}
use command_station_ex_la_bo.Prelude.{
  ℕ, zero, suc, ◌-◌, ◌*◌, ◌≡◌, refl, sym, ap, ap₂, ◌∙◌, Bool, true, false, not, List, [], ◌∷◌, ◌++◌,
  map, append_assoc, arith, length, length-append, set, take, replicate, ◌==◌, bit_and, take-append,
  set-append_right,
}

-- The bits of the bytes: a 0 between two, and a 1 behind the last.
abbrev data_bits : ℕ → List ℕ → List Bool
data_bits b [] = byte_bits b ++ (true ∷ [])
data_bits b (c ∷ bs) = byte_bits b ++ (false ∷ data_bits c bs)

byte_items :
    (b : ℕ)
    → map (λ mask. bit_item (not (bit_and b mask == 0))) transmit_mask ≡ map bit_item (byte_bits b)
byte_items b = ap (map bit_item) (masked_bits b)

converted_byte :
    (b : ℕ) (bs : List ℕ)
    → converted (b ∷ bs) ≡ (map bit_item (byte_bits b) ++ (dcc_bit_0 ∷ [])) ++ converted bs
unfolding converted
converted_byte b bs = ap (λ l. (l ++ (dcc_bit_0 ∷ [])) ++ converted bs) (byte_items b)

length-converted : (bs : List ℕ) → length (converted bs) ≡ length bs * 9
unfolding converted
length-converted [] = refl
length-converted (b ∷ bs) = omega (arith, length-converted bs)

ended_bits :
    (b : ℕ) (bs : List ℕ)
    → set (converted (b ∷ bs)) (length (b ∷ bs) * 9 - 1) dcc_bit_1 ≡ map bit_item (data_bits b bs)
unfolding converted
ended_bits b [] = ap (λ l. l ++ (dcc_bit_1 ∷ [])) (byte_items b)
ended_bits b (c ∷ bs) =
    let raw : List Item =
      map (λ mask. bit_item (not (bit_and b mask == 0))) transmit_mask ++ (dcc_bit_0 ∷ []) in
    set-append_right raw (converted (c ∷ bs)) (length (b ∷ c ∷ bs) * 9 - 1)
      (length (c ∷ bs) * 9 - 1) dcc_bit_1 (omega arith)
    ∙ ap₂ (λ l m. (l ++ (dcc_bit_0 ∷ [])) ++ m) (byte_items b) (ended_bits c bs)

framed_ended : (b : ℕ) (bs : List ℕ) → false ∷ data_bits b bs ≡ framed_all (b ∷ bs) ++ (true ∷ [])
framed_ended b [] = refl
framed_ended b (c ∷ bs) = ap (λ l. framed b ++ l) (framed_ended c bs)

map-append : (xs ys : List Bool) → map bit_item (xs ++ ys) ≡ map bit_item xs ++ map bit_item ys
map-append [] ys = refl
map-append (x ∷ xs) ys = ap (◌∷◌ (bit_item x)) (map-append xs ys)

map-replicate : (n : ℕ) → map bit_item (replicate n true) ≡ replicate n dcc_bit_1
map-replicate zero = refl
map-replicate (suc n) = ap (◌∷◌ dcc_bit_1) (map-replicate n)

-- The channel's memory after a preamble, when items are put in the place of its last one.
abbrev pub in_memory : List Item → List Item → List Item
in_memory first items = take (length first - 1) first ++ items

preamble_kept :
    (plen : ℕ) (items : List Item)
    → in_memory (preamble plen) items ≡ replicate plen dcc_bit_1 ++ (dcc_bit_0 ∷ items)
preamble_kept plen items =
    ap (λ l. l ++ items)
      (ap (take (length (preamble plen) - 1)) (sym (append_assoc ones (dcc_bit_0 ∷ []) (eot ∷ [])))
        ∙ take-append (ones ++ (dcc_bit_0 ∷ [])) (eot ∷ []) (length (preamble plen) - 1) (
            omega (
              arith,
              length-append ones (dcc_bit_0 ∷ []),
              length-append ones (dcc_bit_0 ∷ eot ∷ []),
            )))
    ∙ append_assoc ones (dcc_bit_0 ∷ []) items
  where
    ones : List Item
    ones = replicate plen dcc_bit_1

-- The items that the channel sends in a circle for a packet of one byte or more, the preamble's and the packet's, are the bits that the timer's interrupt
-- sends for the same bytes, with the 1 that ends the packet last and not first, and then the mark of the
-- end.
pub converted_packet-packet_bits :
    (plen b : ℕ) (bs : List ℕ)
    → dcc_bit_1 ∷ in_memory (preamble plen) (converted_packet (b ∷ bs))
      ≡ map bit_item (packet_bits (suc plen) (b ∷ bs)) ++ (dcc_bit_1 ∷ eot ∷ [])
converted_packet-packet_bits plen b bs = ap (◌∷◌ dcc_bit_1) (
    preamble_kept plen (converted_packet (b ∷ bs))
    ∙ ap (λ l. replicate plen dcc_bit_1 ++ (dcc_bit_0 ∷ (l ++ (eot ∷ [])))) (ended_bits b bs)
    ∙ ap₂ (λ l m. l ++ (map bit_item m ++ (eot ∷ []))) (sym (map-replicate plen))
        (framed_ended b bs)
    ∙ ap (λ m. ones ++ (m ++ (eot ∷ []))) (map-append (framed_all (b ∷ bs)) (true ∷ []))
    ∙ ap (λ m. ones ++ m)
        (append_assoc (map bit_item (framed_all (b ∷ bs))) (dcc_bit_1 ∷ []) (eot ∷ []))
    ∙ sym (append_assoc ones (map bit_item (framed_all (b ∷ bs))) (dcc_bit_1 ∷ eot ∷ []))
    ∙ ap (λ l. l ++ (dcc_bit_1 ∷ eot ∷ []))
        (sym (map-append (replicate plen true) (framed_all (b ∷ bs)))))
  where
    ones : List Item
    ones = map bit_item (replicate plen true)
