-- ===== src/Sensors/Lookup.antt =====
-- Sensors.cpp: making, finding and removing sensors.
use command_station_ex_la_bo.Sensors.{
  Sensor, Sensors, remove, get, create, has, sensors_of, remove_first, numbered, vpin_max,
  vpin_none, new_sensor,
}
use command_station_ex_la_bo.Prelude.{
  ℕ, ◌≡◌, refl, sym, ap, ◌∙◌, subst, ◌≢◌, inl, inr, Bool, true, false, not, ◌&&◌, ◌||◌, none, some,
  List, [], ◌∷◌, ◌++◌, arith, ltb, leb, ◌==◌, if◌then◌else◌, Bool-cases, inr, ℕ_discrete, find,
}

-- No two sensors have the same number.
abbrev pub Distinct : List Sensor → Type 0
Distinct [] = Unit
Distinct (s ∷ ss) = (has (numbered s.snum) ss ≡ false) × Distinct ss

abbrev pub IsValid : Sensors → Type 0
IsValid m = Distinct (sensors_of m)

remove_first-append :
    (p : Sensor → Bool) (xs bs : List Sensor)
    → remove_first p (xs ++ bs)
      ≡ (if has p xs then remove_first p xs ++ bs else xs ++ remove_first p bs)
remove_first-append p [] bs = refl
remove_first-append p (s ∷ xs) bs = ground (arith, remove_first-append p xs bs)

pub sensors_of-remove :
    (n : ℕ) (m : Sensors) → sensors_of (remove n m).0 ≡ remove_first (numbered n) (sensors_of m)
unfolding remove
sensors_of-remove n m = ground (arith, remove_first-append (numbered n) m.passed m.ahead)

has-remove_first :
    (n : ℕ) (q : Sensor → Bool) (l : List Sensor)
    → has (numbered n) l ≡ false
    → has (numbered n) (remove_first q l) ≡ false
has-remove_first n q [] h = refl
has-remove_first n q (s ∷ l) h = ground (arith, h, has-remove_first n q l)

Distinct-remove_first :
    (q : Sensor → Bool) (l : List Sensor) → Distinct l → Distinct (remove_first q l)
Distinct-remove_first q [] h = tt
Distinct-remove_first q (s ∷ l) (h, hs) = elim (Bool-cases (q s)) [
  | inl e ↦ rw e hs
  | inr e ↦ rw e (has-remove_first s.snum q l h, Distinct-remove_first q l hs)
]

removed_gone :
    (n : ℕ) (l : List Sensor) → Distinct l → has (numbered n) (remove_first (numbered n) l) ≡ false
removed_gone n [] h = refl
removed_gone n (s ∷ l) (h, hs) = elim (ℕ_discrete s.snum n) [
  | yes e ↦ ground (arith, e, subst (λ n. has (numbered n) l ≡ false) e h)
  | no e ↦ ground (arith, e, removed_gone n l hs)
]

find-none : (p : Sensor → Bool) (l : List Sensor) → has p l ≡ false → find p l ≡ none
unfolding find
find-none p [] h = refl
find-none p (s ∷ l) h = ground (arith, h, find-none p l)

find-remove_first :
    (n k : ℕ) (l : List Sensor)
    → k ≢ n
    → find (numbered k) (remove_first (numbered n) l) ≡ find (numbered k) l
unfolding find
find-remove_first n k [] h = refl
find-remove_first n k (s ∷ l) h = ground (arith, h, find-remove_first n k l h)

-- In a list whose sensors have distinct numbers, a sensor that is removed is found no more, every
-- other sensor is found as before, and the numbers stay distinct. Where `remove` returns false
-- there was no such sensor.
pub get-remove :
    (n : ℕ) (m : Sensors)
    → IsValid m
    → IsValid (remove n m).0
      × (get n (remove n m).0 ≡ none)
      × ((k : ℕ) → k ≢ n → get k (remove n m).0 ≡ get k m)
      × ((remove n m).1 ≡ false → get n m ≡ none)
unfolding get remove
get-remove n m h = (
  subst Distinct (sym (sensors_of-remove n m))
      (Distinct-remove_first (numbered n) (sensors_of m) h),
  ap (find (numbered n)) (sensors_of-remove n m)
      ∙ find-none (numbered n) (remove_first (numbered n) (sensors_of m))
          (removed_gone n (sensors_of m) h),
  (λ k e. ap (find (numbered k)) (sensors_of-remove n m) ∙ find-remove_first n k (sensors_of m) e),
  find-none (numbered n) (sensors_of m),
)

find_first : (s : Sensor) (l : List Sensor) → find (numbered s.snum) (s ∷ l) ≡ some s
unfolding find
find_first s l = ground arith

find_behind :
    (s : Sensor) (l : List Sensor) (k : ℕ)
    → s.snum ≢ k
    → find (numbered k) (s ∷ l) ≡ find (numbered k) l
unfolding find
find_behind s l k h = ground (arith, h)

-- In a list whose sensors have distinct numbers: where the pin is none or at most 32767, a sensor
-- is made. It is found under its number, every other sensor is found as before, and the numbers
-- stay distinct. At any other pin nothing changes.
pub get-create :
    (has_callback : ℕ → Bool) (n pin pull_up : ℕ) (m : Sensors)
    → IsValid m
    → let made = create has_callback n pin pull_up m in
      IsValid made.0
      × (made.1 ≡ (leb pin vpin_max || pin == vpin_none))
      × (made.1 ≡ false → made.0 ≡ m)
      × (made.1 ≡ true → get n made.0 ≡ some (new_sensor has_callback n pin pull_up))
      × ((k : ℕ) → k ≢ n → get k made.0 ≡ get k m)
unfolding create get
get-create has_callback n pin pull_up m h =
    elim (Bool-cases (ltb vpin_max pin && not (pin == vpin_none))) [
      | inl e ↦ rw e (h, ground (arith, e), (λ q. refl), (λ q. cc), (λ k q. refl))
      | inr e ↦ rw e (
        (gone, removed.0),
        ground (arith, e),
        (λ q. cc),
        (λ q. find_first (new_sensor has_callback n pin pull_up) (sensors_of kept)),
        (λ k q.
            find_behind (new_sensor has_callback n pin pull_up) (sensors_of kept) k (λ z. q (sym z))
            ∙ removed.2 k q),
      )
    ]
  where
    kept : Sensors
    kept = (remove n m).0

    removed :
        IsValid kept
        × (get n kept ≡ none)
        × ((k : ℕ) → k ≢ n → get k kept ≡ get k m)
        × ((remove n m).1 ≡ false → get n m ≡ none)
    removed = get-remove n m h

    gone : has (numbered n) (sensors_of kept) ≡ false
    gone =
        subst (λ l. has (numbered n) l ≡ false) (sym (sensors_of-remove n m))
          (removed_gone n (sensors_of m) h)
