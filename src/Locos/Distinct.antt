-- ===== src/Locos/Distinct.antt =====
-- Lists of slots of which no two have the same number, at each of their members that is a number.
use command_station_ex_la_bo.Locos.{LocoSlot}
use command_station_ex_la_bo.Prelude.{ℕ, sym, ◌≢◌, List, [], ◌∷◌, ◌++◌, All}

abbrev pub Distinct : (LocoSlot → ℕ) → List LocoSlot → Type 0
Distinct f [] = Unit {0}
Distinct f (s ∷ ss) = All (λ t. f t ≢ f s) ss × Distinct f ss

pub All-append :
    (P : LocoSlot → Type 0) (xs ys : List LocoSlot) → All P xs → All P ys → All P (xs ++ ys)
All-append P [] ys h k = k
All-append P (x ∷ xs) ys h k = (h.0, All-append P xs ys h.1 k)

pub All-parts :
    (P : LocoSlot → Type 0) (xs ys : List LocoSlot) → All P (xs ++ ys) → All P xs × All P ys
All-parts P [] ys h = (tt, h)
All-parts P (x ∷ xs) ys h = let (a, b) = All-parts P xs ys h.1 in ((h.0, a), b)

-- A slot in the middle may as well stand in front.
pub Distinct-front :
    (f : LocoSlot → ℕ) (xs : List LocoSlot) (s : LocoSlot) (ys : List LocoSlot)
    → Distinct f (xs ++ s ∷ ys)
    → Distinct f (s ∷ xs ++ ys)
Distinct-front f [] s ys h = h
Distinct-front f (x ∷ xs) s ys h =
    let (a, d) = Distinct-front f xs s ys h.1 in
    let (b, c) = All-parts (λ t. f t ≢ f x) xs (s ∷ ys) h.0 in
    (((λ e. c.0 (sym e)), a), (All-append (λ t. f t ≢ f x) xs ys b c.1, d))

pub Distinct-middle :
    (f : LocoSlot → ℕ) (xs : List LocoSlot) (s : LocoSlot) (ys : List LocoSlot)
    → Distinct f (s ∷ xs ++ ys)
    → Distinct f (xs ++ s ∷ ys)
Distinct-middle f [] s ys h = h
Distinct-middle f (x ∷ xs) s ys h =
    let (b, c) = All-parts (λ t. f t ≢ f x) xs ys h.1.0 in
    (
      All-append (λ t. f t ≢ f x) xs (s ∷ ys) b ((λ e. h.0.0 (sym e)), c),
      Distinct-middle f xs s ys (h.0.1, h.1.1),
    )

pub Distinct-parts :
    (f : LocoSlot → ℕ) (xs ys : List LocoSlot) → Distinct f (xs ++ ys) → Distinct f xs
Distinct-parts f [] ys h = tt
Distinct-parts f (x ∷ xs) ys h =
    ((All-parts (λ t. f t ≢ f x) xs ys h.0).0, Distinct-parts f xs ys h.1)
