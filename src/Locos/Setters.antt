-- ===== src/Locos/Setters.antt =====
-- LocoSlot.h: the setters leave the numbers of the locos and the places of the slots alone.
use command_station_ex_la_bo.Locos.Distinct.{Distinct}
use command_station_ex_la_bo.Locos.{assign, update, Setter, LocoSlot}
use command_station_ex_la_bo.Prelude.{
  ℕ, ◌≡◌, refl, sym, ◌∙◌, ◌≢◌, inl, inr, List, [], ◌∷◌, ◌++◌, arith, length, ◌==◌, Bool-cases, inr,
  All,
}
use command_station_ex_la_bo.Prelude.{refl, ◌∙◌}

-- A setter moves no slot and renames none.
pub assign_keeps :
    (f : Setter) (s : LocoSlot) → ((assign f s).at ≡ s.at) × ((assign f s).loco ≡ s.loco)
unfolding assign
assign_keeps f s = elim f as (λ f. ((assign f s).at ≡ s.at) × ((assign f s).loco ≡ s.loco)) [
  | Setter.sniffer_speed_code v ↦ (refl, refl)
  | Setter.sniffer_functions v ↦ (refl, refl)
  | Setter.momentum_a v ↦ (refl, refl)
  | Setter.momentum_d v ↦ (refl, refl)
  | Setter.momentum_base v ↦ (refl, refl)
  | Setter.target_speed v ↦ (refl, refl)
  | Setter.speed_code v ↦ (refl, refl)
  | Setter.group_flags v ↦ (refl, refl)
  | Setter.functions v ↦ (refl, refl)
  | Setter.consist_lead v ↦ (refl, refl)
  | Setter.consist_next v ↦ (refl, refl)
  | Setter.consist_reverse v ↦ (refl, refl)
  | Setter.save_speed ↦ (refl, refl)
]

pub All-update :
    (P : LocoSlot → Type 0) (f : Setter) (at : ℕ) (ss rest : List LocoSlot)
    → ((s : LocoSlot) → P s → P (assign f s))
    → All P (ss ++ rest)
    → All P (update f at ss ++ rest)
unfolding update
All-update P f at [] rest k h = h
All-update P f at (s ∷ ss) rest k h = elim (Bool-cases (s.at == at)) [
  | inl e ↦ rw (update, e) (k s h.0, h.1)
  | inr e ↦ rw (update, e) (h.0, All-update P f at ss rest k h.1)
]

pub Distinct-update :
    (g : LocoSlot → ℕ) (f : Setter) (at : ℕ) (ss rest : List LocoSlot)
    → ((s : LocoSlot) → g (assign f s) ≡ g s)
    → Distinct g (ss ++ rest)
    → Distinct g (update f at ss ++ rest)
unfolding update
Distinct-update g f at [] rest k h = h
Distinct-update g f at (s ∷ ss) rest k h = elim (Bool-cases (s.at == at)) [
  | inl e ↦ rw (update, e) (rw (k s) h.0, h.1)
  | inr e ↦
      rw (update, e)
        (
          All-update (λ t. g t ≢ g s) f at ss rest (λ t n e. n (sym (k t) ∙ e)) h.0,
          Distinct-update g f at ss rest k h.1,
        )
]

pub length-update : (f : Setter) (at : ℕ) (ss : List LocoSlot) → length (update f at ss) ≡ length ss
unfolding update
length-update f at [] = refl
length-update f at (s ∷ ss) = ground (arith, length-update f at ss)
