-- ===== src/Dcc/Reminder.antt =====
-- DCC.cpp: the momentum of a loco over time. Each speed reminder moves the loco by the notches that
-- have become due since the last move.
use command_station_ex_la_bo.Prelude.Int.{eq_of_parts}
use command_station_ex_la_bo.Dcc.Momentum.{
  ramp_code, gap, normalize, normalize-InScale, dccalize-normalize, ramp_code-lt, dccalize,
  gap-ramp_code,
}
use native.Mathlib.Nat.{le-div_iff_mul-le}
use command_station_ex_la_bo.Prelude.{
  ℕ, ◌+◌, ◌-◌, ◌*◌, ◌/◌, ◌%◌, ◌^◌, ◌≤◌, ◌<◌, ◌≡◌, refl, Bool, ◌||◌, List, [], ◌∷◌, arith, ltb, ◌==◌,
  if◌then◌else◌, ℕ_discrete, All, ap, ◌⊎◌, ◌∙◌, ◌≢◌, subst, length, sym, inr, inl,
}

abbrev pub momentum_use_default : ℕ
momentum_use_default = 255

-- The milliseconds of a notch for each unit of momentum.
abbrev momentum_factor : ℕ
momentum_factor = 7

-- `getMomentum`: the acceleration of a loco is eased by the gap that it has to close.
pub get_momentum : ℕ → ℕ → Bool → ℕ → ℕ → ℕ → ℕ → ℕ
get_momentum default_a default_d linear a d target_code speed_code =
    let target = target_code % 128 in
    let current = speed_code % 128 in
    let m = if a == momentum_use_default then default_a else a in
    let gap = (target - current) / 8 in
    if ltb current target
    then (if m == 0 || linear then m else if ltb m gap then 0 else m - gap)
    else if d == momentum_use_default
    then default_d
    else d

-- The settings that apply to every loco.
pub record Settings : Type 0 where
  pub default_a : ℕ
  pub default_d : ℕ
  pub linear : Bool

-- The part of a loco's slot that momentum is about.
pub record Throttle : Type 0 where
  pub target_speed : ℕ
  pub speed_code : ℕ
  pub momentum_a : ℕ
  pub momentum_d : ℕ
  pub momentum_base : ℕ

-- `delay` is an `int16_t`: where it is negative its quotient is not above 0, and 0 stands for it.
pub ticks_since : ℕ → ℕ → ℕ → ℕ
ticks_since now base momentum =
    let delay = (now + 2 ^ 32 - base) % 65536 in
    if momentum == 0
    then 500
    else if ltb delay 32768
    then delay / (momentum_factor * momentum)
    else 0

-- The momentum change of a speed reminder at a time.
pub remind : Settings → Throttle → ℕ → Throttle
remind g t now =
    let m =
      get_momentum g.default_a g.default_d g.linear t.momentum_a t.momentum_d t.target_speed
        t.speed_code in
    let ticks = ticks_since now t.momentum_base m in
    if t.target_speed == t.speed_code
    then t
    else if ticks == 0
    then t
    else record t { speed_code = ramp_code t.target_speed t.speed_code ticks; momentum_base = now }

-- A time is 32 bits of milliseconds. Each reminder comes some milliseconds after the one before it.
pub reminds : Settings → Throttle → ℕ → List ℕ → Throttle
reminds g t now [] = t
reminds g t now (d ∷ ds) = let later = (now + d) % 2 ^ 32 in reminds g (remind g t later) later ds

-- Long enough for a notch at any momentum, and short enough for the 16 bits of `delay`.
abbrev pub Paced : List ℕ → Type 0
Paced = All (λ d. (1785 ≤ d) × (d < 32768))

abbrev pub Bounded : Settings → Throttle → Type 0
Bounded g t =
    (g.default_a < 256)
    × (g.default_d < 256)
    × (t.target_speed < 256)
    × (t.speed_code < 256)
    × (t.momentum_a < 256)
    × (t.momentum_d < 256)

get_momentum-lt :
    (da dd : ℕ) (linear : Bool) (a d target code : ℕ)
    → da < 256
    → dd < 256
    → a < 256
    → d < 256
    → get_momentum da dd linear a d target code < 256
unfolding get_momentum
get_momentum-lt da dd linear a d target code h k l m = ground arith

quotient_pos : (d k : ℕ) → 0 < k → k ≤ d → 0 < d / k
quotient_pos d k h l = (le-div_iff_mul-le h).1 (omega arith)

ticks_since_pos :
    (base d m : ℕ)
    → base < 2 ^ 32
    → 1785 ≤ d
    → d < 32768
    → m < 256
    → 0 < ticks_since ((base + d) % 2 ^ 32) base m
unfolding ticks_since
ticks_since_pos base d m h l u k = elim (ℕ_discrete m 0) [
  | yes z ↦ ground arith
  | no n ↦
      let delay : ((base + d) % 2 ^ 32 + 2 ^ 32 - base) % 65536 ≡ d = omega arith in
      rw (ticks_since, delay) (ground (arith, quotient_pos d (7 * m) (omega arith) (omega arith)))
]

-- What one reminder after such a wait does.
record Moves (g : Settings) (t t' : Throttle) (now : ℕ) : Type 0 where
  same_target : t'.target_speed ≡ t.target_speed
  bounded : Bounded g t'
  nearer :
      gap (normalize t'.speed_code) (normalize t'.target_speed)
      ≤ gap (normalize t.speed_code) (normalize t.target_speed) - 1
  timed : (t'.momentum_base ≡ now) ⊎ (t'.target_speed ≡ t'.speed_code)

gap_same : (a b : ℕ) → a ≡ b → gap (normalize b) (normalize a) ≡ 0
gap_same a b e = rw e (omega arith)

remind_same :
    (g : Settings) (t : Throttle) (now : ℕ) → t.target_speed ≡ t.speed_code → remind g t now ≡ t
unfolding remind
remind_same g t now e = ground arith

abbrev momentum : Settings → Throttle → ℕ
momentum g t =
    get_momentum g.default_a g.default_d g.linear t.momentum_a t.momentum_d t.target_speed
      t.speed_code

remind_moves :
    (g : Settings) (t : Throttle) (now : ℕ)
    → t.target_speed ≢ t.speed_code
    → 0 < ticks_since now t.momentum_base (momentum g t)
    → remind g t now ≡ record t {
      speed_code =
          ramp_code t.target_speed t.speed_code (ticks_since now t.momentum_base (momentum g t));
      momentum_base = now;
    }
unfolding remind
remind_moves g t now n p = ground arith

remind-Moves :
    (g : Settings) (t : Throttle) (d : ℕ)
    → Bounded g t
    → t.momentum_base < 2 ^ 32
    → 1785 ≤ d
    → d < 32768
    → let now = (t.momentum_base + d) % 2 ^ 32 in Moves g t (remind g t now) now
remind-Moves g t d b h l u =
    let now = (t.momentum_base + d) % 2 ^ 32 in
    let (da, dd, ts, sc, ma, md) = b in
    elim (ℕ_discrete t.target_speed t.speed_code) [
      | yes e ↦
          subst (λ t'. Moves g t t' now) (sym (remind_same g t now e))
            (record {
              same_target = refl;
              bounded = b;
              nearer = omega (arith, gap_same t.target_speed t.speed_code e);
              timed = inr e;
            })
      | no n ↦
          let p = ticks_since_pos t.momentum_base d (momentum g t) h l u (
            get_momentum-lt g.default_a g.default_d g.linear t.momentum_a t.momentum_d
              t.target_speed t.speed_code da dd ma md) in
          let k = ticks_since now t.momentum_base (momentum g t) in
          subst (λ t'. Moves g t t' now) (sym (remind_moves g t now n p))
            (record {
              same_target = refl;
              bounded = (da, dd, ts, ramp_code-lt t.target_speed t.speed_code k ts sc, ma, md);
              nearer = omega (arith, gap-ramp_code t.target_speed t.speed_code k ts sc, p);
              timed = inl refl;
            })
    ]

-- Once it has reached its target a loco stays there.
settled :
    (g : Settings) (t : Throttle) (now : ℕ) (ds : List ℕ)
    → t.target_speed ≡ t.speed_code
    → reminds g t now ds ≡ t
unfolding reminds
settled g t now [] e = refl
settled g t now (d ∷ ds) e =
    let later = (now + d) % 2 ^ 32 in
    ap (λ t'. reminds g t' later ds) (remind_same g t later e) ∙ settled g t later ds e

reaches :
    (g : Settings) (t : Throttle) (ds : List ℕ)
    → Bounded g t
    → t.momentum_base < 2 ^ 32
    → Paced ds
    → gap (normalize t.speed_code) (normalize t.target_speed) ≤ length ds
    → (reminds g t t.momentum_base ds).speed_code ≡ t.target_speed
unfolding reminds
reaches g t [] (da, dd, ts, sc, ma, md) h a k =
    sym (dccalize-normalize t.speed_code sc)
    ∙ ap dccalize (eq_of_parts _ _ (omega arith))
    ∙ dccalize-normalize t.target_speed ts
reaches g t (d ∷ ds) b h a k =
    let later = (t.momentum_base + d) % 2 ^ 32 in
    let m = remind-Moves g t d b h a.0.0 a.0.1 in
    let t' = remind g t later in
    elim m.timed [
      | inl e ↦
          ap (λ now. (reminds g t' now ds).speed_code) (sym e)
          ∙ reaches g t' ds m.bounded (omega (arith, e)) a.1 (omega (arith, m.nearer))
          ∙ m.same_target
      | inr e ↦ ap (λ r. r.speed_code) (settled g t' later ds e) ∙ sym e ∙ m.same_target
    ]

-- Whatever the momentum of a loco and whatever the settings, all of one byte, the reminders bring
-- its speed and direction to its target: 255 of them are enough, if each comes between 1785 and
-- 32767 milliseconds after the one before it, and the first as long after the time of the
-- momentum's base, a time of 32 bits.
pub reminds_reach :
    (g : Settings) (t : Throttle) (ds : List ℕ)
    → Bounded g t
    → t.momentum_base < 2 ^ 32
    → Paced ds
    → 255 ≤ length ds
    → (reminds g t t.momentum_base ds).speed_code ≡ t.target_speed
reminds_reach g t ds b h a l =
    reaches g t ds b h a
      (omega (arith, normalize-InScale t.speed_code b.3, normalize-InScale t.target_speed b.2))
