-- ===== src/ProgTrack/Total.antt =====
-- DCC.cpp and DCCACK.cpp: no program runs off its end, whatever the decoder answers.
use command_station_ex_la_bo.ProgTrack.Programs.{
  write_bit0_prog, write_bit1_prog, programs, verify_bit0_prog, verify_bit1_prog, read_bit_prog,
  write_byte_prog, verify_byte_prog, read_cv_prog, loco_driveaway_prog, loco_read_id_prog,
  loco_read_consist_prog, short_loco_id_prog, consist_id_prog, long_loco_id_prog,
}
use command_station_ex_la_bo.Prelude.{
  ℕ, ◌≡◌, refl, sym, subst, ◌≢◌, inl, inr, Bool, true, false, not, ◌&&◌, ◌||◌, List, [], ◌∷◌, arith,
  Bool-cases, inr, All,
}
use command_station_ex_la_bo.ProgTrack.{
  callfail, combinelocoid, itskip, nakskip, combine1920, bad20skip, wait, go, send, skip, call,
  AckOp, Manager, is_target, exec, Turn,
}
use command_station_ex_la_bo.Prelude.Int.{ℤ}
use command_station_ex_la_bo.ProgTrack.Session.{
  back, Outcome, answered, session, after, session_turn,
}

-- The entries that may search for a SKIPTARGET, and those that always call back.
abbrev can_skip : AckOp → Bool
can_skip itskip = true
can_skip nakskip = true
can_skip bad20skip = true
can_skip _ = false

abbrev always_calls : AckOp → Bool
always_calls callfail = true
always_calls combinelocoid = true
always_calls combine1920 = true
always_calls _ = false

pub has_target : List AckOp → Bool
has_target [] = false
has_target (op ∷ ops) = is_target op || has_target ops

-- The last entry calls back, and every search finds its target.
pub closed : List AckOp → Bool
closed [] = false
closed (op ∷ []) = always_calls op
closed (op ∷ op' ∷ ops) = (not (can_skip op) || has_target (op' ∷ ops)) && closed (op' ∷ ops)

-- With nothing to wait for no entry waits; an entry searches only if it may; and some always call.
never_waits : (ack : Bool) (m : Manager) (op : AckOp) → exec (answered ack) m op ≢ wait
unfolding exec
never_waits ack m op = λ e. ground arith

skips_if :
    (ack : Bool) (m m' : Manager) (op : AckOp)
    → exec (answered ack) m op ≡ skip m'
    → can_skip op ≡ true
unfolding exec
skips_if ack m m' op e = ground arith

last_calls :
    (ack : Bool) (m : Manager) (op : AckOp)
    → always_calls op ≡ true
    → (m' : Manager) × (v : ℤ) × (exec (answered ack) m op ≡ call m' v)
unfolding exec
last_calls ack m callfail h = (m, _, refl)
last_calls ack m combinelocoid h = (m, _, refl)
last_calls ack m combine1920 h = (_, _, refl)
last_calls ack m op h = absurd (ground arith)

target_not_last : (op : AckOp) → always_calls op ≡ true → is_target op ≡ true → ⊥
target_not_last op h e = ground arith

module _ {S : Type 0} (respond : S → List ℕ → S × Bool) where
  abbrev pub CallsBack : Outcome S → Type 0
  CallsBack o = (s : S) × (m : Manager) × (v : ℤ) × (o ≡ back s m v)

  -- The search is over before the end.
  pub session_total :
      (skipping : Bool) (s : S) (ack : Bool) (m : Manager) (ops : List AckOp)
      → closed ops ≡ true
      → (skipping ≡ true → has_target ops ≡ true)
      → CallsBack (session respond skipping s ack m ops)
  unfolding session closed has_target
  session_total skipping s ack m [] c t = absurd (ground arith)
  session_total true s ack m (op ∷ []) c t = absurd (target_not_last op c (ground (arith, t refl)))
  session_total true s ack m (op ∷ op' ∷ ops) c t = elim (Bool-cases (is_target op)) [
    | inl e ↦
        rw (session, e)
          (session_total false s ack m (op' ∷ ops) (ground arith) (λ q. absurd (ground arith)))
    | inr e ↦
        rw (session, e)
          (session_total true s ack m (op' ∷ ops) (ground arith) (λ q. ground (arith, t refl)))
  ]
  session_total false s ack m (op ∷ []) c t =
      let (m', v, e) = last_calls ack m op c in (s, m', v, rw (session, e))
  session_total false s ack m (op ∷ op' ∷ ops) c t =
      turn (exec (answered ack) m op) refl
        (λ skipping s ack m t. session_total skipping s ack m (op' ∷ ops) (ground arith) t)
    where
      turn :
          (u : Turn)
          → exec (answered ack) m op ≡ u
          → ((skipping : Bool) (s : S) (ack : Bool) (m : Manager)
              → (skipping ≡ true → has_target (op' ∷ ops) ≡ true)
              → CallsBack (session respond skipping s ack m (op' ∷ ops)))
          → CallsBack (session respond false s ack m (op ∷ op' ∷ ops))
      turn u e ih = subst CallsBack (sym (session_turn respond s ack m op (op' ∷ ops) e)) (ends u e)
        where
          ends :
              (u : Turn)
              → exec (answered ack) m op ≡ u
              → CallsBack (after respond s ack (op' ∷ ops) u)
          ends wait e = absurd (never_waits ack m op e)
          ends (go m') e = ih false s ack m' (λ q. absurd (ground arith))
          ends (send m' packet) e =
              ih false (respond s packet).0 (respond s packet).1 m' (λ q. absurd (ground arith))
          ends (skip m') e = ih true s ack m' (λ q. ground (arith, skips_if ack m m' op e))
          ends (call m' v) e = (s, m', v, refl)

pub all_closed : All (λ prog. closed prog ≡ true) programs
unfolding closed has_target write_bit0_prog write_bit1_prog verify_bit0_prog verify_bit1_prog
    read_bit_prog write_byte_prog verify_byte_prog read_cv_prog loco_driveaway_prog
    loco_read_id_prog loco_read_consist_prog short_loco_id_prog consist_id_prog long_loco_id_prog
all_closed = (
  refl,
  (
    refl,
    (
      refl,
      (refl, (refl, (refl, (refl, (refl, (refl, (refl, (refl, (refl, (refl, (refl, tt))))))))))),
    ),
  ),
)

each-CallsBack :
    {S : Type 0} (respond : S → List ℕ → S × Bool) (s : S) (ack : Bool) (m : Manager)
    (progs : List (List AckOp))
    → All (λ prog. closed prog ≡ true) progs
    → All (λ prog. CallsBack respond (session respond false s ack m prog)) progs
each-CallsBack respond s ack m [] c = tt
each-CallsBack respond s ack m (prog ∷ progs) c = (
  session_total respond false s ack m prog c.0 (λ q. absurd (ground arith)),
  each-CallsBack respond s ack m progs c.1,
)

-- Whatever the decoder is and answers, and whatever the state before, each of the programs ends by a
-- callback, with no entry read behind its last one.
pub programs_call_back :
    {S : Type 0} (respond : S → List ℕ → S × Bool) (s : S) (ack : Bool) (m : Manager)
    → All (λ prog. CallsBack respond (session respond false s ack m prog)) programs
programs_call_back respond s ack m = each-CallsBack respond s ack m programs all_closed
