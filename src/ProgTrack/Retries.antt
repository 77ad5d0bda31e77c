-- ===== src/ProgTrack/Retries.antt =====
-- DCCACK.cpp: the entry that calls back is executed at each call of `loop` until the value is given;
-- and the automatic retry.
use command_station_ex_la_bo.ProgTrack.Return.{
  is_fail, callback, LastTry, retried, again, postponed, retries, finished, Return, settle_ends,
}
use command_station_ex_la_bo.ProgTrack.Total.{closed, session_total}
use command_station_ex_la_bo.ProgTrack.Session.{
  Outcome, session, back, off, after, session_turn, answered,
}
use command_station_ex_la_bo.Prelude.Int.{ℤ}
use command_station_ex_la_bo.ProgTrack.{
  Turn, Manager, exec, call, CallbackState, Poll, AckOp, go, send, skip, wait, is_target,
}
use command_station_ex_la_bo.Prelude.{
  ℕ, ◌≡◌, Bool, Option, none, some, arith, List, ◌∙◌, suc, ◌∷◌, false, true, Bool-cases, ◌<◌, inl,
  ◌&&◌, inr, ltb, subst, zero, sym, [], refl, ap,
}

abbrev pub value_of : Turn → Option ℤ
value_of (call m v) = some v
value_of _ = none

abbrev pub state_of : Manager → Turn → Manager
state_of m (call m' v) = m'
state_of m _ = m

-- What `callback` changes while it postpones.
abbrev pub meanwhile : Manager → CallbackState → ℕ → Bool → Manager
meanwhile m state start power = record m {
  callback_state = state;
  callback_start = start;
  power = power;
}

-- An entry that has called back calls back with the same value when it is executed again, whatever
-- the poll and whatever the callback has meanwhile done to its state, its clock and the power.
pub called_again :
    (p p' : Poll) (m : Manager) (op : AckOp) (state : CallbackState) (start : ℕ) (power : Bool)
    (v : ℤ)
    → value_of (exec p m op) ≡ some v
    → value_of (exec p' (meanwhile (state_of m (exec p m op)) state start power) op) ≡ some v
unfolding exec
called_again p p' m op state start power v e = ground (arith, e)

-- What no entry changes.
abbrev Kept : Manager → Manager → Type 0
Kept m m' = (m'.start ≡ m.start) × (m'.retry ≡ m.retry)

abbrev KeptBy : Manager → Turn → Type 0
KeptBy m wait = Unit
KeptBy m (go m') = Kept m m'
KeptBy m (send m' packet) = Kept m m'
KeptBy m (skip m') = Kept m m'
KeptBy m (call m' v) = Kept m m'

exec_keeps : (p : Poll) (m : Manager) (op : AckOp) (t : Turn) → exec p m op ≡ t → KeptBy m t
unfolding exec
exec_keeps p m op wait e = tt
exec_keeps p m op (go m') e = ground (arith, e)
exec_keeps p m op (send m' packet) e = ground (arith, e)
exec_keeps p m op (skip m') e = ground (arith, e)
exec_keeps p m op (call m' v) e = ground (arith, e)

module _ {S : Type 0} (respond : S → List ℕ → S × Bool) where
  abbrev OutcomeKept : Manager → Outcome S → Type 0
  OutcomeKept m (back s m' v) = Kept m m'
  OutcomeKept m off = Unit

  onward : (o : Outcome S) (m m' : Manager) → Kept m m' → OutcomeKept m' o → OutcomeKept m o
  onward (back s m'' v) m m' k k' = (k'.0 ∙ k.0, k'.1 ∙ k.1)
  onward off m m' k k' = tt

  session_keeps :
      (skipping : Bool) (s : S) (ack : Bool) (m : Manager) (ops : List AckOp)
      → OutcomeKept m (session respond skipping s ack m ops)
  unfolding session
  session_keeps skipping s ack m [] = tt
  session_keeps true s ack m (op ∷ ops) = elim (Bool-cases (is_target op)) [
    | inl e ↦ rw (session, e) (session_keeps false s ack m ops)
    | inr e ↦ rw (session, e) (session_keeps true s ack m ops)
  ]
  session_keeps false s ack m (op ∷ ops) =
      subst (OutcomeKept m) (sym (session_turn respond s ack m op ops refl)) (
        turn (exec (answered ack) m op) (exec_keeps (answered ack) m op _ refl)
          (λ skipping s m'. session_keeps skipping s ack m' ops)
          (λ s ack m'. session_keeps false s ack m' ops))
    where
      turn :
          (t : Turn)
          → KeptBy m t
          → ((skipping : Bool) (s : S) (m' : Manager)
              → OutcomeKept m' (session respond skipping s ack m' ops))
          → ((s : S) (a : Bool) (m' : Manager) → OutcomeKept m' (session respond false s a m' ops))
          → OutcomeKept m (after respond s ack ops t)
      turn wait k ih ih' = tt
      turn (go m') k ih ih' = onward _ m m' k (ih false s m')
      turn (send m' packet) k ih ih' =
          onward _ m m' k (ih' (respond s packet).0 (respond s packet).1 m')
      turn (skip m') k ih ih' = onward _ m m' k (ih true s m')
      turn (call m' v) k ih ih' = k

  -- The program from its start, as often as `callback` asks for it, at most so many times.
  unfoldable pub tries : ℕ → ℕ → S → Bool → Manager → Option (S × Manager × ℤ)
  tries now zero s ack m = none
  tries now (suc fuel) s ack m = elim (session respond false s ack m m.start) [
    | off ↦ none
    | back s' m' v ↦ elim (callback now m' v) [
      | retried m'' ↦ tries now fuel s' ack m''
      | postponed m'' ↦ some (s', m', v)
      | finished m'' v' ↦ some (s', m', v)
    ]
  ]

  abbrev pub EndsTries : Option (S × Manager × ℤ) → Type 0
  EndsTries o = (s' : S) × (m' : Manager) × (v : ℤ) × (o ≡ some (s', m', v)) × LastTry m' v

  tries_on :
      (now fuel : ℕ) (s s' : S) (ack : Bool) (m m' m'' : Manager) (v : ℤ)
      → session respond false s ack m m.start ≡ back s' m' v
      → callback now m' v ≡ retried m''
      → tries now (suc fuel) s ack m ≡ tries now fuel s' ack m''
  unfolding tries
  tries_on now fuel s s' ack m m' m'' v e f = rw (tries, e, f) refl

  tries_end :
      (now fuel : ℕ) (s s' : S) (ack : Bool) (m m' : Manager) (v : ℤ)
      → session respond false s ack m m.start ≡ back s' m' v
      → LastTry m' v
      → tries now (suc fuel) s ack m ≡ some (s', m', v)
  unfolding tries
  tries_end now fuel s s' ack m m' v e h = ends (callback now m' v) refl
    where
      ends : (u : Return) → callback now m' v ≡ u → tries now (suc fuel) s ack m ≡ some (s', m', v)
      ends (retried m'') f = absurd (settle_ends now m' m'' v h f)
      ends (postponed m'') f = rw (tries, e, f) refl
      ends (finished m'' v') f = rw (tries, e, f) refl

  -- For a program whose last entry calls back and whose searches find a target, and any decoder: with
  -- more tries than the retries that are set, the program comes to a callback that asks for no further
  -- retry: what it tells is another value than -1, or no retry is left.
  pub retries_end :
      (now fuel : ℕ) (s : S) (ack : Bool) (m : Manager)
      → closed m.start ≡ true
      → m.retry < fuel
      → EndsTries (tries now fuel s ack m)
  retries_end now zero s ack m c h = absurd (omega arith)
  retries_end now (suc fuel) s ack m c h =
      let (s', m', v, e) =
        session_total respond false s ack m m.start c (λ q. absurd (ground arith)) in
      let (start, retry) = subst (OutcomeKept m) e (session_keeps false s ack m m.start) in
      elim (Bool-cases (is_fail v && ltb 0 m'.retry)) [
        | inl f ↦
            subst EndsTries
              (sym (tries_on now fuel s s' ack m m' (again m') v e (retries now m' v f)))
              (retries_end now fuel s' ack (again m') (ap closed start ∙ c)
                (ground (arith, f, retry, h)))
        | inr f ↦ (s', m', v, tries_end now fuel s s' ack m m' v e f, f)
      ]
