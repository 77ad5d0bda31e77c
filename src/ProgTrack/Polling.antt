-- ===== src/ProgTrack/Polling.antt =====
-- DCCACK::loop and the session of a program: whatever the loop has to wait for, its calls add up to
-- the session.
use command_station_ex_la_bo.Prelude.{
  ◌≡◌, subst, sym, refl, ◌⊎◌, inl, inr, Bool, false, arith, Bool-cases, inr, List, ℕ, ◌∷◌, true, [],
}
use command_station_ex_la_bo.ProgTrack.{
  baseline, w0, w1, wb, vb, v0, v1, wack, wait, Poll, exec, Manager, AckOp, loop, Pass, Turn, waits,
  go, send, sends, calls, skip, is_target, call, runs_off,
}
use command_station_ex_la_bo.ProgTrack.Session.{
  answered, Outcome, session, off, back, after, session_turn,
}

-- A poll that does not make up an answer.
abbrev pub Honest : Bool → Poll → Type 0
Honest ack p = p.pending ≡ false → p.detected ≡ ack

-- Either an entry waits, or it does what it does when nothing is to be waited for.
exec-Honest :
    (p : Poll) (ack : Bool) (m : Manager) (op : AckOp)
    → Honest ack p
    → (exec p m op ≡ wait) ⊎ (exec p m op ≡ exec (answered ack) m op)
unfolding exec
exec-Honest p ack m baseline h = ground arith
exec-Honest p ack m wack h = elim (Bool-cases p.pending) [
  | inl e ↦ inl (rw (e, exec))
  | inr e ↦ inr (rw (e, h e, exec))
]
exec-Honest p ack m w0 h = ground arith
exec-Honest p ack m w1 h = ground arith
exec-Honest p ack m wb h = ground arith
exec-Honest p ack m vb h = ground arith
exec-Honest p ack m v0 h = ground arith
exec-Honest p ack m v1 h = ground arith
exec-Honest p ack m op h = inr refl

module _ {S : Type 0} (respond : S → List ℕ → S × Bool) where
  -- What is still to come after a call of the loop ends as the session ends.
  abbrev pub Follows : Outcome S → S → Bool → Pass → Type 0
  Follows o s ack (waits m ops) = o ≡ session respond false s ack m ops
  Follows o s ack (sends packet pass) = Follows o (respond s packet).0 (respond s packet).1 pass
  Follows o s ack (calls m ops v) = o ≡ back s m v
  Follows o s ack runs_off = o ≡ off

  loop_turn :
      (p : Poll) (m : Manager) (op : AckOp) (ops : List AckOp) {t : Turn}
      → exec p m op ≡ t
      → loop false p m (op ∷ ops) ≡ elim t as (λ x. Pass) [
        | wait ↦ waits m (op ∷ ops)
        | go m' ↦ loop false p m' ops
        | send m' packet ↦
            sends packet (loop false (record p { pending = true; detected = false }) m' ops)
        | skip m' ↦ loop true p m' ops
        | call m' v ↦ calls m' (op ∷ ops) v
      ]
  unfolding loop
  loop_turn p m op ops e = rw (e, loop)

  turn-Follows :
      (p : Poll) (s : S) (ack : Bool) (m : Manager) (op : AckOp) (ops : List AckOp)
      → Honest ack p
      → ((skipping : Bool) (p : Poll) (s : S) (ack : Bool) (m : Manager)
          → Honest ack p
          → Follows (session respond skipping s ack m ops) s ack (loop skipping p m ops))
      → (t : Turn) → exec (answered ack) m op ≡ t
      → exec p m op ≡ t
      → Follows (session respond false s ack m (op ∷ ops)) s ack (loop false p m (op ∷ ops))
  turn-Follows p s ack m op ops h ih t e f =
      subst (λ o. Follows o s ack (loop false p m (op ∷ ops)))
        (sym (session_turn respond s ack m op ops e))
        (subst (Follows (after respond s ack ops t) s ack) (sym (loop_turn p m op ops f))
          (both t e))
    where
      both :
          (t : Turn)
          → exec (answered ack) m op ≡ t
          → Follows (after respond s ack ops t) s ack (elim t as (λ x. Pass) [
            | wait ↦ waits m (op ∷ ops)
            | go m' ↦ loop false p m' ops
            | send m' packet ↦
                sends packet (loop false (record p { pending = true; detected = false }) m' ops)
            | skip m' ↦ loop true p m' ops
            | call m' v ↦ calls m' (op ∷ ops) v
          ])
      both wait e = sym (session_turn respond s ack m op ops e)
      both (go m') e = ih false p s ack m' h
      both (send m' packet) e =
          ih false (record p { pending = true; detected = false }) (respond s packet).0
            (respond s packet).1 m' (λ q. absurd (ground arith))
      both (skip m') e = ih true p s ack m' h
      both (call m' v) e = refl

  -- One call of the loop, at any entry, with any poll that does not make up an answer: what it sends,
  -- what it calls back and what it leaves for the next call are those of the session.
  pub loop-Follows :
      (skipping : Bool) (p : Poll) (s : S) (ack : Bool) (m : Manager) (ops : List AckOp)
      → Honest ack p
      → Follows (session respond skipping s ack m ops) s ack (loop skipping p m ops)
  unfolding session loop
  loop-Follows skipping p s ack m [] h = refl
  loop-Follows true p s ack m (op ∷ ops) h = elim (Bool-cases (is_target op)) [
    | inl e ↦ rw (session, loop, e) (loop-Follows false p s ack m ops h)
    | inr e ↦ rw (session, loop, e) (loop-Follows true p s ack m ops h)
  ]
  loop-Follows false p s ack m (op ∷ ops) h = elim (exec-Honest p ack m op h) [
    | inl e ↦
        subst (Follows (session respond false s ack m (op ∷ ops)) s ack)
          (sym (loop_turn p m op ops e)) refl
    | inr e ↦
        turn-Follows p s ack m op ops h
          (λ skipping p s ack m h. loop-Follows skipping p s ack m ops h) (exec (answered ack) m op)
          refl e
  ]
