-- ===== src/ProgTrack/Session.antt =====
-- A program together with a decoder: every packet is answered before the next entry. The decoder is
-- any state with a function that gives its next state and whether it acknowledges.
use command_station_ex_la_bo.Prelude.{ℕ, Bool, true, false, List, [], ◌∷◌, ◌≡◌, subst, refl}
use command_station_ex_la_bo.ProgTrack.{
  wait, go, send, skip, call, Poll, Manager, AckOp, is_target, exec, Turn,
}
use command_station_ex_la_bo.Prelude.Int.{ℤ}

-- The resets have been sent, and the ack check is over with this answer.
abbrev pub answered : Bool → Poll
answered ack = record { overload = false; resets = 20; pending = false; detected = ack }

-- How a run through a program ends: with a callback, or behind the end of the array.
pub data Outcome (S : Type 0) : Type 0 where
  back : S → Manager → ℤ → Outcome S
  off : Outcome S

module _ {S : Type 0} (respond : S → List ℕ → S × Bool) where
  -- `ack` is the answer to the last packet.
  unfoldable pub session : Bool → S → Bool → Manager → List AckOp → Outcome S
  session skipping s ack m [] = off
  session true s ack m (op ∷ ops) = elim (is_target op) [
    | true ↦ session false s ack m ops
    | false ↦ session true s ack m ops
  ]
  session false s ack m (op ∷ ops) = elim (exec (answered ack) m op) [
    | wait ↦ off
    | go m' ↦ session false s ack m' ops
    | send m' packet ↦ session false (respond s packet).0 (respond s packet).1 m' ops
    | skip m' ↦ session true s ack m' ops
    | call m' v ↦ back s m' v
  ]

  -- What follows an entry that ends so.
  abbrev pub after : S → Bool → List AckOp → Turn → Outcome S
  after s ack ops wait = off
  after s ack ops (go m') = session false s ack m' ops
  after s ack ops (send m' packet) = session false (respond s packet).0 (respond s packet).1 m' ops
  after s ack ops (skip m') = session true s ack m' ops
  after s ack ops (call m' v) = back s m' v

  pub session_turn :
      (s : S) (ack : Bool) (m : Manager) (op : AckOp) (ops : List AckOp) {t : Turn}
      → exec (answered ack) m op ≡ t
      → session false s ack m (op ∷ ops) ≡ after s ack ops t
  unfolding session
  session_turn s ack m op ops {t} e =
      subst (λ u. session false s ack m (op ∷ ops) ≡ after s ack ops u) e
        (whole (exec (answered ack) m op))
    where
      whole :
          (u : Turn)
          → (elim u as (λ x. Outcome S) [
            | wait ↦ off
            | go m' ↦ session false s ack m' ops
            | send m' packet ↦ session false (respond s packet).0 (respond s packet).1 m' ops
            | skip m' ↦ session true s ack m' ops
            | call m' v ↦ back s m' v
          ])
            ≡ after s ack ops u
      whole wait = refl
      whole (go m') = refl
      whole (send m' packet) = refl
      whole (skip m') = refl
      whole (call m' v) = refl
