-- ===== src/Identity/Kept.antt =====
-- internal/identity/ephemeral.go: a measure of the transport that sending and receiving do not raise,
-- the exchange does not raise.
use wani.Base.{ℕ, ◌≤◌, arith}
use wani.Base.State.{State}
use wani.Protocol.Message.{Bytes}
use wani.Identity.{
  Role, role_sender, role_receiver, other_role, Spake, EphemeralIdentity, run_sender, run_receiver,
  run_as, run_exchange,
}

module _ (sp : Spake) (W E : Type 0) (send : Bytes → State W E (Unit {0})) (recv : State W E Bytes)
    (size : W → ℕ) (sends : (payload : Bytes) (w : W) → size (send payload w).1 ≤ size w)
    (receives : (w : W) → size (recv w).1 ≤ size w) where
  sender-keeps :
      (w : W) (id : EphemeralIdentity sp) → size (run_sender sp W E send recv (w, id)).1.0 ≤ size w
  unfolding run_sender
  sender-keeps w id = grind arith

  receiver-keeps :
      (w : W) (id : EphemeralIdentity sp)
      → size (run_receiver sp W E send recv (w, id)).1.0 ≤ size w
  unfolding run_receiver
  receiver-keeps w id = grind arith

  run_as-keeps :
      (r : Role) (w : W) (id : EphemeralIdentity sp)
      → size (run_as sp W E send recv r (w, id)).1.0 ≤ size w
  unfolding run_as
  run_as-keeps role_sender w id = sender-keeps w id
  run_as-keeps role_receiver w id = receiver-keeps w id
  run_as-keeps (other_role n) w id = omega arith

  pub run_exchange-keeps :
      (w : W) (id : EphemeralIdentity sp)
      → size (run_exchange sp W E send recv (w, id)).1.0 ≤ size w
  unfolding run_exchange
  run_exchange-keeps w id = run_as-keeps id.role w id
