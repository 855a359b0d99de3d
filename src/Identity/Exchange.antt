-- ===== src/Identity/Exchange.antt =====
-- internal/identity/ephemeral.go: what `RunExchange` leaves in the identity.
use wani.Base.{◌≡◌, refl, ◌≢◌, ◌⊎◌, inr, none, some, arith, Result, ok}
use wani.Base.State.{State}
use wani.Protocol.Message.{Bytes}
use wani.Identity.{
  Role, role_sender, role_receiver, other_role, Spake, ExchangeError, EphemeralIdentity,
  shared_secret, run_sender, run_receiver, run_as, run_exchange,
}

module _ (sp : Spake) (W E : Type 0) (send : Bytes → State W E (Unit {0}))
    (recv : State W E Bytes) where
  -- The library gives no nil key without an error.
  abbrev pub GivesKey : Type 0
  GivesKey = (o : sp.Obj) → (sp.shared_key o).0 ≢ ok none

  -- The secret is set if the exchange succeeds, and only then.
  abbrev pub SecretIffOk :
      EphemeralIdentity sp
      → Result (ExchangeError E) (Unit {0}) × (W × EphemeralIdentity sp)
      → Type 0
  SecretIffOk e (r, (w, e')) =
      ((r ≡ ok tt) × ((key : Bytes) × (e'.secret ≡ some key)))
      ⊎ ((r ≢ ok tt) × (e'.secret ≡ e.secret))

  module _ (gives : GivesKey) where
    sender-secret :
        (w : W) (e : EphemeralIdentity sp) → SecretIffOk e (run_sender sp W E send recv (w, e))
    unfolding run_sender
    sender-secret w e = grind (arith, gives)

    receiver-secret :
        (w : W) (e : EphemeralIdentity sp) → SecretIffOk e (run_receiver sp W E send recv (w, e))
    unfolding run_receiver
    receiver-secret w e = grind (arith, gives)

    role-secret :
        (r : Role) (w : W) (e : EphemeralIdentity sp)
        → SecretIffOk e (run_as sp W E send recv r (w, e))
    unfolding run_as
    role-secret role_sender w e = sender-secret w e
    role-secret role_receiver w e = receiver-secret w e
    role-secret (other_role n) w e = inr (λ h. cc, refl)

  -- For every role and transport, and every SPAKE2 library that returns no nil key without an error:
  -- if `RunExchange` returns no error, the identity has a secret, so that `SharedSecret` returns it
  -- and does not panic; if it returns an error, the identity has the secret, or none, that it had
  -- before.
  pub run_exchange-secret :
      (w : W) (e : EphemeralIdentity sp)
      → GivesKey
      → let (r, (w', e')) = run_exchange sp W E send recv (w, e) in
        ((r ≡ ok tt) × ((key : Bytes) × (e'.secret ≡ some key) × (shared_secret sp e' ≡ ok key)))
        ⊎ ((r ≢ ok tt) × (e'.secret ≡ e.secret))
  unfolding run_exchange shared_secret
  run_exchange-secret w e gives = ground (arith, role-secret gives e.role w e)
