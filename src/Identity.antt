-- ===== src/Identity.antt =====
-- internal/identity/ephemeral.go: the identity derived from a SPAKE2 exchange.
-- The library github.com/backkem/spake2-go is the parameter `sp`. An identity holds the library's
-- object, which its methods change in place; a nil secret is `none`.
pub mod Exchange
pub mod Kept
use wani.Base.{ℕ, List, Option, none, some, String, Result, ok, err, panic, ℤ, wrap}
use wani.Base.State.{State, fail, modify, ◌>>=◌, ◌>>◌}
use wani.Protocol.Message.{Bytes}

-- `type Role int`, with two constants; any other number is an unknown role.
pub data Role : Type 0 where
  role_sender : Role
  role_receiver : Role
  other_role : ℤ → Role

-- The methods of `*spake2go.SPAKE2` that the program calls: each may fail with a text.
pub record Spake : Type 1 where
  pub Obj : Type 0
  pub new_client : Bytes → Obj
  pub new_server : Bytes → Obj
  pub start : State Obj String Bytes
  pub finish : Bytes → State Obj String Bytes
  pub verify : Bytes → State Obj String (Unit {0})
  pub exchange : Bytes → State Obj String Bytes
  pub confirm : Bytes → State Obj String Bytes
  -- The slice may be nil.
  pub shared_key : State Obj String (Option Bytes)

-- The step of the exchange that failed, with the transport's or the library's error.
pub data ExchangeError (E : Type 0) : Type 0 where
  transport : String → E → ExchangeError E
  library : String → String → ExchangeError E
  unknown_role : ExchangeError E

module _ (sp : Spake) where
  pub record EphemeralIdentity : Type 0 where
    pub role : Role
    pub spake : sp.Obj
    pub secret : Option Bytes

  unfoldable pub new_ephemeral_identity : Role → Bytes → Option EphemeralIdentity
  new_ephemeral_identity role_sender password =
      some (record { role = role_sender; spake = sp.new_client password; secret = none })
  new_ephemeral_identity role_receiver password =
      some (record { role = role_receiver; spake = sp.new_server password; secret = none })
  new_ephemeral_identity (other_role n) password = none

  -- `SharedSecret` panics if the secret is nil.
  unfoldable pub shared_secret : EphemeralIdentity → Result String Bytes
  shared_secret e = elim e.secret [ none ↦ panic | some key ↦ ok key ]

  -- An exchange runs over a transport with states `W` and errors `E`.
  module _ (W E : Type 0) where
    abbrev pub Run : Type 0 → Type 0
    Run A = State (W × EphemeralIdentity) (ExchangeError E) A

    abbrev pub over_transport : {A : Type 0} → String → State W E A → Run A
    over_transport step m s = let (r, w) = m s.0 in (wrap (transport step) r, (w, s.1))

    abbrev pub over_library : {A : Type 0} → String → State sp.Obj String A → Run A
    over_library step m s =
        let (r, o) = m s.1.spake in (wrap (library step) r, (s.0, record (s.1) { spake = o }))

    abbrev pub set_secret : Option Bytes → Run (Unit {0})
    set_secret key = modify λ s. (s.0, record (s.1) { secret = key })

    module _ (send : Bytes → State W E (Unit {0})) (recv : State W E Bytes) where
      unfoldable pub run_sender : Run (Unit {0})
      run_sender = do
        msg ← over_library "sender Start" sp.start
        over_transport "sender send Start" (send msg)
        server_msg ← over_transport "sender recv Exchange" recv
        confirm ← over_library "sender Finish" (sp.finish server_msg)
        over_transport "sender send Finish" (send confirm)
        server_confirm ← over_transport "sender recv Confirm" recv
        over_library "sender Verify" (sp.verify server_confirm)
        key ← over_library "sender SharedKey" sp.shared_key
        set_secret key

      unfoldable pub run_receiver : Run (Unit {0})
      run_receiver = do
        client_msg ← over_transport "receiver recv Start" recv
        server_msg ← over_library "receiver Exchange" (sp.exchange client_msg)
        over_transport "receiver send Exchange" (send server_msg)
        client_confirm ← over_transport "receiver recv Finish" recv
        server_confirm ← over_library "receiver Confirm" (sp.confirm client_confirm)
        over_transport "receiver send Confirm" (send server_confirm)
        key ← over_library "receiver SharedKey" sp.shared_key
        set_secret key

      run_as : Role → Run (Unit {0})
      run_as role_sender = run_sender
      run_as role_receiver = run_receiver
      run_as (other_role n) = fail unknown_role

      unfoldable pub run_exchange : Run (Unit {0})
      unfolding run_as
      run_exchange s = run_as s.1.role s
