-- ===== src/Cmd/Pairing.antt =====
-- cmd/wani-client/main.go: the pairing phase of `runSend` and `runReceive`, from the identity to
-- "Paired successfully!". Each returns the identity, whose secret protects the transfer.
pub mod Rounds
pub mod Agreement
pub mod Bounds
use wani.Base.{Option, none, some, Text, Result, ok, err, panic, wrap}
use wani.Base.State.{State, ◌>>=◌, ◌>>◌, fail, return, within}
use wani.Identity.{
  Role, role_sender, role_receiver, Spake, EphemeralIdentity, new_ephemeral_identity,
}
use wani.Client.Signaling.{
  SignalingClient, Env, ClientError, exchange_spake2, ping_pong, wait_and_pong,
}

pub data PairingError : Type 0 where
  identity_failed : PairingError
  spake2_failed : ClientError → PairingError
  ping_pong_failed : ClientError → PairingError

map_ok : {E A B : Type 0} → (A → B) → Result E A → Result E B
map_ok f (ok a) = ok (f a)
map_ok f (err e) = err e
map_ok f panic = panic

module _ (env : Env) (sp : Spake) where
  abbrev pub M : Type 0 → Type 0
  M A = State SignalingClient PairingError A

  new_identity : Role → Text → M (EphemeralIdentity sp)
  new_identity role code c = elim (new_ephemeral_identity sp role code) [
    | none ↦ (err identity_failed, c)
    | some id ↦ (ok id, c)
  ]

  -- `sc.ExchangeSPAKE2(id)`: the identity is changed in place.
  exchange : EphemeralIdentity sp → M (EphemeralIdentity sp)
  unfolding map_ok
  exchange id c =
      let (r, c', id') = exchange_spake2 env sp id c in
      (map_ok (λ _. id') (wrap spake2_failed r), c')

  unfoldable pub pair_sender : Text → M (EphemeralIdentity sp)
  unfolding new_identity exchange
  pair_sender code = do
    id ← new_identity role_sender code
    id' ← exchange id
    within ping_pong_failed (ping_pong env sp id')
    return id'

  unfoldable pub pair_receiver : Text → M (EphemeralIdentity sp)
  unfolding new_identity exchange
  pair_receiver code = do
    id ← new_identity role_receiver code
    id' ← exchange id
    within ping_pong_failed (wait_and_pong env sp id')
    return id'
