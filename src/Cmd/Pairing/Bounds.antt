-- ===== src/Cmd/Pairing/Bounds.antt =====
-- cmd/wani-client/main.go: the pairing phase of the sender reads messages and gets no new ones.
use wani.Base.{◌≤◌, Text, arith}
use wani.Identity.{Spake, new_ephemeral_identity}
use wani.Client.Signaling.{SignalingClient, Env}
use wani.Client.Signaling.Bounds.{left, exchange_spake2-left, ping_pong-left}
use wani.Cmd.Pairing.{new_identity, exchange, pair_sender}

module _ (env : Env) (sp : Spake) where
  pub pair_sender-left :
      (code : Text) (c : SignalingClient) → left (pair_sender env sp code c).1 ≤ left c
  unfolding pair_sender new_identity exchange new_ephemeral_identity
  pair_sender-left code c = grind (arith, exchange_spake2-left env sp, ping_pong-left env sp)
