-- ===== src/Client/Signaling/Bounds.antt =====
-- internal/client/signaling.go: how many messages are left to read.
use wani.Base.{
  ℕ, ◌<◌, ◌≤◌, ◌≡◌, refl, List, [], ◌∷◌, Option, String, Result, ok, err, panic, length, arith,
}
use wani.Protocol.Message.{Bytes, SignalMessage, msg_session_ready, msg_relay, msg_ice_credentials}
use wani.Identity.{Spake, EphemeralIdentity, shared_secret}
use wani.Identity.Kept.{run_exchange-keeps}
use wani.Client.Signaling.{
  read_ice_credentials, or_bad, SignalingClient, Env, ClientError, scan, read_until, write_json,
  send_relay, recv_relay, exchange_spake2, ping_pong, with_secret, wait_for_peer,
}

-- The messages that are left to read.
abbrev pub left : SignalingClient → ℕ
left c = length c.inbox

module _ (env : Env) where
  pub length-scan :
      (want : String) (ms : List SignalMessage) (m : SignalMessage) (rest : List SignalMessage)
      → scan env want ms ≡ (ok m, rest)
      → length rest < length ms
  unfolding scan
  length-scan want [] m rest h = cc
  length-scan want (n ∷ ms) m rest h = ground (arith, length-scan want ms m rest)

  scan-no_longer :
      (want : String) (ms : List SignalMessage) → length (scan env want ms).1 ≤ length ms
  unfolding scan
  scan-no_longer want [] = omega arith
  scan-no_longer want (m ∷ ms) = ground (arith, scan-no_longer want ms)

  pub write_json-left :
      (m : SignalMessage) (c : SignalingClient) → left (write_json env m c).1 ≤ left c
  unfolding write_json
  write_json-left m c = ground arith

  pub read_until-left :
      (want : String) (c : SignalingClient) → left (read_until env want c).1 ≤ left c
  unfolding read_until
  read_until-left want c = scan-no_longer want c.inbox

  send_relay-left :
      (payload : Bytes) (c : SignalingClient) → left (send_relay env payload c).1 ≤ left c
  unfolding send_relay
  send_relay-left payload c = write_json-left _ c

  recv_relay-left : (c : SignalingClient) → left (recv_relay env c).1 ≤ left c
  unfolding recv_relay
  recv_relay-left c = ground (arith, read_until-left msg_relay c)

  pub read_ice_credentials-left :
      (c : SignalingClient) → left (read_ice_credentials env c).1 ≤ left c
  unfolding read_ice_credentials or_bad
  read_ice_credentials-left c = grind (arith, read_until-left msg_ice_credentials c)

  read_until-shorter :
      (want : String) (c w : SignalingClient) (m : SignalMessage)
      → read_until env want c ≡ (ok m, w)
      → length w.inbox < length c.inbox
  unfolding read_until
  read_until-shorter want c w m h = ground (arith, h, length-scan want c.inbox m w.inbox (cc))

  pub wait_for_peer-shorter :
      (deadline : Option (Option String)) (c w : SignalingClient)
      → wait_for_peer env deadline c ≡ (ok tt, w)
      → length w.inbox < length c.inbox
  unfolding wait_for_peer
  wait_for_peer-shorter deadline c w h = go (read_until env msg_session_ready c) refl
    where
      go :
          (o : Result ClientError SignalMessage × SignalingClient)
          → read_until env msg_session_ready c ≡ o
          → length w.inbox < length c.inbox
      go (ok m, rest) e = ground (arith, h, e, read_until-shorter msg_session_ready c rest m e)
      go (err x, rest) e = absurd (ground (arith, h, e))
      go (panic, rest) e = absurd (ground (arith, h, e))

  module _ (sp : Spake) where
    pub exchange_spake2-left :
        (id : EphemeralIdentity sp) (c : SignalingClient)
        → left (exchange_spake2 env sp id c).1 ≤ left c
    unfolding exchange_spake2
    exchange_spake2-left id c =
        run_exchange-keeps sp SignalingClient ClientError (send_relay env) (recv_relay env) left
          send_relay-left recv_relay-left c id

    pub ping_pong-left :
        (id : EphemeralIdentity sp) (c : SignalingClient) → left (ping_pong env sp id c).1 ≤ left c
    unfolding ping_pong with_secret shared_secret
    ping_pong-left id c = grind (arith, send_relay-left, recv_relay-left)
