-- ===== src/Client/Ice/Bounds.antt =====
-- internal/client/ice.go: the exchange of candidates reads messages and gets no new ones.
use wani.Base.{ℕ, zero, suc, ◌≤◌, List, [], ◌∷◌, Bool, true, false, arith}
use wani.Protocol.Message.{Bytes, msg_ice_candidate}
use wani.Client.Signaling.{
  SignalingClient, Env, send_ice_candidate, read_ice_candidate, send_ice_credentials,
  read_ice_credentials, IceCredentials,
}
use wani.Client.Signaling.Bounds.{left, write_json-left, read_until-left, read_ice_credentials-left}
use wani.Client.Ice.{
  Agent, gather, send_local, send_candidates, add_candidate, next_candidate, read_candidates,
  read_remote, connect, gather_and_connect,
}

module _ (env : Env) where
  send_ice_candidate-left :
      (b : Bytes) (c : SignalingClient) → left (send_ice_candidate env b c).1 ≤ left c
  unfolding send_ice_candidate
  send_ice_candidate-left b c = write_json-left env _ c

  send_ice_credentials-left :
      (ufrag pwd : Bytes) (c : SignalingClient)
      → left (send_ice_credentials env ufrag pwd c).1 ≤ left c
  unfolding send_ice_credentials
  send_ice_credentials-left ufrag pwd c = write_json-left env _ c

  read_ice_candidate-left : (c : SignalingClient) → left (read_ice_candidate env c).1 ≤ left c
  unfolding read_ice_candidate
  read_ice_candidate-left c = grind (arith, read_until-left env msg_ice_candidate c)

  module _ {Conn : Type 0} (agent : Agent Conn) where
    send_candidates-left :
        (cs : List Bytes) (c : SignalingClient) → left (send_candidates env agent cs c).1 ≤ left c
    unfolding send_candidates
    send_candidates-left [] c = omega arith
    send_candidates-left (b ∷ cs) c =
        grind (arith, send_ice_candidate-left b, send_candidates-left cs)

    send_local-left :
        (cs : List Bytes) (c : SignalingClient) → left (send_local env agent cs c).1 ≤ left c
    unfolding send_local
    send_local-left cs c =
        grind
          (arith, send_ice_credentials-left, send_candidates-left cs, send_ice_candidate-left [])

    read_candidates-left :
        (fuel : ℕ) (added : List Bytes) (c : SignalingClient)
        → left (read_candidates env agent fuel added c).1 ≤ left c
    unfolding read_candidates next_candidate add_candidate
    read_candidates-left zero added c = omega arith
    read_candidates-left (suc fuel) added c =
        grind (arith, read_ice_candidate-left c, read_candidates-left fuel)

    read_remote-left : (c : SignalingClient) → left (read_remote env agent c).1 ≤ left c
    unfolding read_remote read_candidates
    read_remote-left c =
        let d = (read_ice_credentials env c).1 in
        grind (arith, read_ice_credentials-left env c, read_candidates-left (suc (left d)) [] d)

    connect-left :
        (controlling : Bool) (peer : IceCredentials × List Bytes) (c : SignalingClient)
        → left (connect env agent controlling peer c).1 ≤ left c
    unfolding connect
    connect-left true (peer, cs) c = ground arith
    connect-left false (peer, cs) c = ground arith

    pub gather_and_connect-left :
        (controlling : Bool) (c : SignalingClient)
        → left (gather_and_connect env agent controlling c).1 ≤ left c
    unfolding gather_and_connect gather
    gather_and_connect-left controlling c =
        grind (arith, send_local-left, read_remote-left, connect-left controlling)
