-- ===== src/Client/Ice/Fuel.antt =====
-- internal/client/ice.go: the rounds allowed for the loop over the candidates of the peer.
use wani.Base.{
  ℕ, zero, suc, ◌<◌, ◌≡◌, refl, sym, ap, subst, ◌∙◌, ◌≢◌, inl, inr, Option-cases, Bool, true, false,
  List, [], ◌∷◌, Result, ok, err, panic, length, arith, wrap,
}
use wani.Base.State.{bind-ne_err, within}
use wani.Protocol.Message.{Bytes, SignalMessage, msg_ice_candidate}
use wani.Client.Signaling.{
  SignalingClient, Env, ClientError, scan, read_until, read_ice_candidate, send_ice_candidate,
  send_ice_credentials, read_ice_credentials, IceCredentials,
}
use wani.Client.Signaling.Bounds.{length-scan}
use wani.Client.Ice.{
  Agent, IceM, out_of_fuel, signaling_failed, gather, send_local, send_candidates, add_candidate,
  next_candidate, read_candidates, read_remote, connect, gather_and_connect,
}

module _ (env : Env) where
  read_ice_candidate-shorter :
      (c w : SignalingClient) (raw : Bytes)
      → within signaling_failed (read_ice_candidate env) c ≡ (ok raw, w)
      → length w.inbox < length c.inbox
  unfolding read_ice_candidate read_until
  read_ice_candidate-shorter c w raw h = go (scan env msg_ice_candidate c.inbox) refl
    where
      go :
          (o : Result ClientError SignalMessage × List SignalMessage)
          → scan env msg_ice_candidate c.inbox ≡ o
          → length w.inbox < length c.inbox
      go (ok m, rest) e = ground (arith, h, e, length-scan env msg_ice_candidate c.inbox m rest e)
      go (err x, rest) e = absurd (ground (arith, h, e))
      go (panic, rest) e = absurd (ground (arith, h, e))

  wrapped : {A : Type 0} (r : Result ClientError A) → wrap signaling_failed r ≢ err out_of_fuel
  wrapped (ok a) = λ h. cc
  wrapped (err e) = λ h. cc
  wrapped panic = λ h. cc

  module _ {Conn : Type 0} (agent : Agent Conn) where
    add_candidate-ne :
        (added : List Bytes) (raw : Bytes) (c : SignalingClient)
        → (add_candidate env agent added raw c).0 ≢ err out_of_fuel
    unfolding add_candidate
    add_candidate-ne added raw c = ground arith

    add_candidate-inbox :
        (added : List Bytes) (raw : Bytes) (c : SignalingClient)
        → (add_candidate env agent added raw c).1 ≡ c
    unfolding add_candidate
    add_candidate-inbox added raw c = ground arith

    next_candidate-fuel :
        (added : List Bytes) (loop : List Bytes → IceM (List Bytes)) (raw : Bytes)
        (w : SignalingClient)
        → ((more : List Bytes) → (loop more w).0 ≢ err out_of_fuel)
        → (next_candidate env agent added loop raw w).0 ≢ err out_of_fuel
    unfolding next_candidate
    next_candidate-fuel added loop [] w later = λ h. cc
    next_candidate-fuel added loop (b ∷ bs) w later =
        bind-ne_err (add_candidate env agent added (b ∷ bs) w) loop out_of_fuel
          (add_candidate-ne added (b ∷ bs) w)
          (λ more w' e.
            subst (λ q. (loop more q).0 ≢ err out_of_fuel)
              (sym (add_candidate-inbox added (b ∷ bs) w) ∙ ap (λ q. q.1) e) (later more))

    read_candidates-fuel :
        (fuel : ℕ) (added : List Bytes) (c : SignalingClient)
        → length c.inbox < fuel
        → (read_candidates env agent fuel added c).0 ≢ err out_of_fuel
    unfolding read_candidates
    read_candidates-fuel zero added c h = absurd (omega arith)
    read_candidates-fuel (suc fuel) added c h =
        bind-ne_err (within signaling_failed (read_ice_candidate env) c) _ out_of_fuel
          (wrapped (read_ice_candidate env c).0)
          (λ raw w e. next_candidate-fuel added (read_candidates env agent fuel) raw w (λ more.
            read_candidates-fuel fuel more w
              (omega (arith, h, read_ice_candidate-shorter c w raw e))))

    gather-ne : (c : SignalingClient) → (gather env agent c).0 ≢ err out_of_fuel
    unfolding gather
    gather-ne c = ground arith

    send_candidates-ne :
        (cs : List Bytes) (c : SignalingClient)
        → (send_candidates env agent cs c).0 ≢ err out_of_fuel
    unfolding send_candidates
    send_candidates-ne [] c = λ h. cc
    send_candidates-ne (b ∷ cs) c =
        bind-ne_err (within signaling_failed (send_ice_candidate env b) c) _ out_of_fuel
          (wrapped (send_ice_candidate env b c).0) (λ u w e. send_candidates-ne cs w)

    send_local-ne :
        (cs : List Bytes) (c : SignalingClient) → (send_local env agent cs c).0 ≢ err out_of_fuel
    unfolding send_local
    send_local-ne cs c = elim (Option-cases agent.credentials) [
      | inl missing ↦ rw missing (λ h. cc)
      | inr (own, e) ↦ rw e (
          bind-ne_err (within signaling_failed (send_ice_credentials env own.ufrag own.pwd) c) _
            out_of_fuel (wrapped (send_ice_credentials env own.ufrag own.pwd c).0)
            (λ u w e.
              bind-ne_err (send_candidates env agent cs w) _ out_of_fuel (send_candidates-ne cs w)
                (λ u w' e. wrapped (send_ice_candidate env [] w').0)))
    ]

    read_remote-ne : (c : SignalingClient) → (read_remote env agent c).0 ≢ err out_of_fuel
    unfolding read_remote
    read_remote-ne c =
        bind-ne_err (within signaling_failed (read_ice_credentials env) c) _ out_of_fuel
          (wrapped (read_ice_credentials env c).0)
          (λ peer w e.
            bind-ne_err (read_candidates env agent (suc (length w.inbox)) [] w) _ out_of_fuel
              (read_candidates-fuel (suc (length w.inbox)) [] w (omega arith)) (λ cs w' e. λ h. cc))

    connect-ne :
        (controlling : Bool) (peer : IceCredentials × List Bytes) (c : SignalingClient)
        → (connect env agent controlling peer c).0 ≢ err out_of_fuel
    unfolding connect
    connect-ne true (peer, cs) c = ground arith
    connect-ne false (peer, cs) c = ground arith

    -- The rounds that the model allows the loop over the candidates of the peer, one more than there
    -- are messages to read, are never used up. A read behind the last message fails in the model; in
    -- the code it fails once the connection does.
    pub gather_and_connect-ends :
        (controlling : Bool) (c : SignalingClient)
        → (gather_and_connect env agent controlling c).0 ≢ err out_of_fuel
    unfolding gather_and_connect
    gather_and_connect-ends controlling c =
        bind-ne_err (gather env agent c) _ out_of_fuel (gather-ne c) (λ cs w e.
          bind-ne_err (send_local env agent cs w) _ out_of_fuel (send_local-ne cs w) (λ u w' e.
            bind-ne_err (read_remote env agent w') _ out_of_fuel (read_remote-ne w')
              (λ peer w'' e. connect-ne controlling peer w'')))
