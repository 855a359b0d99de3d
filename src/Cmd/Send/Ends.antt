-- ===== src/Cmd/Send/Ends.antt =====
-- cmd/wani-client/main.go: the rounds allowed for the loop of `runSend`.
use wani.Base.{
  ℕ, zero, suc, ◌+◌, ◌<◌, ◌≤◌, ◌≡◌, ◌≢◌, refl, sym, ap, ◌∙◌, Bool, true, false, [], ◌∷◌, ◌++◌, Text,
  Result, ok, err, panic, length, arith, wrap, err-injective, ◌==◌,
}
use wani.Base.State.{bind-ne_err, ◌>>=◌, ◌>>◌}
use wani.Protocol.Message.{Manifest, ManifestResponse}
use wani.Identity.{Spake, EphemeralIdentity, shared_secret}
use wani.Client.Signaling.{SignalingClient, ClientError, create_session, wait_for_peer}
use wani.Client.Signaling.Bounds.{left, wait_for_peer-shorter}
use wani.Client.Ice.Bounds.{gather_and_connect-left}
use wani.Client.Manifest.{build_manifest}
use wani.Client.Transfer.Send.{SendError}
use wani.Cmd.Pairing.Bounds.{pair_sender-left}
use wani.Cmd.Send.{
  Attempt, SendEnv, Sending, RunM, SendFailure, out_of_fuel, waiting, on_signaling, wait_failure,
  tell, pair, dial, establish, ready, dial_server, session_failed, manifest_failed, scanning,
  pairing_code, sending, total_bytes, not_paired, unless_over, offer, judge, rejoin, transfer,
  round, rounds, run_send,
}

module _ (sp : Spake) {Conn : Type 0} (env : SendEnv Conn) where
  -- The messages that are left to read.
  abbrev rest : Sending → ℕ
  rest r = left r.signaling

  pair-left : (code : Text) (r : Sending) → rest (pair sp env code r).1 ≤ rest r
  unfolding pair
  pair-left code r = pair_sender-left env.signaling sp code r.signaling

  establish-left :
      (a : Attempt Conn) (id : EphemeralIdentity sp) (r : Sending)
      → rest (establish sp env a id r).1 ≤ rest r
  unfolding establish dial shared_secret
  establish-left a id r = grind (arith, gather_and_connect-left env.signaling)

  offer-left :
      (a : Attempt Conn) (manifest : Manifest) (r : Sending)
      → rest (offer sp env a manifest r).1 ≤ rest r
  unfolding offer ready
  offer-left a manifest r = grind arith

  judge-left :
      (code : Text) (a : Attempt Conn) (manifest : Manifest) (o : Result SendError (Unit {0}))
      (r : Sending)
      → rest (judge sp env code a manifest o r).1 ≤ rest r
  unfolding judge rejoin
  judge-left code a manifest (ok u) r = omega arith
  judge-left code a manifest (err e) r = grind arith
  judge-left code a manifest panic r = omega arith

  transfer-left :
      (path code : Text) (a : Attempt Conn) (manifest : Manifest) (resp : ManifestResponse)
      (r : Sending)
      → rest (transfer sp env path code a manifest resp r).1 ≤ rest r
  unfolding transfer
  transfer-left path code a manifest resp r = judge-left code a manifest _ _

  -- A round behind the wait.
  after_wait : Text → Text → Manifest → Attempt Conn → RunM Bool
  after_wait path code manifest a = do
    id ← pair sp env code
    establish sp env a id
    resp ← offer sp env a manifest
    transfer sp env path code a manifest resp

  after_wait-left :
      (path code : Text) (manifest : Manifest) (a : Attempt Conn) (r : Sending)
      → rest (after_wait path code manifest a r).1 ≤ rest r
  unfolding after_wait
  after_wait-left path code manifest a r = grind (
    arith,
    pair-left code r,
    establish-left a,
    offer-left a manifest,
    transfer-left path code a manifest,
  )

  round-after_wait :
      (path code : Text) (manifest : Manifest) (first_wait : Bool) (a : Attempt Conn) (r : Sending)
      (c : SignalingClient)
      → wait_for_peer env.signaling a.deadline r.signaling ≡ (ok tt, c)
      → round sp env path code manifest first_wait a r
        ≡ after_wait path code manifest a
            (record r { signaling = c; printed = r.printed ++ waiting ∷ [] })
  unfolding round after_wait
  round-after_wait path code manifest first_wait a r c e = rw e refl

  round-shorter :
      (path code : Text) (manifest : Manifest) (first_wait over : Bool) (a : Attempt Conn)
      (r w : Sending)
      → round sp env path code manifest first_wait a r ≡ (ok over, w)
      → rest w < rest r
  round-shorter path code manifest first_wait over a r w h =
      go (wait_for_peer env.signaling a.deadline r.signaling) refl
    where
      go :
          (o : Result ClientError (Unit {0}) × SignalingClient)
          → wait_for_peer env.signaling a.deadline r.signaling ≡ o
          → rest w < rest r
      go (ok u, c) e =
          let r' = record r { signaling = c; printed = r.printed ++ waiting ∷ [] } in
          let same : (after_wait path code manifest a r').1 ≡ w =
            ap (λ o. o.1) (sym (round-after_wait path code manifest first_wait a r c e) ∙ h) in
          omega (
            arith,
            ap rest same,
            after_wait-left path code manifest a r',
            wait_for_peer-shorter env.signaling a.deadline r.signaling c e,
          )
      go (err x, c) e = absurd (unfold round in ground (arith, h, e))
      go (panic, c) e = absurd (unfold round in ground (arith, h, e))

  wrapped :
      {E A : Type 0} (f : E → SendFailure) (r : Result E A)
      → ((e : E) → f e ≢ out_of_fuel)
      → wrap f r ≢ err out_of_fuel
  wrapped f (ok a) other = λ h. cc
  wrapped f (err e) other = λ h. other e (err-injective h)
  wrapped f panic other = λ h. cc

  establish-ne :
      (a : Attempt Conn) (id : EphemeralIdentity sp) (r : Sending)
      → (establish sp env a id r).0 ≢ err out_of_fuel
  unfolding establish dial shared_secret
  establish-ne a id r = grind arith

  offer-ne :
      (a : Attempt Conn) (manifest : Manifest) (r : Sending)
      → (offer sp env a manifest r).0 ≢ err out_of_fuel
  unfolding offer ready
  offer-ne a manifest r = grind arith

  judge-ne :
      (code : Text) (a : Attempt Conn) (manifest : Manifest) (o : Result SendError (Unit {0}))
      (r : Sending)
      → (judge sp env code a manifest o r).0 ≢ err out_of_fuel
  unfolding judge rejoin
  judge-ne code a manifest (ok u) r = λ h. cc
  judge-ne code a manifest (err e) r = grind arith
  judge-ne code a manifest panic r = λ h. cc

  wait_failure-ne :
      (first_wait : Bool) (code : Text) (e : ClientError)
      → wait_failure first_wait code e ≢ out_of_fuel
  wait_failure-ne true code e = λ h. cc
  wait_failure-ne false code e = λ h. cc

  round-ne :
      (path code : Text) (manifest : Manifest) (first_wait : Bool) (a : Attempt Conn) (r : Sending)
      → (round sp env path code manifest first_wait a r).0 ≢ err out_of_fuel
  unfolding round pair transfer
  round-ne path code manifest first_wait a r =
      bind-ne_err
        (on_signaling (wait_failure first_wait code) (wait_for_peer env.signaling a.deadline)
          (tell waiting r).1)
        _ out_of_fuel (wrapped (wait_failure first_wait code) _ (wait_failure-ne first_wait code))
        (λ u w e.
          bind-ne_err (pair sp env code w) _ out_of_fuel (wrapped not_paired _ (λ e h. cc))
            (λ id w e.
              bind-ne_err (establish sp env a id w) _ out_of_fuel (establish-ne a id w) (λ u w e.
                bind-ne_err (offer sp env a manifest w) _ out_of_fuel (offer-ne a manifest w)
                  (λ resp w e. judge-ne code a manifest _ _))))

  unless_over-ne :
      (loop : RunM (Unit {0})) (over : Bool) (w : Sending)
      → (loop w).0 ≢ err out_of_fuel
      → (unless_over sp env loop over w).0 ≢ err out_of_fuel
  unless_over-ne loop true w later = λ h. cc
  unless_over-ne loop false w later = later

  dial_server-ne : (r : Sending) → (dial_server sp env r).0 ≢ err out_of_fuel
  dial_server-ne r = ground arith

  rounds-ends :
      (path code : Text) (manifest : Manifest) (fuel n : ℕ) (r : Sending)
      → rest r < fuel
      → (rounds sp env path code manifest fuel n r).0 ≢ err out_of_fuel
  unfolding rounds
  rounds-ends path code manifest zero n r h = absurd (omega (arith, h))
  rounds-ends path code manifest (suc fuel) n r h =
      bind-ne_err (round sp env path code manifest (n == 0) (env.attempts n) r) _ out_of_fuel
        (round-ne path code manifest (n == 0) (env.attempts n) r)
        (λ over w e. unless_over-ne (rounds sp env path code manifest fuel (n + 1)) over w (
          rounds-ends path code manifest fuel (n + 1) w (
            omega
              (arith, h, round-shorter path code manifest (n == 0) over (env.attempts n) r w e))))

  -- The rounds that the model allows the loop of `runSend`, one more than there are messages of the
  -- server to read, are never used up. A read behind the last message fails in the model; in the
  -- code it fails once the connection does.
  pub run_send-ends : (path : Text) (r : Sending) → (run_send sp env path r).0 ≢ err out_of_fuel
  unfolding run_send
  run_send-ends path r =
      bind-ne_err (dial_server sp env r) _ out_of_fuel (dial_server-ne r) (λ u w e.
        bind-ne_err (on_signaling session_failed (create_session env.signaling) w) _ out_of_fuel
          (wrapped session_failed _ (λ e h. cc))
          (λ code w e.
            bind-ne_err
              (
                wrap manifest_failed (build_manifest env.hash path (env.look path)),
                announced code w,
              )
              _ out_of_fuel (wrapped manifest_failed _ (λ e h. cc))
              (λ manifest w e.
                rounds-ends path code manifest (suc (rest w)) 0
                  (tell (sending (length manifest.files) (total_bytes manifest.files)) w).1
                  (omega arith))))
    where
      announced : Text → Sending → Sending
      announced code w = (tell scanning (tell (pairing_code code) w).1).1
