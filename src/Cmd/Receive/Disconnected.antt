-- ===== src/Cmd/Receive/Disconnected.antt =====
-- cmd/wani-client/main.go: a run of `runReceive` that ends because the sender went away has come to
-- the files.
use wani.Base.{
  ◌≡◌, refl, sym, ap, ◌∙◌, ◌≢◌, false, List, [], ◌∷◌, none, Text, Dict, Result, ok, err, panic,
  wrap, Option-cases, inl, inr, err-injective, ok-injective, String, arith,
}
use wani.Base.State.{State, bind, lift, return, ◌>>=◌}
use wani.Protocol.Message.{Bytes, Manifest}
use wani.Identity.{Spake, EphemeralIdentity}
use wani.Client.Signaling.{SignalingClient}
use wani.Client.Quic.{listen_quic}
use wani.Client.Signaling.{join_session}
use wani.Client.Ice.{Agent, gather_and_connect}
use wani.Cmd.Pairing.{pair_receiver}
use wani.Client.Offer.{
  Json, Pipe, Desk, decoded, empty_desk, OfferM, put, check, stream_failed, make_dirs,
  effective_dir, receive_manifest,
}
use wani.Client.Transfer.Receive.{Env, load_resume_state}
use wani.Cmd.Receive.{
  ReceiveEnv, ReceiveFailure, Receiving, RunM, sender_disconnected, on_signaling, dial_server, pair,
  listen, establish, take_manifest, take_files, run_receive, not_paired, quic_failed, secret_of,
  establishing, tell_all, agent_failed, ice_failed, manifest_failed, join_failed,
}

bind-reached :
    {W E A B : Type 0} (m : Result E A × W) (f : A → State W E B) {b : B} {w : W}
    → bind m f ≡ (ok b, w)
    → (a : A) × (u : W) × (m ≡ (ok a, u)) × (f a u ≡ (ok b, w))
bind-reached (ok a, u) f h = (a, u, refl, h)
bind-reached (err e, u) f h = absurd cc
bind-reached (panic, u) f h = absurd cc

decoded-ok :
    {A : Type 0} (res : Result String A) {a : A} (d : Desk) {d' : Desk}
    → decoded res d ≡ (ok a, d')
    → res ≡ ok a
decoded-ok (ok a) d h = ap ok (ok-injective (ap (λ o. o.0) h))
decoded-ok (err e) d h = absurd cc
decoded-ok panic d h = absurd cc

-- An accepted manifest is the decoded one; its directory and what is completed follow from it.
receive_manifest-ok :
    (json : Json) (pipe : Pipe) (disk : Env) (mkdir_error : List Text → Text → _) (dest : Text)
    (fs : Dict Bytes) (d d' : Desk) (manifest : Manifest) (dir : Text) (completed : List Text)
    → receive_manifest json pipe disk mkdir_error dest fs d ≡ (ok (manifest, dir, completed), d')
    → (json.decode_manifest pipe.arrives ≡ ok manifest)
      × (dir ≡ effective_dir dest manifest)
      × (completed ≡ load_resume_state disk (effective_dir dest manifest) fs)
unfolding receive_manifest
receive_manifest-ok json pipe disk mkdir_error dest fs d d' manifest dir completed h =
    let found : Manifest → Manifest × Text × List Text =
      λ m. (m, effective_dir dest m, load_resume_state disk (effective_dir dest m) fs) in
    let reply : Manifest → OfferM (Unit {0}) = λ m.
      put pipe.write_error
        (json.encode_response (record { status = "ready"; completed = (found m).2 })) in
    let replied : Manifest → OfferM (Manifest × Text × List Text) =
      λ m. reply m >>= λ u. return (found m) in
    let prepare : Manifest → OfferM (Unit {0}) =
      λ m. make_dirs json pipe disk mkdir_error (effective_dir dest m) m.files in
    let prepared : Manifest → OfferM (Manifest × Text × List Text) =
      λ m. prepare m >>= λ u. replied m in
    let decode : OfferM Manifest = decoded (json.decode_manifest pipe.arrives) in
    let (_, d₁, _, h₁) =
      bind-reached (check stream_failed pipe.open_error d) (λ u. decode >>= prepared) h in
    let (m, d₂, read, h₂) = bind-reached (decode d₁) prepared h₁ in
    let (_, d₃, _, h₃) = bind-reached (prepare m d₂) (λ u. replied m) h₂ in
    let (_, _, _, h₄) = bind-reached (reply m d₃) (λ u. return (found m)) h₃ in
    let same = ok-injective (ap (λ o. o.0) h₄) in
    let named = ap (λ t. t.0) same in
    (
      decoded-ok (json.decode_manifest pipe.arrives) d₁ read ∙ ap ok named,
      sym (ap (λ t. t.1) same) ∙ ap (effective_dir dest) named,
      sym (ap (λ t. t.2) same) ∙ ap (λ m. load_resume_state disk (effective_dir dest m) fs) named,
    )

-- A stage changes no file and does not find that the sender has gone.
abbrev Keeps : {A : Type 0} → RunM A → Type 0
Keeps m = (r : Receiving) → ((m r).1.fs ≡ r.fs) × ((m r).0 ≢ err sender_disconnected)

reached :
    {A : Type 0} (m : RunM A) (f : A → RunM (Unit {0})) (r r' : Receiving)
    → Keeps m
    → (m >>= f) r ≡ (err sender_disconnected, r')
    → (a : A) × (w : Receiving) × (m r ≡ (ok a, w))
      × (w.fs ≡ r.fs)
      × (f a w ≡ (err sender_disconnected, r'))
reached {A} m f r r' keeps h = came (m r) refl h
  where
    came :
        (o : Result ReceiveFailure A × Receiving)
        → m r ≡ o
        → bind o f ≡ (err sender_disconnected, r')
        → (a : A) × (w : Receiving) × (m r ≡ (ok a, w))
          × (w.fs ≡ r.fs)
          × (f a w ≡ (err sender_disconnected, r'))
    came (ok a, w) e h = (a, w, e, sym (ap (λ o. o.1.fs) e) ∙ (keeps r).0, h)
    came (err x, w) e h =
        absurd ((keeps r).1 (ap (λ o. o.0) e ∙ ap err (err-injective (ap (λ o. o.0) h))))
    came (panic, w) e h = absurd cc

chain-Keeps :
    {A B : Type 0} (m : RunM A) (f : A → RunM B)
    → Keeps m
    → ((a : A) → Keeps (f a))
    → Keeps (m >>= f)
chain-Keeps {A} {B} m f first later r = go (m r) (first r)
  where
    go :
        (o : Result ReceiveFailure A × Receiving)
        → (o.1.fs ≡ r.fs) × (o.0 ≢ err sender_disconnected)
        → ((bind o f).1.fs ≡ r.fs) × ((bind o f).0 ≢ err sender_disconnected)
    go (ok a, w) (same, ne) = ((later a w).0 ∙ same, (later a w).1)
    go (err x, w) (same, ne) = (same, λ h. ne (ap err (err-injective h)))
    go (panic, w) (same, ne) = (same, λ h. cc)

wrap-ne :
    {E A : Type 0} (f : E → ReceiveFailure) (res : Result E A)
    → ((e : E) → f e ≢ sender_disconnected)
    → wrap f res ≢ err sender_disconnected
wrap-ne f (ok a) ne = λ h. cc
wrap-ne f (err e) ne = λ h. ne e (err-injective h)
wrap-ne f panic ne = λ h. cc

wrap-ok :
    {E A : Type 0} (f : E → ReceiveFailure) (res : Result E A) {a : A}
    → wrap f res ≡ ok a
    → res ≡ ok a
wrap-ok f (ok a) h = ap ok (ok-injective h)
wrap-ok f (err e) h = absurd cc
wrap-ok f panic h = absurd cc

module _ (sp : Spake) {Conn : Type 0} (env : ReceiveEnv Conn) where
  dial_server-Keeps : Keeps (dial_server sp env)
  dial_server-Keeps r = elim (Option-cases env.connect_error) [
    | inl e ↦ rw e (refl, λ h. cc)
    | inr (text, e) ↦ rw e (refl, λ h. cc)
  ]

  signaling-Keeps :
      {E A : Type 0} (f : E → ReceiveFailure) (m : State SignalingClient E A)
      → ((e : E) → f e ≢ sender_disconnected)
      → Keeps (on_signaling f m)
  signaling-Keeps f m ne r = (refl, wrap-ne f (m r.signaling).0 ne)

  pair-Keeps : (code : Text) → Keeps (pair sp env code)
  unfolding pair
  pair-Keeps code r =
      (refl, wrap-ne not_paired (pair_receiver env.signaling sp code r.signaling).0 (λ e h. cc))

  listen-Keeps : (key : Bytes) → Keeps (listen sp env key)
  unfolding listen
  listen-Keeps key r = (
    refl,
    wrap-ne quic_failed
        (listen_quic env.quic key (record { input = env.proof; written = []; closed = none })).0
        (λ e h. cc),
  )

  secret-Keeps : (id : EphemeralIdentity sp) → Keeps (lift (secret_of sp env id))
  secret-Keeps id r = (refl, ground arith)

  establish-Keeps : (id : EphemeralIdentity sp) → Keeps (establish sp env id)
  unfolding establish
  establish-Keeps id =
      let over : Conn → RunM (Unit {0}) = λ conn. lift (secret_of sp env id) >>= listen sp env in
      let joined : Agent Conn → RunM (Unit {0}) =
        λ agent. on_signaling ice_failed (gather_and_connect env.signaling agent false) >>= over in
      let begun : Unit {0} → RunM (Unit {0}) = λ u. lift (wrap agent_failed env.agent) >>= joined in
      chain-Keeps (tell_all (establishing ∷ [])) begun (λ r. (refl, λ h. cc))
        (λ u.
          chain-Keeps (lift (wrap agent_failed env.agent)) joined
            (λ r. (refl, wrap-ne agent_failed env.agent (λ e h. cc)))
            (λ agent.
              chain-Keeps (on_signaling ice_failed (gather_and_connect env.signaling agent false))
                over
                (signaling-Keeps ice_failed (gather_and_connect env.signaling agent false)
                  (λ e h. cc))
                (λ conn.
                  chain-Keeps (lift (secret_of sp env id)) (listen sp env) (secret-Keeps id)
                    listen-Keeps)))

  manifest-Keeps : (out_dir : Text) → Keeps (take_manifest sp env out_dir)
  unfolding take_manifest
  manifest-Keeps out_dir r = (
    refl,
    wrap-ne manifest_failed
        (receive_manifest env.json env.pipe env.disk env.mkdir_error out_dir r.fs empty_desk).0
        (λ e h. cc),
  )

  took :
      (out_dir : Text) (r w : Receiving) (manifest : Manifest) (dir : Text) (completed : List Text)
      → take_manifest sp env out_dir r ≡ (ok (manifest, dir, completed), w)
      → (env.json.decode_manifest env.pipe.arrives ≡ ok manifest)
        × (dir ≡ effective_dir out_dir manifest)
        × (completed ≡ load_resume_state env.disk (effective_dir out_dir manifest) r.fs)
  unfolding take_manifest
  took out_dir r w manifest dir completed h =
      let desk =
        (receive_manifest env.json env.pipe env.disk env.mkdir_error out_dir r.fs empty_desk).1 in
      receive_manifest-ok env.json env.pipe env.disk env.mkdir_error out_dir r.fs empty_desk desk
        manifest dir completed (ap (λ x. (x, desk)) (wrap-ok manifest_failed _ (ap (λ o. o.0) h)))

  taken_over :
      (out_dir : Text) (manifest : Manifest) (dir : Text) (completed : List Text) (w : Receiving)
      (fs : Dict Bytes) (o : Result ReceiveFailure (Unit {0}) × Receiving)
      → w.fs ≡ fs
      → dir ≡ effective_dir out_dir manifest
      → completed ≡ load_resume_state env.disk (effective_dir out_dir manifest) fs
      → take_files sp env out_dir (manifest, dir, completed) w ≡ o
      → let at = effective_dir out_dir manifest in
        take_files sp env out_dir (manifest, at, load_resume_state env.disk at w.fs) w ≡ o
  taken_over out_dir manifest dir completed w fs o same placed resumed h =
      let at = effective_dir out_dir manifest in
      ap (λ fs. take_files sp env out_dir (manifest, at, load_resume_state env.disk at fs) w) same
      ∙ ap (λ c. take_files sp env out_dir (manifest, at, c) w) (sym resumed)
      ∙ ap (λ d. take_files sp env out_dir (manifest, d, completed) w) (sym placed)
      ∙ h

  -- A run that ends so took a manifest and came to its files, with the disk as it was at first.
  pub run_receive-reached :
      (out_dir code : Text) (r r' : Receiving)
      → run_receive sp env out_dir code r ≡ (err sender_disconnected, r')
      → (manifest : Manifest) × (w w' : Receiving) × (env.json.decode_manifest env.pipe.arrives
          ≡ ok manifest)
        × (w.fs ≡ r.fs)
        × (r'.fs ≡ w'.fs)
        × (r'.printed ≡ w'.printed)
        × (take_files sp env out_dir
              (
                manifest,
                effective_dir out_dir manifest,
                load_resume_state env.disk (effective_dir out_dir manifest) w.fs,
              )
              w
            ≡ (err sender_disconnected, w'))
  unfolding run_receive
  run_receive-reached out_dir code r r' h =
      let (_, w₀, _, f₀, h₀) = reached (dial_server sp env) _ r r' dial_server-Keeps h in
      let (_, w₁, _, f₁, h₁) =
        reached (on_signaling join_failed (join_session env.signaling code)) _ w₀ r'
          (signaling-Keeps join_failed (join_session env.signaling code) (λ e x. cc)) h₀ in
      let (id, w₂, _, f₂, h₂) = reached (pair sp env code) _ w₁ r' (pair-Keeps code) h₁ in
      let (_, w₃, _, f₃, h₃) = reached (establish sp env id) _ w₂ r' (establish-Keeps id) h₂ in
      let w' = ((take_manifest sp env out_dir >>= take_files sp env out_dir) w₃).1 in
      let ((manifest, dir, completed), w, taken, f, h₄) =
        reached (take_manifest sp env out_dir) (take_files sp env out_dir) w₃ w'
          (manifest-Keeps out_dir) (ap (λ o. (o.0, w')) h₃) in
      let (read, placed, resumed) = took out_dir w₃ w manifest dir completed taken in
      (
        manifest,
        w,
        w',
        read,
        f ∙ f₃ ∙ f₂ ∙ f₁ ∙ f₀,
        sym (ap (λ o. o.1.fs) h₃),
        sym (ap (λ o. o.1.printed) h₃),
        taken_over out_dir manifest dir completed w w₃.fs _ f placed resumed h₄,
      )
