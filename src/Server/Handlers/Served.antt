-- ===== src/Server/Handlers/Served.antt =====
-- internal/server/ws.go: all that the server writes to two clients, from the first message on.
use wani.Base.{
  ℕ, suc, ◌+◌, none, ◌≡◌, refl, sym, ap, ◌∙◌, ◌≢◌, true, false, Bool, List, [], ◌∷◌, ◌++◌, Text,
  Result, ok, err, panic, pos, lookup, arith,
}
use wani.Protocol.Message.{
  SignalMessage, of_type, msg_create_session, msg_join_session, msg_session_created,
  msg_session_ready,
}
use wani.Protocol.Codes.{Rand, generate_code, validate_code}
use wani.Server.Store.{Conn}
use wani.Server.Store.Invariant.{IsValid}
use wani.Server.World.{Env, World, ServerError}
use wani.Server.Handlers.{Arrival, dispatch, handle_create_session, handle_join_session, finish}
use wani.Server.Handlers.Pairing.{IsReliable, paired}
use wani.Server.Handlers.Channel.{
  AllForPeer, sent_by, delivered, delivered-here, delivered-there, take, take_all,
  take_all-Forwards,
}

-- The messages with which the two clients begin.
abbrev pub creates : ℕ → Rand → Arrival
creates now rand = record { now = now; rand = rand; content = of_type msg_create_session }

abbrev pub joins : ℕ → Rand → Text → Arrival
joins now rand code = record {
  now = now;
  rand = rand;
  content = record (of_type msg_join_session) { code = code };
}

module _ (env : Env) (works : IsReliable env) (t₁ t₂ : ℕ) (rand rand' : Rand) where
  finish-ok :
      (now : ℕ) (conn : Conn) (o : Result ServerError (Unit {0}) × World)
      → o.0 ≡ ok tt
      → (finish env now conn o).0 ≡ o.1
  unfolding finish
  finish-ok now conn (ok u, w) h = refl
  finish-ok now conn (err e, w) h = cc
  finish-ok now conn (panic, w) h = cc

  take-creates :
      (x : Conn) (w : World)
      → (handle_create_session env t₁ rand x w).0 ≡ ok tt
      → take env works x (creates t₁ rand) w ≡ (handle_create_session env t₁ rand x w).1
  unfolding dispatch
  take-creates x w h = finish-ok t₁ x _ h

  take-joins :
      (y : Conn) (code : Text) (w : World)
      → (handle_join_session env t₂ y code w).0 ≡ ok tt
      → take env works y (joins t₂ rand' code) w ≡ (handle_join_session env t₂ y code w).1
  unfolding dispatch
  take-joins y code w h = finish-ok t₂ y _ h

  -- A client that creates a session is written the code and, once a second client has joined it, that
  -- the session is ready, and then the messages of the second client in their order; the second one
  -- is written that the session is ready and then the messages of the first. What the server had
  -- written before stays in front. The writes succeed, the store is valid, the two connections
  -- differ, the code is the one that is drawn, is not in use and passes `ValidateCode`, and behind
  -- the first two messages come only messages for the other client, in any order of the two.
  pub take_all-delivered :
      (x y : Conn) (code : Text) (events : List (Bool × Arrival)) (w : World)
      → IsValid w.store
      → x ≢ y
      → generate_code env.word_list.words rand (pos 4) ≡ ok code
      → lookup code w.store.sessions ≡ none
      → validate_code env.word_list.word_set code ≡ true
      → AllForPeer events
      → let w' =
          take_all env works x y
            ((true, creates t₁ rand) ∷ (false, joins t₂ rand' code) ∷ events)
            w in
        (delivered x w'.sent
          ≡ delivered x w.sent
            ++ record (of_type msg_session_created) { code = code }
              ∷ of_type msg_session_ready
              ∷ sent_by false events)
        × (delivered y w'.sent
            ≡ delivered y w.sent ++ of_type msg_session_ready ∷ sent_by true events)
  take_all-delivered x y code events w v ne made fresh valid h =
      let (c, j, sent, is_s, is_r) = paired env works t₁ t₂ rand x y w code v ne made fresh valid in
      let w₁ = (handle_create_session env t₁ rand x w).1 in
      let w₂ = (handle_join_session env t₂ y code w₁).1 in
      let f =
        take_all-Forwards env works x y (suc (x + y)) code w.store.next events w₂ is_s is_r ne
          (λ e. absurd (omega (arith, e))) (λ e. absurd (omega (arith, e))) h in
      let made_ : SignalMessage = record (of_type msg_session_created) { code = code } in
      let told = w.sent ++ record { to = x; content = made_ } ∷ [] in
      let told_y = told ++ record { to = y; content = of_type msg_session_ready } ∷ [] in
      let begun =
        ap (λ u. take_all env works x y events (take env works y (joins t₂ rand' code) u))
          (take-creates x w c)
        ∙ ap (take_all env works x y events) (take-joins y code w₁ j) in
      (
        ap (λ u. delivered x u.sent) begun
            ∙ f.to_sender
            ∙ ap (λ l. delivered x l ++ sent_by false events) sent
            ∙ delivered-here x (of_type msg_session_ready) told_y (sent_by false events)
            ∙ ap (λ d. d ++ of_type msg_session_ready ∷ sent_by false events)
                (delivered-there x y (of_type msg_session_ready) told (λ e. ne (sym e)))
            ∙ delivered-here x made_ w.sent (of_type msg_session_ready ∷ sent_by false events),
        ap (λ u. delivered y u.sent) begun
            ∙ f.to_receiver
            ∙ ap (λ l. delivered y l ++ sent_by true events) sent
            ∙ ap (λ d. d ++ sent_by true events)
                (delivered-there y x (of_type msg_session_ready) told_y ne)
            ∙ delivered-here y (of_type msg_session_ready) told (sent_by true events)
            ∙ ap (λ d. d ++ of_type msg_session_ready ∷ sent_by true events)
                (delivered-there y x made_ w.sent ne),
      )
