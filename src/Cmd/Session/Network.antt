-- ===== src/Cmd/Session/Network.antt =====
-- cmd/wani-client/main.go and internal/server/ws.go: the two commands and the server between them.
use wani.Base.{
  ℕ, ◌≡◌, sym, subst, none, All, ◌++◌, ap, ◌∙◌, ◌≢◌, true, false, Bool, List, [], ◌∷◌, Text, Dict,
  ok, pos, lookup, String, Option,
}
use wani.Protocol.Message.{
  Bytes, SignalMessage, of_type, msg_session_ready, msg_create_session, msg_join_session,
}
use wani.Protocol.Codes.{Rand, generate_code, validate_code}
use wani.Identity.{Spake}
use wani.Client.Manifest.{Entries}
use wani.Client.Offer.{Json}
use wani.Client.Transfer.Receive.{Env as DiskEnv}
use wani.Client.Transfer.Send.{SourceEnv}
use wani.Server.Store.{Conn}
use wani.Server.Store.Invariant.{IsValid}
use wani.Server.World.{World, Env}
use wani.Server.Handlers.{Arrival}
use wani.Server.Handlers.Pairing.{IsReliable}
use wani.Server.Handlers.Channel.{
  IsPlainRelay, sent_by, contents_by, sent_by-plain, plain-AllForPeer, delivered, take_all,
}
use wani.Server.Handlers.Served.{creates, joins, take_all-delivered}
use wani.Cmd.Session.{Completed, Side, created}

tails : {a b : SignalMessage} {l m : List SignalMessage} → a ∷ l ≡ b ∷ m → l ≡ m
tails h = cc

-- The signaling of a session that completes, over the server: the messages that the two commands
-- write reach it, first the two that create and join the session and then the others in any order of
-- the two sides; its writes succeed, and it has written nothing to either client before, which have
-- two connections; its store is valid, and the code is the one that it draws, is not in use and
-- passes `ValidateCode`. Then what it writes to each client is all that the client was given to read
-- in the session.
pub session_network :
    {C : Type 0} (sp : Spake) (here there : Side C) (json : Json) (disk : DiskEnv)
    (source : SourceEnv) (mkdir_error : List Text → Text → Option String) (es : Entries)
    (code root out_dir : Text) (fs : Dict Bytes)
    (session : Completed sp here there json disk source mkdir_error es code root out_dir fs)
    (env : Env) (works : IsReliable env) (t₁ t₂ : ℕ) (rand rand' : Rand) (x y : Conn)
    (events : List (Bool × Arrival)) (w : World)
    → IsValid w.store
    → x ≢ y
    → delivered x w.sent ≡ []
    → delivered y w.sent ≡ []
    → generate_code env.word_list.words rand (pos 4) ≡ ok code
    → lookup code w.store.sessions ≡ none
    → validate_code env.word_list.word_set code ≡ true
    → of_type msg_create_session ∷ contents_by true events ≡ session.sending.signaling.outbox
    → record (of_type msg_join_session) { code = code } ∷ contents_by false events
      ≡ session.receiving.signaling.outbox
    → let w' =
        take_all env works x y
          ((true, creates t₁ rand) ∷ (false, joins t₂ rand' code) ∷ events)
          w in
      (delivered x w'.sent ≡ created code ∷ of_type msg_session_ready ∷ session.to_sender)
      × (delivered y w'.sent ≡ of_type msg_session_ready ∷ session.to_receiver)
session_network sp here there json disk source mkdir_error es code root out_dir fs session env works
      t₁ t₂ rand rand' x y events w v ne new_x new_y made fresh valid out back =
    let sent : contents_by true events ≡ session.to_receiver =
      tails (out ∙ ap (λ c. c.outbox) session.sender_signals) in
    let sent' : contents_by false events ≡ session.to_sender =
      tails (back ∙ ap (λ c. c.outbox) session.receiver_signals) in
    let plain = subst (All IsPlainRelay) (sym sent) session.plain_out in
    let plain' = subst (All IsPlainRelay) (sym sent') session.plain_back in
    let (to_x, to_y) =
      take_all-delivered env works t₁ t₂ rand rand' x y code events w v ne made fresh valid
        (plain-AllForPeer events plain plain') in
    (
      to_x
          ∙ ap (λ l. l ++ created code ∷ of_type msg_session_ready ∷ sent_by false events) new_x
          ∙ ap (λ l. created code ∷ of_type msg_session_ready ∷ l)
              (sent_by-plain false events plain' ∙ sent'),
      to_y
          ∙ ap (λ l. l ++ of_type msg_session_ready ∷ sent_by true events) new_y
          ∙ ap (λ l. of_type msg_session_ready ∷ l) (sent_by-plain true events plain ∙ sent),
    )
