-- ===== src/Tests.antt =====
-- Tests of the client with a toy SPAKE2 library, and the theorems at concrete inputs.
use wani.Base.{◌≡◌, refl, ◌≢◌, ◌⊎◌, List, [], ◌∷◌, ◌++◌, none, some, Text, codes, text_eq, ok}
use wani.Protocol.Message.{
  Bytes, SignalMessage, of_type, msg_relay, msg_session_ready, msg_session_created,
}
use wani.Identity.{role_sender, Spake, EphemeralIdentity, run_exchange, shared_secret}
use wani.Identity.Exchange.{run_exchange-secret}
use wani.Client.Signaling.{
  SignalingClient, Env, ClientError, scan, create_session, write_json, read_until, send_relay,
  recv_relay,
}
use wani.Client.Signaling.Handshake.{relay, Honest}
use wani.Cmd.Pairing.{pair_sender, pair_receiver}
use wani.Client.Signaling.Dialogue.{dialogue}
use wani.Cmd.Pairing.Agreement.{sender_writes, receiver_writes, pairing_agreement}

-- Both sides answer with fixed bytes and share the password.
abbrev pub toy : Spake
toy = record {
  Obj = Bytes;
  new_client = λ pw. pw;
  new_server = λ pw. pw;
  start = λ o. (ok (1 ∷ []), o);
  finish = λ m o. (ok (3 ∷ []), o);
  verify = λ m o. (ok tt, o);
  exchange = λ m o. (ok (2 ∷ []), o);
  confirm = λ m o. (ok (4 ∷ []), o);
  shared_key = λ o. (ok (some o), o);
}

abbrev pub pw : Text
pw = codes "owl-owl-owl-owl"

abbrev pub toy_run : Honest toy pw
toy_run = record {
  hello = 1 ∷ [];
  answer = 2 ∷ [];
  client_confirm = 3 ∷ [];
  server_confirm = 4 ∷ [];
  key = pw;
  client₁ = pw;
  client₂ = pw;
  client₃ = pw;
  client₄ = pw;
  server₁ = pw;
  server₂ = pw;
  server₃ = pw;
  started = refl;
  exchanged = refl;
  finished = refl;
  confirmed = refl;
  verified = refl;
  client_key = refl;
  server_key = refl;
}

abbrev env : Env
env = record {
  wire = λ sent m. none;
  closed = "closed";
  hmac = λ key label. key ++ label;
  marshal = λ c. c.ufrag ++ 0 ∷ c.pwd;
  unmarshal = λ b. none;
}

abbrev sender : EphemeralIdentity toy
sender = record { role = role_sender; spake = pw; secret = none }

abbrev paired : EphemeralIdentity toy
paired = record { role = role_sender; spake = pw; secret = some pw }

abbrev inbox : List SignalMessage
inbox = of_type msg_session_ready ∷ relay (2 ∷ []) ∷ relay (4 ∷ []) ∷ []

scan_skips : scan env msg_relay inbox ≡ (ok (relay (2 ∷ [])), relay (4 ∷ []) ∷ [])
unfolding scan
scan_skips = refl

create_test :
    create_session env
      (record { inbox = record (of_type msg_session_created) { code = pw } ∷ []; outbox = [] })
    ≡ (ok pw, record { inbox = []; outbox = of_type "create_session" ∷ [] })
unfolding create_session write_json read_until scan text_eq
create_test = refl

run_exchange-secret_example :
    let (r, (w', e')) =
      run_exchange toy SignalingClient ClientError
        (send_relay env)
        (recv_relay env)
        (record { inbox = inbox; outbox = [] }, sender) in
    ((r ≡ ok tt) × ((key : Bytes) × (e'.secret ≡ some key) × (shared_secret toy e' ≡ ok key)))
    ⊎ ((r ≢ ok tt) × (e'.secret ≡ none))
run_exchange-secret_example =
    run_exchange-secret toy SignalingClient ClientError (send_relay env) (recv_relay env)
      (record { inbox = inbox; outbox = [] }) sender (λ o h. cc)

pairing_agreement_example :
    (to_sender : List SignalMessage) × (to_receiver : List SignalMessage) × (is : EphemeralIdentity
      toy)
    × (ir : EphemeralIdentity toy) × (pair_sender env toy pw
          (record { inbox = to_sender; outbox = [] })
        ≡ (ok is, record { inbox = []; outbox = to_receiver }))
    × (pair_receiver env toy pw (record { inbox = to_receiver; outbox = [] })
        ≡ (ok ir, record { inbox = []; outbox = to_sender }))
    × (dialogue 6 (sender_writes env toy pw) (receiver_writes env toy pw)
        ≡ (to_sender, to_receiver))
    × (is.secret ≡ some pw)
    × (ir.secret ≡ some pw)
pairing_agreement_example =
    pairing_agreement toy pw env env (λ sent m. refl) (λ sent m. refl) refl toy_run
