-- ===== src/Client/Signaling.antt =====
-- internal/client/signaling.go: the client's connection to the signaling server.
-- The connection (github.com/gorilla/websocket) is what the server still sends it, `inbox`, and
-- what it has written, `outbox`, oldest first. Behind the last message a read fails, with the text
-- `closed`; whether a write fails is up to `wire`, which may depend on what was written before.
-- HMAC-SHA256 and the JSON of the credentials are parameters too.
pub mod Connecting
pub mod Reading
pub mod Handshake
pub mod Dialogue
pub mod Bounds
use wani.Base.{
  ℕ, ◌≡◌, Bool, List, [], ◌∷◌, ◌++◌, Option, none, some, String, Text, Result, ok, err, panic, wrap,
  codes, text_eq, if◌then◌else◌, str_eq, not,
}
use wani.Base.State.{State, return, fail, lift, bind, ◌>>=◌, ◌>>◌, within}
use wani.Protocol.Message.{
  Bytes, SignalMessage, of_type, msg_create_session, msg_join_session, msg_relay, msg_ice_candidate,
  msg_ice_credentials, msg_session_created, msg_session_ready, msg_error,
}
use wani.Identity.{
  Spake, EphemeralIdentity, ExchangeError, transport, library, unknown_role, shared_secret,
  run_exchange,
}

pub record SignalingClient : Type 0 where
  pub inbox : List SignalMessage
  pub outbox : List SignalMessage

pub record IceCredentials : Type 0 where
  pub ufrag : Text
  pub pwd : Text

pub record Env : Type 0 where
  pub wire : List SignalMessage → SignalMessage → Option String
  pub closed : String
  pub hmac : Bytes → Bytes → Bytes
  pub marshal : IceCredentials → Bytes
  pub unmarshal : Bytes → Option IceCredentials

pub data ClientError : Type 0 where
  -- "<step>: %w"
  step : String → ClientError → ClientError
  read_failed : String → ClientError
  write_failed : String → ClientError
  deadline_failed : String → ClientError
  server_error : String → ClientError
  empty_code : ClientError
  bad_credentials : ClientError
  hmac_mismatch : ClientError
  library_failed : String → String → ClientError
  bad_role : ClientError

-- The error of the package identity, under the client's.
abbrev pub of_exchange : ExchangeError ClientError → ClientError
of_exchange (transport at e) = step "signaling.ExchangeSPAKE2" (step at e)
of_exchange (library at text) = step "signaling.ExchangeSPAKE2" (library_failed at text)
of_exchange unknown_role = step "signaling.ExchangeSPAKE2" bad_role

abbrev pub M : Type 0 → Type 0
M A = State SignalingClient ClientError A

abbrev pub ping_label : Bytes
ping_label = codes "wani-ping"

abbrev pub pong_label : Bytes
pong_label = codes "wani-pong"

or_bad : Option IceCredentials → M IceCredentials
or_bad none = fail bad_credentials
or_bad (some creds) = return creds

module _ (env : Env) where
  unfoldable pub write_json : SignalMessage → M (Unit {0})
  write_json m c = elim (env.wire c.outbox m) [
    | none ↦ (ok tt, record c { outbox = c.outbox ++ m ∷ [] })
    | some text ↦ (err (write_failed text), c)
  ]

  -- The loop of `readUntil`, over the messages to come: the result, and those not read yet.
  unfoldable pub scan :
      String → List SignalMessage → Result ClientError SignalMessage × List SignalMessage
  scan want [] = (err (read_failed env.closed), [])
  scan want (m ∷ ms) =
      let later = scan want ms in
      if str_eq m.type msg_error
      then (err (server_error m.message), ms)
      else if str_eq m.type want
      then (ok m, ms)
      else later

  unfoldable pub read_until : String → M SignalMessage
  read_until want c = let (r, rest) = scan want c.inbox in (r, record c { inbox = rest })

  unfoldable pub create_session : M Text
  create_session = do
    within (step "signaling.CreateSession: send") (write_json (of_type msg_create_session))
    m ← within (step "signaling.CreateSession") (read_until msg_session_created)
    if text_eq m.code [] then fail empty_code else return m.code

  unfoldable pub join_session : Text → M (Unit {0})
  join_session code = do
    within (step "signaling.JoinSession: send")
        (write_json (record (of_type msg_join_session) { code = code }))
    _ ← within (step "signaling.JoinSession") (read_until msg_session_ready)
    return tt

  -- The context has no deadline (`none`), or setting it succeeds or fails with a text.
  unfoldable pub wait_for_peer : Option (Option String) → M (Unit {0})
  wait_for_peer (some (some text)) =
      fail (step "signaling.WaitForPeer: set deadline" (deadline_failed text))
  wait_for_peer deadline = do
    _ ← within (step "signaling.WaitForPeer") (read_until msg_session_ready)
    return tt

  unfoldable pub send_relay : Bytes → M (Unit {0})
  send_relay payload = write_json (record (of_type msg_relay) { payload = payload })

  unfoldable pub recv_relay : M Bytes
  recv_relay = do m ← read_until msg_relay; return m.payload

  unfoldable pub send_ice_candidate : Bytes → M (Unit {0})
  send_ice_candidate candidate =
      within (step "signaling.SendICECandidate")
        (write_json (record (of_type msg_ice_candidate) { payload = candidate }))

  unfoldable pub read_ice_candidate : M Bytes
  read_ice_candidate = do
    m ← within (step "signaling.ReadICECandidate") (read_until msg_ice_candidate)
    return m.payload

  unfoldable pub send_ice_credentials : Text → Text → M (Unit {0})
  send_ice_credentials ufrag pwd = within (step "signaling.SendICECredentials: send") (
      write_json (record (of_type msg_ice_credentials) {
        payload = env.marshal (record { ufrag = ufrag; pwd = pwd });
      }))

  unfoldable pub read_ice_credentials : M IceCredentials
  unfolding or_bad
  read_ice_credentials = do
    m ← within (step "signaling.ReadICECredentials") (read_until msg_ice_credentials)
    or_bad (env.unmarshal m.payload)

  module _ (sp : Spake) where
    -- `id.RunExchange(send, recv)`, with the closures wired to relay messages.
    unfoldable pub exchange_spake2 :
        EphemeralIdentity sp
        → SignalingClient
        → Result ClientError (Unit {0}) × SignalingClient × EphemeralIdentity sp
    exchange_spake2 id c =
        let (r, s) = run_exchange sp SignalingClient ClientError send_relay recv_relay (c, id) in
        (wrap of_exchange r, s.0, s.1)

    -- A handler of a secret; asking for it before the exchange panics.
    with_secret : EphemeralIdentity sp → (Bytes → M (Unit {0})) → M (Unit {0})
    unfolding shared_secret
    with_secret id f c = elim (shared_secret sp id) [
      | ok key ↦ f key c
      | err e ↦ (panic, c)
      | panic ↦ (panic, c)
    ]

    unfoldable pub ping_pong : EphemeralIdentity sp → M (Unit {0})
    unfolding with_secret
    ping_pong id = with_secret id λ key. do
      within (step "signaling.PingPong: send ping") (send_relay (env.hmac key ping_label))
      answer ← within (step "signaling.PingPong: recv pong") recv_relay
      if text_eq answer (env.hmac key pong_label) then return tt else fail hmac_mismatch

    unfoldable pub wait_and_pong : EphemeralIdentity sp → M (Unit {0})
    unfolding with_secret
    wait_and_pong id = with_secret id λ key. do
      ping ← within (step "signaling.WaitAndPong: recv ping") recv_relay
      if text_eq ping (env.hmac key ping_label)
          then within (step "signaling.WaitAndPong: send pong")
              (send_relay (env.hmac key pong_label))
          else fail hmac_mismatch
