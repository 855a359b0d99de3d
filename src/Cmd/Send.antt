-- ===== src/Cmd/Send.antt =====
-- cmd/wani-client/main.go: `runSend` behind the flags. What each round of its loop meets, from the
-- wait for a receiver to the ping after a transfer that broke off, is an `Attempt`. A deadline is
-- what it makes fail; the terminal is the list `printed`, without the progress bars. The deferred
-- calls that close the signaling connection and release contexts are left out.
pub mod Stages
pub mod Ends
use wani.Base.{
  ℕ, zero, suc, ◌+◌, Bool, true, false, List, [], ◌∷◌, ◌++◌, Option, none, some, String, Text,
  Result, ok, err, panic, wrap, length, ◌==◌, ltb, str_eq, if◌then◌else◌,
}
use wani.Base.State.{State, return, fail, lift, modify, ◌>>=◌, ◌>>◌}
use wani.Protocol.Message.{Bytes, FileEntry, Manifest, ManifestResponse}
use wani.Identity.{Spake, EphemeralIdentity, shared_secret}
use wani.Client.Signaling.{
  SignalingClient, ClientError, create_session, wait_for_peer, Env as SignalingEnv,
}
use wani.Client.Ice.{Agent, IceError, gather_and_connect}
use wani.Client.Quic.{HandshakeError, Close, dial_quic, is_peer_closed_error, Env as QuicEnv}
use wani.Client.Manifest.{Node, ManifestError, build_manifest}
use wani.Client.Offer.{Json, Pipe, OfferError, empty_desk, send_manifest}
use wani.Client.Transfer.Send.{
  Reply, Sender, SendError, SourceEnv, stream_failed, write_failed, close_failed, answer_failed,
  send_files,
}
use wani.Cmd.Pairing.{PairingError, identity_failed, spake2_failed, ping_pong_failed, pair_sender}

pub data Notice : Type 0 where
  pairing_code : Text → Notice
  scanning : Notice
  sending : ℕ → ℕ → Notice
  waiting : Notice
  pairing_failed : Notice
  paired : Notice
  establishing : Notice
  resuming : ℕ → Notice
  complete : ℕ → Notice
  disconnected : Text → Notice

pub data SendFailure : Type 0 where
  connect_failed : String → SendFailure
  session_failed : ClientError → SendFailure
  manifest_failed : ManifestError → SendFailure
  nobody_accepted : Text → SendFailure
  not_reconnected : Text → SendFailure
  not_paired : PairingError → SendFailure
  agent_failed : String → SendFailure
  ice_failed : IceError → SendFailure
  quic_failed : HandshakeError → SendFailure
  offer_failed : OfferError → SendFailure
  not_ready : String → SendFailure
  transfer_failed : SendError → SendFailure
  signaling_lost : SendFailure
  -- Not an error of the code: the fuel of the model has run out.
  out_of_fuel : SendFailure

-- `proof` is what the peer writes to the first stream of the QUIC connection, `pipe` the stream of
-- the manifest, `replies` those of the files.
pub record Attempt (Conn : Type 0) : Type 0 where
  pub deadline : Option (Option String)
  pub agent : Result String (Agent Conn)
  pub quic : QuicEnv
  pub proof : Bytes
  pub pipe : Pipe
  pub replies : List Reply
  pub ping_error : Option String

-- `look` is what is on disk at a path.
pub record SendEnv (Conn : Type 0) : Type 0 where
  pub signaling : SignalingEnv
  pub json : Json
  pub hash : Bytes → ℕ
  pub look : Text → Result String Node
  pub source : SourceEnv
  pub connect_error : Option String
  pub attempts : ℕ → Attempt Conn

-- `transfers` holds how each transfer ended, `closes` the calls of `CloseWithError`, `wrote`
-- what went to the first stream and to that of the manifest, round by round.
pub record Sending : Type 0 where
  pub signaling : SignalingClient
  pub printed : List Notice
  pub transfers : List (Result SendError (Unit {0}) × Sender)
  pub closes : List Close
  pub wrote : List Bytes

abbrev pub RunM : Type 0 → Type 0
RunM A = State Sending SendFailure A

abbrev pub tell : Notice → RunM (Unit {0})
tell n r = (ok tt, record r { printed = r.printed ++ n ∷ [] })

abbrev pub on_signaling : {E A : Type 0} → (E → SendFailure) → State SignalingClient E A → RunM A
on_signaling f m r = let (res, c) = m r.signaling in (wrap f res, record r { signaling = c })

abbrev pub close_done : Sending → Sending
close_done r = record r { closes = r.closes ++ record { code = 0; reason = "done" } ∷ [] }

abbrev pub total_bytes : List FileEntry → ℕ
total_bytes [] = 0
total_bytes (e ∷ es) = e.size + total_bytes es

-- `IsPeerClosedError` of an error of `SendFiles`: only what the connection returned counts.
unfoldable pub peer_closed : SendError → Bool
peer_closed (stream_failed e) = is_peer_closed_error (some e)
peer_closed (write_failed e) = is_peer_closed_error (some e)
peer_closed (close_failed e) = is_peer_closed_error (some e)
peer_closed (answer_failed e) = is_peer_closed_error (some e)
peer_closed _ = false

abbrev pub pairing_notice : {A : Type 0} → Result PairingError A → List Notice
pairing_notice (ok a) = paired ∷ []
pairing_notice (err identity_failed) = []
pairing_notice (err (spake2_failed e)) = pairing_failed ∷ []
pairing_notice (err (ping_pong_failed e)) = pairing_failed ∷ []
pairing_notice panic = []

abbrev pub resuming_notice : ManifestResponse → List Notice
resuming_notice resp =
    if ltb 0 (length resp.completed) then resuming (length resp.completed) ∷ [] else []

abbrev pub option_list : {A : Type 0} → Option A → List A
option_list none = []
option_list (some a) = a ∷ []

abbrev pub wait_failure : Bool → Text → ClientError → SendFailure
wait_failure first_wait code e = if first_wait then nobody_accepted code else not_reconnected code

module _ (sp : Spake) {Conn : Type 0} (env : SendEnv Conn) where
  unfoldable pub pair : Text → RunM (EphemeralIdentity sp)
  pair code r =
      let (res, c) = pair_sender env.signaling sp code r.signaling in
      (wrap not_paired res, record r { signaling = c; printed = r.printed ++ pairing_notice res })

  -- `id.SharedSecret()`, which panics where there is none.
  abbrev pub secret_of : EphemeralIdentity sp → Result SendFailure Bytes
  secret_of id = elim (shared_secret sp id) [ ok key ↦ ok key | err e ↦ panic | panic ↦ panic ]

  unfoldable pub dial : Attempt Conn → Bytes → RunM (Unit {0})
  dial a key r =
      let (res, l) =
        dial_quic a.quic key (record { input = a.proof; written = []; closed = none }) in
      (
        wrap quic_failed res,
        record r { closes = r.closes ++ option_list l.closed; wrote = r.wrote ++ l.written ∷ [] },
      )

  unfoldable pub establish : Attempt Conn → EphemeralIdentity sp → RunM (Unit {0})
  unfolding dial
  establish a id = do
    tell establishing
    agent ← lift (wrap agent_failed a.agent)
    _ ← on_signaling ice_failed (gather_and_connect env.signaling agent true)
    key ← lift (secret_of id)
    dial a key

  -- `SendManifest`, and the close of the connection where the receiver is not ready.
  ready : Result OfferError ManifestResponse → RunM ManifestResponse
  ready (ok resp) r =
      if str_eq resp.status "ready"
      then (ok resp, r)
      else (err (not_ready resp.status), close_done r)
  ready (err e) r = (err (offer_failed e), close_done r)
  ready panic r = (panic, r)

  unfoldable pub offer : Attempt Conn → Manifest → RunM ManifestResponse
  unfolding ready
  offer a manifest r =
      let (res, d) = send_manifest env.json a.pipe manifest empty_desk in
      ready res (record r { wrote = r.wrote ++ d.written ∷ [] })

  -- `sc.Ping()`, and what follows it.
  rejoin : Text → Option String → RunM Bool
  rejoin code (some text) = fail signaling_lost
  rejoin code none = tell (disconnected code) >> return false

  -- The rest of a round behind the transfer: whether the run is over.
  unfoldable pub judge : Text → Attempt Conn → Manifest → Result SendError (Unit {0}) → RunM Bool
  unfolding rejoin
  judge code a manifest (ok u) =
      modify close_done >> tell (complete (length manifest.files)) >> return true
  judge code a manifest (err e) =
      modify close_done
      >> (if peer_closed e then rejoin code a.ping_error else fail (transfer_failed e))
  judge code a manifest panic = lift panic

  unfoldable pub transfer : Text → Text → Attempt Conn → Manifest → ManifestResponse → RunM Bool
  unfolding judge
  transfer path code a manifest resp r =
      let o =
        send_files env.source manifest resp path
          (record { opened = []; replies = a.replies; shown = [] }) in
      judge code a manifest o.0 (record r {
        printed = r.printed ++ resuming_notice resp;
        transfers = r.transfers ++ o ∷ [];
      })

  -- One round of the loop.
  unfoldable pub round : Text → Text → Manifest → Bool → Attempt Conn → RunM Bool
  unfolding pair establish offer transfer
  round path code manifest first_wait a = do
    tell waiting
    on_signaling (wait_failure first_wait code) (wait_for_peer env.signaling a.deadline)
    id ← pair code
    establish a id
    resp ← offer a manifest
    transfer path code a manifest resp

  abbrev pub unless_over : RunM (Unit {0}) → Bool → RunM (Unit {0})
  unless_over loop true = return tt
  unless_over loop false = loop

  -- The loop, from the round `n` on. Each round that is not the last one reads a message.
  unfoldable pub rounds : Text → Text → Manifest → ℕ → ℕ → RunM (Unit {0})
  unfolding round
  rounds path code manifest zero n = fail out_of_fuel
  rounds path code manifest (suc fuel) n =
      round path code manifest (n == 0) (env.attempts n)
      >>= unless_over (rounds path code manifest fuel (n + 1))

  abbrev pub dial_server : RunM (Unit {0})
  dial_server = elim env.connect_error [ none ↦ return tt | some text ↦ fail (connect_failed text) ]

  unfoldable pub run_send : Text → RunM (Unit {0})
  unfolding rounds
  run_send path = do
    dial_server
    code ← on_signaling session_failed (create_session env.signaling)
    tell (pairing_code code)
    tell scanning
    manifest ← lift (wrap manifest_failed (build_manifest env.hash path (env.look path)))
    tell (sending (length manifest.files) (total_bytes manifest.files))
    (λ r. rounds path code manifest (suc (length r.signaling.inbox)) 0 r)
