-- ===== src/Cmd/Receive.antt =====
-- cmd/wani-client/main.go: `runReceive` behind the flags. The terminal is the list `printed`, without
-- the progress bars; a deadline is what it makes fail. The deferred calls that close the signaling
-- connection and release contexts are left out.
pub mod Stages
pub mod Disconnected
pub mod Advice
mod Tests
use wani.Base.{
  ℕ, Bool, true, false, List, [], ◌∷◌, ◌++◌, Option, none, some, String, Text, Dict, Result, ok,
  err, panic, wrap, length, ltb, text_eq, if◌then◌else◌,
}
use wani.Base.State.{State, return, fail, lift, ◌>>=◌, ◌>>◌}
use wani.Protocol.Message.{Bytes, Manifest}
use wani.Identity.{Spake, EphemeralIdentity, shared_secret}
use wani.Client.Signaling.{SignalingClient, ClientError, join_session, Env as SignalingEnv}
use wani.Client.Ice.{Agent, IceError, gather_and_connect}
use wani.Client.Quic.{HandshakeError, Close, listen_quic, is_peer_closed_error, Env as QuicEnv}
use wani.Client.Offer.{Json, Pipe, OfferError, empty_desk, receive_manifest}
use wani.Client.Transfer.Receive.{
  Incoming, Receiver, TransferError, accept_failed, copy_failed, ack_failed, receive_files,
  Env as DiskEnv,
}
use wani.Client.Transfer.Send.{mark_all}
use wani.Cmd.Pairing.{PairingError, identity_failed, spake2_failed, ping_pong_failed, pair_receiver}

pub data Notice : Type 0 where
  pairing_failed : Notice
  paired : Notice
  establishing : Notice
  incoming : ℕ → Notice
  destination : Text → Notice
  resuming : ℕ → Notice
  -- The advice on how to resume names a destination.
  progress_saved : Text → Notice
  received : ℕ → Text → Notice

pub data ReceiveFailure : Type 0 where
  connect_failed : String → ReceiveFailure
  join_failed : ClientError → ReceiveFailure
  not_paired : PairingError → ReceiveFailure
  agent_failed : String → ReceiveFailure
  ice_failed : IceError → ReceiveFailure
  quic_failed : HandshakeError → ReceiveFailure
  manifest_failed : OfferError → ReceiveFailure
  sender_disconnected : ReceiveFailure
  transfer_failed : TransferError → ReceiveFailure

-- `proof` is what the peer writes to the first stream of the QUIC connection, `pipe` the stream of
-- the manifest, `streams` those of the files.
pub record ReceiveEnv (Conn : Type 0) : Type 0 where
  pub signaling : SignalingEnv
  pub json : Json
  pub disk : DiskEnv
  pub mkdir_error : List Text → Text → Option String
  pub connect_error : Option String
  pub agent : Result String (Agent Conn)
  pub quic : QuicEnv
  pub proof : Bytes
  pub pipe : Pipe
  pub streams : List Incoming

-- `closes` holds the calls of `CloseWithError`, `acks` what was written to the streams of the files,
-- `wrote` what went to the first stream and to that of the manifest.
pub record Receiving : Type 0 where
  pub signaling : SignalingClient
  pub printed : List Notice
  pub fs : Dict Bytes
  pub made : List Text
  pub acks : List Text
  pub closes : List Close
  pub wrote : List Bytes

abbrev pub RunM : Type 0 → Type 0
RunM A = State Receiving ReceiveFailure A

abbrev pub tell_all : List Notice → RunM (Unit {0})
tell_all ns r = (ok tt, record r { printed = r.printed ++ ns })

abbrev pub on_signaling : {E A : Type 0} → (E → ReceiveFailure) → State SignalingClient E A → RunM A
on_signaling f m r = let (res, c) = m r.signaling in (wrap f res, record r { signaling = c })

-- `defer quicConn.CloseWithError(0, "done")`: it is called however `m` ends.
abbrev pub and_close : RunM (Unit {0}) → RunM (Unit {0})
and_close m r =
    let (res, s) = m r in
    (res, record s { closes = s.closes ++ record { code = 0; reason = "done" } ∷ [] })

-- `IsPeerClosedError` of an error of `ReceiveFiles`: only what the connection returned counts.
unfoldable pub peer_closed : TransferError → Bool
peer_closed (accept_failed e) = is_peer_closed_error (some e)
peer_closed (copy_failed e) = is_peer_closed_error (some e)
peer_closed (ack_failed e) = is_peer_closed_error (some e)
peer_closed _ = false

abbrev pub pairing_notice : {A : Type 0} → Result PairingError A → List Notice
pairing_notice (ok a) = paired ∷ []
pairing_notice (err identity_failed) = []
pairing_notice (err (spake2_failed e)) = pairing_failed ∷ []
pairing_notice (err (ping_pong_failed e)) = pairing_failed ∷ []
pairing_notice panic = []

abbrev pub option_list : {A : Type 0} → Option A → List A
option_list none = []
option_list (some a) = a ∷ []

-- What is printed before the files: `out_dir` is what was asked for. The completed paths are counted
-- as a set.
abbrev pub arrival_notices : Text → Text → Manifest → ℕ → List Notice
arrival_notices out_dir dir manifest skipped =
    incoming (length manifest.files) ∷ (if text_eq dir out_dir then [] else destination dir ∷ [])
    ++ (if ltb 0 skipped then resuming skipped ∷ [] else [])

module _ (sp : Spake) {Conn : Type 0} (env : ReceiveEnv Conn) where
  unfoldable pub pair : Text → RunM (EphemeralIdentity sp)
  pair code r =
      let (res, c) = pair_receiver env.signaling sp code r.signaling in
      (wrap not_paired res, record r { signaling = c; printed = r.printed ++ pairing_notice res })

  -- `id.SharedSecret()`, which panics where there is none.
  abbrev pub secret_of : EphemeralIdentity sp → Result ReceiveFailure Bytes
  secret_of id = elim (shared_secret sp id) [ ok key ↦ ok key | err e ↦ panic | panic ↦ panic ]

  unfoldable pub listen : Bytes → RunM (Unit {0})
  listen key r =
      let (res, l) =
        listen_quic env.quic key (record { input = env.proof; written = []; closed = none }) in
      (
        wrap quic_failed res,
        record r { closes = r.closes ++ option_list l.closed; wrote = r.wrote ++ l.written ∷ [] },
      )

  unfoldable pub establish : EphemeralIdentity sp → RunM (Unit {0})
  unfolding listen
  establish id = do
    tell_all (establishing ∷ [])
    agent ← lift (wrap agent_failed env.agent)
    _ ← on_signaling ice_failed (gather_and_connect env.signaling agent false)
    key ← lift (secret_of id)
    listen key

  unfoldable pub take_manifest : Text → RunM (Manifest × Text × List Text)
  take_manifest out_dir r =
      let (res, d) =
        receive_manifest env.json env.pipe env.disk env.mkdir_error out_dir r.fs empty_desk in
      (wrap manifest_failed res, record r { made = d.made; wrote = r.wrote ++ d.written ∷ [] })

  -- The end of the run, told how the transfer ended.
  judge : Manifest → Text → Result TransferError (Unit {0}) → RunM (Unit {0})
  judge manifest dir (ok u) = tell_all (received (length manifest.files) dir ∷ [])
  judge manifest dir (err e) =
      if peer_closed e
      then tell_all (progress_saved dir ∷ []) >> fail sender_disconnected
      else fail (transfer_failed e)
  judge manifest dir panic = lift panic

  unfoldable pub take_files : Text → Manifest × Text × List Text → RunM (Unit {0})
  unfolding judge
  take_files out_dir (manifest, dir, completed) r =
      let skip = mark_all [] completed in
      let (res, q) =
        receive_files env.disk manifest skip dir
          (record { fs = r.fs; streams = env.streams; acks = []; shown = [] }) in
      judge manifest dir res (record r {
        printed = r.printed ++ arrival_notices out_dir dir manifest (length skip);
        fs = q.fs;
        acks = q.acks;
      })

  abbrev pub dial_server : RunM (Unit {0})
  dial_server = elim env.connect_error [ none ↦ return tt | some text ↦ fail (connect_failed text) ]

  unfoldable pub run_receive : Text → Text → RunM (Unit {0})
  unfolding pair establish take_manifest take_files
  run_receive out_dir code = do
    dial_server
    on_signaling join_failed (join_session env.signaling code)
    id ← pair code
    establish id
    and_close (take_manifest out_dir >>= take_files out_dir)
