-- ===== src/Cmd/Receive/Stages.antt =====
-- cmd/wani-client/main.go: `runReceive` where no stage fails.
use wani.Base.{◌≡◌, refl, false, List, [], ◌∷◌, ◌++◌, append-nil, none, some, Text, ok, length}
use wani.Protocol.Message.{Bytes, Manifest}
use wani.Identity.{Spake, EphemeralIdentity, shared_secret}
use wani.Client.Signaling.{SignalingClient, join_session}
use wani.Client.Ice.{Agent, gather_and_connect}
use wani.Client.Quic.{Link, listen_quic}
use wani.Client.Offer.{Desk, empty_desk, receive_manifest}
use wani.Client.Transfer.Receive.{Receiver, receive_files}
use wani.Client.Transfer.Send.{mark_all}
use wani.Cmd.Pairing.{pair_receiver}
use wani.Cmd.Receive.{
  ReceiveEnv, Receiving, paired, establishing, received, arrival_notices, pair, listen, establish,
  take_manifest, take_files, judge, run_receive,
}

-- How a run goes in which no stage fails.
pub record Run (sp : Spake) {Conn : Type 0} (env : ReceiveEnv Conn) (out_dir code : Text)
    (before : Receiving) : Type 0 where
  pub joined : SignalingClient
  pub identified : SignalingClient
  pub connected : SignalingClient
  pub id : EphemeralIdentity sp
  pub key : Bytes
  pub agent : Agent Conn
  pub conn : Conn
  pub link : Link
  pub manifest : Manifest
  pub dir : Text
  pub completed : List Text
  pub desk : Desk
  pub receiver : Receiver
  pub connects : env.connect_error ≡ none
  pub joins : join_session env.signaling code before.signaling ≡ (ok tt, joined)
  pub pairs : pair_receiver env.signaling sp code joined ≡ (ok id, identified)
  pub has_agent : env.agent ≡ ok agent
  pub gathers : gather_and_connect env.signaling agent false identified ≡ (ok conn, connected)
  pub has_key : id.secret ≡ some key
  pub listens :
      listen_quic env.quic key (record { input = env.proof; written = []; closed = none })
      ≡ (ok tt, link)
  pub stays_open : link.closed ≡ none
  pub offered :
      receive_manifest env.json env.pipe env.disk env.mkdir_error out_dir before.fs empty_desk
      ≡ (ok (manifest, dir, completed), desk)
  pub receives :
      receive_files env.disk manifest
        (mark_all [] completed)
        dir
        (record { fs = before.fs; streams = env.streams; acks = []; shown = [] })
      ≡ (ok tt, receiver)

module _ (sp : Spake) {Conn : Type 0} (env : ReceiveEnv Conn) (out_dir code : Text) where
  pub run_receive_complete :
      (r : Receiving)
      → (g : Run sp env out_dir code r)
      → run_receive sp env out_dir code r ≡ (
        ok tt,
        record {
          signaling = g.connected;
          printed =
              (((r.printed ++ paired ∷ []) ++ establishing ∷ [])
                ++ arrival_notices out_dir g.dir g.manifest (length (mark_all [] g.completed)))
              ++ received (length g.manifest.files) g.dir ∷ [];
          fs = g.receiver.fs;
          made = g.desk.made;
          acks = g.receiver.acks;
          closes = r.closes ++ record { code = 0; reason = "done" } ∷ [];
          wrote = (r.wrote ++ g.link.written ∷ []) ++ g.desk.written ∷ [];
        },
      )
  unfolding run_receive pair listen establish take_manifest take_files judge shared_secret
  run_receive_complete r g =
      rw
        (
          g.connects, g.joins, g.pairs, g.has_agent, g.gathers, g.has_key, g.listens, g.stays_open,
          append-nil, g.offered, g.receives,
        )
        refl
