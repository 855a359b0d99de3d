-- ===== src/Cmd/Send/Stages.antt =====
-- cmd/wani-client/main.go: `runSend` where no stage fails.
use wani.Base.{
  ◌≡◌, refl, Bool, true, List, [], ◌∷◌, ◌++◌, append-nil, none, some, Text, ok, length, str_eq,
}
use wani.Protocol.Message.{Bytes, Manifest, ManifestResponse}
use wani.Identity.{Spake, EphemeralIdentity, shared_secret}
use wani.Client.Signaling.{SignalingClient, create_session, wait_for_peer}
use wani.Client.Ice.{Agent, gather_and_connect}
use wani.Client.Quic.{Link, dial_quic}
use wani.Client.Manifest.{build_manifest}
use wani.Client.Offer.{Desk, empty_desk, send_manifest}
use wani.Client.Transfer.Send.{Sender, send_files}
use wani.Cmd.Pairing.{pair_sender}
use wani.Cmd.Send.{
  Attempt, Notice, SendEnv, Sending, close_done, total_bytes, resuming_notice, pairing_code,
  scanning, sending, waiting, paired, establishing, complete, pair, dial, establish, offer, judge,
  transfer, round, rounds, run_send, ready,
}

-- How a round goes in which no stage fails: the clients behind the wait, the pairing and the exchange
-- of candidates, the identity and its key, and what the rest of the round ends with.
pub record Round (sp : Spake) {Conn : Type 0} (env : SendEnv Conn) (a : Attempt Conn)
    (path code : Text) (manifest : Manifest) (before : SignalingClient) : Type 0 where
  pub waited : SignalingClient
  pub identified : SignalingClient
  pub connected : SignalingClient
  pub id : EphemeralIdentity sp
  pub key : Bytes
  pub agent : Agent Conn
  pub conn : Conn
  pub link : Link
  pub resp : ManifestResponse
  pub desk : Desk
  pub sender : Sender
  pub waits : wait_for_peer env.signaling a.deadline before ≡ (ok tt, waited)
  pub pairs : pair_sender env.signaling sp code waited ≡ (ok id, identified)
  pub has_agent : a.agent ≡ ok agent
  pub gathers : gather_and_connect env.signaling agent true identified ≡ (ok conn, connected)
  pub has_key : id.secret ≡ some key
  pub dials :
      dial_quic a.quic key (record { input = a.proof; written = []; closed = none }) ≡ (ok tt, link)
  pub stays_open : link.closed ≡ none
  pub offers : send_manifest env.json a.pipe manifest empty_desk ≡ (ok resp, desk)
  pub is_ready : str_eq resp.status "ready" ≡ true
  pub sends :
      send_files env.source manifest resp path
        (record { opened = []; replies = a.replies; shown = [] })
      ≡ (ok tt, sender)

module _ (sp : Spake) {Conn : Type 0} (env : SendEnv Conn) (path code : Text)
    (manifest : Manifest) where
  -- What a round prints.
  abbrev pub shown : List Notice → ManifestResponse → List Notice
  shown before resp =
      ((((before ++ waiting ∷ []) ++ paired ∷ []) ++ establishing ∷ []) ++ resuming_notice resp)
      ++ complete (length manifest.files) ∷ []

  pub round_complete :
      (first_wait : Bool) (a : Attempt Conn) (r : Sending)
      → (g : Round sp env a path code manifest r.signaling)
      → round sp env path code manifest first_wait a r ≡ (
        ok true,
        close_done (record {
          signaling = g.connected;
          printed = shown r.printed g.resp;
          transfers = r.transfers ++ (ok tt, g.sender) ∷ [];
          closes = r.closes;
          wrote = (r.wrote ++ g.link.written ∷ []) ++ g.desk.written ∷ [];
        }),
      )
  unfolding round pair establish dial offer transfer judge shared_secret ready
  round_complete first_wait a r g =
      rw
        (
          g.waits, g.pairs, g.has_agent, g.gathers, g.has_key, g.dials, g.stays_open, append-nil,
          g.offers, g.is_ready, g.sends,
        )
        refl

  pub run_send_complete :
      (c : SignalingClient) (r : Sending)
      → env.connect_error ≡ none
      → create_session env.signaling r.signaling ≡ (ok code, c)
      → build_manifest env.hash path (env.look path) ≡ ok manifest
      → (g : Round sp env (env.attempts 0) path code manifest c)
      → run_send sp env path r ≡ (
        ok tt,
        close_done (record {
          signaling = g.connected;
          printed =
              shown
                (((r.printed ++ pairing_code code ∷ []) ++ scanning ∷ [])
                  ++ sending (length manifest.files) (total_bytes manifest.files) ∷ [])
                g.resp;
          transfers = r.transfers ++ (ok tt, g.sender) ∷ [];
          closes = r.closes;
          wrote = (r.wrote ++ g.link.written ∷ []) ++ g.desk.written ∷ [];
        }),
      )
  unfolding run_send rounds
  run_send_complete c r connects creates builds g =
      rw
        (
          connects,
          creates,
          builds,
          round_complete true (env.attempts 0)
              (record r {
                signaling = c;
                printed =
                    ((r.printed ++ pairing_code code ∷ []) ++ scanning ∷ [])
                    ++ sending (length manifest.files) (total_bytes manifest.files) ∷ [];
              })
              g,
        )
        refl
