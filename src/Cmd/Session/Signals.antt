-- ===== src/Cmd/Session/Signals.antt =====
-- cmd/wani-client/main.go: the signaling of a session, stage by stage, over reliable connections.
use wani.Base.{◌≡◌, refl, ◌≢◌, List, [], ◌∷◌, ◌++◌, none, some, Text, text_eq-ne, ok}
use wani.Protocol.Message.{
  Bytes, SignalMessage, of_type, msg_session_created, msg_session_ready, msg_create_session,
  msg_join_session,
}
use wani.Identity.{role_sender, role_receiver, Spake, EphemeralIdentity, new_ephemeral_identity}
use wani.Client.Signaling.{
  SignalingClient, ping_label, pong_label, write_json, scan, read_until, create_session,
  join_session, wait_for_peer, Env as SignalingEnv,
}
use wani.Client.Signaling.Handshake.{
  relay, Honest, IsReliable, exchange_sender, exchange_receiver, ping_pong-ok, wait_and_pong-ok,
}
use wani.Cmd.Pairing.{pair_sender, pair_receiver}

module _ (env : SignalingEnv) (reliable : IsReliable env) where
  write_json-ok :
      (m : SignalMessage) (c : SignalingClient)
      → write_json env m c ≡ (ok tt, record c { outbox = c.outbox ++ m ∷ [] })
  unfolding write_json
  write_json-ok m c = rw (reliable c.outbox m, write_json)

  pub create_session-ok :
      (code : Text) (rest out : List SignalMessage)
      → code ≢ []
      → create_session env (record {
        inbox = record (of_type msg_session_created) { code = code } ∷ rest;
        outbox = out;
      })
        ≡ (ok code, record { inbox = rest; outbox = out ++ of_type msg_create_session ∷ [] })
  unfolding create_session read_until scan
  create_session-ok code rest out ne = rw (write_json-ok, text_eq-ne code [] ne) refl

  pub wait_for_peer-ok :
      (rest out : List SignalMessage)
      → wait_for_peer env
          (some none)
          (record { inbox = of_type msg_session_ready ∷ rest; outbox = out })
        ≡ (ok tt, record { inbox = rest; outbox = out })
  unfolding wait_for_peer read_until scan
  wait_for_peer-ok rest out = refl

  pub join_session-ok :
      (code : Text) (rest out : List SignalMessage)
      → join_session env code (record { inbox = of_type msg_session_ready ∷ rest; outbox = out })
        ≡ (
          ok tt,
          record {
            inbox = rest;
            outbox = out ++ record (of_type msg_join_session) { code = code } ∷ [];
          },
        )
  unfolding join_session read_until scan
  join_session-ok code rest out = rw write_json-ok refl

  module _ (sp : Spake) (code : Text) (h : Honest sp code) (rest out : List SignalMessage) where
    -- What each side writes while it pairs, behind what it has written before.
    abbrev pub from_sender : List SignalMessage
    from_sender =
        ((out ++ relay h.hello ∷ []) ++ relay h.client_confirm ∷ [])
        ++ relay (env.hmac h.key ping_label) ∷ []

    abbrev pub from_receiver : List SignalMessage
    from_receiver =
        ((out ++ relay h.answer ∷ []) ++ relay h.server_confirm ∷ [])
        ++ relay (env.hmac h.key pong_label) ∷ []

    pub pair_sender-ok :
        (pong : Bytes)
        → pong ≡ env.hmac h.key pong_label
        → pair_sender env sp code (record {
          inbox = relay h.answer ∷ relay h.server_confirm ∷ relay pong ∷ rest;
          outbox = out;
        })
          ≡ (
            ok (record { role = role_sender; spake = h.client₄; secret = some h.key }),
            record { inbox = rest; outbox = from_sender },
          )
    unfolding pair_sender new_ephemeral_identity
    pair_sender-ok pong e =
        let id : EphemeralIdentity sp = record {
          role = role_sender;
          spake = h.client₄;
          secret = some h.key;
        } in
        rw
          (
            exchange_sender env reliable sp code h out (relay pong ∷ rest),
            ping_pong-ok env reliable sp id h.key refl pong _ rest e,
          )
          refl

    pub pair_receiver-ok :
        (ping : Bytes)
        → ping ≡ env.hmac h.key ping_label
        → pair_receiver env sp code (record {
          inbox = relay h.hello ∷ relay h.client_confirm ∷ relay ping ∷ rest;
          outbox = out;
        })
          ≡ (
            ok (record { role = role_receiver; spake = h.server₃; secret = some h.key }),
            record { inbox = rest; outbox = from_receiver },
          )
    unfolding pair_receiver new_ephemeral_identity
    pair_receiver-ok ping e =
        let id : EphemeralIdentity sp = record {
          role = role_receiver;
          spake = h.server₃;
          secret = some h.key;
        } in
        rw
          (
            exchange_receiver env reliable sp code h out (relay ping ∷ rest),
            wait_and_pong-ok env reliable sp id h.key refl ping _ rest e,
          )
          refl
