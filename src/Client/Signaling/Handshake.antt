-- ===== src/Client/Signaling/Handshake.antt =====
-- internal/client/signaling.go, `ExchangeSPAKE2`, `PingPong` and `WaitAndPong`: how the two peers of
-- a session pair, as the server relays to each what the other writes.
use wani.Base.{
  ◌≡◌, refl, ◌≢◌, List, [], ◌∷◌, ◌++◌, none, some, String, ok, err, text_eq_self, text_eq-ne,
}
use wani.Protocol.Message.{Bytes, SignalMessage, of_type, msg_relay}
use wani.Identity.{
  Role, role_sender, role_receiver, Spake, EphemeralIdentity, run_sender, run_receiver,
  run_exchange,
}
use wani.Client.Signaling.{
  SignalingClient, Env, ClientError, step, read_failed, hmac_mismatch, ping_label, pong_label,
  write_json, scan, read_until, send_relay, recv_relay, exchange_spake2, with_secret, ping_pong,
  wait_and_pong,
}

-- A relay message as the server forwards it.
abbrev pub relay : Bytes → SignalMessage
relay payload = record (of_type msg_relay) { payload = payload }

-- One honest run of the SPAKE2 library under a password, in the order of RFC 9382: every call
-- succeeds, and both sides derive the same key.
pub record Honest (sp : Spake) (password : Bytes) : Type 0 where
  pub hello : Bytes
  pub answer : Bytes
  pub client_confirm : Bytes
  pub server_confirm : Bytes
  pub key : Bytes
  pub client₁ : sp.Obj
  pub client₂ : sp.Obj
  pub client₃ : sp.Obj
  pub client₄ : sp.Obj
  pub server₁ : sp.Obj
  pub server₂ : sp.Obj
  pub server₃ : sp.Obj
  pub started : sp.start (sp.new_client password) ≡ (ok hello, client₁)
  pub exchanged : sp.exchange hello (sp.new_server password) ≡ (ok answer, server₁)
  pub finished : sp.finish answer client₁ ≡ (ok client_confirm, client₂)
  pub confirmed : sp.confirm client_confirm server₁ ≡ (ok server_confirm, server₂)
  pub verified : sp.verify server_confirm client₂ ≡ (ok tt, client₃)
  pub client_key : sp.shared_key client₃ ≡ (ok (some key), client₄)
  pub server_key : sp.shared_key server₂ ≡ (ok (some key), server₃)

-- A connection on which every write succeeds.
abbrev pub IsReliable : Env → Type 0
IsReliable env = (sent : List SignalMessage) (m : SignalMessage) → env.wire sent m ≡ none

module _ (env : Env) (reliable : IsReliable env) where
  pub send_relay-ok :
      (payload : Bytes) (c : SignalingClient)
      → send_relay env payload c ≡ (ok tt, record c { outbox = c.outbox ++ relay payload ∷ [] })
  unfolding send_relay write_json
  send_relay-ok payload c = rw (reliable c.outbox (relay payload), write_json)

  pub recv_relay-ok :
      (payload : Bytes) (rest out : List SignalMessage)
      → recv_relay env (record { inbox = relay payload ∷ rest; outbox = out })
        ≡ (ok payload, record { inbox = rest; outbox = out })
  unfolding recv_relay read_until scan
  recv_relay-ok payload rest out = refl

  pub recv_relay-none :
      (out : List SignalMessage)
      → recv_relay env (record { inbox = []; outbox = out })
        ≡ (err (read_failed env.closed), record { inbox = []; outbox = out })
  unfolding recv_relay read_until scan
  recv_relay-none out = refl

  module _ (sp : Spake) (password : Bytes) (h : Honest sp password)
      (out rest : List SignalMessage) where
    pub exchange_sender :
        exchange_spake2 env sp
          (record { role = role_sender; spake = sp.new_client password; secret = none })
          (record { inbox = relay h.answer ∷ relay h.server_confirm ∷ rest; outbox = out })
        ≡ (
          ok tt,
          record {
            inbox = rest;
            outbox = (out ++ relay h.hello ∷ []) ++ relay h.client_confirm ∷ [];
          },
          record { role = role_sender; spake = h.client₄; secret = some h.key },
        )
    unfolding exchange_spake2 run_exchange run_sender
    exchange_sender = rw (
      h.started, send_relay-ok, recv_relay-ok, h.finished, send_relay-ok, recv_relay-ok, h.verified,
      h.client_key,
    )

    pub exchange_receiver :
        exchange_spake2 env sp
          (record { role = role_receiver; spake = sp.new_server password; secret = none })
          (record { inbox = relay h.hello ∷ relay h.client_confirm ∷ rest; outbox = out })
        ≡ (
          ok tt,
          record {
            inbox = rest;
            outbox = (out ++ relay h.answer ∷ []) ++ relay h.server_confirm ∷ [];
          },
          record { role = role_receiver; spake = h.server₃; secret = some h.key },
        )
    unfolding exchange_spake2 run_exchange run_receiver
    exchange_receiver = rw (
      recv_relay-ok, h.exchanged, send_relay-ok, recv_relay-ok, h.confirmed, send_relay-ok,
      h.server_key,
    )

  -- An exchange that breaks off at a read, as there is nothing more to read.
  abbrev no_more : String → ClientError
  no_more at = step "signaling.ExchangeSPAKE2" (step at (read_failed env.closed))

  module _ (sp : Spake) (password : Bytes) (h : Honest sp password) where
    abbrev starts_as : Role → sp.Obj → EphemeralIdentity sp
    starts_as role o = record { role = role; spake = o; secret = none }

    pub exchange_sender_first :
        exchange_spake2 env sp
          (starts_as role_sender (sp.new_client password))
          (record { inbox = []; outbox = [] })
        ≡ (
          err (no_more "sender recv Exchange"),
          record { inbox = []; outbox = relay h.hello ∷ [] },
          starts_as role_sender h.client₁,
        )
    unfolding exchange_spake2 run_exchange run_sender
    exchange_sender_first = rw (h.started, send_relay-ok, recv_relay-none)

    pub exchange_sender_second :
        exchange_spake2 env sp
          (starts_as role_sender (sp.new_client password))
          (record { inbox = relay h.answer ∷ []; outbox = [] })
        ≡ (
          err (no_more "sender recv Confirm"),
          record { inbox = []; outbox = relay h.hello ∷ relay h.client_confirm ∷ [] },
          starts_as role_sender h.client₂,
        )
    unfolding exchange_spake2 run_exchange run_sender
    exchange_sender_second =
        rw (h.started, send_relay-ok, recv_relay-ok, h.finished, send_relay-ok, recv_relay-none)

    pub exchange_receiver_first :
        exchange_spake2 env sp
          (starts_as role_receiver (sp.new_server password))
          (record { inbox = []; outbox = [] })
        ≡ (
          err (no_more "receiver recv Start"),
          record { inbox = []; outbox = [] },
          starts_as role_receiver (sp.new_server password),
        )
    unfolding exchange_spake2 run_exchange run_receiver
    exchange_receiver_first = rw recv_relay-none

    pub exchange_receiver_second :
        exchange_spake2 env sp
          (starts_as role_receiver (sp.new_server password))
          (record { inbox = relay h.hello ∷ []; outbox = [] })
        ≡ (
          err (no_more "receiver recv Finish"),
          record { inbox = []; outbox = relay h.answer ∷ [] },
          starts_as role_receiver h.server₁,
        )
    unfolding exchange_spake2 run_exchange run_receiver
    exchange_receiver_second = rw (recv_relay-ok, h.exchanged, send_relay-ok, recv_relay-none)

  module _ (sp : Spake) (id : EphemeralIdentity sp) (key : Bytes) (has_key : id.secret ≡ some key)
      (out : List SignalMessage) where
    pub ping_pong-none : ping_pong env sp id (record { inbox = []; outbox = out }) ≡ (
      err (step "signaling.PingPong: recv pong" (read_failed env.closed)),
      record { inbox = []; outbox = out ++ relay (env.hmac key ping_label) ∷ [] },
    )
    unfolding ping_pong
    ping_pong-none = rw (has_key, with_secret, send_relay-ok, recv_relay-none)

    pub wait_and_pong-none : wait_and_pong env sp id (record { inbox = []; outbox = out }) ≡ (
      err (step "signaling.WaitAndPong: recv ping" (read_failed env.closed)),
      record { inbox = []; outbox = out },
    )
    unfolding wait_and_pong
    wait_and_pong-none = rw (has_key, with_secret, recv_relay-none)

  module _ (sp : Spake) (id : EphemeralIdentity sp) (key : Bytes) (has_key : id.secret ≡ some key)
      (payload : Bytes) (out rest : List SignalMessage) where
    -- The sender of a key accepts exactly the pong that the same key makes.
    pub ping_pong-ok :
        payload ≡ env.hmac key pong_label
        → ping_pong env sp id (record { inbox = relay payload ∷ rest; outbox = out })
          ≡ (ok tt, record { inbox = rest; outbox = out ++ relay (env.hmac key ping_label) ∷ [] })
    unfolding ping_pong
    ping_pong-ok e = rw (has_key, with_secret, send_relay-ok, recv_relay-ok, e, text_eq_self)

    ping_pong-mismatch :
        payload ≢ env.hmac key pong_label
        → ping_pong env sp id (record { inbox = relay payload ∷ rest; outbox = out }) ≡ (
          err hmac_mismatch,
          record { inbox = rest; outbox = out ++ relay (env.hmac key ping_label) ∷ [] },
        )
    unfolding ping_pong
    ping_pong-mismatch ne =
        rw (has_key, with_secret, send_relay-ok, recv_relay-ok, text_eq-ne payload _ ne)

    pub wait_and_pong-ok :
        payload ≡ env.hmac key ping_label
        → wait_and_pong env sp id (record { inbox = relay payload ∷ rest; outbox = out })
          ≡ (ok tt, record { inbox = rest; outbox = out ++ relay (env.hmac key pong_label) ∷ [] })
    unfolding wait_and_pong
    wait_and_pong-ok e = rw (has_key, with_secret, recv_relay-ok, e, text_eq_self, send_relay-ok)

    wait_and_pong-mismatch :
        payload ≢ env.hmac key ping_label
        → wait_and_pong env sp id (record { inbox = relay payload ∷ rest; outbox = out })
          ≡ (err hmac_mismatch, record { inbox = rest; outbox = out })
    unfolding wait_and_pong
    wait_and_pong-mismatch ne = rw (has_key, with_secret, recv_relay-ok, text_eq-ne payload _ ne)
