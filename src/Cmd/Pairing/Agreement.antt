-- ===== src/Cmd/Pairing/Agreement.antt =====
-- cmd/wani-client/main.go: two clients that pair with each other agree on a key.
use wani.Base.{◌≡◌, refl, ap, List, [], ◌∷◌, some, Text, ok}
use wani.Protocol.Message.{SignalMessage}
use wani.Identity.{role_sender, role_receiver, Spake, EphemeralIdentity, new_ephemeral_identity}
use wani.Client.Signaling.{Env, ping_label, pong_label}
use wani.Client.Signaling.Handshake.{
  relay, Honest, IsReliable, exchange_sender, exchange_receiver, ping_pong-ok, wait_and_pong-ok,
}
use wani.Client.Signaling.Dialogue.{dialogue}
use wani.Cmd.Pairing.{pair_sender, pair_receiver}
use wani.Cmd.Pairing.Rounds.{
  sender_first, sender_second, sender_third, receiver_first, receiver_second, receiver_third,
}

abbrev pub sender_writes : Env → (sp : Spake) → Text → List SignalMessage → List SignalMessage
sender_writes env sp code inbox =
    (pair_sender env sp code (record { inbox = inbox; outbox = [] })).1.outbox

abbrev pub receiver_writes : Env → (sp : Spake) → Text → List SignalMessage → List SignalMessage
receiver_writes env sp code inbox =
    (pair_receiver env sp code (record { inbox = inbox; outbox = [] })).1.outbox

-- What the receiver writes in answer to the sender, and what it then returns.
receiver-answers :
    (sp : Spake) (code : Text) (s r : Env)
    → IsReliable r
    → r.hmac ≡ s.hmac
    → (h : Honest sp code)
    → pair_receiver r sp code (record {
      inbox = relay h.hello ∷ relay h.client_confirm ∷ relay (s.hmac h.key ping_label) ∷ [];
      outbox = [];
    })
      ≡ (
        ok (record { role = role_receiver; spake = h.server₃; secret = some h.key }),
        record {
          inbox = [];
          outbox = relay h.answer ∷ relay h.server_confirm ∷ relay (s.hmac h.key pong_label) ∷ [];
        },
      )
unfolding pair_receiver new_ephemeral_identity
receiver-answers sp code s r rr same h =
    let ping = s.hmac h.key ping_label in
    rw
      (
        exchange_receiver r rr sp code h [] (relay ping ∷ []),
        wait_and_pong-ok r rr sp
            (record { role = role_receiver; spake = h.server₃; secret = some h.key }) h.key refl
            ping _ [] (rw same),
        same,
      )
      refl

-- Six rounds of what the two write, each given what the other has written before.
pub pairing_dialogue :
    (sp : Spake) (code : Text) (s r : Env)
    → IsReliable s
    → IsReliable r
    → r.hmac ≡ s.hmac
    → (h : Honest sp code)
    → dialogue 6 (sender_writes s sp code) (receiver_writes r sp code) ≡ (
      relay h.answer ∷ relay h.server_confirm ∷ relay (s.hmac h.key pong_label) ∷ [],
      relay h.hello ∷ relay h.client_confirm ∷ relay (s.hmac h.key ping_label) ∷ [],
    )
pairing_dialogue sp code s r rs rr same h =
    let ping = s.hmac h.key ping_label in
    rw
      (
        receiver_first r rr sp code h,
        sender_first s rs sp code h,
        receiver_second r rr sp code h,
        sender_second s rs sp code h,
        receiver_third r rr sp code h,
        sender_third s rs sp code h,
      )
      (ap (λ o. (o.1.outbox, relay h.hello ∷ relay h.client_confirm ∷ relay ping ∷ []))
        (receiver-answers sp code s r rr same h))

-- The sender and the receiver of a session pair, without a deadlock: with nothing to read at first,
-- and each then given what the other has written so far, after six rounds the two have written to
-- each other all the messages that they need. With these both return an identity with the same
-- secret and have read everything. The connections are reliable, there is one HMAC, and one honest
-- run of the SPAKE2 library under the pairing code is given.
pub pairing_agreement :
    (sp : Spake) (code : Text) (s r : Env)
    → IsReliable s
    → IsReliable r
    → r.hmac ≡ s.hmac
    → (h : Honest sp code)
    → (to_sender : List SignalMessage) × (to_receiver : List SignalMessage)
      × (is : EphemeralIdentity sp) × (ir : EphemeralIdentity sp) × (pair_sender s sp code
            (record { inbox = to_sender; outbox = [] })
          ≡ (ok is, record { inbox = []; outbox = to_receiver }))
      × (pair_receiver r sp code (record { inbox = to_receiver; outbox = [] })
          ≡ (ok ir, record { inbox = []; outbox = to_sender }))
      × (dialogue 6 (sender_writes s sp code) (receiver_writes r sp code)
          ≡ (to_sender, to_receiver))
      × (is.secret ≡ some h.key)
      × (ir.secret ≡ some h.key)
unfolding pair_sender new_ephemeral_identity
pairing_agreement sp code s r rs rr same h =
    let ping = s.hmac h.key ping_label in
    let pong = s.hmac h.key pong_label in
    let is : EphemeralIdentity sp = record {
      role = role_sender;
      spake = h.client₄;
      secret = some h.key;
    } in
    let ir : EphemeralIdentity sp = record {
      role = role_receiver;
      spake = h.server₃;
      secret = some h.key;
    } in
    (
      relay h.answer ∷ relay h.server_confirm ∷ relay pong ∷ [],
      relay h.hello ∷ relay h.client_confirm ∷ relay ping ∷ [],
      is,
      ir,
      rw
          (
            exchange_sender s rs sp code h [] (relay pong ∷ []),
            ping_pong-ok s rs sp is h.key refl pong _ [] refl,
          )
          refl,
      receiver-answers sp code s r rr same h,
      pairing_dialogue sp code s r rs rr same h,
      refl,
      refl,
    )
