-- ===== src/Cmd/Pairing/Rounds.antt =====
-- cmd/wani-client/main.go: what the two clients write while they pair, by what they have to read.
use wani.Base.{◌≡◌, refl, [], ◌∷◌, some, Text}
use wani.Identity.{role_sender, role_receiver, Spake, new_ephemeral_identity}
use wani.Client.Signaling.{Env, ping_label}
use wani.Client.Signaling.Handshake.{
  relay, Honest, IsReliable, exchange_sender, exchange_receiver, exchange_sender_first,
  exchange_sender_second, exchange_receiver_first, exchange_receiver_second, ping_pong-none,
  wait_and_pong-none,
}
use wani.Cmd.Pairing.{pair_sender, pair_receiver}

module _ (env : Env) (reliable : IsReliable env) (sp : Spake) (code : Text)
    (h : Honest sp code) where
  pub sender_first :
      (pair_sender env sp code (record { inbox = []; outbox = [] })).1.outbox ≡ relay h.hello ∷ []
  unfolding pair_sender new_ephemeral_identity
  sender_first = rw (exchange_sender_first env reliable sp code h) refl

  pub sender_second :
      (pair_sender env sp code (record { inbox = relay h.answer ∷ []; outbox = [] })).1.outbox
      ≡ relay h.hello ∷ relay h.client_confirm ∷ []
  unfolding pair_sender new_ephemeral_identity
  sender_second = rw (exchange_sender_second env reliable sp code h) refl

  pub sender_third :
      (pair_sender env sp code
        (record { inbox = relay h.answer ∷ relay h.server_confirm ∷ []; outbox = [] })).1.outbox
      ≡ relay h.hello ∷ relay h.client_confirm ∷ relay (env.hmac h.key ping_label) ∷ []
  unfolding pair_sender new_ephemeral_identity
  sender_third =
      rw
        (
          exchange_sender env reliable sp code h [] [],
          ping_pong-none env reliable sp
              (record { role = role_sender; spake = h.client₄; secret = some h.key }) h.key refl _,
        )
        refl

  pub receiver_first :
      (pair_receiver env sp code (record { inbox = []; outbox = [] })).1.outbox ≡ []
  unfolding pair_receiver new_ephemeral_identity
  receiver_first = rw (exchange_receiver_first env reliable sp code h) refl

  pub receiver_second :
      (pair_receiver env sp code (record { inbox = relay h.hello ∷ []; outbox = [] })).1.outbox
      ≡ relay h.answer ∷ []
  unfolding pair_receiver new_ephemeral_identity
  receiver_second = rw (exchange_receiver_second env reliable sp code h) refl

  pub receiver_third :
      (pair_receiver env sp code
        (record { inbox = relay h.hello ∷ relay h.client_confirm ∷ []; outbox = [] })).1.outbox
      ≡ relay h.answer ∷ relay h.server_confirm ∷ []
  unfolding pair_receiver new_ephemeral_identity
  receiver_third =
      rw
        (
          exchange_receiver env reliable sp code h [] [],
          wait_and_pong-none env reliable sp
              (record { role = role_receiver; spake = h.server₃; secret = some h.key }) h.key refl
              _,
        )
        refl
