-- ===== src/Server/Handlers/Safety.antt =====
-- internal/server/ws.go: no message panics a valid server, and every handler keeps it valid.
use wani.Base.{
  ℕ, ◌≡◌, refl, ◌≢◌, inl, inr, [], Option, none, some, String, Text, Result, ok, err, panic, wrap,
  text_eq, Bool-cases, Option-cases,
}
use wani.Protocol.Message.{Bytes, SignalMessage, of_type, msg_session_ready}
use wani.Protocol.Codes.{validate_code}
use wani.Server.Store.{Conn, side_sender, add_receiver}
use wani.Server.Store.Invariant.{IsValid, add_receiver-IsValid}
use wani.Server.Store.Roles.{lookup_conn-cases, add_receiver-some}
use wani.Base.State.{fail, bind, within}
use wani.Server.World.{
  Env, World, M, ServerError, missing_code, invalid_code_format, not_found_or_joined,
  notify_receiver, notify_sender, no_session, receiver_not_connected, write_json,
}
use wani.Server.Handlers.{
  write_to_sender, write_to_receiver, announce, handle_join_session, relay_to, handle_relay,
}

-- The outcome of a handler: no panic, and a valid store.
pub record Safe (r : Result ServerError (Unit {0}) × World) : Type 0 where
  pub alive : r.0 ≢ panic
  pub valid : IsValid r.1.store

wrap_alive :
    (f : ServerError → ServerError) (r : Result ServerError (Unit {0}))
    → r ≢ panic
    → wrap f r ≢ panic
wrap_alive f (ok a) h = λ e. cc
wrap_alive f (err e) h = λ e. cc
wrap_alive f panic h = h

within-Safe :
    (f : ServerError → ServerError) (m : M (Unit {0})) (w : World)
    → Safe (m w)
    → Safe (within f m w)
within-Safe f m w s = record { alive = wrap_alive f (m w).0 s.alive; valid = s.valid }

bind-Safe :
    {A : Type 0} (r : Result ServerError A) (w : World) (f : A → M (Unit {0}))
    → r ≢ panic
    → IsValid w.store
    → ((a : A) → r ≡ ok a → Safe (f a w))
    → Safe (bind (r, w) f)
bind-Safe (ok a) w f h v k = k a refl
bind-Safe (err e) w f h v k = record { alive = λ e. cc; valid = v }
bind-Safe panic w f h v k = absurd (h refl)

module _ (env : Env) where
  pub write_json-Safe :
      (c : Conn) (m : SignalMessage) (w : World) → IsValid w.store → Safe (write_json env c m w)
  unfolding write_json
  write_json-Safe c m w v = elim (Option-cases (env.wire w.sent c m)) [
    | inl sent ↦ rw (sent, write_json) (record { alive = λ e. cc; valid = v })
    | inr (text, failed) ↦ rw (failed, write_json) (record { alive = λ e. cc; valid = v })
  ]

  pub fail-Safe : (e : ServerError) (w : World) → IsValid w.store → Safe (fail e w)
  fail-Safe e w v = record { alive = λ h. cc; valid = v }

  write_to_receiver-Safe :
      (p : ℕ) (c : Conn) (m : SignalMessage) (w : World)
      → (w.store.heap p).receiver_conn ≡ some c
      → IsValid w.store
      → Safe (write_to_receiver env p m w)
  unfolding write_to_receiver
  write_to_receiver-Safe p c m w live v = rw (live, write_to_receiver) (write_json-Safe c m w v)

  write_to_sender-Safe :
      (p : ℕ) (m : SignalMessage) (w : World) → IsValid w.store → Safe (write_to_sender env p m w)
  unfolding write_to_sender
  write_to_sender-Safe p m w v = write_json-Safe (w.store.heap p).sender_conn m w v

  relay_to-Safe :
      (p : ℕ) (m : SignalMessage) (w : World)
      → IsValid w.store
      → Safe (relay_to env side_sender (some p) m w)
  unfolding relay_to
  relay_to-Safe p m w v = elim (Option-cases (w.store.heap p).receiver_conn) [
    | inl none_yet ↦ rw (none_yet, relay_to) (fail-Safe receiver_not_connected w v)
    | inr (r, live) ↦ rw (live, relay_to) (write_to_receiver-Safe p r m w live v)
  ]

  -- Relaying in a valid server never panics: neither a nil session nor a nil receiver is used.
  pub handle_relay-Safe :
      (conn : Conn) (type : String) (payload : Bytes) (w : World)
      → IsValid w.store
      → Safe (handle_relay env conn type payload w)
  unfolding handle_relay
  handle_relay-Safe conn type payload w v = elim (lookup_conn-cases conn w.store v) [
    | inl missing ↦ rw (missing, handle_relay) (fail-Safe no_session w v)
    | inr (c, p, inl s) ↦ rw (s.found, handle_relay) (relay_to-Safe p _ w v)
    | inr (c, p, inr r) ↦ rw (r.found, handle_relay) (unfold relay_to in write_json-Safe _ _ w v)
  ]

  announce-Safe :
      (p : ℕ) (c : Conn) (w : World)
      → IsValid w.store
      → (w.store.heap p).receiver_conn ≡ some c
      → Safe (announce env (some p) w)
  unfolding announce
  announce-Safe p c w v live =
      let ready = of_type msg_session_ready in
      let to_receiver = write_to_receiver env p ready in
      let to_sender = write_to_sender env p ready in
      let s =
        within-Safe notify_receiver to_receiver w (write_to_receiver-Safe p c ready w live v) in
      let w' = (within notify_receiver to_receiver w).1 in
      bind-Safe _ w' (λ _. within notify_sender to_sender) s.alive s.valid
        λ _ _. within-Safe notify_sender to_sender w' (write_to_sender-Safe p ready w' s.valid)

  pub handle_join_session-Safe :
      (now : ℕ) (conn : Conn) (code : Text) (w : World)
      → IsValid w.store
      → Safe (handle_join_session env now conn code w)
  unfolding handle_join_session
  handle_join_session-Safe now conn code w v = elim (Bool-cases (text_eq code [])) [
    | inl empty ↦ rw empty (fail-Safe missing_code w v)
    | inr given ↦ elim (Bool-cases (validate_code env.word_list.word_set code)) [
      | inr bad ↦ rw (given, bad) (fail-Safe invalid_code_format w v)
      | inl good ↦ rw (given, good) (joined (add_receiver now code conn w.store).1 refl)
    ]
  ]
    where
      w' : World
      w' = record w { store = (add_receiver now code conn w.store).0 }

      v' : IsValid w'.store
      v' = add_receiver-IsValid now code conn w.store v

      joined :
          (o : Option ℕ) → (add_receiver now code conn w.store).1 ≡ o → Safe (announce env o w')
      joined none e = unfold announce in fail-Safe not_found_or_joined w' v'
      joined (some p) e = announce-Safe p conn w' v' (add_receiver-some now code conn w.store p e).1
