-- ===== src/Server/Handlers/Pairing.antt =====
-- internal/server/ws.go: what two clients get from the server: a session, and messages relayed
-- to each other and to nobody else.
use wani.Base.{
  ℕ, ◌≡◌, refl, ◌≢◌, inl, inr, true, List, [], ◌∷◌, ◌++◌, none, some, arith, String, Text, ok, pos,
  lookup, text_eq-ne, Option-cases,
}
use wani.Protocol.Message.{Bytes, SignalMessage, of_type, msg_session_created, msg_session_ready}
use wani.Protocol.Codes.{Rand, generate_code, validate_code}
use wani.Protocol.Codes.Laws.{generate_code-ne-nil}
use wani.Server.Store.{Conn, Store, create_sender, add_receiver}
use wani.Server.Store.Invariant.{IsValid, create_sender-IsValid}
use wani.Server.Store.Roles.{IsSender, IsReceiver, lookup_conn-cases}
use wani.Server.Store.Joining.{
  add_receiver-some_iff, create_sender-IsSender, add_receiver-IsReceiver, add_receiver-IsSender,
}
use wani.Server.World.{Env, World, Frame, write_json}
use wani.Server.Handlers.{
  write_to_sender, write_to_receiver, handle_create_session, announce, handle_join_session,
  relay_to, handle_relay,
}

-- The message that the server forwards: the type and the payload, and no other field.
abbrev pub relayed : String → Bytes → SignalMessage
relayed type payload = record (of_type type) { payload = payload }

module _ (env : Env) (type : String) (payload : Bytes) (w : World) (code : Text) (p : ℕ) where
  -- What a receiver relays is written to the session's sender, with its type and its payload.
  pub relay_receiver :
      (r s : Conn)
      → IsReceiver w.store r code p
      → (w.store.heap p).sender_conn ≡ s
      → handle_relay env r type payload w ≡ write_json env s (relayed type payload) w
  unfolding handle_relay
  relay_receiver r s is_r own =
      rw (is_r.found, handle_relay) (unfold relay_to write_to_sender in rw own)

  pub relay_sender :
      (x r : Conn)
      → IsSender w.store x code p
      → (w.store.heap p).receiver_conn ≡ some r
      → handle_relay env x type payload w ≡ write_json env r (relayed type payload) w
  unfolding handle_relay
  relay_sender x r s live =
      rw (s.found, handle_relay, live, relay_to) (rw (live, write_to_receiver))

-- `y` is at the other end of the session that the store has for `x`.
pub data Peer (ss : Store) (x y : Conn) : Type 0 where
  to_receiver :
      (c : Text) (p : ℕ) → IsSender ss x c p → (ss.heap p).receiver_conn ≡ some y → Peer ss x y
  to_sender : (c : Text) (p : ℕ) → IsReceiver ss x c p → (ss.heap p).sender_conn ≡ y → Peer ss x y

-- What may have been sent after a handler that relays: nothing, or one frame to the peer.
pub data Relayed (ss : Store) (x : Conn) (m : SignalMessage) (old new : List Frame) : Type 0 where
  nothing : new ≡ old → Relayed ss x m old new
  one :
      (y : Conn)
      → Peer ss x y
      → new ≡ old ++ record { to = y; content = m } ∷ []
      → Relayed ss x m old new

module _ (env : Env) where
  write_json-Relayed :
      (ss : Store) (x y : Conn) (m : SignalMessage) (w : World)
      → Peer ss x y
      → ((write_json env y m w).1.store ≡ w.store)
        × Relayed ss x m w.sent (write_json env y m w).1.sent
  unfolding write_json
  write_json-Relayed ss x y m w peer = elim (Option-cases (env.wire w.sent y m)) [
    | inl sent ↦ rw (sent, write_json) (refl, one y peer refl)
    | inr (text, failed) ↦ rw (failed, write_json) (refl, nothing refl)
  ]

  -- In a valid store, relaying leaves the sessions as they are, and writes to nobody but the
  -- connection at the other end of the session, the message with its type and its payload and no
  -- other field.
  pub handle_relay-Relayed :
      (x : Conn) (type : String) (payload : Bytes) (w : World)
      → IsValid w.store
      → let w' = (handle_relay env x type payload w).1 in
        (w'.store ≡ w.store) × Relayed w.store x (relayed type payload) w.sent w'.sent
  handle_relay-Relayed x type payload w v = elim (lookup_conn-cases x w.store v) [
    | inl missing ↦ unfold handle_relay in rw (missing, handle_relay) (refl, nothing refl)
    | inr (c, p, inl s) ↦ elim (Option-cases (w.store.heap p).receiver_conn) [
      | inl none_yet ↦
          unfold handle_relay in rw (s.found, handle_relay, none_yet, relay_to) (refl, nothing refl)
      | inr (r, live) ↦
          rw (relay_sender env type payload w c p x r s live)
            (write_json-Relayed w.store x r _ w (to_receiver c p s live))
    ]
    | inr (c, p, inr r) ↦
        rw (relay_receiver env type payload w c p x _ r refl)
          (write_json-Relayed w.store x _ _ w (to_sender c p r refl))
  ]

-- A network on which every write succeeds.
abbrev pub IsReliable : Env → Type 0
IsReliable env = (fs : List Frame) (c : Conn) (m : SignalMessage) → env.wire fs c m ≡ none

module _ (env : Env) (reliable : IsReliable env) where
  pub write_json-ok :
      (c : Conn) (m : SignalMessage) (w : World)
      → write_json env c m w
        ≡ (ok tt, record w { sent = w.sent ++ record { to = c; content = m } ∷ [] })
  unfolding write_json
  write_json-ok c m w = rw (reliable w.sent c m, write_json)

  create_lem :
      (now : ℕ) (rand : Rand) (s : Conn) (w : World) (code : Text)
      → generate_code env.word_list.words rand (pos 4) ≡ ok code
      → handle_create_session env now rand s w ≡ (
        ok tt,
        record {
          store = (create_sender now code s w.store).0;
          sent =
              w.sent
              ++ record { to = s; content = record (of_type msg_session_created) { code = code } }
                ∷ [];
        },
      )
  unfolding handle_create_session
  create_lem now rand s w code e = rw (e, write_json-ok)

  join_lem :
      (now : ℕ) (r s : Conn) (w : World) (code : Text) (p : ℕ)
      → code ≢ []
      → validate_code env.word_list.word_set code ≡ true
      → (add_receiver now code r w.store).1 ≡ some p
      → ((add_receiver now code r w.store).0.heap p).receiver_conn ≡ some r
      → ((add_receiver now code r w.store).0.heap p).sender_conn ≡ s
      → handle_join_session env now r code w ≡ (
        ok tt,
        record {
          store = (add_receiver now code r w.store).0;
          sent =
              (w.sent ++ record { to = r; content = of_type msg_session_ready } ∷ [])
              ++ record { to = s; content = of_type msg_session_ready } ∷ [];
        },
      )
  unfolding handle_join_session
  join_lem now r s w code p given valid joined own_r own_s =
      rw (text_eq-ne code [] given, valid, joined)
        (unfold announce write_to_receiver write_to_sender in
          rw (own_r, write_to_receiver, write_json-ok, own_s, write_json-ok))

  -- What the server has after a client has created a session and another one has joined it.
  pub paired :
      (t₁ t₂ : ℕ) (rand : Rand) (s r : Conn) (w : World) (code : Text)
      → IsValid w.store
      → s ≢ r
      → generate_code env.word_list.words rand (pos 4) ≡ ok code
      → lookup code w.store.sessions ≡ none
      → validate_code env.word_list.word_set code ≡ true
      → let created = handle_create_session env t₁ rand s w in
        let joined = handle_join_session env t₂ r code created.1 in
        (created.0 ≡ ok tt)
        × (joined.0 ≡ ok tt)
        × (joined.1.sent
            ≡ ((w.sent
                  ++ record {
                    to = s;
                    content = record (of_type msg_session_created) { code = code };
                  }
                    ∷ [])
                ++ record { to = r; content = of_type msg_session_ready } ∷ [])
              ++ record { to = s; content = of_type msg_session_ready } ∷ [])
        × IsSender joined.1.store s code w.store.next
        × IsReceiver joined.1.store r code w.store.next
  paired t₁ t₂ rand s r w code v ne made fresh valid =
      let ss₁ = (create_sender t₁ code s w.store).0 in
      let v₁ = create_sender-IsValid t₁ code s w.store v fresh in
      let is_s = create_sender-IsSender t₁ code s w.store in
      let free : (ss₁.heap w.store.next).receiver_conn ≡ none =
        unfold create_sender in ground arith in
      let joins = (add_receiver-some_iff t₂ code r ss₁ w.store.next v₁).1 (is_s.at, free) in
      let is_r = add_receiver-IsReceiver t₂ code r ss₁ w.store.next v₁ is_s.at free in
      let is_s' = add_receiver-IsSender t₂ code r s ss₁ w.store.next is_s free ne in
      let w₁ : World = record {
        store = ss₁;
        sent =
            w.sent
            ++ record { to = s; content = record (of_type msg_session_created) { code = code } }
              ∷ [];
      } in
      rw
        (
          create_lem t₁ rand s w code made,
          join_lem t₂ r s w₁ code w.store.next
              (generate_code-ne-nil env.word_list.words rand 2 code made) valid joins is_r.own
              is_s'.own,
        )
        (refl, refl, refl, is_s', is_r)

  -- On a reliable network, a client that creates a session is told a code, a second client that
  -- joins by this code is accepted and both are told so, and from then on what either of them
  -- relays is written to the other: the store being valid, the new code not in use, and accepted
  -- by `ValidateCode`.
  pub pairing_lem :
      (t₁ t₂ : ℕ) (rand : Rand) (s r : Conn) (w : World) (code : Text) (type : String)
      (payload : Bytes)
      → IsValid w.store
      → s ≢ r
      → generate_code env.word_list.words rand (pos 4) ≡ ok code
      → lookup code w.store.sessions ≡ none
      → validate_code env.word_list.word_set code ≡ true
      → let w₁ = (handle_create_session env t₁ rand s w).1 in
        let joined = handle_join_session env t₂ r code w₁ in
        let w₂ = joined.1 in
        (joined.0 ≡ ok tt)
        × (w₂.sent
            ≡ ((w.sent
                  ++ record {
                    to = s;
                    content = record (of_type msg_session_created) { code = code };
                  }
                    ∷ [])
                ++ record { to = r; content = of_type msg_session_ready } ∷ [])
              ++ record { to = s; content = of_type msg_session_ready } ∷ [])
        × (handle_relay env s type payload w₂ ≡ write_json env r (relayed type payload) w₂)
        × (handle_relay env r type payload w₂ ≡ write_json env s (relayed type payload) w₂)
  pairing_lem t₁ t₂ rand s r w code type payload v ne made fresh valid =
      let (_, accepted, sent, is_s, is_r) = paired t₁ t₂ rand s r w code v ne made fresh valid in
      let w₂ = (handle_join_session env t₂ r code (handle_create_session env t₁ rand s w).1).1 in
      (
        accepted,
        sent,
        relay_sender env type payload w₂ code w.store.next s r is_s is_r.own,
        relay_receiver env type payload w₂ code w.store.next r s is_r is_s.own,
      )
