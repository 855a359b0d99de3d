-- ===== src/Server/Handlers/Dispatch.antt =====
-- internal/server/ws.go: `dispatch` and the clean-up of a connection, in a valid server.
use wani.Base.{
  ℕ, ◌≡◌, refl, ◌≢◌, inl, inr, Bool, true, false, [], none, String, Text, Result, ok, err, panic,
  wrap, pos, lookup, if◌then◌else◌, str_eq,
}
use wani.Protocol.Message.{
  SignalMessage, of_type, msg_create_session, msg_join_session, msg_relay, msg_ice_candidate,
  msg_ice_credentials, msg_session_created,
}
use wani.Protocol.Codes.{CodeError, Rand, generate_code}
use wani.Protocol.Codes.Laws.{IsInRange, generate_code-ne-panic}
use wani.Server.Store.{Conn, create_sender, lookup_conn}
use wani.Server.Store.Invariant.{
  IsValid, create_sender-IsValid, disconnect_receiver-IsValid, delete_session-IsValid,
}
use wani.Server.Store.Roles.{lookup_conn-cases, lookup_conn-delete, lookup_conn-disconnect}
use wani.Base.State.{bind, ◌>>◌, modify}
use wani.Server.World.{Env, World, M, ServerError, generate_failed, unknown_type, write_json}
use wani.Server.Handlers.{handle_create_session, handle_relay, dispatch, write_err, cleanup_conn}
use wani.Server.Handlers.Safety.{
  Safe, write_json-Safe, fail-Safe, handle_relay-Safe, handle_join_session-Safe,
}

-- A connection that closes leaves the store valid.
pub cleanup_conn-IsValid :
    (now : ℕ) (conn : Conn) (w : World) → IsValid w.store → IsValid (cleanup_conn now conn w).store
unfolding cleanup_conn
cleanup_conn-IsValid now conn w v = elim (lookup_conn-cases conn w.store v) [
  | inl missing ↦ rw (missing, cleanup_conn) v
  | inr (c, p, inl s) ↦ rw (s.found, cleanup_conn) (delete_session-IsValid c w.store v)
  | inr (c, p, inr r) ↦ rw (r.found, cleanup_conn) (disconnect_receiver-IsValid now c w.store v)
]

-- Once a connection is cleaned up, no later message can be routed by it.
pub cleanup_conn-forgets :
    (now : ℕ) (conn : Conn) (w : World)
    → IsValid w.store
    → lookup_conn conn (cleanup_conn now conn w).store ≡ none
unfolding cleanup_conn
cleanup_conn-forgets now conn w v = elim (lookup_conn-cases conn w.store v) [
  | inl missing ↦ rw (missing, cleanup_conn) missing
  | inr (c, p, inl s) ↦ rw (s.found, cleanup_conn) (lookup_conn-delete conn w.store c p s)
  | inr (c, p, inr r) ↦ rw (r.found, cleanup_conn) (lookup_conn-disconnect now conn w.store c p r)
]

module _ (env : Env) where
  -- What a message needs of its surroundings: random numbers in range, and a new code that is not
  -- in use, if it comes to a new code.
  pub record IsGood (rand : Rand) (w : World) : Type 0 where
    pub in_range : IsInRange rand
    pub fresh :
        (code : Text)
        → generate_code env.word_list.words rand (pos 4) ≡ ok code
        → lookup code w.store.sessions ≡ none

  pub handle_create_session-Safe :
      (now : ℕ) (rand : Rand) (conn : Conn) (w : World)
      → env.word_list.words ≢ []
      → IsGood rand w
      → IsValid w.store
      → Safe (handle_create_session env now rand conn w)
  unfolding handle_create_session
  handle_create_session-Safe now rand conn w h g v =
      let code = generate_code env.word_list.words rand (pos 4) in
      let alive = generate_code-ne-panic env.word_list.words rand (pos 4) g.in_range h in
      created code alive g.fresh
    where
      after : Text → M (Unit {0})
      after c = do
        modify (λ u. record u { store = (create_sender now c conn u.store).0 })
        write_json env conn (record (of_type msg_session_created) { code = c })

      created :
          (r : Result CodeError Text)
          → r ≢ panic
          → ((c : Text) → r ≡ ok c → lookup c w.store.sessions ≡ none)
          → Safe (bind (wrap generate_failed r, w) after)
      created (ok c) alive fresh =
          write_json-Safe env conn _ _ (create_sender-IsValid now c conn w.store v (fresh c refl))
      created (err e) alive fresh = fail-Safe env (generate_failed e) w v
      created panic alive fresh = absurd (alive refl)

  -- No message, whatever its type and its fields, panics a valid server, and the store is valid
  -- afterwards, also where the handler returns an error.
  pub dispatch-Safe :
      (now : ℕ) (rand : Rand) (conn : Conn) (m : SignalMessage) (w : World)
      → env.word_list.words ≢ []
      → IsGood rand w
      → IsValid w.store
      → Safe (dispatch env now rand conn m w)
  unfolding dispatch
  dispatch-Safe now rand conn m w h g v =
      chosen (str_eq m.type msg_create_session) _ _
        (handle_create_session-Safe now rand conn w h g v)
        (chosen (str_eq m.type msg_join_session) _ _
          (handle_join_session-Safe env now conn m.code w v)
          (chosen (str_eq m.type msg_relay) _ _ (relayed msg_relay) (
            chosen (str_eq m.type msg_ice_candidate) _ _ (relayed msg_ice_candidate) (
              chosen (str_eq m.type msg_ice_credentials) _ _ (relayed msg_ice_credentials)
                (fail-Safe env (unknown_type m.type) w v)))))
    where
      chosen :
          (b : Bool) (f g : M (Unit {0})) → Safe (f w) → Safe (g w) → Safe ((if b then f else g) w)
      chosen true f g sf sg = sf
      chosen false f g sf sg = sg

      relayed : (t : String) → Safe (handle_relay env conn t m.payload w)
      relayed t = handle_relay-Safe env conn t m.payload w v

  pub write_err-IsValid :
      (conn : Conn) (e : ServerError) (w : World)
      → IsValid w.store
      → IsValid (write_err env conn e w).store
  unfolding write_err
  write_err-IsValid conn e w v = (write_json-Safe env conn _ w v).valid
