-- ===== src/Server/Threads/Alone.antt =====
-- internal/server/ws.go: a goroutine that no other one interrupts, against the handlers as they are
-- written, each in one go.
use wani.Base.{
  ℕ, zero, suc, ◌≡◌, refl, Bool, true, false, Option, none, some, Text, Result, ok, err, panic,
  wrap, pos, str_eq, text_eq, not, [], String, if◌then◌else◌,
}
use wani.Base.State.{bind, ◌>>=◌, within}
use wani.Protocol.Message.{
  Bytes, SignalMessage, of_type, msg_create_session, msg_join_session, msg_relay, msg_ice_candidate,
  msg_ice_credentials, msg_session_ready,
}
use wani.Protocol.Codes.{CodeError, generate_code, validate_code}
use wani.Server.Store.{
  Conn, ConnSide, side_unknown, side_sender, side_receiver, Found, lookup_conn, add_receiver,
}
use wani.Server.World.{
  Env, World, M, missing_code, invalid_code_format, unknown_type, ServerError, notify_receiver,
  notify_sender, no_session, receiver_not_connected, write_json,
}
use wani.Server.Handlers.{
  join_store, write_to_sender, write_to_receiver, handle_create_session, handle_join_session,
  announce, handle_relay, relay_to, dispatch, write_err, cleanup_side, cleanup_conn, finish,
}
use wani.Server.Threads.{
  Pc, reading, joining, telling_sender, to_receiver, failing, leaving, gone, Turn, after_write,
  after_code, after_join, after_look, after_leave, same, begin_join, begin, advance, relaying,
}

is_idle : Pc → Bool
is_idle reading = true
is_idle (gone crashed) = true
is_idle _ = false

module _ (env : Env) where
  -- At most so many steps of one goroutine, until it is back at its loop or has left it.
  unfoldable pub settle : ℕ → Turn → Conn → Pc → World → Pc × World
  unfolding is_idle
  settle zero t conn pc w = (pc, w)
  settle (suc n) t conn pc w = elim (is_idle pc) [
    | true ↦ (pc, w)
    | false ↦ settle n t conn (advance env t conn pc w).0 (advance env t conn pc w).1
  ]

  abbrev pub settled : World × Bool → Pc × World
  settled (w, true) = (reading, w)
  settled (w, false) = (gone true, w)

  idle : (n : ℕ) (t : Turn) (conn : Conn) (w : World) → settle n t conn reading w ≡ (reading, w)
  unfolding settle
  idle zero t conn w = refl
  idle (suc n) t conn w = refl

  left :
      (n : ℕ) (t : Turn) (conn : Conn) (o : Option Found) (w : World)
      → settle (suc n) t conn (after_leave true o) w ≡ (
        gone true,
        elim o [
          | none ↦ w
          | some f ↦ record w { store = cleanup_side t.now f.code f.side w.store }
        ],
      )
  unfolding settle advance after_leave
  left n t conn none w = refl
  left zero t conn (some f) w = refl
  left (suc n) t conn (some f) w = refl

  leaves :
      (n : ℕ) (t : Turn) (conn : Conn) (w : World)
      → settle (suc (suc n)) t conn (leaving true) w ≡ (gone true, cleanup_conn t.now conn w)
  unfolding settle advance cleanup_conn
  leaves n t conn w = left n t conn (lookup_conn conn w.store) w

  fails :
      (n : ℕ) (t : Turn) (conn : Conn) (e : ServerError) (w : World)
      → settle (suc n) t conn (failing e) w ≡ (reading, write_err env conn e w)
  unfolding settle advance
  fails n t conn e w = idle n t conn _

  -- What is left of a turn when a handler has its result.
  settle-result :
      (n : ℕ) (t : Turn) (conn : Conn) (o : Result ServerError (Unit {0}) × World)
      → settle (suc (suc n)) t conn (after_write same reading o.0) o.1
        ≡ settled (finish env t.now conn o)
  unfolding finish
  settle-result n t conn (ok u, w) = idle (suc (suc n)) t conn w
  settle-result n t conn (err e, w) = fails (suc n) t conn e w
  settle-result n t conn (panic, w) = leaves n t conn w

  creates :
      (t : Turn) (conn : Conn) (r : Result CodeError Text) (w : World)
      → generate_code env.word_list.words t.rand (pos 4) ≡ r
      → settle 6 t conn (after_code r) w
        ≡ settled (finish env t.now conn (handle_create_session env t.now t.rand conn w))
  unfolding settle advance after_code finish handle_create_session write_json
  creates t conn (ok code) w e = rw (e, handle_create_session) (settle-result 2 t conn _)
  creates t conn (err x) w e = rw (e, handle_create_session) (fails 5 t conn _ w)
  creates t conn panic w e = rw (e, handle_create_session) (leaves 4 t conn w)

  -- The second notice of a session that is ready.
  notices_sender :
      (t : Turn) (conn : Conn) (o : Result ServerError (Unit {0}) × World)
      → settle 3 t conn (after_write notify_sender reading o.0) o.1
        ≡ settled (finish env t.now conn (wrap notify_sender o.0, o.1))
  unfolding finish
  notices_sender t conn (ok u, w) = idle 3 t conn w
  notices_sender t conn (err e, w) = fails 2 t conn _ w
  notices_sender t conn (panic, w) = leaves 1 t conn w

  notices :
      (t : Turn) (conn : Conn) (p : ℕ) (o : Result ServerError (Unit {0}) × World)
      → settle 4 t conn (after_write notify_receiver (telling_sender p) o.0) o.1
        ≡ settled (
            finish env t.now conn (
              bind
                (wrap notify_receiver o.0, o.1)
                (λ _. within notify_sender (write_to_sender env p (of_type msg_session_ready)))))
  unfolding settle advance finish
  notices t conn p (ok u, w) =
      notices_sender t conn (write_to_sender env p (of_type msg_session_ready) w)
  notices t conn p (err e, w) = fails 3 t conn _ w
  notices t conn p (panic, w) = leaves 2 t conn w

  joined :
      (t : Turn) (conn : Conn) (o : Option ℕ) (w : World)
      → settle 5 t conn (after_join o) w ≡ settled (finish env t.now conn (announce env o w))
  unfolding settle advance after_join announce finish
  joined t conn none w = fails 4 t conn _ w
  joined t conn (some p) w =
      notices t conn p (write_to_receiver env p (of_type msg_session_ready) w)

  checked :
      (t : Turn) (conn : Conn) (p : ℕ) (m : SignalMessage) (o : Option Conn) (w : World)
      → settle 4 t conn
          (elim o [ none ↦ failing receiver_not_connected | some c ↦ to_receiver p m ])
          w
        ≡ settled (
            finish env t.now conn (elim o [
              | none ↦ (err receiver_not_connected, w)
              | some c ↦ write_to_receiver env p m w
            ]))
  unfolding settle advance finish
  checked t conn p m none w = fails 3 t conn _ w
  checked t conn p m (some c) w = settle-result 1 t conn (write_to_receiver env p m w)

  relays_to :
      (t : Turn) (conn : Conn) (m : SignalMessage) (code : Text) (session : Option ℕ)
      (side : ConnSide) (w : World)
      → settle 5 t conn
          (after_look m (some (record { code = code; session = session; side = side })))
          w
        ≡ settled (finish env t.now conn (relay_to env side session m w))
  unfolding settle advance after_look relay_to finish
  relays_to t conn m code session side_unknown w = fails 4 t conn _ w
  relays_to t conn m code none side_sender w = leaves 2 t conn w
  relays_to t conn m code (some p) side_sender w =
      checked t conn p m (w.store.heap p).receiver_conn w
  relays_to t conn m code none side_receiver w = leaves 2 t conn w
  relays_to t conn m code (some p) side_receiver w =
      settle-result 2 t conn (write_to_sender env p m w)

  relays :
      (t : Turn) (conn : Conn) (m : SignalMessage) (o : Option Found) (w : World)
      → settle 5 t conn (after_look m o) w
        ≡ settled (
            finish env t.now conn
              (elim o [ none ↦ (err no_session, w) | some f ↦ relay_to env f.side f.session m w ]))
  unfolding after_look finish
  relays t conn m none w = fails 4 t conn _ w
  relays t conn m (some f) w = relays_to t conn m f.code f.session f.side w

  relayed :
      (t : Turn) (conn : Conn) (type : String) (payload : Bytes) (w : World)
      → settle 6 t conn (relaying type payload) w
        ≡ settled (finish env t.now conn (handle_relay env conn type payload w))
  unfolding settle advance handle_relay
  relayed t conn type payload w = relays t conn _ (lookup_conn conn w.store) w

  -- A place and an action that a test selects together.
  both :
      (t : Turn) (conn : Conn) (w : World) (b : Bool) (p q : Pc) (f g : M (Unit {0}))
      → settle 6 t conn p w ≡ settled (finish env t.now conn (f w))
      → settle 6 t conn q w ≡ settled (finish env t.now conn (g w))
      → settle 6 t conn (if b then p else q) w
        ≡ settled (finish env t.now conn ((if b then f else g) w))
  both t conn w true p q f g hp hq = hp
  both t conn w false p q f g hp hq = hq

  fails_with :
      (t : Turn) (conn : Conn) (e : ServerError) (w : World)
      → settle 6 t conn (failing e) w ≡ settled (finish env t.now conn (err e, w))
  unfolding finish
  fails_with t conn e w = fails 5 t conn e w

  joins :
      (t : Turn) (conn : Conn) (code : Text) (w : World)
      → settle 6 t conn (joining code) w
        ≡ settled (finish env t.now conn ((join_store env t.now code conn >>= announce env) w))
  unfolding settle advance
  joins t conn code w =
      let (ss, p) = add_receiver t.now code conn w.store in
      joined t conn p (record w { store = ss })

  begins_join :
      (t : Turn) (conn : Conn) (code : Text) (w : World)
      → settle 6 t conn (begin_join env code) w
        ≡ settled (finish env t.now conn (handle_join_session env t.now conn code w))
  unfolding handle_join_session begin_join
  begins_join t conn code w =
      both t conn w (text_eq code []) _ _ _ _ (fails_with t conn missing_code w) (
        both t conn w (not (validate_code env.word_list.word_set code)) _ _ _ _
          (fails_with t conn invalid_code_format w) (joins t conn code w))

  -- A goroutine that no other one interrupts is back at its loop, or has left it after a panic, within
  -- six steps from where a message sends it, and the world is the one that the handler for the
  -- message and what follows it leave when they run in one go.
  pub settle-finish :
      (t : Turn) (conn : Conn) (m : SignalMessage) (w : World)
      → settle 6 t conn (begin env t.rand m) w
        ≡ settled (finish env t.now conn (dispatch env t.now t.rand conn m w))
  unfolding begin dispatch
  settle-finish t conn m w =
      both t conn w (str_eq m.type msg_create_session) _ _ _ _ (creates t conn _ w refl) (
        both t conn w (str_eq m.type msg_join_session) _ _ _ _ (begins_join t conn m.code w) (
          both t conn w (str_eq m.type msg_relay) _ _ _ _ (relayed t conn msg_relay m.payload w) (
            both t conn w (str_eq m.type msg_ice_candidate) _ _ _ _
              (relayed t conn msg_ice_candidate m.payload w)
              (both t conn w (str_eq m.type msg_ice_credentials) _ _ _ _
                (relayed t conn msg_ice_credentials m.payload w)
                (fails_with t conn (unknown_type m.type) w)))))
