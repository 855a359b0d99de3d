-- ===== src/Server/Handlers.antt =====
-- internal/server/ws.go: the handlers, and the read loop of a connection.
pub mod Safety
pub mod Dispatch
pub mod Loop
pub mod Pairing
pub mod Channel
pub mod Served
use wani.Base.{
  ℕ, ◌≡◌, Bool, true, false, not, List, [], ◌∷◌, Option, none, some, String, Text, Result, ok, err,
  panic, wrap, pos, text_eq, if◌then◌else◌, str_eq,
}
use wani.Protocol.Message.{
  Bytes, SignalMessage, of_type, msg_create_session, msg_join_session, msg_relay, msg_ice_candidate,
  msg_ice_credentials, msg_session_created, msg_session_ready, msg_error,
}
use wani.Protocol.Codes.{Rand, generate_code, validate_code}
use wani.Server.Store.{
  Conn, ConnSide, side_unknown, side_sender, side_receiver, Store, Found, create_sender,
  add_receiver, lookup_conn, disconnect_receiver, delete_session,
}
use wani.Base.State.{return, fail, bind, ◌>>=◌, ◌>>◌, within, lift, modify}
use wani.Server.World.{
  Env, World, M, ServerError, generate_failed, missing_code, invalid_code_format,
  not_found_or_joined, notify_receiver, notify_sender, no_session, receiver_not_connected,
  unknown_side, unknown_type, write_json, error_text,
}

-- One message that arrives on a connection, with the time and the random draws it meets.
pub record Arrival : Type 0 where
  pub now : ℕ
  pub rand : Rand
  pub content : SignalMessage

unfoldable pub cleanup_side : ℕ → Text → ConnSide → Store → Store
cleanup_side now code side_receiver ss = disconnect_receiver now code ss
cleanup_side now code side_sender ss = delete_session code ss
cleanup_side now code side_unknown ss = delete_session code ss

unfoldable pub cleanup_conn : ℕ → Conn → World → World
unfolding cleanup_side
cleanup_conn now conn w = elim (lookup_conn conn w.store) [
  | none ↦ w
  | some f ↦ record w { store = cleanup_side now f.code f.side w.store }
]

module _ (env : Env) where
  -- The methods of `*Session`. A nil receiver connection panics in `WriteJSON`.
  unfoldable pub write_to_sender : ℕ → SignalMessage → M (Unit {0})
  write_to_sender p m w = write_json env (w.store.heap p).sender_conn m w

  unfoldable pub write_to_receiver : ℕ → SignalMessage → M (Unit {0})
  write_to_receiver p m w = elim (w.store.heap p).receiver_conn [
    | none ↦ (panic, w)
    | some c ↦ write_json env c m w
  ]

  unfoldable pub handle_create_session : ℕ → Rand → Conn → M (Unit {0})
  handle_create_session now rand conn = do
    code ← lift (wrap generate_failed (generate_code env.word_list.words rand (pos 4)))
    modify (λ w. record w { store = (create_sender now code conn w.store).0 })
    write_json env conn (record (of_type msg_session_created) { code = code })

  -- The part of `handleJoinSession` behind `AddReceiver`.
  unfoldable pub announce : Option ℕ → M (Unit {0})
  unfolding write_to_sender write_to_receiver
  announce none = fail not_found_or_joined
  announce (some p) = do
    within notify_receiver (write_to_receiver p (of_type msg_session_ready))
    within notify_sender (write_to_sender p (of_type msg_session_ready))

  -- `s.store.AddReceiver(code, conn)` as an action.
  abbrev pub join_store : ℕ → Text → Conn → M (Option ℕ)
  join_store now code conn w =
      let (ss, p) = add_receiver now code conn w.store in (ok p, record w { store = ss })

  unfoldable pub handle_join_session : ℕ → Conn → Text → M (Unit {0})
  unfolding announce
  handle_join_session now conn code =
      if text_eq code []
      then fail missing_code
      else if not (validate_code env.word_list.word_set code)
      then fail invalid_code_format
      else (join_store now code conn >>= announce)

  -- `handleRelay` behind its look-up, by the side of the connection. A nil session panics where one
  -- of its fields is read.
  unfoldable pub relay_to : ConnSide → Option ℕ → SignalMessage → M (Unit {0})
  unfolding write_to_sender write_to_receiver
  relay_to side_sender none m w = (panic, w)
  relay_to side_sender (some p) m w = elim (w.store.heap p).receiver_conn [
    | none ↦ (err receiver_not_connected, w)
    | some c ↦ write_to_receiver p m w
  ]
  relay_to side_receiver none m w = (panic, w)
  relay_to side_receiver (some p) m w = write_to_sender p m w
  relay_to side_unknown session m w = (err unknown_side, w)

  unfoldable pub handle_relay : Conn → String → Bytes → M (Unit {0})
  unfolding relay_to
  handle_relay conn type payload w = elim (lookup_conn conn w.store) [
    | none ↦ (err no_session, w)
    | some f ↦ relay_to f.side f.session (record (of_type type) { payload = payload }) w
  ]

  unfoldable pub dispatch : ℕ → Rand → Conn → SignalMessage → M (Unit {0})
  dispatch now rand conn m =
      if str_eq m.type msg_create_session
      then handle_create_session now rand conn
      else if str_eq m.type msg_join_session
      then handle_join_session now conn m.code
      else if str_eq m.type msg_relay
      then handle_relay conn msg_relay m.payload
      else if str_eq m.type msg_ice_candidate
      then handle_relay conn msg_ice_candidate m.payload
      else if str_eq m.type msg_ice_credentials
      then handle_relay conn msg_ice_credentials m.payload
      else fail (unknown_type m.type)

  -- `_ = conn.WriteJSON(...)`: a failed write is ignored.
  unfoldable pub write_err : Conn → ServerError → World → World
  write_err conn e w =
      (write_json env conn (record (of_type msg_error) { message = error_text env.quote e }) w).1

  -- What the read loop does behind `dispatch`: after an error it goes on, after a panic the
  -- deferred clean-up runs and the loop is left. The Boolean says whether it goes on.
  unfoldable pub finish : ℕ → Conn → Result ServerError (Unit {0}) × World → World × Bool
  finish now conn (ok _, w) = (w, true)
  finish now conn (err e, w) = (write_err conn e w, true)
  finish now conn (panic, w) = (cleanup_conn now conn w, false)

  -- The loop of `handleWS` over the messages that arrive; then a read fails at the time `closed`.
  unfoldable pub handle_ws : Conn → ℕ → List Arrival → World → World
  handle_ws conn closed [] w = cleanup_conn closed conn w
  handle_ws conn closed (a ∷ later) w =
      let (w', live) = finish a.now conn (dispatch a.now a.rand conn a.content w) in
      let rest = handle_ws conn closed later w' in if live then rest else w'
