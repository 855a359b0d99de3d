-- ===== src/Server/Threads.antt =====
-- internal/server/ws.go and sessions.go: the goroutines of the server, one lock at a time. Between
-- two operations of the store, and between an operation and a write, any other goroutine may run;
-- `handleRelay` reads `session.receiverConn` without a lock. A `Pc` is where the goroutine of a
-- connection stands, with the local variables that are live there.
pub mod Held
pub mod Reachable
pub mod Safety
pub mod Alone
pub mod Races
mod Tests
use wani.Base.{
  ℕ, ◌≡◌, Bool, true, false, not, List, [], ◌∷◌, Option, none, some, String, Text, Result, ok, err,
  panic, wrap, pos, text_eq, str_eq, lookup, if◌then◌else◌, ◌==◌,
}
use wani.Protocol.Message.{
  Bytes, SignalMessage, of_type, msg_create_session, msg_join_session, msg_relay, msg_ice_candidate,
  msg_ice_credentials, msg_session_created, msg_session_ready,
}
use wani.Protocol.Codes.{CodeError, Rand, generate_code, validate_code}
use wani.Server.Store.{
  Conn, ConnSide, side_unknown, side_sender, side_receiver, Store, Found, create_sender,
  add_receiver, lookup_conn, delete_session, expired, new_session_store,
}
use wani.Server.World.{
  Env, World, ServerError, generate_failed, missing_code, invalid_code_format, not_found_or_joined,
  notify_receiver, notify_sender, no_session, receiver_not_connected, unknown_side, unknown_type,
  write_json,
}
use wani.Server.Handlers.{write_to_sender, write_to_receiver, write_err, cleanup_side}

-- `leaving` and what follows it note whether the goroutine panicked. A write is one step and panics
-- only on a nil connection; that the library may panic at two writers on one connection is left out.
pub data Pc : Type 0 where
  reading : Pc
  creating : Text → Pc
  created : Text → Pc
  joining : Text → Pc
  telling_receiver : ℕ → Pc
  telling_sender : ℕ → Pc
  looking : SignalMessage → Pc
  checking : Option ℕ → SignalMessage → Pc
  to_receiver : ℕ → SignalMessage → Pc
  to_sender : Option ℕ → SignalMessage → Pc
  failing : ServerError → Pc
  leaving : Bool → Pc
  forgetting : Bool → Text → ConnSide → Pc
  gone : Bool → Pc

-- What a goroutine meets at a step: the time, random draws, and what `ReadJSON` returns.
pub record Turn : Type 0 where
  pub now : ℕ
  pub rand : Rand
  pub incoming : Option SignalMessage

-- The error of a write is returned by the handler; a panic runs the deferred clean-up.
abbrev pub after_write : (ServerError → ServerError) → Pc → Result ServerError (Unit {0}) → Pc
after_write f next (ok u) = next
after_write f next (err e) = failing (f e)
after_write f next panic = leaving true

abbrev pub same : ServerError → ServerError
same e = e

unfoldable pub after_code : Result CodeError Text → Pc
after_code (ok code) = creating code
after_code (err e) = failing (generate_failed e)
after_code panic = leaving true

abbrev pub relaying : String → Bytes → Pc
relaying type payload = looking (record (of_type type) { payload = payload })

after_join : Option ℕ → Pc
after_join none = failing not_found_or_joined
after_join (some p) = telling_receiver p

after_look : SignalMessage → Option Found → Pc
after_look m none = failing no_session
after_look m (some f) = by_side f.side f.session
  where
    by_side : ConnSide → Option ℕ → Pc
    by_side side_sender session = checking session m
    by_side side_receiver session = to_sender session m
    by_side side_unknown session = failing unknown_side

after_leave : Bool → Option Found → Pc
after_leave crashed none = gone crashed
after_leave crashed (some f) = forgetting crashed f.code f.side

module _ (env : Env) where
  -- `handleJoinSession`, up to its first operation on the store.
  unfoldable pub begin_join : Text → Pc
  begin_join code =
      if text_eq code []
      then failing missing_code
      else if not (validate_code env.word_list.word_set code)
      then failing invalid_code_format
      else joining code

  -- `dispatch`, up to the first operation on the store.
  unfoldable pub begin : Rand → SignalMessage → Pc
  unfolding after_code begin_join
  begin rand m =
      if str_eq m.type msg_create_session
      then after_code (generate_code env.word_list.words rand (pos 4))
      else if str_eq m.type msg_join_session
      then begin_join m.code
      else if str_eq m.type msg_relay
      then relaying msg_relay m.payload
      else if str_eq m.type msg_ice_candidate
      then relaying msg_ice_candidate m.payload
      else if str_eq m.type msg_ice_credentials
      then relaying msg_ice_credentials m.payload
      else failing (unknown_type m.type)

  -- A write, and where the goroutine goes on.
  abbrev pub writing :
      (ServerError → ServerError) → Pc → Result ServerError (Unit {0}) × World → Pc × World
  writing f next (r, w) = (after_write f next r, w)

  -- One step of the goroutine of `conn`.
  unfoldable pub advance : Turn → Conn → Pc → World → Pc × World
  unfolding begin after_join after_look after_leave
  advance t conn reading w = (elim t.incoming [ none ↦ leaving false | some m ↦ begin t.rand m ], w)
  advance t conn (creating code) w =
      (created code, record w { store = (create_sender t.now code conn w.store).0 })
  advance t conn (created code) w =
      writing same reading
        (write_json env conn (record (of_type msg_session_created) { code = code }) w)
  advance t conn (joining code) w =
      let (ss, p) = add_receiver t.now code conn w.store in (after_join p, record w { store = ss })
  advance t conn (telling_receiver p) w =
      writing notify_receiver (telling_sender p)
        (write_to_receiver env p (of_type msg_session_ready) w)
  advance t conn (telling_sender p) w =
      writing notify_sender reading (write_to_sender env p (of_type msg_session_ready) w)
  advance t conn (looking m) w = (after_look m (lookup_conn conn w.store), w)
  advance t conn (checking none m) w = (leaving true, w)
  advance t conn (checking (some p) m) w = (
    elim (w.store.heap p).receiver_conn [
      | none ↦ failing receiver_not_connected
      | some c ↦ to_receiver p m
    ],
    w,
  )
  advance t conn (to_receiver p m) w = writing same reading (write_to_receiver env p m w)
  advance t conn (to_sender none m) w = (leaving true, w)
  advance t conn (to_sender (some p) m) w = writing same reading (write_to_sender env p m w)
  advance t conn (failing e) w = (reading, write_err env conn e w)
  advance t conn (leaving crashed) w = (after_leave crashed (lookup_conn conn w.store), w)
  advance t conn (forgetting crashed code side) w =
      (gone crashed, record w { store = cleanup_side t.now code side w.store })
  advance t conn (gone crashed) w = (gone crashed, w)

-- The server: the goroutine of each connection, and the codes that the one of the clean-up has
-- collected and has still to delete.
pub record System : Type 0 where
  pub world : World
  pub pc : Conn → Pc
  pub doomed : List Text

-- A server that starts: no session, and every goroutine, of connections yet to come too, at its loop.
unfoldable pub started : System
started = record {
  world = record { store = new_session_store; sent = [] };
  pc = λ _. reading;
  doomed = [];
}

abbrev pub place : (Conn → Pc) → Conn → Pc → Conn → Pc
place pcs conn p x = if conn == x then p else pcs x

module _ (env : Env) where
  unfoldable pub turn : Turn → Conn → System → System
  unfolding advance
  turn t conn s =
      let (p, w) = advance env t conn (s.pc conn) s.world in
      record s { world = w; pc = place s.pc conn p }

  -- The two parts of `evictExpired`: under the lock, and one `Delete`.
  unfoldable pub collect : ℕ → System → System
  collect now s = record s { doomed = expired now s.world.store.heap s.world.store.sessions }

  unfoldable pub delete_next : Text → List Text → System → System
  delete_next code codes s = record s {
    world = record (s.world) { store = delete_session code s.world.store };
    doomed = codes;
  }
