-- ===== src/Server/Threads/Safety.antt =====
-- internal/server: what holds however the goroutines of the server are interleaved.
use wani.Base.{
  ℕ, ◌≡◌, refl, sym, ◌∙◌, subst, ◌≢◌, ◌↔◌, inl, inr, Bool, true, false, [], Option, none, some,
  arith, Text, Result, ok, err, panic, Option-cases, Bool-cases, ◌==◌, pos,
}
use wani.Protocol.Message.{SignalMessage}
use wani.Protocol.Codes.{CodeError, generate_code}
use wani.Protocol.Codes.Laws.{generate_code-ne-panic}
use wani.Server.Store.{
  Conn, ConnSide, side_unknown, side_sender, side_receiver, Store, Found, new_session_store,
}
use wani.Server.Store.Invariant.{IsValid, new_session_store-IsValid, delete_session-IsValid}
use wani.Server.World.{
  Env, World, ServerError, write_json, notify_sender, notify_receiver, receiver_not_connected,
}
use wani.Server.Handlers.{write_to_sender, write_to_receiver}
use wani.Server.Threads.{
  Pc, reading, creating, created, joining, telling_receiver, telling_sender, looking, checking,
  to_receiver, to_sender, failing, leaving, forgetting, gone, Turn, same, after_write, after_code,
  after_join, after_look, after_leave, begin, advance, System, started, place, turn, collect,
  delete_next,
}
use wani.Server.Threads.Held.{Held, Keeps-Held, delete_session-Keeps}
use wani.Server.Threads.Reachable.{
  IsFair, Step, runs, collects, deletes, Reach, here, next, Inv, advance-Sound, begin-any,
}

placed-Held :
    (ss : Store) (pcs : Conn → Pc) (conn : Conn) (p : Pc) (x : Conn)
    → Held ss conn p
    → (conn ≢ x → Held ss x (pcs x))
    → Held ss x (place pcs conn p x)
placed-Held ss pcs conn p x own other = elim (Bool-cases (conn == x)) [
  | inl e ↦ rw e (subst (λ y. Held ss y p) (ground (arith, e)) own)
  | inr e ↦ rw e (other (λ h. ground (arith, h, e)))
]

module _ (env : Env) (stocked : env.word_list.words ≢ []) where
  turn-Inv :
      (t : Turn) (conn : Conn) (s : System)
      → Inv env s
      → IsFair env t conn s
      → Inv env (turn env t conn s)
  unfolding turn
  turn-Inv t conn s i g =
      let o = advance-Sound env t conn s (s.pc conn) refl i g (i.held conn) in
      let (pc, w) = advance env t conn (s.pc conn) s.world in
      record {
        valid = o.valid;
        held = λ x.
            placed-Held w.store s.pc conn pc x o.own
              (λ ne. Keeps-Held x (s.pc x) s.world.store w.store (o.others x ne) (i.held x));
      }

  Step-Inv : {s u : System} → Step env s u → Inv env s → Inv env u
  unfolding collect delete_next
  Step-Inv {s} (runs t conn g) i = turn-Inv t conn s i g
  Step-Inv (collects now e) i = record { valid = i.valid; held = i.held }
  Step-Inv {s} (deletes code codes e) i = record {
    valid = delete_session-IsValid code s.world.store i.valid;
    held = λ x.
        Keeps-Held x (s.pc x) _ _ (delete_session-Keeps x (s.pc x) s.world.store i.valid code)
          (i.held x);
  }

  pub Reach-Inv : {s u : System} → Reach env s u → Inv env s → Inv env u
  Reach-Inv here i = i
  Reach-Inv (next r s) i = Step-Inv s (Reach-Inv r i)

  started-Inv : Inv env started
  unfolding started new_session_store
  started-Inv = record { valid = new_session_store-IsValid; held = λ x. tt }

  -- The write of a relay, to a receiver that has left.
  abbrev pub LostReceiver : Pc → World → Type 0
  LostReceiver pc w =
      (p : ℕ) × (m : SignalMessage) × (pc ≡ to_receiver p m)
      × ((w.store.heap p).receiver_conn ≡ none)
      × ((w.store.heap p).receiver_gone ≡ true)

  incoming-panics :
      (t : Turn) (conn : Conn) (s : System) (o : Option SignalMessage)
      → IsFair env t conn s
      → (elim o [ none ↦ leaving false | some m ↦ begin env t.rand m ]) ≢ leaving true
  unfolding after_code
  incoming-panics t conn s none g = λ h. cc
  incoming-panics t conn s (some m) g =
      begin-any env (λ p. p ≢ leaving true) t m (λ c h. cc) (λ c h. cc) (λ m h. cc) (λ e h. cc)
        (coded (generate_code env.word_list.words t.rand (pos 4))
          (generate_code-ne-panic env.word_list.words t.rand (pos 4) g.in_range stocked))
    where
      coded : (r : Result CodeError Text) → r ≢ panic → after_code r ≢ leaving true
      coded (ok c) ne = λ h. cc
      coded (err e) ne = λ h. cc
      coded panic ne = absurd (ne refl)

  written :
      (f : ServerError → ServerError) (after : Pc) (r : Result ServerError (Unit {0}))
      → r ≢ panic
      → after ≢ leaving true
      → after_write f after r ≢ leaving true
  written f after (ok u) alive ne = ne
  written f after (err e) alive ne = λ h. cc
  written f after panic alive ne = absurd (alive refl)

  write_json-alive : (c : Conn) (m : SignalMessage) (w : World) → (write_json env c m w).0 ≢ panic
  unfolding write_json
  write_json-alive c m w = ground arith

  join-alive : (o : Option ℕ) → after_join o ≢ leaving true
  unfolding after_join
  join-alive none = λ h. cc
  join-alive (some p) = λ h. cc

  side-alive :
      (code : Text) (session : Option ℕ) (side : ConnSide) (m : SignalMessage)
      → after_look m (some (record { code = code; session = session; side = side })) ≢ leaving true
  unfolding after_look
  side-alive code session side_unknown m = λ h. cc
  side-alive code session side_sender m = λ h. cc
  side-alive code session side_receiver m = λ h. cc

  look-alive : (m : SignalMessage) (o : Option Found) → after_look m o ≢ leaving true
  unfolding after_look
  look-alive m none = λ h. cc
  look-alive m (some f) = side-alive f.code f.session f.side m

  leave-alive : (crashed : Bool) (o : Option Found) → after_leave crashed o ≢ leaving true
  unfolding after_leave
  leave-alive crashed none = λ h. cc
  leave-alive crashed (some f) = λ h. cc

  check-alive :
      (p : ℕ) (m : SignalMessage) (o : Option Conn)
      → (elim o [ none ↦ failing receiver_not_connected | some c ↦ to_receiver p m ]) ≢ leaving true
  check-alive p m none = λ h. cc
  check-alive p m (some c) = λ h. cc

  -- A write to a receiver that is gone.
  lost-panics :
      (t : Turn) (conn : Conn) (pc : Pc) (w : World)
      → LostReceiver pc w
      → (advance env t conn pc w).0 ≡ leaving true
  unfolding advance write_to_receiver
  lost-panics t conn pc w (p, m, e, lost, left) = rw (e, lost, write_to_receiver) refl

  -- A write to a receiver that is there.
  to_receiver-alive :
      (p : ℕ) (c : Conn) (m : SignalMessage) (w : World)
      → (w.store.heap p).receiver_conn ≡ some c
      → (write_to_receiver env p m w).0 ≢ panic
  unfolding write_to_receiver
  to_receiver-alive p c m w there = rw (there, write_to_receiver) (write_json-alive c m w)

  panics_only :
      (t : Turn) (conn : Conn) (s : System) (pc : Pc)
      → IsFair env t conn s
      → Held s.world.store conn pc
      → (advance env t conn pc s.world).0 ≡ leaving true
      → LostReceiver pc s.world
  unfolding advance write_to_sender
  panics_only t conn s reading g h e = absurd (incoming-panics t conn s t.incoming g e)
  panics_only t conn s (creating code) g h e = absurd cc
  panics_only t conn s (created code) g h e =
      absurd (written same reading _ (write_json-alive conn _ s.world) (λ h. cc) e)
  panics_only t conn s (joining code) g h e = absurd (join-alive _ e)
  panics_only t conn s (telling_receiver p) g h e = absurd (
      written notify_receiver (telling_sender p) _ (to_receiver-alive p conn _ s.world h.0)
        (λ h. cc) e)
  panics_only t conn s (telling_sender p) g h e =
      absurd (written notify_sender reading _ (write_json-alive _ _ s.world) (λ h. cc) e)
  panics_only t conn s (looking m) g h e = absurd (look-alive m _ e)
  panics_only t conn s (checking none m) g h e = absurd cc
  panics_only t conn s (checking (some p) m) g h e = absurd (check-alive p m _ e)
  panics_only t conn s (to_receiver p m) g h e =
      elim (Option-cases (s.world.store.heap p).receiver_conn) [
        | inl lost ↦ (p, m, refl, lost, ground (arith, h.0, lost))
        | inr (c, there) ↦
            absurd (written same reading _ (to_receiver-alive p c m s.world there) (λ h. cc) e)
      ]
  panics_only t conn s (to_sender none m) g h e = absurd cc
  panics_only t conn s (to_sender (some p) m) g h e =
      absurd (written same reading _ (write_json-alive _ _ s.world) (λ h. cc) e)
  panics_only t conn s (failing x) g h e = absurd cc
  panics_only t conn s (leaving crashed) g h e = absurd (leave-alive crashed _ e)
  panics_only t conn s (forgetting crashed code side) g h e = absurd cc
  panics_only t conn s (gone crashed) g h e = absurd cc

  placed : (pcs : Conn → Pc) (conn : Conn) (p : Pc) → place pcs conn p conn ≡ p
  placed pcs conn p = ground arith

  -- However the steps of the goroutines and of the clean-up follow one another, if the word list is
  -- not empty, the draws of every turn are in range, and every code that a turn stores is the code of
  -- no session and about to be forgotten by no goroutine: after each turn the store is valid, and the
  -- turn has made its goroutine dereference a nil pointer, or read a word out of range, exactly if it
  -- stood before the write of a relay to a receiver that had joined and has left. Every write is one
  -- step, so that a panic inside the WebSocket library, as at two writers on one connection, is not
  -- considered.
  pub turn-LostReceiver :
      {s : System} (t : Turn) (conn : Conn)
      → Reach env started s
      → IsFair env t conn s
      → IsValid (turn env t conn s).world.store
        × (((turn env t conn s).pc conn ≡ leaving true) ↔ LostReceiver (s.pc conn) s.world)
  unfolding turn
  turn-LostReceiver {s} t conn r g =
      let i = Reach-Inv r started-Inv in
      let o = advance env t conn (s.pc conn) s.world in
      (
        (turn-Inv t conn s i g).valid,
        (
          λ h. panics_only t conn s (s.pc conn) g (i.held conn) (sym (placed s.pc conn o.0) ∙ h),
          λ h. placed s.pc conn o.0 ∙ lost-panics t conn (s.pc conn) s.world h,
        ),
      )
