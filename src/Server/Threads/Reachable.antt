-- ===== src/Server/Threads/Reachable.antt =====
-- internal/server: the states that the goroutines of the server reach, in any order of their steps.
use wani.Base.{
  ℕ, ◌<◌, ◌≡◌, refl, sym, subst, ◌≢◌, inl, inr, Bool, true, false, List, [], ◌∷◌, Option, none,
  some, arith, Text, Result, ok, err, panic, lookup, if◌then◌else◌, pos, text_eq, str_eq, not,
}
use wani.Protocol.Message.{
  msg_create_session, msg_join_session, msg_relay, msg_ice_candidate, msg_ice_credentials,
  SignalMessage,
}
use wani.Protocol.Codes.{CodeError, generate_code, validate_code}
use wani.Protocol.Codes.Laws.{IsInRange}
use wani.Server.Store.{
  Conn, ConnSide, side_unknown, side_sender, side_receiver, Store, add_receiver, attach, forget,
  lookup_conn, delete_session,
}
use wani.Server.Store.Invariant.{
  IsValid, create_sender-IsValid, add_receiver-IsValid, disconnect_receiver-IsValid,
  delete_session-IsValid,
}
use wani.Server.Store.Roles.{lookup_conn-cases, add_receiver-some}
use wani.Server.World.{
  missing_code, invalid_code_format, unknown_type, notify_receiver, notify_sender,
  receiver_not_connected, Env, World, ServerError, write_json,
}
use wani.Server.Handlers.{write_to_sender, write_to_receiver, write_err, cleanup_side}
use wani.Server.Threads.{
  Pc, reading, creating, created, joining, telling_receiver, telling_sender, looking, checking,
  to_receiver, to_sender, failing, leaving, forgetting, gone, Turn, after_write, after_join,
  after_look, after_leave, same, after_code, begin, advance, System, turn, collect, delete_next,
}
use wani.Server.Threads.Held.{
  Held, same-Keeps, Keeps, create_sender-Keeps, add_receiver-Keeps, disconnect_receiver-Keeps,
  delete_session-Keeps,
}

module _ (env : Env) where
  -- What a turn needs: random numbers in range, and, where it adds a session, a code that no session
  -- has and no goroutine is about to forget.
  pub record IsFair (t : Turn) (conn : Conn) (s : System) : Type 0 where
    pub in_range : IsInRange t.rand
    pub unused :
        (code : Text) → s.pc conn ≡ creating code → lookup code s.world.store.sessions ≡ none
    pub unheld :
        (code : Text)
        → s.pc conn ≡ creating code
        → (x : Conn) (crashed : Bool) (side : ConnSide) → s.pc x ≢ forgetting crashed code side

  pub data Step (s : System) : System → Type 0 where
    runs : (t : Turn) (conn : Conn) → IsFair t conn s → Step s (turn env t conn s)
    collects : (now : ℕ) → s.doomed ≡ [] → Step s (collect env now s)
    deletes :
        (code : Text) (codes : List Text)
        → s.doomed ≡ code ∷ codes
        → Step s (delete_next env code codes s)

  pub data Reach (s : System) : System → Type 0 where
    here : Reach s s
    next : {t u : System} → Reach s t → Step t u → Reach s u

  pub record Inv (s : System) : Type 0 where
    pub valid : IsValid s.world.store
    pub held : (x : Conn) → Held s.world.store x (s.pc x)

  -- A turn of `conn`: what it leaves the store, what it holds itself, and what the others keep.
  pub record Sound (conn : Conn) (s : System) (o : Pc × World) : Type 0 where
    pub valid : IsValid o.1.store
    pub own : Held o.1.store conn o.0
    pub others : (x : Conn) → conn ≢ x → Keeps x (s.pc x) s.world.store o.1.store

  write_json-store :
      (c : Conn) (m : SignalMessage) (w : World) → (write_json env c m w).1.store ≡ w.store
  unfolding write_json
  write_json-store c m w = ground arith

  write_to_receiver-store :
      (p : ℕ) (m : SignalMessage) (w : World) → (write_to_receiver env p m w).1.store ≡ w.store
  unfolding write_to_receiver write_json
  write_to_receiver-store p m w = ground arith

  write_to_sender-store :
      (p : ℕ) (m : SignalMessage) (w : World) → (write_to_sender env p m w).1.store ≡ w.store
  unfolding write_to_sender
  write_to_sender-store p m w = write_json-store _ m w

  -- A step that leaves the store as it is.
  quiet :
      (conn : Conn) (s : System) (o : Pc × World)
      → Inv s
      → o.1.store ≡ s.world.store
      → Held s.world.store conn o.0
      → Sound conn s o
  quiet conn s o i e h = record {
    valid = subst IsValid (sym e) i.valid;
    own = subst (λ ss. Held ss conn o.0) (sym e) h;
    others = λ x ne.
        subst (Keeps x (s.pc x) s.world.store) (sym e) (same-Keeps x (s.pc x) s.world.store);
  }

  after_write-Held :
      (ss : Store) (conn : Conn) (f : ServerError → ServerError) (after : Pc)
      (r : Result ServerError (Unit {0}))
      → Held ss conn after
      → Held ss conn (after_write f after r)
  after_write-Held ss conn f after (ok u) h = h
  after_write-Held ss conn f after (err e) h = tt
  after_write-Held ss conn f after panic h = tt

  chosen : (P : Pc → Type 0) (b : Bool) (p q : Pc) → P p → P q → P (if b then p else q)
  chosen P true p q hp hq = hp
  chosen P false p q hp hq = hq

  -- What holds of each place at which a goroutine can begin.
  pub begin-any :
      (P : Pc → Type 0) (t : Turn) (m : SignalMessage)
      → ((code : Text) → P (creating code))
      → ((code : Text) → P (joining code))
      → ((m : SignalMessage) → P (looking m))
      → ((e : ServerError) → P (failing e))
      → P (after_code (generate_code env.word_list.words t.rand (pos 4)))
      → P (begin env t.rand m)
  unfolding begin
  begin-any P t m creates joins looks fails code =
      chosen P (str_eq m.type msg_create_session) _ _ code (
        chosen P (str_eq m.type msg_join_session) _ _
          (chosen P (text_eq m.code []) _ _ (fails missing_code) (
            chosen P (not (validate_code env.word_list.word_set m.code)) _ _
              (fails invalid_code_format) (joins m.code)))
          (chosen P (str_eq m.type msg_relay) _ _ (looks _) (
            chosen P (str_eq m.type msg_ice_candidate) _ _ (looks _) (
              chosen P (str_eq m.type msg_ice_credentials) _ _ (looks _)
                (fails (unknown_type m.type))))))

  after_code-Held :
      (ss : Store) (conn : Conn) (r : Result CodeError Text) → Held ss conn (after_code r)
  unfolding after_code
  after_code-Held ss conn (ok c) = tt
  after_code-Held ss conn (err e) = tt
  after_code-Held ss conn panic = tt

  begin-Held :
      (t : Turn) (m : SignalMessage) (ss : Store) (conn : Conn) → Held ss conn (begin env t.rand m)
  begin-Held t m ss conn =
      begin-any (Held ss conn) t m (λ c. tt) (λ c. tt) (λ m. tt) (λ e. tt)
        (after_code-Held ss conn (generate_code env.word_list.words t.rand (pos 4)))

  incoming-Held :
      (t : Turn) (o : Option SignalMessage) (ss : Store) (conn : Conn)
      → Held ss conn (elim o [ none ↦ leaving false | some m ↦ begin env t.rand m ])
  incoming-Held t none ss conn = tt
  incoming-Held t (some m) ss conn = begin-Held t m ss conn

  joined-Held :
      (now : ℕ) (code : Text) (conn : Conn) (ss : Store) (o : Option ℕ)
      → IsValid ss
      → (add_receiver now code conn ss).1 ≡ o
      → Held (add_receiver now code conn ss).0 conn (after_join o)
  unfolding after_join
  joined-Held now code conn ss none v e = tt
  joined-Held now code conn ss (some p) v e =
      let (at, own, _) = add_receiver-some now code conn ss p e in
      (own, unfold add_receiver attach forget in ground (arith, at, v.allocated code p at))

  look-Held :
      (conn : Conn) (m : SignalMessage) (ss : Store)
      → IsValid ss
      → Held ss conn (after_look m (lookup_conn conn ss))
  unfolding after_look
  look-Held conn m ss v = elim (lookup_conn-cases conn ss v) [
    | inl missing ↦ rw missing tt
    | inr (c, p, inl r) ↦ rw r.found (p, refl, v.allocated c p r.at)
    | inr (c, p, inr r) ↦ rw r.found refl
  ]

  leave-Held :
      (conn : Conn) (crashed : Bool) (ss : Store)
      → IsValid ss
      → Held ss conn (after_leave crashed (lookup_conn conn ss))
  unfolding after_leave
  leave-Held conn crashed ss v = elim (lookup_conn-cases conn ss v) [
    | inl missing ↦ rw missing tt
    | inr (c, p, inl r) ↦ rw r.found tt
    | inr (c, p, inr r) ↦ rw r.found (λ q at. ground (arith, at, r.at, r.own))
  ]

  check-Held :
      (conn : Conn) (p : ℕ) (m : SignalMessage) (ss : Store) (o : Option Conn)
      → (ss.heap p).receiver_conn ≡ o
      → p < ss.next
      → Held ss conn (elim o [ none ↦ failing receiver_not_connected | some c ↦ to_receiver p m ])
  check-Held conn p m ss none e l = tt
  check-Held conn p m ss (some c) e l = (ground (arith, e), l)

  deleting :
      (conn : Conn) (s : System) (code : Text) (crashed : Bool)
      → Inv s
      → Sound conn s (gone crashed, record (s.world) { store = delete_session code s.world.store })
  deleting conn s code crashed i = record {
    valid = delete_session-IsValid code s.world.store i.valid;
    own = tt;
    others = λ x ne. delete_session-Keeps x (s.pc x) s.world.store i.valid code;
  }

  pub advance-Sound :
      (t : Turn) (conn : Conn) (s : System) (pc : Pc)
      → s.pc conn ≡ pc
      → Inv s
      → IsFair t conn s
      → Held s.world.store conn pc
      → Sound conn s (advance env t conn pc s.world)
  unfolding advance write_err cleanup_side
  advance-Sound t conn s reading e i g h =
      quiet conn s _ i refl (incoming-Held t t.incoming s.world.store conn)
  advance-Sound t conn s (creating code) e i g h = record {
    valid = create_sender-IsValid t.now code conn s.world.store i.valid (g.unused code e);
    own = tt;
    others = λ x ne.
        create_sender-Keeps x (s.pc x) s.world.store i.valid t.now code conn (g.unheld code e x);
  }
  advance-Sound t conn s (created code) e i g h =
      quiet conn s _ i (write_json-store conn _ s.world)
        (after_write-Held s.world.store conn same reading _ tt)
  advance-Sound t conn s (joining code) e i g h = record {
    valid = add_receiver-IsValid t.now code conn s.world.store i.valid;
    own = joined-Held t.now code conn s.world.store _ i.valid refl;
    others = λ x ne. add_receiver-Keeps x (s.pc x) s.world.store i.valid t.now code conn;
  }
  advance-Sound t conn s (telling_receiver p) e i g h =
      quiet conn s _ i (write_to_receiver-store p _ s.world)
        (after_write-Held s.world.store conn notify_receiver (telling_sender p) _ tt)
  advance-Sound t conn s (telling_sender p) e i g h =
      quiet conn s _ i (write_to_sender-store p _ s.world)
        (after_write-Held s.world.store conn notify_sender reading _ tt)
  advance-Sound t conn s (looking m) e i g h =
      quiet conn s _ i refl (look-Held conn m s.world.store i.valid)
  advance-Sound t conn s (checking none m) e i g h = quiet conn s _ i refl tt
  advance-Sound t conn s (checking (some p) m) e i g h = quiet conn s _ i refl (
      check-Held conn p m s.world.store (s.world.store.heap p).receiver_conn refl
        (ground (arith, h.1, h.2)))
  advance-Sound t conn s (to_receiver p m) e i g h =
      quiet conn s _ i (write_to_receiver-store p m s.world)
        (after_write-Held s.world.store conn same reading _ tt)
  advance-Sound t conn s (to_sender none m) e i g h = quiet conn s _ i refl tt
  advance-Sound t conn s (to_sender (some p) m) e i g h =
      quiet conn s _ i (write_to_sender-store p m s.world)
        (after_write-Held s.world.store conn same reading _ tt)
  advance-Sound t conn s (failing x) e i g h = quiet conn s _ i (write_json-store conn _ s.world) tt
  advance-Sound t conn s (leaving crashed) e i g h =
      quiet conn s _ i refl (leave-Held conn crashed s.world.store i.valid)
  advance-Sound t conn s (forgetting crashed code side_receiver) e i g h = record {
    valid = disconnect_receiver-IsValid t.now code s.world.store i.valid;
    own = tt;
    others =
        λ x ne. disconnect_receiver-Keeps x (s.pc x) s.world.store i.valid t.now code conn ne h;
  }
  advance-Sound t conn s (forgetting crashed code side_sender) e i g h =
      deleting conn s code crashed i
  advance-Sound t conn s (forgetting crashed code side_unknown) e i g h =
      deleting conn s code crashed i
  advance-Sound t conn s (gone crashed) e i g h = quiet conn s _ i refl tt
