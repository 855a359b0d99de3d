-- ===== src/Server/Threads/Races.antt =====
-- internal/server: two orders of steps in which a goroutine meets what another one has just changed.
use wani.Base.{
  Bool, true, false, ℕ, ◌+◌, ◌≡◌, refl, ◌≢◌, true, false, List, [], ◌∷◌, none, some, arith, Text,
  lookup, text_eq_self,
}
use wani.Protocol.Message.{Bytes, SignalMessage, msg_relay}
use wani.Protocol.Codes.Laws.{IsInRange}
use wani.Server.Store.{
  Conn, side_sender, side_receiver, Store, lookup_conn, add_receiver, disconnect_receiver,
  delete_session, session_ttl,
}
use wani.Server.Store.Invariant.{IsValid}
use wani.Server.Store.Roles.{
  IsSender, IsReceiver, lookup_conn-delete_receiver, disconnect_receiver-none,
}
use wani.Server.Store.Joining.{
  add_receiver-some_iff, add_receiver-IsReceiver, add_receiver-expires,
  disconnect_receiver-IsSender,
}
use wani.Server.Store.Expiry.{lookup-delete_session, delete_session-heap}
use wani.Server.World.{Env, World}
use wani.Server.Handlers.{write_to_receiver, cleanup_side}
use wani.Server.Handlers.Pairing.{relayed}
use wani.Server.Threads.{
  Pc, reading, creating, joining, telling_receiver, looking, checking, to_receiver, leaving,
  forgetting, gone, Turn, after_join, after_look, after_leave, begin, advance, System, turn,
  collect, delete_next,
}
use wani.Server.Threads.Reachable.{IsFair, collects, runs, deletes, Reach, here, next}

module _ (env : Env) where
  -- The goroutines that run, first to last, each with its turn.
  unfoldable pub run : List (Conn × Turn) → System → System
  run [] s = s
  run ((conn, t) ∷ later) s = run later (turn env t conn s)

  -- A state that was reached, where the goroutines of two connections stand, and the world they
  -- stand in.
  record At (s₀ : System) (x y : Conn) (s : System) (p q : Pc) (w : World) : Type 0 where
    pub reached : Reach env s₀ s
    pub first : s.pc x ≡ p
    pub second : s.pc y ≡ q
    pub world_eq : s.world ≡ w

  abbrev is_creating : Pc → Bool
  is_creating (creating code) = true
  is_creating _ = false

  -- A turn that adds no session needs only random numbers in range.
  adds_nothing :
      (t : Turn) (conn : Conn) (s : System)
      → IsInRange t.rand
      → is_creating (s.pc conn) ≡ false
      → IsFair env t conn s
  adds_nothing t conn s range h = record {
    in_range = range;
    unused = λ c e. ground (arith, h, e);
    unheld = λ c e. ground (arith, h, e);
  }

  module _ (s₀ : System) (x y : Conn) (ne : x ≢ y) where
    first_runs :
        (t : Turn) (s : System) (p q p' : Pc) (w w' : World)
        → IsInRange t.rand
        → is_creating p ≡ false
        → advance env t x p w ≡ (p', w')
        → At s₀ x y s p q w
        → At s₀ x y (turn env t x s) p' q w'
    unfolding turn
    first_runs t s p q p' w w' range plain e a = record {
      reached = next a.reached (runs t x (adds_nothing t x s range (rw a.first plain)));
      first = rw (a.first, a.world_eq, e) (ground arith);
      second = rw (a.first, a.world_eq, e) (ground (arith, a.second, ne));
      world_eq = rw (a.first, a.world_eq, e) refl;
    }

    second_runs :
        (t : Turn) (s : System) (p q q' : Pc) (w w' : World)
        → IsInRange t.rand
        → is_creating q ≡ false
        → advance env t y q w ≡ (q', w')
        → At s₀ x y s p q w
        → At s₀ x y (turn env t y s) p q' w'
    unfolding turn
    second_runs t s p q q' w w' range plain e a = record {
      reached = next a.reached (runs t y (adds_nothing t y s range (rw a.second plain)));
      first = rw (a.second, a.world_eq, e) (ground (arith, a.first, ne));
      second = rw (a.second, a.world_eq, e) (ground arith);
      world_eq = rw (a.second, a.world_eq, e) refl;
    }

  add_receiver-gone :
      (now : ℕ) (code : Text) (z : Conn) (ss : Store)
      → (add_receiver now code z (delete_session code ss)).1 ≡ none
  unfolding add_receiver
  add_receiver-gone now code z ss =
      ground (arith, lookup-delete_session code code ss, text_eq_self code)

  abbrev pub in_flight : Conn → Conn → Turn → Turn → List (Conn × Turn)
  in_flight x y t u = (x, t) ∷ (x, t) ∷ (x, t) ∷ (y, u) ∷ (y, u) ∷ (y, u) ∷ (x, t) ∷ []

  reads :
      (t : Turn) (conn : Conn) (m : SignalMessage) (w : World)
      → t.incoming ≡ some m
      → advance env t conn reading w ≡ (begin env t.rand m, w)
  unfolding advance
  reads t conn m w e = rw e refl

  -- `handleRelay` reads the receiver's connection twice, without a lock. If the receiver of a session
  -- closes its connection after the sender's goroutine has found it and before that goroutine writes
  -- to it, the goroutine panics. Its clean-up then deletes the session, so no receiver can join it
  -- again, though a receiver that leaves may. The two
  -- goroutines are at their loops at first, the sender's next message is a relay, and the receiver's
  -- connection ends. With random draws in range the states are reached by steps of the server.
  pub relay_race :
      (x y z : Conn) (s : System) (code : Text) (p now : ℕ) (payload : Bytes) (t u : Turn)
      → x ≢ y
      → IsSender s.world.store x code p
      → IsReceiver s.world.store y code p
      → s.pc x ≡ reading
      → s.pc y ≡ reading
      → t.incoming ≡ some (relayed msg_relay payload)
      → u.incoming ≡ none
      → IsInRange t.rand
      → IsInRange u.rand
      → let lost = run (in_flight x y t u) s in
        let over = run ((x, t) ∷ (x, t) ∷ []) lost in
        Reach env s over
        × (lost.pc x ≡ leaving true)
        × (over.pc x ≡ gone true)
        × (over.pc y ≡ gone false)
        × ((add_receiver now code z over.world.store).1 ≡ none)
  unfolding run advance begin after_look after_leave cleanup_side write_to_receiver
  relay_race x y z s code p now payload t u ne sends receives px py tm um tr ur =
      let m = relayed msg_relay payload in
      let w = s.world in
      let w' = record w { store = disconnect_receiver u.now code w.store } in
      let w'' = record w { store = delete_session code w'.store } in
      let sends' = disconnect_receiver-IsSender u.now code x y w.store p sends receives.own ne in
      let to_y = to_receiver p m in
      let forgets_y = forgetting false code side_receiver in
      let forgets_x = forgetting true code side_sender in
      let checks = checking (some p) m in
      let a0 : At s x y s reading reading w = record {
        reached = here;
        first = px;
        second = py;
        world_eq = refl;
      } in
      let a1 =
        first_runs s x y ne t _ reading reading (looking m) w w tr refl (reads t x m w tm) a0 in
      let a2 =
        first_runs s x y ne t _ (looking m) reading checks w w tr refl (rw sends.found refl) a1 in
      let a3 = first_runs s x y ne t _ checks reading to_y w w tr refl (rw receives.own refl) a2 in
      let a4 = second_runs s x y ne u _ to_y reading (leaving false) w w ur refl (rw um refl) a3 in
      let a5 =
        second_runs s x y ne u _ to_y (leaving false) forgets_y w w ur refl (rw receives.found refl)
          a4 in
      let a6 = second_runs s x y ne u _ to_y forgets_y (gone false) w w' ur refl refl a5 in
      let free = disconnect_receiver-none u.now w.store code p receives.at in
      let a7 =
        first_runs s x y ne t _ to_y (gone false) (leaving true) w' w' tr refl
          (rw (free, write_to_receiver) refl) a6 in
      let a8 =
        first_runs s x y ne t _ (leaving true) (gone false) forgets_x w' w' tr refl
          (rw sends'.found refl) a7 in
      let a9 = first_runs s x y ne t _ forgets_x (gone false) (gone true) w' w'' tr refl refl a8 in
      (
        a9.reached,
        a7.first,
        a9.first,
        a9.second,
        rw a9.world_eq (add_receiver-gone now code z w'.store),
      )

  -- `evictExpired` lets the lock go before it deletes the codes that it has collected. A receiver that
  -- joins in between is accepted, and the session gets the time of a new one. Then the session is
  -- deleted all the same, and the receiver's connection leads to no session. The store is valid at
  -- first, the session has no receiver, no code is left to delete, and the clean-up collects the code
  -- of the session first. The states are reached by steps of the server.
  pub clean_up_race :
      (y : Conn) (s : System) (code : Text) (p now : ℕ) (codes : List Text) (t : Turn)
      → IsValid s.world.store
      → IsFair env t y (collect env now s)
      → s.doomed ≡ []
      → s.pc y ≡ joining code
      → lookup code s.world.store.sessions ≡ some p
      → (s.world.store.heap p).receiver_conn ≡ none
      → (collect env now s).doomed ≡ code ∷ codes
      → let joined = turn env t y (collect env now s) in
        let over = delete_next env code codes joined in
        (Reach env s over)
        × (over.pc y ≡ telling_receiver p)
        × ((over.world.store.heap p).expires_at ≡ t.now + session_ttl)
        × (lookup code over.world.store.sessions ≡ none)
        × (lookup_conn y over.world.store ≡ none)
  unfolding turn collect delete_next advance after_join
  clean_up_race y s code p now codes t v fair idle py at free doomed =
      let ss = s.world.store in
      let joined = (add_receiver t.now code y ss).0 in
      let accepted = (add_receiver-some_iff t.now code y ss p v).1 (at, free) in
      (
        next (next (next here (collects now idle)) (runs t y fair)) (deletes code codes doomed),
        rw (py, accepted) (ground arith),
        rw (py, delete_session-heap code joined) (add_receiver-expires t.now code y ss p at free),
        rw
            (
              lookup-delete_session code code (turn env t y (collect env now s)).world.store,
              text_eq_self code,
            )
            refl,
        rw py (
            lookup_conn-delete_receiver y joined code p
              (add_receiver-IsReceiver t.now code y ss p v at free)),
      )
