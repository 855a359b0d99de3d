-- ===== src/Server/Handlers/Loop.antt =====
-- internal/server/ws.go, `handleWS`: the read loop of one connection, and the server as the steps
-- that any number of connections and the clean-up ticker take, in any order. A step is a whole
-- handler.
use wani.Base.{ℕ, ◌≡◌, refl, ◌≢◌, true, List, [], ◌∷◌, Result, ok, err, panic}
use wani.Server.Store.{Conn, new_session_store, evict_expired}
use wani.Server.Store.Invariant.{IsValid, new_session_store-IsValid, evict_expired-IsValid}
use wani.Server.World.{Env, World, ServerError}
use wani.Server.Handlers.{Arrival, dispatch, cleanup_conn, finish}
use wani.Server.Handlers.Dispatch.{IsGood, dispatch-Safe, write_err-IsValid, cleanup_conn-IsValid}

module _ (env : Env) (stocked : env.word_list.words ≢ []) where
  -- The world after one message and the loop's handling of its outcome.
  unfoldable pub receive : Conn → Arrival → World → World
  receive conn a w = (finish env a.now conn (dispatch env a.now a.rand conn a.content w)).0

  finish-alive :
      (now : ℕ) (conn : Conn) (r : Result ServerError (Unit {0})) (w : World)
      → r ≢ panic
      → IsValid w.store
      → IsValid (finish env now conn (r, w)).0.store × ((finish env now conn (r, w)).1 ≡ true)
  unfolding finish
  finish-alive now conn (ok _) w alive v = (v, refl)
  finish-alive now conn (err e) w alive v = (write_err-IsValid env conn e w v, refl)
  finish-alive now conn panic w alive v = absurd (alive refl)

  receive-IsValid :
      (conn : Conn) (a : Arrival) (w : World)
      → IsGood env a.rand w
      → IsValid w.store
      → IsValid (receive conn a w).store
  unfolding receive
  receive-IsValid conn a w g v =
      let s = dispatch-Safe env a.now a.rand conn a.content w stocked g v in
      (finish-alive a.now conn _ _ s.alive s.valid).0

  -- Each message of a run meets random numbers in range, and a new code that is not in use.
  abbrev pub AllGood : Conn → List Arrival → World → Type 0
  AllGood conn [] w = Unit {0}
  AllGood conn (a ∷ later) w = IsGood env a.rand w × AllGood conn later (receive conn a w)

  -- The world after all the messages of a run.
  abbrev pub receive_all : Conn → List Arrival → World → World
  receive_all conn [] w = w
  receive_all conn (a ∷ later) w = receive_all conn later (receive conn a w)

  -- No message of a run makes its handler panic.
  abbrev pub NonePanics : Conn → List Arrival → World → Type 0
  NonePanics conn [] w = Unit {0}
  NonePanics conn (a ∷ later) w =
      ((dispatch env a.now a.rand conn a.content w).0 ≢ panic)
      × NonePanics conn later (receive conn a w)

  -- What can happen next: a message arrives, a connection closes, or the ticker fires.
  pub data Step (w : World) : World → Type 0 where
    arrives : (conn : Conn) (a : Arrival) → IsGood env a.rand w → Step w (receive conn a w)
    closes : (conn : Conn) (now : ℕ) → Step w (cleanup_conn now conn w)
    ticks : (now : ℕ) → Step w (record w { store = evict_expired now w.store })

  pub data Reach (w : World) : World → Type 0 where
    here : Reach w w
    next : {u t : World} → Reach w u → Step u t → Reach w t

  Step-IsValid : {w u : World} → Step w u → IsValid w.store → IsValid u.store
  Step-IsValid (arrives conn a g) v = receive-IsValid conn a _ g v
  Step-IsValid (closes conn now) v = cleanup_conn-IsValid now conn _ v
  Step-IsValid (ticks now) v = evict_expired-IsValid now _ v

  Reach-IsValid : {w u : World} → Reach w u → IsValid w.store → IsValid u.store
  Reach-IsValid here v = v
  Reach-IsValid (next r s) v = Step-IsValid s (Reach-IsValid r v)

  -- However the messages, the closing connections and the clean-ups of any number of clients are
  -- interleaved, handler by handler, from an empty store: the store is valid, and the next message
  -- on any connection does not panic. The word list is not empty, and at every message, the next one
  -- too, the draws are in range and a code that is generated is the code of no session.
  pub Reach_lem :
      (start w : World) (conn : Conn) (a : Arrival)
      → start.store ≡ new_session_store
      → Reach start w
      → IsGood env a.rand w
      → IsValid w.store × ((dispatch env a.now a.rand conn a.content w).0 ≢ panic)
  Reach_lem start w conn a e r g =
      let v = Reach-IsValid r (rw e new_session_store-IsValid) in
      (v, (dispatch-Safe env a.now a.rand conn a.content w stocked g v).alive)
