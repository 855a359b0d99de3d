-- ===== src/Server/Store.antt =====
-- internal/server/sessions.go: sessions, the store and its operations.
-- A connection is the number that stands for its pointer. A `*Session` is a pointer into a heap
-- of sessions, as handlers keep the pointer that they looked up. The two maps keyed by connections
-- are functions; `sessions` is a dictionary, as the clean-up iterates over it. Times are
-- nanoseconds, and `time.Now()` is the argument `now`. Every operation holds the store's lock from
-- its first read to its last write, so it is one function from store to store.
pub mod Invariant
pub mod Roles
pub mod Expiry
pub mod Joining
pub mod Spec
pub mod Refinement
pub mod Lifetime
pub mod Cleanup
use wani.Base.{
  ℕ, ◌+◌, ◌*◌, ◌≡◌, Bool, true, false, not, ◌&&◌, List, [], ◌∷◌, Option, none, some, Text, Dict,
  lookup, insert, erase, ltb, ◌==◌, if◌then◌else◌, is_some,
}

abbrev pub Conn : Type 0
Conn = ℕ

abbrev pub minute : ℕ
minute = 60 * 1_000_000_000

abbrev pub session_ttl : ℕ
session_ttl = 5 * minute

abbrev pub cleanup_interval : ℕ
cleanup_interval = 1 * minute

abbrev pub reconnect_ttl : ℕ
reconnect_ttl = 15 * minute

pub data ConnSide : Type 0 where
  side_unknown : ConnSide
  side_sender : ConnSide
  side_receiver : ConnSide

pub record Session : Type 0 where
  pub sender_conn : Conn
  pub receiver_conn : Option Conn
  pub expires_at : ℕ
  pub receiver_gone : Bool

pub record Store : Type 0 where
  pub heap : ℕ → Session
  pub next : ℕ
  pub sessions : Dict ℕ
  pub conn_to_code : Conn → Option Text
  pub conn_to_side : Conn → Option ConnSide

-- A cell that was never allocated; no pointer leads there.
abbrev zero_session : Session
zero_session = record {
  sender_conn = 0;
  receiver_conn = none;
  expires_at = 0;
  receiver_gone = false;
}

-- `m[k] = v` and `delete(m, k)` on a map keyed by numbers.
abbrev pub assign {ℓ} : {V : Type ℓ} → (ℕ → V) → ℕ → V → ℕ → V
assign m k v j = if k == j then v else m j

unfoldable pub new_session_store : Store
new_session_store = record {
  heap = λ _. zero_session;
  next = 0;
  sessions = [];
  conn_to_code = λ _. none;
  conn_to_side = λ _. none;
}

unfoldable pub create_sender : ℕ → Text → Conn → Store → Store × ℕ
create_sender now code conn ss = (
  record ss {
    heap = assign ss.heap ss.next (record {
      sender_conn = conn;
      receiver_conn = none;
      expires_at = now + session_ttl;
      receiver_gone = false;
    });
    next = ss.next + 1;
    sessions = insert code ss.next ss.sessions;
    conn_to_code = assign ss.conn_to_code conn (some code);
    conn_to_side = assign ss.conn_to_side conn (some side_sender);
  },
  ss.next,
)

-- `delete(ss.connToCode, c)` and `delete(ss.connToSide, c)`, if there is a connection.
unfoldable pub forget : Option Conn → Store → Store
forget none ss = ss
forget (some c) ss = record ss {
  conn_to_code = assign ss.conn_to_code c none;
  conn_to_side = assign ss.conn_to_side c none;
}

-- The rest of `AddReceiver`, once the session is found.
unfoldable pub attach : ℕ → Text → Conn → ℕ → Store → Store × Option ℕ
unfolding forget
attach now code conn p ss =
    let s = ss.heap p in
    let freed = forget s.receiver_conn ss in
    if is_some s.receiver_conn && not s.receiver_gone then (ss, none) else (
      record freed {
        heap = assign ss.heap p (record s {
          receiver_conn = some conn;
          receiver_gone = false;
          expires_at = now + session_ttl;
        });
        conn_to_code = assign freed.conn_to_code conn (some code);
        conn_to_side = assign freed.conn_to_side conn (some side_receiver);
      },
      some p,
    )

unfoldable pub add_receiver : ℕ → Text → Conn → Store → Store × Option ℕ
unfolding attach
add_receiver now code conn ss = elim (lookup code ss.sessions) [
  | none ↦ (ss, none)
  | some p ↦ attach now code conn p ss
]

-- `side = ss.connToSide[conn]` is `sideUnknown` for a missing key.
abbrev pub or_unknown : Option ConnSide → ConnSide
or_unknown none = side_unknown
or_unknown (some side) = side

pub record Found : Type 0 where
  pub code : Text
  pub session : Option ℕ
  pub side : ConnSide

unfoldable pub lookup_conn : Conn → Store → Option Found
lookup_conn conn ss = elim (ss.conn_to_code conn) [
  | none ↦ none
  | some code ↦ some (record {
    code = code;
    session = lookup code ss.sessions;
    side = or_unknown (ss.conn_to_side conn);
  })
]

-- `DisconnectReceiver`, once the session is found.
unfoldable pub detach : ℕ → ℕ → Store → Store
unfolding forget
detach now p ss =
    let s = ss.heap p in
    record (forget s.receiver_conn ss) {
      heap = assign ss.heap p (record s {
        receiver_conn = none;
        receiver_gone = true;
        expires_at = now + reconnect_ttl;
      });
    }

unfoldable pub disconnect_receiver : ℕ → Text → Store → Store
unfolding detach
disconnect_receiver now code ss = elim (lookup code ss.sessions) [
  | none ↦ ss
  | some p ↦ detach now p ss
]

-- `Delete`, once the session is found.
unfoldable pub remove : Text → ℕ → Store → Store
unfolding forget
remove code p ss =
    let s = ss.heap p in
    let freed = forget s.receiver_conn (forget (some s.sender_conn) ss) in
    record freed { sessions = erase code ss.sessions }

unfoldable pub delete_session : Text → Store → Store
unfolding remove
delete_session code ss = elim (lookup code ss.sessions) [ none ↦ ss | some p ↦ remove code p ss ]

-- The two loops of `evictExpired`: collect the codes whose session has expired, then delete each.
unfoldable pub expired : ℕ → (ℕ → Session) → Dict ℕ → List Text
expired now heap [] = []
expired now heap ((code, p) ∷ m) =
    let rest = expired now heap m in if ltb (heap p).expires_at now then code ∷ rest else rest

unfoldable pub delete_all : List Text → Store → Store
delete_all [] ss = ss
delete_all (code ∷ codes) ss = delete_all codes (delete_session code ss)

unfoldable pub evict_expired : ℕ → Store → Store
unfolding expired delete_all
evict_expired now ss = delete_all (expired now ss.heap ss.sessions) ss

-- What the `select` of `StartCleanup` takes next: a tick at its time, or the end of the context.
pub data CleanupEvent : Type 0 where
  ticked : ℕ → CleanupEvent
  cancelled : CleanupEvent

-- The loop of `StartCleanup`.
unfoldable pub start_cleanup : List CleanupEvent → Store → Store
unfolding evict_expired
start_cleanup [] ss = ss
start_cleanup (cancelled ∷ later) ss = ss
start_cleanup (ticked now ∷ later) ss = start_cleanup later (evict_expired now ss)
