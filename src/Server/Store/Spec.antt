-- ===== src/Server/Store/Spec.antt =====
-- internal/server/sessions.go: what the session store promises, code by code, without pointers and
-- maps of connections, and the operations of the store to compare.
use wani.Base.{
  ℕ, ◌+◌, ◌≡◌, Bool, true, false, List, [], ◌∷◌, Option, none, some, Text, lookup, text_eq, is_some,
  ltb, if◌then◌else◌,
}
use wani.Server.Store.{
  Conn, Session, Store, session_ttl, reconnect_ttl, create_sender, add_receiver,
  disconnect_receiver, delete_session, evict_expired,
}

-- A session as the two clients know it: who is there, and until when it is kept.
pub data Seat : Type 0 where
  awaiting : Conn → ℕ → Seat
  joined : Conn → Conn → ℕ → Seat
  deserted : Conn → ℕ → Seat

pub data Op : Type 0 where
  open_session : Text → Conn → Op
  enter : Text → Conn → Op
  leave : Text → Op
  close : Text → Op
  tick : Op

abbrev pub deadline : Seat → ℕ
deadline (awaiting s d) = d
deadline (joined s r d) = d
deadline (deserted s d) = d

abbrev pub sender : Seat → Conn
sender (awaiting s d) = s
sender (joined s r d) = s
sender (deserted s d) = s

-- The specification: what an operation at the time `now` makes of the session with its code.
abbrev pub joins : ℕ → Conn → Option Seat → Option Seat
joins now conn none = none
joins now conn (some (awaiting s d)) = some (joined s conn (now + session_ttl))
joins now conn (some (joined s r d)) = some (joined s r d)
joins now conn (some (deserted s d)) = some (joined s conn (now + session_ttl))

abbrev pub leaves : ℕ → Option Seat → Option Seat
leaves now none = none
leaves now (some seat) = some (deserted (sender seat) (now + reconnect_ttl))

abbrev pub ages : ℕ → Option Seat → Option Seat
ages now none = none
ages now (some seat) = if ltb (deadline seat) now then none else some seat

-- The same of the session with the code `c`.
abbrev pub spec : ℕ → Op → Text → Option Seat → Option Seat
spec now (open_session code conn) c seat =
    if text_eq code c then some (awaiting conn (now + session_ttl)) else seat
spec now (enter code conn) c seat = if text_eq code c then joins now conn seat else seat
spec now (leave code) c seat = if text_eq code c then leaves now seat else seat
spec now (close code) c seat = if text_eq code c then none else seat
spec now tick c seat = ages now seat

-- The operations of the store.
abbrev pub apply : ℕ → Op → Store → Store
apply now (open_session code conn) ss = (create_sender now code conn ss).0
apply now (enter code conn) ss = (add_receiver now code conn ss).0
apply now (leave code) ss = disconnect_receiver now code ss
apply now (close code) ss = delete_session code ss
apply now tick ss = evict_expired now ss

abbrev pub seat : Session → Seat
seat s = elim s.receiver_conn [
  | some r ↦ joined s.sender_conn r s.expires_at
  | none ↦
      if s.receiver_gone
      then deserted s.sender_conn s.expires_at
      else awaiting s.sender_conn s.expires_at
]

-- What the store has under a code.
abbrev pub at_code : Store → Text → Option Seat
at_code ss c = elim (lookup c ss.sessions) [ none ↦ none | some p ↦ some (seat (ss.heap p)) ]

-- A new session has a code that is not in use.
abbrev pub IsFresh : Op → Store → Type 0
IsFresh (open_session code conn) ss = lookup code ss.sessions ≡ none
IsFresh _ ss = Unit {0}

-- Whether an operation is accepted: only a receiver may be refused.
abbrev pub answer : ℕ → Op → Store → Bool
answer now (enter code conn) ss = is_some (add_receiver now code conn ss).1
answer now _ ss = true

abbrev pub is_open : Option Seat → Bool
is_open none = false
is_open (some (awaiting s d)) = true
is_open (some (joined s r d)) = false
is_open (some (deserted s d)) = true

abbrev pub accepts : Op → (Text → Option Seat) → Bool
accepts (enter code conn) board = is_open (board code)
accepts _ board = true

-- Operations in a row, each at its time.
abbrev pub apply_all : List (ℕ × Op) → Store → Store
apply_all [] ss = ss
apply_all ((now, op) ∷ ops) ss = apply_all ops (apply now op ss)

abbrev pub answers : List (ℕ × Op) → Store → List Bool
answers [] ss = []
answers ((now, op) ∷ ops) ss = answer now op ss ∷ answers ops (apply now op ss)

abbrev pub spec_all : List (ℕ × Op) → (Text → Option Seat) → Text → Option Seat
spec_all [] board = board
spec_all ((now, op) ∷ ops) board = spec_all ops (λ c. spec now op c (board c))

abbrev pub expected : List (ℕ × Op) → (Text → Option Seat) → List Bool
expected [] board = []
expected ((now, op) ∷ ops) board = accepts op board ∷ expected ops (λ c. spec now op c (board c))

abbrev pub AllFresh : List (ℕ × Op) → Store → Type 0
AllFresh [] ss = Unit {0}
AllFresh ((now, op) ∷ ops) ss = IsFresh op ss × AllFresh ops (apply now op ss)
