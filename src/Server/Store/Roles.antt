-- ===== src/Server/Store/Roles.antt =====
-- internal/server/sessions.go: what `Lookup` finds in a valid store, and that a connection which
-- leaves is forgotten.
use wani.Base.{ℕ, ◌≡◌, refl, ◌⊎◌, inl, inr, Option, none, some, arith, Text, lookup, Option-cases}
use wani.Server.Store.{
  Conn, ConnSide, side_unknown, side_sender, side_receiver, Store, lookup_conn, add_receiver,
  disconnect_receiver, delete_session,
}
use wani.Server.Store.Invariant.{Holds, IsValid}

-- What `Lookup` returns for a connection that is the sender, or the receiver, of a session.
pub record IsSender (ss : Store) (x : Conn) (code : Text) (p : ℕ) : Type 0 where
  pub found : lookup_conn x ss ≡ some (record { code = code; session = some p; side = side_sender })
  pub at : lookup code ss.sessions ≡ some p
  pub own : (ss.heap p).sender_conn ≡ x

pub record IsReceiver (ss : Store) (x : Conn) (code : Text) (p : ℕ) : Type 0 where
  pub found :
      lookup_conn x ss ≡ some (record { code = code; session = some p; side = side_receiver })
  pub at : lookup code ss.sessions ≡ some p
  pub own : (ss.heap p).receiver_conn ≡ some x

module _ (ss : Store) (x : Conn) (c : Text) (p : ℕ) (code : ss.conn_to_code x ≡ some c)
    (at : lookup c ss.sessions ≡ some p) where
  role_of_side :
      (o : Option ConnSide)
      → ss.conn_to_side x ≡ o
      → Holds o x (ss.heap p)
      → IsSender ss x c p ⊎ IsReceiver ss x c p
  unfolding lookup_conn
  role_of_side none e h = absurd h
  role_of_side (some side_unknown) e h = absurd h
  role_of_side (some side_sender) e h = inl (record { found = ground arith; at = at; own = h })
  role_of_side (some side_receiver) e h = inr (record { found = ground arith; at = at; own = h })

-- In a valid store `Lookup` finds nothing for a connection, or the session that the connection is
-- the sender or the receiver of.
pub lookup_conn-cases :
    (x : Conn) (ss : Store)
    → IsValid ss
    → (lookup_conn x ss ≡ none) ⊎ ((c : Text) × (p : ℕ) × (IsSender ss x c p ⊎ IsReceiver ss x c p))
lookup_conn-cases x ss v = elim (Option-cases (ss.conn_to_code x)) [
  | inl missing ↦ inl (unfold lookup_conn in rw (missing, lookup_conn))
  | inr (c, code) ↦
      let (p, at, holds) = v.mapped x c code in
      inr (c, p, role_of_side ss x c p code at (ss.conn_to_side x) refl holds)
]

pub lookup_conn-delete :
    (x : Conn) (ss : Store) (c : Text) (p : ℕ)
    → IsSender ss x c p
    → lookup_conn x (delete_session c ss) ≡ none
unfolding delete_session lookup_conn
lookup_conn-delete x ss c p s = rw (s.at, delete_session) (ground (arith, s.own))

pub lookup_conn-delete_receiver :
    (x : Conn) (ss : Store) (c : Text) (p : ℕ)
    → IsReceiver ss x c p
    → lookup_conn x (delete_session c ss) ≡ none
unfolding delete_session lookup_conn
lookup_conn-delete_receiver x ss c p r = rw (r.at, delete_session) (ground (arith, r.own))

-- The place of a receiver that leaves is free.
pub disconnect_receiver-none :
    (now : ℕ) (ss : Store) (c : Text) (p : ℕ)
    → lookup c ss.sessions ≡ some p
    → ((disconnect_receiver now c ss).heap p).receiver_conn ≡ none
unfolding disconnect_receiver
disconnect_receiver-none now ss c p at = rw (at, disconnect_receiver) (ground arith)

pub lookup_conn-disconnect :
    (now : ℕ) (x : Conn) (ss : Store) (c : Text) (p : ℕ)
    → IsReceiver ss x c p
    → lookup_conn x (disconnect_receiver now c ss) ≡ none
unfolding disconnect_receiver lookup_conn
lookup_conn-disconnect now x ss c p r = rw (r.at, disconnect_receiver) (ground (arith, r.own))

-- A join that succeeds found the session, and made the connection its live receiver.
pub add_receiver-some :
    (now : ℕ) (code : Text) (conn : Conn) (ss : Store) (p : ℕ)
    → (add_receiver now code conn ss).1 ≡ some p
    → (lookup code ss.sessions ≡ some p)
      × (((add_receiver now code conn ss).0.heap p).receiver_conn ≡ some conn)
      × (((add_receiver now code conn ss).0.heap p).sender_conn ≡ (ss.heap p).sender_conn)
unfolding add_receiver
add_receiver-some now code conn ss p h = ground arith
