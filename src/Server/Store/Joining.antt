-- ===== src/Server/Store/Joining.antt =====
-- internal/server/sessions.go: creating and joining a session, leaving it, and joining it again.
use wani.Base.{
  ℕ, ◌+◌, ◌≡◌, ◌≢◌, ◌↔◌, false, none, some, arith, Text, lookup, lookup-insert, text_eq,
  text_eq_iff, text_eq_self,
}
use wani.Server.Store.{
  Conn, Store, lookup_conn, session_ttl, reconnect_ttl, create_sender, add_receiver,
  disconnect_receiver, delete_session,
}
use wani.Server.Store.Invariant.{IsValid}
use wani.Server.Store.Roles.{IsSender, IsReceiver, add_receiver-some, lookup_conn-delete}
use wani.Server.Store.Expiry.{lookup-delete_session, delete_session-heap}

-- `AddReceiver` succeeds exactly for a session that is there and has no receiver connection.
pub add_receiver-some_iff :
    (now : ℕ) (code : Text) (conn : Conn) (ss : Store) (p : ℕ)
    → IsValid ss
    → ((add_receiver now code conn ss).1 ≡ some p)
      ↔ ((lookup code ss.sessions ≡ some p) × ((ss.heap p).receiver_conn ≡ none))
unfolding add_receiver
add_receiver-some_iff now code conn ss p v = (
  λ h. ground (arith, v.released code p (add_receiver-some now code conn ss p h).0),
  λ h. rw (h.0, add_receiver) (ground (arith, h.1)),
)

-- A join that fails changes nothing.
pub add_receiver-none :
    (now : ℕ) (code : Text) (conn : Conn) (ss : Store)
    → (add_receiver now code conn ss).1 ≡ none
    → (add_receiver now code conn ss).0 ≡ ss
unfolding add_receiver
add_receiver-none now code conn ss h = ground arith

pub create_sender-IsSender :
    (now : ℕ) (code : Text) (conn : Conn) (ss : Store)
    → IsSender (create_sender now code conn ss).0 conn code ss.next
unfolding create_sender lookup_conn
create_sender-IsSender now code conn ss = record {
  found = ground (arith, lookup-insert code code ss.next ss.sessions, text_eq_self code);
  at = ground (arith, lookup-insert code code ss.next ss.sessions, text_eq_self code);
  own = ground arith;
}

-- A successful join makes the connection the receiver, and leaves the sender its role.
pub add_receiver-IsReceiver :
    (now : ℕ) (code : Text) (conn : Conn) (ss : Store) (p : ℕ)
    → IsValid ss
    → lookup code ss.sessions ≡ some p
    → (ss.heap p).receiver_conn ≡ none
    → IsReceiver (add_receiver now code conn ss).0 conn code p
unfolding add_receiver lookup_conn
add_receiver-IsReceiver now code conn ss p v at free = record {
  found = rw (at, add_receiver) (ground (arith, at, free));
  at = rw (at, add_receiver) (ground (arith, at, free));
  own = rw (at, add_receiver) (ground (arith, at, free));
}

-- A join gives the session the time of a new one.
pub add_receiver-expires :
    (now : ℕ) (code : Text) (conn : Conn) (ss : Store) (p : ℕ)
    → lookup code ss.sessions ≡ some p
    → (ss.heap p).receiver_conn ≡ none
    → ((add_receiver now code conn ss).0.heap p).expires_at ≡ now + session_ttl
unfolding add_receiver
add_receiver-expires now code conn ss p at free = rw (at, add_receiver) (ground (arith, at, free))

pub add_receiver-IsSender :
    (now : ℕ) (code : Text) (conn other : Conn) (ss : Store) (p : ℕ)
    → IsSender ss other code p
    → (ss.heap p).receiver_conn ≡ none
    → other ≢ conn
    → IsSender (add_receiver now code conn ss).0 other code p
unfolding add_receiver lookup_conn
add_receiver-IsSender now code conn other ss p s free ne = record {
  found = rw (s.at, add_receiver) (ground (arith, s.at, s.found, free));
  at = rw (s.at, add_receiver) (ground (arith, s.at, free));
  own = rw (s.at, add_receiver) (ground (arith, s.own, free));
}

pub disconnect_receiver-IsSender :
    (left : ℕ) (code : Text) (x y : Conn) (ss : Store) (p : ℕ)
    → IsSender ss x code p
    → (ss.heap p).receiver_conn ≡ some y
    → x ≢ y
    → IsSender (disconnect_receiver left code ss) x code p
unfolding disconnect_receiver lookup_conn
disconnect_receiver-IsSender left code x y ss p s live ne = record {
  found = rw (s.at, disconnect_receiver) (ground (arith, s.at, s.found, live));
  at = rw (s.at, disconnect_receiver) (ground (arith, s.at, live));
  own = rw (s.at, disconnect_receiver) (ground (arith, s.own, live));
}

-- A receiver that leaves frees its place: any connection can then join under the same code, and
-- finds the same session, with the same sender and the time of a new session.
pub disconnect_receiver-rejoin :
    (left now : ℕ) (code : Text) (old conn : Conn) (ss : Store) (p : ℕ)
    → IsReceiver ss old code p
    → let ss' = disconnect_receiver left code ss in
      let joined = add_receiver now code conn ss' in
      ((ss'.heap p).expires_at ≡ left + reconnect_ttl)
      × (joined.1 ≡ some p)
      × (joined.0.heap p ≡ record {
        sender_conn = (ss.heap p).sender_conn;
        receiver_conn = some conn;
        expires_at = now + session_ttl;
        receiver_gone = false;
      })
unfolding disconnect_receiver add_receiver
disconnect_receiver-rejoin left now code old conn ss p r =
    rw (r.at, disconnect_receiver, add_receiver)
      (ground (arith, r.at), ground (arith, r.at), ground (arith, r.at))

module _ (now : ℕ) (first second : Text) (conn : Conn) (ss : Store) (p : ℕ) (v : IsValid ss)
    (s : IsSender ss conn first p) (fresh : lookup second ss.sessions ≡ none) where
  -- A second session of one sender, and then its end: the first session is as it was, but its
  -- sender is no longer mapped to it.
  pub create_sender-abandons :
      let ss' = delete_session second (create_sender now second conn ss).0 in
      (lookup_conn conn ss' ≡ none)
      × (lookup first ss'.sessions ≡ some p)
      × (ss'.heap p ≡ ss.heap p)
  create_sender-abandons =
      let made = (create_sender now second conn ss).0 in
      let different : text_eq second first ≡ false =
        ground (arith, s.at, text_eq_iff second first) in
      (
        lookup_conn-delete conn made second ss.next (create_sender-IsSender now second conn ss),
        rw (lookup-delete_session second first made, different)
            (unfold create_sender in rw (lookup-insert, different) s.at),
        rw (delete_session-heap second made)
            (unfold create_sender in ground (arith, v.allocated first p s.at)),
      )
