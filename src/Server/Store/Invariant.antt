-- ===== src/Server/Store/Invariant.antt =====
-- internal/server/sessions.go: the invariant of the session store, and that each operation keeps it.
use wani.Base.{
  ℕ, ◌<◌, ◌≡◌, refl, inl, inr, true, not, ◌&&◌, List, [], ◌∷◌, Option, none, some, arith, Text,
  lookup, lookup-insert, lookup-erase, text_eq_iff, ◌==◌, is_some, Bool-cases, Option-cases,
  Distinct, insert-Distinct, erase-Distinct,
}
use wani.Server.Store.{
  Conn, ConnSide, side_unknown, side_sender, side_receiver, Session, Store, new_session_store,
  create_sender, attach, add_receiver, detach, disconnect_receiver, remove, delete_session,
  delete_all, evict_expired, expired,
}

-- The side that the store has noted for a connection is the one that the session holds it at.
abbrev pub Holds : Option ConnSide → Conn → Session → Type 0
Holds none x s = ⊥
Holds (some side_unknown) x s = ⊥
Holds (some side_sender) x s = s.sender_conn ≡ x
Holds (some side_receiver) x s = s.receiver_conn ≡ some x

-- A connection that is mapped to a code is an end of the session with that code.
abbrev pub Ends : Store → Conn → Text → Type 0
Ends ss x c = (p : ℕ) × (lookup c ss.sessions ≡ some p) × Holds (ss.conn_to_side x) x (ss.heap p)

pub record IsValid (ss : Store) : Type 0 where
  pub allocated : (c : Text) (p : ℕ) → lookup c ss.sessions ≡ some p → p < ss.next
  pub separate :
      (c d : Text) (p : ℕ) → lookup c ss.sessions ≡ some p → lookup d ss.sessions ≡ some p → c ≡ d
  pub released :
      (c : Text) (p : ℕ)
      → lookup c ss.sessions ≡ some p
      → (ss.heap p).receiver_gone ≡ true
      → (ss.heap p).receiver_conn ≡ none
  pub distinct : Distinct ss.sessions
  pub mapped : (x : Conn) (c : Text) → ss.conn_to_code x ≡ some c → Ends ss x c

pub new_session_store-IsValid : IsValid new_session_store
unfolding new_session_store lookup
new_session_store-IsValid = record {
  allocated = λ c p h. cc;
  separate = λ c d p h k. cc;
  released = λ c p h g. refl;
  distinct = tt;
  mapped = λ x c h. cc;
}

module _ (now : ℕ) (code : Text) (conn : Conn) (ss : Store) (v : IsValid ss) where
  create_sender-mapped :
      lookup code ss.sessions ≡ none
      → (x : Conn) (c : Text) → (create_sender now code conn ss).0.conn_to_code x ≡ some c
      → Ends (create_sender now code conn ss).0 x c
  unfolding create_sender
  create_sender-mapped fresh x c h = elim (Bool-cases (conn == x)) [
    | inl own ↦ (
      ss.next,
      ground (arith, lookup-insert code c ss.next ss.sessions, text_eq_iff code c),
      ground arith,
    )
    | inr other ↦
        let (p, found, holds) = v.mapped x c (ground arith) in
        (
          p,
          ground (arith, lookup-insert code c ss.next ss.sessions, text_eq_iff code c),
          ground (arith, v.allocated c p found, holds),
        )
  ]

  -- Creating a session under a code that is not in use keeps the store valid.
  pub create_sender-IsValid :
      lookup code ss.sessions ≡ none → IsValid (create_sender now code conn ss).0
  unfolding create_sender
  create_sender-IsValid fresh = record {
    allocated = λ c p h. ground (arith, lookup-insert code c ss.next ss.sessions, v.allocated c p);
    separate = λ c d p h k. ground (
      arith,
      lookup-insert code c ss.next ss.sessions,
      lookup-insert code d ss.next ss.sessions,
      text_eq_iff code c,
      text_eq_iff code d,
      v.allocated c p,
      v.allocated d p,
      v.separate c d p,
    );
    released = λ c p h g.
        ground (arith, lookup-insert code c ss.next ss.sessions, v.allocated c p, v.released c p);
    distinct = insert-Distinct code ss.next ss.sessions v.distinct;
    mapped = create_sender-mapped fresh;
  }

module _ (now : ℕ) (code : Text) (conn : Conn) (p : ℕ) (ss : Store) (v : IsValid ss)
    (at : lookup code ss.sessions ≡ some p) where
  attach-mapped :
      (x : Conn) (c : Text)
      → (attach now code conn p ss).0.conn_to_code x ≡ some c
      → Ends (attach now code conn p ss).0 x c
  unfolding attach
  attach-mapped x c h =
      elim (Bool-cases (is_some (ss.heap p).receiver_conn && not (ss.heap p).receiver_gone)) [
        | inl busy ↦ rw busy (v.mapped x c (rw busy at h))
        | inr free ↦ elim (Bool-cases (conn == x)) [
          | inl own ↦ (p, ground arith, ground arith)
          | inr other ↦
              let (q, found, holds) = v.mapped x c (ground (arith, v.released code p at)) in
              (
                q,
                ground arith,
                ground (arith, v.released code p at, v.separate code c p at, found, holds, h),
              )
        ]
      ]

  attach-IsValid : IsValid (attach now code conn p ss).0
  unfolding attach
  attach-IsValid = record {
    allocated = λ c q h. ground (arith, v.allocated c q);
    separate = λ c d q h k. ground (arith, v.separate c d q);
    released = λ c q h g. ground (arith, v.released c q);
    distinct = ground (arith, v.distinct);
    mapped = attach-mapped;
  }

  detach-mapped :
      (x : Conn) (c : Text) → (detach now p ss).conn_to_code x ≡ some c → Ends (detach now p ss) x c
  unfolding detach
  detach-mapped x c h =
      let (q, found, holds) = v.mapped x c (ground arith) in
      (q, ground arith, ground (arith, found, holds, h))

  detach-IsValid : IsValid (detach now p ss)
  unfolding detach
  detach-IsValid = record {
    allocated = λ c q h. ground (arith, v.allocated c q);
    separate = λ c d q h k. ground (arith, v.separate c d q);
    released = λ c q h g. ground (arith, v.released c q);
    distinct = ground (arith, v.distinct);
    mapped = detach-mapped;
  }

  remove-mapped :
      (x : Conn) (c : Text)
      → (remove code p ss).conn_to_code x ≡ some c
      → Ends (remove code p ss) x c
  unfolding remove
  remove-mapped x c h =
      let (q, found, holds) = v.mapped x c (ground arith) in
      (
        q,
        ground (arith, lookup-erase code c ss.sessions, text_eq_iff code c, found, holds, h),
        ground (arith, found, holds, h),
      )

  remove-IsValid : IsValid (remove code p ss)
  unfolding remove
  remove-IsValid = record {
    allocated = λ c q h. ground (arith, lookup-erase code c ss.sessions, v.allocated c q);
    separate = λ c d q h k.
        ground (
          arith,
          lookup-erase code c ss.sessions,
          lookup-erase code d ss.sessions,
          v.separate c d q,
        );
    released = λ c q h g. ground (arith, lookup-erase code c ss.sessions, v.released c q);
    distinct = ground (arith, erase-Distinct code ss.sessions v.distinct);
    mapped = remove-mapped;
  }

-- Joining a session keeps the store valid, whether the join succeeds or not.
pub add_receiver-IsValid :
    (now : ℕ) (code : Text) (conn : Conn) (ss : Store)
    → IsValid ss
    → IsValid (add_receiver now code conn ss).0
unfolding add_receiver
add_receiver-IsValid now code conn ss v = elim (Option-cases (lookup code ss.sessions)) [
  | inl missing ↦ rw (missing, add_receiver) v
  | inr (p, at) ↦ rw (at, add_receiver) (attach-IsValid now code conn p ss v at)
]

-- A receiver that leaves keeps the store valid.
pub disconnect_receiver-IsValid :
    (now : ℕ) (code : Text) (ss : Store) → IsValid ss → IsValid (disconnect_receiver now code ss)
unfolding disconnect_receiver
disconnect_receiver-IsValid now code ss v = elim (Option-cases (lookup code ss.sessions)) [
  | inl missing ↦ rw (missing, disconnect_receiver) v
  | inr (p, at) ↦ rw (at, disconnect_receiver) (detach-IsValid now code 0 p ss v at)
]

-- Deleting a session keeps the store valid: no connection is left mapped to its code.
pub delete_session-IsValid :
    (code : Text) (ss : Store) → IsValid ss → IsValid (delete_session code ss)
unfolding delete_session
delete_session-IsValid code ss v = elim (Option-cases (lookup code ss.sessions)) [
  | inl missing ↦ rw (missing, delete_session) v
  | inr (p, at) ↦ rw (at, delete_session) (remove-IsValid 0 code 0 p ss v at)
]

delete_all-IsValid : (codes : List Text) (ss : Store) → IsValid ss → IsValid (delete_all codes ss)
unfolding delete_all
delete_all-IsValid [] ss v = v
delete_all-IsValid (c ∷ cs) ss v = delete_all-IsValid cs _ (delete_session-IsValid c ss v)

-- The clean-up keeps the store valid.
pub evict_expired-IsValid : (now : ℕ) (ss : Store) → IsValid ss → IsValid (evict_expired now ss)
unfolding evict_expired
evict_expired-IsValid now ss v = delete_all-IsValid (expired now ss.heap ss.sessions) ss v
