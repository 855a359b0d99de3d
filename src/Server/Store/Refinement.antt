-- ===== src/Server/Store/Refinement.antt =====
-- internal/server/sessions.go: the session store implements its specification.
use wani.Base.{
  ℕ, ◌≡◌, refl, ap, ◌∙◌, inl, inr, List, [], ◌∷◌, Option, none, arith, Text, lookup, lookup-insert,
  text_eq_iff, Option-cases,
}
use wani.Server.Store.{
  Conn, Store, new_session_store, create_sender, attach, add_receiver, detach, disconnect_receiver,
  delete_session, evict_expired, forget,
}
use wani.Server.Store.Invariant.{
  IsValid, new_session_store-IsValid, create_sender-IsValid, add_receiver-IsValid,
  disconnect_receiver-IsValid, delete_session-IsValid, evict_expired-IsValid,
}
use wani.Server.Store.Expiry.{
  lookup-delete_session, delete_session-heap, evict_expired_lem, evict_expired-heap,
}
use wani.Server.Store.Spec.{
  AllFresh, IsFresh, Op, Seat, accepts, answer, answers, apply, apply_all, at_code, close, enter,
  expected, is_open, leave, open_session, spec, spec_all, tick,
}

module _ (now : ℕ) (ss : Store) (v : IsValid ss) (c : Text) where
  opened :
      (code : Text) (conn : Conn)
      → lookup code ss.sessions ≡ none
      → at_code (create_sender now code conn ss).0 c
        ≡ spec now (open_session code conn) c (at_code ss c)
  unfolding create_sender
  opened code conn fresh = elim (Option-cases (lookup c ss.sessions)) [
    | inl missing ↦ ground (arith, missing, lookup-insert code c ss.next ss.sessions)
    | inr (p, found) ↦ ground (
      arith,
      found,
      fresh,
      lookup-insert code c ss.next ss.sessions,
      text_eq_iff code c,
      v.allocated c p found,
    )
  ]

  left_session :
      (code : Text)
      → at_code (disconnect_receiver now code ss) c ≡ spec now (leave code) c (at_code ss c)
  unfolding disconnect_receiver detach forget
  left_session code = elim (Option-cases (lookup c ss.sessions)) [
    | inl missing ↦ elim (Option-cases (lookup code ss.sessions)) [
      | inl missing' ↦ ground (arith, missing, missing')
      | inr (q, at) ↦ ground (arith, missing, at, text_eq_iff code c)
    ]
    | inr (p, found) ↦ elim (Option-cases (lookup code ss.sessions)) [
      | inl missing ↦ ground (arith, found, missing, text_eq_iff code c)
      | inr (q, at) ↦ ground (arith, found, at, text_eq_iff code c, v.separate c code p found)
    ]
  ]

  joined_session :
      (code : Text) (conn : Conn)
      → at_code (add_receiver now code conn ss).0 c ≡ spec now (enter code conn) c (at_code ss c)
  unfolding add_receiver attach forget
  joined_session code conn = elim (Option-cases (lookup c ss.sessions)) [
    | inl missing ↦ elim (Option-cases (lookup code ss.sessions)) [
      | inl missing' ↦ ground (arith, missing, missing')
      | inr (q, at) ↦ ground (arith, missing, at, text_eq_iff code c)
    ]
    | inr (p, found) ↦ elim (Option-cases (lookup code ss.sessions)) [
      | inl missing ↦ ground (arith, found, missing, text_eq_iff code c)
      | inr (q, at) ↦
          ground
            (arith, found, at, text_eq_iff code c, v.separate c code p found, v.released c p found)
    ]
  ]

  closed_session :
      (code : Text) → at_code (delete_session code ss) c ≡ spec now (close code) c (at_code ss c)
  closed_session code = ground (arith, lookup-delete_session code c ss, delete_session-heap code ss)

  aged : at_code (evict_expired now ss) c ≡ spec now tick c (at_code ss c)
  aged = elim (Option-cases (lookup c ss.sessions)) [
    | inl missing ↦ ground (arith, missing, evict_expired_lem now ss c v)
    | inr (p, found) ↦ ground (
      arith,
      found,
      evict_expired_lem now ss c v,
      ap (λ h. h p) (evict_expired-heap now ss),
      v.released c p found,
    )
  ]

  applied : (op : Op) → IsFresh op ss → at_code (apply now op ss) c ≡ spec now op c (at_code ss c)
  applied (open_session code conn) fresh = opened code conn fresh
  applied (enter code conn) fresh = joined_session code conn
  applied (leave code) fresh = left_session code
  applied (close code) fresh = closed_session code
  applied tick fresh = aged

module _ (now : ℕ) (ss : Store) (v : IsValid ss) where
  answered : (op : Op) → answer now op ss ≡ accepts op (at_code ss)
  unfolding add_receiver attach
  answered (enter code conn) = elim (Option-cases (lookup code ss.sessions)) [
    | inl missing ↦ ground (arith, missing)
    | inr (p, found) ↦ ground (arith, found, v.released code p found)
  ]
  answered (open_session code conn) = refl
  answered (leave code) = refl
  answered (close code) = refl
  answered tick = refl

  applied-IsValid : (op : Op) → IsFresh op ss → IsValid (apply now op ss)
  applied-IsValid (open_session code conn) fresh = create_sender-IsValid now code conn ss v fresh
  applied-IsValid (enter code conn) fresh = add_receiver-IsValid now code conn ss v
  applied-IsValid (leave code) fresh = disconnect_receiver-IsValid now code ss v
  applied-IsValid (close code) fresh = delete_session-IsValid code ss v
  applied-IsValid tick fresh = evict_expired-IsValid now ss v

accepts-agrees :
    (op : Op) (board board' : Text → Option Seat)
    → ((c : Text) → board c ≡ board' c)
    → accepts op board ≡ accepts op board'
accepts-agrees (enter code conn) board board' e = ap is_open (e code)
accepts-agrees (open_session code conn) board board' e = refl
accepts-agrees (leave code) board board' e = refl
accepts-agrees (close code) board board' e = refl
accepts-agrees tick board board' e = refl

refines :
    (ops : List (ℕ × Op)) (ss : Store) (board : Text → Option Seat)
    → IsValid ss
    → AllFresh ops ss
    → ((c : Text) → at_code ss c ≡ board c)
    → (answers ops ss ≡ expected ops board)
      × ((c : Text) → at_code (apply_all ops ss) c ≡ spec_all ops board c)
refines [] ss board v fresh agrees = (refl, agrees)
refines ((now, op) ∷ ops) ss board v fresh agrees =
    let (same, later) =
      refines ops (apply now op ss) (λ c. spec now op c (board c))
        (applied-IsValid now ss v op fresh.0) fresh.1
        (λ c. applied now ss v c op fresh.0 ∙ ap (spec now op c) (agrees c)) in
    (
      ap (λ l. answer now op ss ∷ l) same
          ∙ ap (λ a. a ∷ expected ops (λ c. spec now op c (board c)))
              (answered now ss v op ∙ accepts-agrees op (at_code ss) board agrees),
      later,
    )

-- From the start on, through any operations at any times where each new session gets a code that is
-- not in use, the store behaves code by code as the specification, in which a session is awaiting a
-- receiver, joined or deserted: exactly those receivers are refused that the specification refuses,
-- and what the store has under a code is what the specification has.
pub store_refinement :
    (ops : List (ℕ × Op))
    → AllFresh ops new_session_store
    → (answers ops new_session_store ≡ expected ops (λ c. none))
      × ((c : Text) → at_code (apply_all ops new_session_store) c ≡ spec_all ops (λ c. none) c)
unfolding new_session_store lookup
store_refinement ops fresh =
    refines ops new_session_store (λ c. none) new_session_store-IsValid fresh (λ c. refl)
