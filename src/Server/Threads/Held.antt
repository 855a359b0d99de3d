-- ===== src/Server/Threads/Held.antt =====
-- internal/server: what the local variables of a goroutine say about the store, and that no step of
-- another goroutine changes it.
use wani.Base.{
  ◌||◌, ℕ, ◌<◌, ◌≡◌, refl, sym, ap, ◌∙◌, ◌≢◌, inl, inr, Bool, true, some, arith, Text, lookup,
  lookup-insert, text_eq, text_eq_iff, is_some, Option-cases, Bool-cases,
}
use wani.Server.Store.{
  Conn, Session, ConnSide, side_unknown, side_sender, side_receiver, Store, create_sender, attach,
  add_receiver, detach, disconnect_receiver, delete_session, forget,
}
use wani.Server.Store.Invariant.{IsValid}
use wani.Server.Store.Expiry.{lookup-delete_session, delete_session-heap}
use wani.Server.Threads.{
  Pc, reading, creating, created, joining, telling_receiver, telling_sender, looking, checking,
  to_receiver, to_sender, failing, leaving, forgetting, gone,
}

-- Whether a session has a receiver or has had one.
abbrev pub met : Session → Bool
met s = is_some s.receiver_conn || s.receiver_gone

-- A receiver that is about to be told is the one of its session, and so is one that is about to be
-- forgotten; a session that was looked up is there; one whose receiver was seen has met it.
abbrev pub Held : Store → Conn → Pc → Type 0
Held ss x (telling_receiver p) = ((ss.heap p).receiver_conn ≡ some x) × (p < ss.next)
Held ss x (checking session m) = (p : ℕ) × (session ≡ some p) × (p < ss.next)
Held ss x (to_receiver p m) = (met (ss.heap p) ≡ true) × (p < ss.next)
Held ss x (to_sender session m) = is_some session ≡ true
Held ss x (forgetting crashed code side_receiver) =
    (p : ℕ) → lookup code ss.sessions ≡ some p → (ss.heap p).receiver_conn ≡ some x
Held ss x _ = Unit {0}

same_text : (c d : Text) → text_eq c d ≡ true → c ≡ d
same_text c d h = ground (arith, h, text_eq_iff c d)

-- A change of the store that keeps what the goroutine of `x` holds at each of the two places.
pub record Keeps (x : Conn) (pc : Pc) (ss tt' : Store) : Type 0 where
  pub told :
      (p : ℕ)
      → pc ≡ telling_receiver p
      → (ss.heap p).receiver_conn ≡ some x
      → p < ss.next
      → ((tt'.heap p).receiver_conn ≡ some x) × (p < tt'.next)
  pub grows : (p : ℕ) → p < ss.next → p < tt'.next
  pub seen : (p : ℕ) → met (ss.heap p) ≡ true → p < ss.next → met (tt'.heap p) ≡ true
  pub forgotten :
      (crashed : Bool) (code : Text)
      → pc ≡ forgetting crashed code side_receiver
      → ((p : ℕ) → lookup code ss.sessions ≡ some p → (ss.heap p).receiver_conn ≡ some x)
      → (p : ℕ) → lookup code tt'.sessions ≡ some p
      → (tt'.heap p).receiver_conn ≡ some x

pub Keeps-Held :
    (x : Conn) (pc : Pc) (ss tt' : Store) → Keeps x pc ss tt' → Held ss x pc → Held tt' x pc
Keeps-Held x (telling_receiver p) ss tt' k (h, l) = k.told p refl h l
Keeps-Held x (checking session m) ss tt' k (p, e, l) = (p, e, k.grows p l)
Keeps-Held x (to_sender session m) ss tt' k h = h
Keeps-Held x (forgetting crashed code side_receiver) ss tt' k h = k.forgotten crashed code refl h
Keeps-Held x (forgetting crashed code side_sender) ss tt' k h = tt
Keeps-Held x (forgetting crashed code side_unknown) ss tt' k h = tt
Keeps-Held x reading ss tt' k h = tt
Keeps-Held x (creating c) ss tt' k h = tt
Keeps-Held x (created c) ss tt' k h = tt
Keeps-Held x (joining c) ss tt' k h = tt
Keeps-Held x (telling_sender p) ss tt' k h = tt
Keeps-Held x (looking m) ss tt' k h = tt
Keeps-Held x (to_receiver p m) ss tt' k (h, l) = (k.seen p h l, k.grows p l)
Keeps-Held x (failing e) ss tt' k h = tt
Keeps-Held x (leaving b) ss tt' k h = tt
Keeps-Held x (gone b) ss tt' k h = tt

pub same-Keeps : (x : Conn) (pc : Pc) (ss : Store) → Keeps x pc ss ss
same-Keeps x pc ss = record {
  told = λ p e h l. (h, l);
  grows = λ p l. l;
  seen = λ p h l. h;
  forgotten = λ crashed c e h. h;
}

module _ (x : Conn) (pc : Pc) (ss : Store) (v : IsValid ss) where
  pub create_sender-Keeps :
      (now : ℕ) (code : Text) (conn : Conn)
      → ((crashed : Bool) (side : ConnSide) → pc ≢ forgetting crashed code side)
      → Keeps x pc ss (create_sender now code conn ss).0
  unfolding create_sender
  create_sender-Keeps now code conn new = record {
    told = λ p e h l. ground (arith, h, l);
    grows = λ p l. ground (arith, l);
    seen = λ p h l. ground (arith, h, l);
    forgotten = λ crashed c e h p at. elim (Bool-cases (text_eq code c)) [
      | inl eq ↦ absurd (
          new crashed side_receiver
            (e ∙ ap (λ d. forgetting crashed d side_receiver) (sym (same_text code c eq))))
      | inr ne ↦
          ground (arith, ne, at, lookup-insert code c ss.next ss.sessions, h p, v.allocated c p)
    ];
  }

  pub add_receiver-Keeps :
      (now : ℕ) (code : Text) (conn : Conn) → Keeps x pc ss (add_receiver now code conn ss).0
  unfolding add_receiver attach forget
  add_receiver-Keeps now code conn = elim (Option-cases (lookup code ss.sessions)) [
    | inl missing ↦ rw (missing, add_receiver) (same-Keeps x pc ss)
    | inr (q, found) ↦
        rw (found, add_receiver)
          (record {
            told = λ p e h l. ground (arith, h, l, v.released code q found);
            grows = λ p l. ground (arith, l);
            seen = λ p h l. ground (arith, h, l);
            forgotten = λ crashed c e h p at. ground (arith, h p, at, v.released code q found);
          })
  ]

  pub disconnect_receiver-Keeps :
      (now : ℕ) (code : Text) (y : Conn)
      → y ≢ x
      → ((p : ℕ) → lookup code ss.sessions ≡ some p → (ss.heap p).receiver_conn ≡ some y)
      → Keeps x pc ss (disconnect_receiver now code ss)
  unfolding disconnect_receiver detach forget
  disconnect_receiver-Keeps now code y other own = elim (Option-cases (lookup code ss.sessions)) [
    | inl missing ↦ rw (missing, disconnect_receiver) (same-Keeps x pc ss)
    | inr (q, found) ↦
        rw (found, disconnect_receiver)
          (record {
            told = λ p e h l. ground (arith, h, l, own q found, other);
            grows = λ p l. ground (arith, l);
            seen = λ p h l. ground (arith, h, l);
            forgotten = λ crashed c e h p at. ground (arith, h p, at, own q found, other);
          })
  ]

  pub delete_session-Keeps : (code : Text) → Keeps x pc ss (delete_session code ss)
  delete_session-Keeps code = record {
    told =
        λ p e h l. rw (delete_session-heap code ss) (h, unfold delete_session in ground (arith, l));
    grows = λ p l. unfold delete_session in ground (arith, l);
    seen = λ p h l. rw (delete_session-heap code ss) h;
    forgotten = λ crashed c e h p at.
        rw (delete_session-heap code ss)
          (h p (ground (arith, at, lookup-delete_session code c ss)));
  }
