-- ===== src/Server/Store/Expiry.antt =====
-- internal/server/sessions.go, `evictExpired`: which sessions the clean-up removes.
use wani.Base.{
  ℕ, ◌<◌, ◌≤◌, ◌≡◌, refl, sym, ◌∙◌, inl, inr, Bool, true, false, List, [], ◌∷◌, Option, none, some,
  arith, Text, Dict, lookup, lookup-erase, Distinct, text_eq, text_eq_iff, contains, ltb,
  if◌then◌else◌, Bool-cases, Option-cases,
}
use wani.Server.Store.{
  Conn, Session, Store, lookup_conn, delete_session, delete_all, expired, evict_expired,
}
use wani.Server.Store.Invariant.{IsValid}

pub lookup-delete_session :
    (d c : Text) (ss : Store)
    → lookup c (delete_session d ss).sessions ≡ (if text_eq d c then none else lookup c ss.sessions)
unfolding delete_session
lookup-delete_session d c ss = elim (Option-cases (lookup d ss.sessions)) [
  | inl missing ↦ rw (missing, delete_session) (ground (arith, text_eq_iff d c, missing))
  | inr (p, at) ↦ rw (at, delete_session) (ground (arith, lookup-erase d c ss.sessions))
]

lookup-delete_all :
    (codes : List Text) (c : Text) (ss : Store)
    → lookup c (delete_all codes ss).sessions
      ≡ (if contains c codes then none else lookup c ss.sessions)
unfolding delete_all contains
lookup-delete_all [] c ss = refl
lookup-delete_all (d ∷ codes) c ss =
    ground (arith, lookup-delete_all codes c (delete_session d ss), lookup-delete_session d c ss)

-- Whether the session that a dictionary has under a code, if any, is past its time.
abbrev pub is_past : ℕ → (ℕ → Session) → Option ℕ → Bool
is_past now heap none = false
is_past now heap (some p) = ltb (heap p).expires_at now

contains-expired :
    (now : ℕ) (heap : ℕ → Session) (m : Dict ℕ) (c : Text)
    → Distinct m
    → contains c (expired now heap m) ≡ is_past now heap (lookup c m)
unfolding expired contains lookup
contains-expired now heap [] c d = refl
contains-expired now heap ((k, p) ∷ m) c d =
    ground (arith, contains-expired now heap m c d.1, text_eq_iff k c, d.0)

-- The clean-up removes exactly the sessions whose time has passed, and every other code still has
-- the session that it had.
pub evict_expired_lem :
    (now : ℕ) (ss : Store) (c : Text)
    → IsValid ss
    → lookup c (evict_expired now ss).sessions
      ≡ (if is_past now ss.heap (lookup c ss.sessions) then none else lookup c ss.sessions)
unfolding evict_expired
evict_expired_lem now ss c v =
    let codes = expired now ss.heap ss.sessions in
    rw (lookup-delete_all codes c ss, contains-expired now ss.heap ss.sessions c v.distinct)

-- Deleting a session unmaps its sender, and maps no connection anew.
delete_session-unmapped :
    (d : Text) (x : Conn) (ss : Store)
    → ss.conn_to_code x ≡ none
    → (delete_session d ss).conn_to_code x ≡ none
unfolding delete_session
delete_session-unmapped d x ss h = ground arith

delete_all-unmapped :
    (codes : List Text) (x : Conn) (ss : Store)
    → ss.conn_to_code x ≡ none
    → (delete_all codes ss).conn_to_code x ≡ none
unfolding delete_all
delete_all-unmapped [] x ss h = h
delete_all-unmapped (d ∷ codes) x ss h =
    delete_all-unmapped codes x _ (delete_session-unmapped d x ss h)

pub delete_session-heap : (d : Text) (ss : Store) → (delete_session d ss).heap ≡ ss.heap
unfolding delete_session
delete_session-heap d ss = ground arith

delete_all-heap : (codes : List Text) (ss : Store) → (delete_all codes ss).heap ≡ ss.heap
unfolding delete_all
delete_all-heap [] ss = refl
delete_all-heap (d ∷ codes) ss =
    delete_all-heap codes (delete_session d ss) ∙ delete_session-heap d ss

pub evict_expired-heap : (now : ℕ) (ss : Store) → (evict_expired now ss).heap ≡ ss.heap
unfolding evict_expired
evict_expired-heap now ss = delete_all-heap (expired now ss.heap ss.sessions) ss

delete_session-sender :
    (d : Text) (p : ℕ) (x : Conn) (ss : Store)
    → lookup d ss.sessions ≡ some p
    → (ss.heap p).sender_conn ≡ x
    → (delete_session d ss).conn_to_code x ≡ none
unfolding delete_session
delete_session-sender d p x ss at own = rw (at, delete_session) (ground arith)

delete_all-sender :
    (codes : List Text) (d : Text) (p : ℕ) (x : Conn) (ss : Store)
    → contains d codes ≡ true
    → lookup d ss.sessions ≡ some p
    → (ss.heap p).sender_conn ≡ x
    → (delete_all codes ss).conn_to_code x ≡ none
unfolding delete_all contains
delete_all-sender [] d p x ss h at own = cc
delete_all-sender (c ∷ codes) d p x ss h at own = elim (Bool-cases (text_eq c d)) [
  | inl same ↦
      delete_all-unmapped codes x _
        (delete_session-sender c p x ss (ground (arith, text_eq_iff c d)) own)
  | inr other ↦
      delete_all-sender codes d p x _ (ground arith) (ground (arith, lookup-delete_session c d ss))
        (rw (delete_session-heap c ss) own)
]

-- The clean-up forgets every sender of an expired session, also one that has since created another
-- session: the connection of that other session is then no longer routed, though the session is
-- still there.
pub evict_expired-strands :
    (now : ℕ) (ss : Store) (old new : Text) (p q : ℕ)
    → IsValid ss
    → lookup old ss.sessions ≡ some p
    → (ss.heap p).expires_at < now
    → lookup new ss.sessions ≡ some q
    → now ≤ (ss.heap q).expires_at
    → (ss.heap q).sender_conn ≡ (ss.heap p).sender_conn
    → (lookup new (evict_expired now ss).sessions ≡ some q)
      × (lookup_conn (ss.heap q).sender_conn (evict_expired now ss) ≡ none)
unfolding lookup_conn evict_expired
evict_expired-strands now ss old new p q v at past at' live same =
    let gone =
      delete_all-sender (expired now ss.heap ss.sessions) old p (ss.heap q).sender_conn ss
        (ground (arith, contains-expired now ss.heap ss.sessions old v.distinct)) at (sym same) in
    (ground (arith, evict_expired_lem now ss new v), rw (gone, lookup_conn))
