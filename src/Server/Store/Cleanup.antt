-- ===== src/Server/Store/Cleanup.antt =====
-- internal/server/sessions.go: the ticker of `StartCleanup`.
use wani.Base.{
  ℕ, zero, suc, ◌+◌, ◌*◌, ◌<◌, ◌≤◌, ◌≡◌, refl, inl, inr, List, [], ◌∷◌, none, some, arith, Text,
  Dict, lookup, ltb, text_eq_self, Option-cases, Bool-cases, ap,
}
use wani.Server.Store.{
  Conn, Store, CleanupEvent, ticked, start_cleanup, evict_expired, cleanup_interval, reconnect_ttl,
  lookup_conn,
}
use wani.Server.Store.Invariant.{IsValid, evict_expired-IsValid}
use wani.Server.Store.Expiry.{evict_expired_lem, evict_expired-heap}
use wani.Server.Store.Roles.{lookup_conn-cases}

-- The ticks of a ticker that starts at a time.
abbrev pub ticks : ℕ → ℕ → List CleanupEvent
ticks start zero = []
ticks start (suc n) = ticked (start + cleanup_interval) ∷ ticks (start + cleanup_interval) n

-- Every session expires by the time.
abbrev pub Deadlines : ℕ → Store → Type 0
Deadlines last ss =
    (c : Text) (p : ℕ) → lookup c ss.sessions ≡ some p → (ss.heap p).expires_at ≤ last

evict_expired-Deadlines :
    (now last : ℕ) (ss : Store)
    → IsValid ss
    → Deadlines last ss
    → Deadlines last (evict_expired now ss)
evict_expired-Deadlines now last ss v h c p at =
    ground
      (arith, at, evict_expired_lem now ss c v, h c p, ap (λ h. h p) (evict_expired-heap now ss))

stays_gone :
    (n start : ℕ) (c : Text) (ss : Store)
    → IsValid ss
    → lookup c ss.sessions ≡ none
    → lookup c (start_cleanup (ticks start n) ss).sessions ≡ none
unfolding start_cleanup
stays_gone zero start c ss v h = h
stays_gone (suc n) start c ss v h =
    stays_gone n _ c _ (evict_expired-IsValid _ ss v)
      (ground (arith, evict_expired_lem (start + cleanup_interval) ss c v, h))

expires_now :
    (now last : ℕ) (c : Text) (ss : Store)
    → IsValid ss
    → Deadlines last ss
    → last < now
    → lookup c (evict_expired now ss).sessions ≡ none
expires_now now last c ss v h l = elim (Option-cases (lookup c ss.sessions)) [
  | inl missing ↦ ground (arith, missing, evict_expired_lem now ss c v)
  | inr (p, found) ↦ ground (arith, found, evict_expired_lem now ss c v, h c p found)
]

expires :
    (n start last : ℕ) (c : Text) (ss : Store)
    → IsValid ss
    → Deadlines last ss
    → start ≤ last
    → last < start + n * cleanup_interval
    → lookup c (start_cleanup (ticks start n) ss).sessions ≡ none
unfolding start_cleanup
expires zero start last c ss v h l u = absurd (omega arith)
expires (suc n) start last c ss v h l u = elim (Bool-cases (ltb last (start + cleanup_interval))) [
  | inl e ↦
      stays_gone n _ c _ (evict_expired-IsValid _ ss v)
        (expires_now (start + cleanup_interval) last c ss v h (ground (arith, e)))
  | inr e ↦
      expires n _ last c _ (evict_expired-IsValid _ ss v) (evict_expired-Deadlines _ last ss v h)
        (ground arith) (ground arith)
]

start_cleanup-IsValid :
    (n start : ℕ) (ss : Store) → IsValid ss → IsValid (start_cleanup (ticks start n) ss)
unfolding start_cleanup
start_cleanup-IsValid zero start ss v = v
start_cleanup-IsValid (suc n) start ss v =
    start_cleanup-IsValid n _ _ (evict_expired-IsValid _ ss v)

-- A dictionary in which no key is found has no entry.
empty_dict : (m : Dict ℕ) → ((c : Text) → lookup c m ≡ none) → m ≡ []
unfolding lookup
empty_dict [] h = refl
empty_dict ((k, p) ∷ m) h = ground (arith, h k, text_eq_self k)

-- Sixteen ticks of the clean-up, with no client at work, empty a valid store whose sessions have the
-- deadlines that the server gives, at most `reconnectTTL` ahead: no session is left, and no
-- connection leads to one.
pub start_cleanup-empties :
    (start : ℕ) (x : Conn) (ss : Store)
    → IsValid ss
    → Deadlines (start + reconnect_ttl) ss
    → let ss' = start_cleanup (ticks start 16) ss in
      (ss'.sessions ≡ []) × (lookup_conn x ss' ≡ none)
start_cleanup-empties start x ss v h =
    let gone =
      λ (c : Text). expires 16 start (start + reconnect_ttl) c ss v h (omega arith) (omega arith) in
    (
      empty_dict (start_cleanup (ticks start 16) ss).sessions gone,
      elim (lookup_conn-cases x (start_cleanup (ticks start 16) ss)
          (start_cleanup-IsValid 16 start ss v)) [
            | inl missing ↦ missing
            | inr (c, p, inl r) ↦ absurd (ground (arith, gone c, r.at))
            | inr (c, p, inr r) ↦ absurd (ground (arith, gone c, r.at))
          ],
    )
