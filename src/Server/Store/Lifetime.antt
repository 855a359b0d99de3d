-- ===== src/Server/Store/Lifetime.antt =====
-- internal/server/sessions.go: how long a session is kept that no client touches.
use wani.Base.{
  ℕ, ◌+◌, ◌<◌, ◌≤◌, ◌≡◌, ◌∙◌, false, List, [], ◌∷◌, ◌++◌, Option, none, some, arith, Text, text_eq,
}
use wani.Server.Store.{new_session_store, reconnect_ttl}
use wani.Server.Store.Spec.{
  AllFresh, Op, Seat, ages, apply_all, at_code, close, deadline, enter, leave, open_session, spec,
  spec_all, tick,
}
use wani.Server.Store.Refinement.{store_refinement}

-- No operation of a row comes after the time.
abbrev pub AllBy : ℕ → List (ℕ × Op) → Type 0
AllBy t [] = Unit {0}
AllBy t ((now, op) ∷ ops) = (now ≤ t) × AllBy t ops

-- No client opens, joins or leaves the session with the code.
abbrev pub Untouched : Text → List (ℕ × Op) → Type 0
Untouched c [] = Unit {0}
Untouched c ((now, open_session code conn) ∷ ops) = (text_eq code c ≡ false) × Untouched c ops
Untouched c ((now, enter code conn) ∷ ops) = (text_eq code c ≡ false) × Untouched c ops
Untouched c ((now, leave code) ∷ ops) = (text_eq code c ≡ false) × Untouched c ops
Untouched c ((now, close code) ∷ ops) = Untouched c ops
Untouched c ((now, tick) ∷ ops) = Untouched c ops

abbrev Within : ℕ → Option Seat → Type 0
Within t none = Unit {0}
Within t (some seat) = deadline seat ≤ t + reconnect_ttl

spec-Within :
    (t now : ℕ) (op : Op) (c : Text) (o : Option Seat)
    → now ≤ t
    → Within t o
    → Within t (spec now op c o)
spec-Within t now op c o l h = ground arith

aged-Within : (t now : ℕ) (o : Option Seat) → Within t o → Within t (ages now o)
aged-Within t now o h = ground arith

expired_at_last :
    (t later : ℕ) (o : Option Seat) → t + reconnect_ttl < later → Within t o → ages later o ≡ none
expired_at_last t later o l h = ground arith

Untouched-expires :
    (after : List (ℕ × Op)) (t later : ℕ) (c : Text) (board : Text → Option Seat)
    → t + reconnect_ttl < later
    → Untouched c after
    → Within t (board c)
    → spec_all (after ++ (later, tick) ∷ []) board c ≡ none
Untouched-expires [] t later c board l u h = expired_at_last t later (board c) l h
Untouched-expires ((now, open_session code conn) ∷ after) t later c board l u h =
    Untouched-expires after t later c _ l u.1 (ground (arith, u.0, h))
Untouched-expires ((now, enter code conn) ∷ after) t later c board l u h =
    Untouched-expires after t later c _ l u.1 (ground (arith, u.0, h))
Untouched-expires ((now, leave code) ∷ after) t later c board l u h =
    Untouched-expires after t later c _ l u.1 (ground (arith, u.0, h))
Untouched-expires ((now, close code) ∷ after) t later c board l u h =
    Untouched-expires after t later c _ l u (ground (arith, h))
Untouched-expires ((now, tick) ∷ after) t later c board l u h =
    Untouched-expires after t later c _ l u (aged-Within t now (board c) h)

later_expires :
    (before after : List (ℕ × Op)) (t later : ℕ) (c : Text) (board : Text → Option Seat)
    → t + reconnect_ttl < later
    → AllBy t before
    → Untouched c after
    → Within t (board c)
    → spec_all (before ++ after ++ (later, tick) ∷ []) board c ≡ none
later_expires [] after t later c board l b u h = Untouched-expires after t later c board l u h
later_expires ((now, op) ∷ before) after t later c board l b u h =
    later_expires before after t later c _ l b.1 u (spec-Within t now op c (board c) b.0 h)

-- A session that no client opens, joins or leaves after some time is gone after the first clean-up
-- that comes more than `reconnectTTL` later, whatever happened before that time, and whatever
-- happens to other sessions, as long as each new session gets a code that is not in use.
pub Untouched-none :
    (before after : List (ℕ × Op)) (t later : ℕ) (c : Text)
    → AllBy t before
    → Untouched c after
    → t + reconnect_ttl < later
    → AllFresh (before ++ after ++ (later, tick) ∷ []) new_session_store
    → at_code (apply_all (before ++ after ++ (later, tick) ∷ []) new_session_store) c ≡ none
Untouched-none before after t later c b u l fresh =
    (store_refinement (before ++ after ++ (later, tick) ∷ []) fresh).1 c
    ∙ later_expires before after t later c (λ c. none) l b u tt
