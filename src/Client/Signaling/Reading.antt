-- ===== src/Client/Signaling/Reading.antt =====
-- internal/client/signaling.go, `readUntil`: which message it returns, and what it leaves unread.
use wani.Base.{
  ◌≡◌, refl, ap, ◌≢◌, inl, inr, false, List, [], ◌∷◌, ◌++◌, arith, String, Result, ok, err, All,
  str_eq, Bool-cases,
}
use text.Mathlib.TextEquality.{eq_iff}
use wani.Protocol.Message.{SignalMessage, msg_error}
use wani.Client.Signaling.{Env, ClientError, read_failed, server_error, scan}

-- A message that the loop reads and ignores.
abbrev pub Ignored : String → SignalMessage → Type 0
Ignored want m = (str_eq m.type msg_error ≡ false) × (str_eq m.type want ≡ false)

-- The three ways in which reading can end, with the messages not read yet.
pub data Scanned (env : Env) (want : String) (inbox rest : List SignalMessage)
    (r : Result ClientError SignalMessage) : Type 0 where
  found :
      (skipped : List SignalMessage) (m : SignalMessage)
      → All (Ignored want) skipped
      → m.type ≡ want
      → m.type ≢ msg_error
      → inbox ≡ skipped ++ m ∷ rest
      → r ≡ ok m
      → Scanned env want inbox rest r
  refused :
      (skipped : List SignalMessage) (m : SignalMessage)
      → All (Ignored want) skipped
      → m.type ≡ msg_error
      → inbox ≡ skipped ++ m ∷ rest
      → r ≡ err (server_error m.message)
      → Scanned env want inbox rest r
  ended :
      All (Ignored want) inbox
      → rest ≡ []
      → r ≡ err (read_failed env.closed)
      → Scanned env want inbox rest r

module _ (env : Env) (want : String) where
  Scanned-cons :
      (m : SignalMessage) (ms rest : List SignalMessage) (r : Result ClientError SignalMessage)
      → Ignored want m
      → Scanned env want ms rest r
      → Scanned env want (m ∷ ms) rest r
  Scanned-cons m ms rest r i (found skipped x s t n e h) =
      found (m ∷ skipped) x (i, s) t n (ap (◌∷◌ m) e) h
  Scanned-cons m ms rest r i (refused skipped x s t e h) =
      refused (m ∷ skipped) x (i, s) t (ap (◌∷◌ m) e) h
  Scanned-cons m ms rest r i (ended s e h) = ended (i, s) e h

  -- Reading returns the first message that has the wanted type or is an error of the server, the
  -- latter as an error; it ignores the messages before, leaves those behind unread, and fails with
  -- the connection's error where no such message comes.
  pub scan-Scanned :
      (inbox : List SignalMessage)
      → Scanned env want inbox (scan env want inbox).1 (scan env want inbox).0
  unfolding scan
  scan-Scanned [] = ended tt refl refl
  scan-Scanned (m ∷ ms) = elim (Bool-cases (str_eq m.type msg_error)) [
    | inl error ↦ rw error (refused [] m tt ((eq_iff m.type msg_error).0 error) refl refl)
    | inr other ↦ elim (Bool-cases (str_eq m.type want)) [
      | inl hit ↦
          rw (other, hit)
            (found [] m tt ((eq_iff m.type want).0 hit) (ground (arith, eq_iff m.type msg_error))
              refl refl)
      | inr miss ↦ rw (other, miss) (Scanned-cons m ms _ _ (other, miss) (scan-Scanned ms))
    ]
  ]
