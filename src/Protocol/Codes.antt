-- ===== src/Protocol/Codes.antt =====
-- internal/protocol/codes.go, `GenerateCode` and `ValidateCode`. `crypto/rand` is the argument
-- `rand`: its i-th draw below a maximum, or `none` for a read error.
pub mod Laws
use wani.Base.{
  ℕ, zero, suc, ◌+◌, Bool, true, false, List, [], ◌∷◌, Option, none, some, Text, Dict, Result, ok,
  err, panic, ◌>>=◌, ℤ, pos, negsuc, length, get_elem?, has, split, join, if◌then◌else◌, lookup,
  ◌==◌,
}
use wani.Protocol.Words.{WordList}

pub data CodeError : Type 0 where
  not_positive : CodeError
  rand_failed : CodeError

abbrev pub Rand : Type 0
Rand = ℕ → ℕ → Option ℕ

-- `words[idx]` panics outside the list.
unfoldable pub word_at : List Text → Option ℕ → Result CodeError Text
word_at words none = err rand_failed
word_at words (some idx) = elim (get_elem? words idx) [ none ↦ panic | some w ↦ ok w ]

-- `rand.Int(rand.Reader, max)` panics at a maximum that is not positive.
unfoldable pub pick : List Text → Rand → ℕ → Result CodeError Text
unfolding word_at
pick [] rand i = panic
pick (w ∷ ws) rand i = word_at (w ∷ ws) (rand i (length (w ∷ ws)))

-- The loop that fills `selected`: `k` words are left, and the next has index `i`.
unfoldable pub select : List Text → Rand → ℕ → ℕ → Result CodeError (List Text)
unfolding pick
select words rand zero i = ok []
select words rand (suc k) i =
    pick words rand i >>= λ w. select words rand k (i + 1) >>= λ ws. ok (w ∷ ws)

unfoldable pub generate_code : List Text → Rand → ℤ → Result CodeError Text
unfolding select
generate_code words rand (pos zero) = err not_positive
generate_code words rand (pos (suc n)) = select words rand (suc n) 0 >>= λ ws. ok (join ws b'-')
generate_code words rand (negsuc n) = err not_positive

-- The loop over the parts returns at the first that is no word.
unfoldable pub all_words : Dict (Unit {0}) → List Text → Bool
all_words set [] = true
all_words set (p ∷ ps) = let rest = all_words set ps in if has p set then rest else false

-- `if len(parts) == 0 { return false }` comes before the loop.
unfoldable pub validate_code : Dict (Unit {0}) → Text → Bool
unfolding all_words
validate_code set code =
    let parts = split code b'-' in if length parts == 0 then false else all_words set parts
