-- ===== src/Protocol/Tests.antt =====
-- Tests of the pairing codes on a small word list with a hyphenated word, and the theorems at
-- concrete inputs.
use wani.Base.{
  zero, suc, ◌≡◌, refl, ◌≢◌, ◌↔◌, true, false, List, [], ◌∷◌, none, some, arith, Text, codes,
  text_eq, split, join, trim_space, contains, lookup, insert, ok, err, pos, All, length, ltb, ℕ,
  ◌<◌, get_elem?, if◌then◌else◌, Bool-cases, inl, inr, subst,
}
use wani.Protocol.Words.{WordList, load_words}
use wani.Protocol.Codes.{Rand, generate_code, validate_code, not_positive, rand_failed, pick}
use wani.Protocol.Codes.Laws.{
  IsSound, IsInRange, IsHyphenFree, IsWord, AtDraws, generate_code_total, validate_code_iff,
  validate-generate, validate-generate_hyphen,
}

abbrev raw : Text
raw = codes " owl\r\n\ncat \n"

-- The i-th draw is i, or 0 where that is too large.
abbrev counting : Rand
counting i zero = none
counting i (suc max) = if ltb i (suc max) then some i else some 0

abbrev plain : WordList
plain = record {
  words = codes "owl" ∷ codes "cat" ∷ [];
  word_set = (codes "owl", tt) ∷ (codes "cat", tt) ∷ [];
}

abbrev hyphenated : WordList
hyphenated = record {
  words = codes "owl" ∷ codes "drop-down" ∷ [];
  word_set = (codes "owl", tt) ∷ (codes "drop-down", tt) ∷ [];
}

program : Unit {0}
unfolding load_words generate_code validate_code text_eq split join trim_space contains lookup
    insert
program = tt

load_plain : load_words raw ≡ plain
unfolding program
load_plain = refl

generate_plain : generate_code plain.words counting (pos 4) ≡ ok (codes "owl-cat-owl-owl")
unfolding program
generate_plain = refl

generate_zero : generate_code plain.words counting (pos 0) ≡ err not_positive
unfolding program
generate_zero = refl

generate_broken : generate_code plain.words (λ i max. none) (pos 4) ≡ err rand_failed
unfolding program
generate_broken = refl

validate_tests :
    (validate_code plain.word_set (codes "cat-owl") ≡ true)
    × (validate_code plain.word_set (codes "cat-dog") ≡ false)
    × (validate_code plain.word_set [] ≡ false)
unfolding program
validate_tests = (refl, refl, refl)

generate_hyphenated :
    generate_code hyphenated.words counting (pos 4) ≡ ok (codes "owl-drop-down-owl-owl")
unfolding program
generate_hyphenated = refl

counting-IsInRange : IsInRange counting
counting-IsInRange i zero idx h = cc
counting-IsInRange i (suc max) idx h = ground arith

counting-IsSound : IsSound counting
counting-IsSound i zero h = absurd (omega arith)
counting-IsSound i (suc max) h = elim (Bool-cases (ltb i (suc max))) [
  | inl small ↦ (i, rw small, ground arith)
  | inr large ↦ (0, rw large, omega arith)
]

load_hyphenated : load_words (codes "owl\ndrop-down") ≡ hyphenated
unfolding program
load_hyphenated = refl

-- The second word of the list has a hyphen, but the first is drawn every time.
abbrev zeros : Rand
zeros i max = some 0

owl_drawn :
    (j idx : ℕ) (w : Text)
    → j < 2
    → zeros j 2 ≡ some idx
    → get_elem? hyphenated.words idx ≡ some w
    → IsHyphenFree w
owl_drawn j idx w small e at =
    let same : codes "owl" ≡ w = ground (arith, e, at) in subst IsHyphenFree same (omega arith)

validate-generate_example :
    validate_code (load_words (codes "owl\ndrop-down")).word_set (codes "owl-owl") ≡ true
unfolding program
validate-generate_example =
    validate-generate (codes "owl\ndrop-down") zeros 2 (codes "owl-owl") refl owl_drawn

validate_code_iff_example : (validate_code hyphenated.word_set (codes "owl-drop-down") ≡ true) ↔ (
    (ws : List Text) × (ws ≢ [])
    × All (IsWord hyphenated.word_set) ws
    × (codes "owl-drop-down" ≡ join ws b'-'))
validate_code_iff_example = validate_code_iff hyphenated.word_set (codes "owl-drop-down")

generate_code_total_example :
    (ws : List Text) × (generate_code plain.words counting (pos 4) ≡ ok (join ws b'-'))
    × AtDraws plain.words counting 0 ws
    × (length ws ≡ 4)
generate_code_total_example = generate_code_total plain.words counting 3 counting-IsSound (λ e. cc)

validate-generate_hyphen_example :
    validate_code hyphenated.word_set (codes "owl-drop-down-owl-owl") ≡ false
unfolding program pick
validate-generate_hyphen_example =
    validate-generate_hyphen hyphenated.word_set hyphenated.words counting 4 1 (codes "drop-down")
      (codes "owl-drop-down-owl-owl") refl (omega arith) refl refl
