-- ===== src/Protocol/Codes/Laws.antt =====
-- internal/protocol/codes.go: what `GenerateCode` and `ValidateCode` promise each other.
use wani.Base.{
  ℕ, zero, suc, ◌+◌, ◌<◌, ◌≡◌, refl, sym, ap, ◌∙◌, ◌≢◌, ◌↔◌, inl, inr, Bool, true, false, ◌&&◌,
  List, [], ◌∷◌, ◌++◌, Option, none, some, arith, Text, Dict, ok, panic, bind_ok, ok-injective,
  subst, ℤ, pos, negsuc, length, get_elem?, get_elem?-is_some, All, has, split, join, split-append,
  split-ne-nil, join-cons, join-split, split_none, split_free, Bool-cases, All-get_elem?,
}
use wani.Protocol.Codes.{Rand, word_at, pick, select, generate_code, all_words, validate_code}
use mathlib.Core.List.{append-ne-nil_of_right_ne-nil}
use native.Mathlib.Nat.{add-zero, zero-add}
use wani.Protocol.Words.{load_words, load_words-All}

module _ (set : Dict (Unit {0})) where
  all_words-append :
      (ps qs : List Text) → all_words set (ps ++ qs) ≡ (all_words set ps && all_words set qs)
  unfolding all_words
  all_words-append [] qs = refl
  all_words-append (p ∷ ps) qs = ground (arith, all_words-append ps qs)

  validate-split : (code : Text) → validate_code set code ≡ all_words set (split code b'-')
  unfolding validate_code
  validate-split code = ground (arith, split-ne-nil code b'-')

  -- Whether each of the words is a valid code of its own.
  pub all_valid : List Text → Bool
  all_valid [] = true
  all_valid (w ∷ ws) = validate_code set w && all_valid ws

  -- The validity of a join is decided word by word.
  validate-join : (ws : List Text) → ws ≢ [] → validate_code set (join ws b'-') ≡ all_valid ws
  unfolding all_valid
  validate-join [] h = absurd (h refl)
  validate-join (w ∷ []) h = unfold join in ground arith
  validate-join (w ∷ v ∷ ws) h =
      let rest = join (v ∷ ws) b'-' in
      ground (
        arith,
        join-cons w (v ∷ ws) b'-',
        validate-split (w ++ b'-' ∷ rest),
        split-append b'-' w rest,
        all_words-append (split w b'-') (split rest b'-'),
        validate-split w,
        validate-split rest,
        validate-join (v ∷ ws),
      )

-- Inversion of a draw: the word stands at the index that was drawn.
pick-ok :
    (words : List Text) (rand : Rand) (i : ℕ) {w : Text}
    → pick words rand i ≡ ok w
    → (idx : ℕ) × (rand i (length words) ≡ some idx) × (get_elem? words idx ≡ some w)
unfolding pick
pick-ok [] rand i h = cc
pick-ok (v ∷ vs) rand i h = word_at-ok (v ∷ vs) (rand i (length (v ∷ vs))) h
  where
    word_at-ok :
        (ws : List Text) (o : Option ℕ) {w : Text}
        → word_at ws o ≡ ok w
        → (idx : ℕ) × (o ≡ some idx) × (get_elem? ws idx ≡ some w)
    word_at-ok ws none h = cc
    word_at-ok ws (some idx) h = (idx, refl, ground arith)

-- What a completed loop has selected: as many words as asked, each by its own draw.
pub Drawn : List Text → Rand → ℕ → List Text → Type 0
Drawn words rand i [] = Unit {0}
Drawn words rand i (w ∷ ws) = (pick words rand i ≡ ok w) × Drawn words rand (i + 1) ws

select-ok :
    (words : List Text) (rand : Rand) (k i : ℕ) (ws : List Text)
    → select words rand k i ≡ ok ws
    → Drawn words rand i ws × (length ws ≡ k)
unfolding select Drawn
select-ok words rand zero i ws h =
    subst (λ us. Drawn words rand i us × (length us ≡ 0)) (ok-injective h) (tt, refl)
select-ok words rand (suc k) i ws h =
    let (w, picked, h') = bind_ok (pick words rand i) _ h in
    let (vs, rest, e) = bind_ok (select words rand k (i + 1)) _ h' in
    let (drawn, len) = select-ok words rand k (i + 1) vs rest in
    subst (λ us. Drawn words rand i us × (length us ≡ suc k)) (ok-injective e)
      ((picked, drawn), ap suc len)

-- A code is the join of as many drawn words as were asked for.
pub generate_code-Drawn :
    (words : List Text) (rand : Rand) (n : ℤ) (code : Text)
    → generate_code words rand n ≡ ok code
    → (ws : List Text) × Drawn words rand 0 ws
      × (pos (length ws) ≡ n)
      × (code ≡ join ws b'-')
      × (ws ≢ [])
unfolding generate_code
generate_code-Drawn words rand (pos zero) code h = cc
generate_code-Drawn words rand (negsuc n) code h = cc
generate_code-Drawn words rand (pos (suc n)) code h =
    let (ws, chosen, e) = bind_ok (select words rand (suc n) 0) _ h in
    let (drawn, len) = select-ok words rand (suc n) 0 ws chosen in
    (ws, drawn, ap pos len, sym (ok-injective e), ground arith)

-- Given a working source of random numbers, `n > 0` words are always drawn, from any list that is
-- not empty.
abbrev pub IsSound : Rand → Type 0
IsSound rand = (i max : ℕ) → 0 < max → (idx : ℕ) × (rand i max ≡ some idx) × (idx < max)

pick_total :
    (words : List Text) (rand : Rand) (i : ℕ)
    → IsSound rand
    → words ≢ []
    → (w : Text) × (pick words rand i ≡ ok w)
unfolding pick
pick_total [] rand i s h = absurd (h refl)
pick_total (v ∷ vs) rand i s h =
    let (idx, drawn, small) = s i (length (v ∷ vs)) (omega arith) in
    let (w, found) = get_elem?-is_some (v ∷ vs) idx small in (w, rw (drawn, word_at, found))

select_total :
    (words : List Text) (rand : Rand) (k i : ℕ)
    → IsSound rand
    → words ≢ []
    → (ws : List Text) × (select words rand k i ≡ ok ws)
unfolding select
select_total words rand zero i s h = ([], refl)
select_total words rand (suc k) i s h =
    let (w, picked) = pick_total words rand i s h in
    let (ws, rest) = select_total words rand k (i + 1) s h in (w ∷ ws, rw (picked, rest))

-- The words stand in the list at the indices that the source of random numbers gives, from the i-th
-- draw on.
abbrev pub AtDraws : List Text → Rand → ℕ → List Text → Type 0
AtDraws words rand i [] = Unit {0}
AtDraws words rand i (w ∷ ws) =
    ((idx : ℕ) × (rand i (length words) ≡ some idx) × (get_elem? words idx ≡ some w))
    × AtDraws words rand (i + 1) ws

Drawn-AtDraws :
    (words : List Text) (rand : Rand) (i : ℕ) (ws : List Text)
    → Drawn words rand i ws
    → AtDraws words rand i ws
unfolding Drawn
Drawn-AtDraws words rand i [] d = tt
Drawn-AtDraws words rand i (w ∷ ws) d =
    (pick-ok words rand i d.0, Drawn-AtDraws words rand (i + 1) ws d.1)

-- With a word list that is not empty and a source that draws below each positive maximum,
-- `GenerateCode` returns a code for every positive number of words, which is the join of exactly
-- that many words, each the one that stands in the list at the index that was drawn for it.
pub generate_code_total :
    (words : List Text) (rand : Rand) (n : ℕ)
    → IsSound rand
    → words ≢ []
    → (ws : List Text) × (generate_code words rand (pos (suc n)) ≡ ok (join ws b'-'))
      × AtDraws words rand 0 ws
      × (length ws ≡ suc n)
unfolding generate_code
generate_code_total words rand n s h =
    let (ws, chosen) = select_total words rand (suc n) 0 s h in
    let (drawn, len) = select-ok words rand (suc n) 0 ws chosen in
    (ws, rw chosen, Drawn-AtDraws words rand 0 ws drawn, len)

abbrev pub IsHyphenFree : Text → Type 0
IsHyphenFree w = All (λ c. c ≢ b'-') w

module _ (set : Dict (Unit {0})) where
  -- A word of the set without a hyphen.
  abbrev pub IsWord : Text → Type 0
  IsWord w = (has w set ≡ true) × IsHyphenFree w

  word_valid : (w : Text) → IsWord w → validate_code set w ≡ true
  unfolding all_words
  word_valid w h = ground (arith, validate-split set w, split_none w b'-' h.1, h.0)

  words_valid : (ws : List Text) → All IsWord ws → all_valid set ws ≡ true
  unfolding all_valid
  words_valid [] h = refl
  words_valid (w ∷ ws) h = rw (word_valid w h.0, words_valid ws h.1)

  all_words-All : (ps : List Text) → all_words set ps ≡ true → All IsHyphenFree ps → All IsWord ps
  unfolding all_words
  all_words-All [] h free = tt
  all_words-All (p ∷ ps) h free = elim (Bool-cases (has p set)) [
    | inl is ↦ ((is, free.0), all_words-All ps (ground arith) free.1)
    | inr not_is ↦ absurd (ground arith)
  ]

  -- For every word set, `ValidateCode` accepts exactly the non-empty sequences of its words without
  -- a hyphen, joined by hyphens.
  pub validate_code_iff :
      (code : Text)
      → (validate_code set code ≡ true)
        ↔ ((ws : List Text) × (ws ≢ []) × All IsWord ws × (code ≡ join ws b'-'))
  validate_code_iff code = (
    λ h. (
      split code b'-',
      split-ne-nil code b'-',
      all_words-All _ (sym (validate-split set code) ∙ h) (split_free code b'-'),
      sym (join-split code b'-'),
    ),
    λ (ws, some_word, all, e). rw (e, validate-join set ws some_word) (words_valid ws all),
  )

  Drawn-All :
      (words : List Text) (rand : Rand) (n i : ℕ) (ws : List Text)
      → All (λ w. has w set ≡ true) words
      → ((j idx : ℕ) (w : Text)
          → j < n
          → rand j (length words) ≡ some idx
          → get_elem? words idx ≡ some w
          → IsHyphenFree w)
      → i + length ws ≡ n
      → Drawn words rand i ws
      → All IsWord ws
  unfolding Drawn
  Drawn-All words rand n i [] h free len d = tt
  Drawn-All words rand n i (w ∷ ws) h free len d =
      let (idx, drawn, at) = pick-ok words rand i d.0 in
      (
        (All-get_elem? _ words idx w h at, free i idx w (omega (arith, len)) drawn at),
        Drawn-All words rand n (i + 1) ws h free (omega (arith, len)) d.1,
      )

  Drawn-invalid :
      (words : List Text) (rand : Rand) (i j : ℕ) (w : Text) (ws : List Text)
      → Drawn words rand i ws
      → j < length ws
      → pick words rand (i + j) ≡ ok w
      → validate_code set w ≡ false
      → all_valid set ws ≡ false
  unfolding Drawn all_valid
  Drawn-invalid words rand i j w [] d lt picked bad = absurd (omega arith)
  Drawn-invalid words rand i zero w (v ∷ ws) d lt picked bad =
      ground (arith, ok-injective (sym d.0 ∙ rw add-zero at picked))
  Drawn-invalid words rand i (suc j) w (v ∷ ws) d lt picked bad =
      let e : i + suc j ≡ i + 1 + j = omega arith in
      rw (Drawn-invalid words rand (i + 1) j w ws d.1 (omega arith) (rw e at picked) bad)
        (ground arith)

-- A code that is generated from a loaded word list is accepted by `ValidateCode` if none of the
-- words that are drawn for it has a hyphen; the other words of the list may have one.
pub validate-generate :
    (raw : Text) (rand : Rand) (n : ℕ) (code : Text)
    → generate_code (load_words raw).words rand (pos n) ≡ ok code
    → ((j idx : ℕ) (w : Text)
        → j < n
        → rand j (length (load_words raw).words) ≡ some idx
        → get_elem? (load_words raw).words idx ≡ some w
        → IsHyphenFree w)
    → validate_code (load_words raw).word_set code ≡ true
validate-generate raw rand n code h free =
    let l = load_words raw in
    let (ws, drawn, len, e, some_word) = generate_code-Drawn l.words rand (pos n) code h in
    rw (e, validate-join l.word_set ws some_word)
      (words_valid l.word_set ws (
        Drawn-All l.word_set l.words rand n 0 ws (load_words-All raw) free (ground (arith, len))
          drawn))

-- If one of the words that `GenerateCode` draws is no valid code of its own, as a word with a
-- hyphen whose parts are no words, then `ValidateCode` refuses the code that was generated.
pub validate-generate_hyphen :
    (set : Dict (Unit {0})) (words : List Text) (rand : Rand) (n j : ℕ) (w code : Text)
    → generate_code words rand (pos n) ≡ ok code
    → j < n
    → pick words rand j ≡ ok w
    → validate_code set w ≡ false
    → validate_code set code ≡ false
validate-generate_hyphen set words rand n j w code h lt picked bad =
    let (ws, drawn, len, e, some_word) = generate_code-Drawn words rand (pos n) code h in
    rw (e, validate-join set ws some_word)
      (Drawn-invalid set words rand 0 j w ws drawn (ground arith) (rw zero-add picked) bad)

-- A source of random numbers draws below the maximum whenever it does not fail.
abbrev pub IsInRange : Rand → Type 0
IsInRange rand = (i max idx : ℕ) → rand i max ≡ some idx → idx < max

word_at-ne-panic :
    (ws : List Text) (o : Option ℕ)
    → ((idx : ℕ) → o ≡ some idx → idx < length ws)
    → word_at ws o ≢ panic
unfolding word_at
word_at-ne-panic ws none s = λ e. cc
word_at-ne-panic ws (some idx) s =
    let (w, found) = get_elem?-is_some ws idx (s idx refl) in rw (found, word_at) (λ e. cc)

pick-ne-panic :
    (words : List Text) (rand : Rand) (i : ℕ)
    → IsInRange rand
    → words ≢ []
    → pick words rand i ≢ panic
unfolding pick
pick-ne-panic [] rand i s h = absurd (h refl)
pick-ne-panic (v ∷ vs) rand i s h = word_at-ne-panic (v ∷ vs) _ (s i (length (v ∷ vs)))

select-ne-panic :
    (words : List Text) (rand : Rand) (k i : ℕ)
    → IsInRange rand
    → words ≢ []
    → select words rand k i ≢ panic
unfolding select
select-ne-panic words rand zero i s h = λ e. cc
select-ne-panic words rand (suc k) i s h =
    ground (arith, pick-ne-panic words rand i s h, select-ne-panic words rand k (i + 1) s h)

-- With a word list that is not empty, `GenerateCode` never panics: no draw is out of range.
pub generate_code-ne-panic :
    (words : List Text) (rand : Rand) (n : ℤ)
    → IsInRange rand
    → words ≢ []
    → generate_code words rand n ≢ panic
unfolding generate_code
generate_code-ne-panic words rand (pos zero) s h = λ e. cc
generate_code-ne-panic words rand (pos (suc n)) s h =
    ground (arith, select-ne-panic words rand (suc n) 0 s h)
generate_code-ne-panic words rand (negsuc n) s h = λ e. cc

-- A code of two or more words is not empty.
pub generate_code-ne-nil :
    (words : List Text) (rand : Rand) (n : ℕ) (code : Text)
    → generate_code words rand (pos (suc (suc n))) ≡ ok code
    → code ≢ []
generate_code-ne-nil words rand n code h =
    let (ws, drawn, len, e, some_word) =
      generate_code-Drawn words rand (pos (suc (suc n))) code h in
    rw e (joined ws (ground arith))
  where
    joined : (ws : List Text) → 1 < length ws → join ws b'-' ≢ []
    joined [] h = absurd (omega arith)
    joined (w ∷ []) h = absurd (omega arith)
    joined (w ∷ v ∷ ws) h =
        rw (join-cons w (v ∷ ws) b'-' (λ e. cc)) (append-ne-nil_of_right_ne-nil w (λ e. cc))
