-- ===== src/Protocol/Words.antt =====
-- internal/protocol/codes.go, `init`: the word list, parsed once from the embedded text, and the
-- set of its words. The embedded text (wordlist.txt) is an argument.
use wani.Base.{
  contains, ◌≡◌, refl, ◌≢◌, ◌||◌, List, [], ◌∷◌, ◌++◌, arith, if◌then◌else◌, Text, text_eq,
  text_eq_iff, split, trim_space, Dict, insert, has, lookup, lookup-insert, All, All-append,
  Bool-cases, inl, inr, ◌∙◌, true, text_eq_self,
}

pub record WordList : Type 0 where
  pub words : List Text
  pub word_set : Dict (Unit {0})

abbrev no_words : WordList
no_words = record { words = []; word_set = [] }

-- The body of the loop.
add_line : Text → WordList → WordList
add_line line l =
    let w = trim_space line in
    if text_eq w []
    then l
    else record { words = l.words ++ w ∷ []; word_set = insert w tt l.word_set }

add_lines : List Text → WordList → WordList
add_lines [] l = l
add_lines (line ∷ lines) l = add_lines lines (add_line line l)

unfoldable pub load_words : Text → WordList
unfolding add_line add_lines
load_words raw = add_lines (split (trim_space raw) b'\n') no_words

contains-append :
    (p w : Text) (ws : List Text) → contains p (ws ++ w ∷ []) ≡ (contains p ws || text_eq w p)
unfolding contains
contains-append p w [] = ground arith
contains-append p w (v ∷ ws) = ground (arith, contains-append p w ws)

-- The set and the list agree, and no word is empty.
record IsLoaded (l : WordList) : Type 0 where
  same : (p : Text) → has p l.word_set ≡ contains p l.words
  nonempty : All (λ w. w ≢ []) l.words

add_line-IsLoaded : (line : Text) (l : WordList) → IsLoaded l → IsLoaded (add_line line l)
unfolding add_line
add_line-IsLoaded line l v = elim (Bool-cases (text_eq (trim_space line) [])) [
  | inl blank ↦ rw blank v
  | inr word ↦ rw word (record {
    same = λ p. ground (
      arith,
      lookup-insert (trim_space line) p tt l.word_set,
      contains-append p (trim_space line) l.words,
      v.same p,
    );
    nonempty =
        All-append (λ w. w ≢ []) l.words _ v.nonempty
          (ground (arith, text_eq_iff (trim_space line) []), tt);
  })
]

add_lines-IsLoaded : (lines : List Text) (l : WordList) → IsLoaded l → IsLoaded (add_lines lines l)
unfolding add_lines
add_lines-IsLoaded [] l v = v
add_lines-IsLoaded (line ∷ lines) l v = add_lines-IsLoaded lines _ (add_line-IsLoaded line l v)

no_words-IsLoaded : IsLoaded no_words
unfolding lookup contains
no_words-IsLoaded = record { same = λ p. refl; nonempty = tt }

-- For every embedded text, the set used to validate codes has exactly the words of the list used
-- to generate them, and no word is empty.
pub load_words_lem :
    (raw : Text)
    → ((p : Text) → has p (load_words raw).word_set ≡ contains p (load_words raw).words)
      × All (λ w. w ≢ []) (load_words raw).words
unfolding load_words
load_words_lem raw =
    let v = add_lines-IsLoaded (split (trim_space raw) b'\n') no_words no_words-IsLoaded in
    (v.same, v.nonempty)

contains-All :
    (l : WordList) (ws : List Text)
    → ((p : Text) → contains p ws ≡ true → has p l.word_set ≡ true)
    → All (λ w. has w l.word_set ≡ true) ws
unfolding contains
contains-All l [] h = tt
contains-All l (w ∷ ws) h = (h w (rw text_eq_self), contains-All l ws (λ p c. h p (ground arith)))

pub load_words-All :
    (raw : Text) → All (λ w. has w (load_words raw).word_set ≡ true) (load_words raw).words
load_words-All raw =
    contains-All (load_words raw) (load_words raw).words λ p c. (load_words_lem raw).0 p ∙ c
