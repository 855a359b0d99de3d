-- ===== src/Base/Texts.antt =====
-- Texts that the program walks, as lists of code points, with what it uses of Go's package
-- strings.
use Prim.Native.Nat.{ℕ}
use Prim.Native.Char.{code}
use Prim.Native.String.{String}
use mathlib.Core.Path.{◌≡◌, refl, sym, subst}
use mathlib.Core.Logic.{◌↔◌, ◌≢◌, inl, inr}
use mathlib.Core.Bool.{Bool, true, false, ◌&&◌, ◌||◌}
use mathlib.Core.List.{List, [], ◌∷◌, ◌++◌, append-nil, append_assoc}
use native.Mathlib.Omega.{arith}
use wani.Base.Lists.{All, All-append}
use wani.Base.Tests.{◌==◌, leb, if◌then◌else◌, Bool-cases}

abbrev pub Text : Type 0
Text = List ℕ

-- The code points of a literal.
abbrev pub codes : String → Text
codes String.[] = []
codes (String.◌∷◌ c s) = code c ∷ codes s

unfoldable pub text_eq : Text → Text → Bool
text_eq [] [] = true
text_eq (a ∷ s) (b ∷ t) = a == b && text_eq s t
text_eq _ _ = false

text_eq→eq : (s t : Text) → text_eq s t ≡ true → s ≡ t
unfolding text_eq
text_eq→eq [] [] h = refl
text_eq→eq (a ∷ s) (b ∷ t) h = ground (arith, text_eq→eq s t)
text_eq→eq [] (b ∷ t) h = cc
text_eq→eq (a ∷ s) [] h = cc

pub text_eq_self : (s : Text) → text_eq s s ≡ true
unfolding text_eq
text_eq_self [] = refl
text_eq_self (a ∷ s) = ground (arith, text_eq_self s)

pub text_eq_iff : (s t : Text) → (text_eq s t ≡ true) ↔ (s ≡ t)
text_eq_iff s t = (text_eq→eq s t, λ e. rw (← e) (text_eq_self s))

pub text_eq-ne : (s t : Text) → s ≢ t → text_eq s t ≡ false
text_eq-ne s t h = ground (arith, text_eq_iff s t)

unfoldable pub starts_with : Text → Text → Bool
starts_with s [] = true
starts_with [] (b ∷ t) = false
starts_with (a ∷ s) (b ∷ t) = a == b && starts_with s t

-- `strings.Split(s, sep)` for a separator of one byte: always at least one part.
cut : ℕ → Text → Text → List Text
cut sep [] cur = cur ∷ []
cut sep (c ∷ s) cur = elim (c == sep) [
  | true ↦ cur ∷ cut sep s []
  | false ↦ cut sep s (cur ++ c ∷ [])
]

unfoldable pub split : Text → ℕ → List Text
unfolding cut
split s sep = cut sep s []

-- `strings.Join(parts, sep)` for a separator of one byte.
unfoldable pub join : List Text → ℕ → Text
join [] sep = []
join (p ∷ []) sep = p
join (p ∷ q ∷ ps) sep = p ++ sep ∷ join (q ∷ ps) sep

-- `unicode.IsSpace`.
unfoldable pub is_space : ℕ → Bool
is_space c =
    leb 9 c && leb c 13
    || c == 32
    || c == 0x85
    || c == 0xa0
    || c == 0x1680
    || leb 0x2000 c && leb c 0x200a
    || c == 0x2028
    || c == 0x2029
    || c == 0x202f
    || c == 0x205f
    || c == 0x3000

trim_left : Text → Text
trim_left [] = []
trim_left (c ∷ s) = let rest = trim_left s in if is_space c then rest else c ∷ s

put_unless_blank : ℕ → Text → Text
put_unless_blank c [] = if is_space c then [] else c ∷ []
put_unless_blank c (d ∷ s) = c ∷ d ∷ s

trim_right : Text → Text
trim_right [] = []
trim_right (c ∷ s) = put_unless_blank c (trim_right s)

-- `strings.TrimSpace`.
unfoldable pub trim_space : Text → Text
unfolding trim_left trim_right put_unless_blank is_space
trim_space s = trim_right (trim_left s)

-- Cutting a text at a separator cuts the two halves.
cut-append : (sep : ℕ) (s t cur : Text) → cut sep (s ++ sep ∷ t) cur ≡ cut sep s cur ++ cut sep t []
unfolding cut
cut-append sep [] t cur = ground arith
cut-append sep (c ∷ s) t cur =
    ground (arith, cut-append sep s t [], cut-append sep s t (cur ++ c ∷ []))

pub split-append : (sep : ℕ) (s t : Text) → split (s ++ sep ∷ t) sep ≡ split s sep ++ split t sep
unfolding split
split-append sep s t = cut-append sep s t []

cut-ne-nil : (sep : ℕ) (s cur : Text) → cut sep s cur ≢ []
unfolding cut
cut-ne-nil sep [] cur = λ e. cc
cut-ne-nil sep (c ∷ s) cur = ground (arith, cut-ne-nil sep s (cur ++ c ∷ []))

pub split-ne-nil : (s : Text) (sep : ℕ) → split s sep ≢ []
unfolding split
split-ne-nil s sep = cut-ne-nil sep s []

pub join-cons :
    (p : Text) (ps : List Text) (sep : ℕ) → ps ≢ [] → join (p ∷ ps) sep ≡ p ++ sep ∷ join ps sep
unfolding join
join-cons p [] sep h = absurd (h refl)
join-cons p (q ∷ ps) sep h = refl

join-cut : (sep : ℕ) (s cur : Text) → join (cut sep s cur) sep ≡ cur ++ s
unfolding cut
join-cut sep [] cur = unfold join in sym (append-nil cur)
join-cut sep (c ∷ s) cur = ground (
  arith,
  join-cons cur (cut sep s []) sep (cut-ne-nil sep s []),
  join-cut sep s [],
  join-cut sep s (cur ++ c ∷ []),
  append_assoc cur (c ∷ []) s,
)

-- Joining the parts of a split gives the text back.
pub join-split : (s : Text) (sep : ℕ) → join (split s sep) sep ≡ s
unfolding split
join-split s sep = join-cut sep s []

-- A text without the separator is its only part.
cut_none : (sep : ℕ) (s cur : Text) → All (λ c. c ≢ sep) s → cut sep s cur ≡ (cur ++ s) ∷ []
unfolding cut
cut_none sep [] cur h = rw append-nil
cut_none sep (c ∷ s) cur h =
    ground (arith, cut_none sep s (cur ++ c ∷ []) h.1, append_assoc cur (c ∷ []) s)

pub split_none : (s : Text) (sep : ℕ) → All (λ c. c ≢ sep) s → split s sep ≡ s ∷ []
unfolding split
split_none s sep h = cut_none sep s [] h

-- Whether a text is in a list.
unfoldable pub contains : Text → List Text → Bool
contains p [] = false
contains p (w ∷ ws) = text_eq w p || contains p ws

cut_free :
    (sep : ℕ) (s cur : Text)
    → All (λ c. c ≢ sep) cur
    → All (λ p. All (λ c. c ≢ sep) p) (cut sep s cur)
unfolding cut
cut_free sep [] cur h = (h, tt)
cut_free sep (c ∷ s) cur h = elim (Bool-cases (c == sep)) [
  | inl same ↦
      let run : cut sep (c ∷ s) cur ≡ cur ∷ cut sep s [] = ground (arith, same) in
      subst (All (λ p. All (λ d. d ≢ sep) p)) (sym run) (h, cut_free sep s [] tt)
  | inr other ↦
      let run : cut sep (c ∷ s) cur ≡ cut sep s (cur ++ c ∷ []) = ground (arith, other) in
      subst (All (λ p. All (λ d. d ≢ sep) p)) (sym run) (
        cut_free sep s (cur ++ c ∷ [])
          (All-append _ cur (c ∷ []) h ((λ e. ground (arith, other, e)), tt)))
]

-- No part holds the separator.
pub split_free : (s : Text) (sep : ℕ) → All (λ p. All (λ c. c ≢ sep) p) (split s sep)
unfolding split
split_free s sep = cut_free sep s [] tt
