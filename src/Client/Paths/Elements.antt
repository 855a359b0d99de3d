-- ===== src/Client/Paths/Elements.antt =====
-- path/filepath: the elements of a path, which `Clean` keeps and to which `Join` adds.
use mathlib.Core.List.{reverse, reverse-cons}
use wani.Base.{
  ℕ, ◌≡◌, refl, sym, ap, subst, ◌∙◌, ◌≢◌, ◌⊎◌, inl, inr, Bool, true, false, List, [], ◌∷◌, ◌++◌,
  append_assoc, Text, text_eq, text_eq_iff, text_eq_self, text_eq-ne, starts_with, split, join,
  split-append, split_none, split_free, All, All-append, All-map, Bool-cases, arith,
}
use wani.Client.Paths.{dot, dot_dot, up, clean_step, clean_parts, is_rooted, show_parts, elements}

abbrev pub slash : ℕ
slash = b'/'

-- A text that can name a file in a directory.
pub record IsPlain (name : Text) : Type 0 where
  pub full : name ≢ []
  pub no_dot : name ≢ dot
  pub no_dot_dot : name ≢ dot_dot
  pub no_slash : All (λ c. c ≢ slash) name

-- Elements that `Clean` leaves as they are, the last one first: steps up come first of all, and
-- only in a path that is not rooted.
abbrev pub Normal : Bool → List Text → Type 0
Normal rooted [] = Unit {0}
Normal rooted (top ∷ rest) =
    (IsPlain top × Normal rooted rest)
    ⊎ ((top ≡ dot_dot) × (rooted ≡ false) × All (λ p. p ≡ dot_dot) rest)

abbrev pub NoSlash : Text → Type 0
NoSlash p = All (λ c. c ≢ slash) p

step_plain :
    (rooted : Bool) (kept : List Text) (name : Text)
    → IsPlain name
    → clean_step rooted kept name ≡ name ∷ kept
unfolding clean_step
step_plain rooted kept name p =
    rw
      (
        text_eq-ne name [] p.full,
        text_eq-ne name dot p.no_dot,
        text_eq-ne name dot_dot p.no_dot_dot,
      )
      refl

dots-Normal : (kept : List Text) → All (λ p. p ≡ dot_dot) kept → Normal false kept
dots-Normal [] h = tt
dots-Normal (top ∷ rest) h = inr (h.0, refl, h.1)

up-Normal : (rooted : Bool) (kept : List Text) → Normal rooted kept → Normal rooted (up rooted kept)
unfolding up
up-Normal true [] h = tt
up-Normal false [] h = inr (refl, refl, tt)
up-Normal rooted (top ∷ rest) (inl (plain, h)) = rw (text_eq-ne top dot_dot plain.no_dot_dot) h
up-Normal rooted (top ∷ rest) (inr (dots, free, more)) =
    rw (dots, text_eq_self dot_dot) (inr (refl, free, (refl, more)))

step-Normal :
    (rooted : Bool) (kept : List Text) (part : Text)
    → NoSlash part
    → Normal rooted kept
    → Normal rooted (clean_step rooted kept part)
unfolding clean_step
step-Normal rooted kept part free h = elim (Bool-cases (text_eq part [])) [
  | inl e ↦ rw e h
  | inr full ↦ elim (Bool-cases (text_eq part dot)) [
    | inl e ↦ rw (full, e) h
    | inr no_dot ↦ elim (Bool-cases (text_eq part dot_dot)) [
      | inl e ↦ rw (full, no_dot, e) (up-Normal rooted kept h)
      | inr no_dots ↦ rw (full, no_dot, no_dots) (inl (plain full no_dot no_dots, h))
    ]
  ]
]
  where
    plain :
        text_eq part [] ≡ false
        → text_eq part dot ≡ false
        → text_eq part dot_dot ≡ false
        → IsPlain part
    plain a b c = record {
      full = ground (arith, a, text_eq_iff part []);
      no_dot = ground (arith, b, text_eq_iff part dot);
      no_dot_dot = ground (arith, c, text_eq_iff part dot_dot);
      no_slash = free;
    }

parts-Normal :
    (rooted : Bool) (kept parts : List Text)
    → All NoSlash parts
    → Normal rooted kept
    → Normal rooted (clean_parts rooted kept parts)
unfolding clean_parts
parts-Normal rooted kept [] free h = h
parts-Normal rooted kept (part ∷ parts) free h =
    parts-Normal rooted (clean_step rooted kept part) parts free.1
      (step-Normal rooted kept part free.0 h)

pub clean_parts-append :
    (rooted : Bool) (kept ps qs : List Text)
    → clean_parts rooted kept (ps ++ qs) ≡ clean_parts rooted (clean_parts rooted kept ps) qs
unfolding clean_parts
clean_parts-append rooted kept [] qs = refl
clean_parts-append rooted kept (p ∷ ps) qs =
    clean_parts-append rooted (clean_step rooted kept p) ps qs

-- Going through plain names adds them.
pub clean_parts_plain :
    (rooted : Bool) (kept names : List Text)
    → All IsPlain names
    → clean_parts rooted kept names ≡ reverse names ++ kept
unfolding clean_parts
clean_parts_plain rooted kept [] h = refl
clean_parts_plain rooted kept (n ∷ names) h =
    ap (λ k. clean_parts rooted k names) (step_plain rooted kept n h.0)
    ∙ clean_parts_plain rooted (n ∷ kept) names h.1
    ∙ rw (reverse-cons n names, append_assoc (reverse names) (n ∷ []) kept)

step_dots :
    (rest : List Text)
    → All (λ p. p ≡ dot_dot) rest
    → clean_step false rest dot_dot ≡ dot_dot ∷ rest
unfolding clean_step up text_eq
step_dots [] h = refl
step_dots (p ∷ rest) h = rw h.0 refl

-- Elements in their order lead back to themselves.
clean_parts-reverse :
    (rooted : Bool) (kept : List Text)
    → Normal rooted kept
    → clean_parts rooted [] (reverse kept) ≡ kept
unfolding clean_parts
clean_parts-reverse rooted [] h = refl
clean_parts-reverse rooted (top ∷ rest) (inl (plain, h)) =
    rw
      (
        reverse-cons top rest,
        clean_parts-append rooted [] (reverse rest) (top ∷ []),
        clean_parts-reverse rooted rest h,
      )
      (step_plain rooted rest top plain)
clean_parts-reverse rooted (top ∷ rest) (inr (e, free, dots)) =
    rw (reverse-cons top rest, clean_parts-append rooted [] (reverse rest) (top ∷ []))
      (ap (λ k. clean_step rooted k top)
          (clean_parts-reverse rooted rest (rw free (dots-Normal rest dots)))
        ∙ rw (free, e) (step_dots rest dots))

split-join :
    (p : Text) (ps : List Text) → All NoSlash (p ∷ ps) → split (join (p ∷ ps) slash) slash ≡ p ∷ ps
unfolding join
split-join p [] h = split_none p slash h.0
split-join p (q ∷ ps) h =
    split-append slash p (join (q ∷ ps) slash)
    ∙ ap (λ l. l ++ split (join (q ∷ ps) slash) slash) (split_none p slash h.0)
    ∙ ap (λ l. p ∷ l) (split-join q ps h.1)

-- Elements that stand alone between slashes.
abbrev pub IsSolid : Text → Type 0
IsSolid p = (p ≢ []) × NoSlash p

dot_dot-NoSlash : NoSlash dot_dot
dot_dot-NoSlash = ((λ h. omega (arith, h)), ((λ h. omega (arith, h)), tt))

Normal-IsSolid : (rooted : Bool) (kept : List Text) → Normal rooted kept → All IsSolid kept
Normal-IsSolid rooted [] h = tt
Normal-IsSolid rooted (top ∷ rest) (inl (plain, h)) =
    ((plain.full, plain.no_slash), Normal-IsSolid rooted rest h)
Normal-IsSolid rooted (top ∷ rest) (inr (e, free, dots)) = (
  ((λ h. cc (e, h)), subst NoSlash (sym e) dot_dot-NoSlash),
  Normal-IsSolid rooted rest (rw free (dots-Normal rest dots)),
)

pub elements-Normal : (p : Text) → Normal (is_rooted p) (elements p)
unfolding elements
elements-Normal p = parts-Normal (is_rooted p) [] (split p slash) (split_free p slash) tt

All-reverse : (P : Text → Type 0) (xs : List Text) → All P xs → All P (reverse xs)
All-reverse P [] h = tt
All-reverse P (x ∷ xs) h =
    subst (All P) (sym (reverse-cons x xs))
      (All-append P (reverse xs) (x ∷ []) (All-reverse P xs h.1) (h.0, tt))

skip_empty :
    (rooted : Bool) (kept parts : List Text)
    → clean_parts rooted kept ([] ∷ parts) ≡ clean_parts rooted kept parts
unfolding clean_parts clean_step text_eq
skip_empty rooted kept parts = refl

reverse-ne_nil : (top : Text) (rest : List Text) → reverse (top ∷ rest) ≢ []
reverse-ne_nil top rest h = go (reverse rest) (sym (reverse-cons top rest) ∙ h)
  where
    go : (l : List Text) → l ++ top ∷ [] ≢ []
    go [] = λ e. cc
    go (x ∷ l) = λ e. cc

pub split-join_solid :
    (ps : List Text) → ps ≢ [] → All IsSolid ps → split (join ps slash) slash ≡ ps
split-join_solid [] ne h = absurd (ne refl)
split-join_solid (p ∷ ps) ne h = split-join p ps (All-map (λ q s. s.1) (p ∷ ps) h)

is_rooted-join : (ps : List Text) → ps ≢ [] → All IsSolid ps → is_rooted (join ps slash) ≡ false
unfolding is_rooted join starts_with
is_rooted-join [] ne h = absurd (ne refl)
is_rooted-join ([] ∷ ps) ne h = absurd (h.0.0 refl)
is_rooted-join ((c ∷ cs) ∷ []) ne h = ground (arith, h.0.1.0)
is_rooted-join ((c ∷ cs) ∷ q ∷ ps) ne h = ground (arith, h.0.1.0)

elements-root : elements (slash ∷ []) ≡ []
unfolding elements is_rooted starts_with split clean_parts clean_step text_eq
elements-root = refl

elements-dot : elements dot ≡ []
unfolding elements is_rooted starts_with split clean_parts clean_step text_eq
elements-dot = refl

elements-slash : (s : Text) → elements (slash ∷ s) ≡ clean_parts true [] (split s slash)
unfolding elements is_rooted starts_with split
elements-slash s =
    ap (clean_parts true []) (split-append slash [] s) ∙ skip_empty true [] (split s slash)

-- What `Clean` makes of its own result.
pub elements-show :
    (rooted : Bool) (kept : List Text)
    → Normal rooted kept
    → (is_rooted (show_parts rooted kept) ≡ rooted) × (elements (show_parts rooted kept) ≡ kept)
unfolding elements show_parts
elements-show true [] h = (unfold is_rooted starts_with in refl, unfold join in elements-root)
elements-show true (top ∷ rest) h =
    let ps = reverse (top ∷ rest) in
    (
      unfold is_rooted starts_with in refl,
      elements-slash (join ps slash)
          ∙ ap (clean_parts true []) (
              split-join_solid ps (reverse-ne_nil top rest)
                (All-reverse IsSolid (top ∷ rest) (Normal-IsSolid true (top ∷ rest) h)))
          ∙ clean_parts-reverse true (top ∷ rest) h,
    )
elements-show false [] h = (unfold is_rooted starts_with in refl, elements-dot)
elements-show false (top ∷ rest) h =
    let ps = reverse (top ∷ rest) in
    let solid = All-reverse IsSolid (top ∷ rest) (Normal-IsSolid false (top ∷ rest) h) in
    let free = is_rooted-join ps (reverse-ne_nil top rest) solid in
    (
      free,
      rw (free, split-join_solid ps (reverse-ne_nil top rest) solid)
          (clean_parts-reverse false (top ∷ rest) h),
    )
