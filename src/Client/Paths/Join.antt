-- ===== src/Client/Paths/Join.antt =====
-- path/filepath: what `Join` adds to the elements of a path.
use mathlib.Core.List.{reverse}
use wani.Base.{
  ◌≡◌, refl, ap, ◌∙◌, ◌≢◌, List, [], ◌∷◌, ◌++◌, Text, starts_with, split, join, split-append, All,
  All-map, sym, text_eq,
}
use wani.Client.Paths.{is_rooted, elements, clean, clean_parts, clean_step, join_path}
use wani.Client.Paths.Elements.{
  slash, IsPlain, IsSolid, elements-Normal, elements-show, clean_parts-append, clean_parts_plain,
  split-join_solid,
}

pub clean_lem : (q : Text) → (is_rooted (clean q) ≡ is_rooted q) × (elements (clean q) ≡ elements q)
unfolding clean
clean_lem q = elements-show (is_rooted q) (elements q) (elements-Normal q)

elements_nil : elements [] ≡ []
unfolding elements is_rooted starts_with split clean_parts clean_step text_eq
elements_nil = refl

-- A path of names below a directory.
abbrev pub names_path : List Text → Text
names_path names = join names slash

plain-IsSolid : (names : List Text) → All IsPlain names → All IsSolid names
plain-IsSolid names h = All-map (λ n p. (p.full, p.no_slash)) names h

names_path-ne_nil : (names : List Text) → names ≢ [] → All IsPlain names → names_path names ≢ []
unfolding join
names_path-ne_nil [] ne h = absurd (ne refl)
names_path-ne_nil (n ∷ []) ne h = h.0.full
names_path-ne_nil ([] ∷ m ∷ names) ne h = absurd (h.0.full refl)
names_path-ne_nil ((c ∷ n) ∷ m ∷ names) ne h = λ e. cc

module _ (p : Text) (names : List Text) (stands : p ≢ []) (some_name : names ≢ [])
    (plain : All IsPlain names) where
  join_path-clean : join_path p (names_path names) ≡ clean (p ++ slash ∷ names_path names)
  join_path-clean = go p (names_path names) stands (names_path-ne_nil names some_name plain)
    where
      go : (d r : Text) → d ≢ [] → r ≢ [] → join_path d r ≡ clean (d ++ slash ∷ r)
      go d [] hd hr = absurd (hr refl)
      go [] (b ∷ r) hd hr = absurd (hd refl)
      go (c ∷ d) (b ∷ r) hd hr = unfold join_path in refl

  rooted_same : (r : Text) → is_rooted (p ++ r) ≡ is_rooted p
  rooted_same r = go p stands
    where
      go : (d : Text) → d ≢ [] → is_rooted (d ++ r) ≡ is_rooted d
      go [] h = absurd (h refl)
      go (c ∷ d) h = unfold is_rooted starts_with in refl

  elements_joined : elements (p ++ slash ∷ names_path names) ≡ reverse names ++ elements p
  unfolding elements
  elements_joined =
      rw
        (
          rooted_same (slash ∷ names_path names),
          split-append slash p (names_path names),
          split-join_solid names some_name (plain-IsSolid names plain),
          clean_parts-append,
        )
        (clean_parts_plain (is_rooted p) (clean_parts (is_rooted p) [] (split p slash)) names plain)

  -- Joining a path with plain names adds them to its elements.
  pub elements-join_path : elements (join_path p (names_path names)) ≡ reverse names ++ elements p
  elements-join_path =
      ap elements join_path-clean ∙ (clean_lem (p ++ slash ∷ names_path names)).1 ∙ elements_joined

  pub is_rooted-join_path : is_rooted (join_path p (names_path names)) ≡ is_rooted p
  is_rooted-join_path =
      ap is_rooted join_path-clean
      ∙ (clean_lem (p ++ slash ∷ names_path names)).0
      ∙ rooted_same (slash ∷ names_path names)

-- The case of one name.
module _ (p name : Text) (stands : p ≢ []) (plain : IsPlain name) where
  pub elements-join_path_one : elements (join_path p name) ≡ name ∷ elements p
  unfolding join
  elements-join_path_one = elements-join_path p (name ∷ []) stands (λ h. cc) (plain, tt)

  pub is_rooted-join_path_one : is_rooted (join_path p name) ≡ is_rooted p
  unfolding join
  is_rooted-join_path_one = is_rooted-join_path p (name ∷ []) stands (λ h. cc) (plain, tt)

  pub join_path-ne_nil : join_path p name ≢ []
  join_path-ne_nil e = empty (sym elements-join_path_one ∙ ap elements e ∙ elements_nil)
    where
      empty : {x : Text} {l : List Text} → x ∷ l ≢ []
      empty h = cc
