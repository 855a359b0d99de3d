-- ===== src/Client/Manifest/Names.antt =====
-- internal/client/manifest.go: the names that lead to the files of a tree.
use wani.Base.{
  ◌≡◌, sym, ◌∙◌, ◌≢◌, List, [], ◌∷◌, ◌++◌, append_assoc, append-nil, Text, All, All-append, All-map,
}
use mathlib.Core.List.{append_cancel_left}
use wani.Client.Paths.Elements.{IsPlain}
use wani.Client.Manifest.{DiskFile, Node, Entries, file, dir, unreadable, link, other, end, entry}
use wani.Client.Manifest.Walk.{files_of, files_in, IsGoodFile, IsGood, AreGood, ne_nil}

-- No entry has this name.
abbrev pub Fresh : Text → Entries → Type 0
Fresh name end = Unit {0}
Fresh name (entry m n es) = (m ≢ name) × Fresh name es

-- No directory of a tree has two entries of one name.
unfoldable mutual
  pub IsUnique : Node → Type 0
  IsUnique (dir es) = AreUnique es
  IsUnique _ = Unit {0}

  pub AreUnique : Entries → Type 0
  AreUnique end = Unit {0}
  AreUnique (entry name n es) = Fresh name es × IsUnique n × AreUnique es

abbrev pub Listed : Type 0
Listed = List Text × DiskFile

-- No two files are reached by the same names.
abbrev pub Apart : List Listed → Type 0
Apart [] = Unit {0}
Apart (x ∷ xs) = All (λ y. y.0 ≢ x.0) xs × Apart xs

Apart-append :
    (xs ys : List Listed)
    → Apart xs
    → Apart ys
    → All (λ x. All (λ y. y.0 ≢ x.0) ys) xs
    → Apart (xs ++ ys)
Apart-append [] ys hx hy h = hy
Apart-append (x ∷ xs) ys hx hy h = (All-append _ xs ys hx.0 h.0, Apart-append xs ys hx.1 hy h.1)

abbrev IsUnder : List Text → Listed → Type 0
IsUnder at y = (rest : List Text) × (y.0 ≡ at ++ rest)

IsUnder-name :
    (at : List Text) (name : Text) (y : Listed) → IsUnder (at ++ name ∷ []) y → IsUnder at y
IsUnder-name at name y (rest, e) = (name ∷ rest, e ∙ append_assoc at (name ∷ []) rest)

mutual
  unfolding files_of

  files_of-IsUnder : (at : List Text) (n : Node) → All (IsUnder at) (files_of at n)
  files_of-IsUnder at (file f) = (([], sym (append-nil at)), tt)
  files_of-IsUnder at (dir es) = files_in-IsUnder at es
  files_of-IsUnder at (unreadable text) = tt
  files_of-IsUnder at (link n) = tt
  files_of-IsUnder at (other f) = tt

  files_in-IsUnder : (at : List Text) (es : Entries) → All (IsUnder at) (files_in at es)
  files_in-IsUnder at end = tt
  files_in-IsUnder at (entry name n es) =
      All-append _ (files_of (at ++ name ∷ []) n) (files_in at es)
        (All-map (λ y u. IsUnder-name at name y u) (files_of (at ++ name ∷ []) n)
          (files_of-IsUnder (at ++ name ∷ []) n))
        (files_in-IsUnder at es)

-- A file in a directory is reached by another name than one that the directory does not have.
files_in-other :
    (at : List Text) (name : Text) (es : Entries)
    → Fresh name es
    → All
        (λ y. (m : Text) × (rest : List Text) × (y.0 ≡ at ++ m ∷ rest) × (m ≢ name))
        (files_in at es)
unfolding files_of
files_in-other at name end h = tt
files_in-other at name (entry m n es) h =
    All-append _ (files_of (at ++ m ∷ []) n) (files_in at es)
      (All-map (λ y u. (m, u.0, u.1 ∙ append_assoc at (m ∷ []) u.0, h.0))
        (files_of (at ++ m ∷ []) n) (files_of-IsUnder (at ++ m ∷ []) n))
      (files_in-other at name es h.1)

names_apart :
    (at : List Text) (name m : Text) (rest rest' : List Text) (ns ms : List Text)
    → ns ≡ (at ++ name ∷ []) ++ rest
    → ms ≡ at ++ m ∷ rest'
    → m ≢ name
    → ms ≢ ns
names_apart at name m rest rest' ns ms hn hm ne same = ne (
    head (
      append_cancel_left at (m ∷ rest') (name ∷ rest)
        (sym hm ∙ same ∙ hn ∙ append_assoc at (name ∷ []) rest)))
  where
    head : {a b : Text} {as' bs : List Text} → a ∷ as' ≡ b ∷ bs → a ≡ b
    head h = cc

mutual
  unfolding files_of IsUnique

  files_of-Apart : (at : List Text) (n : Node) → IsUnique n → Apart (files_of at n)
  files_of-Apart at (file f) u = (tt, tt)
  files_of-Apart at (dir es) u = files_in-Apart at es u
  files_of-Apart at (unreadable text) u = tt
  files_of-Apart at (link n) u = tt
  files_of-Apart at (other f) u = tt

  pub files_in-Apart : (at : List Text) (es : Entries) → AreUnique es → Apart (files_in at es)
  files_in-Apart at end u = tt
  files_in-Apart at (entry name n es) u =
      Apart-append (files_of (at ++ name ∷ []) n) (files_in at es)
        (files_of-Apart (at ++ name ∷ []) n u.1) (files_in-Apart at es u.2)
        (All-map
          (λ x under.
            All-map (λ y o. names_apart at name o.0 under.0 o.1 x.0 y.0 under.1 o.2 o.3)
              (files_in at es) (files_in-other at name es u.0))
          (files_of (at ++ name ∷ []) n) (files_of-IsUnder (at ++ name ∷ []) n))

-- The names that lead to a file are plain, and there are some; reading it does not fail.
abbrev pub IsNamed : Listed → Type 0
IsNamed y = (y.0 ≢ []) × All IsPlain y.0 × IsGoodFile y.1

mutual
  unfolding files_of IsGood

  files_of-IsNamed :
      (at : List Text) (n : Node)
      → at ≢ []
      → All IsPlain at
      → IsGood n
      → All IsNamed (files_of at n)
  files_of-IsNamed at (file f) ne plain g = ((ne, plain, g), tt)
  files_of-IsNamed at (dir es) ne plain g = files_in-IsNamed at es plain g
  files_of-IsNamed at (unreadable text) ne plain g = tt
  files_of-IsNamed at (link n) ne plain g = tt
  files_of-IsNamed at (other f) ne plain g = tt

  pub files_in-IsNamed :
      (at : List Text) (es : Entries) → All IsPlain at → AreGood es → All IsNamed (files_in at es)
  files_in-IsNamed at end plain g = tt
  files_in-IsNamed at (entry name n es) plain g =
      All-append _ (files_of (at ++ name ∷ []) n) (files_in at es)
        (files_of-IsNamed (at ++ name ∷ []) n (ne_nil name at)
          (All-append _ at (name ∷ []) plain (g.0, tt)) g.1)
        (files_in-IsNamed at es plain g.2)
