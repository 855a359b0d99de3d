-- ===== src/Client/Manifest/Walk.antt =====
-- internal/client/manifest.go: what `BuildManifest` lists.
use mathlib.Core.List.{reverse, reverse-append, reverse-reverse, map-append}
use wani.Base.{
  ℕ, ◌≡◌, refl, sym, ap, ◌∙◌, ◌≢◌, Bool, true, false, List, [], ◌∷◌, ◌++◌, append_assoc, append-nil,
  map, none, some, Text, ok, length, text_eq_self, ◌>>=◌, arith,
}
use wani.Protocol.Message.{Bytes, FileEntry, compression_none}
use wani.Client.Paths.{join_path, base_name, bool_eq, rel, strip, climb, is_rooted, elements}
use wani.Client.Paths.Elements.{IsPlain}
use wani.Client.Paths.Join.{
  names_path, elements-join_path_one, is_rooted-join_path_one, join_path-ne_nil,
}
use wani.Client.Transfer.Receive.{concat}
use wani.Client.Manifest.{
  DiskFile, Node, Entries, file, dir, unreadable, link, other, end, entry, hash_file, file_entry,
  visit, walk, walk_entries, build_manifest,
}

-- The regular files of a tree, each with the names that lead to it; links are not followed.
unfoldable mutual
  pub files_of : List Text → Node → List (List Text × DiskFile)
  files_of at (file f) = (at, f) ∷ []
  files_of at (dir es) = files_in at es
  files_of at _ = []

  pub files_in : List Text → Entries → List (List Text × DiskFile)
  files_in at end = []
  files_in at (entry name n es) = files_of (at ++ name ∷ []) n ++ files_in at es

-- Nothing fails in a tree, and the names in its directories are plain.
abbrev pub IsGoodFile : DiskFile → Type 0
IsGoodFile f = (f.info_error ≡ none) × (f.open_error ≡ none) × (f.source.failure ≡ none)

unfoldable mutual
  pub IsGood : Node → Type 0
  IsGood (file f) = IsGoodFile f
  IsGood (dir es) = AreGood es
  IsGood (unreadable text) = ⊥
  IsGood (link n) = Unit {0}
  IsGood (other f) = Unit {0}

  pub AreGood : Entries → Type 0
  AreGood end = Unit {0}
  AreGood (entry name n es) = IsPlain name × IsGood n × AreGood es

module _ (hash : Bytes → ℕ) where
  abbrev pub entry_of : List Text × DiskFile → FileEntry
  entry_of (at, f) = record {
    path = names_path at;
    size = length (concat f.source.chunks);
    xx_hash = hash (concat f.source.chunks);
    compression = compression_none;
  }

bool_eq_self : (b : Bool) → bool_eq b b ≡ true
bool_eq_self true = refl
bool_eq_self false = refl

strip_common : (bs ts : List Text) → strip bs (bs ++ ts) ≡ ([], ts)
unfolding strip
strip_common [] ts = refl
strip_common (b ∷ bs) ts = ground (arith, text_eq_self b, strip_common bs ts)

-- A path that lies below the root, at these names.
pub record IsBelow (root : Text) (at : List Text) (path : Text) : Type 0 where
  pub stands : path ≢ []
  pub elements_at : elements path ≡ reverse at ++ elements root
  pub rooted_at : is_rooted path ≡ is_rooted root

rel-IsBelow :
    (root path : Text) (at : List Text)
    → at ≢ []
    → IsBelow root at path
    → rel root path ≡ some (names_path at)
unfolding rel
rel-IsBelow root path [] ne b = absurd (ne refl)
rel-IsBelow root path (n ∷ at) ne b =
    let parts : reverse (elements path) ≡ reverse (elements root) ++ (n ∷ at) =
      ap reverse b.elements_at
      ∙ reverse-append (reverse (n ∷ at)) (elements root)
      ∙ ap (λ l. reverse (elements root) ++ l) (reverse-reverse (n ∷ at)) in
    let stripped : strip (reverse (elements root)) (reverse (elements path)) ≡ ([], n ∷ at) =
      ap (strip (reverse (elements root))) parts
      ∙ strip_common (reverse (elements root)) (n ∷ at) in
    rw (b.rooted_at, bool_eq_self (is_rooted root)) (unfold climb in ap climb stripped)

join_path-IsBelow :
    (root path name : Text) (at : List Text)
    → IsPlain name
    → IsBelow root at path
    → IsBelow root (at ++ name ∷ []) (join_path path name)
join_path-IsBelow root path name at plain b = record {
  stands = join_path-ne_nil path name b.stands plain;
  elements_at =
      elements-join_path_one path name b.stands plain
      ∙ ap (λ l. name ∷ l) b.elements_at
      ∙ ap (λ l. l ++ elements root) (sym (reverse-append at (name ∷ [])));
  rooted_at = is_rooted-join_path_one path name b.stands plain ∙ b.rooted_at;
}

pub ne_nil : (x : Text) (l : List Text) → l ++ x ∷ [] ≢ []
ne_nil x [] = λ e. cc
ne_nil x (y ∷ l) = λ e. cc

module _ (hash : Bytes → ℕ) (root : Text) where
  visit-ok :
      (path : Text) (at : List Text) (f : DiskFile) (entries : List FileEntry)
      → at ≢ []
      → IsBelow root at path
      → IsGoodFile f
      → visit hash root path f entries ≡ ok (entries ++ entry_of hash (at, f) ∷ [])
  unfolding visit file_entry hash_file
  visit-ok path at f entries ne b good =
      ground (arith, rel-IsBelow root path at ne b, good.0, good.1, good.2)

  mutual
    unfolding walk files_of IsGood

    walk-ok :
        (path : Text) (at : List Text) (n : Node) (entries : List FileEntry)
        → at ≢ []
        → IsBelow root at path
        → IsGood n
        → walk hash root path n entries ≡ ok (entries ++ map (entry_of hash) (files_of at n))
    walk-ok path at (file f) entries ne b good = visit-ok path at f entries ne b good
    walk-ok path at (dir es) entries ne b good = walk_entries-ok path at es entries b good
    walk-ok path at (unreadable text) entries ne b good = absurd good
    walk-ok path at (link n) entries ne b good = rw append-nil refl
    walk-ok path at (other f) entries ne b good = rw append-nil refl

    walk_entries-ok :
        (path : Text) (at : List Text) (es : Entries) (entries : List FileEntry)
        → IsBelow root at path
        → AreGood es
        → walk_entries hash root path es entries
          ≡ ok (entries ++ map (entry_of hash) (files_in at es))
    walk_entries-ok path at end entries b good = rw append-nil refl
    walk_entries-ok path at (entry name n es) entries b good =
        let found = map (entry_of hash) (files_of (at ++ name ∷ []) n) in
        ap (λ r. r >>= λ more. walk_entries hash root path es more)
          (walk-ok (join_path path name) (at ++ name ∷ []) n entries (ne_nil name at)
            (join_path-IsBelow root path name at good.0 b) good.1)
        ∙ walk_entries-ok path at es (entries ++ found) b good.2
        ∙ ap ok (
            append_assoc entries found (map (entry_of hash) (files_in at es))
            ∙ ap (λ l. entries ++ l)
                (sym (map-append (entry_of hash) (files_of (at ++ name ∷ []) n) (files_in at es))))

  -- Of a directory in which nothing fails and whose names are plain, `BuildManifest` lists exactly
  -- the regular files, in the order of the walk, each with the names that lead to it below the
  -- directory, joined by slashes, its size, and its digest; links and irregular files are left out.
  pub build_manifest_lem :
      (es : Entries)
      → root ≢ []
      → AreGood es
      → build_manifest hash root (ok (dir es))
        ≡ ok (record { files = map (entry_of hash) (files_in [] es); root_name = base_name root })
  unfolding build_manifest walk
  build_manifest_lem es stands good =
      ap (λ r. r >>= λ entries. ok (record { files = entries; root_name = base_name root }))
        (walk_entries-ok root [] es []
          (record { stands = stands; elements_at = refl; rooted_at = refl }) good)
