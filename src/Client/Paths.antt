-- ===== src/Client/Paths.antt =====
-- What the client uses of path/filepath, on a system whose separator is a slash (so that FromSlash
-- is the identity): `Clean`, `Join` of two elements, `Base`, `Dir` and `Rel`.
pub mod Elements
pub mod Join
pub mod Places
use mathlib.Core.List.{reverse}
use wani.Base.{
  ℕ, Bool, true, false, not, ◌||◌, ◌==◌, List, [], ◌∷◌, ◌++◌, map, Option, none, some, Text, codes,
  text_eq, starts_with, split, join, if◌then◌else◌,
}

abbrev pub bool_eq : Bool → Bool → Bool
bool_eq true b = b
bool_eq false b = not b

abbrev pub dot : Text
dot = b'.' ∷ []

abbrev pub dot_dot : Text
dot_dot = b'.' ∷ b'.' ∷ []

-- A step to the parent, over the elements kept so far, the last one first: it drops the last
-- element, stays at the root, and is kept where there is nothing to drop.
unfoldable pub up : Bool → List Text → List Text
up true [] = []
up false [] = dot_dot ∷ []
up rooted (top ∷ rest) = if text_eq top dot_dot then dot_dot ∷ top ∷ rest else rest

unfoldable pub clean_step : Bool → List Text → Text → List Text
unfolding up
clean_step rooted kept part =
    if text_eq part [] || text_eq part dot
    then kept
    else if text_eq part dot_dot
    then up rooted kept
    else part ∷ kept

unfoldable pub clean_parts : Bool → List Text → List Text → List Text
clean_parts rooted kept [] = kept
clean_parts rooted kept (part ∷ parts) = clean_parts rooted (clean_step rooted kept part) parts

unfoldable pub is_rooted : Text → Bool
is_rooted path = starts_with path (b'/' ∷ [])

unfoldable pub show_parts : Bool → List Text → Text
show_parts true kept = b'/' ∷ join (reverse kept) b'/'
show_parts false [] = dot
show_parts false (top ∷ rest) = join (reverse (top ∷ rest)) b'/'

-- The elements that are left of a path, the last one first.
unfoldable pub elements : Text → List Text
unfolding clean_parts is_rooted
elements path = clean_parts (is_rooted path) [] (split path b'/')

unfoldable pub clean : Text → Text
unfolding elements is_rooted show_parts
clean path = show_parts (is_rooted path) (elements path)

-- `filepath.Join(dir, path)`: empty elements are ignored.
unfoldable pub join_path : Text → Text → Text
join_path [] [] = []
join_path [] (c ∷ path) = clean (c ∷ path)
join_path (c ∷ dir) [] = clean (c ∷ dir)
join_path (c ∷ dir) (d ∷ path) = clean ((c ∷ dir) ++ b'/' ∷ (d ∷ path))

-- The name behind the last slash.
unfoldable pub last_name : Text → Text
last_name path = go [] path
  where
    go : Text → Text → Text
    go name [] = name
    go name (c ∷ cs) = elim (c == b'/') [ true ↦ go [] cs | false ↦ go (name ++ c ∷ []) cs ]

trim_slashes : Text → Text
trim_slashes [] = []
trim_slashes (c ∷ cs) = put c (trim_slashes cs)
  where
    put : ℕ → Text → Text
    put c [] = if c == b'/' then [] else c ∷ []
    put c (d ∷ rest) = c ∷ d ∷ rest

-- `filepath.Base`.
unfoldable pub base_name : Text → Text
unfolding last_name trim_slashes
base_name [] = dot
base_name (c ∷ cs) = elim (last_name (trim_slashes (c ∷ cs))) [
  | [] ↦ b'/' ∷ []
  | ◌∷◌ d name ↦ d ∷ name
]

-- The text up to its last slash, the slash included.
unfoldable pub up_to_slash : Text → Text
up_to_slash [] = []
up_to_slash (c ∷ cs) = put c (up_to_slash cs)
  where
    put : ℕ → Text → Text
    put c [] = if c == b'/' then c ∷ [] else []
    put c (d ∷ rest) = c ∷ d ∷ rest

-- `filepath.Dir`.
unfoldable pub dir_path : Text → Text
unfolding up_to_slash
dir_path path = clean (up_to_slash path)

-- What is left of two lists of elements behind their common beginning.
unfoldable pub strip : List Text → List Text → List Text × List Text
strip [] ts = ([], ts)
strip (b ∷ bs) [] = (b ∷ bs, [])
strip (b ∷ bs) (t ∷ ts) = elim (text_eq b t) [ true ↦ strip bs ts | false ↦ (b ∷ bs, t ∷ ts) ]

-- The last part of `Rel`: it cannot climb out of a single step up, and climbs out of any other rest
-- of the base.
unfoldable pub climb : List Text × List Text → Option Text
climb ([], []) = some dot
climb ([], t ∷ ts) = some (join (t ∷ ts) b'/')
climb (b ∷ [], ts) = elim (text_eq b dot_dot) [
  | true ↦ none
  | false ↦ some (join (dot_dot ∷ ts) b'/')
]
climb (b ∷ c ∷ bs, ts) = some (join (map (λ _. dot_dot) (b ∷ c ∷ bs) ++ ts) b'/')

-- `filepath.Rel(base, target)`, which fails where one path is rooted and the other is not; for a
-- target that does not clean to a dot.
unfoldable pub rel : Text → Text → Option Text
unfolding strip climb
rel base target =
    if bool_eq (is_rooted base) (is_rooted target)
    then climb (strip (reverse (elements base)) (reverse (elements target)))
    else none
