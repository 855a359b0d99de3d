-- ===== src/Client/Manifest.antt =====
-- internal/client/manifest.go: `BuildManifest`. What is on disk at the path that is sent is a tree,
-- with the entries of a directory in the order of `ReadDir`; reading a file is as in the transfer.
-- The hash (github.com/cespare/xxhash) is a parameter.
pub mod Walk
pub mod Names
use wani.Base.{
  Bool, true, false, List, [], ◌∷◌, ◌++◌, Option, none, some, String, Text, Result, ok, err, panic,
  length, ◌>>=◌, ℕ, if◌then◌else◌,
}
use wani.Protocol.Message.{Bytes, FileEntry, Manifest, compression_none}
use wani.Client.Paths.{join_path, base_name, rel}
use wani.Client.Transfer.Receive.{concat}
use wani.Client.Transfer.Send.{SourceFile}

-- What a regular file does: `Info` and `Open` may fail.
pub record DiskFile : Type 0 where
  pub info_error : Option String
  pub open_error : Option String
  pub source : SourceFile

mutual
  -- A symbolic link leads to a node; `other` is an irregular file that can be opened.
  pub data Node : Type 0 where
    file : DiskFile → Node
    dir : Entries → Node
    unreadable : String → Node
    link : Node → Node
    other : DiskFile → Node

  pub data Entries : Type 0 where
    end : Entries
    entry : Text → Node → Entries → Entries

pub data ManifestError : Type 0 where
  stat_failed : String → ManifestError
  walk_failed : String → ManifestError
  no_relative_path : ManifestError
  info_failed : String → ManifestError
  open_failed : String → ManifestError
  hash_failed : String → ManifestError

-- `os.Stat` follows links: whether there is a directory behind them.
abbrev pub is_dir : Node → Bool
is_dir (dir es) = true
is_dir (unreadable text) = true
is_dir (link n) = is_dir n
is_dir (file f) = false
is_dir (other f) = false

module _ (hash : Bytes → ℕ) where
  unfoldable pub hash_file : SourceFile → Text → Result ManifestError FileEntry
  hash_file source rel_path = elim source.failure [
    | some text ↦ err (hash_failed text)
    | none ↦ ok (record {
      path = rel_path;
      size = length (concat source.chunks);
      xx_hash = hash (concat source.chunks);
      compression = compression_none;
    })
  ]

  unfoldable pub file_entry : DiskFile → Text → Result ManifestError FileEntry
  unfolding hash_file
  file_entry f rel_path = elim f.open_error [
    | some text ↦ err (open_failed text)
    | none ↦ hash_file f.source rel_path
  ]

  -- `fileEntry(root, …)` where the root is no directory: opening it follows links.
  unfoldable pub single_entry : Node → Text → Result ManifestError FileEntry
  unfolding file_entry
  single_entry (file f) name = file_entry f name
  single_entry (link n) name = single_entry n name
  single_entry (other f) name = file_entry f name
  single_entry _ name = err (open_failed "is a directory")

  -- The function that is called for each regular file of the walk.
  unfoldable pub visit :
      Text → Text → DiskFile → List FileEntry → Result ManifestError (List FileEntry)
  unfolding file_entry
  visit root path f entries = elim (rel root path) [
    | none ↦ err no_relative_path
    | some rel_path ↦ elim f.info_error [
      | some text ↦ err (info_failed text)
      | none ↦ file_entry f rel_path >>= λ e. ok (entries ++ e ∷ [])
    ]
  ]

  -- `filepath.WalkDir`, which does not follow links; the entries found so far are passed along.
  unfoldable mutual
    unfolding visit

    pub walk : Text → Text → Node → List FileEntry → Result ManifestError (List FileEntry)
    walk root path (file f) entries = visit root path f entries
    walk root path (dir es) entries = walk_entries root path es entries
    walk root path (unreadable text) entries = err (walk_failed text)
    walk root path (link n) entries = ok entries
    walk root path (other f) entries = ok entries

    pub walk_entries :
        Text → Text → Entries → List FileEntry → Result ManifestError (List FileEntry)
    walk_entries root path end entries = ok entries
    walk_entries root path (entry name n es) entries =
        walk root (join_path path name) n entries >>= λ more. walk_entries root path es more

  -- `none` is a path where nothing is, with the text of the error of `Stat`.
  unfoldable pub build_manifest : Text → Result String Node → Result ManifestError Manifest
  unfolding walk single_entry
  build_manifest root (err text) = err (stat_failed text)
  build_manifest root panic = panic
  build_manifest root (ok n) =
      if is_dir n
      then (walk root root n [] >>= λ entries.
          ok (record { files = entries; root_name = base_name root }))
      else (single_entry n (base_name root) >>= λ e. ok (record { files = e ∷ []; root_name = [] }))
