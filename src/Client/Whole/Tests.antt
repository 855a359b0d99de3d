-- ===== src/Client/Whole/Tests.antt =====
-- Tests of the walk over a directory, and the theorems at concrete inputs.
use wani.Base.{
  ℕ, ◌≡◌, refl, ◌≢◌, false, List, [], ◌∷◌, none, some, Text, codes, text_eq, text_eq_iff,
  starts_with, split, join, ok, All, lookup, if◌then◌else◌, map, arith,
}
use wani.Protocol.Message.{Bytes, Manifest, compression_none}
use wani.Client.Paths.{
  join_path, clean, elements, clean_parts, clean_step, up, is_rooted, show_parts, rel, strip, climb,
  base_name, dir_path,
}
use wani.Client.Paths.Elements.{IsPlain}
use wani.Client.Paths.Join.{names_path}
use wani.Client.Manifest.{
  DiskFile, Entries, file, dir, link, end, entry, build_manifest, walk, visit, file_entry,
  hash_file,
}
use wani.Client.Manifest.Walk.{files_in, files_of, AreGood, IsGood, entry_of, build_manifest_lem}
use wani.Client.Manifest.Names.{AreUnique, IsUnique, Listed}
use wani.Client.Transfer.Receive.{Env, Receiver, application, concat, receive_files}
use wani.Client.Transfer.Send.{SourceEnv, Sender, send_files}
use wani.Client.Transfer.Delivery.{fresh_sender, fresh_receiver}
use wani.Client.Whole.{IsFound, directory_lem, resume_name}

abbrev on_disk : ℕ → DiskFile
on_disk c = record {
  info_error = none;
  open_error = none;
  source = record { chunks = (c ∷ []) ∷ []; failure = none };
}

-- A file, a directory with a file, and a link.
abbrev pub photos : Entries
photos = entry (codes "abc") (file (on_disk 1)) (
    entry (codes "dir") (dir (entry (codes "abc") (file (on_disk 2)) end))
      (entry (codes "link") (link (dir end)) end))

abbrev pub first_byte : Bytes → ℕ
first_byte b = elim b [ [] ↦ 0 | ◌∷◌ c _ ↦ c ]

abbrev pub listing : Manifest
listing = record {
  files =
      record { path = codes "abc"; size = 1; xx_hash = 1; compression = compression_none }
      ∷ record { path = codes "dir/abc"; size = 1; xx_hash = 2; compression = compression_none }
      ∷ [];
  root_name = codes "r";
}

pub walk_test : build_manifest first_byte (codes "d/r") (ok (dir photos)) ≡ ok listing
unfolding build_manifest walk visit file_entry hash_file rel strip climb base_name join_path clean
    elements clean_parts clean_step up is_rooted show_parts text_eq starts_with split join
walk_test = refl

-- A link to a directory is walked as a link: nothing is listed.
link_test :
    build_manifest first_byte (codes "d/r") (ok (link (dir photos)))
    ≡ ok (record { files = []; root_name = codes "r" })
unfolding build_manifest walk base_name
link_test = refl

dir_test : dir_path (codes "dir/abc") ≡ codes "dir"
unfolding dir_path clean elements clean_parts clean_step is_rooted show_parts text_eq starts_with
    split join
dir_test = refl

base_tests : (base_name (codes "..") ≡ codes "..") × (base_name (codes "d/r/") ≡ codes "r")
unfolding base_name
base_tests = (refl, refl)

pub abc-IsPlain : IsPlain (codes "abc")
abc-IsPlain = record {
  full = λ h. cc;
  no_dot = λ h. cc;
  no_dot_dot = λ h. cc;
  no_slash = omega arith;
}

dir-IsPlain : IsPlain (codes "dir")
dir-IsPlain = record {
  full = λ h. cc;
  no_dot = λ h. cc;
  no_dot_dot = λ h. cc;
  no_slash = omega arith;
}

link-IsPlain : IsPlain (codes "link")
link-IsPlain = record {
  full = λ h. cc;
  no_dot = λ h. cc;
  no_dot_dot = λ h. cc;
  no_slash = omega arith;
}

pub photos-AreGood : AreGood photos
unfolding IsGood
photos-AreGood = (
  abc-IsPlain,
  (refl, refl, refl),
  (dir-IsPlain, (abc-IsPlain, (refl, refl, refl), tt), (link-IsPlain, tt, tt)),
)

ne : (s t : Text) → text_eq s t ≡ false → s ≢ t
ne s t h e = ground (arith, h, e, text_eq_iff s t)

pub photos-AreUnique : AreUnique photos
unfolding IsUnique text_eq
photos-AreUnique = (
  (ne (codes "dir") (codes "abc") refl, (ne (codes "link") (codes "abc") refl, tt)),
  tt,
  ((ne (codes "link") (codes "dir") refl, tt), (tt, tt, tt), (tt, tt, tt)),
)

abbrev pub toy : Env
toy = record {
  hash = first_byte;
  marshal = λ completed. [];
  unmarshal = λ b. none;
  create_error = λ fs p. none;
  save_error = λ fs p. none;
  closed = application 0;
  error_text = λ e. [];
}

abbrev pub disk : SourceEnv
disk = record {
  is_file = λ p. false;
  open_source = λ p. ok ((if text_eq p (codes "d/r/abc") then on_disk 1 else on_disk 2).source);
  closed = application 0;
}

pub photos-IsFound : All (IsFound disk first_byte (codes "d/r")) (files_in [] photos)
unfolding files_of join_path clean elements clean_parts clean_step up is_rooted show_parts text_eq
    starts_with split join
photos-IsFound = (refl, (refl, tt))

build_manifest_lem_example :
    build_manifest first_byte (codes "d/r") (ok (dir photos))
    ≡ ok (record {
      files = map (entry_of first_byte) (files_in [] photos);
      root_name = base_name (codes "d/r");
    })
build_manifest_lem_example =
    build_manifest_lem first_byte (codes "d/r") photos (λ h. cc) photos-AreGood

pub no_resume : All (λ (y : Listed). y.0 ≢ resume_name ∷ []) (files_in [] photos)
unfolding files_of
no_resume = ((λ h. ne (codes "abc") resume_name (unfold text_eq in refl) (head h)), ((λ h. cc), tt))
  where
    head : {a b : Text} {l m : List Text} → a ∷ l ≡ b ∷ m → a ≡ b
    head h = cc

directory_lem_example :
    (manifest : Manifest) × (streams : List (List Bytes)) × (acks : List Text) × (s : Sender)
    × (r : Receiver) × (build_manifest first_byte (codes "d/r") (ok (dir photos)) ≡ ok manifest)
    × (send_files disk manifest
          (record { status = "ready"; completed = [] })
          (codes "d/r")
          (fresh_sender acks)
        ≡ (ok tt, s))
    × (receive_files toy manifest [] (codes "out") (fresh_receiver [] streams) ≡ (ok tt, r))
    × (s.opened ≡ streams)
    × (r.acks ≡ acks)
    × All
        (λ y.
          lookup (join_path (codes "out") (names_path y.0)) r.fs ≡ some (concat y.1.source.chunks))
        (files_in [] photos)
directory_lem_example =
    directory_lem disk toy (codes "d/r") (codes "out") photos [] (λ h. cc) (λ h. cc) photos-AreGood
      photos-AreUnique no_resume refl photos-IsFound (λ fs p. refl)
