-- ===== src/Client/Offer/Exchange.antt =====
-- internal/client/transfer.go: what the two sides agree on before the files, and the place of the
-- resume state below a directory.
use wani.Base.{
  ◌≡◌, refl, sym, ap, ◌∙◌, ◌≢◌, List, [], ◌∷◌, ◌++◌, append_assoc, append-nil, map, Option, none,
  String, Text, text_eq-ne, Dict, ok, length, arith,
}
use wani.Protocol.Message.{Bytes, FileEntry, Manifest, ManifestResponse}
use wani.Client.Paths.{join_path, dir_path, elements}
use wani.Client.Paths.Elements.{IsPlain}
use wani.Client.Paths.Join.{elements-join_path_one, join_path-ne_nil}
use wani.Client.Transfer.Receive.{Env, load_resume_state, resume_state_path}
use wani.Client.Offer.{
  empty_desk, Json, Pipe, Desk, effective_dir, send_manifest, make_dir, make_dirs, receive_manifest,
}
use wani.Client.Whole.{resume_name, resume_name-IsPlain}

-- A stream on which nothing fails.
abbrev pub pipe_with : Bytes → Pipe
pipe_with text = record {
  open_error = none;
  write_error = none;
  close_error = none;
  arrives = text;
}

pub effective_dir-named :
    (dest root : Text) (manifest : Manifest)
    → root ≢ []
    → manifest.root_name ≡ root
    → effective_dir dest manifest ≡ join_path dest root
unfolding effective_dir
effective_dir-named dest root manifest full named = rw (named, text_eq-ne root [] full) refl

module _ (json : Json) (env : Env) (mkdir_error : List Text → Text → Option String) where
  make_dir-ok :
      (pipe : Pipe) (dir : Text) (d : Desk)
      → mkdir_error d.made dir ≡ none
      → make_dir json pipe env mkdir_error dir d ≡ (ok tt, record d { made = d.made ++ dir ∷ [] })
  unfolding make_dir
  make_dir-ok pipe dir d h = rw (h, make_dir)

  make_dirs-ok :
      (pipe : Pipe) (dest : Text) (files : List FileEntry) (d : Desk)
      → ((made : List Text) (dir : Text) → mkdir_error made dir ≡ none)
      → make_dirs json pipe env mkdir_error dest files d
        ≡ (ok tt, record d { made = d.made ++ map (λ e. join_path dest (dir_path e.path)) files })
  unfolding make_dirs
  make_dirs-ok pipe dest [] d makes = rw append-nil refl
  make_dirs-ok pipe dest (e ∷ files) d makes =
      let dir = join_path dest (dir_path e.path) in
      rw
        (
          make_dir-ok pipe dir d (makes d.made dir),
          make_dirs-ok pipe dest files (record d { made = d.made ++ dir ∷ [] }) makes,
          append_assoc,
        )
        refl

  -- On a stream without failures, the sender and the receiver, each sent what the other writes,
  -- agree on the manifest and on the files that are completed already: those of the resume state in
  -- the directory below which the files will go, which the receiver reports as ready. It has made
  -- the directory of every file. Directories can be made, and JSON gives back what was encoded.
  pub offer_agreement :
      (dest : Text) (fs : Dict Bytes) (manifest : Manifest)
      → ((made : List Text) (dir : Text) → mkdir_error made dir ≡ none)
      → json.decode_manifest (json.encode_manifest manifest) ≡ ok manifest
      → ((completed : List Text)
          → let r : ManifestResponse = record { status = "ready"; completed = completed } in
            json.decode_response (json.encode_response r) ≡ ok r)
      → let dir = effective_dir dest manifest in
        let completed = load_resume_state env dir fs in
        (offer : Bytes) × (answer : Bytes) × (send_manifest json
            (pipe_with answer)
            manifest
            empty_desk
          ≡ (
            ok (record { status = "ready"; completed = completed }),
            record { written = offer; made = [] },
          ))
        × (receive_manifest json (pipe_with offer) env mkdir_error dest fs empty_desk ≡ (
          ok (manifest, dir, completed),
          record {
            written = answer;
            made = map (λ e. join_path dir (dir_path e.path)) manifest.files;
          },
        ))
  unfolding send_manifest receive_manifest
  offer_agreement dest fs manifest makes jm jr =
      let dir = effective_dir dest manifest in
      let resp : ManifestResponse = record {
        status = "ready";
        completed = load_resume_state env dir fs;
      } in
      (
        json.encode_manifest manifest,
        json.encode_response resp,
        rw (jr (load_resume_state env dir fs)) refl,
        rw
            (
              jm,
              make_dirs-ok (pipe_with (json.encode_manifest manifest)) dir manifest.files empty_desk
                  makes,
            )
            refl,
      )

-- The resume state of a run is kept below the directory of the root; a run that is given that
-- directory as its destination looks one directory further down.
module _ (env : Env) (dest root : Text) (stands : dest ≢ []) (plain : IsPlain root) where
  abbrev pub below : Text
  below = join_path dest root

  stands_below : below ≢ []
  stands_below = join_path-ne_nil dest root stands plain

  resume_elements : (p : Text) → p ≢ [] → elements (resume_state_path p) ≡ resume_name ∷ elements p
  unfolding resume_state_path
  resume_elements p ne = elements-join_path_one p resume_name ne resume_name-IsPlain

  pub deeper : resume_state_path (join_path below root) ≢ resume_state_path below
  deeper same = omega (
    arith,
    ap length (
        sym
          (resume_elements (join_path below root) (join_path-ne_nil below root stands_below plain))
        ∙ ap elements same
        ∙ resume_elements below stands_below),
    ap length (elements-join_path_one below root stands_below plain),
  )
