-- ===== src/Client/Offer/Tests.antt =====
-- Tests of the manifest exchange with a toy form of its messages, and the theorems at concrete
-- inputs.
use wani.Base.{
  ◌≡◌, refl, List, [], ◌∷◌, map, none, some, ap, codes, text_eq, starts_with, split, join, ok, err,
  Text, Result, String, arith,
}
use wani.Protocol.Message.{Bytes, FileEntry, Manifest, ManifestResponse, compression_none}
use wani.Client.Paths.{
  join_path, dir_path, clean, elements, clean_parts, clean_step, up, is_rooted, show_parts,
}
use wani.Client.Paths.Elements.{IsPlain}
use wani.Client.Transfer.Receive.{load_resume_state}
use wani.Client.Tests.{toy, encode, decode, decode-encode, text_body, decode_byte}
use wani.Client.Offer.{
  empty_desk, Json, mkdir_failed, effective_dir, send_manifest, receive_manifest, make_dirs,
}
use wani.Client.Offer.Exchange.{pipe_with, offer_agreement}

abbrev pub entry_at : Text → FileEntry
entry_at path = record { path = path; size = 0; xx_hash = 0; compression = compression_none }

cells : List FileEntry → List Text
cells [] = []
cells (e ∷ es) = e.path ∷ (e.size ∷ []) ∷ (e.xx_hash ∷ []) ∷ cells es

entries_of : List Text → List FileEntry
entries_of (path ∷ (size ∷ []) ∷ (digest ∷ []) ∷ rest) =
    record { path = path; size = size; xx_hash = digest; compression = compression_none }
    ∷ entries_of rest
entries_of _ = []

of_texts : List Text → Result String Manifest
unfolding entries_of
of_texts [] = err "unexpected end of JSON input"
of_texts (name ∷ rest) = ok (record { files = entries_of rest; root_name = name })

-- The root name and three texts for each file, and the completed paths.
unfoldable pub toy_json : Json
unfolding of_texts cells
toy_json = record {
  encode_manifest = λ m. encode (m.root_name ∷ cells m.files);
  decode_manifest = λ b. of_texts (decode b).1;
  encode_response = λ r. encode r.completed;
  decode_response = λ b. ok (record { status = "ready"; completed = (decode b).1 });
}

pub toy_json-response :
    (completed : List Text)
    → let r : ManifestResponse = record { status = "ready"; completed = completed } in
      toy_json.decode_response (toy_json.encode_response r) ≡ ok r
unfolding toy_json
toy_json-response completed =
    ap (λ d. ok (record { status = "ready"; completed = d.1 })) (decode-encode completed)

abbrev pub offered : Manifest
offered = record {
  files = entry_at (codes "dir/a") ∷ entry_at (codes "bc") ∷ [];
  root_name = codes "pics";
}

offered-roundtrip : toy_json.decode_manifest (toy_json.encode_manifest offered) ≡ ok offered
unfolding toy_json decode encode decode_byte text_body
offered-roundtrip = refl

offer_agreement_example :
    let dir = effective_dir (codes "d") offered in
    let completed = load_resume_state toy dir [] in
    (offer : Bytes) × (answer : Bytes) × (send_manifest toy_json
        (pipe_with answer)
        offered
        empty_desk
      ≡ (
        ok (record { status = "ready"; completed = completed }),
        record { written = offer; made = [] },
      ))
    × (receive_manifest toy_json (pipe_with offer) toy (λ made p. none) (codes "d") [] empty_desk
        ≡ (
          ok (offered, dir, completed),
          record {
            written = answer;
            made = map (λ e. join_path dir (dir_path e.path)) offered.files;
          },
        ))
offer_agreement_example =
    offer_agreement toy_json toy (λ made p. none) (codes "d") [] offered (λ made p. refl)
      offered-roundtrip toy_json-response

pub pics-IsPlain : IsPlain (codes "pics")
pics-IsPlain = record {
  full = λ h. cc;
  no_dot = λ h. cc;
  no_dot_dot = λ h. cc;
  no_slash = omega arith;
}

dirs_test :
    (effective_dir (codes "d") offered ≡ codes "d/pics")
    × (join_path (codes "d/pics") (dir_path (codes "dir/a")) ≡ codes "d/pics/dir")
unfolding effective_dir dir_path join_path clean elements clean_parts clean_step up is_rooted
    show_parts text_eq starts_with split join
dirs_test = (refl, refl)

-- A root that is named ".." leads out of the destination.
escape_test : effective_dir (codes "d") (record offered { root_name = codes ".." }) ≡ codes "."
unfolding effective_dir join_path clean elements clean_parts clean_step up is_rooted show_parts
    text_eq starts_with split join
escape_test = refl

-- A directory that cannot be made ends the exchange: no answer is written.
mkdir_test :
    receive_manifest toy_json
      (pipe_with (toy_json.encode_manifest offered))
      toy
      (λ made p. some "denied")
      (codes "d")
      []
      empty_desk
    ≡ (
      err (
          mkdir_failed
            (join_path (effective_dir (codes "d") offered) (dir_path (codes "dir/a")))
            "denied"),
      empty_desk,
    )
unfolding receive_manifest make_dirs toy_json decode encode decode_byte text_body
mkdir_test = refl
