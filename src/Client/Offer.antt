-- ===== src/Client/Offer.antt =====
-- internal/client/transfer.go: `SendManifest` and `ReceiveManifest`, the first stream behind the
-- proofs. JSON and the failures of directories are parameters; a stream is what the peer writes to
-- it and which of the calls on it fail.
pub mod Exchange
pub mod Tests
use wani.Base.{
  Bool, List, [], ◌∷◌, ◌++◌, Option, none, some, String, Text, text_eq, Dict, Result, ok, err,
  panic, if◌then◌else◌,
}
use wani.Base.State.{State, return, fail, ◌>>=◌, ◌>>◌}
use wani.Protocol.Message.{Bytes, FileEntry, Manifest, ManifestResponse}
use wani.Client.Paths.{join_path, dir_path}
use wani.Client.Transfer.Receive.{QuicError, Env, load_resume_state}

-- Decoding fails with a text, also where the stream ends too early.
pub record Json : Type 0 where
  pub encode_manifest : Manifest → Bytes
  pub decode_manifest : Bytes → Result String Manifest
  pub encode_response : ManifestResponse → Bytes
  pub decode_response : Bytes → Result String ManifestResponse

pub record Pipe : Type 0 where
  pub open_error : Option QuicError
  pub write_error : Option QuicError
  pub close_error : Option QuicError
  pub arrives : Bytes

pub data OfferError : Type 0 where
  stream_failed : QuicError → OfferError
  encode_failed : QuicError → OfferError
  close_failed : QuicError → OfferError
  decode_failed : String → OfferError
  mkdir_failed : Text → String → OfferError

-- What was written to the stream, and the directories that were made, in their order.
pub record Desk : Type 0 where
  pub written : Bytes
  pub made : List Text

abbrev pub empty_desk : Desk
empty_desk = record { written = []; made = [] }

abbrev pub OfferM : Type 0 → Type 0
OfferM A = State Desk OfferError A

abbrev pub check : (QuicError → OfferError) → Option QuicError → OfferM (Unit {0})
check e none = return tt
check e (some x) = fail (e x)

-- A failed write writes nothing.
abbrev pub put : Option QuicError → Bytes → OfferM (Unit {0})
put none text d = (ok tt, record d { written = d.written ++ text })
put (some x) text d = (err (encode_failed x), d)

abbrev pub decoded : {A : Type 0} → Result String A → OfferM A
decoded (ok a) d = (ok a, d)
decoded (err text) d = (err (decode_failed text), d)
decoded panic d = (panic, d)

-- The directory below which the files go: that of the root, if it has a name.
unfoldable pub effective_dir : Text → Manifest → Text
effective_dir dest manifest =
    if text_eq manifest.root_name [] then dest else join_path dest manifest.root_name

module _ (json : Json) (pipe : Pipe) where
  unfoldable pub send_manifest : Manifest → OfferM ManifestResponse
  send_manifest manifest = do
    check stream_failed pipe.open_error
    put pipe.write_error (json.encode_manifest manifest)
    check close_failed pipe.close_error
    decoded (json.decode_response pipe.arrives)

  module _ (env : Env) (mkdir_error : List Text → Text → Option String) where
    make_dir : Text → OfferM (Unit {0})
    make_dir dir d = elim (mkdir_error d.made dir) [
      | none ↦ (ok tt, record d { made = d.made ++ dir ∷ [] })
      | some text ↦ (err (mkdir_failed dir text), d)
    ]

    -- The loop over the entries, each with the directory that it needs.
    unfoldable pub make_dirs : Text → List FileEntry → OfferM (Unit {0})
    unfolding make_dir
    make_dirs dest [] = return tt
    make_dirs dest (entry ∷ files) =
        make_dir (join_path dest (dir_path entry.path)) >> make_dirs dest files

    -- The manifest, the directory below which its files go, and what was completed before.
    unfoldable pub receive_manifest : Text → Dict Bytes → OfferM (Manifest × Text × List Text)
    unfolding make_dirs
    receive_manifest dest fs = do
      check stream_failed pipe.open_error
      manifest ← decoded (json.decode_manifest pipe.arrives)
      make_dirs (effective_dir dest manifest) manifest.files
      put pipe.write_error (
          json.encode_response (record {
            status = "ready";
            completed = load_resume_state env (effective_dir dest manifest) fs;
          }))
      return (
        manifest,
        effective_dir dest manifest,
        load_resume_state env (effective_dir dest manifest) fs,
      )
