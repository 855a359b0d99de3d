-- ===== src/Client/Whole.antt =====
-- internal/client: a directory from the walk of `BuildManifest` to the disk of the receiver.
pub mod Tests
use wani.Base.{
  ℕ, ◌≡◌, refl, sym, ap, subst, ◌∙◌, ◌≢◌, ◌⊎◌, inl, inr, Bool, true, false, List, [], ◌∷◌, ◌++◌,
  map, Option, none, some, String, Text, codes, Dict, lookup, Result, ok, err, panic, All, All-map,
  All-zip, arith, join,
}
use wani.Protocol.Message.{Bytes, FileEntry, Manifest, ManifestResponse}
use wani.Client.Paths.{base_name, join_path}
use wani.Client.Paths.Elements.{IsPlain}
use wani.Client.Paths.Join.{names_path}
use wani.Client.Paths.Places.{join_path-injective}
use wani.Client.Manifest.{Entries, dir, build_manifest}
use wani.Client.Manifest.Walk.{files_in, AreGood, entry_of, build_manifest_lem}
use wani.Client.Manifest.Names.{AreUnique, Listed, Apart, IsNamed, files_in-Apart, files_in-IsNamed}
use wani.Client.Transfer.Receive.{Env, Receiver, concat, skips, resume_state_path, receive_files}
use wani.Client.Transfer.Send.{SourceEnv, SourceFile, Sender, mark_all, full_path, send_files}
use wani.Client.Transfer.Streams.{IsReadable, IsDelivered}
use wani.Client.Transfer.Verified.{Separate, target, resume_path}
use wani.Client.Transfer.Delivery.{fresh_sender, fresh_receiver, transfer_lem}

abbrev pub resume_name : Text
resume_name = codes ".wani-resume.json"

pub resume_name-IsPlain : IsPlain resume_name
resume_name-IsPlain = record {
  full = λ h. cc;
  no_dot = λ h. cc;
  no_dot_dot = λ h. cc;
  no_slash = omega arith;
}

module _ (env : Env) (dest : Text) (stands : dest ≢ []) where
  resume_path-ne :
      (names : List Text)
      → names ≢ []
      → All IsPlain names
      → names ≢ resume_name ∷ []
      → resume_path env dest ≢ join_path dest (names_path names)
  unfolding resume_state_path join
  resume_path-ne names ne plain other same = other (
      sym (
        join_path-injective dest (resume_name ∷ []) names stands (λ h. cc) ne
          (resume_name-IsPlain, tt) plain same))

  others-apart :
      (x : Listed) (ys : List Listed)
      → IsNamed x
      → All IsNamed ys
      → All (λ y. y.0 ≢ x.0) ys
      → All (λ f. target env dest f ≢ join_path dest (names_path x.0)) (map (entry_of env.hash) ys)
  others-apart x [] hx hys apart = tt
  others-apart x (y ∷ ys) hx hys apart = (
    λ same. apart.0 (join_path-injective dest y.0 x.0 stands hys.0.0 hx.0 hys.0.1 hx.1 same),
    others-apart x ys hx hys.1 apart.1,
  )

  listed-Separate :
      (ys : List Listed)
      → All IsNamed ys
      → Apart ys
      → All (λ y. y.0 ≢ resume_name ∷ []) ys
      → Separate env dest (map (entry_of env.hash) ys)
  listed-Separate [] h apart free = tt
  listed-Separate (y ∷ ys) h apart free = (
    resume_path-ne y.0 h.0.0 h.0.1 free.0,
    (others-apart y ys h.0 h.1 apart.0, listed-Separate ys h.1 apart.1 free.1),
  )

abbrev chunks_or_none : Result String SourceFile → List Bytes
chunks_or_none (ok f) = f.chunks
chunks_or_none (err text) = []
chunks_or_none panic = []

module _ (source : SourceEnv) (hash : Bytes → ℕ) (root : Text) where
  -- The chunks that the sender reads of a file of the manifest.
  abbrev chunks_of : FileEntry → List Bytes
  chunks_of e = chunks_or_none (source.open_source (full_path source root e))

  -- The sender finds at its place the file that the walk found.
  abbrev pub IsFound : Listed → Type 0
  IsFound y = source.open_source (join_path root (names_path y.0)) ≡ ok y.1.source

  module _ (tree : source.is_file root ≡ false) where
    opened :
        (y : Listed)
        → IsFound y
        → source.open_source (full_path source root (entry_of hash y)) ≡ ok y.1.source
    unfolding full_path
    opened y found = rw tree found

    chunks_found : (y : Listed) → IsFound y → chunks_of (entry_of hash y) ≡ y.1.source.chunks
    chunks_found y found = ap chunks_or_none (opened y found)

    digests :
        (ys : List Listed)
        → All IsFound ys
        → All (λ e. hash (concat (chunks_of e)) ≡ e.xx_hash) (map (entry_of hash) ys)
    digests [] h = tt
    digests (y ∷ ys) h = (ap (λ c. hash (concat c)) (chunks_found y h.0), digests ys h.1)

    readable :
        (ys : List Listed)
        → All IsNamed ys
        → All IsFound ys
        → All (IsReadable chunks_of source root) (map (entry_of hash) ys)
    readable [] n h = tt
    readable (y ∷ ys) n h = (
      opened y h.0
          ∙ ap ok (whole y.1.source (chunks_of (entry_of hash y)) (chunks_found y h.0) n.0.2.2),
      readable ys n.1 h.1,
    )
      where
        whole :
            (f : SourceFile) (c : List Bytes)
            → c ≡ f.chunks
            → f.failure ≡ none
            → f ≡ record { chunks = c; failure = none }
        whole f c e h = rw (e, ← h) refl

    delivered :
        (env : Env) (dest : Text) (ys : List Listed) (fs : Dict Bytes)
        → All IsFound ys
        → All (λ e. (false ≡ true) ⊎ IsDelivered chunks_of env dest fs e) (map (entry_of hash) ys)
        → All
            (λ y. lookup (join_path dest (names_path y.0)) fs ≡ some (concat y.1.source.chunks))
            ys
    delivered env dest [] fs h d = tt
    delivered env dest (y ∷ ys) fs h d = (
      elim d.0 [
        | inl never ↦ absurd (false-ne-true never)
        | inr at ↦ at ∙ ap (λ c. some (concat c)) (chunks_found y h.0)
      ],
      delivered env dest ys fs h.1 d.1,
    )
      where
        false-ne-true : false ≢ true
        false-ne-true = λ h. cc

-- A directory is sent whole: `BuildManifest` succeeds, and with its manifest `SendFiles` and
-- `ReceiveFiles` succeed on a connection without failures, each being sent what the other writes;
-- then every regular file of the tree is at the receiver below its destination, under the names
-- that lead to it, with its contents. No directory has two entries of one name, names are plain,
-- nothing in the tree fails, and the sender still finds every file that the walk found; no file at
-- the top has the name of the resume state; the receiver can create its files, and has nothing of
-- an earlier transfer.
pub directory_lem :
    (source : SourceEnv) (env : Env) (root dest : Text) (es : Entries) (fs : Dict Bytes)
    → root ≢ []
    → dest ≢ []
    → AreGood es
    → AreUnique es
    → All (λ y. y.0 ≢ resume_name ∷ []) (files_in [] es)
    → source.is_file root ≡ false
    → All (IsFound source env.hash root) (files_in [] es)
    → ((fs : Dict Bytes) (p : Text) → env.create_error fs p ≡ none)
    → (manifest : Manifest) × (streams : List (List Bytes)) × (acks : List Text) × (s : Sender)
      × (r : Receiver) × (build_manifest env.hash root (ok (dir es)) ≡ ok manifest)
      × (send_files source manifest
            (record { status = "ready"; completed = [] })
            root
            (fresh_sender acks)
          ≡ (ok tt, s))
      × (receive_files env manifest [] dest (fresh_receiver fs streams) ≡ (ok tt, r))
      × (s.opened ≡ streams)
      × (r.acks ≡ acks)
      × All
          (λ y. lookup (join_path dest (names_path y.0)) r.fs ≡ some (concat y.1.source.chunks))
          (files_in [] es)
unfolding mark_all
directory_lem source env root dest es fs hr hd good unique free tree found creates =
    let ys = files_in [] es in
    let named = files_in-IsNamed [] es tt good in
    let manifest : Manifest = record {
      files = map (entry_of env.hash) ys;
      root_name = base_name root;
    } in
    let (streams, acks, s, r, sent, got, opened, acked, placed) =
      transfer_lem source env root dest (chunks_of source env.hash root) manifest
        (record { status = "ready"; completed = [] }) fs creates
        (listed-Separate env dest hd ys named (files_in-Apart [] es unique) free)
        (digests source env.hash root tree ys found)
        (readable source env.hash root tree ys named found) in
    (
      manifest,
      streams,
      acks,
      s,
      r,
      build_manifest_lem env.hash root es hr good,
      sent,
      got,
      opened,
      acked,
      delivered source env.hash root tree env dest ys r.fs found (unfold lookup in placed),
    )
