-- ===== src/Client/Transfer/Delivery.antt =====
-- internal/client/transfer.go: a sender and a receiver that are joined by a connection.
use wani.Base.{
  ◌≡◌, refl, sym, ap, ◌∙◌, ◌⊎◌, inl, inr, Bool, true, List, [], ◌∷◌, ◌++◌, append_assoc, append-nil,
  map, none, arith, Text, codes, Dict, lookup, lookup-erase, text_eq-ne, ok, ==_iff, All,
  Bool-cases,
}
use wani.Protocol.Message.{Bytes, FileEntry, Manifest, ManifestResponse}
use wani.Client.Transfer.Receive.{
  Incoming, Receiver, concat, skips, acknowledge, check_copy, receive_stream, receive_file,
  show_skipped, receive_loop, receive_files, delete_resume_state,
}
use wani.Client.Transfer.Receive.{Env}
use wani.Client.Transfer.Send.{SourceEnv, Sender, mark_all, send_files}
use wani.Client.Transfer.Verified.{received, target, resume_path, Separate, received-target}
use wani.Client.Transfer.Resume.{loop-elsewhere_any}
use wani.Client.Transfer.Streams.{
  arriving, answered, IsReadable, IsDelivered, outgoing, answers, send_loop-ok,
}

module _ (chunks : FileEntry → List Bytes) where
  delete-IsDelivered :
      (env : Env) (dest : Text) (done : Dict Bool) (files : List FileEntry) (fs : Dict Bytes)
      → Separate env dest files
      → All (λ e. (skips done e.path ≡ true) ⊎ IsDelivered chunks env dest fs e) files
      → All
          (λ e.
            (skips done e.path ≡ true)
            ⊎ IsDelivered chunks env dest (delete_resume_state env dest fs) e)
          files
  unfolding delete_resume_state
  delete-IsDelivered env dest done [] fs sep placed = tt
  delete-IsDelivered env dest done (e ∷ files) fs sep placed = (
    elim placed.0 [
      | inl skip ↦ inl skip
      | inr at ↦
          inr (rw (lookup-erase, text_eq-ne (resume_path env dest) (target env dest e) sep.0) at)
    ],
    delete-IsDelivered env dest done files fs sep.1.1 placed.1,
  )

module _ (chunks : FileEntry → List Bytes) (done : Dict Bool) where
  module _ (env : Env) (dest : Text) where
    module _ (creates : (fs : Dict Bytes) (p : Text) → env.create_error fs p ≡ none) where
      receive_file-good :
          (e : FileEntry) (rest : List Incoming) (r : Receiver)
          → env.hash (concat (chunks e)) ≡ e.xx_hash
          → receive_file env dest e (record r { streams = arriving (chunks e) ∷ rest })
            ≡ (ok tt, received env dest e (arriving (chunks e)) rest r)
      unfolding receive_file receive_stream check_copy acknowledge
      receive_file-good e rest r digest = ground (
        arith,
        digest,
        creates r.fs (target env dest e),
        ==_iff (env.hash (concat (chunks e))) e.xx_hash,
      )

      -- A run of the receiver's loop that delivers the files.
      pub record Arrived (files : List FileEntry) (r : Receiver) : Type 0 where
        pub after : Receiver
        pub run :
            receive_loop env dest done files
              (record r { streams = map arriving (outgoing chunks done files) })
            ≡ (ok tt, after)
        pub acked : after.acks ≡ r.acks ++ answers chunks done files
        pub placed :
            All (λ e. (skips done e.path ≡ true) ⊎ IsDelivered chunks env dest after.fs e) files

      receive_loop-Arrived :
          (files : List FileEntry) (r : Receiver)
          → Separate env dest files
          → All (λ e. env.hash (concat (chunks e)) ≡ e.xx_hash) files
          → Arrived files r
      unfolding receive_loop outgoing answers
      receive_loop-Arrived [] r sep digests = record {
        after = record r { streams = [] };
        run = refl;
        acked = sym (append-nil r.acks);
        placed = tt;
      }
      receive_loop-Arrived (e ∷ files) r sep digests = elim (Bool-cases (skips done e.path)) [
        | inl skip ↦
            let a = receive_loop-Arrived files (show_skipped env e r).1 sep.1.1 digests.1 in
            record {
              after = a.after;
              run = rw skip a.run;
              acked = rw skip a.acked;
              placed = (inl skip, a.placed);
            }
        | inr todo ↦
            let s = arriving (chunks e) in
            let a = receive_loop-Arrived files (received env dest e s [] r) sep.1.1 digests.1 in
            record {
              after = a.after;
              run =
                  rw
                    (
                      todo,
                      receive_file-good e (map arriving (outgoing chunks done files)) r digests.0,
                    )
                    a.run;
              acked =
                  rw todo
                    (a.acked ∙ append_assoc r.acks (codes "ok" ∷ []) (answers chunks done files));
              placed = (
                inr (
                    ap (λ o. lookup (target env dest e) o.1.fs) (sym a.run)
                    ∙ loop-elsewhere_any env dest done files
                        (record (received env dest e s [] r) {
                          streams = map arriving (outgoing chunks done files);
                        })
                        (target env dest e) sep.0 sep.1.0
                    ∙ received-target env dest e s [] r sep.0),
                a.placed,
              );
            }
      ]

-- A sender that has opened no stream, and will be answered so.
abbrev pub fresh_sender : List Text → Sender
fresh_sender texts = record { opened = []; replies = map answered texts; shown = [] }

-- A receiver at which these chunks will arrive, stream by stream.
abbrev pub fresh_receiver : Dict Bytes → List (List Bytes) → Receiver
fresh_receiver fs streams = record {
  fs = fs;
  streams = map arriving streams;
  acks = [];
  shown = [];
}

-- On a connection without failures, `SendFiles` and `ReceiveFiles` both succeed: what the sender
-- writes is what arrives at the receiver, what the receiver answers is what the sender reads, and
-- every file that was not completed before is then at the receiver with the contents that the
-- sender read. The sender can read the files, which have the digests of the manifest; the receiver
-- can create its files, which have different places, none that of the resume state.
pub transfer_lem :
    (source : SourceEnv) (env : Env) (root dest : Text) (chunks : FileEntry → List Bytes)
    (manifest : Manifest) (resp : ManifestResponse) (fs : Dict Bytes)
    → ((fs : Dict Bytes) (p : Text) → env.create_error fs p ≡ none)
    → Separate env dest manifest.files
    → All (λ e. env.hash (concat (chunks e)) ≡ e.xx_hash) manifest.files
    → All (IsReadable chunks source root) manifest.files
    → (streams : List (List Bytes)) × (acks : List Text) × (s : Sender) × (r : Receiver)
      × (send_files source manifest resp root (fresh_sender acks) ≡ (ok tt, s))
      × (receive_files env manifest (mark_all [] resp.completed) dest (fresh_receiver fs streams)
          ≡ (ok tt, r))
      × (s.opened ≡ streams)
      × (r.acks ≡ acks)
      × All
          (λ e.
            (skips (mark_all [] resp.completed) e.path ≡ true) ⊎ IsDelivered chunks env dest r.fs e)
          manifest.files
unfolding send_files receive_files delete_resume_state
transfer_lem source env root dest chunks manifest resp fs creates sep digests readable =
    let done = mark_all [] resp.completed in
    let (shown, sent) =
      send_loop-ok chunks done source root manifest.files
        (record { opened = []; replies = []; shown = [] }) readable in
    let a =
      receive_loop-Arrived chunks done env dest creates manifest.files (fresh_receiver fs []) sep
        digests in
    (
      outgoing chunks done manifest.files,
      answers chunks done manifest.files,
      record { opened = outgoing chunks done manifest.files; replies = []; shown = shown },
      record (a.after) { fs = delete_resume_state env dest a.after.fs },
      sent,
      rw a.run refl,
      refl,
      a.acked,
      delete-IsDelivered chunks env dest done manifest.files a.after.fs sep a.placed,
    )
