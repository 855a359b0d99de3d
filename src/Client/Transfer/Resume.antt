-- ===== src/Client/Transfer/Resume.antt =====
-- internal/client/transfer.go, the receiver: an interrupted transfer, and what a later one is told
-- to skip.
use wani.Base.{
  ◌≡◌, refl, sym, ap, ◌∙◌, ◌≢◌, ◌⊎◌, inl, inr, Bool, true, false, List, [], ◌∷◌, ◌++◌, append_assoc,
  append-nil, none, some, Text, Dict, lookup, Result, ok, err, panic, if◌then◌else◌, All,
  Bool-cases,
}
use wani.Base.State.{bind}
use wani.Protocol.Message.{Bytes, FileEntry, Manifest}
use wani.Client.Transfer.Receive.{
  TransferError, Receiver, Env, concat, skips, load_resume_state, receive_file, show_skipped,
  receive_loop, receive_files, delete_resume_state,
}
use wani.Client.Transfer.Verified.{
  Accepted, target, resume_path, Separate, IsVerified, received-target, receive_file-ok,
}
use wani.Client.Transfer.Recording.{
  accept-elsewhere, accept-ne-panic, receive_file-failed, received-recorded,
}

-- The paths of the files that were not to be skipped.
unfoldable pub pending : Dict Bool → List FileEntry → List Text
pending skip [] = []
pending skip (e ∷ es) = if skips skip e.path then pending skip es else e.path ∷ pending skip es

module _ (env : Env) (dest : Text) where
  -- The rest of a loop leaves a place as it is after the first file.
  after :
      (skip : Dict Bool) (files : List FileEntry) (fs : Dict Bytes) (q : Text)
      → ((w : Receiver) → lookup q (receive_loop env dest skip files w).1.fs ≡ lookup q w.fs)
      → (res : Result TransferError (Unit {0})) (m : Receiver) → lookup q m.fs ≡ lookup q fs
      → lookup q (bind (res, m) (λ _ w. receive_loop env dest skip files w)).1.fs ≡ lookup q fs
  after skip files fs q later (ok _) m same = later m ∙ same
  after skip files fs q later (err x) m same = same
  after skip files fs q later panic m same = same

  pub loop-elsewhere_any :
      (skip : Dict Bool) (files : List FileEntry) (r : Receiver) (q : Text)
      → resume_path env dest ≢ q
      → All (λ f. target env dest f ≢ q) files
      → lookup q (receive_loop env dest skip files r).1.fs ≡ lookup q r.fs
  unfolding receive_loop
  loop-elsewhere_any skip [] r q ne all = refl
  loop-elsewhere_any skip (e ∷ files) r q ne all = elim (Bool-cases (skips skip e.path)) [
    | inl done ↦ rw done (loop-elsewhere_any skip files (show_skipped env e r).1 q ne all.1)
    | inr todo ↦ rw todo (
        after skip files r.fs q (λ w. loop-elsewhere_any skip files w q ne all.1)
          (receive_file env dest e r).0 (receive_file env dest e r).1
          (unfold receive_file in accept-elsewhere env dest e r.streams r q ne all.0))
  ]

  -- How far a failed transfer came: `done` was dealt with, `failed` is the file it failed on.
  pub record Interrupted (skip : Dict Bool) (files : List FileEntry) (r r' : Receiver)
      : Type 0 where
    pub done : List FileEntry
    pub failed : FileEntry
    pub left : List FileEntry
    pub split : files ≡ done ++ failed ∷ left
    pub tried : skips skip failed.path ≡ false
    pub recorded :
        load_resume_state env dest r'.fs ≡ load_resume_state env dest r.fs ++ pending skip done
    pub verified : All (λ e. (skips skip e.path ≡ true) ⊎ IsVerified env dest r'.fs e) done

  module _
      (roundtrip : (completed : List Text) → env.unmarshal (env.marshal completed) ≡ some completed)
      (saves : (fs : Dict Bytes) (p : Text) → env.save_error fs p ≡ none) where
    skipped :
        (skip : Dict Bool) (e : FileEntry) (files : List FileEntry) (r r' : Receiver)
        → skips skip e.path ≡ true
        → Interrupted skip files (show_skipped env e r).1 r'
        → Interrupted skip (e ∷ files) r r'
    unfolding pending
    skipped skip e files r r' marked i = record {
      done = e ∷ i.done;
      failed = i.failed;
      left = i.left;
      split = ap (λ l. e ∷ l) i.split;
      tried = i.tried;
      recorded = rw (marked, i.recorded);
      verified = (inl marked, i.verified);
    }

    stepped :
        (skip : Dict Bool) (e : FileEntry) (files : List FileEntry) (r m r' : Receiver)
        → skips skip e.path ≡ false
        → resume_path env dest ≢ target env dest e
        → Accepted env dest e r m
        → lookup (target env dest e) r'.fs ≡ lookup (target env dest e) m.fs
        → Interrupted skip files m r'
        → Interrupted skip (e ∷ files) r r'
    unfolding pending
    stepped skip e files r m r' todo ne a same i = record {
      done = e ∷ i.done;
      failed = i.failed;
      left = i.left;
      split = ap (λ l. e ∷ l) i.split;
      tried = i.tried;
      recorded = rw todo (
          i.recorded
          ∙ ap (λ l. l ++ pending skip i.done)
              (rw a.after (received-recorded env dest roundtrip saves e a.stream a.rest r ne))
          ∙ append_assoc (load_resume_state env dest r.fs) (e.path ∷ []) (pending skip i.done));
      verified = (
        inr (
          concat a.stream.chunks,
          same ∙ rw a.after (received-target env dest e a.stream a.rest r ne),
          a.digest,
        ),
        i.verified,
      );
    }

    loop-interrupted :
        (skip : Dict Bool) (files : List FileEntry) (r : Receiver)
        → Separate env dest files
        → (receive_loop env dest skip files r).0 ≢ ok tt
        → Interrupted skip files r (receive_loop env dest skip files r).1
    unfolding receive_loop
    loop-interrupted skip [] r sep h = absurd (h refl)
    loop-interrupted skip (e ∷ files) r sep h = elim (Bool-cases (skips skip e.path)) [
      | inl done ↦ rw done (
          skipped skip e files r _ done
            (loop-interrupted skip files (show_skipped env e r).1 sep.1.1 (rw done at h)))
      | inr todo ↦ rw todo (
          tried todo (λ w. loop-interrupted skip files w sep.1.1) (receive_file env dest e r).0
            (receive_file env dest e r).1 refl (rw todo at h))
    ]
      where
        tried :
            (skips skip e.path ≡ false)
            → ((w : Receiver)
                → (receive_loop env dest skip files w).0 ≢ ok tt
                → Interrupted skip files w (receive_loop env dest skip files w).1)
            → (res : Result TransferError (Unit {0})) (m : Receiver)
            → receive_file env dest e r ≡ (res, m)
            → (bind (res, m) (λ _ w. receive_loop env dest skip files w)).0 ≢ ok tt
            → Interrupted skip
                (e ∷ files)
                r
                (bind (res, m) (λ _ w. receive_loop env dest skip files w)).1
        tried todo later (ok _) m run h =
            let a = receive_file-ok env dest e r m run in
            stepped skip e files r m _ todo sep.0 a
              (loop-elsewhere_any skip files m (target env dest e) sep.0 sep.1.0) (later m h)
        tried todo later (err x) m run h = record {
          done = [];
          failed = e;
          left = files;
          split = refl;
          tried = todo;
          recorded =
              unfold pending in
              receive_file-failed env dest e r m (err x) sep.0 h run ∙ sym (append-nil _);
          verified = tt;
        }
        tried todo later panic m run h =
            absurd
              (unfold receive_file in accept-ne-panic env dest e r.streams r (ap (λ o. o.0) run))

    pub receive_files-interrupted :
        (manifest : Manifest) (skip : Dict Bool) (r : Receiver)
        → Separate env dest manifest.files
        → (receive_files env manifest skip dest r).0 ≢ ok tt
        → Interrupted skip manifest.files r (receive_files env manifest skip dest r).1
    unfolding receive_files
    receive_files-interrupted manifest skip r sep h =
        ended (receive_loop env dest skip manifest.files r)
          (loop-interrupted skip manifest.files r sep) h
      where
        ended :
            (o : Result TransferError (Unit {0}) × Receiver)
            → (o.0 ≢ ok tt → Interrupted skip manifest.files r o.1)
            → (bind o (λ _ q. (ok tt, record q { fs = delete_resume_state env dest q.fs }))).0
              ≢ ok tt
            → Interrupted skip manifest.files r
                (bind o (λ _ q. (ok tt, record q { fs = delete_resume_state env dest q.fs }))).1
        ended (ok _, q) later h = absurd (h refl)
        ended (err x, q) later h = later h
        ended (panic, q) later h = later h
