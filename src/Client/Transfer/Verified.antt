-- ===== src/Client/Transfer/Verified.antt =====
-- internal/client/transfer.go, the receiver: what is on disk, and in the resume state, afterwards.
use wani.Base.{
  ◌≡◌, refl, ◌∙◌, ◌≢◌, ◌⊎◌, inl, inr, Bool, true, List, [], ◌∷◌, ◌++◌, none, some, arith, Text,
  codes, Dict, lookup, insert, erase, lookup-insert, lookup-erase, text_eq_iff, text_eq_self,
  text_eq-ne, ok, ==_iff, All, Bool-cases,
}
use wani.Base.State.{bind-ok}
use wani.Protocol.Message.{Bytes, FileEntry, Manifest}
use wani.Client.Paths.{join_path}
use wani.Client.Transfer.Receive.{
  Incoming, Receiver, Env, concat, reads, skips, resume_state_path, load_resume_state,
  save_resume_state, delete_resume_state, receive_stream, accept, receive_file, show_skipped,
  receive_loop, receive_files,
}

module _ (env : Env) (dest : Text) where
  -- The receiver after a file has arrived on a stream and was accepted.
  abbrev pub received : FileEntry → Incoming → List Incoming → Receiver → Receiver
  received entry s rest r =
      let fs = insert (join_path dest entry.path) (concat s.chunks) r.fs in
      record {
        fs = save_resume_state env dest (load_resume_state env dest fs ++ entry.path ∷ []) fs;
        streams = rest;
        acks = r.acks ++ codes "ok" ∷ [];
        shown = r.shown ++ reads entry 0 s.chunks;
      }

  -- What a success of `receiveFile` says of the next stream, and the state after it.
  pub record Accepted (entry : FileEntry) (r r' : Receiver) : Type 0 where
    pub stream : Incoming
    pub rest : List Incoming
    pub next : r.streams ≡ stream ∷ rest
    pub creates : env.create_error r.fs (join_path dest entry.path) ≡ none
    pub complete : stream.failure ≡ none
    pub digest : env.hash (concat stream.chunks) ≡ entry.xx_hash
    pub delivered : stream.ack_failure ≡ none
    pub after : r' ≡ received entry stream rest r

  accept-ok :
      (entry : FileEntry) (ss : List Incoming) (r r' : Receiver)
      → r.streams ≡ ss
      → accept env dest entry ss r ≡ (ok tt, r')
      → Accepted entry r r'
  unfolding receive_file receive_stream
  accept-ok entry [] r r' e h = cc
  accept-ok entry (s ∷ rest) r r' e h = record {
    stream = s;
    rest = rest;
    next = e;
    creates = ground arith;
    complete = ground arith;
    digest = ground (arith, ==_iff (env.hash (concat s.chunks)) entry.xx_hash);
    delivered = ground arith;
    after = ground arith;
  }

  pub receive_file-ok :
      (entry : FileEntry) (r r' : Receiver)
      → receive_file env dest entry r ≡ (ok tt, r')
      → Accepted entry r r'
  unfolding receive_file
  receive_file-ok entry r r' h = accept-ok entry r.streams r r' refl h

  abbrev pub target : FileEntry → Text
  target entry = join_path dest entry.path

  abbrev pub resume_path : Text
  resume_path = resume_state_path dest

  -- Saving the resume state changes its own file only.
  pub save-elsewhere :
      (completed : List Text) (fs : Dict Bytes) (q : Text)
      → resume_path ≢ q
      → lookup q (save_resume_state env dest completed fs) ≡ lookup q fs
  unfolding save_resume_state
  save-elsewhere completed fs q ne =
      ground
        (arith, lookup-insert resume_path q (env.marshal completed) fs, text_eq_iff resume_path q)

  pub received-elsewhere :
      (entry : FileEntry) (s : Incoming) (rest : List Incoming) (r : Receiver) (q : Text)
      → resume_path ≢ q
      → target entry ≢ q
      → lookup q (received entry s rest r).fs ≡ lookup q r.fs
  received-elsewhere entry s rest r q ne ne' =
      save-elsewhere _ _ q ne
      ∙ ground (
        arith,
        lookup-insert (target entry) q (concat s.chunks) r.fs,
        text_eq_iff (target entry) q,
      )

  pub received-target :
      (entry : FileEntry) (s : Incoming) (rest : List Incoming) (r : Receiver)
      → resume_path ≢ target entry
      → lookup (target entry) (received entry s rest r).fs ≡ some (concat s.chunks)
  received-target entry s rest r ne =
      save-elsewhere _ _ (target entry) ne
      ∙ ground (
        arith,
        lookup-insert (target entry) (target entry) (concat s.chunks) r.fs,
        text_eq_self (target entry),
      )

  -- The files have places of their own, and none is that of the resume state.
  abbrev pub Separate : List FileEntry → Type 0
  Separate [] = Unit {0}
  Separate (e ∷ es) = (resume_path ≢ target e) × (All (λ f. target f ≢ target e) es × Separate es)

  loop-elsewhere :
      (skip : Dict Bool) (files : List FileEntry) (r r' : Receiver) (q : Text)
      → receive_loop env dest skip files r ≡ (ok tt, r')
      → resume_path ≢ q
      → All (λ f. target f ≢ q) files
      → lookup q r'.fs ≡ lookup q r.fs
  unfolding receive_loop
  loop-elsewhere skip [] r r' q h ne all = ground arith
  loop-elsewhere skip (e ∷ files) r r' q h ne all = elim (Bool-cases (skips skip e.path)) [
    | inl done ↦ loop-elsewhere skip files (show_skipped env e r).1 r' q (rw done at h) ne all.1
    | inr todo ↦
        let (m, first, later) = bind-ok _ _ r' (rw todo at h) in
        let a = receive_file-ok e r m first in
        loop-elsewhere skip files m r' q later ne all.1
        ∙ rw a.after (received-elsewhere e a.stream a.rest r q ne all.0)
  ]

  -- A file is on disk with the digest of its manifest entry.
  abbrev pub IsVerified : Dict Bytes → FileEntry → Type 0
  IsVerified fs e =
      (content : Bytes) × (lookup (target e) fs ≡ some content) × (env.hash content ≡ e.xx_hash)

  loop-IsVerified :
      (skip : Dict Bool) (files : List FileEntry) (r r' : Receiver)
      → receive_loop env dest skip files r ≡ (ok tt, r')
      → Separate files
      → All (λ e. (skips skip e.path ≡ true) ⊎ IsVerified r'.fs e) files
  unfolding receive_loop
  loop-IsVerified skip [] r r' h sep = tt
  loop-IsVerified skip (e ∷ files) r r' h sep = elim (Bool-cases (skips skip e.path)) [
    | inl done ↦
        (inl done, loop-IsVerified skip files (show_skipped env e r).1 r' (rw done at h) sep.1.1)
    | inr todo ↦
        let (m, first, later) = bind-ok _ _ r' (rw todo at h) in
        let a = receive_file-ok e r m first in
        (
          inr (
            concat a.stream.chunks,
            loop-elsewhere skip files m r' (target e) later sep.0 sep.1.0
                ∙ rw a.after (received-target e a.stream a.rest r sep.0),
            a.digest,
          ),
          loop-IsVerified skip files m r' later sep.1.1,
        )
  ]

  -- If `ReceiveFiles` succeeds then, whatever arrived on the streams, every file of the manifest
  -- that was not to be skipped is in its place with contents of the digest that the manifest gives,
  -- and the resume state is gone. The files have different places, none that of the resume state.
  pub receive_files-IsVerified :
      (manifest : Manifest) (skip : Dict Bool) (r r' : Receiver)
      → receive_files env manifest skip dest r ≡ (ok tt, r')
      → Separate manifest.files
      → All (λ e. (skips skip e.path ≡ true) ⊎ IsVerified r'.fs e) manifest.files
        × (lookup resume_path r'.fs ≡ none)
  unfolding receive_files delete_resume_state
  receive_files-IsVerified manifest skip r r' h sep =
      let (m, looped, e) = bind-ok (receive_loop env dest skip manifest.files r) _ r' h in
      let v = loop-IsVerified skip manifest.files r m looped sep in
      let fs' : r'.fs ≡ erase resume_path m.fs = ground arith in
      (kept manifest.files m r' fs' sep v, rw (fs', lookup-erase, text_eq_self))
    where
      kept :
          (files : List FileEntry) (m r' : Receiver)
          → r'.fs ≡ erase resume_path m.fs
          → Separate files
          → All (λ e. (skips skip e.path ≡ true) ⊎ IsVerified m.fs e) files
          → All (λ e. (skips skip e.path ≡ true) ⊎ IsVerified r'.fs e) files
      kept [] m r' e sep v = tt
      kept (f ∷ files) m r' e sep v = (
        elim v.0 [
          | inl done ↦ inl done
          | inr (content, at, digest) ↦
              inr
                (content, rw (e, lookup-erase, text_eq-ne resume_path (target f) sep.0) at, digest)
        ],
        kept files m r' e sep.1.1 v.1,
      )
