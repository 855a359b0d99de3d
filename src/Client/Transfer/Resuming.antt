-- ===== src/Client/Transfer/Resuming.antt =====
-- internal/client/transfer.go, the receiver: runs of `ReceiveFiles` that go on from the resume state.
use wani.Base.{
  ◌≡◌, refl, sym, ap, subst, ◌∙◌, ◌≢◌, ◌⊎◌, inl, inr, Bool, true, false, List, [], ◌∷◌, ◌++◌, none,
  some, Text, Dict, Result, ok, err, panic, All, All-append, All-split, All-map, All-zip,
  Bool-cases,
}
use wani.Protocol.Message.{Bytes, FileEntry, Manifest}
use wani.Client.Paths.{join_path}
use wani.Client.Transfer.Receive.{Receiver, Env, skips, load_resume_state, receive_files}
use wani.Client.Transfer.Send.{mark_all}
use wani.Client.Transfer.Verified.{Separate, IsVerified, receive_files-IsVerified}
use wani.Client.Transfer.Resume.{pending, receive_files-interrupted}
use wani.Client.Transfer.Skipping.{
  mark_all-append, skips-mark_all, places, KeepsSkipped, files-KeepsSkipped,
}

true-ne-false : true ≢ false
true-ne-false = λ h. cc

ok-cases : {E : Type 0} (res : Result E (Unit {0})) → (res ≡ ok tt) ⊎ (res ≢ ok tt)
ok-cases (ok _) = inl refl
ok-cases (err e) = inr (λ h. cc)
ok-cases panic = inr (λ h. cc)

module _ (env : Env) (dest : Text) where
  -- No file behind `done` has the path of one of `done`.
  fresh :
      (skip : Dict Bool) (done left : List FileEntry)
      → Separate env dest (done ++ left)
      → All (λ e. All (λ q. q ≢ e.path) (pending skip done)) left
  unfolding pending
  fresh skip [] left sep = All-map (λ e _. tt) left (places env dest left sep)
  fresh skip (d ∷ done) left sep = elim (Bool-cases (skips skip d.path)) [
    | inl skipped ↦ rw skipped (fresh skip done left sep.1.1)
    | inr todo ↦ rw todo (
        All-zip (λ e ne ih. ((λ same. ne (ap (join_path dest) (sym same))), ih)) left
          (All-split _ done left sep.1.0).1 (fresh skip done left sep.1.1))
  ]

  -- Each file that the resume state lists is in place with its digest.
  abbrev pub Recorded : Dict Bytes → List FileEntry → Type 0
  Recorded fs files =
      All
        (λ e.
          (skips (mark_all [] (load_resume_state env dest fs)) e.path ≡ false)
          ⊎ IsVerified env dest fs e)
        files

  kept-IsVerified :
      (skip : Dict Bool) (fs fs' : Dict Bytes) (files : List FileEntry)
      → KeepsSkipped env dest skip fs fs' files
      → All (λ e. (skips skip e.path ≡ false) ⊎ IsVerified env dest fs e) files
      → All (λ e. (skips skip e.path ≡ false) ⊎ IsVerified env dest fs' e) files
  kept-IsVerified skip fs fs' files kept verified =
      All-zip
        (λ e k v. elim k [
          | inl todo ↦ inl todo
          | inr same ↦ elim v [
            | inl todo ↦ inl todo
            | inr (content, at, digest) ↦ inr (content, same ∙ at, digest)
          ]
        ])
        files kept verified

  failed-Recorded :
      (completed : List Text) (fs' : Dict Bytes) (done left : List FileEntry)
      → let skip = mark_all [] completed in
        Separate env dest (done ++ left)
        → load_resume_state env dest fs' ≡ completed ++ pending skip done
        → All (λ e. (skips skip e.path ≡ true) ⊎ IsVerified env dest fs' e) done
        → All (λ e. (skips skip e.path ≡ false) ⊎ IsVerified env dest fs' e) (done ++ left)
        → Recorded fs' (done ++ left)
  failed-Recorded completed fs' done left sep recorded verified kept =
      let skip = mark_all [] completed in
      let (kept_done, kept_left) = All-split _ done left kept in
      let marks : mark_all [] (load_resume_state env dest fs') ≡ mark_all skip (pending skip done) =
        ap (mark_all []) recorded ∙ mark_all-append [] completed (pending skip done) in
      All-append _ done left
        (All-zip
          (λ e v k. elim v [
            | inl skipped ↦ elim k [
              | inl todo ↦ absurd (true-ne-false (sym skipped ∙ todo))
              | inr at ↦ inr at
            ]
            | inr at ↦ inr at
          ])
          done verified kept_done)
        (All-zip
          (λ e k new. elim k [
            | inl todo ↦ inl (
                ap (λ m. skips m e.path) marks
                ∙ skips-mark_all skip e.path (pending skip done) todo new)
            | inr at ↦ inr at
          ])
          left kept_left (fresh skip done left sep))

  module _
      (roundtrip : (completed : List Text) → env.unmarshal (env.marshal completed) ≡ some completed)
      (saves : (fs : Dict Bytes) (p : Text) → env.save_error fs p ≡ none) where
    -- A run of `ReceiveFiles` that is told to skip what the resume state lists either succeeds, and
    -- then every file of the manifest is in place with its digest, those of earlier runs included,
    -- or it fails, and then whatever the resume state lists is again in place with its digest, as
    -- this theorem asks of the next run. At the start what the resume state lists is in place; the
    -- files have different places, none that of the resume state; its writes succeed and reading it
    -- gives back what was written.
    pub resume_lem :
        (manifest : Manifest) (r : Receiver)
        → Separate env dest manifest.files
        → Recorded r.fs manifest.files
        → let (res, r') =
            receive_files env manifest (mark_all [] (load_resume_state env dest r.fs)) dest r in
          ((res ≡ ok tt) × All (IsVerified env dest r'.fs) manifest.files)
          ⊎ ((res ≢ ok tt) × Recorded r'.fs manifest.files)
    resume_lem manifest r sep recorded =
        let skip = mark_all [] (load_resume_state env dest r.fs) in
        let o = receive_files env manifest skip dest r in
        let kept =
          kept-IsVerified skip r.fs o.1.fs manifest.files
            (files-KeepsSkipped env dest manifest skip r sep) recorded in
        elim (ok-cases o.0) [
          | inl good ↦
              let v =
                receive_files-IsVerified env dest manifest skip r o.1 (ap (λ res. (res, o.1)) good)
                  sep in
              inl (
                good,
                All-zip
                    (λ e v k. elim v [
                      | inl skipped ↦ elim k [
                        | inl todo ↦ absurd (true-ne-false (sym skipped ∙ todo))
                        | inr at ↦ at
                      ]
                      | inr at ↦ at
                    ])
                    manifest.files v.0 kept,
              )
          | inr bad ↦
              let i = receive_files-interrupted env dest roundtrip saves manifest skip r sep bad in
              inr (
                bad,
                subst (Recorded o.1.fs) (sym i.split) (
                    failed-Recorded (load_resume_state env dest r.fs) o.1.fs i.done
                      (i.failed ∷ i.left) (subst (Separate env dest) i.split sep) i.recorded
                      i.verified
                      (subst (All (λ e. (skips skip e.path ≡ false) ⊎ IsVerified env dest o.1.fs e))
                        i.split kept)),
              )
        ]
