-- ===== src/Client/Transfer/Skipping.antt =====
-- internal/client/transfer.go, the receiver: files that are skipped.
use wani.Base.{
  ◌≡◌, refl, sym, ap, subst, ◌∙◌, ◌≢◌, ◌⊎◌, inl, inr, Bool, true, false, List, [], ◌∷◌, ◌++◌,
  Option, none, some, Text, Dict, lookup, insert, lookup-insert, lookup-erase, text_eq-ne, Result,
  ok, err, panic, All, All-map, All-zip, Bool-cases,
}
use wani.Base.State.{bind}
use wani.Protocol.Message.{Bytes, FileEntry, Manifest}
use wani.Client.Transfer.Receive.{
  TransferError, Receiver, Env, skips, receive_file, show_skipped, receive_loop, receive_files,
  delete_resume_state,
}
use wani.Client.Transfer.Send.{mark_all}
use wani.Client.Transfer.Verified.{target, resume_path, Separate}
use wani.Client.Transfer.Recording.{accept-elsewhere}
use wani.Client.Transfer.Resume.{loop-elsewhere_any}

pub mark_all-append :
    (d : Dict Bool) (ps qs : List Text) → mark_all d (ps ++ qs) ≡ mark_all (mark_all d ps) qs
unfolding mark_all
mark_all-append d [] qs = refl
mark_all-append d (p ∷ ps) qs = mark_all-append (insert p true d) ps qs

abbrev or_false : Option Bool → Bool
or_false none = false
or_false (some marked) = marked

pub skips-mark_all :
    (d : Dict Bool) (p : Text) (qs : List Text)
    → skips d p ≡ false
    → All (λ q. q ≢ p) qs
    → skips (mark_all d qs) p ≡ false
unfolding mark_all
skips-mark_all d p [] h all = h
skips-mark_all d p (q ∷ qs) h all =
    let same : lookup p (insert q true d) ≡ lookup p d =
      lookup-insert q p true d ∙ rw (text_eq-ne q p all.0) refl in
    skips-mark_all (insert q true d) p qs (ap or_false same ∙ h) all.1

module _ (env : Env) (dest : Text) where
  pub places :
      (files : List FileEntry)
      → Separate env dest files
      → All (λ f. resume_path env dest ≢ target env dest f) files
  places [] sep = tt
  places (e ∷ files) sep = (sep.0, places files sep.1.1)

  -- The place of a file that is skipped is left alone.
  abbrev pub KeepsSkipped : Dict Bool → Dict Bytes → Dict Bytes → List FileEntry → Type 0
  KeepsSkipped skip fs fs' files =
      All
        (λ f.
          (skips skip f.path ≡ false)
          ⊎ (lookup (target env dest f) fs' ≡ lookup (target env dest f) fs))
        files

  file-elsewhere :
      (e : FileEntry) (r : Receiver) (files : List FileEntry)
      → All (λ f. target env dest f ≢ target env dest e) files
      → All (λ f. resume_path env dest ≢ target env dest f) files
      → All
          (λ f.
            lookup (target env dest f) (receive_file env dest e r).1.fs
            ≡ lookup (target env dest f) r.fs)
          files
  unfolding receive_file
  file-elsewhere e r files others ne =
      All-zip
        (λ f other apart.
          accept-elsewhere env dest e r.streams r (target env dest f) apart
            (λ same. other (sym same)))
        files others ne

  rest-KeepsSkipped :
      (skip : Dict Bool) (files : List FileEntry) (fs : Dict Bytes)
      → ((w : Receiver) → KeepsSkipped skip w.fs (receive_loop env dest skip files w).1.fs files)
      → (res : Result TransferError (Unit {0})) (m : Receiver)
      → All (λ f. lookup (target env dest f) m.fs ≡ lookup (target env dest f) fs) files
      → KeepsSkipped skip fs (bind (res, m) (λ _ w. receive_loop env dest skip files w)).1.fs files
  rest-KeepsSkipped skip files fs later (ok _) m same =
      All-zip (λ f h at. elim h [ inl todo ↦ inl todo | inr kept ↦ inr (kept ∙ at) ]) files
        (later m) same
  rest-KeepsSkipped skip files fs later (err x) m same = All-map (λ f h. inr h) files same
  rest-KeepsSkipped skip files fs later panic m same = All-map (λ f h. inr h) files same

  loop-KeepsSkipped :
      (skip : Dict Bool) (files : List FileEntry) (r : Receiver)
      → Separate env dest files
      → KeepsSkipped skip r.fs (receive_loop env dest skip files r).1.fs files
  unfolding receive_loop
  loop-KeepsSkipped skip [] r sep = tt
  loop-KeepsSkipped skip (e ∷ files) r sep = elim (Bool-cases (skips skip e.path)) [
    | inl done ↦
        let run : receive_loop env dest skip (e ∷ files) r
            ≡ receive_loop env dest skip files (show_skipped env e r).1 =
          rw done refl in
        (
          inr (
              ap (λ o. lookup (target env dest e) o.1.fs) run
              ∙ loop-elsewhere_any env dest skip files (show_skipped env e r).1 (target env dest e)
                  sep.0 sep.1.0),
          subst (λ o. KeepsSkipped skip r.fs o.1.fs files) (sym run)
              (loop-KeepsSkipped skip files (show_skipped env e r).1 sep.1.1),
        )
    | inr todo ↦
        let run : receive_loop env dest skip (e ∷ files) r
            ≡ bind (receive_file env dest e r) (λ _ w. receive_loop env dest skip files w) =
          rw todo refl in
        (
          inl todo,
          subst (λ o. KeepsSkipped skip r.fs o.1.fs files) (sym run)
              (rest-KeepsSkipped skip files r.fs (λ w. loop-KeepsSkipped skip files w sep.1.1)
                (receive_file env dest e r).0 (receive_file env dest e r).1
                (file-elsewhere e r files sep.1.0 (places files sep.1.1))),
        )
  ]

  pub files-KeepsSkipped :
      (manifest : Manifest) (skip : Dict Bool) (r : Receiver)
      → Separate env dest manifest.files
      → KeepsSkipped skip r.fs (receive_files env manifest skip dest r).1.fs manifest.files
  unfolding receive_files delete_resume_state
  files-KeepsSkipped manifest skip r sep =
      ended (receive_loop env dest skip manifest.files r)
        (loop-KeepsSkipped skip manifest.files r sep)
    where
      ended :
          (o : Result TransferError (Unit {0}) × Receiver)
          → KeepsSkipped skip r.fs o.1.fs manifest.files
          → KeepsSkipped skip r.fs
              (bind o (λ _ q. (ok tt, record q { fs = delete_resume_state env dest q.fs }))).1.fs
              manifest.files
      ended (ok _, q) kept =
          All-zip
            (λ f h apart. elim h [
              | inl todo ↦ inl todo
              | inr same ↦ inr (
                  rw (lookup-erase, text_eq-ne (resume_path env dest) (target env dest f) apart)
                    same)
            ])
            manifest.files kept (places manifest.files sep)
      ended (err x, q) kept = kept
      ended (panic, q) kept = kept
