-- ===== src/Client/Transfer/Recording.antt =====
-- internal/client/transfer.go, the receiver: what the resume state records of one file.
use wani.Base.{
  ◌≡◌, refl, sym, ap, ◌∙◌, ◌≢◌, List, [], ◌∷◌, ◌++◌, none, some, arith, Text, Dict, lookup, insert,
  lookup-insert, text_eq_iff, text_eq_self, text_eq-ne, Result, ok, panic,
}
use wani.Protocol.Message.{Bytes, FileEntry}
use wani.Client.Transfer.Receive.{
  TransferError, Incoming, Receiver, Env, concat, load_resume_state, or_nothing, save_resume_state,
  receive_stream, accept, receive_file,
}
use wani.Client.Transfer.Verified.{received, target, resume_path}

module _ (env : Env) (dest : Text) where
  -- A failed file leaves every place but its own as it was.
  pub accept-elsewhere :
      (e : FileEntry) (ss : List Incoming) (r : Receiver) (q : Text)
      → resume_path env dest ≢ q
      → target env dest e ≢ q
      → lookup q (accept env dest e ss r).1.fs ≡ lookup q r.fs
  unfolding receive_file receive_stream save_resume_state
  accept-elsewhere e [] r q ne ne' = refl
  accept-elsewhere e (s ∷ rest) r q ne ne' =
      let fs = insert (target env dest e) (concat s.chunks) r.fs in
      let more = load_resume_state env dest fs ++ e.path ∷ [] in
      ground (
        arith,
        lookup-insert (target env dest e) q (concat s.chunks) r.fs,
        text_eq_iff (target env dest e) q,
        lookup-insert (resume_path env dest) q (env.marshal more) fs,
        text_eq_iff (resume_path env dest) q,
      )

  load-insert :
      (p : Text) (content : Bytes) (fs : Dict Bytes)
      → resume_path env dest ≢ p
      → load_resume_state env dest (insert p content fs) ≡ load_resume_state env dest fs
  unfolding load_resume_state
  load-insert p content fs ne =
      rw (lookup-insert, text_eq-ne p (resume_path env dest) (λ e. ne (sym e)))

  accept-failed :
      (e : FileEntry) (ss : List Incoming) (r : Receiver)
      → resume_path env dest ≢ target env dest e
      → (accept env dest e ss r).0 ≢ ok tt
      → load_resume_state env dest (accept env dest e ss r).1.fs ≡ load_resume_state env dest r.fs
  unfolding receive_file receive_stream
  accept-failed e [] r ne h = refl
  accept-failed e (s ∷ rest) r ne h =
      ground (arith, load-insert (target env dest e) (concat s.chunks) r.fs ne)

  pub accept-ne-panic :
      (e : FileEntry) (ss : List Incoming) (r : Receiver) → (accept env dest e ss r).0 ≢ panic
  unfolding receive_file receive_stream
  accept-ne-panic e [] r = λ h. cc
  accept-ne-panic e (s ∷ rest) r = ground arith

  pub receive_file-failed :
      (e : FileEntry) (r m : Receiver) (res : Result TransferError (Unit {0}))
      → resume_path env dest ≢ target env dest e
      → res ≢ ok tt
      → receive_file env dest e r ≡ (res, m)
      → load_resume_state env dest m.fs ≡ load_resume_state env dest r.fs
  unfolding receive_file
  receive_file-failed e r m res ne bad run =
      sym (ap (λ o. load_resume_state env dest o.1.fs) run)
      ∙ accept-failed e r.streams r ne (λ good. bad (sym (ap (λ o. o.0) run) ∙ good))

  module _
      (roundtrip : (completed : List Text) → env.unmarshal (env.marshal completed) ≡ some completed)
      (saves : (fs : Dict Bytes) (p : Text) → env.save_error fs p ≡ none) where
    pub load-save :
        (completed : List Text) (fs : Dict Bytes)
        → load_resume_state env dest (save_resume_state env dest completed fs) ≡ completed
    unfolding load_resume_state save_resume_state or_nothing
    load-save completed fs = ground (
      arith,
      saves fs (resume_path env dest),
      roundtrip completed,
      text_eq_self (resume_path env dest),
      lookup-insert (resume_path env dest) (resume_path env dest) (env.marshal completed) fs,
    )

    pub received-recorded :
        (e : FileEntry) (s : Incoming) (rest : List Incoming) (r : Receiver)
        → resume_path env dest ≢ target env dest e
        → load_resume_state env dest (received env dest e s rest r).fs
          ≡ load_resume_state env dest r.fs ++ e.path ∷ []
    received-recorded e s rest r ne =
        load-save _ _
        ∙ ap (λ l. l ++ e.path ∷ []) (load-insert (target env dest e) (concat s.chunks) r.fs ne)
