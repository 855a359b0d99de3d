-- ===== src/Client/Transfer/Answered.antt =====
-- internal/client/transfer.go: what a success of `SendFiles` says, whatever the connection does.
use wani.Base.{
  ◌≡◌, refl, sym, ap, ◌∙◌, ◌⊎◌, inl, inr, Bool, true, false, List, [], ◌∷◌, ◌++◌, append_assoc,
  append-nil, none, String, Text, codes, text_eq_iff, Dict, Result, ok, err, panic, All, Bool-cases,
  arith, length, suc,
}
use wani.Base.State.{bind-ok}
use wani.Protocol.Message.{Bytes, FileEntry, Manifest, ManifestResponse}
use wani.Client.Transfer.Receive.{skips}
use wani.Client.Transfer.Send.{
  SourceFile, Reply, Sender, SourceEnv, mark_all, full_path, read_answer, close_write, copy_file,
  open_stream, send_file, show_done, send_loop, send_files,
}

module _ (env : SourceEnv) (root : Text) where
  -- What a success of `sendFile` says of the file and of the next stream.
  pub record Sent (entry : FileEntry) (file : SourceFile) (s s' : Sender) : Type 0 where
    pub reply : Reply
    pub next : s.replies ≡ reply ∷ s'.replies
    pub whole : file.failure ≡ none
    pub accepted : reply.answer ≡ codes "ok"
    pub written : s'.opened ≡ s.opened ++ file.chunks ∷ []

  open_stream-Sent :
      (entry : FileEntry) (file : SourceFile) (replies : List Reply) (s s' : Sender)
      → s.replies ≡ replies
      → open_stream env entry file replies s ≡ (ok tt, s')
      → Sent entry file s s'
  unfolding send_file open_stream copy_file close_write read_answer
  open_stream-Sent entry file [] s s' e h = cc
  open_stream-Sent entry file (reply ∷ rest) s s' e h = record {
    reply = reply;
    next = ground (arith, text_eq_iff reply.answer (codes "ok"));
    whole = ground (arith, text_eq_iff reply.answer (codes "ok"));
    accepted = ground (arith, text_eq_iff reply.answer (codes "ok"));
    written = ground (arith, text_eq_iff reply.answer (codes "ok"));
  }

  send_file-Sent :
      (entry : FileEntry) (s s' : Sender)
      → send_file env root entry s ≡ (ok tt, s')
      → (file : SourceFile) × (env.open_source (full_path env root entry) ≡ ok file)
        × Sent entry file s s'
  unfolding send_file
  send_file-Sent entry s s' h = go (env.open_source (full_path env root entry)) refl
    where
      go :
          (o : Result String SourceFile)
          → env.open_source (full_path env root entry) ≡ o
          → (file : SourceFile) × (env.open_source (full_path env root entry) ≡ ok file)
            × Sent entry file s s'
      go (ok file) e =
          (file, e, open_stream-Sent entry file s.replies s s' refl (ground (arith, h, e)))
      go (err text) e = absurd (ground (arith, h, e))
      go panic e = absurd (ground (arith, h, e))

  -- The contents are those of the files that were not completed, each read to its end.
  abbrev pub Contents : Dict Bool → List FileEntry → List (List Bytes) → Type 0
  Contents done [] cs = cs ≡ []
  Contents done (e ∷ es) cs =
      ((skips done e.path ≡ true) × Contents done es cs)
      ⊎ ((skips done e.path ≡ false)
          × (file : SourceFile) × (rest : List (List Bytes)) × (env.open_source
                (full_path env root e)
              ≡ ok file)
          × (file.failure ≡ none)
          × (cs ≡ file.chunks ∷ rest)
          × Contents done es rest)

  -- A run that read these replies, all of them the acknowledgement, and wrote a stream for each file.
  pub record Answered (done : Dict Bool) (files : List FileEntry) (s s' : Sender) : Type 0 where
    pub used : List Reply
    pub contents : List (List Bytes)
    pub consumed : s.replies ≡ used ++ s'.replies
    pub count : length used ≡ length contents
    pub accepted : All (λ r. r.answer ≡ codes "ok") used
    pub written : s'.opened ≡ s.opened ++ contents
    pub complete : Contents done files contents

  one-Answered :
      (done : Dict Bool) (e : FileEntry) (files : List FileEntry) (file : SourceFile)
      (s m s' : Sender)
      → skips done e.path ≡ false
      → env.open_source (full_path env root e) ≡ ok file
      → Sent e file s m
      → Answered done files m s'
      → Answered done (e ∷ files) s s'
  one-Answered done e files file s m s' todo found sent a = record {
    used = sent.reply ∷ a.used;
    contents = file.chunks ∷ a.contents;
    consumed = sent.next ∙ ap (λ l. sent.reply ∷ l) a.consumed;
    count = ap suc a.count;
    accepted = (sent.accepted, a.accepted);
    written =
        a.written
        ∙ ap (λ l. l ++ a.contents) sent.written
        ∙ append_assoc s.opened (file.chunks ∷ []) a.contents;
    complete = inr (todo, file, a.contents, found, sent.whole, refl, a.complete);
  }

  loop-Answered :
      (done : Dict Bool) (files : List FileEntry) (s s' : Sender)
      → send_loop env root done files s ≡ (ok tt, s')
      → Answered done files s s'
  unfolding send_loop
  loop-Answered done [] s s' h = record {
    used = [];
    contents = [];
    consumed = ap (λ o. o.1.replies) h;
    count = refl;
    accepted = tt;
    written = sym (ap (λ o. o.1.opened) h) ∙ sym (append-nil s.opened);
    complete = refl;
  }
  loop-Answered done (e ∷ files) s s' h = elim (Bool-cases (skips done e.path)) [
    | inl skipped ↦
        let a = loop-Answered done files (show_done env e s).1 s' (rw skipped at h) in
        record {
          used = a.used;
          contents = a.contents;
          consumed = a.consumed;
          count = a.count;
          accepted = a.accepted;
          written = a.written;
          complete = inl (skipped, a.complete);
        }
    | inr todo ↦
        let (m, first_run, later) = bind-ok (send_file env root e s) _ s' (rw todo at h) in
        let (file, found, sent) = send_file-Sent e s m first_run in
        one-Answered done e files file s m s' todo found sent (loop-Answered done files m s' later)
  ]

  -- If `SendFiles` succeeds then, whatever the connection does, every file that the receiver did not
  -- report as completed was opened and read to its end, and its contents were written to a stream of
  -- its own, in the order of the manifest; and one answer was read for each, all of them "ok".
  pub send_files-Answered :
      (manifest : Manifest) (resp : ManifestResponse) (s s' : Sender)
      → send_files env manifest resp root s ≡ (ok tt, s')
      → Answered (mark_all [] resp.completed) manifest.files s s'
  unfolding send_files
  send_files-Answered manifest resp s s' h =
      loop-Answered (mark_all [] resp.completed) manifest.files s s' h
