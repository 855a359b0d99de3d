-- ===== src/Cmd/Progress/Bounds.antt =====
-- cmd/wani-client/main.go: how far the progress counter gets in `SendFiles` and `ReceiveFiles`.
use wani.Base.{
  ◌+◌, ◌≤◌, ◌≡◌, refl, sym, inl, inr, Bool, Bool-cases, Option-cases, List, [], ◌∷◌, ◌++◌,
  append-nil, none, String, Text, Dict, insert, Result, ok, err, panic, length, arith,
}
use wani.Protocol.Message.{Bytes, FileEntry, Manifest}
use wani.Client.Paths.{join_path}
use wani.Client.Transfer.Receive.{
  reads, skips, Env, Incoming, Receiver, receive_stream, accept, receive_file, receive_loop,
  receive_files, check_copy, acknowledge, delete_resume_state, show_skipped, concat,
}
use wani.Client.Transfer.Send.{
  SourceEnv, SourceFile, full_path, show_done, Reply, Sender, first, mark_all, read_answer,
  close_write, copy_file, open_stream, send_file, send_loop, send_files,
}
use wani.Cmd.Progress.{Counter, counter_from, progress_all}
use wani.Cmd.Progress.Counting.{
  bind-count, skipped-count, extended, reads-Of, first-Of, pending, Extends,
}

module _ (done : Dict Bool) where
  module _ (env : SourceEnv) where
    close_write-shown : (reply : Reply) (s : Sender) → (close_write env reply s).1.shown ≡ s.shown
    unfolding close_write read_answer
    close_write-shown reply s = ground arith

    copy_file-shown :
        (e : FileEntry) (file : SourceFile) (reply : Reply) (s : Sender)
        → Extends done e.path s.shown (copy_file env e file reply s).1.shown
    unfolding copy_file
    copy_file-shown e file reply s = elim (Option-cases reply.copy_failure) [
      | inl h ↦ rw h (
        reads e 0 file.chunks,
        ground (
          arith,
          close_write-shown (record reply { copy_failure = none })
              (record s {
                opened = s.opened ++ file.chunks ∷ [];
                shown = s.shown ++ reads e 0 file.chunks;
              }),
        ),
        reads-Of done e 0 file.chunks,
      )
      | inr (b, h) ↦ rw h (
        first (b.writes + 1) (reads e 0 file.chunks),
        refl,
        first-Of done e.path (b.writes + 1) (reads e 0 file.chunks) (reads-Of done e 0 file.chunks),
      )
    ]

    open_stream-shown :
        (e : FileEntry) (file : SourceFile) (replies : List Reply) (s : Sender)
        → Extends done e.path s.shown (open_stream env e file replies s).1.shown
    unfolding open_stream
    open_stream-shown e file [] s = ([], sym (append-nil s.shown), tt)
    open_stream-shown e file (reply ∷ rest) s = elim (Option-cases reply.open_failure) [
      | inl h ↦ rw h (
          copy_file-shown e file (record reply { open_failure = none })
            (record s { replies = rest }))
      | inr (x, h) ↦ rw h ([], sym (append-nil s.shown), tt)
    ]

    send_file-shown :
        (root : Text) (e : FileEntry) (s : Sender)
        → Extends done e.path s.shown (send_file env root e s).1.shown
    unfolding send_file
    send_file-shown root e s = go (env.open_source (full_path env root e)) refl
      where
        go :
            (r : Result String SourceFile)
            → env.open_source (full_path env root e) ≡ r
            → Extends done e.path s.shown (send_file env root e s).1.shown
        go (ok file) h = rw (h, send_file) (open_stream-shown e file s.replies s)
        go (err x) h = rw (h, send_file) ([], sym (append-nil s.shown), tt)
        go panic h = rw (h, send_file) ([], sym (append-nil s.shown), tt)

    -- The counter after the loop, from any point on.
    pub send_loop-count :
        (root : Text) (files : List FileEntry) (s : Sender) (c : Counter)
        → (progress_all done (send_loop env root done files s).1.shown c).idx
          ≤ (progress_all done s.shown c).idx + pending done files
    unfolding send_loop
    send_loop-count root [] s c = omega arith
    send_loop-count root (e ∷ files) s c =
        let now = (progress_all done s.shown c).idx in
        let later = λ (q : Sender). send_loop-count root files q c in
        elim (Bool-cases (skips done e.path)) [
          | inl h ↦ rw h (
              bind-count done (λ q. q.shown) now (pending done files) (show_done env e s)
                (send_loop env root done files) c (skipped-count done e s.shown c h) later)
          | inr h ↦ rw h (
              omega (
                arith,
                bind-count done (λ q. q.shown) (now + 1) (pending done files)
                    (send_file env root e s) (send_loop env root done files) c
                    (extended done e.path s.shown (send_file env root e s).1.shown c
                      (send_file-shown root e s))
                    later,
              ))
        ]

  module _ (env : Env) (dest : Text) where
    check_copy-shown :
        (e : FileEntry) (i : Incoming) (r : Receiver)
        → (check_copy env dest e i r).1.shown ≡ r.shown
    unfolding check_copy acknowledge
    check_copy-shown e i r = ground arith

    receive_stream-shown :
        (e : FileEntry) (i : Incoming) (r : Receiver)
        → Extends done e.path r.shown (receive_stream env dest e i r).1.shown
    unfolding receive_stream
    receive_stream-shown e i r =
        elim (Option-cases (env.create_error r.fs (join_path dest e.path))) [
          | inl h ↦ (
            reads e 0 i.chunks,
            ground (
              arith,
              h,
              check_copy-shown e i (record r {
                fs = insert (join_path dest e.path) (concat i.chunks) r.fs;
                shown = r.shown ++ reads e 0 i.chunks;
              }),
            ),
            reads-Of done e 0 i.chunks,
          )
          | inr (text, h) ↦ ([], ground (arith, h, append-nil r.shown), tt)
        ]

    accept-shown :
        (e : FileEntry) (streams : List Incoming) (r : Receiver)
        → Extends done e.path r.shown (accept env dest e streams r).1.shown
    unfolding accept
    accept-shown e [] r = ([], sym (append-nil r.shown), tt)
    accept-shown e (i ∷ rest) r = receive_stream-shown e i (record r { streams = rest })

    pub receive_loop-count :
        (files : List FileEntry) (r : Receiver) (c : Counter)
        → (progress_all done (receive_loop env dest done files r).1.shown c).idx
          ≤ (progress_all done r.shown c).idx + pending done files
    unfolding receive_loop receive_file
    receive_loop-count [] r c = omega arith
    receive_loop-count (e ∷ files) r c =
        let now = (progress_all done r.shown c).idx in
        let later = λ (q : Receiver). receive_loop-count files q c in
        elim (Bool-cases (skips done e.path)) [
          | inl h ↦ rw h (
              bind-count done (λ q. q.shown) now (pending done files) (show_skipped env e r)
                (receive_loop env dest done files) c (skipped-count done e r.shown c h) later)
          | inr h ↦ rw h (
              omega (
                arith,
                bind-count done (λ q. q.shown) (now + 1) (pending done files)
                    (receive_file env dest e r) (receive_loop env dest done files) c
                    (extended done e.path r.shown (accept env dest e r.streams r).1.shown c
                      (accept-shown e r.streams r))
                    later,
              ))
        ]

-- The number that the progress counter of either command has reached when its transfer ends, well or
-- not, is at most the number from which it starts and the files that were not completed before:
-- the sender starts from the length of the list of completed paths, the receiver from the number of
-- different ones.
pub progress_bound :
    (source : SourceEnv) (env : Env) (root dest : Text) (manifest : Manifest)
    (completed : List Text) (status : String) (replies : List Reply) (streams : List Incoming)
    (fs : Dict Bytes)
    → let done = mark_all [] completed in
      let s =
        (send_files source manifest
          (record { status = status; completed = completed })
          root
          (record { opened = []; replies = replies; shown = [] })).1 in
      let r =
        (receive_files env manifest done dest
          (record { fs = fs; streams = streams; acks = []; shown = [] })).1 in
      ((progress_all done s.shown (counter_from (length completed))).idx
        ≤ length completed + pending done manifest.files)
      × ((progress_all done r.shown (counter_from (length done))).idx
          ≤ length done + pending done manifest.files)
unfolding send_files receive_files progress_all
progress_bound source env root dest manifest completed status replies streams fs =
    let done = mark_all [] completed in
    let begins : Receiver = record { fs = fs; streams = streams; acks = []; shown = [] } in
    (
      send_loop-count done source root manifest.files
          (record { opened = []; replies = replies; shown = [] }) (counter_from (length completed)),
      omega (
        arith,
        bind-count done (λ q. q.shown) (length done + pending done manifest.files) 0
            (receive_loop env dest done manifest.files begins)
            (λ q. (ok tt, record q { fs = delete_resume_state env dest q.fs }))
            (counter_from (length done))
            (receive_loop-count done env dest manifest.files begins (counter_from (length done)))
            (λ q. omega arith),
      ),
    )
