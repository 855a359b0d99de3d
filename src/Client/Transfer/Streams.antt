-- ===== src/Client/Transfer/Streams.antt =====
-- internal/client/transfer.go: what `SendFiles` writes on a connection without failures.
use wani.Base.{
  ◌≡◌, refl, inl, inr, Bool, List, [], ◌∷◌, ◌++◌, append_assoc, append-nil, map, none, some, arith,
  Text, codes, text_eq_self, Dict, lookup, ok, if◌then◌else◌, All, Bool-cases,
}
use wani.Protocol.Message.{Bytes, FileEntry}
use wani.Client.Transfer.Receive.{Incoming, Progress, concat, reads, skips}
use wani.Client.Transfer.Receive.{Env}
use wani.Client.Transfer.Send.{
  SourceEnv, Reply, Sender, full_path, read_answer, close_write, copy_file, open_stream, send_file,
  show_done, send_loop,
}
use wani.Client.Transfer.Verified.{target}

-- What reaches the receiver of a stream on which nothing fails, and what the sender reads of the
-- answer.
abbrev pub arriving : List Bytes → Incoming
arriving chunks = record { chunks = chunks; failure = none; ack_failure = none }

abbrev pub answered : Text → Reply
answered text = record {
  open_failure = none;
  copy_failure = none;
  close_failure = none;
  answer = text;
  answer_failure = none;
}

module _ (chunks : FileEntry → List Bytes) where
  -- A file of the manifest can be read.
  abbrev pub IsReadable : SourceEnv → Text → FileEntry → Type 0
  IsReadable env root e =
      env.open_source (full_path env root e) ≡ ok (record { chunks = chunks e; failure = none })

  -- A file is in place, as it was read by the sender.
  abbrev pub IsDelivered : Env → Text → Dict Bytes → FileEntry → Type 0
  IsDelivered env dest fs e = lookup (target env dest e) fs ≡ some (concat (chunks e))

module _ (chunks : FileEntry → List Bytes) (done : Dict Bool) where
  -- The files that are not completed, as the chunks of each.
  unfoldable pub outgoing : List FileEntry → List (List Bytes)
  outgoing [] = []
  outgoing (e ∷ es) = if skips done e.path then outgoing es else chunks e ∷ outgoing es

  -- The answers to them.
  unfoldable pub answers : List FileEntry → List Text
  answers [] = []
  answers (e ∷ es) = if skips done e.path then answers es else codes "ok" ∷ answers es

  module _ (env : SourceEnv) (root : Text) where
    send_file-ok :
        (e : FileEntry) (replies : List Reply) (s : Sender)
        → IsReadable chunks env root e
        → send_file env root e (record s { replies = answered (codes "ok") ∷ replies }) ≡ (
          ok tt,
          record {
            opened = s.opened ++ chunks e ∷ [];
            replies = replies;
            shown = s.shown ++ reads e 0 (chunks e);
          },
        )
    unfolding send_file open_stream copy_file close_write read_answer
    send_file-ok e replies s readable = ground (arith, readable, text_eq_self (codes "ok"))

    pub send_loop-ok :
        (files : List FileEntry) (s : Sender)
        → All (IsReadable chunks env root) files
        → (shown : List Progress) × (send_loop env root done files
              (record s { replies = map answered (answers files) })
            ≡ (ok tt, record { opened = s.opened ++ outgoing files; replies = []; shown = shown }))
    unfolding send_loop outgoing answers
    send_loop-ok [] s readable = (s.shown, rw append-nil refl)
    send_loop-ok (e ∷ files) s readable = elim (Bool-cases (skips done e.path)) [
      | inl skip ↦
          let (shown, run) = send_loop-ok files (show_done env e s).1 readable.1 in
          (shown, rw skip run)
      | inr todo ↦
          let q : Sender = record {
            opened = s.opened ++ chunks e ∷ [];
            replies = [];
            shown = s.shown ++ reads e 0 (chunks e);
          } in
          let (shown, run) = send_loop-ok files q readable.1 in
          (
            shown,
            rw (todo, send_file-ok e (map answered (answers files)) s readable.0, run, append_assoc)
                refl,
          )
    ]
