-- ===== src/Client/Transfer/Send.antt =====
-- internal/client/transfer.go, the sender: `SendFiles` and `sendFile`.
-- Opening and reading a file is a parameter. What happens to each stream that the sender opens on
-- the connection (github.com/quic-go/quic-go), up to the receiver's answer, is a `Reply`.
use wani.Base.{
  ℕ, zero, suc, ◌+◌, Bool, true, List, [], ◌∷◌, ◌++◌, Option, none, some, String, Text, codes,
  text_eq, Dict, insert, Result, ok, err, panic, if◌then◌else◌,
}
use wani.Base.State.{State, bind}
use wani.Protocol.Message.{Bytes, FileEntry, Manifest, ManifestResponse}
use wani.Client.Paths.{join_path}
use wani.Client.Transfer.Receive.{QuicError, Progress, reads, skips}

-- An open file: what each read returns, and how the reads end (`none` is the end of the file).
pub record SourceFile : Type 0 where
  pub chunks : List Bytes
  pub failure : Option String

-- How a copy to a stream breaks off: the writes that succeeded before, and the error.
pub record Broken : Type 0 where
  pub writes : ℕ
  pub cause : QuicError

-- One stream: whether it can be opened, whether a write or the closing fails, and what `ReadAll`
-- then returns.
pub record Reply : Type 0 where
  pub open_failure : Option QuicError
  pub copy_failure : Option Broken
  pub close_failure : Option QuicError
  pub answer : Text
  pub answer_failure : Option QuicError

pub data SendError : Type 0 where
  open_failed : String → SendError
  stream_failed : QuicError → SendError
  read_failed : String → SendError
  write_failed : QuicError → SendError
  close_failed : QuicError → SendError
  answer_failed : QuicError → SendError
  receiver_error : Text → SendError

-- `opened` holds what was written to each stream.
pub record Sender : Type 0 where
  pub opened : List (List Bytes)
  pub replies : List Reply
  pub shown : List Progress

-- `is_file p`: `os.Stat(p)` succeeds and finds no directory.
pub record SourceEnv : Type 0 where
  pub is_file : Text → Bool
  pub open_source : Text → Result String SourceFile
  pub closed : QuicError

abbrev pub SendM : Type 0 → Type 0
SendM A = State Sender SendError A

abbrev pub first {ℓ} : {A : Type ℓ} → ℕ → List A → List A
first zero xs = []
first (suc n) [] = []
first (suc n) (x ∷ xs) = x ∷ first n xs

-- `done`, the set of the completed paths.
unfoldable pub mark_all : Dict Bool → List Text → Dict Bool
mark_all done [] = done
mark_all done (p ∷ ps) = mark_all (insert p true done) ps

module _ (env : SourceEnv) where
  unfoldable pub full_path : Text → FileEntry → Text
  full_path root entry = if env.is_file root then root else join_path root entry.path

  -- `sendFile` from the copy on, on a stream that is open.
  unfoldable pub read_answer : Reply → SendM (Unit {0})
  read_answer reply s = elim reply.answer_failure [
    | some e ↦ (err (answer_failed e), s)
    | none ↦
        if text_eq reply.answer (codes "ok")
        then (ok tt, s)
        else (err (receiver_error reply.answer), s)
  ]

  unfoldable pub close_write : Reply → SendM (Unit {0})
  unfolding read_answer
  close_write reply s = elim reply.close_failure [
    | some e ↦ (err (close_failed e), s)
    | none ↦ read_answer reply s
  ]

  unfoldable pub copy_file : FileEntry → SourceFile → Reply → SendM (Unit {0})
  unfolding close_write
  copy_file entry file reply s = elim reply.copy_failure [
    | some b ↦ (
      err (write_failed b.cause),
      record s {
        opened = s.opened ++ first b.writes file.chunks ∷ [];
        shown = s.shown ++ first (b.writes + 1) (reads entry 0 file.chunks);
      },
    )
    | none ↦
        let q = record s {
          opened = s.opened ++ file.chunks ∷ [];
          shown = s.shown ++ reads entry 0 file.chunks;
        } in
        elim file.failure [ some text ↦ (err (read_failed text), q) | none ↦ close_write reply q ]
  ]

  -- `OpenStreamSync`; without a further reply the connection is closed.
  unfoldable pub open_stream : FileEntry → SourceFile → List Reply → SendM (Unit {0})
  unfolding copy_file
  open_stream entry file [] s = (err (stream_failed env.closed), s)
  open_stream entry file (reply ∷ rest) s = elim reply.open_failure [
    | some e ↦ (err (stream_failed e), record s { replies = rest })
    | none ↦ copy_file entry file reply (record s { replies = rest })
  ]

  unfoldable pub send_file : Text → FileEntry → SendM (Unit {0})
  unfolding open_stream
  send_file root entry s = elim (env.open_source (full_path root entry)) [
    | ok file ↦ open_stream entry file s.replies s
    | err text ↦ (err (open_failed text), s)
    | panic ↦ (panic, s)
  ]

  abbrev pub show_done : FileEntry → SendM (Unit {0})
  show_done entry s = (
    ok tt,
    record s {
      shown =
          s.shown ++ record { path = entry.path; written = entry.size; total = entry.size } ∷ [];
    },
  )

  -- The loop of `SendFiles`.
  unfoldable pub send_loop : Text → Dict Bool → List FileEntry → SendM (Unit {0})
  send_loop root done [] s = (ok tt, s)
  send_loop root done (entry ∷ files) s =
      let rest = λ (_ : Unit {0}) (q : Sender). send_loop root done files q in
      if skips done entry.path
      then bind (show_done entry s) rest
      else bind (send_file root entry s) rest

  unfoldable pub send_files : Manifest → ManifestResponse → Text → SendM (Unit {0})
  unfolding send_loop mark_all
  send_files manifest resp root = send_loop root (mark_all [] resp.completed) manifest.files
