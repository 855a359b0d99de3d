-- ===== src/Client/Transfer/Receive.antt =====
-- internal/client/transfer.go, the receiver: the resume state, `ReceiveFiles` and `receiveFile`.
-- The file system is a dictionary from paths to contents. What arrives on a stream of the
-- connection (github.com/quic-go/quic-go) is an `Incoming`. The hash (github.com/cespare/xxhash),
-- the JSON of the resume state and the failures of the operating system are parameters.
-- `progress` is never nil, as in the commands: its calls are logged in `shown`.
use wani.Base.{
  ℕ, ◌+◌, Bool, false, List, [], ◌∷◌, ◌++◌, Option, none, some, String, Text, codes, Dict, lookup,
  insert, erase, ok, err, length, ◌==◌, if◌then◌else◌,
}
use wani.Base.State.{State, bind}
use wani.Protocol.Message.{Bytes, FileEntry, Manifest}
use wani.Client.Paths.{join_path}

-- The errors of a QUIC connection that the program tells apart.
pub data QuicError : Type 0 where
  application : ℕ → QuicError
  idle_timeout : QuicError
  other : String → QuicError

pub data TransferError : Type 0 where
  accept_failed : QuicError → TransferError
  create_failed : String → TransferError
  copy_failed : QuicError → TransferError
  hash_mismatch : Text → TransferError
  ack_failed : QuicError → TransferError

-- One stream that the peer opens: what each read returns and is written to the file, how the copy
-- ends (`none` is the end of the stream), and whether a write to the stream fails.
pub record Incoming : Type 0 where
  pub chunks : List Bytes
  pub failure : Option QuicError
  pub ack_failure : Option QuicError

pub record Progress : Type 0 where
  pub path : Text
  pub written : ℕ
  pub total : ℕ

pub record Receiver : Type 0 where
  pub fs : Dict Bytes
  pub streams : List Incoming
  pub acks : List Text
  pub shown : List Progress

pub record Env : Type 0 where
  pub hash : Bytes → ℕ
  pub marshal : List Text → Bytes
  pub unmarshal : Bytes → Option (List Text)
  pub create_error : Dict Bytes → Text → Option String
  pub save_error : Dict Bytes → Text → Option String
  pub closed : QuicError
  pub error_text : QuicError → Text

abbrev pub M : Type 0 → Type 0
M A = State Receiver TransferError A

abbrev pub concat : List Bytes → Bytes
concat [] = []
concat (b ∷ bs) = b ++ concat bs

-- `progressReader`: a call after each read, also the one that ends the copy, with the running total.
unfoldable pub reads : FileEntry → ℕ → List Bytes → List Progress
reads entry n [] = record { path = entry.path; written = n; total = entry.size } ∷ []
reads entry n (b ∷ bs) =
    record { path = entry.path; written = n + length b; total = entry.size }
    ∷ reads entry (n + length b) bs

-- `skip[path]`, where a missing key reads as false.
abbrev pub skips : Dict Bool → Text → Bool
skips skip path = elim (lookup path skip) [ none ↦ false | some marked ↦ marked ]

unfoldable pub resume_state_path : Text → Text
resume_state_path dest = join_path dest (codes ".wani-resume.json")

module _ (env : Env) where
  unfoldable pub or_nothing : Option Bytes → List Text
  or_nothing none = []
  or_nothing (some text) = elim (env.unmarshal text) [ none ↦ [] | some completed ↦ completed ]

  unfoldable pub load_resume_state : Text → Dict Bytes → List Text
  unfolding or_nothing
  load_resume_state dest fs = or_nothing (lookup (resume_state_path dest) fs)

  -- A failed write is ignored by the caller; it is taken to leave the file as it was.
  unfoldable pub save_resume_state : Text → List Text → Dict Bytes → Dict Bytes
  save_resume_state dest completed fs = elim (env.save_error fs (resume_state_path dest)) [
    | none ↦ insert (resume_state_path dest) (env.marshal completed) fs
    | some text ↦ fs
  ]

  unfoldable pub delete_resume_state : Text → Dict Bytes → Dict Bytes
  delete_resume_state dest fs = erase (resume_state_path dest) fs

  -- A best-effort write to the stream.
  abbrev pub say : Incoming → Text → Receiver → Receiver
  say s text r = elim s.ack_failure [ none ↦ record r { acks = r.acks ++ text ∷ [] } | some e ↦ r ]

  -- The end of `receiveFile`, once the digest agrees.
  unfoldable pub acknowledge : Text → FileEntry → Incoming → M (Unit {0})
  acknowledge dest entry s r = elim s.ack_failure [
    | some e ↦ (err (ack_failed e), r)
    | none ↦ (
      ok tt,
      record r {
        acks = r.acks ++ codes "ok" ∷ [];
        fs = save_resume_state dest (load_resume_state dest r.fs ++ entry.path ∷ []) r.fs;
      },
    )
  ]

  unfoldable pub check_copy : Text → FileEntry → Incoming → M (Unit {0})
  check_copy dest entry s r = elim s.failure [
    | some e ↦ (err (copy_failed e), say s (codes "copy failed: " ++ env.error_text e) r)
    | none ↦
        if env.hash (concat s.chunks) == entry.xx_hash
        then acknowledge dest entry s r
        else (err (hash_mismatch entry.path), say s (codes "xxHash mismatch for " ++ entry.path) r)
  ]

  -- `receiveFile` behind `AcceptStream`. What was copied stays in the file also if the copy fails.
  unfoldable pub receive_stream : Text → FileEntry → Incoming → M (Unit {0})
  unfolding check_copy acknowledge
  receive_stream dest entry s r =
      let p = join_path dest entry.path in
      elim (env.create_error r.fs p) [
        | some text ↦ (err (create_failed text), say s (codes "create failed: " ++ codes text) r)
        | none ↦ check_copy dest entry s (record r {
          fs = insert p (concat s.chunks) r.fs;
          shown = r.shown ++ reads entry 0 s.chunks;
        })
      ]

  unfoldable pub accept : Text → FileEntry → List Incoming → M (Unit {0})
  accept dest entry [] r = (err (accept_failed env.closed), r)
  accept dest entry (s ∷ rest) r = receive_stream dest entry s (record r { streams = rest })

  unfoldable pub receive_file : Text → FileEntry → M (Unit {0})
  unfolding accept
  receive_file dest entry r = accept dest entry r.streams r

  -- `progress(entry.Path, entry.Size, entry.Size)` for a file that is skipped.
  abbrev pub show_skipped : FileEntry → M (Unit {0})
  show_skipped entry r = (
    ok tt,
    record r {
      shown =
          r.shown ++ record { path = entry.path; written = entry.size; total = entry.size } ∷ [];
    },
  )

  -- The loop of `ReceiveFiles`.
  unfoldable pub receive_loop : Text → Dict Bool → List FileEntry → M (Unit {0})
  receive_loop dest skip [] r = (ok tt, r)
  receive_loop dest skip (entry ∷ files) r =
      let rest = λ (_ : Unit {0}) (q : Receiver). receive_loop dest skip files q in
      if skips skip entry.path
      then bind (show_skipped entry r) rest
      else bind (receive_file dest entry r) rest

  unfoldable pub receive_files : Manifest → Dict Bool → Text → M (Unit {0})
  receive_files manifest skip dest r =
      bind (receive_loop dest skip manifest.files r)
        λ _ q. (ok tt, record q { fs = delete_resume_state dest q.fs })
