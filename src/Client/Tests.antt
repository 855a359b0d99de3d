-- ===== src/Client/Tests.antt =====
-- Tests of the file transfer with a toy hash and a toy form of the resume state, and the theorems at
-- concrete inputs.
use wani.Base.{
  ℕ, ◌+◌, ◌-◌, ◌==◌, ◌≡◌, refl, ◌⊎◌, ◌≢◌, inl, true, false, String, if◌then◌else◌, List, [], ◌∷◌,
  ◌++◌, append-nil, none, some, arith, Text, codes, text_eq, starts_with, split, join, ok, All,
  lookup, ap,
}
use wani.Protocol.Message.{Bytes, FileEntry, Manifest, ManifestResponse, compression_none}
use wani.Client.Paths.{
  join_path, clean, elements, clean_parts, clean_step, up, is_rooted, show_parts,
}
use wani.Client.Transfer.Receive.{
  load_resume_state, skips, Env, Incoming, Receiver, application, receive_files, receive_loop,
  receive_file, receive_stream, resume_state_path,
}
use wani.Client.Transfer.Verified.{
  Separate, IsVerified, resume_path, target, receive_files-IsVerified,
}
use wani.Client.Transfer.Send.{
  SourceEnv, Sender, mark_all, full_path, send_files, send_loop, send_file, open_stream, copy_file,
  close_write, read_answer,
}
use wani.Client.Transfer.Answered.{Answered, send_files-Answered}
use wani.Client.Transfer.Streams.{IsReadable, IsDelivered}
use wani.Client.Transfer.Delivery.{fresh_sender, fresh_receiver, transfer_lem}
use wani.Client.Transfer.Resuming.{Recorded, resume_lem}

-- The texts in a row, each behind a zero, with its code points moved up by one.
unfoldable pub text_body : Text → Bytes → Bytes
text_body [] rest = rest
text_body (c ∷ cs) rest = (c + 1) ∷ text_body cs rest

unfoldable pub encode : List Text → Bytes
encode [] = []
encode (t ∷ ts) = 0 ∷ text_body t (encode ts)

unfoldable pub decode_byte : ℕ → Text × List Text → Text × List Text
decode_byte b (t, ts) = if b == 0 then ([], t ∷ ts) else ((b - 1) ∷ t, ts)

unfoldable pub decode : Bytes → Text × List Text
decode [] = ([], [])
decode (b ∷ bs) = decode_byte b (decode bs)

decode-text_body :
    (t : Text) (rest : Bytes) → decode (text_body t rest) ≡ (t ++ (decode rest).0, (decode rest).1)
unfolding text_body decode decode_byte
decode-text_body [] rest = refl
decode-text_body (c ∷ cs) rest = rw (decode-text_body cs rest) (ground arith)

pub decode-encode : (ts : List Text) → decode (encode ts) ≡ ([], ts)
unfolding encode decode decode_byte
decode-encode [] = refl
decode-encode (t ∷ ts) = rw (decode-text_body t (encode ts), decode-encode ts, append-nil) refl

abbrev pub toy : Env
toy = record {
  hash = λ b. elim b [ [] ↦ 0 | c ∷ _ ↦ c ];
  marshal = encode;
  unmarshal = λ b. some (decode b).1;
  create_error = λ fs p. none;
  save_error = λ fs p. none;
  closed = application 0;
  error_text = λ e. codes "closed";
}

abbrev pub toy-roundtrip :
    (completed : List Text) → toy.unmarshal (toy.marshal completed) ≡ some completed
toy-roundtrip completed = ap (λ d. some d.1) (decode-encode completed)

abbrev file : String → ℕ → FileEntry
file path digest = record {
  path = codes path;
  size = 2;
  xx_hash = digest;
  compression = compression_none;
}

abbrev pub two_files : Manifest
two_files = record { files = file "a" 5 ∷ file "bc" 7 ∷ []; root_name = codes "r" }

abbrev pub good : ℕ → Incoming
good c = record { chunks = (c ∷ []) ∷ (1 ∷ []) ∷ []; failure = none; ack_failure = none }

abbrev dest : Text
dest = codes "d"

abbrev receiver : List Incoming → Receiver
receiver streams = record { fs = []; streams = streams; acks = []; shown = [] }

resume_path_test : resume_path toy dest ≡ codes "d/.wani-resume.json"
unfolding join_path resume_state_path clean elements clean_parts clean_step up is_rooted show_parts
    text_eq starts_with split join
resume_path_test = refl

target_tests :
    (target toy dest (file "a" 5) ≡ codes "d/a") × (target toy dest (file "bc" 7) ≡ codes "d/bc")
unfolding join_path clean elements clean_parts clean_step up is_rooted show_parts text_eq
    starts_with split join
target_tests = (refl, refl)

two_files-Separate : Separate toy dest two_files.files
two_files-Separate = (
  rw (resume_path_test, target_tests.0) (λ h. cc),
  (
    (rw (target_tests.0, target_tests.1) (λ h. cc), tt),
    (rw (resume_path_test, target_tests.1) (λ h. cc), (tt, tt)),
  ),
)

abbrev after : Receiver
after = (receive_files toy two_files [] dest (receiver (good 5 ∷ good 7 ∷ []))).1

receive_files_runs :
    receive_files toy two_files [] dest (receiver (good 5 ∷ good 7 ∷ [])) ≡ (ok tt, after)
unfolding receive_files receive_loop receive_file receive_stream lookup
receive_files_runs = refl

receive_files-IsVerified_example :
    All (λ e. (false ≡ true) ⊎ IsVerified toy dest after.fs e) two_files.files
    × (lookup (resume_path toy dest) after.fs ≡ none)
unfolding lookup
receive_files-IsVerified_example =
    receive_files-IsVerified toy dest two_files [] (receiver (good 5 ∷ good 7 ∷ [])) after
      receive_files_runs two_files-Separate

abbrev broken : Receiver
broken = receiver (good 5 ∷ good 6 ∷ [])

-- Each file is two chunks, the first its digest.
abbrev content : FileEntry → List Bytes
content e = (e.xx_hash ∷ []) ∷ (1 ∷ []) ∷ []

abbrev pub tree : SourceEnv
tree = record {
  is_file = λ p. false;
  open_source = λ p. ok (record {
    chunks = if text_eq p (codes "r/a") then content (file "a" 5) else content (file "bc" 7);
    failure = none;
  });
  closed = application 0;
}

abbrev resp_ready : ManifestResponse
resp_ready = record { status = "ready"; completed = [] }

tree-IsReadable : All (IsReadable content tree (codes "r")) two_files.files
unfolding full_path join_path clean elements clean_parts clean_step up is_rooted show_parts text_eq
    starts_with split join
tree-IsReadable = (refl, (refl, tt))

transfer_lem_example :
    (streams : List (List Bytes)) × (acks : List Text) × (s : Sender) × (r : Receiver) × (send_files
        tree two_files resp_ready
        (codes "r")
        (fresh_sender acks)
      ≡ (ok tt, s))
    × (receive_files toy two_files (mark_all [] []) dest (fresh_receiver [] streams) ≡ (ok tt, r))
    × (s.opened ≡ streams)
    × (r.acks ≡ acks)
    × All
        (λ e. (skips (mark_all [] []) e.path ≡ true) ⊎ IsDelivered content toy dest r.fs e)
        two_files.files
transfer_lem_example =
    transfer_lem tree toy (codes "r") dest content two_files resp_ready [] (λ fs p. refl)
      two_files-Separate (refl, (refl, tt)) tree-IsReadable

nothing-Recorded : Recorded toy dest [] two_files.files
unfolding load_resume_state lookup mark_all
nothing-Recorded = (inl refl, (inl refl, tt))

resume_lem_example :
    let (res, r') =
      receive_files toy two_files (mark_all [] (load_resume_state toy dest [])) dest broken in
    ((res ≡ ok tt) × All (IsVerified toy dest r'.fs) two_files.files)
    ⊎ ((res ≢ ok tt) × Recorded toy dest r'.fs two_files.files)
resume_lem_example =
    resume_lem toy dest toy-roundtrip (λ fs p. refl) two_files broken two_files-Separate
      nothing-Recorded

-- A path of the manifest that leads out of the destination.
escape_test : join_path (codes "d") (codes "../x") ≡ codes "x"
unfolding join_path clean elements clean_parts clean_step up is_rooted show_parts text_eq
    starts_with split join
escape_test = refl

abbrev sent : Sender
sent =
    (send_files tree two_files resp_ready (codes "r")
      (fresh_sender (codes "ok" ∷ codes "ok" ∷ []))).1

send_files_runs :
    send_files tree two_files resp_ready (codes "r") (fresh_sender (codes "ok" ∷ codes "ok" ∷ []))
    ≡ (ok tt, sent)
unfolding send_files send_loop send_file open_stream copy_file close_write read_answer mark_all
    lookup text_eq full_path
send_files_runs = refl

send_files-Answered_example :
    Answered tree
      (codes "r")
      (mark_all [] [])
      two_files.files
      (fresh_sender (codes "ok" ∷ codes "ok" ∷ []))
      sent
send_files-Answered_example =
    send_files-Answered tree (codes "r") two_files resp_ready
      (fresh_sender (codes "ok" ∷ codes "ok" ∷ [])) sent send_files_runs
