-- ===== src/Cmd/Session/Complete.antt =====
-- cmd/wani-client/main.go: the session in which nothing fails.
use wani.Base.{
  inl, inr, All-append, ◌≡◌, refl, sym, ap, ◌∙◌, ◌≢◌, false, List, [], ◌∷◌, map, none, some, String,
  Option, Text, Dict, lookup, ok, All, ok-injective,
}
use wani.Protocol.Message.{Bytes, Manifest, ManifestResponse, of_type, msg_session_ready}
use wani.Identity.{Spake}
use wani.Client.Signaling.{IceCredentials, pong_label, Env as SignalingEnv}
use wani.Client.Signaling.Handshake.{Honest, relay}
use wani.Cmd.Pairing.Agreement.{pairing_dialogue}
use wani.Client.Ice.Exchange.{offered, candidate_message, ice_dialogue}
use wani.Server.Handlers.Channel.{IsPlainRelay}
use wani.Client.Quic.Agreement.{quic_agreement}
use wani.Client.Paths.{base_name, join_path, dir_path}
use wani.Client.Paths.Elements.{IsPlain}
use wani.Client.Paths.Join.{join_path-ne_nil}
use wani.Client.Manifest.{Entries, dir, build_manifest}
use wani.Client.Manifest.Walk.{files_in, AreGood, build_manifest_lem}
use wani.Client.Manifest.Names.{AreUnique}
use wani.Client.Offer.{Json, Desk, effective_dir}
use wani.Client.Offer.Exchange.{offer_agreement, effective_dir-named}
use wani.Client.Transfer.Receive.{resume_state_path, load_resume_state, or_nothing, Env as DiskEnv}
use wani.Client.Transfer.Send.{SourceEnv, mark_all}
use wani.Client.Whole.{IsFound, resume_name, directory_lem}
use wani.Cmd.Send.Stages.{run_send_complete}
use wani.Cmd.Receive.Stages.{run_receive_complete}
use wani.Cmd.Session.Signals.{create_session-ok}
use wani.Cmd.Session.{
  Completed, Side, IsSound, created, starts_sending, starts_receiving, sender_side, receiver_side,
}
use wani.Cmd.Session.Stages.{to_sender, to_receiver, sender_round, receiver_run}

or_nothing-none :
    (disk : DiskEnv) (at dest : Text) (fs : Dict Bytes)
    → at ≡ dest
    → lookup (resume_state_path dest) fs ≡ none
    → load_resume_state disk at fs ≡ []
unfolding load_resume_state or_nothing
or_nothing-none disk at dest fs e h = rw (e, h) refl

candidates-IsPlainRelay : (cs : List Bytes) → All IsPlainRelay (map candidate_message cs)
candidates-IsPlainRelay [] = tt
candidates-IsPlainRelay (c ∷ cs) = ((inr (inl refl), refl), candidates-IsPlainRelay cs)

offered-IsPlainRelay :
    (env : SignalingEnv) (creds : IceCredentials) (cs : List Bytes)
    → All IsPlainRelay (offered env creds cs)
offered-IsPlainRelay env creds cs = (
  (inr (inr refl), refl),
  All-append IsPlainRelay (map candidate_message cs) _ (candidates-IsPlainRelay cs)
      ((inr (inl refl), refl), tt),
)

-- There is a session in which the two commands succeed: there are messages for each, over the
-- signaling server behind the server's own messages and over QUIC, such that both return without an
-- error, the sender, given a directory, and the receiver, run with the code that the server tells the
-- sender; they are all that the other command writes when it is given its own; and the receiver ends
-- with every regular file of the directory in place, byte for byte, below its destination and the
-- name of the directory. Over the server these are the messages that the two come to write to each
-- other when both pair, and then those of their exchange of candidates, each of the two starting
-- with nothing to read and each side given what the other has written so far. Of QUIC no order is shown. Both sides have one HMAC and one form of the credentials, and one honest run of the SPAKE2 library is given;
-- nothing fails on either side, on disk or on the wire; JSON gives back what was encoded; the code
-- and both paths are not empty; the name of the directory and those in it are plain, and names in
-- one directory differ; no file has the place of the resume state, and none is there.
pub session_lem :
    {Conn : Type 0} (sp : Spake) (here there : Side Conn) (json : Json) (disk : DiskEnv)
    (source : SourceEnv) (mkdir_error : List Text → Text → Option String) (es : Entries)
    (code root out_dir : Text) (fs : Dict Bytes) (dialled accepted : Conn)
    → (h : Honest sp code) → code ≢ []
    → IsSound here there
    → IsSound there here
    → there.signaling.hmac ≡ here.signaling.hmac
    → there.signaling.marshal ≡ here.signaling.marshal
    → here.quic.hmac ≡ there.quic.hmac
    → here.agent.dial there.credentials there.candidates ≡ some dialled
    → there.agent.accept here.credentials here.candidates ≡ some accepted
    → ((made : List Text) (p : Text) → mkdir_error made p ≡ none)
    → ((fs : Dict Bytes) (p : Text) → disk.create_error fs p ≡ none)
    → ((m : Manifest)
        → build_manifest disk.hash root (ok (dir es)) ≡ ok m
        → json.decode_manifest (json.encode_manifest m) ≡ ok m)
    → ((completed : List Text)
        → let r : ManifestResponse = record { status = "ready"; completed = completed } in
          json.decode_response (json.encode_response r) ≡ ok r)
    → root ≢ []
    → out_dir ≢ []
    → IsPlain (base_name root)
    → AreGood es
    → AreUnique es
    → All (λ y. y.0 ≢ resume_name ∷ []) (files_in [] es)
    → source.is_file root ≡ false
    → All (IsFound source disk.hash root) (files_in [] es)
    → lookup (resume_state_path (join_path out_dir (base_name root))) fs ≡ none
    → Completed sp here there json disk source mkdir_error es code root out_dir fs
unfolding mark_all sender_round receiver_run
session_lem {Conn} sp here there json disk source mkdir_error es code root out_dir fs dialled
      accepted h coded sound sound' hm ma qh da ac makes creates jm jr full out_full plain good
      unique free tree found fresh =
    let dest = join_path out_dir (base_name root) in
    let (manifest, streams, acks, s, r, built, sent, got, opened, acked, placed) =
      directory_lem source disk root dest es fs full
        (join_path-ne_nil out_dir (base_name root) out_full plain) good unique free tree found
        creates in
    let named : manifest.root_name ≡ base_name root =
      ap (λ m. m.root_name)
        (ok-injective (sym built ∙ build_manifest_lem disk.hash root es full good)) in
    let placed_at : effective_dir out_dir manifest ≡ dest =
      effective_dir-named out_dir (base_name root) manifest plain.full named in
    let nothing : load_resume_state disk (effective_dir out_dir manifest) fs ≡ [] =
      or_nothing-none disk (effective_dir out_dir manifest) dest fs placed_at fresh in
    let (offer, answer, offers, takes) =
      offer_agreement json disk mkdir_error out_dir fs manifest makes (jm manifest built) jr in
    let (proof, proof_back, dials, listens) =
      quic_agreement here.quic there.quic h.key sound.connects sound.streams sound.writes
        sound'.connects sound'.streams sound'.writes qh in
    let round =
      sender_round sp here there code h sound sound' hm ma json disk source mkdir_error es
        proof_back answer acks manifest root dialled
        (record { input = []; written = proof; closed = none })
        (record { written = offer; made = [] }) s da dials refl
        (offers
          ∙ ap
              (λ c. (
                ok (record { status = "ready"; completed = c }),
                record { written = offer; made = [] },
              ))
              nothing)
        sent in
    let made =
      map (λ e. join_path (effective_dir out_dir manifest) (dir_path e.path)) manifest.files in
    let desk : Desk = record { written = answer; made = made } in
    let run =
      receiver_run sp here there code h sound sound' hm ma json disk source mkdir_error es proof
        offer streams manifest out_dir dest fs accepted
        (record { input = []; written = proof_back; closed = none }) desk r ac listens refl
        (takes
          ∙ ap (λ c. (ok (manifest, effective_dir out_dir manifest, c), desk)) nothing
          ∙ ap (λ d. (ok (manifest, d, []), desk)) placed_at)
        got in
    let sender_env =
      sender_side here there json disk source mkdir_error es proof_back answer acks in
    let receiver_env =
      receiver_side here there json disk source mkdir_error es proof offer streams in
    let begins = starts_sending (
      created code
      ∷ of_type msg_session_ready
      ∷ to_sender sp here there code h sound sound' hm ma json disk source mkdir_error es) in
    let begins' = starts_receiving fs (
      of_type msg_session_ready
      ∷ to_receiver sp here there code h sound sound' hm ma json disk source mkdir_error es) in
    record {
      to_sender = _;
      to_receiver = _;
      proof = proof;
      proof_back = proof_back;
      offer = offer;
      answer = answer;
      streams = streams;
      acks = acks;
      sending = _;
      receiving = _;
      sends =
          run_send_complete sp sender_env root code manifest _ begins refl
            (create_session-ok here.signaling sound.reliable code _ [] coded) built round;
      receives = run_receive_complete sp receiver_env out_dir code begins' run;
      sender_signals = refl;
      receiver_signals = refl;
      paired_in = _;
      paired_out = _;
      offered_in = _;
      offered_out = _;
      pairing =
          pairing_dialogue sp code here.signaling there.signaling sound.reliable sound'.reliable hm
            h;
      gathering =
          ice_dialogue here.signaling there.signaling here.agent there.agent here.credentials
            there.credentials here.candidates there.candidates sound.reliable sound'.reliable
            sound.works sound'.works;
      sender_reads =
          ap
            (λ f.
              relay h.answer
              ∷ relay h.server_confirm
              ∷ relay (f h.key pong_label)
              ∷ offered there.signaling there.credentials there.candidates)
            hm;
      receiver_reads = refl;
      plain_out = (
        (inl refl, refl),
        (
          (inl refl, refl),
          ((inl refl, refl), offered-IsPlainRelay here.signaling here.credentials here.candidates),
        ),
      );
      plain_back = (
        (inl refl, refl),
        (
          (inl refl, refl),
          (
            (inl refl, refl),
            offered-IsPlainRelay there.signaling there.credentials there.candidates,
          ),
        ),
      );
      sender_wrote = refl;
      receiver_wrote = refl;
      opened = ap (λ o. o ∷ []) opened;
      acked = acked;
      placed = placed;
    }
