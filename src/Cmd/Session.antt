-- ===== src/Cmd/Session.antt =====
-- cmd/wani-client/main.go: a whole session of the two commands, from the pairing code to the files
-- in place.
pub mod Signals
pub mod Stages
pub mod Complete
pub mod Network
mod Tests
use wani.Base.{
  ◌≡◌, refl, sym, ap, ◌∙◌, ◌≢◌, true, false, List, [], ◌∷◌, ◌++◌, map, none, some, String, Option,
  Text, Dict, lookup, ok, All, ok-injective,
}
use wani.Protocol.Message.{
  Bytes, SignalMessage, Manifest, ManifestResponse, of_type, msg_session_created, msg_session_ready,
  msg_create_session, msg_join_session,
}
use wani.Identity.{Spake, role_sender, role_receiver}
use wani.Client.Signaling.{
  SignalingClient, IceCredentials, ping_label, pong_label, Env as SignalingEnv,
}
use wani.Client.Signaling.Handshake.{relay, Honest, IsReliable}
use wani.Client.Ice.{Agent, gather_and_connect}
use wani.Client.Ice.Exchange.{Works, offered, credentials_message, candidate_message, exchange-ok}
use wani.Client.Quic.{Env as QuicEnv}
use wani.Client.Quic.Agreement.{quic_agreement}
use wani.Client.Paths.{base_name, join_path}
use wani.Client.Paths.Elements.{IsPlain}
use wani.Client.Paths.Join.{names_path, join_path-ne_nil}
use wani.Client.Manifest.{Entries, dir, build_manifest}
use wani.Client.Manifest.Walk.{files_in, AreGood, build_manifest_lem}
use wani.Client.Manifest.Names.{AreUnique}
use wani.Client.Offer.{Json, effective_dir}
use wani.Client.Offer.Exchange.{pipe_with, offer_agreement, effective_dir-named}
use wani.Client.Transfer.Receive.{
  concat, resume_state_path, load_resume_state, or_nothing, Env as DiskEnv,
}
use wani.Client.Transfer.Send.{SourceEnv, mark_all}
use wani.Client.Transfer.Streams.{arriving, answered}
use wani.Client.Whole.{IsFound, resume_name, directory_lem}
use wani.Server.Handlers.Channel.{IsPlainRelay}
use wani.Cmd.Send.{SendEnv, Sending, run_send}
use wani.Cmd.Send.Stages.{run_send_complete}
use wani.Client.Signaling.Dialogue.{dialogue}
use wani.Client.Ice.Exchange.{peer_writes}
use wani.Cmd.Pairing.Agreement.{sender_writes, receiver_writes}
use wani.Cmd.Receive.{ReceiveEnv, Receiving, run_receive}
use wani.Cmd.Receive.Stages.{run_receive_complete}
use wani.Cmd.Session.Signals.{
  create_session-ok, wait_for_peer-ok, join_session-ok, pair_sender-ok, pair_receiver-ok,
}

-- What one of the two clients has to connect with.
pub record Side (Conn : Type 0) : Type 0 where
  pub signaling : SignalingEnv
  pub agent : Agent Conn
  pub credentials : IceCredentials
  pub candidates : List Bytes
  pub quic : QuicEnv

-- Nothing fails at a side that meets `peer`.
pub record IsSound {Conn : Type 0} (side peer : Side Conn) : Type 0 where
  pub reliable : IsReliable side.signaling
  pub works : Works side.agent side.credentials side.candidates peer.credentials peer.candidates
  pub reads :
      side.signaling.unmarshal (side.signaling.marshal peer.credentials) ≡ some peer.credentials
  pub connects : side.quic.connect_error ≡ none
  pub streams : side.quic.stream_error ≡ none
  pub writes : side.quic.write_error ≡ none

-- The server's own messages.
abbrev pub created : Text → SignalMessage
created code = record (of_type msg_session_created) { code = code }

abbrev pub starts_sending : List SignalMessage → Sending
starts_sending inbox = record {
  signaling = record { inbox = inbox; outbox = [] };
  printed = [];
  transfers = [];
  closes = [];
  wrote = [];
}

abbrev pub starts_receiving : Dict Bytes → List SignalMessage → Receiving
starts_receiving fs inbox = record {
  signaling = record { inbox = inbox; outbox = [] };
  printed = [];
  fs = fs;
  made = [];
  acks = [];
  closes = [];
  wrote = [];
}

module _ {Conn : Type 0} (here there : Side Conn) (json : Json) (disk : DiskEnv)
    (source : SourceEnv) (mkdir_error : List Text → Text → Option String) (es : Entries) where
  -- The sender is offered `proof` and `answer` over QUIC, and `acks` for its files.
  abbrev pub sender_side : Bytes → Bytes → List Text → SendEnv Conn
  sender_side proof answer acks = record {
    signaling = here.signaling;
    json = json;
    hash = disk.hash;
    look = λ p. ok (dir es);
    source = source;
    connect_error = none;
    attempts = λ n. record {
      deadline = some none;
      agent = ok here.agent;
      quic = here.quic;
      proof = proof;
      pipe = pipe_with answer;
      replies = map answered acks;
      ping_error = none;
    };
  }

  abbrev pub receiver_side : Bytes → Bytes → List (List Bytes) → ReceiveEnv Conn
  receiver_side proof offer streams = record {
    signaling = there.signaling;
    json = json;
    disk = disk;
    mkdir_error = mkdir_error;
    connect_error = none;
    agent = ok there.agent;
    quic = there.quic;
    proof = proof;
    pipe = pipe_with offer;
    streams = map arriving streams;
  }

-- A session that completes: what each side is sent, over the signaling server behind the server's
-- own messages and over QUIC, is all that the other side writes, and over the server only messages
-- for the peer: those of a pairing and then of an exchange of candidates that both start with nothing
-- to read; both commands return without an error, and the files of the directory are in place at the receiver.
pub record Completed {Conn : Type 0} (sp : Spake) (here there : Side Conn) (json : Json)
    (disk : DiskEnv) (source : SourceEnv) (mkdir_error : List Text → Text → Option String)
    (es : Entries) (code root out_dir : Text) (fs : Dict Bytes) : Type 0 where
  pub to_sender : List SignalMessage
  pub to_receiver : List SignalMessage
  pub proof : Bytes
  pub proof_back : Bytes
  pub offer : Bytes
  pub answer : Bytes
  pub streams : List (List Bytes)
  pub acks : List Text
  pub sending : Sending
  pub receiving : Receiving
  pub sends :
      run_send sp
        (sender_side here there json disk source mkdir_error es proof_back answer acks)
        root
        (starts_sending (created code ∷ of_type msg_session_ready ∷ to_sender))
      ≡ (ok tt, sending)
  pub receives :
      run_receive sp
        (receiver_side here there json disk source mkdir_error es proof offer streams)
        out_dir
        code
        (starts_receiving fs (of_type msg_session_ready ∷ to_receiver))
      ≡ (ok tt, receiving)
  pub sender_signals :
      sending.signaling ≡ record { inbox = []; outbox = of_type msg_create_session ∷ to_receiver }
  pub receiver_signals : receiving.signaling ≡ record {
    inbox = [];
    outbox = record (of_type msg_join_session) { code = code } ∷ to_sender;
  }
  pub paired_in : List SignalMessage
  pub paired_out : List SignalMessage
  pub offered_in : List SignalMessage
  pub offered_out : List SignalMessage
  pub pairing :
      dialogue 6 (sender_writes here.signaling sp code) (receiver_writes there.signaling sp code)
      ≡ (paired_in, paired_out)
  pub gathering :
      dialogue 1
        (peer_writes here.signaling here.agent true)
        (peer_writes there.signaling there.agent false)
      ≡ (offered_in, offered_out)
  pub sender_reads : to_sender ≡ paired_in ++ offered_in
  pub receiver_reads : to_receiver ≡ paired_out ++ offered_out
  pub plain_out : All IsPlainRelay to_receiver
  pub plain_back : All IsPlainRelay to_sender
  pub sender_wrote : sending.wrote ≡ proof ∷ offer ∷ []
  pub receiver_wrote : receiving.wrote ≡ proof_back ∷ answer ∷ []
  pub opened : map (λ t. t.1.opened) sending.transfers ≡ streams ∷ []
  pub acked : receiving.acks ≡ acks
  pub placed :
      All
        (λ y.
          lookup (join_path (join_path out_dir (base_name root)) (names_path y.0)) receiving.fs
          ≡ some (concat y.1.source.chunks))
        (files_in [] es)
