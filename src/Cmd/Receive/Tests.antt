-- ===== src/Cmd/Receive/Tests.antt =====
-- A run of `runReceive` with toy libraries whose sender goes away, and the theorem at this run.
use wani.Base.{ℕ, [], ◌∷◌, ◌++◌, none, some, ok}
use wani.Protocol.Message.{of_type, msg_session_ready}
use wani.Client.Signaling.{Env as SignalingEnv, ping_label}
use wani.Client.Signaling.Handshake.{relay}
use wani.Client.Ice.Exchange.{offered}
use wani.Client.Ice.Tests.{creds, left, right, toy as toy_agent}
use wani.Client.Quic.{quic_verify_label}
use wani.Client.Tests.{toy as toy_disk}
use wani.Client.Offer.Tests.{toy_json}
use wani.Client.Offer.Exchange.{pipe_with}
use wani.Client.Whole.Tests.{listing}
use wani.Cmd.Session.{starts_receiving}
use wani.Cmd.Receive.{ReceiveEnv, Receiving}
use wani.Tests.{toy, pw}

abbrev signaling : SignalingEnv
signaling = record {
  wire = λ sent m. none;
  closed = "closed";
  hmac = λ key label. key ++ label;
  marshal = λ c. c.ufrag;
  unmarshal = λ b. some (record { ufrag = b; pwd = [] });
}

-- The sender sends the first of two files and closes the connection.
abbrev env : ReceiveEnv ℕ
env = record {
  signaling = signaling;
  json = toy_json;
  disk = toy_disk;
  mkdir_error = λ made p. none;
  connect_error = none;
  agent = ok (toy_agent 2 right);
  quic = record {
    hmac = λ key label. key ++ label;
    connect_error = none;
    stream_error = none;
    write_error = none;
  };
  proof = pw ++ quic_verify_label;
  pipe = pipe_with (toy_json.encode_manifest listing);
  streams = record { chunks = (1 ∷ []) ∷ []; failure = none; ack_failure = none } ∷ [];
}

abbrev begins : Receiving
begins = starts_receiving [] (
    of_type msg_session_ready
    ∷ relay (1 ∷ [])
    ∷ relay (3 ∷ [])
    ∷ relay (pw ++ ping_label)
    ∷ offered signaling (creds 1) left)
