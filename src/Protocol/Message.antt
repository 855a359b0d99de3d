-- ===== src/Protocol/Message.antt =====
-- internal/protocol/messages.go and protocol.go: the data that travels between client, server and
-- peer. Types and human-readable texts are only compared or shown, so they are `String`s; codes
-- and paths are walked, so they are lists of code points; payloads are lists of bytes.
use wani.Base.{ℕ, String, List, [], Text}

abbrev pub Bytes : Type 0
Bytes = List ℕ

abbrev pub msg_create_session : String
msg_create_session = "create_session"

abbrev pub msg_join_session : String
msg_join_session = "join_session"

abbrev pub msg_relay : String
msg_relay = "relay"

abbrev pub msg_ice_candidate : String
msg_ice_candidate = "ice_candidate"

abbrev pub msg_ice_credentials : String
msg_ice_credentials = "ice_credentials"

abbrev pub msg_session_created : String
msg_session_created = "session_created"

abbrev pub msg_session_ready : String
msg_session_ready = "session_ready"

abbrev pub msg_error : String
msg_error = "error"

pub record SignalMessage : Type 0 where
  pub type : String
  pub code : Text
  pub payload : Bytes
  pub message : String

-- `SignalMessage{Type: t}`: the other fields are empty.
abbrev pub of_type : String → SignalMessage
of_type t = record { type = t; code = []; payload = []; message = "" }

abbrev pub Compression : Type 0
Compression = String

abbrev pub compression_none : Compression
compression_none = "none"

pub record FileEntry : Type 0 where
  pub path : Text
  pub size : ℕ
  pub xx_hash : ℕ
  pub compression : Compression

pub record Manifest : Type 0 where
  pub files : List FileEntry
  pub root_name : Text

pub record ManifestResponse : Type 0 where
  pub status : String
  pub completed : List Text
