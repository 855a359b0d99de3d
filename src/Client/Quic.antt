-- ===== src/Client/Quic.antt =====
-- internal/client/quic.go: the proof of identity on the first stream of a QUIC connection, and
-- `IsPeerClosedError`. The connection (github.com/quic-go/quic-go) fails as the parameter says;
-- what the peer writes to the stream is in the state. HMAC-SHA256 is a parameter; `hmac.Equal`
-- compares bytes. What `ListenQUIC` does before it accepts is in Quic/Setup.antt; TLS is not modelled.
pub mod Proof
pub mod Agreement
pub mod Setup
mod Tests
use wani.Base.{
  ℕ, zero, suc, Bool, true, false, List, [], ◌∷◌, ◌++◌, Option, none, some, String, Text, codes,
  text_eq, Result, ok, err, length, ltb, ◌==◌, if◌then◌else◌,
}
use wani.Base.State.{State}
use wani.Protocol.Message.{Bytes}
use wani.Client.Transfer.Receive.{QuicError, application, idle_timeout, other}
use wani.Client.Transfer.Send.{first}

abbrev pub quic_verify_label : Text
quic_verify_label = codes "wani-quic-verify"

-- A nil error is `none`.
unfoldable pub is_peer_closed_error : Option QuicError → Bool
is_peer_closed_error none = false
is_peer_closed_error (some (application code)) = code == 0
is_peer_closed_error (some idle_timeout) = true
is_peer_closed_error (some (other text)) = false

pub data HandshakeError : Type 0 where
  connect_failed : QuicError → HandshakeError
  stream_failed : QuicError → HandshakeError
  write_failed : QuicError → HandshakeError
  read_failed : HandshakeError
  identity_failed : HandshakeError

-- The arguments of `CloseWithError`.
pub record Close : Type 0 where
  pub code : ℕ
  pub reason : String

-- One end of the first stream: the bytes that the peer writes before it ends or fails, those
-- written so far, and how the connection was closed.
pub record Link : Type 0 where
  pub input : Bytes
  pub written : Bytes
  pub closed : Option Close

-- What fails: `Dial` or `Accept`; opening or accepting the stream; a write.
pub record Env : Type 0 where
  pub hmac : Bytes → Text → Bytes
  pub connect_error : Option QuicError
  pub stream_error : Option QuicError
  pub write_error : Option QuicError

abbrev pub M : Type 0 → Type 0
M A = State Link HandshakeError A

unfoldable pub behind : ℕ → Bytes → Bytes
behind zero bs = bs
behind (suc n) [] = []
behind (suc n) (b ∷ bs) = behind n bs

-- `conn.CloseWithError(1, reason)`, and the error that is returned.
abbrev pub give_up : String → HandshakeError → M (Unit {0})
give_up reason e l = (err e, record l { closed = some (record { code = 1; reason = reason }) })

module _ (env : Env) where
  unfoldable pub quic_hmac : Bytes → Bytes
  quic_hmac key = env.hmac key quic_verify_label

  unfoldable pub write_proof : Bytes → M (Unit {0}) → M (Unit {0})
  write_proof proof next l = elim env.write_error [
    | some e ↦ give_up "write proof failed" (write_failed e) l
    | none ↦ next (record l { written = l.written ++ proof })
  ]

  -- `io.ReadFull` of as many bytes as the proof has, and the comparison.
  unfoldable pub check_proof : Bytes → M (Unit {0}) → M (Unit {0})
  check_proof proof next l =
      if ltb (length l.input) (length proof)
      then give_up "read proof failed" read_failed (record l { input = [] })
      else let rest = record l { input = behind (length proof) l.input } in
        if text_eq (first (length proof) l.input) proof
        then next rest
        else give_up "identity check failed" identity_failed rest

  abbrev pub finished : M (Unit {0})
  finished l = (ok tt, l)

  -- Both functions up to the first stream.
  unfoldable pub with_stream : String → M (Unit {0}) → M (Unit {0})
  with_stream reason next l = elim env.connect_error [
    | some e ↦ (err (connect_failed e), l)
    | none ↦ elim env.stream_error [ some e ↦ give_up reason (stream_failed e) l | none ↦ next l ]
  ]

  unfoldable pub dial_quic : Bytes → M (Unit {0})
  unfolding with_stream
  dial_quic key =
      let proof = quic_hmac key in
      with_stream "stream open failed" (write_proof proof (check_proof proof finished))

  unfoldable pub listen_quic : Bytes → M (Unit {0})
  unfolding with_stream
  listen_quic key =
      let proof = quic_hmac key in
      with_stream "stream accept failed" (check_proof proof (write_proof proof finished))
