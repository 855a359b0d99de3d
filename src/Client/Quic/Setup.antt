-- ===== src/Client/Quic/Setup.antt =====
-- internal/client/quic.go: what `ListenQUIC` does before a connection comes in, the certificate, and
-- the adapter that lets QUIC run over a connection of ICE. The packages crypto/ecdsa, crypto/x509
-- and quic-go are parameters, and so is the connection of ICE.
use wani.Base.{
  ℕ, ◌+◌, ◌*◌, ◌-◌, ◌>>=◌, ◌≡◌, refl, sym, ap, ◌∙◌, inl, inr, List, [], ◌∷◌, Option, none, some,
  String, Result, ok, err, panic, wrap, Option-cases, arith,
}
use wani.Protocol.Message.{Bytes}
use wani.Client.Quic.{Env, Link, HandshakeError, listen_quic}
use wani.Client.Quic.Proof.{Proved, listen_quic_lem}

-- The methods of `*ice.Conn` that the adapter calls, over the state `W` of the network. A deadline
-- is one for reading and writing.
pub record IceConn (W Addr : Type 0) : Type 0 where
  pub read : ℕ → W → (Bytes × Option String) × W
  pub write : Bytes → W → (ℕ × Option String) × W
  pub set_deadline : ℕ → W → Option String × W
  pub remote_addr : Addr

-- The methods of `icePacketConn`. `ReadFrom` gives what is read into the buffer.
module _ {W Addr : Type 0} (conn : IceConn W Addr) where
  unfoldable pub read_from : ℕ → W → (Bytes × Addr × Option String) × W
  read_from size w = let ((bs, e), w') = conn.read size w in ((bs, conn.remote_addr, e), w')

  unfoldable pub write_to : Bytes → Addr → W → (ℕ × Option String) × W
  write_to bs addr w = conn.write bs w

  unfoldable pub set_read_deadline : ℕ → W → Option String × W
  set_read_deadline t w = conn.set_deadline t w

  unfoldable pub set_write_deadline : ℕ → W → Option String × W
  set_write_deadline t w = conn.set_deadline t w

-- The fields of the certificate that are filled in; times are nanoseconds since
-- 1970, and the clock is past the first minute.
pub record Template : Type 0 where
  pub serial_number : ℕ
  pub common_name : String
  pub not_before : ℕ
  pub not_after : ℕ

pub record Certificate (Key : Type 0) : Type 0 where
  pub certificate : List Bytes
  pub private_key : Key

pub data CertError : Type 0 where
  generate_key_failed : String → CertError
  create_cert_failed : String → CertError

pub record Crypto (Key : Type 0) : Type 0 where
  pub generate_key : Result String Key
  -- `x509.CreateCertificate`; the certificate is its own parent, and the key is the key's own.
  pub create_certificate : Template → Key → Result String Bytes
  -- `quic.Listen` with the certificate: the text of an error.
  pub listen : Certificate Key → Option String

abbrev pub second : ℕ
second = 1_000_000_000

module _ {Key : Type 0} (crypto : Crypto Key) where
  unfoldable pub generate_ephemeral_cert : ℕ → Result CertError (Certificate Key)
  generate_ephemeral_cert now = do
    key ← wrap generate_key_failed crypto.generate_key
    der ← wrap create_cert_failed (
        crypto.create_certificate
          (record {
            serial_number = 1;
            common_name = "wani-ephemeral";
            not_before = now - 60 * second;
            not_after = now + 24 * 60 * 60 * second;
          })
          key)
    ok (record { certificate = der ∷ []; private_key = key })

pub data ListenError : Type 0 where
  cert_failed : CertError → ListenError
  listen_failed : String → ListenError
  handshake_failed : HandshakeError → ListenError

pub data ListenerCall : Type 0 where
  listening : ListenerCall
  listener_closed : ListenerCall

module _ {Key : Type 0} (crypto : Crypto Key) (env : Env) where
  -- `ListenQUIC` behind its certificate; `env` says what `Accept` and the stream do.
  unfoldable pub listen_with :
      Bytes
      → Link
      → Result CertError (Certificate Key)
      → (Result ListenError (Unit {0}) × Link) × List ListenerCall
  listen_with key l (err e) = ((err (cert_failed e), l), [])
  listen_with key l panic = ((panic, l), [])
  listen_with key l (ok cert) = elim (crypto.listen cert) [
    | some text ↦ ((err (listen_failed text), l), [])
    | none ↦
        let (r, l') = listen_quic env key l in
        ((wrap handshake_failed r, l'), listening ∷ listener_closed ∷ [])
  ]

  unfoldable pub listen_connection :
      ℕ → Bytes → Link → (Result ListenError (Unit {0}) × Link) × List ListenerCall
  unfolding listen_with
  listen_connection now key l = listen_with key l (generate_ephemeral_cert crypto now)

  wrapped-ok : (r : Result HandshakeError (Unit {0})) → wrap handshake_failed r ≡ ok tt → r ≡ ok tt
  wrapped-ok (ok tt) h = refl
  wrapped-ok (err e) h = cc
  wrapped-ok panic h = cc

  proved :
      (key : Bytes) (l : Link)
      → (listen_quic env key l).0 ≡ ok tt
      → Proved env key l (listen_quic env key l)
  proved key l h = elim (listen_quic_lem env key l) [
    | inl p ↦ p
    | inr (refused, same) ↦ absurd (refused.0 h)
  ]

  listened :
      (key : Bytes) (l : Link) (cert : Certificate Key)
      → crypto.listen cert ≡ none
      → listen_with key l (ok cert) ≡ (
        (wrap handshake_failed (listen_quic env key l).0, (listen_quic env key l).1),
        listening ∷ listener_closed ∷ [],
      )
  unfolding listen_with
  listened key l cert e = rw (e, listen_with) refl

  not_listened :
      (key : Bytes) (l : Link) (cert : Certificate Key) (text : String)
      → crypto.listen cert ≡ some text
      → listen_with key l (ok cert) ≡ ((err (listen_failed text), l), [])
  unfolding listen_with
  not_listened key l cert text e = rw (e, listen_with) refl

  listen_with-Proved :
      (key : Bytes) (l : Link) (c : Result CertError (Certificate Key))
      → (listen_with key l c).0.0 ≡ ok tt
      → Proved env key l (ok tt, (listen_with key l c).0.1)
        × ((listen_with key l c).1 ≡ listening ∷ listener_closed ∷ [])
  unfolding listen_with
  listen_with-Proved key l (err e) h = cc
  listen_with-Proved key l panic h = cc
  listen_with-Proved key l (ok cert) h = elim (Option-cases (crypto.listen cert)) [
    | inr (text, e) ↦ absurd (ground (arith, h, ap (λ o. o.0.0) (not_listened key l cert text e)))
    | inl e ↦
        let eq = listened key l cert e in
        let p =
          proved key l (wrapped-ok (listen_quic env key l).0 (sym (ap (λ o. o.0.0) eq) ∙ h)) in
        rw eq ((refl, p.1, p.2, p.3), refl)
  ]

  -- A connection is returned only if the peer has proved its knowledge of the key, and then the
  -- listener is closed again, as it is on every path on which it was made.
  pub listen_connection-Proved :
      (now : ℕ) (key : Bytes) (l : Link)
      → (listen_connection now key l).0.0 ≡ ok tt
      → Proved env key l (ok tt, (listen_connection now key l).0.1)
        × ((listen_connection now key l).1 ≡ listening ∷ listener_closed ∷ [])
  unfolding listen_connection
  listen_connection-Proved now key l = listen_with-Proved key l (generate_ephemeral_cert crypto now)
