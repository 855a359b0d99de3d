-- ===== src/Client/Quic/Tests.antt =====
-- Tests of the QUIC handshake with a toy HMAC, and the theorems at concrete inputs.
use wani.Base.{true, ◌≡◌, refl, ◌⊎◌, ◌++◌, [], none, some, text_eq, codes, ok, err}
use wani.Client.Transfer.Receive.{application, idle_timeout}
use wani.Protocol.Message.{Bytes}
use wani.Client.Quic.{
  Env, Link, identity_failed, is_peer_closed_error, quic_hmac, check_proof, with_stream, behind,
  dial_quic, listen_quic,
}
use wani.Client.Quic.Proof.{Proved, Refused, dial_quic_lem, listen_quic_lem}
use wani.Client.Quic.Agreement.{dial_quic-echo, quic_agreement}

abbrev toy : Env
toy = record {
  hmac = λ key label. key ++ label;
  connect_error = none;
  stream_error = none;
  write_error = none;
}

abbrev stranger : Link
stranger = record { input = codes "owl-dogwani-quic-verify"; written = []; closed = none }

closed_tests :
    (is_peer_closed_error (some (application 0)) ≡ true)
    × (is_peer_closed_error (some idle_timeout) ≡ true)
unfolding is_peer_closed_error
closed_tests = (refl, refl)

stranger_test : listen_quic toy (codes "owl-cat") stranger ≡ (
  err identity_failed,
  record {
    input = [];
    written = [];
    closed = some (record { code = 1; reason = "identity check failed" });
  },
)
unfolding listen_quic with_stream check_proof quic_hmac text_eq behind
stranger_test = refl

dial_quic_lem_example :
    Proved toy (codes "owl-cat") stranger (dial_quic toy (codes "owl-cat") stranger)
    ⊎ Refused toy (dial_quic toy (codes "owl-cat") stranger)
dial_quic_lem_example = dial_quic_lem toy (codes "owl-cat") stranger

listen_quic_lem_example :
    Proved toy (codes "owl-cat") stranger (listen_quic toy (codes "owl-cat") stranger)
    ⊎ (Refused toy (listen_quic toy (codes "owl-cat") stranger)
        × ((listen_quic toy (codes "owl-cat") stranger).1.written ≡ []))
listen_quic_lem_example = listen_quic_lem toy (codes "owl-cat") stranger

dial_quic-echo_example :
    (dial_quic toy (codes "owl-cat") (record {
      input =
          (dial_quic toy
            (codes "owl-cat")
            (record { input = []; written = []; closed = none })).1.written;
      written = [];
      closed = none;
    })).0
    ≡ ok tt
dial_quic-echo_example = dial_quic-echo toy (codes "owl-cat") refl refl refl

quic_agreement_example :
    (sent : Bytes) × (answer : Bytes) × (dial_quic toy
        (codes "owl-cat")
        (record { input = answer; written = []; closed = none })
      ≡ (ok tt, record { input = []; written = sent; closed = none }))
    × (listen_quic toy (codes "owl-cat") (record { input = sent; written = []; closed = none })
        ≡ (ok tt, record { input = []; written = answer; closed = none }))
quic_agreement_example = quic_agreement toy toy (codes "owl-cat") refl refl refl refl refl refl refl
