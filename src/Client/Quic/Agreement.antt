-- ===== src/Client/Quic/Agreement.antt =====
-- internal/client/quic.go: the exchange of proofs on connections without failures.
use wani.Base.{
  ◌≡◌, refl, sym, ap, ◌∙◌, false, [], ◌∷◌, ◌++◌, append-nil, none, String, text_eq_self, ok, length,
  ltb, arith,
}
use wani.Protocol.Message.{Bytes}
use wani.Client.Transfer.Send.{first}
use wani.Client.Quic.{
  quic_verify_label, Env, Link, M, behind, quic_hmac, write_proof, check_proof, with_stream,
  finished, dial_quic, listen_quic,
}

first-append : (p q : Bytes) → first (length p) (p ++ q) ≡ p
first-append [] q = refl
first-append (b ∷ p) q = ap (λ l. b ∷ l) (first-append p q)

behind-append : (p q : Bytes) → behind (length p) (p ++ q) ≡ q
unfolding behind
behind-append [] q = refl
behind-append (b ∷ p) q = behind-append p q

ltb-append : (p q : Bytes) → ltb (length (p ++ q)) (length p) ≡ false
ltb-append [] q = ground arith
ltb-append (b ∷ p) q = ground (arith, ltb-append p q)

module _ (env : Env) where
  check_proof-good :
      (proof rest : Bytes) (next : M (Unit {0})) (l : Link)
      → l.input ≡ proof ++ rest
      → check_proof env proof next l ≡ next (record l { input = rest })
  unfolding check_proof
  check_proof-good proof rest next l e =
      rw
        (
          e,
          ltb-append proof rest,
          first-append proof rest,
          text_eq_self proof,
          behind-append proof rest,
        )
        refl

  check_proof-written :
      (proof : Bytes) (l : Link) → (check_proof env proof (finished env) l).1.written ≡ l.written
  unfolding check_proof
  check_proof-written proof l = ground arith

  dial_quic-good :
      (key : Bytes) (l : Link)
      → env.connect_error ≡ none
      → env.stream_error ≡ none
      → env.write_error ≡ none
      → dial_quic env key l
        ≡ check_proof env
            (quic_hmac env key)
            (finished env)
            (record l { written = l.written ++ quic_hmac env key })
  unfolding dial_quic with_stream write_proof quic_hmac check_proof
  dial_quic-good key l c s w = rw (c, s, w) refl

  -- A sender without failures and any peer that sends back the bytes which the sender writes:
  -- `DialQUIC` succeeds, whatever the key is, so the peer need not know it.
  pub dial_quic-echo :
      (key : Bytes)
      → env.connect_error ≡ none
      → env.stream_error ≡ none
      → env.write_error ≡ none
      → let blank : Link = record { input = []; written = []; closed = none } in
        (dial_quic env key (record blank { input = (dial_quic env key blank).1.written })).0 ≡ ok tt
  dial_quic-echo key c s w =
      let p = quic_hmac env key in
      let blank : Link = record { input = []; written = []; closed = none } in
      let wrote : (dial_quic env key blank).1.written ≡ p =
        ap (λ o. o.1.written) (dial_quic-good key blank c s w)
        ∙ check_proof-written p (record blank { written = p }) in
      let echo : Link = record blank { input = (dial_quic env key blank).1.written } in
      ap (λ o. o.0)
        (dial_quic-good key echo c s w
          ∙ check_proof-good p [] (finished env) (record echo { written = p })
              (wrote ∙ sym (append-nil p)))

  listen_quic-good :
      (key rest : Bytes) (l : Link)
      → env.connect_error ≡ none
      → env.stream_error ≡ none
      → env.write_error ≡ none
      → l.input ≡ quic_hmac env key ++ rest
      → listen_quic env key l
        ≡ (ok tt, record l { input = rest; written = l.written ++ quic_hmac env key })
  unfolding listen_quic
  listen_quic-good key rest l c s w e =
      let p = quic_hmac env key in
      let write = write_proof env p (finished env) in
      opens "stream accept failed" (check_proof env p write) l c s
      ∙ check_proof-good p rest write l e
      ∙ writes p (finished env) (record l { input = rest }) w
    where
      opens :
          (reason : String) (next : M (Unit {0})) (l : Link)
          → env.connect_error ≡ none
          → env.stream_error ≡ none
          → with_stream env reason next l ≡ next l
      opens reason next l c s = unfold with_stream in rw (c, s) refl

      writes :
          (p : Bytes) (next : M (Unit {0})) (l : Link)
          → env.write_error ≡ none
          → write_proof env p next l ≡ next (record l { written = l.written ++ p })
      writes p next l w = unfold write_proof in rw w refl

-- Two ends that meet no failures, have one HMAC and hold the same key accept each other, each being
-- sent what the other writes; both have read all of it.
pub quic_agreement :
    (here there : Env) (key : Bytes)
    → here.connect_error ≡ none
    → here.stream_error ≡ none
    → here.write_error ≡ none
    → there.connect_error ≡ none
    → there.stream_error ≡ none
    → there.write_error ≡ none
    → here.hmac ≡ there.hmac
    → (sent : Bytes) × (answer : Bytes) × (dial_quic here key
          (record { input = answer; written = []; closed = none })
        ≡ (ok tt, record { input = []; written = sent; closed = none }))
      × (listen_quic there key (record { input = sent; written = []; closed = none })
          ≡ (ok tt, record { input = []; written = answer; closed = none }))
unfolding quic_hmac
quic_agreement here there key c s w c' s' w' same =
    let p = quic_hmac here key in
    let p' = quic_hmac there key in
    let e : p' ≡ p = ap (λ h. h key quic_verify_label) (sym same) in
    (
      p,
      p',
      dial_quic-good here key (record { input = p'; written = []; closed = none }) c s w
          ∙ check_proof-good here p [] (finished here)
              (record { input = p'; written = p; closed = none }) (e ∙ sym (append-nil p)),
      listen_quic-good there key [] (record { input = p; written = []; closed = none }) c' s' w'
          (sym e ∙ sym (append-nil p')),
    )
