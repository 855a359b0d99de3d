-- ===== src/Client/Quic/Proof.antt =====
-- internal/client/quic.go: what the exchange of proofs establishes.
use wani.Base.{
  ℕ, zero, suc, ◌≡◌, refl, sym, ap, ◌∙◌, ◌≢◌, ◌⊎◌, inl, inr, false, [], ◌∷◌, ◌++◌, none, some,
  String, text_eq, text_eq_iff, Result, ok, length, ltb, Bool-cases, Option-cases,
}
use wani.Protocol.Message.{Bytes}
use wani.Client.Transfer.Receive.{application}
use wani.Client.Transfer.Send.{first}
use wani.Client.Quic.{
  Env, Link, HandshakeError, Close, M, behind, is_peer_closed_error, quic_hmac, write_proof,
  check_proof, with_stream, finished, dial_quic, listen_quic,
}

first-behind : (n : ℕ) (bs : Bytes) → first n bs ++ behind n bs ≡ bs
unfolding behind
first-behind zero bs = refl
first-behind (suc n) [] = refl
first-behind (suc n) (b ∷ bs) = ap (λ l. b ∷ l) (first-behind n bs)

module _ (env : Env) where
  -- The connection is closed with a code that the peer does not take for a normal end.
  abbrev pub IsBroken : Link → Type 0
  IsBroken l =
      (c : Close) × (l.closed ≡ some c) × (is_peer_closed_error (some (application c.code)) ≡ false)

  -- A step gave up, and had written nothing more.
  abbrev GaveUp : Link → Result HandshakeError (Unit {0}) × Link → Type 0
  GaveUp l (res, l') = (res ≢ ok tt) × IsBroken l' × (l'.written ≡ l.written)

  check_proof-cases :
      (proof : Bytes) (next : M (Unit {0})) (l : Link)
      → ((rest : Bytes) × (l.input ≡ proof ++ rest)
          × (check_proof env proof next l ≡ next (record l { input = rest })))
        ⊎ GaveUp l (check_proof env proof next l)
  unfolding check_proof is_peer_closed_error
  check_proof-cases proof next l = elim (Bool-cases (ltb (length l.input) (length proof))) [
    | inl short ↦ inr (
        rw short ((λ h. cc), (record { code = 1; reason = "read proof failed" }, refl, refl), refl))
    | inr enough ↦ elim (Bool-cases (text_eq (first (length proof) l.input) proof)) [
      | inl same ↦ inl (
        behind (length proof) l.input,
        sym (first-behind (length proof) l.input)
            ∙ ap (λ p. p ++ behind (length proof) l.input) ((text_eq_iff _ proof).0 same),
        rw (enough, same) refl,
      )
      | inr differs ↦ inr (
          rw (enough, differs)
            ((λ h. cc), (record { code = 1; reason = "identity check failed" }, refl, refl), refl))
    ]
  ]

  write_proof-cases :
      (proof : Bytes) (next : M (Unit {0})) (l : Link)
      → (write_proof env proof next l ≡ next (record l { written = l.written ++ proof }))
        ⊎ GaveUp l (write_proof env proof next l)
  unfolding write_proof is_peer_closed_error
  write_proof-cases proof next l = elim (Option-cases env.write_error) [
    | inl e ↦ inl (rw e refl)
    | inr (e, h) ↦
        inr
          (rw h ((λ h. cc), (record { code = 1; reason = "write proof failed" }, refl, refl), refl))
  ]

  -- The proof was read and written, and the connection is as it was.
  abbrev pub Proved : Bytes → Link → Result HandshakeError (Unit {0}) × Link → Type 0
  Proved key l (res, l') =
      (res ≡ ok tt)
      × (l.input ≡ quic_hmac env key ++ l'.input)
      × (l'.written ≡ l.written ++ quic_hmac env key)
      × (l'.closed ≡ l.closed)

  -- There never was a connection, or it is closed as broken.
  abbrev pub Refused : Result HandshakeError (Unit {0}) × Link → Type 0
  Refused (res, l') = (res ≢ ok tt) × ((env.connect_error ≢ none) ⊎ IsBroken l')

  with_stream-cases :
      (reason : String) (next : M (Unit {0})) (l : Link)
      → (with_stream env reason next l ≡ next l)
        ⊎ (Refused (with_stream env reason next l)
            × ((with_stream env reason next l).1.written ≡ l.written))
  unfolding with_stream is_peer_closed_error
  with_stream-cases reason next l = elim (Option-cases env.connect_error) [
    | inl e ↦ elim (Option-cases env.stream_error) [
      | inl o ↦ inl (rw (e, o) refl)
      | inr (x, o) ↦
          inr
            (rw (e, o) (((λ h. cc), inr (record { code = 1; reason = reason }, refl, refl)), refl))
    ]
    | inr (x, e) ↦ inr (rw e (((λ h. cc), inl (λ h. cc)), refl))
  ]

  -- `DialQUIC` succeeds only if what the peer wrote starts with the proof under this key, of which
  -- it has then read just that, having written its own; otherwise it returns an error, and unless
  -- the connection was never made it is closed with a code that `IsPeerClosedError` does not take
  -- for the normal end of a transfer.
  pub dial_quic_lem :
      (key : Bytes) (l : Link) → Proved key l (dial_quic env key l) ⊎ Refused (dial_quic env key l)
  unfolding dial_quic
  dial_quic_lem key l =
      let p = quic_hmac env key in
      let check = check_proof env p (finished env) in
      let written : Link = record l { written = l.written ++ p } in
      elim (with_stream-cases "stream open failed" (write_proof env p check) l) [
        | inr (refused, same) ↦ inr refused
        | inl opened ↦ elim (write_proof-cases p check l) [
          | inr (bad, broken, same) ↦ inr (rw opened (bad, inr broken))
          | inl wrote ↦ elim (check_proof-cases p (finished env) written) [
            | inr (bad, broken, same) ↦ inr (rw (opened, wrote) (bad, inr broken))
            | inl (rest, input, run) ↦ inl (rw (opened, wrote, run) (refl, input, refl, refl))
          ]
        ]
      ]

  -- `ListenQUIC` succeeds only if what the peer wrote starts with the proof under this key, of
  -- which it has then read just that, having written its own; otherwise it returns an error, has
  -- written nothing, and unless the connection was never made it is closed with a code that
  -- `IsPeerClosedError` does not take for the normal end of a transfer.
  pub listen_quic_lem :
      (key : Bytes) (l : Link)
      → Proved key l (listen_quic env key l)
        ⊎ (Refused (listen_quic env key l) × ((listen_quic env key l).1.written ≡ l.written))
  unfolding listen_quic
  listen_quic_lem key l =
      let p = quic_hmac env key in
      let write = write_proof env p (finished env) in
      elim (with_stream-cases "stream accept failed" (check_proof env p write) l) [
        | inr refused ↦ inr refused
        | inl opened ↦ elim (check_proof-cases p write l) [
          | inr (bad, broken, same) ↦ inr (rw opened ((bad, inr broken), same))
          | inl (rest, input, run) ↦
              elim (write_proof-cases p (finished env) (record l { input = rest })) [
                | inr (bad, broken, same) ↦ inr (rw (opened, run) ((bad, inr broken), same))
                | inl wrote ↦ inl (rw (opened, run, wrote) (refl, input, refl, refl))
              ]
        ]
      ]
