-- ===== src/Client/Ice/Exchange.antt =====
-- internal/client/ice.go: what two peers learn of each other.
use wani.Base.{
  ℕ, zero, suc, ◌<◌, ◌≡◌, refl, ◌≢◌, Bool, true, false, List, [], ◌∷◌, ◌++◌, append_assoc,
  append-nil, map, none, some, ok, length, All, arith, err, sym, ap, ◌∙◌,
}
use wani.Protocol.Message.{Bytes, SignalMessage, of_type, msg_ice_candidate, msg_ice_credentials}
use wani.Client.Signaling.{
  SignalingClient, IceCredentials, Env, read_failed, step, write_json, scan, read_until,
  send_ice_candidate, read_ice_candidate, send_ice_credentials, read_ice_credentials,
}
use wani.Client.Signaling.Handshake.{IsReliable}
use wani.Client.Signaling.Dialogue.{dialogue}
use wani.Client.Ice.{
  Agent, signaling_failed, send_candidates, gather, send_local, add_candidate, next_candidate,
  read_candidates, read_remote, connect, gather_and_connect,
}

abbrev pub candidate_message : Bytes → SignalMessage
candidate_message c = record (of_type msg_ice_candidate) { payload = c }

-- Nothing fails at an agent that offers `own` and `cs` and is offered `peer` and `ps`.
pub record Works {Conn : Type 0} (agent : Agent Conn) (own : IceCredentials) (cs : List Bytes)
    (peer : IceCredentials) (ps : List Bytes) : Type 0 where
  pub handles : agent.handler_error ≡ none
  pub gathers : agent.gather_error ≡ none
  pub candidates : agent.gathered ≡ some cs
  pub knows_own : agent.credentials ≡ some own
  pub full : All (λ c. c ≢ []) ps
  pub readable : All (λ c. agent.unmarshal_error c ≡ none) ps
  pub adds : (before : List Bytes) (c : Bytes) → agent.add_error before c ≡ none

module _ (env : Env) where
  abbrev pub credentials_message : IceCredentials → SignalMessage
  credentials_message creds = record (of_type msg_ice_credentials) { payload = env.marshal creds }

  -- What a peer writes in an exchange.
  abbrev pub offered : IceCredentials → List Bytes → List SignalMessage
  offered creds candidates =
      credentials_message creds ∷ (map candidate_message candidates ++ candidate_message [] ∷ [])

module _ (env : Env) (reliable : IsReliable env) where
  candidate-ok :
      (b : Bytes) (c : SignalingClient)
      → send_ice_candidate env b c
        ≡ (ok tt, record c { outbox = c.outbox ++ candidate_message b ∷ [] })
  unfolding send_ice_candidate write_json
  candidate-ok b c = rw (reliable c.outbox (candidate_message b), write_json)

  credentials-ok :
      (own : IceCredentials) (c : SignalingClient)
      → send_ice_credentials env own.ufrag own.pwd c
        ≡ (ok tt, record c { outbox = c.outbox ++ credentials_message env own ∷ [] })
  unfolding send_ice_credentials write_json
  credentials-ok own c = rw (reliable c.outbox (credentials_message env own), write_json)

  module _ {Conn : Type 0} (agent : Agent Conn) where
    send_candidates-ok :
        (cs : List Bytes) (c : SignalingClient)
        → send_candidates env agent cs c
          ≡ (ok tt, record c { outbox = c.outbox ++ map candidate_message cs })
    unfolding send_candidates
    send_candidates-ok [] c = rw append-nil refl
    send_candidates-ok (b ∷ cs) c =
        rw
          (
            candidate-ok b c,
            send_candidates-ok cs (record c { outbox = c.outbox ++ candidate_message b ∷ [] }),
            append_assoc,
          )
          refl

    send_local-ok :
        (own : IceCredentials) (cs : List Bytes) (c : SignalingClient)
        → agent.credentials ≡ some own
        → send_local env agent cs c ≡ (ok tt, record c { outbox = c.outbox ++ offered env own cs })
    unfolding send_local
    send_local-ok own cs c h =
        rw (h, credentials-ok own c, send_candidates-ok, candidate-ok, append_assoc, append_assoc)
          refl

    read_candidates-ok :
        (fuel : ℕ) (cs added : List Bytes) (out : List SignalMessage)
        → length cs < fuel
        → All (λ c. c ≢ []) cs
        → All (λ c. agent.unmarshal_error c ≡ none) cs
        → ((before : List Bytes) (c : Bytes) → agent.add_error before c ≡ none)
        → read_candidates env agent fuel added
            (record { inbox = map candidate_message cs ++ candidate_message [] ∷ []; outbox = out })
          ≡ (ok (added ++ cs), record { inbox = []; outbox = out })
    unfolding read_candidates next_candidate add_candidate read_ice_candidate read_until scan
    read_candidates-ok zero cs added out h full good adds = absurd (omega arith)
    read_candidates-ok (suc fuel) [] added out h full good adds = rw append-nil refl
    read_candidates-ok (suc fuel) ([] ∷ cs) added out h full good adds = absurd (full.0 refl)
    read_candidates-ok (suc fuel) ((b ∷ bs) ∷ cs) added out h full good adds =
        rw
          (
            good.0,
            adds added (b ∷ bs),
            read_candidates-ok fuel cs (added ++ (b ∷ bs) ∷ []) out (omega arith) full.1 good.1
                adds,
            append_assoc,
          )
          refl

    gather-ok :
        (own peer : IceCredentials) (cs ps : List Bytes) (c : SignalingClient)
        → Works agent own cs peer ps
        → gather env agent c ≡ (ok cs, c)
    unfolding gather
    gather-ok own peer cs ps c w = rw (w.handles, w.gathers, w.candidates) refl

    read_remote-ok :
        (own peer : IceCredentials) (cs ps : List Bytes) (out : List SignalMessage)
        → Works agent own cs peer ps
        → env.unmarshal (env.marshal peer) ≡ some peer
        → read_remote env agent (record { inbox = offered env peer ps; outbox = out })
          ≡ (ok (peer, ps), record { inbox = []; outbox = out })
    unfolding read_remote read_ice_credentials read_until scan
    read_remote-ok own peer cs ps out w um =
        rw
          (
            um,
            read_candidates-ok
                (suc (length (map candidate_message ps ++ candidate_message [] ∷ []))) ps [] out
                (enough ps) w.full w.readable w.adds,
          )
          refl
      where
        enough :
            (ps : List Bytes)
            → length ps < suc (length (map candidate_message ps ++ candidate_message [] ∷ []))
        enough [] = omega arith
        enough (p ∷ ps) = omega (arith, enough ps)

    pub exchange-ok :
        (controlling : Bool) (own peer : IceCredentials) (cs ps : List Bytes) (conn : Conn)
        (out : List SignalMessage)
        → Works agent own cs peer ps
        → env.unmarshal (env.marshal peer) ≡ some peer
        → (elim controlling [ true ↦ agent.dial peer ps | false ↦ agent.accept peer ps ])
          ≡ some conn
        → gather_and_connect env agent controlling
            (record { inbox = offered env peer ps; outbox = out })
          ≡ (ok conn, record { inbox = []; outbox = out ++ offered env own cs })
    unfolding gather_and_connect connect
    exchange-ok controlling own peer cs ps conn out w um joined =
        rw
          (
            gather-ok own peer cs ps (record { inbox = offered env peer ps; outbox = out }) w,
            send_local-ok own cs (record { inbox = offered env peer ps; outbox = out }) w.knows_own,
            read_remote-ok own peer cs ps (out ++ offered env own cs) w um,
            joined,
          )
          refl

-- What a peer has written when it is given certain messages.
abbrev pub peer_writes :
    {Conn : Type 0} → Env → Agent Conn → Bool → List SignalMessage → List SignalMessage
peer_writes env agent controlling inbox =
    (gather_and_connect env agent controlling (record { inbox = inbox; outbox = [] })).1.outbox

-- With nothing to read yet a peer writes all that it has to write, and waits for the other.
peer-waits :
    {Conn : Type 0} (env : Env) (reliable : IsReliable env) (agent : Agent Conn)
    (controlling : Bool) (own peer : IceCredentials) (cs ps : List Bytes)
    → Works agent own cs peer ps
    → gather_and_connect env agent controlling (record { inbox = []; outbox = [] }) ≡ (
      err (signaling_failed (step "signaling.ReadICECredentials" (read_failed env.closed))),
      record { inbox = []; outbox = offered env own cs },
    )
unfolding gather_and_connect read_remote read_ice_credentials read_until scan
peer-waits env reliable agent controlling own peer cs ps w =
    rw
      (
        gather-ok env reliable agent own peer cs ps (record { inbox = []; outbox = [] }) w,
        send_local-ok env reliable agent own cs (record { inbox = []; outbox = [] }) w.knows_own,
      )
      refl

pub ice_dialogue :
    {Conn : Type 0} (here there : Env) (a b : Agent Conn) (own peer : IceCredentials)
    (cs ps : List Bytes)
    → IsReliable here
    → IsReliable there
    → Works a own cs peer ps
    → Works b peer ps own cs
    → dialogue 1 (peer_writes here a true) (peer_writes there b false)
      ≡ (offered there peer ps, offered here own cs)
ice_dialogue here there a b own peer cs ps rh rt wa wb =
    ap (λ o. (o.1.outbox, peer_writes here a true []))
      (peer-waits there rt b false peer own ps cs wb)
    ∙ ap (λ o. (offered there peer ps, o.1.outbox)) (peer-waits here rh a true own peer cs ps wa)

-- The sender and the receiver of a session, over reliable connections, exchange without a deadlock:
-- with nothing to read, each has written all that the other needs; given this, each connects with
-- the credentials and all the candidates of the other, in the order in which they were gathered, and
-- has read everything. Both agents gather, understand and accept what the other offers, no candidate
-- is empty, and the JSON of credentials is the same for both and gives them back.
pub ice_agreement :
    {Conn : Type 0} (here there : Env) (a b : Agent Conn) (own peer : IceCredentials)
    (cs ps : List Bytes) (dialled accepted : Conn)
    → IsReliable here
    → IsReliable there
    → Works a own cs peer ps
    → Works b peer ps own cs
    → here.marshal ≡ there.marshal
    → here.unmarshal (here.marshal peer) ≡ some peer
    → there.unmarshal (there.marshal own) ≡ some own
    → a.dial peer ps ≡ some dialled
    → b.accept own cs ≡ some accepted
    → (to_sender : List SignalMessage) × (to_receiver : List SignalMessage) × (gather_and_connect
          here a true
          (record { inbox = to_sender; outbox = [] })
        ≡ (ok dialled, record { inbox = []; outbox = to_receiver }))
      × (gather_and_connect there b false (record { inbox = to_receiver; outbox = [] })
          ≡ (ok accepted, record { inbox = []; outbox = to_sender }))
      × (dialogue 1 (peer_writes here a true) (peer_writes there b false)
          ≡ (to_sender, to_receiver))
ice_agreement here there a b own peer cs ps dialled accepted rh rt wa wb same um um' da ac = (
  offered here peer ps,
  offered here own cs,
  exchange-ok here rh a true own peer cs ps dialled [] wa um da,
  rw same (exchange-ok there rt b false peer own ps cs accepted [] wb um' ac),
  ice_dialogue here there a b own peer cs ps rh rt wa wb
      ∙ ap
          (λ m. (
            record (of_type msg_ice_credentials) { payload = m peer }
                ∷ (map candidate_message ps ++ candidate_message [] ∷ []),
            offered here own cs,
          ))
          (sym same),
)
