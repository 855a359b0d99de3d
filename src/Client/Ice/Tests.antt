-- ===== src/Client/Ice/Tests.antt =====
-- Tests of the exchange of candidates with toy agents, and the theorems at concrete inputs.
use wani.Base.{◌≡◌, refl, true, false, List, [], ◌∷◌, none, some, ok, ℕ}
use wani.Protocol.Message.{Bytes, SignalMessage, of_type, msg_relay}
use wani.Client.Signaling.{
  Env, IceCredentials, SignalingClient, scan, read_until, read_ice_credentials, read_ice_candidate,
  send_ice_credentials, send_ice_candidate, write_json,
}
use wani.Client.Ice.{
  Agent, gather, send_local, send_candidates, read_remote, read_candidates, next_candidate,
  add_candidate, connect, gather_and_connect,
}
use wani.Client.Signaling.Dialogue.{dialogue}
use wani.Client.Ice.Exchange.{
  Works, ice_agreement, peer_writes, candidate_message, credentials_message,
}

abbrev env : Env
env = record {
  wire = λ sent m. none;
  closed = "closed";
  hmac = λ key label. key;
  marshal = λ c. c.ufrag;
  unmarshal = λ b. some (record { ufrag = b; pwd = [] });
}

abbrev pub creds : ℕ → IceCredentials
creds n = record { ufrag = n ∷ []; pwd = [] }

-- An agent that connects with the number of the credentials that it was told.
abbrev pub toy : ℕ → List Bytes → Agent ℕ
toy n cs = record {
  handler_error = none;
  gather_error = none;
  gathered = some cs;
  credentials = some (creds n);
  unmarshal_error = λ b. elim b [ [] ↦ none | ◌∷◌ c _ ↦ none ];
  add_error = λ before c. none;
  dial = λ peer ps. some 1;
  accept = λ peer ps. some 2;
}

abbrev pub left : List Bytes
left = (10 ∷ []) ∷ (11 ∷ []) ∷ []

abbrev pub right : List Bytes
right = (20 ∷ []) ∷ []

pub toy-Works : Works (toy 1 left) (creds 1) left (creds 2) right
toy-Works = record {
  handles = refl;
  gathers = refl;
  candidates = refl;
  knows_own = refl;
  full = ((λ h. cc), tt);
  readable = (refl, tt);
  adds = λ before c. refl;
}

pub toy-Works_back : Works (toy 2 right) (creds 2) right (creds 1) left
toy-Works_back = record {
  handles = refl;
  gathers = refl;
  candidates = refl;
  knows_own = refl;
  full = ((λ h. cc), ((λ h. cc), tt));
  readable = (refl, (refl, tt));
  adds = λ before c. refl;
}

ice_agreement_example :
    (to_sender : List SignalMessage) × (to_receiver : List SignalMessage) × (gather_and_connect env
        (toy 1 left)
        true
        (record { inbox = to_sender; outbox = [] })
      ≡ (ok 1, record { inbox = []; outbox = to_receiver }))
    × (gather_and_connect env (toy 2 right) false (record { inbox = to_receiver; outbox = [] })
        ≡ (ok 2, record { inbox = []; outbox = to_sender }))
    × (dialogue 1 (peer_writes env (toy 1 left) true) (peer_writes env (toy 2 right) false)
        ≡ (to_sender, to_receiver))
ice_agreement_example =
    ice_agreement env env (toy 1 left) (toy 2 right) (creds 1) (creds 2) left right 1 2
      (λ sent m. refl) (λ sent m. refl) toy-Works toy-Works_back refl refl refl refl refl

-- Messages of other types in between are ignored.
abbrev noisy : SignalingClient
noisy = record {
  inbox =
      credentials_message env (creds 2)
      ∷ of_type msg_relay
      ∷ candidate_message (20 ∷ [])
      ∷ candidate_message []
      ∷ [];
  outbox = [];
}

noisy_test : (gather_and_connect env (toy 1 left) true noisy).0 ≡ ok 1
unfolding gather_and_connect gather send_local send_candidates read_remote read_candidates
    next_candidate add_candidate connect scan read_until read_ice_credentials read_ice_candidate
    send_ice_credentials send_ice_candidate write_json
noisy_test = refl
