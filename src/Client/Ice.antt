-- ===== src/Client/Ice.antt =====
-- internal/client/ice.go: `GatherAndConnect`, the exchange of credentials and candidates over the
-- signaling connection. The agent (github.com/pion/ice) is a parameter: what it gathers, which
-- candidates it can read, and what its `Dial` or `Accept` returns for what it was told of the peer.
-- Logging is left out.
pub mod Exchange
pub mod Fuel
pub mod Bounds
pub mod Agents
pub mod Tests
use wani.Base.{
  ℕ, zero, suc, Bool, List, [], ◌∷◌, ◌++◌, Option, none, some, String, Result, ok, err, panic,
  length,
}
use wani.Base.State.{State, return, fail, ◌>>=◌, ◌>>◌, within}
use wani.Protocol.Message.{Bytes}
use wani.Client.Signaling.{
  SignalingClient, IceCredentials, Env, ClientError, send_ice_candidate, read_ice_candidate,
  send_ice_credentials, read_ice_credentials,
}

-- `gathered` is `none` if the context ends before the agent has finished; a candidate is what
-- `Marshal` makes of it. `dial` and `accept` are told the credentials and candidates of the peer.
pub record Agent (Conn : Type 0) : Type 0 where
  pub handler_error : Option String
  pub gather_error : Option String
  pub gathered : Option (List Bytes)
  pub credentials : Option IceCredentials
  pub unmarshal_error : Bytes → Option String
  pub add_error : List Bytes → Bytes → Option String
  pub dial : IceCredentials → List Bytes → Option Conn
  pub accept : IceCredentials → List Bytes → Option Conn

pub data IceError : Type 0 where
  handler_failed : String → IceError
  gather_failed : String → IceError
  gather_timeout : IceError
  no_credentials : IceError
  signaling_failed : ClientError → IceError
  bad_candidate : String → IceError
  add_failed : String → IceError
  connect_failed : IceError
  -- Not an error of the code: the fuel of the model has run out.
  out_of_fuel : IceError

abbrev pub IceM : Type 0 → Type 0
IceM A = State SignalingClient IceError A

abbrev pub lift_option : {A : Type 0} → IceError → Option A → IceM A
lift_option e none = fail e
lift_option e (some a) = return a

abbrev pub refuse : {A : Type 0} → (A → IceError) → Option A → IceM (Unit {0})
refuse e none = return tt
refuse e (some a) = fail (e a)

module _ {Conn : Type 0} (env : Env) (agent : Agent Conn) where
  unfoldable pub send_candidates : List Bytes → IceM (Unit {0})
  send_candidates [] = return tt
  send_candidates (c ∷ cs) =
      within signaling_failed (send_ice_candidate env c) >> send_candidates cs

  -- `OnCandidate`, `GatherCandidates` and the wait for the end of gathering.
  unfoldable pub gather : IceM (List Bytes)
  gather = do
    refuse handler_failed agent.handler_error
    refuse gather_failed agent.gather_error
    lift_option gather_timeout agent.gathered

  -- Credentials, then the candidates, then the sentinel.
  unfoldable pub send_local : List Bytes → IceM (Unit {0})
  unfolding send_candidates
  send_local candidates = do
    own ← lift_option no_credentials agent.credentials
    within signaling_failed (send_ice_credentials env own.ufrag own.pwd)
    send_candidates candidates
    within signaling_failed (send_ice_candidate env [])

  -- One candidate of the peer: it is read and told to the agent.
  unfoldable pub add_candidate : List Bytes → Bytes → IceM (List Bytes)
  add_candidate added raw = do
    refuse bad_candidate (agent.unmarshal_error raw)
    refuse add_failed (agent.add_error added raw)
    return (added ++ raw ∷ [])

  -- A round of the loop over the candidates of the peer: the sentinel ends it.
  unfoldable pub next_candidate :
      List Bytes → (List Bytes → IceM (List Bytes)) → Bytes → IceM (List Bytes)
  unfolding add_candidate
  next_candidate added loop [] = return added
  next_candidate added loop (b ∷ bs) = add_candidate added (b ∷ bs) >>= loop

  -- The loop. Each round reads a message, or fails.
  unfoldable pub read_candidates : ℕ → List Bytes → IceM (List Bytes)
  unfolding next_candidate
  read_candidates zero added = fail out_of_fuel
  read_candidates (suc fuel) added =
      within signaling_failed (read_ice_candidate env)
      >>= next_candidate added λ more. read_candidates fuel more

  abbrev pub fuel_for : SignalingClient → ℕ
  fuel_for c = suc (length c.inbox)

  unfoldable pub read_remote : IceM (IceCredentials × List Bytes)
  unfolding read_candidates
  read_remote = do
    peer ← within signaling_failed (read_ice_credentials env)
    candidates ← (λ c. read_candidates (fuel_for c) [] c)
    return (peer, candidates)

  unfoldable pub connect : Bool → IceCredentials × List Bytes → IceM Conn
  connect controlling (peer, candidates) = lift_option connect_failed (elim controlling [
    | Bool.true ↦ agent.dial peer candidates
    | Bool.false ↦ agent.accept peer candidates
  ])

  unfoldable pub gather_and_connect : Bool → IceM Conn
  unfolding gather send_local read_remote connect
  gather_and_connect controlling = do
    candidates ← gather
    send_local candidates
    peer ← read_remote
    connect controlling peer
