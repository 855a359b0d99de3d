-- ===== src/Client/Ice/Agents.antt =====
-- internal/client/ice.go: `NewICEAgent`. The constructor of the agent (github.com/pion/ice) is a
-- parameter that is given the options.
use wani.Base.{ℕ, List, [], ◌∷◌, Option, none, some, String, Result, wrap}

pub record Uri : Type 0 where
  pub scheme : String
  pub host : String
  pub port : ℕ

pub record AgentOptions : Type 0 where
  pub urls : List Uri
  pub network_types : List String
  pub candidate_types : List String

-- "ice.NewICEAgent: %w"
pub data NewAgentError : Type 0 where
  new_agent_failed : String → NewAgentError

abbrev pub default_ice_stun_servers : List Uri
default_ice_stun_servers =
    record { scheme = "stun"; host = "stun.cloudflare.com"; port = 3478 }
    ∷ record { scheme = "stun"; host = "stun.l.google.com"; port = 19302 }
    ∷ []

-- A nil list is `none`.
unfoldable pub or_default : Option (List Uri) → List Uri
or_default none = default_ice_stun_servers
or_default (some servers) = servers

unfoldable pub new_ice_agent :
    {Agent : Type 0}
    → (AgentOptions → Result String Agent)
    → Option (List Uri)
    → Result NewAgentError Agent
unfolding or_default
new_ice_agent new_agent stun_servers = wrap new_agent_failed (
    new_agent (record {
      urls = or_default stun_servers;
      network_types = "udp4" ∷ [];
      candidate_types = "host" ∷ "srflx" ∷ [];
    }))
