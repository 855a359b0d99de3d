-- ===== src/Client/Stun/Tests.antt =====
-- Tests of the discovery of the public address: the first server answers with an error.
use wani.Base.{ℕ, ◌≡◌, refl, [], ◌∷◌, none, ok, str_eq, if◌then◌else◌, ◌==◌}
use wani.Client.Stun.{
  Library, failed, response, conn_opened, deadline_set, client_opened, requested, client_closed,
  conn_closed, default_stun_servers, query_stun, discover_public_addr, run_stun,
}
use wani.Client.Stun.Closing.{discover_public_addr-First, First}

abbrev lib : Library ℕ ℕ
lib = record {
  dial = λ server. none;
  new_client = λ server. none;
  request = λ server. none;
  events = λ server.
      if str_eq server "stun.cloudflare.com:3478" then failed "timeout" ∷ [] else response 7 ∷ [];
  get_from = λ old m. (m, none);
  zero_addr = 0;
}

printed_test :
    (run_stun lib (λ addr. if addr == 7 then "1.2.3.4:7" else "") []).0
    ≡ ok ("Public address: 1.2.3.4:7" ∷ [])
unfolding run_stun
printed_test = refl

calls_test :
    (query_stun lib "stun.cloudflare.com:3478" []).1
    ≡ conn_opened "stun.cloudflare.com:3478"
      ∷ deadline_set
      ∷ client_opened
      ∷ requested
      ∷ client_closed
      ∷ conn_closed
      ∷ []
unfolding query_stun
calls_test = refl

second_test : First lib 7 default_stun_servers
unfolding discover_public_addr
second_test = discover_public_addr-First lib 7 refl
