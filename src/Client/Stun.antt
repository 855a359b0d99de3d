-- ===== src/Client/Stun.antt =====
-- internal/client/stun.go: `DiscoverPublicAddr` and `querySTUN`. The sockets of package net and the
-- client of github.com/pion/stun are parameters; the state is the list of the calls on them, oldest
-- first, so that it shows what is left open. Deadlines are not counted out.
pub mod Closing
mod Tests
use Prim.Native.String.{◌++◌ as ◌^◌}
use wani.Base.{List, [], ◌∷◌, ◌++◌, Option, none, some, String, Result, ok, err, panic}
use wani.Base.State.{State}

abbrev pub default_stun_servers : List String
default_stun_servers = "stun.cloudflare.com:3478" ∷ "stun.l.google.com:19302" ∷ []

-- What the handler of a request is called with, `stun.Event`.
pub data StunEvent (Message : Type 0) : Type 0 where
  failed : String → StunEvent Message
  response : Message → StunEvent Message

-- What the libraries do with a query of each server: the errors of `DialContext`, `NewClient` and
-- `Do`, the events that `Do` gives its handler before it returns, and `GetFrom` of
-- `XORMappedAddress`, which leaves an address and returns an error or not.
pub record Library (Addr Message : Type 0) : Type 0 where
  pub dial : String → Option String
  pub new_client : String → Option String
  pub request : String → Option String
  pub events : String → List (StunEvent Message)
  pub get_from : Addr → Message → Addr × Option String
  pub zero_addr : Addr

pub data StunCall : Type 0 where
  conn_opened : String → StunCall
  deadline_set : StunCall
  client_opened : StunCall
  requested : StunCall
  client_closed : StunCall
  conn_closed : StunCall
  context_cancelled : StunCall

pub data StunError : Type 0 where
  dial_failed : String → String → StunError
  client_failed : String → String → StunError
  request_failed : String → String → StunError
  response_failed : String → String → StunError

abbrev pub M : Type 0 → Type 0 → Type 0
M E A = State (List StunCall) E A

-- A call that succeeds, or is deferred.
abbrev pub note : StunCall → List StunCall → List StunCall
note c calls = calls ++ c ∷ []

abbrev pub deferring : {E A : Type 0} → StunCall → M E A → M E A
deferring c m calls = let (r, calls') = m calls in (r, note c calls')

module _ {Addr Message : Type 0} (lib : Library Addr Message) where
  -- The handler of the request: the address, and `respErr`.
  unfoldable pub handle_event : StunEvent Message → Addr × Option String → Addr × Option String
  handle_event (failed text) (addr, resp_err) = (addr, some text)
  handle_event (response m) (addr, resp_err) = lib.get_from addr m

  unfoldable pub handle_events :
      List (StunEvent Message) → Addr × Option String → Addr × Option String
  unfolding handle_event
  handle_events [] r = r
  handle_events (e ∷ events) r = handle_events events (handle_event e r)

  -- `querySTUN` behind its request.
  unfoldable pub answer : String → Addr × Option String → Result StunError Addr
  answer server (addr, none) = ok addr
  answer server (addr, some text) = err (response_failed server text)

  -- `querySTUN` behind its client.
  unfoldable pub request_addr : String → M StunError Addr
  unfolding answer handle_events
  request_addr server calls = (
    elim (lib.request server) [
      | some text ↦ err (request_failed server text)
      | none ↦ answer server (handle_events (lib.events server) (lib.zero_addr, none))
    ],
    note requested calls,
  )

  -- `querySTUN` behind its connection.
  unfoldable pub with_client : String → M StunError Addr
  unfolding request_addr
  with_client server calls = elim (lib.new_client server) [
    | some text ↦ (err (client_failed server text), calls)
    | none ↦ deferring client_closed (request_addr server) (note client_opened calls)
  ]

  unfoldable pub query_stun : String → M StunError Addr
  unfolding with_client
  query_stun server calls = elim (lib.dial server) [
    | some text ↦ (err (dial_failed server text), calls)
    | none ↦
        deferring conn_closed (λ c. with_client server (note deadline_set c))
          (note (conn_opened server) calls)
  ]

  -- The loop over the servers, with the errors so far; what follows a query that failed is `later`.
  abbrev pub or_next :
      Result StunError Addr
      → (List StunError → Result (List StunError) Addr × List StunCall)
      → List StunError
      → List StunCall
      → Result (List StunError) Addr × List StunCall
  or_next (ok addr) later errs calls = (ok addr, calls)
  or_next (err e) later errs calls = later (errs ++ e ∷ [])
  or_next panic later errs calls = (panic, calls)

  unfoldable pub query_each : List String → List StunError → M (List StunError) Addr
  unfolding query_stun
  query_each [] errs calls = (err errs, calls)
  query_each (server ∷ servers) errs calls =
      let (r, calls') = deferring context_cancelled (query_stun server) calls in
      or_next r (λ errs'. query_each servers errs' calls') errs calls'

  unfoldable pub discover_public_addr : M (List StunError) Addr
  unfolding query_each
  discover_public_addr calls = query_each default_stun_servers [] calls

-- `runSTUN` of cmd/wani-client/main.go: what it prints, with the `String` method of an address, and
-- the error that it returns.
module _ {Addr Message : Type 0} (lib : Library Addr Message) (show_addr : Addr → String) where
  abbrev pub print_addr : Result (List StunError) Addr → Result (List StunError) (List String)
  print_addr (ok addr) = ok (("Public address: " ^ show_addr addr) ∷ [])
  print_addr (err errs) = err errs
  print_addr panic = panic

  unfoldable pub run_stun : M (List StunError) (List String)
  unfolding discover_public_addr
  run_stun calls =
      let (r, calls') = deferring context_cancelled (discover_public_addr lib) calls in
      (print_addr r, calls')
