-- ===== src/Client/Stun/Closing.antt =====
-- internal/client/stun.go: what the discovery of the public address returns, and that it leaves
-- nothing open.
use wani.Base.{
  ◌≡◌, refl, sym, ap, ◌∙◌, inl, inr, List, [], ◌∷◌, ◌++◌, Option, none, some, String, Result, ok,
  err, panic, Option-cases, ok-injective,
}
use wani.Client.Stun.{
  Library, StunCall, conn_opened, deadline_set, client_opened, requested, client_closed,
  conn_closed, context_cancelled, StunError, query_stun, query_each, with_client, request_addr,
  discover_public_addr, or_next, default_stun_servers, note,
}

pub data Resource : Type 0 where
  a_conn : Resource
  a_client : Resource

-- What is open after some calls, the last opened first; nothing is the result if a call closes what
-- is not the last opened.
unfoldable pub left_open : List StunCall → List Resource → Option (List Resource)
left_open [] held = some held
left_open (conn_opened server ∷ calls) held = left_open calls (a_conn ∷ held)
left_open (client_opened ∷ calls) held = left_open calls (a_client ∷ held)
left_open (conn_closed ∷ calls) (a_conn ∷ held) = left_open calls held
left_open (client_closed ∷ calls) (a_client ∷ held) = left_open calls held
left_open (conn_closed ∷ calls) _ = none
left_open (client_closed ∷ calls) _ = none
left_open (_ ∷ calls) held = left_open calls held

abbrev then_open : Option (List Resource) → List StunCall → Option (List Resource)
then_open none calls = none
then_open (some held) calls = left_open calls held

left_open-append :
    (calls more : List StunCall) (held : List Resource)
    → left_open (calls ++ more) held ≡ then_open (left_open calls held) more
unfolding left_open
left_open-append [] more held = refl
left_open-append (conn_opened server ∷ calls) more held = left_open-append calls more _
left_open-append (client_opened ∷ calls) more held = left_open-append calls more _
left_open-append (conn_closed ∷ calls) more [] = refl
left_open-append (conn_closed ∷ calls) more (a_conn ∷ held) = left_open-append calls more held
left_open-append (conn_closed ∷ calls) more (a_client ∷ held) = refl
left_open-append (client_closed ∷ calls) more [] = refl
left_open-append (client_closed ∷ calls) more (a_conn ∷ held) = refl
left_open-append (client_closed ∷ calls) more (a_client ∷ held) = left_open-append calls more held
left_open-append (deadline_set ∷ calls) more held = left_open-append calls more held
left_open-append (requested ∷ calls) more held = left_open-append calls more held
left_open-append (context_cancelled ∷ calls) more held = left_open-append calls more held

-- The calls of a query that gets no client, and of one that does.
short_query :
    (server : String) (o : Option (List Resource))
    → then_open
        (then_open (then_open o (conn_opened server ∷ [])) (deadline_set ∷ []))
        (conn_closed ∷ [])
      ≡ o
unfolding left_open
short_query server none = refl
short_query server (some held) = refl

full_query :
    (server : String) (o : Option (List Resource))
    → then_open
        (then_open
          (then_open
            (then_open
              (then_open (then_open o (conn_opened server ∷ [])) (deadline_set ∷ []))
              (client_opened ∷ []))
            (requested ∷ []))
          (client_closed ∷ []))
        (conn_closed ∷ [])
      ≡ o
unfolding left_open
full_query server none = refl
full_query server (some held) = refl

cancelled_query : (o : Option (List Resource)) → then_open o (context_cancelled ∷ []) ≡ o
unfolding left_open
cancelled_query none = refl
cancelled_query (some held) = refl

module _ {Addr Message : Type 0} (lib : Library Addr Message) where
  query_stun-left_open :
      (server : String) (calls : List StunCall)
      → left_open (query_stun lib server calls).1 [] ≡ left_open calls []
  unfolding query_stun with_client request_addr
  query_stun-left_open server calls = elim (Option-cases (lib.dial server)) [
    | inr (text, e) ↦ rw (e, query_stun) refl
    | inl e ↦
        rw (e, query_stun)
          (elim (Option-cases (lib.new_client server)) [
            | inr (text, e') ↦
                rw (e', with_client, left_open-append, left_open-append, left_open-append)
                  (short_query server (left_open calls []))
            | inl e' ↦
                rw
                  (
                    e', with_client, left_open-append, left_open-append, left_open-append,
                    left_open-append, left_open-append, left_open-append,
                  )
                  (full_query server (left_open calls []))
          ])
  ]

  -- What a query returns does not depend on the calls before it.
  query_stun-result :
      (server : String) (calls : List StunCall)
      → (query_stun lib server calls).0 ≡ (query_stun lib server []).0
  unfolding query_stun with_client request_addr
  query_stun-result server calls = elim (Option-cases (lib.dial server)) [
    | inr (text, e) ↦ rw (e, query_stun) refl
    | inl e ↦
        rw (e, query_stun)
          (elim (Option-cases (lib.new_client server)) [
            | inr (text, e') ↦ rw (e', with_client) refl
            | inl e' ↦ rw (e', with_client) refl
          ])
  ]

  -- The first of the servers whose query succeeds gives the address.
  pub data First (addr : Addr) : List String → Type 0 where
    here :
        (server : String) (servers : List String)
        → (query_stun lib server []).0 ≡ ok addr
        → First addr (server ∷ servers)
    there :
        (server : String) (servers : List String) (e : StunError)
        → (query_stun lib server []).0 ≡ err e
        → First addr servers
        → First addr (server ∷ servers)

  -- What the loop leaves open and returns, by the outcome of the first query.
  Outcome : List String → List StunCall → Result (List StunError) Addr × List StunCall → Type 0
  Outcome servers calls o =
      (left_open o.1 [] ≡ left_open calls []) × ((addr : Addr) → o.0 ≡ ok addr → First addr servers)

  after_query :
      (server : String) (servers : List String) (errs : List StunError)
      (calls calls' : List StunCall) (r : Result StunError Addr)
      → (query_stun lib server []).0 ≡ r
      → left_open calls' [] ≡ left_open calls []
      → ((errs' : List StunError) → Outcome servers calls' (query_each lib servers errs' calls'))
      → Outcome
          (server ∷ servers)
          calls
          (or_next lib r (λ errs'. query_each lib servers errs' calls') errs calls')
  unfolding Outcome
  after_query server servers errs calls calls' (ok addr) e same later =
      (same, λ a h. here server servers (e ∙ ap ok (ok-injective h)))
  after_query server servers errs calls calls' (err x) e same later =
      let (closed, first) = later (errs ++ x ∷ []) in
      (closed ∙ same, λ a h. there server servers x e (first a h))
  after_query server servers errs calls calls' panic e same later = (same, λ a h. cc)

  query_each-Outcome :
      (servers : List String) (errs : List StunError) (calls : List StunCall)
      → Outcome servers calls (query_each lib servers errs calls)
  unfolding query_each
  query_each-Outcome [] errs calls = unfold Outcome in (refl, λ addr h. cc)
  query_each-Outcome (server ∷ servers) errs calls =
      let (r, queried) = query_stun lib server calls in
      after_query server servers errs calls (note context_cancelled queried) r
        (sym (query_stun-result server calls))
        (left_open-append queried _ [] ∙ cancelled_query _ ∙ query_stun-left_open server calls)
        (λ errs'. query_each-Outcome servers errs' (note context_cancelled queried))

  -- Whatever fails, every connection and every client that the discovery has opened is closed when
  -- it returns, the last opened first.
  pub discover_public_addr-left_open : left_open (discover_public_addr lib []).1 [] ≡ some []
  unfolding discover_public_addr left_open Outcome
  discover_public_addr-left_open = (query_each-Outcome default_stun_servers [] []).0

  -- An address that it returns is the one of the first server whose query succeeds.
  pub discover_public_addr-First :
      (addr : Addr) → (discover_public_addr lib []).0 ≡ ok addr → First addr default_stun_servers
  unfolding discover_public_addr Outcome
  discover_public_addr-First = (query_each-Outcome default_stun_servers [] []).1
