-- ===== src/Server/Process/Shutdown.antt =====
-- cmd/wani-server/main.go: what a signal does to the server.
use wani.Base.{◌≡◌, refl, ap, ◌∙◌, true, false, List, [], ◌∷◌, ◌++◌, Option, arith, String}
use wani.Server.Store.{CleanupEvent, ticked, cancelled}
use wani.Server.World.{Env}
use wani.Server.Handlers.{dispatch, finish, cleanup_conn}
use wani.Server.Process.{
  Server, Process, ProcessEvent, interrupted, cleans, receives, closes, fails, after_event,
  listen_and_serve, run_server,
}

-- The events without signals and without the clean-up.
abbrev pub clients : List ProcessEvent → List ProcessEvent
clients [] = []
clients (interrupted ∷ later) = clients later
clients (cleans e ∷ later) = clients later
clients (receives conn a ∷ later) = receives conn a ∷ clients later
clients (closes conn now ∷ later) = closes conn now ∷ clients later
clients (fails text ∷ later) = fails text ∷ clients later

module _ (env : Env) where
  -- Two processes with the same server that end in the same way.
  abbrev pub Agree : Process × Option String → Process × Option String → Type 0
  Agree r s = (r.0.server ≡ s.0.server) × (r.1 ≡ s.1)

  cleans-stopped :
      (e : CleanupEvent) (p : Process)
      → p.is_cleaning ≡ false
      → ((after_event env (cleans e) p).is_cleaning ≡ false)
        × ((after_event env (cleans e) p).server ≡ p.server)
  unfolding after_event
  cleans-stopped cancelled p h = ground (arith, h)
  cleans-stopped (ticked now) p h = ground (arith, h)

  stopped :
      (events : List ProcessEvent) (p q : Process)
      → p.is_cleaning ≡ false
      → p.server ≡ q.server
      → Agree (listen_and_serve env events p) (listen_and_serve env (clients events) q)
  unfolding listen_and_serve after_event
  stopped [] p q h e = (e, refl)
  stopped (interrupted ∷ later) p q h e = stopped later (record p { is_cancelled = true }) q h e
  stopped (cleans c ∷ later) p q h e =
      let (h', e') = cleans-stopped c p h in stopped later _ q h' (e' ∙ e)
  stopped (receives conn a ∷ later) p q h e = stopped later _ _ h (
      ap
        (λ (s : Server). record s {
          world = (finish env a.now conn (dispatch env a.now a.rand conn a.content s.world)).0;
        })
        e)
  stopped (closes conn now ∷ later) p q h e =
      stopped later _ _ h
        (ap (λ (s : Server). record s { world = cleanup_conn now conn s.world }) e)
  stopped (fails text ∷ later) p q h e = (e, refl)

  interrupted_later :
      (before after : List ProcessEvent) (p : Process)
      → Agree
          (listen_and_serve env (before ++ interrupted ∷ cleans cancelled ∷ after) p)
          (listen_and_serve env (before ++ clients after) p)
  unfolding listen_and_serve after_event
  interrupted_later [] after p = stopped after _ p refl refl
  interrupted_later (interrupted ∷ before) after p = interrupted_later before after _
  interrupted_later (cleans c ∷ before) after p = interrupted_later before after _
  interrupted_later (receives conn a ∷ before) after p = interrupted_later before after _
  interrupted_later (closes conn now ∷ before) after p = interrupted_later before after _
  interrupted_later (fails text ∷ before) after p = (refl, refl)

  -- A signal does not end the server. Once the clean-up has seen the cancelled context, the server
  -- answers messages, lets connections go and fails as one that is neither signalled again nor ever
  -- cleaned up: it serves until `http.ListenAndServe` fails, and no session expires any more.
  pub run_server-interrupted :
      (addr : String) (before after : List ProcessEvent)
      → Agree
          (run_server env addr (before ++ interrupted ∷ cleans cancelled ∷ after))
          (run_server env addr (before ++ clients after))
  unfolding run_server
  run_server-interrupted addr before after = interrupted_later before after _
