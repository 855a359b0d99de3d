-- ===== src/Server/Process.antt =====
-- internal/server/server.go and cmd/wani-server/main.go: the server as a process, from `run` on. The
-- packages net/http and os/signal are outside: what they bring about is a list of events, in which
-- the goroutine of the clean-up and those of the connections take their steps in any order.
pub mod Shutdown
mod Tests
use Prim.Native.String.{◌++◌}
use wani.Base.{
  ℕ, Bool, true, false, ◌||◌, List, [], ◌∷◌, Option, none, some, String, Result, ok, err,
  if◌then◌else◌,
}
use wani.Server.Store.{Conn, CleanupEvent, ticked, cancelled, new_session_store, evict_expired}
use wani.Server.World.{Env, World}
use wani.Server.Handlers.{Arrival, dispatch, finish, cleanup_conn}

pub data Handler : Type 0 where
  health : Handler
  web_socket : Handler

-- `Server`; its store is in the world that the handlers act on.
pub record Server : Type 0 where
  pub addr : String
  pub mux : List (String × Handler)
  pub world : World

pub record Response : Type 0 where
  pub content_type : String
  pub status : ℕ
  pub body : String

-- `New`, up to the start of the clean-up.
unfoldable pub new_server : String → Server
new_server addr = record {
  addr = addr;
  mux = ("/health", health) ∷ ("/ws", web_socket) ∷ [];
  world = record { store = new_session_store; sent = [] };
}

unfoldable pub handle_health : Server → Response
handle_health s = record {
  content_type = "text/plain";
  status = 200;
  body = "Server is listening on " ++ s.addr ++ "\n";
}

-- The process: its server, whether its context is cancelled, and whether the goroutine of the
-- clean-up is still in its loop.
pub record Process : Type 0 where
  pub server : Server
  pub is_cancelled : Bool
  pub is_cleaning : Bool

-- What can come next: SIGINT or SIGTERM, which `signal.NotifyContext` takes from then on; a case of
-- the `select` of `StartCleanup`; a message on a connection; the end of a connection; a failure of
-- `http.ListenAndServe`, with its text.
pub data ProcessEvent : Type 0 where
  interrupted : ProcessEvent
  cleans : CleanupEvent → ProcessEvent
  receives : Conn → Arrival → ProcessEvent
  closes : Conn → ℕ → ProcessEvent
  fails : String → ProcessEvent

abbrev pub with_world : Process → World → Process
with_world p w = record p { server = record (p.server) { world = w } }

module _ (env : Env) where
  -- What an event makes of a process that serves. `ctx.Done()` is ready only after the context is
  -- cancelled, and the goroutine of the clean-up acts only while it is in its loop.
  unfoldable pub after_event : ProcessEvent → Process → Process
  after_event interrupted p = record p { is_cancelled = true }
  after_event (cleans cancelled) p = if p.is_cancelled then record p { is_cleaning = false } else p
  after_event (cleans (ticked now)) p =
      if p.is_cleaning
      then with_world p (record (p.server.world) { store = evict_expired now p.server.world.store })
      else p
  after_event (receives conn a) p =
      with_world p
        (finish env a.now conn (dispatch env a.now a.rand conn a.content p.server.world)).0
  after_event (closes conn now) p = with_world p (cleanup_conn now conn p.server.world)
  after_event (fails text) p = p

  -- `ListenAndServe` of `Server`, over the events: it returns only what `http.ListenAndServe` does.
  unfoldable pub listen_and_serve : List ProcessEvent → Process → Process × Option String
  unfolding after_event
  listen_and_serve [] p = (p, none)
  listen_and_serve (fails text ∷ later) p = (p, some ("server.ListenAndServe: " ++ text))
  listen_and_serve (e ∷ later) p = listen_and_serve later (after_event e p)

  -- `run`, with the address of its flag.
  unfoldable pub run_server : String → List ProcessEvent → Process × Option String
  unfolding listen_and_serve
  run_server addr events =
      listen_and_serve events
        (record { server = new_server addr; is_cancelled = false; is_cleaning = true })
