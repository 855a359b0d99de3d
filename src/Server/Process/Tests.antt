-- ===== src/Server/Process/Tests.antt =====
-- Tests of the process of the server, and the theorem at a concrete input.
use wani.Base.{
  ℕ, suc, zero, ◌+◌, ◌≡◌, refl, List, [], ◌∷◌, none, some, codes, text_eq, join, insert, erase,
  lookup, length,
}
use wani.Protocol.Message.{of_type, msg_create_session}
use wani.Protocol.Codes.{Rand, generate_code}
use wani.Server.Store.{
  ticked, cancelled, session_ttl, new_session_store, create_sender, evict_expired, delete_session,
}
use wani.Server.World.{Env, write_json}
use wani.Server.Handlers.{dispatch, handle_create_session, finish}
use wani.Server.Process.{
  ProcessEvent, interrupted, cleans, receives, fails, handle_health, new_server, run_server,
}
use wani.Server.Process.Shutdown.{Agree, run_server-interrupted}

abbrev env : Env
env = record {
  word_list = record { words = codes "owl" ∷ []; word_set = (codes "owl", tt) ∷ [] };
  wire = λ sent c m. none;
  quote = λ t. t;
}

abbrev first : Rand
first i zero = none
first i (suc max) = some 0

abbrev creates : ProcessEvent
creates = receives 1 (record { now = 100; rand = first; content = of_type msg_create_session })

-- The clean-up long after the session has expired.
abbrev late : ProcessEvent
late = cleans (ticked (200 + session_ttl))

health_body : (handle_health (new_server ":8080")).body ≡ "Server is listening on :8080\n"
unfolding handle_health new_server
health_body = refl

abbrev kept : List ProcessEvent → ℕ
kept events = length (run_server env ":8080" events).0.server.world.store.sessions

program : Unit {0}
unfolding run_server generate_code text_eq join dispatch handle_create_session write_json
    create_sender evict_expired delete_session lookup erase insert new_session_store new_server
    finish
program = tt

expires_test : kept (creates ∷ late ∷ []) ≡ 0
unfolding program
expires_test = refl

interrupted_test : kept (creates ∷ interrupted ∷ cleans cancelled ∷ late ∷ []) ≡ 1
unfolding program
interrupted_test = refl

run_server-interrupted_example :
    Agree env
      (run_server env ":8080"
        (creates ∷ interrupted ∷ cleans cancelled ∷ late ∷ fails "closed" ∷ []))
      (run_server env ":8080" (creates ∷ fails "closed" ∷ []))
run_server-interrupted_example =
    run_server-interrupted env ":8080" (creates ∷ []) (late ∷ fails "closed" ∷ [])
