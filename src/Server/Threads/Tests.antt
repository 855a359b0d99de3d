-- ===== src/Server/Threads/Tests.antt =====
-- Tests of the goroutines of the server, and the theorems at concrete inputs.
use wani.Base.{
  ℕ, ◌+◌, ◌<◌, ◌≡◌, refl, ◌≢◌, ◌↔◌, zero, suc, inl, inr, Bool-cases, ◌==◌, true, false, [], ◌∷◌,
  none, some, arith, Text, codes, text_eq, split, join, lookup, insert, erase,
}
use wani.Protocol.Message.{of_type, msg_relay, msg_create_session}
use wani.Protocol.Codes.{Rand, generate_code, validate_code}
use wani.Server.Store.{
  Conn, Store, new_session_store, create_sender, add_receiver, lookup_conn, expired, session_ttl,
}
use wani.Server.Store.Invariant.{IsValid, new_session_store-IsValid, create_sender-IsValid}
use wani.Server.Store.Roles.{IsSender, IsReceiver}
use wani.Server.Store.Joining.{
  create_sender-IsSender, add_receiver-IsReceiver, add_receiver-IsSender,
}
use wani.Server.World.{Env, write_json}
use wani.Server.Handlers.{dispatch}
use wani.Server.Handlers.Pairing.{relayed}
use wani.Server.Threads.{
  reading, creating, joining, telling_receiver, leaving, gone, Turn, begin, advance, System,
  started, place, turn, collect, delete_next,
}
use wani.Server.Threads.Reachable.{IsFair, Reach, here, next, runs}
use wani.Server.Threads.Safety.{LostReceiver, turn-LostReceiver}
use wani.Server.Threads.Races.{run, in_flight, relay_race, clean_up_race}

abbrev env : Env
env = record {
  word_list = record { words = codes "owl" ∷ []; word_set = (codes "owl", tt) ∷ [] };
  wire = λ sent c m. none;
  quote = λ t. t;
}

stocked : env.word_list.words ≢ []
stocked = λ e. cc

abbrev broken : Rand
broken i max = none

abbrev code : Text
code = codes "owl-owl-owl-owl"

-- A session of connection 1 at the time 100, that connection 2 has joined at the time 200.
abbrev one_sender : Store
one_sender = (create_sender 100 code 1 new_session_store).0

abbrev paired : Store
paired = (add_receiver 200 code 2 one_sender).0

program : Unit {0}
unfolding new_session_store generate_code validate_code text_eq split join lookup insert erase
    dispatch write_json lookup_conn create_sender add_receiver expired collect
program = tt

one_sender-IsValid : IsValid one_sender
unfolding program
one_sender-IsValid =
    create_sender-IsValid 100 code 1 new_session_store new_session_store-IsValid refl

one_sender-IsSender : IsSender one_sender 1 code 0
unfolding new_session_store
one_sender-IsSender = create_sender-IsSender 100 code 1 new_session_store

paired-IsSender : IsSender paired 1 code 0
unfolding program
paired-IsSender =
    add_receiver-IsSender 200 code 2 1 one_sender 0 one_sender-IsSender refl
      (λ e. absurd (omega arith))

paired-IsReceiver : IsReceiver paired 2 code 0
unfolding program
paired-IsReceiver = add_receiver-IsReceiver 200 code 2 one_sender 0 one_sender-IsValid refl refl

abbrev hears : Turn
hears = record { now = 300; rand = broken; incoming = some (relayed msg_relay (7 ∷ [])) }

abbrev closes : Turn
closes = record { now = 310; rand = broken; incoming = none }

abbrev at_loop : Store → System
at_loop ss = record { world = record { store = ss; sent = [] }; pc = λ x. reading; doomed = [] }

abbrev first : Rand
first i zero = none
first i (suc max) = some 0

first_range : (i max idx : ℕ) → first i max ≡ some idx → idx < max
first_range i zero idx h = cc
first_range i (suc max) idx h = ground arith

-- Connection 1 asks for a session, and its goroutine stores it.
abbrev asks : Turn
asks = record { now = 100; rand = first; incoming = some (of_type msg_create_session) }

abbrev asked : System
asked = turn env asks 1 started

abbrev stored : System
stored = turn env asks 1 asked

asked-creating : (x : Conn) → asked.pc x ≡ place (λ y. reading) 1 (creating code) x
unfolding program started turn advance begin
asked-creating x = refl

started-IsFair : IsFair env asks 1 started
unfolding started
started-IsFair = record { in_range = first_range; unused = λ c h. cc; unheld = λ c h. cc }

asked-IsFair : IsFair env asks 1 asked
unfolding program started turn advance
asked-IsFair = record {
  in_range = first_range;
  unused = λ c h. refl;
  unheld = λ c h x crashed side.
      rw (asked-creating x)
        (elim (Bool-cases (1 == x)) [ inl e ↦ rw e (λ h. cc) | inr e ↦ rw e (λ h. cc) ]);
}

stored-IsFair : IsFair env asks 1 stored
unfolding program started turn advance begin
stored-IsFair = record { in_range = first_range; unused = λ c h. cc; unheld = λ c h. cc }

turn-LostReceiver_example :
    IsValid (turn env asks 1 stored).world.store
    × (((turn env asks 1 stored).pc 1 ≡ leaving true)
        ↔ LostReceiver env stocked (stored.pc 1) stored.world)
turn-LostReceiver_example =
    turn-LostReceiver env stocked asks 1
      (next (next here (runs asks 1 started-IsFair)) (runs asks 1 asked-IsFair)) stored-IsFair

broken_range : (i max idx : ℕ) → broken i max ≡ some idx → idx < max
broken_range i max idx h = cc

relay_race_example :
    let lost = run env (in_flight env 1 2 hears closes) (at_loop paired) in
    let over = run env ((1, hears) ∷ (1, hears) ∷ []) lost in
    Reach env (at_loop paired) over
    × (lost.pc 1 ≡ leaving true)
    × (over.pc 1 ≡ gone true)
    × (over.pc 2 ≡ gone false)
    × ((add_receiver 400 code 3 over.world.store).1 ≡ none)
relay_race_example =
    relay_race env 1 2 3 (at_loop paired) code 0 400 (7 ∷ []) hears closes
      (λ e. absurd (omega arith)) paired-IsSender paired-IsReceiver refl refl refl refl broken_range
      broken_range

-- The clean-up runs just after the session of connection 1 has expired, as connection 2 joins it.
abbrev late : System
late = record {
  world = record { store = one_sender; sent = [] };
  pc = λ x. joining code;
  doomed = [];
}

abbrev enters : Turn
enters = record { now = 102 + session_ttl; rand = broken; incoming = none }

late-IsFair : IsFair env enters 2 (collect env (101 + session_ttl) late)
unfolding collect
late-IsFair = record { in_range = λ i max idx h. cc; unused = λ c h. cc; unheld = λ c h. cc }

clean_up_race_example :
    let joined = turn env enters 2 (collect env (101 + session_ttl) late) in
    let over = delete_next env code [] joined in
    Reach env late over
    × (over.pc 2 ≡ telling_receiver 0)
    × ((over.world.store.heap 0).expires_at ≡ 102 + session_ttl + session_ttl)
    × (lookup code over.world.store.sessions ≡ none)
    × (lookup_conn 2 over.world.store ≡ none)
unfolding program
clean_up_race_example =
    clean_up_race env 2 late code 0 (101 + session_ttl) [] enters one_sender-IsValid late-IsFair
      refl refl refl refl refl
