-- ===== src/Server/Tests.antt =====
-- Tests of the server with a few connections, and the theorems at concrete inputs.
use wani.Base.{
  inr, inl, Bool, ℕ, zero, suc, ◌+◌, ◌<◌, ◌≡◌, refl, ◌≢◌, List, true, false, [], ◌∷◌, none, some,
  arith, Text, codes, text_eq, split, join, lookup, insert, erase, panic,
}
use wani.Protocol.Message.{
  of_type, msg_create_session, msg_relay, msg_ice_candidate, msg_session_created, msg_session_ready,
}
use wani.Protocol.Codes.{Rand, generate_code, validate_code}
use wani.Server.Store.Spec.{
  Op, tick, open_session, enter, leave, answers, expected, at_code, apply_all, spec_all,
}
use wani.Server.Store.Refinement.{store_refinement}
use wani.Server.Store.{
  Store, new_session_store, create_sender, add_receiver, lookup_conn, delete_session, evict_expired,
  session_ttl, reconnect_ttl, start_cleanup,
}
use wani.Server.Store.Invariant.{
  IsValid, new_session_store-IsValid, create_sender-IsValid, add_receiver-IsValid,
}
use wani.Server.Store.Roles.{IsSender, IsReceiver}
use wani.Server.Store.Expiry.{evict_expired-strands}
use wani.Server.Store.Joining.{
  create_sender-IsSender, add_receiver-IsReceiver, create_sender-abandons,
}
use wani.Server.Store.Lifetime.{Untouched-none}
use wani.Server.Store.Cleanup.{Deadlines, ticks, start_cleanup-empties}
use wani.Server.World.{Env, World, write_json}
use wani.Server.Handlers.{
  Arrival, dispatch, handle_create_session, handle_join_session, handle_relay, cleanup_conn,
}
use wani.Server.Handlers.Dispatch.{IsGood}
use wani.Server.Handlers.Channel.{take_all, delivered}
use wani.Server.Handlers.Served.{creates, joins, take_all-delivered}
use wani.Server.Handlers.Loop.{receive, here, next, arrives, Reach_lem}
use wani.Server.Handlers.Pairing.{Relayed, relayed, handle_relay-Relayed}

abbrev env : Env
env = record {
  word_list = record { words = codes "owl" ∷ []; word_set = (codes "owl", tt) ∷ [] };
  wire = λ sent c m. none;
  quote = λ t. t;
}

abbrev first : Rand
first i zero = none
first i (suc max) = some 0

abbrev broken : Rand
broken i max = none

abbrev code : Text
code = codes "owl-owl-owl-owl"

abbrev start : World
start = record { store = new_session_store; sent = [] }

-- Connection 1 creates a session; connection 2 joins it.
abbrev created : World
created = (handle_create_session env 100 first 1 start).1

abbrev joined : World
joined = (handle_join_session env 200 2 code created).1

program : Unit {0}
unfolding new_session_store generate_code validate_code text_eq split join lookup insert erase
    dispatch handle_create_session handle_join_session handle_relay cleanup_conn write_json
    lookup_conn create_sender add_receiver
program = tt

joined_sent :
    joined.sent
    ≡ record { to = 1; content = record (of_type msg_session_created) { code = code } }
      ∷ record { to = 2; content = of_type msg_session_ready }
      ∷ record { to = 1; content = of_type msg_session_ready }
      ∷ []
unfolding program
joined_sent = refl

join_again : (handle_join_session env 300 3 code joined).1.sent ≡ joined.sent
unfolding program
join_again = refl

first_range : (i max idx : ℕ) → first i max ≡ some idx → idx < max
first_range i zero idx h = cc
first_range i (suc max) idx h = ground arith

start-IsGood : IsGood env first start
unfolding program
start-IsGood = record { in_range = first_range; fresh = λ c h. refl }

broken-IsGood : (w : World) → IsGood env broken w
unfolding program
broken-IsGood w = record { in_range = λ i max idx h. cc; fresh = λ c h. cc }

start-IsValid : IsValid start.store
start-IsValid = new_session_store-IsValid

abbrev create_arrival : Arrival
create_arrival = record { now = 100; rand = first; content = of_type msg_create_session }

abbrev relay_arrival : Arrival
relay_arrival = record { now = 150; rand = broken; content = relayed msg_relay (7 ∷ []) }

stocked : env.word_list.words ≢ []
stocked = λ e. cc

Reach_lem_example :
    IsValid (receive env stocked 1 create_arrival start).store
    × ((dispatch env 150 broken 1
          (relayed msg_relay (7 ∷ []))
          (receive env stocked 1 create_arrival start)).0
        ≢ panic)
Reach_lem_example =
    Reach_lem env stocked start (receive env stocked 1 create_arrival start) 1 relay_arrival refl
      (next here (arrives 1 create_arrival start-IsGood)) (broken-IsGood _)

-- The stores of `created` and of `joined`.
abbrev one_sender : Store
one_sender = (create_sender 100 code 1 new_session_store).0

abbrev paired : Store
paired = (add_receiver 200 code 2 one_sender).0

one_sender-IsValid : IsValid one_sender
unfolding program
one_sender-IsValid =
    create_sender-IsValid 100 code 1 new_session_store new_session_store-IsValid refl

one_sender-IsSender : IsSender one_sender 1 code 0
unfolding new_session_store
one_sender-IsSender = create_sender-IsSender 100 code 1 new_session_store

paired-IsReceiver : IsReceiver paired 2 code 0
unfolding program
paired-IsReceiver = add_receiver-IsReceiver 200 code 2 one_sender 0 one_sender-IsValid refl refl

create_sender-abandons_example :
    let ss = delete_session (codes "owl") (create_sender 150 (codes "owl") 1 one_sender).0 in
    (lookup_conn 1 ss ≡ none) × (lookup code ss.sessions ≡ some 0) × (ss.heap 0 ≡ one_sender.heap 0)
unfolding program
create_sender-abandons_example =
    create_sender-abandons 150 code (codes "owl") 1 one_sender 0 one_sender-IsValid
      one_sender-IsSender refl

-- Connection 1 creates a second session shortly before its first expires.
abbrev two_sessions : Store
two_sessions = (create_sender (100 + session_ttl) (codes "owl") 1 one_sender).0

two_sessions-IsValid : IsValid two_sessions
unfolding program
two_sessions-IsValid =
    create_sender-IsValid (100 + session_ttl) (codes "owl") 1 one_sender one_sender-IsValid refl

evict_expired-strands_example :
    (lookup (codes "owl") (evict_expired (101 + session_ttl) two_sessions).sessions ≡ some 1)
    × (lookup_conn 1 (evict_expired (101 + session_ttl) two_sessions) ≡ none)
unfolding program
evict_expired-strands_example =
    evict_expired-strands (101 + session_ttl) two_sessions code (codes "owl") 0 1
      two_sessions-IsValid refl (omega arith) refl (omega arith) refl

-- A second receiver is refused, one that comes after the first has left is not.
abbrev visits : List (ℕ × Op)
visits =
    (0, open_session (codes "abc") 1)
    ∷ (1, enter (codes "abc") 2)
    ∷ (2, enter (codes "abc") 3)
    ∷ (3, leave (codes "abc"))
    ∷ (4, enter (codes "abc") 4)
    ∷ []

visits_test : expected visits (λ c. none) ≡ true ∷ true ∷ false ∷ true ∷ true ∷ []
unfolding text_eq
visits_test = refl

store_refinement_example :
    (answers visits new_session_store ≡ expected visits (λ c. none))
    × ((c : Text) → at_code (apply_all visits new_session_store) c ≡ spec_all visits (λ c. none) c)
unfolding new_session_store lookup
store_refinement_example = store_refinement visits (refl, (tt, (tt, (tt, (tt, tt)))))

-- The session of connection 1 is left alone after the time 200, while another one is opened.
Untouched-none_example :
    at_code
      (apply_all
        ((100, open_session code 1)
          ∷ (200, enter code 2)
          ∷ (300, open_session (codes "owl") 3)
          ∷ (201 + reconnect_ttl, tick)
          ∷ [])
        new_session_store)
      code
    ≡ none
unfolding program
Untouched-none_example =
    Untouched-none ((100, open_session code 1) ∷ (200, enter code 2) ∷ [])
      ((300, open_session (codes "owl") 3) ∷ []) 200 (201 + reconnect_ttl) code
      (omega arith, (omega arith, tt)) (refl, tt) (omega arith) (refl, (tt, (refl, (tt, tt))))

one_sender-Deadlines : Deadlines (100 + reconnect_ttl) one_sender
unfolding program
one_sender-Deadlines c p h = ground (arith, h)

start_cleanup-empties_example :
    ((start_cleanup (ticks 100 16) one_sender).sessions ≡ [])
    × (lookup_conn 1 (start_cleanup (ticks 100 16) one_sender) ≡ none)
start_cleanup-empties_example =
    start_cleanup-empties 100 1 one_sender one_sender-IsValid one_sender-Deadlines

-- Both clients send a message at the same time, once the session is ready.
abbrev crossing : List (Bool × Arrival)
crossing =
    (false, record { now = 300; rand = broken; content = relayed msg_ice_candidate (8 ∷ []) })
    ∷ (true, record { now = 301; rand = broken; content = relayed msg_relay (7 ∷ []) })
    ∷ []

take_all-delivered_example :
    let w' =
      take_all env
        (λ sent c m. refl)
        1
        2
        ((true, creates 100 first) ∷ (false, joins 200 broken code) ∷ crossing)
        start in
    (delivered 1 w'.sent
      ≡ record (of_type msg_session_created) { code = code }
        ∷ of_type msg_session_ready
        ∷ relayed msg_ice_candidate (8 ∷ [])
        ∷ [])
    × (delivered 2 w'.sent ≡ of_type msg_session_ready ∷ relayed msg_relay (7 ∷ []) ∷ [])
unfolding program
take_all-delivered_example =
    take_all-delivered env (λ sent c m. refl) 100 200 first broken 1 2 code crossing start
      start-IsValid (λ e. absurd (omega (arith, e))) refl refl refl (inr (inl refl), (inl refl, tt))

paired-IsValid : IsValid paired
paired-IsValid = add_receiver-IsValid 200 code 2 one_sender one_sender-IsValid

-- The receiver relays, and the sender is written the message.
abbrev in_session : World
in_session = record { store = paired; sent = [] }

relayed_test :
    (handle_relay env 2 msg_relay (7 ∷ []) in_session).1.sent
    ≡ record { to = 1; content = relayed msg_relay (7 ∷ []) } ∷ []
unfolding program
relayed_test = refl

handle_relay-Relayed_example :
    let w' = (handle_relay env 2 msg_relay (7 ∷ []) in_session).1 in
    (w'.store ≡ paired) × Relayed paired 2 (relayed msg_relay (7 ∷ [])) [] w'.sent
handle_relay-Relayed_example =
    handle_relay-Relayed env 2 msg_relay (7 ∷ []) in_session paired-IsValid
