-- ===== src/Cmd/Session/Tests.antt =====
-- A session of the two commands with toy libraries, and the theorem at this session.
use wani.Base.{
  ◌∷◌, ◌≡◌, refl, sym, subst, ◌∙◌, List, [], ◌++◌, none, some, codes, ok, ℕ, ok-injective, lookup,
  arith, map, ap, true, false, Bool, zero, suc, join, split, text_eq, pos,
}
use wani.Protocol.Message.{
  SignalMessage, msg_create_session, msg_join_session, of_type, msg_session_ready, Bytes,
}
use wani.Client.Signaling.{Env as SignalingEnv}
use wani.Client.Quic.{Env as QuicEnv}
use wani.Client.Ice.Tests.{creds, left, right, toy-Works, toy-Works_back, toy as toy_agent}
use wani.Client.Tests.{encode, decode, text_body, decode_byte}
use wani.Client.Paths.Elements.{IsPlain}
use wani.Client.Offer.Tests.{toy_json, toy_json-response}
use wani.Client.Paths.{base_name}
use wani.Client.Whole.Tests.{
  photos, listing, disk, toy as toy_disk, photos-AreGood, photos-AreUnique, photos-IsFound,
  no_resume, walk_test,
}
use wani.Tests.{toy, toy_run, pw}
use wani.Cmd.Session.{Side, IsSound, Completed, created}
use wani.Cmd.Session.Complete.{session_lem}
use wani.Cmd.Session.Network.{session_network}
use wani.Protocol.Codes.{Rand, generate_code, validate_code}
use wani.Server.Store.{new_session_store}
use wani.Server.Store.Invariant.{new_session_store-IsValid}
use wani.Server.World.{World, Env as ServerEnv}
use wani.Server.Handlers.{Arrival}
use wani.Server.Handlers.Channel.{contents_by, take_all, delivered}
use wani.Server.Handlers.Served.{creates, joins}

abbrev signaling : SignalingEnv
signaling = record {
  wire = λ sent m. none;
  closed = "closed";
  hmac = λ key label. key ++ label;
  marshal = λ c. c.ufrag;
  unmarshal = λ b. some (record { ufrag = b; pwd = [] });
}

abbrev quic : QuicEnv
quic = record {
  hmac = λ key label. key ++ label;
  connect_error = none;
  stream_error = none;
  write_error = none;
}

abbrev side : ℕ → List Bytes → Side ℕ
side n cs = record {
  signaling = signaling;
  agent = toy_agent n cs;
  credentials = creds n;
  candidates = cs;
  quic = quic;
}

left-IsSound : IsSound (side 1 left) (side 2 right)
left-IsSound = record {
  reliable = λ sent m. refl;
  works = toy-Works;
  reads = refl;
  connects = refl;
  streams = refl;
  writes = refl;
}

right-IsSound : IsSound (side 2 right) (side 1 left)
right-IsSound = record {
  reliable = λ sent m. refl;
  works = toy-Works_back;
  reads = refl;
  connects = refl;
  streams = refl;
  writes = refl;
}

listing-roundtrip : toy_json.decode_manifest (toy_json.encode_manifest listing) ≡ ok listing
unfolding toy_json encode decode text_body decode_byte
listing-roundtrip = refl

r-IsPlain : IsPlain (codes "r")
r-IsPlain = record {
  full = λ h. cc;
  no_dot = λ h. cc;
  no_dot_dot = λ h. cc;
  no_slash = omega arith;
}

named : base_name (codes "d/r") ≡ codes "r"
unfolding base_name
named = refl

abbrev PhotosSession : Type 0
PhotosSession =
    Completed toy (side 1 left) (side 2 right) toy_json toy_disk disk (λ made p. none) photos pw
      (codes "d/r") (codes "out") []

session_lem_example : PhotosSession
unfolding lookup
session_lem_example =
    session_lem toy (side 1 left) (side 2 right) toy_json toy_disk disk (λ made p. none) photos pw
      (codes "d/r") (codes "out") [] 1 2 toy_run (λ h. cc) left-IsSound right-IsSound refl refl refl
      refl refl (λ made p. refl) (λ fs p. refl)
      (λ m built.
        subst (λ l. toy_json.decode_manifest (toy_json.encode_manifest l) ≡ ok l)
          (ok-injective (sym walk_test ∙ built)) listing-roundtrip)
      toy_json-response (λ h. cc) (λ h. cc) (subst IsPlain (sym named) r-IsPlain) photos-AreGood
      photos-AreUnique no_resume refl photos-IsFound refl

-- The server with a word list of one word.
abbrev server : ServerEnv
server = record {
  word_list = record { words = codes "owl" ∷ []; word_set = (codes "owl", tt) ∷ [] };
  wire = λ sent c m. none;
  quote = λ t. t;
}

abbrev first : Rand
first i zero = none
first i (suc max) = some 0

-- The messages of the sender arrive first, and then those of the receiver.
abbrev says : Bool → SignalMessage → Bool × Arrival
says from_sender m = (from_sender, record { now = 300; rand = first; content = m })

contents_by-sender :
    (l r : List SignalMessage) → contents_by true (map (says true) l ++ map (says false) r) ≡ l
contents_by-sender [] [] = refl
contents_by-sender [] (m ∷ r) = contents_by-sender [] r
contents_by-sender (m ∷ l) r = ap (λ c. m ∷ c) (contents_by-sender l r)

contents_by-receiver :
    (l r : List SignalMessage) → contents_by false (map (says true) l ++ map (says false) r) ≡ r
contents_by-receiver [] [] = refl
contents_by-receiver [] (m ∷ r) = ap (λ c. m ∷ c) (contents_by-receiver [] r)
contents_by-receiver (m ∷ l) r = contents_by-receiver l r

session : PhotosSession
unfolding lookup
session =
    session_lem toy (side 1 left) (side 2 right) toy_json toy_disk disk (λ made p. none) photos pw
      (codes "d/r") (codes "out") [] 1 2 toy_run (λ h. cc) left-IsSound right-IsSound refl refl refl
      refl refl (λ made p. refl) (λ fs p. refl)
      (λ m built.
        subst (λ l. toy_json.decode_manifest (toy_json.encode_manifest l) ≡ ok l)
          (ok-injective (sym walk_test ∙ built)) listing-roundtrip)
      toy_json-response (λ h. cc) (λ h. cc) (subst IsPlain (sym named) r-IsPlain) photos-AreGood
      photos-AreUnique no_resume refl photos-IsFound refl

abbrev events : List (Bool × Arrival)
events = map (says true) session.to_receiver ++ map (says false) session.to_sender

abbrev empty_world : World
empty_world = record { store = new_session_store; sent = [] }

drawn : generate_code server.word_list.words first (pos 4) ≡ ok pw
unfolding generate_code join
drawn = refl

not_used : lookup pw new_session_store.sessions ≡ none
unfolding new_session_store lookup
not_used = refl

accepted : validate_code server.word_list.word_set pw ≡ true
unfolding validate_code split lookup text_eq
accepted = refl

session_network_example :
    let w' =
      take_all server
        (λ sent c m. refl)
        1
        2
        ((true, creates 100 first) ∷ (false, joins 200 first pw) ∷ events)
        empty_world in
    (delivered 1 w'.sent ≡ created pw ∷ of_type msg_session_ready ∷ session.to_sender)
    × (delivered 2 w'.sent ≡ of_type msg_session_ready ∷ session.to_receiver)
session_network_example =
    session_network toy (side 1 left) (side 2 right) toy_json toy_disk disk (λ made p. none) photos
      pw (codes "d/r") (codes "out") [] session server (λ sent c m. refl) 100 200 first first 1 2
      events empty_world new_session_store-IsValid (λ e. absurd (omega (arith, e))) refl refl drawn
      not_used accepted
      (ap (λ l. of_type msg_create_session ∷ l)
          (contents_by-sender session.to_receiver session.to_sender)
        ∙ sym (ap (λ c. c.outbox) session.sender_signals))
      (ap (λ l. record (of_type msg_join_session) { code = pw } ∷ l)
          (contents_by-receiver session.to_receiver session.to_sender)
        ∙ sym (ap (λ c. c.outbox) session.receiver_signals))
