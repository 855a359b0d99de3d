-- ===== src/Server/Handlers/Channel.antt =====
-- internal/server/ws.go: the server as a pair of channels between the two clients of a session.
use wani.Base.{
  All, ℕ, ◌≡◌, refl, sym, ap, ◌∙◌, ◌≢◌, ◌⊎◌, inl, inr, Bool, true, false, List, [], ◌∷◌, ◌++◌,
  append_assoc, append-nil, arith, Text, ◌==◌, if◌then◌else◌,
}
use wani.Protocol.Message.{SignalMessage, msg_relay, msg_ice_candidate, msg_ice_credentials}
use wani.Protocol.Codes.{Rand}
use wani.Server.Store.{Conn}
use wani.Server.Store.Roles.{IsSender, IsReceiver}
use wani.Server.World.{Env, World, Frame, write_json}
use wani.Server.Handlers.{Arrival, dispatch, handle_relay, finish}
use wani.Server.Handlers.Pairing.{relayed, relay_sender, relay_receiver, IsReliable, write_json-ok}

-- The messages that a client sends to the other one.
abbrev pub IsForPeer : SignalMessage → Type 0
IsForPeer m = (m.type ≡ msg_relay) ⊎ ((m.type ≡ msg_ice_candidate) ⊎ (m.type ≡ msg_ice_credentials))

-- Messages of the two clients as they arrive; the Boolean says whether the sender's is next.
abbrev pub AllForPeer : List (Bool × Arrival) → Type 0
AllForPeer [] = Unit {0}
AllForPeer ((side, a) ∷ later) = IsForPeer a.content × AllForPeer later

-- What one of them has sent, as it is forwarded.
abbrev pub sent_by : Bool → List (Bool × Arrival) → List SignalMessage
sent_by side [] = []
sent_by true ((true, a) ∷ later) = relayed a.content.type a.content.payload ∷ sent_by true later
sent_by true ((false, a) ∷ later) = sent_by true later
sent_by false ((true, a) ∷ later) = sent_by false later
sent_by false ((false, a) ∷ later) = relayed a.content.type a.content.payload ∷ sent_by false later

-- What was written to a connection.
abbrev pub delivered : Conn → List Frame → List SignalMessage
delivered c [] = []
delivered c (f ∷ frames) =
    let rest = delivered c frames in if f.to == c then f.content ∷ rest else rest

delivered-append :
    (c : Conn) (l r : List Frame) → delivered c (l ++ r) ≡ delivered c l ++ delivered c r
delivered-append c [] r = refl
delivered-append c (f ∷ l) r = ground (arith, delivered-append c l r)

-- What one of them has sent.
abbrev pub contents_by : Bool → List (Bool × Arrival) → List SignalMessage
contents_by side [] = []
contents_by true ((true, a) ∷ later) = a.content ∷ contents_by true later
contents_by true ((false, a) ∷ later) = contents_by true later
contents_by false ((true, a) ∷ later) = contents_by false later
contents_by false ((false, a) ∷ later) = a.content ∷ contents_by false later

-- A message for the other client with a type and a payload and no more, as the client writes it.
abbrev pub IsPlainRelay : SignalMessage → Type 0
IsPlainRelay m = IsForPeer m × (relayed m.type m.payload ≡ m)

pub sent_by-plain :
    (side : Bool) (events : List (Bool × Arrival))
    → All IsPlainRelay (contents_by side events)
    → sent_by side events ≡ contents_by side events
sent_by-plain side [] h = refl
sent_by-plain true ((true, a) ∷ later) h =
    ap (λ m. m ∷ sent_by true later) h.0.1 ∙ ap (λ l. a.content ∷ l) (sent_by-plain true later h.1)
sent_by-plain true ((false, a) ∷ later) h = sent_by-plain true later h
sent_by-plain false ((true, a) ∷ later) h = sent_by-plain false later h
sent_by-plain false ((false, a) ∷ later) h =
    ap (λ m. m ∷ sent_by false later) h.0.1
    ∙ ap (λ l. a.content ∷ l) (sent_by-plain false later h.1)

pub plain-AllForPeer :
    (events : List (Bool × Arrival))
    → All IsPlainRelay (contents_by true events)
    → All IsPlainRelay (contents_by false events)
    → AllForPeer events
plain-AllForPeer [] h k = tt
plain-AllForPeer ((true, a) ∷ later) h k = (h.0.0, plain-AllForPeer later h.1 k)
plain-AllForPeer ((false, a) ∷ later) h k = (k.0.0, plain-AllForPeer later h k.1)

-- One more message, for the connection itself and for another one.
pub delivered-here :
    (c : Conn) (m : SignalMessage) (l : List Frame) (rest : List SignalMessage)
    → delivered c (l ++ record { to = c; content = m } ∷ []) ++ rest ≡ delivered c l ++ m ∷ rest
delivered-here c m l rest =
    ap (λ d. d ++ rest) (delivered-append c l _ ∙ ground arith)
    ∙ append_assoc (delivered c l) (m ∷ []) rest

pub delivered-there :
    (c d : Conn) (m : SignalMessage) (l : List Frame)
    → d ≢ c
    → delivered c (l ++ record { to = d; content = m } ∷ []) ≡ delivered c l
delivered-there c d m l ne = delivered-append c l _ ∙ ground (arith, ne, append-nil (delivered c l))

module _ (env : Env) (works : IsReliable env) where
  -- The handler of a message and what follows it.
  abbrev pub take : Conn → Arrival → World → World
  take conn a w = (finish env a.now conn (dispatch env a.now a.rand conn a.content w)).0

  abbrev pub take_all : Conn → Conn → List (Bool × Arrival) → World → World
  take_all x y [] w = w
  take_all x y ((true, a) ∷ later) w = take_all x y later (take x a w)
  take_all x y ((false, a) ∷ later) w = take_all x y later (take y a w)

  dispatch-relay :
      (now : ℕ) (rand : Rand) (conn : Conn) (m : SignalMessage) (w : World)
      → IsForPeer m
      → dispatch env now rand conn m w ≡ handle_relay env conn m.type m.payload w
  unfolding dispatch
  dispatch-relay now rand conn m w (inl e) = rw e refl
  dispatch-relay now rand conn m w (inr (inl e)) = rw e refl
  dispatch-relay now rand conn m w (inr (inr e)) = rw e refl

  abbrev written : Conn → SignalMessage → World → World
  written c m w = record w { sent = w.sent ++ record { to = c; content = m } ∷ [] }

  take-written :
      (conn c : Conn) (a : Arrival) (w : World)
      → IsForPeer a.content
      → handle_relay env conn a.content.type a.content.payload w
        ≡ write_json env c (relayed a.content.type a.content.payload) w
      → take conn a w ≡ written c (relayed a.content.type a.content.payload) w
  unfolding finish
  take-written conn c a w is_relay e =
      ap (λ o. (finish env a.now conn o).0)
        (dispatch-relay a.now a.rand conn a.content w is_relay ∙ e ∙ write_json-ok env works c _ w)

  -- What the messages of the two clients leave, of the frames sent and of the store.
  pub record Forwards (x y z : Conn) (events : List (Bool × Arrival)) (w w' : World) : Type 0 where
    pub to_receiver : delivered y w'.sent ≡ delivered y w.sent ++ sent_by true events
    pub to_sender : delivered x w'.sent ≡ delivered x w.sent ++ sent_by false events
    pub to_others : delivered z w'.sent ≡ delivered z w.sent
    pub unchanged : w'.store ≡ w.store

  -- Whatever the order in which the messages of the two clients of a session reach the server, if
  -- its writes succeed: each client is written the messages of the other one, each once and in the
  -- order in which they were sent, with their types and payloads; no other connection is written
  -- anything, and the store does not change.
  pub take_all-Forwards :
      (x y z : Conn) (code : Text) (p : ℕ) (events : List (Bool × Arrival)) (w : World)
      → IsSender w.store x code p
      → IsReceiver w.store y code p
      → x ≢ y
      → x ≢ z
      → y ≢ z
      → AllForPeer events
      → Forwards x y z events w (take_all x y events w)
  take_all-Forwards x y z code p [] w s r xy xz yz h = record {
    to_receiver = sym (append-nil _);
    to_sender = sym (append-nil _);
    to_others = refl;
    unchanged = refl;
  }
  take_all-Forwards x y z code p ((true, a) ∷ later) w s r xy xz yz h =
      let m = relayed a.content.type a.content.payload in
      let taken =
        take-written x y a w h.0
          (relay_sender env a.content.type a.content.payload w code p x y s r.own) in
      let rest = take_all-Forwards x y z code p later (written y m w) s r xy xz yz h.1 in
      rw taken (record {
        to_receiver = rest.to_receiver ∙ delivered-here y m w.sent _;
        to_sender =
            rest.to_sender
            ∙ ap (λ d. d ++ sent_by false later) (delivered-there x y m w.sent (λ e. xy (sym e)));
        to_others = rest.to_others ∙ delivered-there z y m w.sent yz;
        unchanged = rest.unchanged;
      })
  take_all-Forwards x y z code p ((false, a) ∷ later) w s r xy xz yz h =
      let m = relayed a.content.type a.content.payload in
      let taken =
        take-written y x a w h.0
          (relay_receiver env a.content.type a.content.payload w code p y x r s.own) in
      let rest = take_all-Forwards x y z code p later (written x m w) s r xy xz yz h.1 in
      rw taken (record {
        to_receiver =
            rest.to_receiver ∙ ap (λ d. d ++ sent_by true later) (delivered-there y x m w.sent xy);
        to_sender = rest.to_sender ∙ delivered-here x m w.sent _;
        to_others = rest.to_others ∙ delivered-there z x m w.sent xz;
        unchanged = rest.unchanged;
      })
