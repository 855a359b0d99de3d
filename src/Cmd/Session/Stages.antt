-- ===== src/Cmd/Session/Stages.antt =====
-- cmd/wani-client/main.go: the stages of a session in which nothing fails.
use wani.Base.{
  ◌≡◌, refl, sym, ap, ◌∙◌, true, false, List, [], ◌∷◌, ◌++◌, map, none, some, String, Option, Text,
  Dict, ok,
}
use wani.Protocol.Message.{
  Bytes, SignalMessage, Manifest, of_type, msg_ice_credentials, msg_session_ready,
  msg_create_session, msg_join_session,
}
use wani.Identity.{Spake, role_sender, role_receiver}
use wani.Client.Signaling.{IceCredentials, ping_label, pong_label}
use wani.Client.Signaling.Handshake.{relay, Honest}
use wani.Client.Ice.{gather_and_connect}
use wani.Client.Ice.Exchange.{offered, candidate_message, exchange-ok}
use wani.Client.Quic.{Link, dial_quic, listen_quic}
use wani.Client.Manifest.{Entries}
use wani.Client.Offer.{Json, Desk, empty_desk, send_manifest, receive_manifest}
use wani.Client.Offer.Exchange.{pipe_with}
use wani.Client.Transfer.Receive.{Receiver, receive_files, Env as DiskEnv}
use wani.Client.Transfer.Send.{SourceEnv, Sender, mark_all, send_files}
use wani.Client.Transfer.Delivery.{fresh_sender, fresh_receiver}
use wani.Cmd.Send.Stages.{Round}
use wani.Cmd.Receive.Stages.{Run}
use wani.Cmd.Session.Signals.{
  wait_for_peer-ok, join_session-ok, pair_sender-ok, pair_receiver-ok, from_sender, from_receiver,
}
use wani.Cmd.Session.{Side, IsSound, starts_receiving, sender_side, receiver_side}

-- The signaling of both sides, and what is left for them to do.
module _ {Conn : Type 0} (sp : Spake) (here there : Side Conn) (code : Text) (h : Honest sp code)
    (sound : IsSound here there) (sound' : IsSound there here)
    (hm : there.signaling.hmac ≡ here.signaling.hmac)
    (ma : there.signaling.marshal ≡ here.signaling.marshal) (json : Json) (disk : DiskEnv)
    (source : SourceEnv) (mkdir_error : List Text → Text → Option String) (es : Entries) where
  abbrev pub to_sender : List SignalMessage
  to_sender =
      relay h.answer
      ∷ relay h.server_confirm
      ∷ relay (there.signaling.hmac h.key pong_label)
      ∷ offered there.signaling there.credentials there.candidates

  abbrev pub to_receiver : List SignalMessage
  to_receiver =
      relay h.hello
      ∷ relay h.client_confirm
      ∷ relay (here.signaling.hmac h.key ping_label)
      ∷ offered here.signaling here.credentials here.candidates

  abbrev pub same_offers :
      (creds : IceCredentials) (cs : List Bytes)
      → offered there.signaling creds cs ≡ offered here.signaling creds cs
  same_offers creds cs =
      ap
        (λ f.
          record (of_type msg_ice_credentials) { payload = f creds }
          ∷ (map candidate_message cs ++ candidate_message [] ∷ []))
        ma

  unfoldable pub sender_round :
      (proof_back answer : Bytes) (acks : List Text) (manifest : Manifest) (root : Text)
      (dialled : Conn) (link : Link) (desk : Desk) (q : Sender)
      → here.agent.dial there.credentials there.candidates ≡ some dialled
      → dial_quic here.quic h.key (record { input = proof_back; written = []; closed = none })
        ≡ (ok tt, link)
      → link.closed ≡ none
      → send_manifest json (pipe_with answer) manifest empty_desk
        ≡ (ok (record { status = "ready"; completed = [] }), desk)
      → send_files source manifest
          (record { status = "ready"; completed = [] })
          root
          (fresh_sender acks)
        ≡ (ok tt, q)
      → let env = sender_side here there json disk source mkdir_error es proof_back answer acks in
        Round sp env (env.attempts 0) root code manifest (record {
          inbox = of_type msg_session_ready ∷ to_sender;
          outbox = of_type msg_create_session ∷ [];
        })
  sender_round proof_back answer acks manifest root dialled link desk q da dials stays offers
        sends =
      let out = of_type msg_create_session ∷ [] in
      let theirs = offered there.signaling there.credentials there.candidates in
      let paired =
        pair_sender-ok here.signaling sound.reliable sp code h theirs out
          (there.signaling.hmac h.key pong_label) (ap (λ f. f h.key pong_label) hm) in
      record {
        waited = record { inbox = to_sender; outbox = out };
        identified = record {
          inbox = theirs;
          outbox = from_sender here.signaling sound.reliable sp code h theirs out;
        };
        connected = record { inbox = []; outbox = of_type msg_create_session ∷ to_receiver };
        id = record { role = role_sender; spake = h.client₄; secret = some h.key };
        key = h.key;
        agent = here.agent;
        conn = dialled;
        link = link;
        resp = record { status = "ready"; completed = [] };
        desk = desk;
        sender = q;
        waits = wait_for_peer-ok here.signaling sound.reliable to_sender out;
        pairs = paired;
        has_agent = refl;
        gathers =
            ap
              (λ i. gather_and_connect here.signaling here.agent true (record {
                inbox = i;
                outbox = from_sender here.signaling sound.reliable sp code h theirs out;
              }))
              (same_offers there.credentials there.candidates)
            ∙ exchange-ok here.signaling sound.reliable here.agent true here.credentials
                there.credentials here.candidates there.candidates dialled
                (from_sender here.signaling sound.reliable sp code h theirs out) sound.works
                sound.reads da;
        has_key = refl;
        dials = dials;
        stays_open = stays;
        offers = offers;
        is_ready = refl;
        sends = sends;
      }

  unfoldable pub receiver_run :
      (proof offer : Bytes) (streams : List (List Bytes)) (manifest : Manifest)
      (out_dir dest : Text) (fs : Dict Bytes) (accepted : Conn) (link : Link) (desk : Desk)
      (q : Receiver)
      → there.agent.accept here.credentials here.candidates ≡ some accepted
      → listen_quic there.quic h.key (record { input = proof; written = []; closed = none })
        ≡ (ok tt, link)
      → link.closed ≡ none
      → receive_manifest json (pipe_with offer) disk mkdir_error out_dir fs empty_desk
        ≡ (ok (manifest, dest, []), desk)
      → receive_files disk manifest [] dest (fresh_receiver fs streams) ≡ (ok tt, q)
      → Run sp
          (receiver_side here there json disk source mkdir_error es proof offer streams)
          out_dir
          code
          (starts_receiving fs (of_type msg_session_ready ∷ to_receiver))
  unfolding mark_all
  receiver_run proof offer streams manifest out_dir dest fs accepted link desk q ac listens stays
        takes receives =
      let join = record (of_type msg_join_session) { code = code } in
      let ours = offered here.signaling here.credentials here.candidates in
      let out : List SignalMessage =
        from_receiver there.signaling sound'.reliable sp code h ours (join ∷ []) in
      record {
        joined = record { inbox = to_receiver; outbox = join ∷ [] };
        identified = record { inbox = ours; outbox = out };
        connected = record { inbox = []; outbox = join ∷ to_sender };
        id = record { role = role_receiver; spake = h.server₃; secret = some h.key };
        key = h.key;
        agent = there.agent;
        conn = accepted;
        link = link;
        manifest = manifest;
        dir = dest;
        completed = [];
        desk = desk;
        receiver = q;
        connects = refl;
        joins = join_session-ok there.signaling sound'.reliable code to_receiver [];
        pairs =
            pair_receiver-ok there.signaling sound'.reliable sp code h ours (join ∷ [])
              (here.signaling.hmac h.key ping_label) (ap (λ f. f h.key ping_label) (sym hm));
        has_agent = refl;
        gathers =
            ap
              (λ i.
                gather_and_connect there.signaling there.agent false
                  (record { inbox = i; outbox = out }))
              (sym (same_offers here.credentials here.candidates))
            ∙ exchange-ok there.signaling sound'.reliable there.agent false there.credentials
                here.credentials there.candidates here.candidates accepted out sound'.works
                sound'.reads ac;
        has_key = refl;
        listens = listens;
        stays_open = stays;
        offered = takes;
        receives = receives;
      }
