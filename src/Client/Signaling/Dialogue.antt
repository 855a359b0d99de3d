-- ===== src/Client/Signaling/Dialogue.antt =====
-- internal/client/signaling.go: two clients that start with nothing to read, each given what the
-- other has written so far. A client that has read all that there is gets no further; what it has
-- written until then is in its outbox.
use wani.Base.{ℕ, zero, suc, List, []}
use wani.Protocol.Message.{SignalMessage}

-- What each of the two has to read after some rounds, by what each of them writes when it is given
-- certain messages.
abbrev pub dialogue :
    ℕ
    → (List SignalMessage → List SignalMessage)
    → (List SignalMessage → List SignalMessage)
    → List SignalMessage × List SignalMessage
dialogue zero first second = ([], [])
dialogue (suc n) first second =
    let (to_first, to_second) = dialogue n first second in (second to_second, first to_first)
