-- ===== src/Client/Signaling/Connecting.antt =====
-- internal/client/signaling.go: `Connect`, `Close` and `Ping`. The dialer and the connection
-- (github.com/gorilla/websocket) are parameters: what the server will send on a connection, or an
-- error.
use wani.Base.{List, [], Option, String, Result, ok, err, panic}
use wani.Protocol.Message.{SignalMessage}
use wani.Client.Signaling.{SignalingClient, ClientError, library_failed}

pub record Dialer : Type 0 where
  -- `DialContext` of a URL.
  pub dial : String → Result String (List SignalMessage)
  -- The errors of `Close` and of writing a ping on a connection.
  pub close_error : SignalingClient → Option String
  pub ping_error : SignalingClient → Option String

module _ (dialer : Dialer) where
  connect_client : List SignalMessage → SignalingClient
  connect_client inbox = record { inbox = inbox; outbox = [] }

  connected : Result String (List SignalMessage) → Result ClientError SignalingClient
  unfolding connect_client
  connected (ok inbox) = ok (connect_client inbox)
  connected (err text) = err (library_failed "signaling.Connect" text)
  connected panic = panic

  unfoldable pub connect_server : String → Result ClientError SignalingClient
  unfolding connected
  connect_server server_url = connected (dialer.dial server_url)

  unfoldable pub close_client : SignalingClient → Option String
  close_client sc = dialer.close_error sc

  unfoldable pub ping : SignalingClient → Option String
  ping sc = dialer.ping_error sc
