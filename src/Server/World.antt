-- ===== src/Server/World.antt =====
-- internal/server/ws.go: what the handlers act on. The server's state is the store; the network is
-- the list of messages that were written, oldest first. Whether a write to a connection fails, and
-- with what text, is up to the network (github.com/gorilla/websocket): the parameter `wire`, which
-- may depend on all that was written before.
use Prim.Native.String.{◌++◌}
use wani.Base.{List, [], ◌∷◌, ◌++◌ as append, Option, none, some, String, ok, err}
use wani.Base.State.{State}
use wani.Protocol.Message.{SignalMessage}
use wani.Protocol.Words.{WordList}
use wani.Protocol.Codes.{CodeError, not_positive, rand_failed}
use wani.Server.Store.{Conn, Store}

pub record Frame : Type 0 where
  pub to : Conn
  pub content : SignalMessage

pub record World : Type 0 where
  pub store : Store
  pub sent : List Frame

-- What the server is given: the loaded word list, the network, and the verb `%q` of package fmt.
pub record Env : Type 0 where
  pub word_list : WordList
  pub wire : List Frame → Conn → SignalMessage → Option String
  pub quote : String → String

pub data ServerError : Type 0 where
  generate_failed : CodeError → ServerError
  missing_code : ServerError
  invalid_code_format : ServerError
  not_found_or_joined : ServerError
  notify_receiver : ServerError → ServerError
  notify_sender : ServerError → ServerError
  no_session : ServerError
  receiver_not_connected : ServerError
  unknown_side : ServerError
  unknown_type : String → ServerError
  write_failed : String → ServerError

-- A handler changes the world and returns an error or not; it can also panic.
abbrev pub M : Type 0 → Type 0
M A = State World ServerError A

-- `conn.WriteJSON(m)`.
unfoldable pub write_json : Env → Conn → SignalMessage → M (Unit {0})
write_json env c m w = elim (env.wire w.sent c m) [
  | none ↦ (ok tt, record w { sent = append w.sent (record { to = c; content = m } ∷ []) })
  | some text ↦ (err (write_failed text), w)
]

code_error_text : CodeError → String
code_error_text not_positive = "protocol.GenerateCode: n must be positive"
code_error_text rand_failed = "protocol.GenerateCode: rand"

-- `err.Error()`. The text of a failed read of random numbers is the system's; it is cut short.
unfoldable pub error_text : (String → String) → ServerError → String
unfolding code_error_text
error_text quote (generate_failed e) = "server: generate code: " ++ code_error_text e
error_text quote missing_code = "join_session: missing code"
error_text quote invalid_code_format = "join_session: invalid code format"
error_text quote not_found_or_joined = "join_session: session not found or already joined"
error_text quote (notify_receiver e) = "join_session: notify receiver: " ++ error_text quote e
error_text quote (notify_sender e) = "join_session: notify sender: " ++ error_text quote e
error_text quote no_session = "relay: connection not associated with any session"
error_text quote receiver_not_connected = "relay: receiver not yet connected"
error_text quote unknown_side = "relay: unknown side"
error_text quote (unknown_type t) = "unknown message type: " ++ quote t
error_text quote (write_failed text) = text
