-- ===== src/Lib.antt =====
-- A verification library of wani, a peer-to-peer file transfer program in Go: a signaling server
-- that pairs two clients by a code, and the clients, which agree on a key over the server and then
-- transfer files directly.
--
-- Parts, and the files that model them:
--
-- * Protocol (internal/protocol): Protocol/Message.antt has the wire messages and the manifest data
--   (messages.go, protocol.go), Protocol/Words.antt the word list (`init` of codes.go, with
--   wordlist.txt as an argument), Protocol/Codes.antt `GenerateCode` and `ValidateCode`.
-- * Server (internal/server): Server/Store.antt has `SessionStore` and its methods (sessions.go),
--   Server/World.antt the state that handlers act on, Server/Handlers.antt the handlers and the read
--   loop (ws.go); Server/Store/Spec.antt says what the store promises. A `*Session` is a pointer into
--   a heap; a connection is the number that stands for its pointer. Each store operation holds the
--   lock throughout, so it is one function. In Server/Handlers/Loop.antt connections and the clean-up
--   ticker interleave handler by handler; Server/Handlers/Channel.antt and Served.antt follow the
--   messages of the two clients of a session. Server/Threads.antt has the same goroutines lock by lock:
--   each stands at a point of its handler, and any other may run between two operations of the store.
--   Server/Process.antt is the process around them, from the `run` of cmd/wani-server/main.go on
--   (server.go).
-- * Identity (internal/identity/ephemeral.go): the SPAKE2 exchange over a transport. The library
--   spake2-go is a parameter.
-- * Client (internal/client): Client/Signaling.antt has the client's connection to the server
--   (signaling.go): what the server still sends it, and what it has written.
--   Client/Signaling/Connecting.antt opens and closes it. Client/Ice.antt has `GatherAndConnect`
--   (ice.go), Client/Ice/Agents.antt the options of the agent; Client/Quic.antt has the exchange of
--   proofs with which a connection starts (quic.go), Client/Quic/Setup.antt the adapter to ICE, the
--   certificate and the listener. Client/Paths.antt has the operations of path/filepath that
--   the client uses. Client/Manifest.antt builds the manifest (manifest.go) of a tree of files, and
--   Client/Offer.antt sends and receives it (`SendManifest` and `ReceiveManifest` of transfer.go).
--   Client/Transfer/Receive.antt receives files and keeps the resume state (transfer.go): the disk
--   of the receiver is a dictionary, the streams that the peer opens are a list.
--   Client/Transfer/Send.antt sends the files, and Client/Whole.antt joins the three for a directory.
--   Client/Stun.antt asks the STUN servers in turn (stun.go), with the sockets that a query opens.
-- * Cmd (cmd/wani-client/main.go): the two commands, `runSend` in Cmd/Send.antt and `runReceive` in
--   Cmd/Receive.antt, with their pairing phase in Cmd/Pairing.antt; Cmd/Args.antt chooses the command
--   (`run`), Cmd/Progress.antt numbers the files, and Cmd/Session.antt puts the two commands against
--   each other; Cmd/Session/Network.antt puts the server between them.
--
-- How they interact: a client writes signal messages; the server's handlers change the store and
-- write messages to the two ends of a session; the identity sends and receives through relay
-- messages; the commands run these steps in order.
--
-- Conventions. Texts that the program walks are lists of code points, all others `String`s; the
-- pairing code is ASCII, so its code points are its bytes. Times are nanoseconds in ℕ and
-- `time.Now()` is an argument. Go's `(T, error)` is `Result`, with a constructor for a panic.
-- Loops run over lists or counters, and what a connection delivers is a finite list of messages,
-- behind which a read fails: a client that has read all that there is gets no further, where in the
-- code it waits for the next message, without a deadline in the exchanges over SPAKE2 and ICE.
-- Client/Signaling/Dialogue.antt gives each of two clients what the other has written so far, round by
-- round, starting with nothing. The loop over the candidates of the peer has fuel,
-- one round more than there are messages to read: each round reads at least one, so it is never used up
-- (Client/Ice/Fuel.antt). So has the loop of `runSend`, in which every round but the last waits for a
-- message of the server (Cmd/Send/Ends.antt).
--
-- Parameters, as their code is not in the repository: whether a WebSocket write succeeds, random
-- numbers, SPAKE2, HMAC-SHA256, xxHash, the ICE agent, sockets and STUN, certificates, the failures
-- of the file system, and the JSON of the ICE credentials, of the manifest and its answer and of the
-- resume state. So are `fmt`'s verb %q and the package flag.
--
-- Not modelled: net/http, the WebSocket upgrade and locks as such; TLS and QUIC itself (deadlines
-- and flow control included), the parsing of flags, the clipboard, the log of ICE candidates and how
-- progress bars are drawn: these are calls of libraries, or output.
mod Base
pub mod Protocol
pub mod Server
pub mod Identity
pub mod Client
pub mod Cmd
mod Tests
