-- ===== src/Lib.antt =====
-- Velaros routes the messages of WebSocket connections to chains of handlers. A program registers
-- handlers on a `Router` (router.go), each registration a node of one of three chains: messages,
-- connections that open, connections that close. A connection is a `Socket` (socket.go). Each
-- message runs in a goroutine of its own, on a `Context` (context.go), whose `Next`
-- (context_next.go, handler_node.go) walks the chain by the patterns (pattern.go) of its nodes.
-- Middleware may set the id of a message; messages with one id form a conversation, whose handlers
-- take turns by a lock and hand later messages to a handler that waits in `Receive`.
--
-- The files, and the code that they model:
--   Base           names of the libraries, tests on numbers and texts, Go's maps from strings.
--   Pattern        pattern.go: `parsePatternChunks` (Parse), `regExpFromChunks`, `NewPattern` and
--                  `String` (Compile), `Match` and `MatchInto` (Matching), `Path` (Build);
--                  message_params.go: `Get` (Params).
--   Socket         socket.go, message.go, status.go: the state of a connection (Defs) and its
--                  operations (Ops): `Close`, `Send`, values, receivers, locks of message ids; what
--                  can be seen of it from outside, as functions of keys (View).
--   Context        context.go, context_next.go, handler.go, handler_node.go: contexts and chains
--                  (Defs), the methods that handlers call (Calls, Ops), sub-contexts and their end
--                  (Sub), the walk of the chain (Chain), `Next` (Next). context_utils.go (Utils).
--                  Order, Bounds, Termination, Layers, Closing, Recovery, Again, Nesting, Sharing,
--                  Listening, Receiving, Expiring and Receivers have what follows.
--   Conversation   socket.go, context.go, context_next.go: the goroutines of the messages with one
--                  id, interleaved (System): who holds the lock (Owners, Invariant, Exclusion), who
--                  wakes up (Wake), who is waited for (Live), how one comes in (Entering).
--   Connection     socket.go, router.go: a message's goroutine and the open and close handlers
--                  (Message), the loop that reads messages (Reading), `runPingLoop` (Ping),
--                  `HandleConnection` (Serving), locks of ids from end to end (Locks, and
--                  Mounted for those behind a mounted router), messages
--                  at any router that registrations build (Settling), a message from its bytes to
--                  its handlers (Dispatch), and from the registrations on (Registered).
--   Http           router.go, socket_connection.go: `ServeHTTP`, `Middleware` and
--                  `handleWebsocketConnection` (Serving), the WebSocket connection (Wrapper), from
--                  the request to the end of the connection (Upgrading).
--   Router         router.go, route_option.go, route_descriptor.go: `Use`, `UseOpen`, `UseClose`,
--                  `Bind`, `PublicBind`, the descriptors and `Lookup` (Defs, Ops, Calls), which
--                  calls panic (Taking, Accepts), the chains that they build (Appending, Served,
--                  Typed, Valid), what `Lookup` finds (Finding), the JSON form of a descriptor (Json).
--   Middleware     middleware/json, msgpack and protobuf: the function that `Middleware` returns
--                  (Envelope), the formats (Json, Protobuf); middleware/set and its likes (Values).
--   Tests          runs at concrete inputs.
--
-- How the code's notions appear. A struct is a record with its fields; what stands behind a Go
-- pointer that is shared (the channels of receivers and of locks) is a function from addresses in
-- the socket. A handler is a script: it returns, panics, calls `Next`, or calls a method and goes on
-- with the reply; `effect` stands for what it does besides. A chain is a list of nodes with
-- addresses. A panic is an outcome with the state at that point, and `execWithCtxRecovery` turns it
-- into the context's error. Sub-contexts are a stack above the connection's context. A text is a
-- list of numbers, Go's runes where the parser reads runes.
--
-- Fuel. `parse_pattern_chunks` runs on twice the length of its text and two more, as each rune takes
-- at most two rounds. `next_fuel` runs on the depth of nested calls of `Next`; the handlers that are
-- left in the chain, with those of mounted routers, bound that depth, and `run_next` takes that
-- number.
--
-- Parameters. `Engine` is the package of regular expressions, with `Documented` for what its
-- documentation says of submatches and indices; `Environment` has it, the connection's `Write` and
-- the connection's data. `Codec` is the encoding that a middleware package uses, `JsonCodec` that
-- of descriptors, and `fold` is `strings.EqualFold`. `Conn` is the WebSocket package's connection, and
-- `Packages` has its `Accept` and the writer of HTTP responses.
--
-- Go's mutexes make each operation on a socket one step. The sequential model of a handler stops
-- where a call waits for another goroutine; what happens across such waits is the system of
-- Conversation, which has one router without mounted ones, sets each message's id once, and keeps
-- the socket open.
--
-- A timeout is part of a call (`Patience`): whether the call's context ends before a message comes,
-- and with which error.
--
-- The mutex of a context is unlocked between two calls, unless a method panicked at a message that
-- is gone (`Mutex`); a method that then has to lock it waits. A mounted router is part of the chain as
-- it is when it is mounted: a router that is mounted in itself, or on which something is registered
-- after it is mounted, and a router of another type than `*Router`, have no counterpart here. The
-- nodes of each router have addresses from a number on that is given to it.
--
-- Not modelled: the methods of `context.Context` (`Deadline`, `Done`, `Err`, `Value`) of sockets and
-- contexts, which forward to package context; the generated envelope.pb.go; the packages net/http,
-- Navaros and WebSocket.
pub mod Base
pub mod Pattern
pub mod Socket
pub mod Context
pub mod Conversation
pub mod Connection
pub mod Middleware
pub mod Router
pub mod Http
mod Tests
