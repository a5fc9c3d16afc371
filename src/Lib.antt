-- ===== src/Lib.antt =====
-- A model of the mock AMQP server (service/), and theorems about it.
--
-- The server is a broker for tests. A client connects over AMQP 0.9.1, an inspector over HTTP, and
-- both share one state. asyncio calls `data_received` of the connection (service/protocol.py) with
-- the bytes that came in; it cuts frames from a buffer (service/frame.py, whose method and header
-- frames service/method.py decodes), handles each against the broker's state (service/state.py),
-- collects the body of a published message (service/message.py) and writes its answers to the
-- transport (service/sender.py).
--
-- Prelude, Dict and Python hold what all share: tests on numbers, the equality interface,
-- dictionaries as association lists in the order of insertion, texts and bytes as lists of numbers,
-- exceptions, and the actions `Exec S A`, which give a result or an exception and the state that is
-- left, since Python keeps what was changed before a raise. Sets are lists without repetition; in
-- which order Python walks a set is a field of `Runtime`, with the law that each element comes as
-- often as it occurs.
--
-- Serialization: the values of service/serialization.py. Its `loads` and `dumps` are a copy of
--   another project's code, so they are the fields of the interface `Codec`, of which no law is
--   assumed.
-- Method: the classes and decoders of service/method.py; `new_method` and `new_header` are the
--   constructors. Method/MethodIds has the numbers, Method/Decode the decoders.
-- Frame: `read_frame`. Frame/Progress and Frame/Layout are about what it reads.
-- State: the class `State` as a record; a method is a function from the state to its answer and the
--   next state. State/Invariant has the invariant, State/Transfer the operations that keep the keys,
--   State/Delivery the storing of messages, State/Queues the messages and consumers of a queue,
--   State/Answers the other answers, State/Reading and State/Json what the inspector reads, and
--   State/Wait and State/Logins the coroutines, for which `world i` is the state at the i-th look.
-- Sender: the functions `send_*`. Sender/Transport records the calls of a transport in order,
--   Sender/Connection, Sender/Channel and Sender/Content are the functions, Sender/Replies describes
--   all methods at once, and Sender/Wire and Sender/Flags read the content and its header back.
-- Message: the class `Message`.
-- Protocol: the class `TrackerProtocol`. A `Session` is the object beside the broker's state.
--   Protocol/Channels is `_treat_channel_frame`, a function per branch, Protocol/Connections the
--   rest of `data_received`. Protocol/Closed and Protocol/Handshake carry an invariant through all
--   handlers, Protocol/Framed is about the buffer, Protocol/Endings about
--   the ways in which the loop ends, and the other children hold the theorems.
-- Http: the class `HTTPProtocol` of service/http_protocol.py. An `HttpSession` is the object, with
--   the world that it shares with the clients. Http/Messages is `_build_message`, Http/Requests the
--   handlers of the four methods, Http/Futures the waits with their callback, Http/Received the loop
--   over events and `data_received`. Http/Keeping and Http/Handling carry a property through all
--   handlers; Http/Reached and Http/Ends use it for the broker and for the parser. The other children
--   hold the theorems. h11, json and the clock are the interfaces `H11`, `Json` and `Clock`: `H11` is
--   an object with the methods that the source calls, which may raise, and only the theorem on where
--   the loop ends asks for laws of it. A coroutine that a GET starts is recorded in the session,
--   `outcome` is what it returns, and `on_get_done` is its callback.
-- Publishing: `publish_message` and `publish_message_in_queue` of the class `State`, with
--   `push_message`. A `World` is the broker's state, the transport of each connection, and the number
--   of random tags drawn so far. The loop over the consumers, which the source has twice, is `serve`.
--   Publishing/Reachable is the step relation of the broker: any method at any time, and
--   Publishing/Reading is about what is published and then read.
-- Server: service/__main__.py, as the broker, the clients and the inspectors by number, and the step
--   relation of the event loop: a connection is made, bytes come to one of them, or a wait is done.
--   Server/Mixed has what holds in whatever order these come, and Server/Settled is about a client
--   that settles a message and an inspector that waits for it.
-- Tests: a codec, and each theorem at a concrete input.
--
-- The loop of `data_received` runs on fuel, one more than the length of the buffer. That is enough,
-- since a frame takes eight bytes at least and no handler adds to the buffer.
--
-- Bytes are numbers, and no theorem needs that they are below 256 where it does not say so. Integers
-- of the frame format have their width written out, and `pack` and `bytearray` fail beyond it.
--
-- The loop of the HTTP side runs on fuel too. How much is enough depends on h11: more than what
-- remains to be read, from which a request, a piece of a body and the end of a message each take
-- something (`Documented` in Http/Ends). No fuel is enough where h11 answers PAUSED for ever.
--
-- Not modelled: prints, the start and the end of the event loop (service/__main__.py), and
-- service/serialization.py, which is another project's. `int` of a text takes ASCII digits only.
pub mod Prelude
pub mod Dict
pub mod Python
pub mod Serialization
pub mod Method
pub mod Frame
pub mod Http
pub mod State
pub mod Sender
pub mod Message
pub mod Protocol
pub mod Publishing
pub mod Server
pub mod Tests
