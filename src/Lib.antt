-- ===== src/Lib.antt =====
-- Verification library of espMqttClient, an MQTT 3.1.1 client for ESP8266, ESP32 and Linux.
--
-- The program. The client (src/MqttClient.cpp) is a state machine that the user's loop() drives. It
-- keeps the packets to be sent in an outbox, a linked list with a builtin cursor (src/Outbox.h); each
-- packet (src/Packets/Packet.cpp) is a buffer that its constructor fills, or a header with a callback that
-- supplies the payload in portions. What the transport has read goes through an incremental parser
-- (src/Packets/Parser.cpp), which returns one packet at a time; the client's handlers then change the
-- outbox and call the user's callbacks.
--
-- The model, file by file.
-- Config: the constants of src/Config.h and src/Packets/Constants.h, and the size of size_t, which is
--   32 bits on the targets.
-- RemainingLength: src/Packets/RemainingLength.cpp; Encode and RoundTrip hold its lemmas.
-- Packet: src/Packets/Packet.h, Packet.cpp and StringUtil.cpp. Buffer writes into the allocated memory,
--   Create holds the constructors, Connect that of CONNECT, and Chunked the callback's portions. Frame
--   gives the format of the protocol; Publish, Subscribe, Connect/Flags, Connect/Body, Connect/Frame, Dup
--   and Chunked/ compare with it; Makes and Connect/Makes are about every answer of the memory. A
--   constructor returns the packet and the error code, `none` where the C++ code would leave the memory it
--   has.
-- Outbox: src/Outbox.h over an explicit heap, in which a pointer is a number. Queue is the specification,
--   a sequence with a cursor; Chain, Repr, Insert, InsertFront, Bypass, Unlink, Remove, Iterate and
--   RemoveNth relate the two, and Run states the refinement for sequences of calls.
-- Parser: src/Packets/Parser.h and Parser.cpp. FixedHeader and Step hold one function for each value of
--   `_parse`, Parse the loop. Invariant, Safety, PublishSafety, StepSafety, Moved and Total show that it
--   stays inside its arrays; Feed, Runs, ReadPayload, ReadPublish, PublishBody, PublishRoundTrip,
--   Delivery, Acks and Connack follow whole packets through it. Placed, Turns, FirstPart, SecondPart and
--   Split are about input that arrives in two parts.
-- Client: src/MqttClient.h and MqttClient.cpp. Queueing holds _addPacket, _addPacketFront and _clearQueue,
--   Requests the calls of the user, Sending and Incoming the parts of loop(), Loop their composition. The
--   client's outbox is the specification that src/Outbox.h implements. Outgoing, Advancing, Pending,
--   Draining, Wire and InOrder follow packets out to the transport, Serving, Streaming and ChunkedPublish
--   payloads in portions, SendError an error of it; Asking and Outcomes are about the requests, Ids about
--   packet identifiers, Clear about the queue, Handshake, Delivery, Looping, Handling and Receiving about
--   what comes in, PartialAck about an acknowledgement for a packet that is being sent again, Accepting
--   and Connection about CONNACK, Watching and KeepAlive about a silent server, Transitions and States
--   about the state machine. Plain, Keeping, Reading, Adding, Fine, Always, Sound and LoopSound are about
--   what every call of loop() keeps, Asked and Reach about whole runs of calls.
-- Setup: src/MqttClientSetup.h. Settings holds the setters, Slots and Handlers the callbacks, which are
--   known by numbers; Connecting, Removing and Dispatch hold the theorems, over the Kinds of event, and
--   Session follows a client from its setters to the connection.
-- Transport: src/Transport/ClientPosix.cpp in Posix, over the answers of the system calls, with theorems in
--   Descriptors and Server; src/Transport/ClientAsync.cpp and src/espMqttClientAsync.cpp in Async and
--   AsyncClient.
-- Names: src/TypeDefs.cpp.
-- Tests: the theorems applied to concrete packets.
--
-- Numbers are natural numbers; the wrap-around of size_t, uint32_t and uint16_t is written out. A byte
-- array is a list. The answers of the platform (malloc, free memory, millis, the transport) are arguments.
--
-- Fuel. Parser::parse is given as much fuel as there are bytes and _checkIncoming as many turns; both
-- are shown to be enough. The loop of _clearQueue has as much as there are packets, which is shown to be
-- enough by what it leaves. _checkOutbox takes a list of the transport's answers, one for each
-- turn; one more than there are bytes to send is shown to be enough.
-- Outbox::size counts at most as many nodes as its fuel.
--
-- Assumptions. The build uses no memory pool, sends before the connection is made
-- (EMC_ALLOW_NOT_CONNECTED_PUBLISH) and waits for CONNACK (EMC_WAIT_FOR_CONNACK). Callbacks are recorded in
-- the client's `events`; what a callback calls on the client is a further operation. The union of the
-- packet id and the CONNACK header is little-endian, as on the targets.
--
-- Not modelled: the transports that pass each call on to a WiFi client (src/Transport/ClientSync.cpp and
-- ClientSecureSync.cpp) and the client classes over them, the ESP32 task and semaphores, the memory pool, a
-- library of its own, and logging.
mod Prelude
pub mod Config
pub mod RemainingLength
pub mod Outbox
pub mod Packet
pub mod Parser
pub mod Client
pub mod Setup
pub mod Transport
pub mod Names
mod Tests
