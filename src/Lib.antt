-- ===== src/Lib.antt =====
-- A model of the SNMP manager library for Arduino: the BER codec, the parser of responses, the client
-- that schedules operations on one UDP transport with its tables and notifications, and the older
-- manager with its registered callbacks and requests.
--
-- The program's parts, and how they interact. `SNMPClient` (src/SNMPClient.cpp) owns an array of slots
-- for pending operations. An operation (a read, a write or a walk) is configured by `add` or `setRoot`,
-- takes a slot by `schedule`, is sent by `send`, which builds a datagram with the codec of src/BER.cpp,
-- and is completed by `receive`, which parses a datagram with src/SNMPGetResponse.cpp and finds the
-- operation that it answers, or by `loop`, which retries and times out. `notify` takes the datagrams
-- that are no replies. A table (src/SNMPTable.h) starts one walk after the other on a client and joins
-- their results. The older interface is `SNMPManager` (src/Arduino_SNMP_Manager.cpp), which keeps
-- registered callbacks (src/ValueCallbacks.h) and writes the values of a reply to their destinations,
-- and `SNMPGet` (src/SNMPGet.cpp), which sends a request for callbacks and lets them track it.
--
-- The files:
--   * Common: names of the libraries passed on; Boolean tests and list lemmas on native numbers.
--   * Config: the capacities of src/SNMPConfig.h at their defaults on the ESP32, with its 32-bit words.
--   * Ber.Tag, Ber.Header: the tags of src/BER.h, `readBERHeader`, and the header that each `serialise`
--     writes. A `serialise` takes a destination (`measure` is the null pointer) and a capacity, and
--     returns the length and the bytes, or `none` for -1.
--   * Ber.Integer, Ber.Counter64, Ber.Octet, Ber.Address, Ber.Oid: `serialise` and `fromBuffer` of the
--     primitive classes. Ber.Oid.RoundTrip has the description by arcs of what an identifier encodes to.
--   * Ber.Complex: `ComplexType`, with `serialise`'s two passes and `decode`; Ber.Complex.Encode has the
--     plain description of an encoding, Ber.Complex.RoundTrip what a receiver gets back.
--   * Response: `SNMPGetResponse::parseFrom`.
--   * Tracking: `canTrack`, `track`, `consume`, `matches` and `clearPendingRequests`.
--   * Registration: `ValueCallback` and its classes. Callbacks stand in a list, the heap, and are named
--     by their place, since a manager and requests share them; destinations are places in a list of
--     the application's variables.
--   * Manager: `parsePacket` and `receivePacket`; Manager.Handlers: `addHandler`, the handlers and
--     `findCallback`; Manager.Hex: `testParsePacket` and `printPacket`. Manager.Memory, Manager.Safety,
--     Manager.Routing, Manager.Errors, Manager.Registered, Manager.Counts and Manager.Steps are about them.
--   * Request: `SNMPGet`, with `build`, `sendTo` and `cancelPendingRequests`; Request.Message,
--     Request.Sending and Request.Tracked are about what it sends and what tracks it.
--   * Client.Types, Client.Value, Client.Address, Client.Wire: the client's data, `setBytes`,
--     `copyValue`, `parseAddress`, and the helpers `wrap`, `append`, `appendValue` and `compareOID`.
--   * Client.Packet, Client.Operation, Client.Query, Client.State, Client.Receive, Client.Loop: the
--     building of a datagram, the configuration of an operation, `addRange`, the slots with `schedule`,
--     `finish` and `send`, the handling of a reply, and `loop`. Operations stand in a list, and a slot
--     holds an index in it. Client.State.Invariant says what holds of a client between calls;
--     Client.State.Admission, Client.State.Starting, Client.State.Sending, Client.Receive.Context,
--     Client.Receive.Invariant and Client.Loop.Invariant are about each call.
--   * Client.Notify: `notifications`, `notify` and `SNMPNotification`; Client.Notify.Hear: the branch of
--     `receive` that calls `notify`; Client.Notify.Inform is about INFORM requests.
--   * Table: `SNMPTableRead` and `SNMPInterfaceRead`. Table.Cells, Table.Rows and Table.Join are about
--     `consume`, Table.Invariant and Table.Steps about all operations, Table.Progress about the end of
--     a table, Table.Walks about the client that it uses.
--   * Udp: `discardDatagram`. Mib: the helpers of src/SNMPMIB.cpp; Mib.Addresses is about them.
--   * Examples, Examples.Legacy, Examples.Tables, Examples.Others: the theorems at concrete inputs.
--
-- What is a parameter: the transport (whether a datagram is sent, the datagrams that arrive, the answers
-- of `read`); the application's handlers, which may act on the client, that of notifications
-- too: the record `Environment` of Client.State; `Serial.print(…, HEX)` in Manager.Hex, with its documented
-- output as the hypothesis `PrintsHex`.
--
-- Bounds and fuel. `decode` takes the levels of nesting that are left as its fuel, 32 at the top as in
-- the source; the loops over bytes take the length of the input as fuel, and each round uses at least
-- one byte; `discardDatagram` takes the length of the datagram. Words wrap at 32 bits, and 64-bit values
-- are kept below 2 ^ 64 by the encoder's octets.
--
-- Not modelled: allocation failure and the ownership of memory, reference counts, moves and
-- destructors, debug output, the calls that open and close the transport, the helpers of
-- src/SNMPMIB.cpp that compute with `double`, and the rounding of `float` destinations, which are kept
-- as tenths. A table's `consume` and `advance` are called with the results and the final status of its
-- walk; that the client calls them is not part of the model.

pub mod Common
pub mod Config
pub mod Ber
pub mod Tracking
pub mod Registration
pub mod Manager
pub mod Request
pub mod Response
pub mod Client
pub mod Table
pub mod Udp
pub mod Mib
mod Examples
