-- ===== src/Lib.antt =====
-- A model of argos, an RPC framework whose transport, framing, codec and session layers are
-- replaceable parts.
--
-- A client takes a connection to an endpoint from the session pool, opens a call on it, and
-- releases the connection when the call is over. A call carries metadata in both directions and
-- ends with a status. A server admits the call through a gate and looks its handler up by the
-- method's full name. The framings (gRPC, HTTP unary, the synthetic protocol) put the method, the
-- metadata, the messages and the status into bytes.
--
-- The files, and the code that they model:
-- - Base and its children: library names, lists, byte strings, results, readers, and big-endian and
--   decimal numbers.
-- - SessionPool and its children: internal/sessionpool/pool.go. A locked section is a function of
--   the pool (SessionPool/State, Lend, Reclaim, Acquire: `enter`, `dial_done`, `dial_failed` and
--   `woken` are the parts of `acquire` between its unlocks). SessionPool/System has any number of
--   callers: a history is a sequence of locked sections in any order, with the dials in flight.
--   SessionPool/OpenCall follows one caller through the loops of `acquire` and `OpenCall`, with
--   what the others do to the pool in between as an arbitrary function.
-- - Status, HttpStatus: status/status.go and internal/httpstatus/httpstatus.go.
-- - Metadata: metadata/metadata.go and metadata/call.go. `SendHeaders` is cut where it gives the
--   lock up (`send_begin`, `send_commit`), and Metadata/Lifecycle interleaves the parts of several.
-- - Descriptor: descriptor/descriptor.go.
-- - Server: server/admit.go, and `lookup` and `splitMethod` of server/conn.go. `tryAdmit` is three
--   atomic sections, which Server/Admission interleaves. Server/Calls and its children: handleCall,
--   handleRejected and onConn of server/conn.go, and server/statusmap.go, as the acts that they do
--   in order. Server/Register: `Register` of server/server.go and the table of routes. Server/Life
--   and its children: `buildListenRegs` and the locked sections of `Run` and `Shutdown` there, which
--   Server/Life/Once interleaves.
-- - Options and its children: options.go and option.go for a client; Options/Services: service.go.
-- - Client and its children: client/client.go, call.go and errors.go, with `Parse` of
--   resolver/resolver.go. Client/Opening follows one Open, Client/Admission interleaves many.
-- - Filter and its children: filter/filter.go. Stream: stream/stream.go over a gRPC call.
-- - Grpc and its children: transport/grpc/path.go, lpm.go, message.go, timeout.go, contenttype.go,
--   reserved.go, metadata.go, statuswire.go, details.go, preface.go and compress.go, with
--   compressor/compressor.go and framing.go in Grpc/Compress.
-- - Grpc/Call and its children: transport/grpc/call.go. The state is a call, its session and a log
--   of what it has written; Grpc/Call/Sending and Receiving have its methods, Opening those of the
--   sessions, and Steps their sequences. Grpc/Call/Protocol is the automaton that the log keeps to.
-- - HttpUnary and its children: transport/httpunary/router_rpc.go and headers.go; HttpUnary/Rest:
--   router_rest.go; HttpUnary/ErrorBody: errorjson.go; HttpUnary/Call and its children: call.go and
--   session.go, in the way of Grpc/Call.
-- - Synth and its children: example/synth/wire.go.
-- - Examples, here and under the components: the theorems at small inputs.
--
-- Bounds: lengths on the wire keep the width that the code cuts them to (16 or 32 bits), and
-- durations are cut to 64, as is a limit to which the code adds one. Other counters and times are
-- natural numbers. A limit that the code reads only under `> 0` is a natural number, 0 standing
-- for none; one whose sign matters is an integer. The loops of `acquire` and `OpenCall` recurse on
-- the list of their turns and attempts, with an outcome of its own for a list that is too short;
-- all else is structural recursion.
--
-- Parameters: whether a connection can be reused, the clock, the outcome of a dial, the answers of
-- the resolvers and of the transport of a client, the identity of error values, the text of a
-- status code and of a quoted string, the protobuf codec of google.rpc.Status, encoding/json, the
-- compression algorithms and the answers of the carrier of a call are arguments of the definitions
-- that use them.
--
-- Not modelled: the bytes on sockets and net/http (transport/tcp, udp, ws, http1, http2), the
-- calls and sessions of the synthetic protocol, `New` of the client, what the listeners of a
-- server do, the registries of codecs and transports, the code generator (internal/codegen) and
-- the commands; these are glue, libraries, or left for later. Maps are association lists: what
-- depends on the order in which Go ranges over a map is stated for the order of the list. Copies
-- that only guard against sharing are left out, since values here are never shared.
pub mod Base
pub mod SessionPool
pub mod Status
pub mod HttpStatus
pub mod Metadata
pub mod Options
pub mod Descriptor
pub mod Filter
pub mod Client
pub mod Server
pub mod Grpc
pub mod HttpUnary
pub mod Stream
pub mod Synth
pub mod Examples
