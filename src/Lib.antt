-- ===== src/Lib.antt =====
-- MediaStream relays RTSP cameras to WebRTC viewers. This library models the Go server under
-- go-legacy (its Kotlin successor under src/ is not modelled).
--
-- PARTS
-- go-legacy/internal/core
--   Core/Channel, Core/Stream: Go's buffered channels and `Stream` of stream_manager.go, a packet
--   buffer, the goroutine that copies packets to the subscribers' channels and a worker for each
--   subscriber. Workers are shared by pointer and live on a heap (`workers`, a pointer is an index).
--   Core/Stream/Events has the events of the goroutines that share a stream, at the granularity that
--   the locks leave: WritePacket is one event, or its check and its sends are separate events.
--   Core/StreamManager: the map of streams over a heap of streams, so that a pointer held elsewhere
--   stays readable when a stream is removed.
--   Core/ConfigStore: config_store.go. The disk is an argument: what the file holds, and whether a
--   write succeeds. A history is a list of requests.
--   Core/Config: config.go, with Go's int as the integers.
-- go-legacy/internal/process
--   Process: manager.go. The processes live on a heap, shared by the map and the goroutines that
--   wait for them; a launch's outcome and a process's exit are arguments.
--   Process/Listing has the well-formedness of the map, Process/Events the events and Process/History
--   what they make of it in any order.
-- go-legacy/internal/rtsp
--   Rtsp/Names, Rtsp/Sdp, Rtsp/RtspPath: the names, the media descriptions, and `Path` of
--   path_manager.go with publisher.go and subscriber.go. A path, a publisher and a subscriber hold
--   pointers into the heap of Core/StreamManager.
--   Rtsp/PathManager: the map of paths with the stream manager, and the handlers of server_rtsp.go
--   as functions to the new state and the status. Rtsp/PathManager/Publishing has the histories.
--   Rtsp/Client: the client of client.go. What gortsplib and the network do in an attempt is an
--   argument; Rtsp/Client/Retry has the loop of runWithRetry.
-- go-legacy/internal/webrtc
--   Webrtc/Codec: selectVideoCodec of peer.go on the bytes of an offer. Webrtc/Engine has the codecs
--   that the shared API of manager.go registers, and those of the tracks.
--   Webrtc/Peers: the peers of peer.go and manager.go on a heap; of the connection of pion/webrtc
--   the peer keeps whether it is open, and the rest is an argument (its state changes, the outcome
--   of a write). Webrtc/Peers/Answering has CreateOffer, Webrtc/Peers/History the histories.
-- go-legacy/internal/database
--   Database: stream_repository.go over an SQL engine, which is a record of operations.
--   Database/Contract has the laws that the repository relies on, and Database/Table an engine that
--   keeps them.
-- go-legacy/cmd/server
--   App: the `Application` of main.go over the models of its managers, of the repository and of the
--   RTSP clients, which live on a heap. App/Loading has its start and end, App/Offers the offers, in
--   stages between which other goroutines run, and the goroutine of a closed peer; App/Answering
--   has an offer as a whole. App/Startup has main up to its wait for a signal, with
--   internal/database/database.go. App/Relay has the way of a packet through the callbacks: from a
--   client to its stream, the distributor, a worker and the peer that is its subscriber, whose id the
--   worker has; App/Relay/Order lets the client and the distributor go on in any order.
--   App/Masking has the URLs that log lines show (internal/cctv/manager.go has the same code).
-- go-legacy/internal/cctv, go-legacy/internal/client
--   Cctv/Manager: manager.go of cctv over Cctv/ApiClient, api_client.go. The server is a function
--   from requests to what becomes of them, and what encoding/json reads in a body is an argument.
--   The rest of the program has its use commented out.
-- go-legacy/pkg/logger
--   Logger: the package's variables as a state, with the loggers that components were given as
--   values, and the file that each one's lines go to; Logger/Path has the names of the files.
-- go-legacy/internal/signaling
--   Signaling: server.go. The clients live on a heap, shared by the map, their pumps and the
--   goroutines of their offers; Signaling/History has the histories. An offer is what App/Offers
--   serves; here its outcome is an argument.
-- go-legacy/internal/api
--   Api/Streams: the handlers of server.go over the model of the application.
--   Api/Streams/Serving has the events of the whole server: requests, offers, peers, packets and
--   attempts of clients; Api/Streams/Lifetime the histories of them, one request after another but
--   for deletions, which come in two parts. The program has no lock over a request; Api/Streams/Races
--   has a start between the two parts.
--   Api/Hls: the HLS handlers of server.go over the application, with the HLS manager as an
--   argument, and the handlers of health and CORS.
--   Api/PathsHandler: the handlers of paths_handler.go over the models of the path store and of the
--   process manager, as functions to the status and the new state.
--
-- CONVENTIONS
-- A Go map is GoMap, an association list; `range` visits it in the order of the list, and a theorem
-- about every list is one about every order. Counters of type uint64 wrap modulo 2^64. A panic is
-- the result `none` (or a constructor `panics`), a Go error a value of an error type. Logging, locks
-- and the identifiers of log lines are left out; what a lock protects is one step. A write of a file
-- that fails is taken to leave the file as it was; RowsAffected of the SQL driver returns no error,
-- and gortsplib's NewServerStream returns a stream.
-- Most loops are recursions on a list; `wait_muxer` of Api/Hls has the ten retries of the source.
-- Two have fuel, and return `none` where it runs out: `retry` of Rtsp/Client, one unit for each
-- attempt (a positive retry count is enough), and `wait_codec` of App/Offers, one for each poll (one
-- more than the poll intervals of the time, rounded up).
-- `rounds` of Core/Stream/Fanout runs a given number of rounds, a part of the theorem.
--
-- NOT MODELLED
-- go-legacy/mediamtx-main is a copy of another project; the Kotlin server under src, the web client
-- and the deployment are not Go; cmd/start-streams launches ffmpeg for tests. internal/hls is imported
-- and not in the repository: its manager is an argument of Api/Hls, and its calls whose outcome is
-- only logged are left out. Of what is modelled, the bytes of an SDP and of JSON, the negotiation
-- inside pion/webrtc, overlapping requests (but for deletions), the routes of gin, the
-- texts of the SQL statements and of the schema, what lumberjack does by size, and the shutdown of the servers of gortsplib and gin
-- are left out, and so is maskURL of internal/rtsp/client.go, which rests on net/url.
mod Base
mod GoMap
pub mod Core
pub mod Process
pub mod Rtsp
pub mod Webrtc
pub mod Database
pub mod App
pub mod Cctv
pub mod Logger
pub mod Signaling
pub mod Api
