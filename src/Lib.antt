-- ===== src/Lib.antt =====
-- OnliDesk is a remote support server: a technician at a portal and a client machine meet in a
-- session, the technician asks for privileges that are approved for a time, and files go both ways.
-- This library models its Go server, src/server, and proves what makes it correct.
--
-- RemoteAccess models src/server/internal/remoteaccess:
--   Session    session.go: a session, its privilege requests and its clock rules
--   Config     config.go: defaults, validation, and which files, commands and privileges are allowed
--   Manager    session_manager.go: the maps of sessions and connections, the limit on sessions, the
--              cap on privileges, the cleanup
--   Audit      audit.go: the event that is logged; Log (the events of each method), Logger (log file
--              and rotation), Retention (old files), Search and Risk
--   WebSocket  websocket_handler.go: Messages (the messages), Forward (control, screen and file
--              messages passed on), Dispatch (handleMessage and the loop of a connection), and the
--              effect of each on the manager (Effects, Refines, Passing)
--   Http       http_handlers.go: Replies, the handlers of sessions, privileges and logs, and Routes,
--              the whole router
-- FileTransfer models src/server/internal/filetransfer:
--   Chunks     the wire format of a chunk (transfer_handler.go, file_stream.go)
--   Upload     file_stream.go, uploadWorker: the goroutine that puts a file together
--   Download   file_stream.go, downloadWorker: the goroutine that sends one, with its retries
--   Handler    transfer_handler.go: the handlers of the transfer messages
--   Manager    transfer_session.go: the manager of transfers and of their file streams; Statistics,
--              Orphans (temporary files that no transfer has any more), and Ticker (the goroutine of
--              the cleanup as a relation of steps)
--   Settings   config.go: the configuration manager, its file and its validation
--   Security   security.go: validation of a file, encryption in chunks, secure deletion
--   WebSocket  websocket_handler.go: the text messages, as calls of the manager; Chunks (the binary
--              messages and WriteChunk) and Dispatch (handleTextMessage and the loop of a connection)
--   Audit      audit.go: the events that are logged; Logger (the queue, the goroutine that writes it,
--              the log files), Queue, Flush and Sizes (what holds of them)
-- Server models src/server/cmd/main.go:
--   Config     the configuration, its defaults and its file, and the command line
--   Rest       the REST handlers of transfers
--   Process    NewOnlideskServer, and the server as a sequence of events: messages on connections of
--              both kinds, requests of both interfaces, and rounds of the three cleanups
-- Common holds Go's maps, 64-bit integers and strings; Examples runs the models on concrete input.
--
-- A method is a function of the state that returns the new state, an error being a value of
-- `Result`; its name is the Go name in snake case. A session stands in the manager's map, which is
-- how the Go code shares its pointer. Each method runs under its mutex, so that a history of the
-- server is a list of calls (`Call`, `run`) or of messages (`run`, `receive_all`, `handle_all`), in
-- the order in which the locks are taken. The WebSocket and HTTP handlers call the methods of the
-- manager; what they send is a list of messages, each with its connection. Instants and durations
-- are nanoseconds in ℤ, with the saturation of `time.Sub` and the wrap-around of int64 counters
-- written out. The clock, fresh identifiers, JSON decoders and encoders, digests, the cipher, the
-- types of files by extension, the outcome of a write and the file system are arguments.
--
-- Loops are recursions on their lists. Four run on fuel: the upload worker's inner loop removes a
-- stored chunk in each round, so the number of stored chunks and one more is enough; the download
-- worker sends one chunk in each round, so the number of chunks is enough; secure deletion
-- overwrites at least one byte in each round, so the size of the file is enough; the exchange sort
-- of the log files fixes one file in each round, so their number is enough.
--
-- Not modelled: the listening of the server, TLS, signals and static files; the middleware and the
-- upgrade of a connection; what other connections do to a stream whose lock a handler keeps for
-- ever (see WriteChunk); the progress monitor, which only reports on a timer; the search for
-- orphaned temporary files as the end of a cleanup (Orphans models it by itself); and everything
-- that is not the Go server.
pub mod Common
pub mod RemoteAccess
pub mod FileTransfer
pub mod Server
pub mod Examples
