-- ===== src/Lib.antt =====
-- A model of gowse, a websocket client engine in Go, with the properties of its parts.
--
-- The program. wscengine/websocket_engine.go holds the engine: it dials through a connection
-- adapter, calls the callbacks of a client (OnOpen, OnMessage, OnReadError, OnClose, OnCloseError,
-- OnRestartError), runs goroutines that read messages, shuts a session down once, and restarts it
-- until it is stopped. wscengine/wsadapters holds the interface of a connection adapter, two
-- adapters, over gorilla/websocket and nhooyr.io/websocket, and a decorator that traces an adapter.
-- echowsserver is a server for tests, and example/client a program that uses the engine.
--
-- The files.
--   Base, Errors      helpers, and Go's errors: wscengine/errors.go, wscengine/wsadapters/errors.go;
--                     Errors.Chain is the loop of errors.As, Errors.Text the Error methods
--   Client            wscengine/wsclient/websocket_client_interface.go (a record of the callbacks);
--                     Client.Traced is wscengine/websocket_client_instrumentation_decorator.go
--   Config            wscengine/websocket_engine_configuration.go, and the timeouts (Timeouts) and
--                     the retry delay (Delay) that websocket_engine.go computes from the options
--   Engine.State      the struct WebsocketEngine and what its goroutines share
--   Engine.Start      Start, startEngine (start, start_engine)
--   Engine.Stop       Stop, IsStarted (stop, is_started)
--   Engine.Shutdown   shutdownEngine (shutdown_engine)
--   Engine.Restart    restartEngine (restart_engine)
--   Engine.Reader     runEngine, in the steps begin_read, end_read and process; Engine.Reader.Loop
--                     puts them together to the loop of one reader (run_engine)
--   Engine.Kept       a proof rule: what holds for the parts of the engine's functions holds for a
--                     whole Stop and restartEngine
--   Engine.System     the goroutines together, as a step relation; Engine.Invariant holds the lemmas
--                     on single steps and Engine.System.Invariant the invariant of every state;
--                     Engine.System.Whole shows that whole calls of Start are sequences of its
--                     steps; Engine.System.Drain is about the end of the readers
--                     (Progress, Stopped: after a Stop), Engine.System.Reads about what becomes of
--                     the results of conn.Read, Engine.System.Opens about the sessions that are
--                     opened (Callbacks), and Engine.System.Growth about what only grows
--   Engine.Overlap    Stop while restartEngine runs, with the start mutex as a lock (Deadlock,
--                     Endings)
--   Engine.Starters   calls of Start that overlap, also when one has given up on its startEngine
--                     goroutine: what they open (Counts, Opened), that sessions are opened and closed
--                     in turn (Alternate), as steps of Engine.System (Reach), and a second Start after
--                     one that timed out (Retry)
--   Engine.Cycles     Start and Stop in turn (Connections: over any adapter and client;
--                     Exits: OnOpen calls exit)
--   Engine.Composed   a reader between any connection adapter and any client
--   Engine.Redial     restartEngine over any connection adapter (Reconnect: after a close error;
--                     Connected: what startEngine leaves in the adapter)
--   Engine.Spans      the methods of the engine once more, with the calls on their spans: Start
--                     (Start, startEngine), Shutdown, Stop, Restart and Reader (runEngine; Rounds)
--   Engine.Hazards    sequences of Start and Stop that do not end as the comments say
--   Engine.Factory    NewWebsocketEngine and the factories of the two decorators
--   Adapters          wscengine/wsadapters: Constants, Interface (a record of operations and laws),
--                     Client (a sequence of calls of its user), Gorilla and Nhooyr (the two
--                     adapters, which fill the interface; their Races are a Read that waits
--                     while the connection is replaced), Traced (the decorator, which fills it
--                     over any adapter), Names (wscengine/wsadapters/tracing.go)
--   Tracing           wscengine/tracing.go: the two error handlers and the names (Names); Summary is
--                     what a span shows
--   Mocks             the mocks: wscengine/wsadapters/websocket_connection_adapter_mock.go (Adapter) and
--                     wscengine/wsclient/websocket_client_mock.go (Client)
--   EchoServer        echowsserver/echo_websocket_server.go; EchoServer.Clients holds the goroutines
--                     of its clients
--   Example           the example programs: example/client/websocket/client.go (Callbacks; Client fills
--                     the record of callbacks), the constructors of example/client/providers and
--                     main.go (Configuration, Tracer, Provider, Application), the OnStart hook as a
--                     loop over results (StartHook) and with the engine (Hooks; Timeout: after a Start
--                     that times out), the application from its constructors to its end (Life), and
--                     example/server (Server)
--   Examples          concrete runs, at which the theorems are applied
--
-- How it corresponds. A method is a function from the state and the answers of its surroundings
-- to the new state and the result; the answers are records (StartEnv, StopEnv, ReadEnv,
-- ShutdownEnv, Attempt) with one field for each call that leaves the engine and for each choice
-- of a select. Contexts and sync.Once objects are numbers that the engine draws in turn; a
-- cancel function is the number of its context. The calls of the adapter and of the callbacks
-- are kept in a list. The steps of Engine.System are the renewal of the engine context by Start,
-- a call of startEngine or Stop, some rounds of a restartEngine goroutine, a call of a cancel
-- function, the user's lock of the read mutex, and the pieces of runEngine between which the
-- read mutex changes hands or a callback runs. In Engine.Overlap the steps are those of Stop, of
-- restartEngine and of its startEngine goroutines, and the places where one of them waits are
-- values (StopPc, RestartPc). The libraries gorilla, nhooyr, validator, math, testify, zap and
-- OpenTelemetry, url.Parse and os.Getenv are parameters, with what their documentation says of
-- them where a theorem needs it.
--
-- Bounds and fuel. Every loop of the engine is over a list that is given, such as the rounds of
-- restartEngine or the messages of a session, or a number of rounds (Engine.Composed). Only the
-- loop of errors.As (Errors.Chain) runs on fuel, and as much as the chain is long is shown to be
-- enough. An int64 wraps around where the code multiplies timeouts and delays; counters
-- elsewhere are natural numbers.
--
-- Not modelled: in Engine.System a call that holds the start mutex is one step, and a Stop that
-- waits for a restart is in Engine.Overlap only, where the body of startEngine is one step too;
-- where calls of Start overlap, the renewal of the engine context and the start of the goroutine
-- of startEngine are one step; a call of Do on a sync.Once whose function has been called and is
-- blocked returns at once, where that of Go waits; in Engine.System a conn.Read may return at any
-- time, and only Engine.System.Drain.Progress distinguishes the steps in which it returns because
-- the engine has closed the connection; data races other than the one of Read on the field conn;
-- the contexts that link one span to another; logs; the tests; and fx, beyond the order in which
-- it calls the constructors and the hooks of the examples.
pub mod Base
pub mod Errors
pub mod Adapters
pub mod Client
pub mod Config
pub mod Engine
pub mod Mocks
pub mod Tracing
pub mod EchoServer
pub mod Example
pub mod Examples
