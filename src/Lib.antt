-- ===== src/Lib.antt =====
-- Heron: a local proxy that starts services on demand and stops them when they are idle.
--
-- A request reaches the router of the proxy, which picks a service. The handler takes a lease of that
-- service from the supervisor, which starts it if it has to, and gives the lease back after the
-- answer; a TCP connection holds its lease until both its ends are closed. A service with no lease is
-- stopped after its idle time. Lifecycle hooks run before the proxy opens and after it closes, and the
-- last log lines of each service are kept for the terminal interface.
--
-- Files, and the code of the repository that they follow:
--
--   Base, Base/*
--     Names of the library, byte strings, maps as lists of pairs, tests into Bool, signed numbers,
--     and counts of the values of a function.
--   Config/Environment, Config/Environment/*
--     internal/config/environment.go and validateEnvironment: .env files, quotes, and `{{NAME}}`.
--   Config/Types, Config/Endpoint, Config/Endpoint/*, Config/Registry, Config/Registry/*
--     internal/config/config.go: appEndpointInputs and normalizeEndpoint, with the four maps `paths`,
--     `hosts`, `ports` and `listenPorts` as one record, Registry.
--   Config/Normalize, Config/Normalize/*
--     internal/config/config.go: Config.Normalize. A Go map is a list of entries in any order.
--     What os and filepath answer is the record World.
--   Config/Loader, Config/Loader/*, Config/Listing
--     internal/config/config.go: load, with the resources that a file includes, and EndpointList. The
--     disk and the YAML decoder are the record Disk. loadAll and loadOne call each other on fuel, one
--     for each file of the disk that is opened: as much as there are files is enough, since a file that
--     is open already is refused.
--   Supervisor, Supervisor/*
--     internal/supervisor/service.go: a Service and its goroutines. A Machine is the struct with
--     the attempts to start it (close of startDone, cancel), the processes and where each goroutine
--     stands; one step is one section under the lock, or one wait of a goroutine, with what the
--     process and the clock answer as an argument. A run is any list of steps. `none` is a panic
--     of the Go runtime: close of a closed channel. Ready is the wait for the endpoints, on what the
--     network answers for each address at each turn of its loops, and grpc.NewClient before them.
--     Control is the supervisor of all services, of internal/supervisor/supervisor.go and inspection.go.
--   Proxy/Router, Proxy/Router/*, Proxy/Rewrite
--     internal/proxy/router.go and internal/proxy/rewrite.go. net.SplitHostPort is written out from
--     its documentation; text is ASCII.
--   Proxy/Handler, Proxy/Handler/*
--     internal/proxy/handler.go: NewHandler and ServeHTTP, from the configuration to the answer. An
--     Answer is a value: the port and the request that the backend gets, or a refusal in the words of
--     HTTP or of gRPC. What the supervisor answers to Acquire is an argument.
--   Proxy/Drain, Proxy/Tracker, Proxy/Tracker/*
--     internal/proxy/drain.go: DrainHandler, and ConnectionTracker with the connections it wraps.
--   Proxy/Tcp, Proxy/Tcp/*
--     internal/proxy/tcp.go: TCPServer. A step is a section under the lock with the closes beside
--     it; where `handle` stands is data, and its deferred calls are its last points, and the loop of
--     Serve has a step each for Accept, for trackClient and for the close of a refused client.
--   Tui, Tui/*
--     internal/tui/model.go: the state that the keys change, nextKey, and treeOrder, whose closure runs
--     on fuel: one more than the number of the processes, since each nested call marks another pid.
--     Tui/Lines and Tui/Draw are `view` with its panes; `none` is an index out of range.
--   Processes, Processes/*
--     internal/process/tracker.go: Owned, which processes belong to a launch; and mergeEnvironment of
--     internal/process/runner.go.
--   Observe, Observe/*
--     internal/observe/store.go: the ring of log lines of each service.
--   Lifecycle, Lifecycle/*
--     internal/lifecycle/hooks.go: the commands of start-up and tear-down; the runner is an argument.
--   */Tests, */Samples
--     Concrete runs.
--
-- Every loop is structural recursion over the list it reads, but interpolation, which runs on fuel (one
-- more than the length of the text, which gets shorter at each round), the loader, and treeOrder. Numbers of Go
-- that may be negative (ports, durations) are ℤ, without a bound: the code compares them and does no
-- arithmetic that could overflow.
--
-- Not modelled: cmd/heron/main.go (flags and wiring), the goroutines and the loop of internal/tui, what of
-- internal/process calls the operating system, the YAML decoder, the reverse proxy and net/http, the
-- formats of numbers and times, and logging, because they are input and output or code of other
-- packages.
pub mod Base
pub mod Config
pub mod Supervisor
pub mod Proxy
pub mod Observe
pub mod Lifecycle
pub mod Tui
pub mod Processes
