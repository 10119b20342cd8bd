-- ===== src/Lib.antt =====
-- home-bench: a controller drives a fleet of clients through a sequence of file system benchmarks.
-- This library models the controller, the vocabulary that it shares with the clients, and what a
-- client does for its commands. The theorems say what this code does on every branch, and under which
-- conditions it does what it is meant to; some of them show where it does not.
--
-- The parts, and which file models which:
--   * Base: what Go's values are here. Texts are lists of bytes (Texts), maps are association lists
--     and sets are lists without repetition (Maps, Sets), in any order of iteration; Float is
--     float64 as a parameter with no law, since no theorem depends on rounding; Int has the 64-bit
--     words and their wrap-around. Numbers are the native ones; a difference stops at 0, as a
--     duration from an earlier time to a later one does.
--   * Protocol.Phase, Protocol.Config: internal/protocol/protocol.go, the phases, their toggle groups
--     (PhaseToggleGroup), the plan (EffectivePhaseOrder, ActivePhaseOrder) and
--     NormalizeDisabledPhases; Protocol.Interval: MetricsIntervalForClients, in nanoseconds;
--     Protocol.Sample: the samples that the clients report.
--   * Protocol.Prefix: internal/protocol/prefix.go, SelectPrefix with its 32-bit FNV-1a hash.
--   * Protocol.Latency: internal/protocol/latency.go, the histograms, with uint64 counts that wrap.
--   * Controller.Registry: internal/controller/registry.go, the registered clients. Every method is
--     one step under its mutex, and the clock is an argument.
--   * Controller.Metrics: internal/controller/metrics.go, the timeline of the run: Begin, Freeze, Add
--     and the turns of the loop that applies samples and flushes the seconds that are over; Buckets has
--     its state.
--   * Controller.Orchestrator: internal/controller/orchestrator.go and participants.go. State has the
--     struct, the effects and the errors; Settings is SetConfig and SetPhaseEnabled; Selection is
--     UpdateParticipants, SetSelectedClients and OnClientRegistered; Lifecycle is Start, Stop,
--     OnClientRemoved, setPhase and finish; Snapshot is what the UI is shown; Run is the goroutine
--     of a run with its ramps, and Run.Wait is waitClientsIdle.
--   * Controller.ConfigFile: internal/controller/configfile.go, LoadConfigFile and SaveConfigFile with each
--     state of the disk between their calls, and the part of NewOrchestrator that reads the file.
--   * Controller.Server: internal/controller/server.go. Api has the HTTP handlers of the browser's
--     requests; Delivery is Broadcast and BroadcastTo; Queue is the send queue of a connection;
--     Refresh is requestUI and flushUI; Sessions is handleClientWS, message by message, and the
--     ticker that drops stale clients. Registering is two steps, at the registry (enter) and at the
--     map of connections (connect).
--   * Client.Ledger, Client.Stats: internal/client/worker.go, FileLedger and Stats. Client.Pace is the
--     shape of the loops that work at a rate; Client.Creation is runCreate, Client.Deletion
--     runDelete, Client.Bandwidth runBandwidth and writeFileDirect, Client.RandomIo runRIOPS, and
--     Client.Worker is Run and the rest of the worker.
--   * Client.Software: internal/client/software.go; Client.Paths: internal/client/paths.go.
--   * Client.Agent: internal/client/agent.go. Agent.Reporting is setMetricsInterval and metricsLoop,
--     Agent.Commands is the messages of a session and commandLoop.
--   * Software: internal/software/unpack.go, ExtractTarGz and extractTarEntry; Software.Distribution: the
--     loops over the prefixes of UnpackToPrefixes, and of shared.go's BundleToPrefixes and
--     DownloadUntarToPrefixes.
--
-- How the parts meet: the orchestrator reads the registry (who is registered, their states), sets
-- its prefixes, and takes the plan from Protocol.Config. Start freezes the participants and starts
-- the goroutine of Run. Its methods run concurrently with that goroutine and with each other;
-- Lifecycle.Step has one event for each critical section, and a list of events is an interleaving.
-- Stop and OnClientRemoved are two events each, since they release the mutex between them. The server
-- holds the orchestrator, with its registry, and the metrics store: a registration goes to the
-- registry and the orchestrator, a sample of a participant to the store. A request of the browser is
-- decoded and becomes one call of the orchestrator; the messages among the effects of that call go to the
-- send queues (Delivery). What a run's first stages fetch, Software.Distribution places below the prefixes
-- that Protocol.Prefix gives the clients. On the client, Run picks the
-- phase of a command (Client.Worker), and each phase works on the one ledger and the one set of
-- counters; what other goroutines do to the ledger meanwhile is an argument of each turn.
--
-- Bounds: the loops recurse on their lists, or on the list of their turns. A turn of a loop that runs
-- until a deadline has, as its argument, what it reads of the clock, the context and the file system, so
-- that a list of turns is a run of the loop, and a result of `none` a run that is still under way. The
-- wait in Run.Wait recurses on the events that its select receives, and it is proved to return at the
-- first tick after its timeout. A run's blocking calls take their outcome from an argument `ends`, one
-- reply for each call. A number of rounds stands for the loop in write_file_direct, one more than the
-- bytes of the file, of which each turn writes one at least; in next_existing_path, whose own bound is
-- the length of the ledger; and in the texts of Base, one for each byte or more than the number.
--
-- Not modelled: the sockets and the browsers' connections (internal/controller/server.go), which
-- only pass on what is modelled here, and the agent's dialling, pings and reconnection
-- (internal/client/agent.go); encoding/json, whose decoded value or failure is an argument; the
-- downloads, git and copyFile (internal/software), which are calls that succeed or fail by an
-- argument; the command line (cmd) and the web page (web). Of the client, the opens for direct I/O
-- are system calls of each platform; what the file system, the shell, the clock and the random
-- numbers come to is an argument. filepath.Join is the library's: the root that it makes for a host
-- is an argument of Client.Paths, and the paths of the shared trees are of Software.Distribution.
-- Where the orchestrator calls what is not modelled, the call is an effect or an action in a list.
pub mod Base
pub mod Protocol
pub mod Client
pub mod Controller
pub mod Software
