-- ===== src/Lib.antt =====
-- edvabe: a local server for the E2B sandbox API. This library models its core: the registry of
-- sandboxes with its reaper, the runtime interface below it with the in-memory implementation, the
-- store of templates, the builds of templates, and the HTTP layer over them: dispatch, proxy,
-- upload tokens, the cache of uploads, and the handlers of sandboxes, templates, builds and files.
-- Paths are from the repository's root.
--
-- Files and what they model:
--   Sandbox, Sandbox/Labels, Sandbox/Host   internal/sandbox/sandbox.go, labels.go; what surrounds
--     the manager (runtime, agent, clock, identifiers, template resolver) is the record `Host W`
--   Sandbox/Manager   internal/sandbox/manager.go: Get, List, Destroy, SetTimeout, Connect, Pause,
--     Stop, Resume; Manager/Create for Create, Manager/Rehydrate for Rehydrate, Manager/Reaper for
--     EnforceTimeouts, Manager/Snapshot for Snapshot; Manager/History for histories of calls and of
--     the ticks of Run
--   Sandbox/Manager/Registry, Calls, Exact, Containers   proofs: the registry alone, the promises of
--     single calls, and the registry against the containers
--   Runtime   internal/runtime/runtime.go; Runtime/Laws has what the manager relies on of a runtime,
--     Runtime/Noop models internal/runtime/noop/noop.go and Runtime/Noop/Keeps shows that it complies
--   Agent   internal/agent/agent.go, the calls that the manager makes
--   Template, Template/Store, Template/Resolver   internal/template/template.go, store.go (NewStore,
--     Create, Get, ResolveAlias, ResolveNameOrID, Delete, UpdateMeta, AppendBuild, UpdateBuild,
--     SeedBuiltIn), resolver.go; Store/Index and Store/Keeps have the invariant of the aliases,
--     Store/Creation the outcomes of Create
--   Builder/RingBuffer   internal/template/builder/ringbuf.go: newRingBuffer, Append, Read, Len,
--     Written, against the log of all entries ever appended
--   Builder/Translate   internal/template/builder/translate.go: Translate and quoteEnvValue, with
--     the Dockerfile as a list of instructions (`instructions`) whose text is what Translate returns;
--     Translate/Lines reads that text back
--   Builder/Spec, Builder/Manager   internal/template/template.go (BuildSpec) and
--     internal/template/builder/manager.go: NewManager, Enqueue, run, Status, Logs, Wait, Cancel.
--     Manager/History has the goroutines, interleaved in any order, Manager/Moving and
--     Manager/Lifecycle the invariant, Manager/Logs, Manager/Progress, Manager/Liveness what follows for clients, and
--     Manager/Completion the callback of cmd/edvabe/main.go into the template store
--   FileCache, FileCache/Blobs   internal/template/filecache/signer.go, filecache.go
--   Api, Api/Dispatch, Api/Proxy   internal/api: requests and replies, dispatch.go, parsehost.go,
--     proxy.go
--   Api/Control/Sandboxes, Listing, Routes   internal/api/control/sandboxes.go and the sandboxes' part
--     of router.go; Control/Asked says which call on the manager a request asks for, Control/Acting that
--     this is what it does, Control/Timeouts has the durations that come over HTTP
--   Api/Control/Builds   internal/api/control/builds.go; Builds/Starting has what startBuild leaves
--   Api/Control/Files   internal/api/control/files.go
--   Api/Control/Templates   internal/api/control/templates.go; Templates/Creating has what
--     createTemplate leaves; Template/Store/Listing has List of the store
--   Text/Split, Text/Decimal, Text/Affixes   what is used of Go's strings and strconv
--   Prelude, Text   Boolean tests, lists, integers, Go's maps and errors, string prefixes
--   Tests   runs at concrete inputs
--
-- How the code is read: a method takes the manager and the world and returns its result with both. A
-- world `W` is whatever the host's calls read and change; it is a parameter, so a theorem over all
-- hosts covers every answer of the runtime, errors included. A Go map is a list of pairs without a
-- repeated key, in one fixed but arbitrary order. Instants are integers of nanoseconds since the zero
-- time; that they fit 64 bits is not modelled. An error keeps its operation, sandbox and cause, not
-- its final text. Counters of the log buffer stay far below 2^63 and are natural numbers. All loops
-- are structural recursion over the list that the code ranges over; only the client that follows the
-- tokens of a listing has fuel, as many requests as the theorem about it says are enough. The file of the
-- template store, with its JSON, and its identifiers are the record `Files W`.
--
-- The goroutine of a build is a phase in a map beside the builds, and a history of the builds is a list
-- of events, the latest first: calls, and moves of goroutines, each the stretch of code between two
-- points where another goroutine may come in. An event that cannot happen gives no state. What the
-- executor logs and answers, and what the clock gives, is part of the events.
--
-- The parts meet thus: the manager is a client of the record `Host`, which has the record `Runtime`
-- in it. `IsRuntime` and `IsHost` are what the manager may rely on; the in-memory runtime is proved
-- to satisfy them. The registry's theorems rest on no such law. The store is the manager's resolver by
-- Template/Resolver. The handlers of sandboxes are clients of the manager of sandboxes, those of templates
-- and builds of the template store and of the manager of builds, which writes outcomes back into that store.
--
-- Not modelled: the mutex of the registry and cancellation (a call on sandboxes is one step), the
-- Docker runtime and the build executor, the stubs and the dashboard, the texts of errors, the decoding of JSON, the
-- command line. They are input and output or calls of packages
-- outside the repository, or lie outside the core that is covered here.
pub mod Agent
pub mod Api
pub mod Builder
pub mod FileCache
pub mod Prelude
pub mod Runtime
pub mod Sandbox
pub mod Template
pub mod Tests
pub mod Text
