-- ===== src/Lib.antt =====
-- Verification library of workloadguard, a daemon that watches the processes of a Mac and acts on
-- those that a policy counts too many of.
--
-- The program and the files that model it:
--   internal/config/config.go        Config: the types, `Default`, `Load`, `Validate`
--   internal/collector/collector.go  Collector: `Collect`, the queries of a snapshot
--   internal/policy/convert.go       Policy/Cedar: the text that the Cedar library reads
--   internal/policy/engine.go        Policy/Engine: `Evaluate`, `evaluatePolicy`
--   internal/policy/executor.go      Policy/Executor: the six actions, `Term`, `Kill`
--   internal/platform/notify_darwin.go  Platform/Script: the script of a notification
--   internal/diagnostics/diagnostics.go  Diagnostics: the files of a capture
--   internal/metrics/metrics.go      Metrics: the calls of the Prometheus library
--   internal/daemon/daemon.go        Daemon: the cycle, the cooldown, `Run`, `Terminate`
--   internal/api/                    Api: the alerts, the clients; Api/Provider: `StatusProvider`;
--                                    Api/Handlers; Api/Status: the status, one policy, the sockets;
--                                    Api/Routing: the routes and the server's events
--   internal/platform/sysctl_darwin.go   Platform/Sysctl: loads and memory from the kernel's bytes
--   internal/platform/libproc_darwin.go  Platform/Libproc: `ListPIDs`, `GetProcessInfo`
--   internal/app/app.go              App: `Check`, its text, `Run` around the daemon's loop;
--                                    App/Serving: the loop beside the API's goroutines
--   internal/cli/                    Cli: the four commands, from their flags on
--   internal/logging/logging.go      Logging: what a logger is made of
-- The daemon wakes by a tick, collects a snapshot, has the engine evaluate it, and hands each
-- decision that has triggered and is not on cooldown to diagnostics and to the executor. A Go
-- function has the same name here, in snake case.
--
-- Shared by all: Base (lists, maps, tests, integers, text), Float, and System. What the program
-- asks of the operating system is an event of a trace (System); an `Env` answers each request from
-- the whole trace, so a theorem about every `Env` is about every behaviour of the system. The
-- daemon's state carries the trace. Theorems stand in the child modules named for them; Samples
-- and Tests hold concrete data and the theorems applied to it.
--
-- The commands put the parts together: `validate` and `run` read the same file (Cli/Composition),
-- and `check` shares the engine and the executor with the daemon (App/Check). The collector takes
-- any `Readings`; those of the platform package are in Platform/Readings. The API is written over a
-- `StatusProvider` with laws (Api/Provider), which the daemon fills (Daemon/Provider).
--
-- A run with the API is a relation of small steps (App/Serving): the beginning of a check, the
-- handling of one decision, its end, and each event at the server, in any interleaving. Its
-- invariant and its safety are in the child modules. `Run` as one function (App/Serving/Schedule)
-- takes such steps as a schedule says, from the first request to the shutdown, and ends by an error,
-- a panic or the context. A request is one step, so what two goroutines do within one is not
-- interleaved further; the goroutine of a socket takes a step to register it, one to greet it, one
-- to set its deadline.
--
-- Parameters, since their code is elsewhere: the operating system (`Env`), the macOS calls below
-- the platform package (`Sysctl`, `Libproc`), the Cedar library (`Cedar`), the TOML library, the
-- JSON library and the writes to sockets (`Wire`), and the rounding and printing of float64
-- (`Floats`). A float64 that is no NaN is its place in the order of the doubles, so comparisons are
-- exact.
--
-- Choices: a map is an association list, in an order that stands for Go's arbitrary one; Go's
-- `int` is an unbounded integer, as the program only compares it and takes differences of times;
-- the goroutines of `Collect` are a list in the order in which they take the mutex; the loop of
-- the daemon alone is a list of ticks; `sort.Slice` is a stable insertion, one of its possible
-- results, so that the order of equal priorities is that of the map (Policy/Engine/Maps has any
-- order). The only fuel is that of `buildParentChain`, two more than the entries of the index by PID.
--
-- Not modelled: what Cedar makes of a policy's text; the matching of a path to a route, JSON, the
-- pings of the sockets, and how the HTTP server starts and shuts down, since these are calls of
-- libraries; logging beyond the action `log`; what the Prometheus library does with a call; the
-- flag `--verbose`, which nothing reads.
pub mod Base
pub mod Float
pub mod Config
pub mod Collector
pub mod Platform
pub mod Policy
pub mod System
pub mod Metrics
pub mod Diagnostics
pub mod Daemon
pub mod Api
pub mod App
pub mod Cli
pub mod Logging
pub mod Samples
pub mod Tests
