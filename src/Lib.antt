-- ===== src/Lib.antt =====
-- Salus Telemetry Envoy: a process that attaches to an Ambassador, installs, configures and runs
-- monitoring agents on its behalf, and passes their telemetry on.
--
-- Agents/* models the package agents. agents/agents.go is Agents/Files (files, archives, the
-- configuration operations); agents/converters.go is Agents/Convert; agents/command_handler.go is
-- Agents/Process, with the goroutines that read a command's output in Agents/Output;
-- agents/telegraf.go, filebeat.go, pkgagent.go and oracle.go are Agents/Telegraf, Agents/Filebeat,
-- Agents/JsonFiles (the files of the last two) and Agents/Restarting (their processes), over the
-- loop Agents/Operations. Agents/Runner joins the four runners behind the interface
-- SpecificAgentRunner, Agents/Router is agents/agents_router.go, and Agents/TestMonitor has
-- ProcessTestMonitor of the runners and the router. Agents/ConfigServer has the HTTP handlers of
-- agents/telegraf.go and telegraf_test_config_runner.go and the commands that use them,
-- agents/capabilities.go is Agents/Capabilities, Agents/Loading is NewAgentsRunner with the Load
-- of each runner and agents/registry.go, Agents/Overlap splits EnsureRunningState of telegraf
-- where another call or a detach may come between, Agents/TestServer has the goroutines of the
-- server for a test and the channel of their errors, and Agents/System runs the router, the ends
-- of processes and the timers of restarts one after the other, with Agents/System/Leak on a command
-- that its runner has lost; Agents/Running has the four EnsureRunningState together.
-- Lineproto is lineproto/influx_line_protocol.go: Lineproto/Grammar is the grammar of its structs
-- on tokens, of which Written gives lines as they are written.
-- Ambassador/* models the package ambassador: Ambassador/Session is one attachment of connection.go
-- as the interleaved steps of its goroutines, Ambassador/Instructions the dispatch of instructions
-- there and in detached_runner.go, Ambassador/Egress the dialling and the posts of connection.go,
-- and Ambassador/Connecting the loop of Start there; Ambassador/Stdout is stdout_egress.go.
-- Ingest/* models the package ingest: Ingest/Pipe is the channel between the connections of an
-- ingestor and its loop, for Ingest/LineProtocol and Ingest/TelegrafJson; Ingest/Bind,
-- Ingest/Lumberjack and Ingest/PerfTest are the rest. Scanner has the lines of bufio.Scanner, up to
-- its buffer of 64 KiB. Auth is the package auth.
-- Commands/* models the package cmd: Commands/Startup is run.go and detached.go with
-- ingest/ingest.go, Commands/Interrupts is common.go, Commands/Shutdown its last second with the
-- stops of the router, Commands/Stress is stressconnections.go, and Commands/Configuration has
-- root.go, check_tls.go, version.go and main.go.
-- Config/* models the package config: Config/Host (xen.go, bios.go, serial.go), Config/Labels,
-- Config/Listeners, and Config/Keys (config_keys.go with the defaults, the flags of the package cmd
-- and the environment variables). Names follow the source in snake case: ensureCurrentSymlink is
-- ensure_current_symlink.
-- Examples has the theorems at concrete inputs.
--
-- Concurrency is modelled by step relations: Ambassador/Session, Ingest/Pipe, Agents/Output,
-- Agents/TestServer and Commands/Interrupts have the states of the goroutines and bounded channels
-- (10 errors, 1 detach signal, 100 or 10 metrics, 1 report on the output, 2 errors of a test's
-- server, 1 signal of the system), and a theorem for every reachable state covers every
-- interleaving. Functions of lists and of decreasing numbers, such as the three runs of a test
-- command, need no fuel; the repetition over the lines of a grammar has the number of tokens left,
-- and each round takes one. Commands/Shutdown counts milliseconds, in which only waits take time.
--
-- Go's map iteration takes any order: the maps of the model are lists in the order of an iteration,
-- and Agents/Telegraf/Sections compares two orders of telegraf's configurations.
--
-- Os and Os/Write model the calls of Go's os package that the code makes, on a tree of files with
-- symbolic links; a list of faults says which of the next calls fail for reasons of their own, so a
-- theorem for every tree and fault list covers every pattern of failing calls. File modes are not
-- modelled. A call that fails for a reason of its own changes nothing. Stat follows at most 40
-- links, as Linux does. Writes go to paths without links on the way. Paths are rooted and clean
-- (module Paths), so the data directory is taken to be absolute.
--
-- A process runner keeps its contexts in a list, and its pointer is an index. Launch and Stopping
-- say what the operating system does with the next command started or stopped. A start can fail
-- with its command alive: at its deadline, or when one of the two pipes ends first. A goroutine
-- that the runners start is a function of its own (wait_on_agent_command). Go's panics are values
-- of Run. The protocol's messages are plain records (Protocol). Logging is left out.
--
-- A slice has the bytes that follow it up to its capacity as a parameter (Memory), where the code
-- slices beyond its length.
--
-- Parameters, since their code is not in the repository or is a library's: JSON, TOML and case
-- conversion (Codec), downloads, the host's commands, splitting of addresses, the lexer of lines
-- and, where only its result matters, their parser, the runs of test commands (Console), the
-- dialling of the Ambassador and its client, the back-off between attachments (Attempt), the
-- routing of HTTP requests (ServeMux) and telegraf's own requests (Client), the capabilities of
-- files (Capability), and the TLS and HTTP libraries (Platform).
--
-- Not modelled: the configuration library, and hooks for tests.
pub mod Common
pub mod Paths
pub mod Os
pub mod Protocol
pub mod Agents
pub mod Commands
pub mod Config
pub mod Lineproto
pub mod Ambassador
mod Examples
pub mod Scanner
pub mod Ingest
pub mod Auth
