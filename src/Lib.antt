-- ===== src/Lib.antt =====
-- The verification library of hadron-desktop: the updater below update/ and parts of the agent below
-- agent/.
--
-- The updater reads which image the system runs (Update.Release, with the versions in Update.Semver,
-- for update/release.go), parses image references (Update.Ref, update/ref.go), decides how far an
-- image is trusted (Update.Policy, update/policy.go) and keeps a pin and a switch (Update.Pin,
-- update/pin.go). The daemon (Update.Daemon, update/daemon.go) calls all of them: `Check`, `Inspect`,
-- `Apply` and the job that it starts, `Cancel`, `Reboot` and `RebootPrevious`. A method is modelled as
-- the sections that it runs under the mutex, each a function from the daemon and the disk to the new
-- ones; what it learns between two sections (from the registry, GitHub, a write, kairos-agent) is an
-- argument of the next. Update.Daemon.Marker has the reboot marker and `NewDaemon`,
-- Update.Daemon.Check the checks and the release cache, Update.Daemon.Install `evaluate`, `Inspect`,
-- `Apply` and `run`, Update.Daemon.Power the cancel and the reboots. Update.Daemon.System interleaves
-- the sections with everything that runs beside them, as a step relation: goroutines in flight,
-- failing writes, edits by hand, restarts of the daemon and boots. Update.Daemon.Effects says what
-- each section does in each case, Update.Daemon.Safety has the invariant, Update.Daemon.Laws the
-- promises of single methods.
--
-- The tray's menu (Update.Menu, update/menu.go) is built from the daemon's status and the release list
-- (Update.Github, update/github.go).
--
-- Update.Registry is the look-up of an image (update/registry.go): `ImagePullable` and `Resolve` with
-- the token handshake. The network is a function from the requests so far and the next one to its
-- answer; it, URL parsing, JSON and SHA-256 are the record `Web`. A request is one call of the HTTP
-- client; the redirects that it follows belong to its answer. Registry/Fetch and Registry/Content say
-- what a fetch and a look-up return, Registry/Handshake which requests they send.
--
-- In the agent, Agent.Ring, Agent.Capture and Agent.Config model the buffers, limits and defaults of
-- agent/internal/process/manager.go, Agent.Control the emergency stop of
-- agent/internal/control/controller.go.
--
-- A call of a remote client passes the gateway (Agent.Gateway, agent/internal/gateway/server.go and
-- status.go), which verifies its bearer (Agent.Auth, agent/internal/auth/token.go), asks the emergency
-- controller and routes it to one of two brokers: the session broker (Agent.Session,
-- agent/internal/session/service.go) or, for an administrator, the root helper (Agent.Helper,
-- agent/internal/roothelper/service.go), which verifies the bearer again. Agent.Wire has the tools,
-- the error codes and the result envelope of agent/internal/api/schema.go. Session.System interleaves
-- the calls of the broker with pauses, resumes and closes, call by call and wait by wait;
-- Gateway.Flights does so for the calls of the gateway. A generation of calls is a number, and its
-- context is done when the number is in a list. A method of the root helper that waits for ever is
-- `none`.
--
-- Wire/Computer and Wire/Browse validate the inputs of computer_use and browser (schema.go, enums.go
-- and browser.go of agent/internal/api) with the field sets of Wire/Fields, a set being the numbers of
-- its fields; Wire/Files validates the inputs of the other tools. Agent.Provision is
-- agent/internal/provision/config.go: the hadron_agent sections of the files under /oem, merged,
-- defaulted and validated. Provision/Secrets is about the digests across the files,
-- Provision/Rotations about a configuration and the verifier that is built from it. Provision/Stored
-- has the rotations on disk, which Materialize and Rotate (state.go) write and `AuthRotation`
-- (serviceconfig.go) reads, with `resolveRotation` of agent/cmd/hadron-agent/main.go; the files
-- themselves and their rollback are not modelled.
--
-- Agent.Watchdog is the recovery of the graphical session (agent/internal/watchdog/watchdog.go), with
-- Watchdog/Window for its rate limit and Watchdog/Grace for its timer.
--
-- Base holds the shared notation, the integers and lists over the native numbers, texts as lists of
-- code points, the cuts at a character, the picks of a list's entries and regular expressions by
-- derivatives; Base.Tests has the Boolean tests.
--
-- Update.Tests and Agent.Tests run the definitions and apply the theorems on concrete inputs.
--
-- Bounds and fuel: the loop of the ring's write runs on the length of its input as fuel, and a round
-- takes at least one byte, which its theorem covers. `strconv.Atoi` keeps its 64-bit range, the
-- resolution of a timeout its wrap at 64 bits; the ring's total is an unbounded number. The scanner of
-- the release file keeps its limit of 64 KiB a line. The scan of a registry's challenge runs on its
-- length as fuel, and a round drops at least one character. Instants and durations are unbounded
-- numbers of nanoseconds, and the numbers of a process or gateway configuration are natural ones with
-- 0 for unset; an instant before the zero time has no value.
--
-- Not modelled: HTTP, D-Bus, MCP, the terminal and tray front ends, kairos-agent, systemd and file
-- system calls (arguments of the definitions that depend on them), the wording of messages and logs,
-- the generation of bearers from random bytes, the agent's other services, and the installer.

pub mod Agent
pub mod Base
pub mod Update
