-- ===== src/Lib.antt =====
-- tpctl: a program that reads and drives tmux panes for another program. A daemon keeps, for each pane of
-- a tmux server, the last bytes that the pane printed; a client asks it for a snapshot with a checkpoint
-- token, for the output since a token, or to wait until something is printed.
--
-- Parts, and the files that model them (paths of the repository; a definition has the name of the Go
-- function or type it stands for, in this library's spelling):
--   internal/store/buffer.go       Buffer: the byte ring; Buffer/Stream relates it to the stream of all
--                                  appended bytes
--   internal/store/token.go        Token, Token/Base64: checkpoint tokens
--   internal/store/store.go        Store: buffers by pane, tokens, watchers; Store/Spec is the abstract
--                                  store, a stream for each known pane
--   internal/textnorm              Textnorm: escape sequences, carriage returns, blank ends
--   internal/waiter                Waiter: the search for a sentinel or a pattern
--   internal/domain                Domain: error codes and responses
--   internal/controller            Controller: the handlers and the event loop; Controller/Wait: the wait;
--                                  Controller/Lifecycle: its start and stop
--   internal/tmuxctl               Tmuxctl/Port, Tmuxctl/Adapter, Tmuxctl/Subscription; Tmuxctl/Lifetime: what
--                                  the trackers hold, as a step relation; Tmuxctl/Fake: the port of the
--                                  program's tests
--   internal/ipc/protocol.go, dispatch.go
--                                  Ipc/Dispatch: requests, responses and their dispatch
--   internal/ipc/server.go, client.go
--                                  Ipc/Wire: one request and one response on a connection; Ipc/Server: the
--                                  life of a server, as a step relation
--   internal/ipc/socket.go         Ipc/Socket: the sockets' paths, and Listen of server.go
--   internal/ipc/autospawn.go      Ipc/Autospawn: any number of calls of EnsureDaemon at once, with the
--                                  daemons that they start, as a step relation
--   internal/cli/app.go            Cli: global flags, reordered arguments, relayed responses;
--                                  Cli/Commands: the choice of a command, and internal/cli/version.go;
--                                  Cli/Flags: what the program uses of Go's flag package;
--                                  Cli/Subcommands: the run functions; Cli/Program: Run as a whole, and
--                                  cmd/tpctl/main.go
--   internal/cli/daemon.go         Cli/Daemon; Cli/Daemon/Shutdown: its end and the two deadlines, as a step
--                                  relation over a clock
--   conformance/harness/harness.go Harness: the invocations of the binary under test, their history and the
--                                  checks of their results; Harness/Fixture: the helpers that drive tmux;
--                                  Harness/Start, Harness/Teardown, Harness/Diagnostics; Harness/Sentinel:
--                                  the command that prints a sentinel; Harness/Program: the harness
--                                  against the modelled program
-- Prelude has what they share; Tests runs the theorems at concrete inputs.
--
-- How the state corresponds: a Go map keyed by strings is an association list; a mutex-protected method is
-- one function on the state, and a method that locks twice takes the state at each time; a channel of
-- capacity one is a flag; `time.Now` is an argument; int64 values are bit patterns below 2^64 with their
-- signed order and wrap-around (Prelude/Int64). Go strings are lists of bytes. The `select` of the wait's
-- loop takes its choice, and the calls of other goroutines between its steps, from a schedule, so that a
-- statement about all schedules is one about all interleavings.
--
-- Fuel: `strip_from` runs on the length of its text, of which each round takes at least a byte;
-- `match_from` runs on one more than the length of the buffer, in which each round moves on; `digits_of`
-- has the twenty digits of a number below 2^64. No other function needs any.
--
-- Parameters: the JSON codec of tokens (Token.Json, with its documented behaviour as laws), the JSON of
-- responses, the compilation and the search of regular expressions, and tmux itself, which is what each of
-- its commands leaves; the JSON of requests and responses on a connection (Ipc.Wire.WireJson, with laws);
-- strconv, filepath, the digest, and the environment's variables; for the harness, the binary under test, the
-- directory of the sockets, and the shell, with what is documented of it as laws (Harness.Sentinel.Shell).
--
-- What the parts ask of each other: Cli/Program runs Cli/Subcommands, which calls a client of Ipc/Wire; its
-- server hands the request to Ipc/Dispatch, and that to Controller, which works on Store and on the port.
--
-- Not modelled: the operating system's sockets, files and processes but for what a call of them leaves;
-- and the scenarios of the conformance tests, which are tests.
-- White space beyond ASCII in trimmed texts is kept. In Ipc/Autospawn two daemons that start at once
-- do not both find the socket dead and bind it.
pub mod Prelude
pub mod Buffer
pub mod Token
pub mod Store
pub mod Textnorm
pub mod Waiter
pub mod Domain
pub mod Tmuxctl
pub mod Controller
pub mod Harness
pub mod Ipc
pub mod Cli
pub mod Tests
