-- ===== src/Cli/Daemon.antt =====
-- internal/cli/daemon.go: the `daemon` command, its exit codes and messages. What the operating system, the
-- clock, the controller and `Serve` answer is given as data; the order of events at the end is that of
-- Shutdown.
pub mod Stopped
pub mod Shutdown
use tmux_pane_control.Prelude.{
  ℕ, ◌<◌, Bool, true, false, not, ◌&&◌, ◌||◌, List, [], ◌∷◌, ◌++◌, Option, none, some, Bytes, codes,
  is_empty, if◌then◌else◌, Result, ok, err,
}
use tmux_pane_control.Prelude.Int64.{ltb64}
use tmux_pane_control.Prelude.Decimal.{itoa}
use tmux_pane_control.Ipc.Dispatch.{Response}
use tmux_pane_control.Ipc.Socket.{
  Environment, resolve_tmux_socket, daemon_socket_path, Binding, Bound, listen,
}
use tmux_pane_control.Cli.{Emitted}
use tmux_pane_control.Cli.Flags.{Value}
use tmux_pane_control.Cli.Subcommands.{text_flag, switch_flag}

abbrev pub quiet_exit : ℕ → Emitted
quiet_exit n = record { exit_code = n; stdout = []; stderr = [] }

abbrev pub daemon_failure : ℕ → Bytes → Emitted
daemon_failure n message = record {
  exit_code = n;
  stdout = [];
  stderr = codes "tpctl daemon" ++ (message ++ codes "\n");
}

-- A round of the loop of `runDaemonStop`, that begins before the deadline: whether a ping and `kill(pid,
-- 0)` succeed in it.
pub record StopRound : Type 0 where
  pub ping_ok : Bool
  pub kill_ok : Bool

pub record StopState : Type 0 where
  pub sock_gone : Bool
  pub process_gone : Bool

-- `pid > 0`
abbrev pub has_pid : ℕ → Bool
has_pid pid = ltb64 0 pid

unfoldable pub stop_round : ℕ → StopState → StopRound → StopState
stop_round pid g r = record {
  sock_gone = if not g.sock_gone then not r.ping_ok else g.sock_gone;
  process_gone = if not g.process_gone && has_pid pid then not r.kill_ok else g.process_gone;
}

-- The loop, to where it returns 0 or the deadline has passed.
unfoldable pub stop_loop : ℕ → StopState → List StopRound → StopState
unfolding stop_round
stop_loop pid g [] = g
stop_loop pid g (r ∷ rs) =
    let next = stop_round pid g r in
    let rest = stop_loop pid next rs in if next.sock_gone && next.process_gone then next else rest

-- What `runDaemonStop` makes of the end of the loop.
unfoldable pub stop_result : ℕ → StopState → Emitted
stop_result pid g =
    if g.sock_gone && g.process_gone
    then quiet_exit 0
    else if not g.sock_gone
    then daemon_failure 1
        (codes " --stop: daemon still reachable on socket after 5s; send SIGKILL if it is stuck")
    else daemon_failure 1 (
        codes " --stop: socket released but daemon PID "
        ++ (itoa pid
            ++ (codes " still alive after 5s; send SIGKILL (`kill -9 "
                ++ (itoa pid ++ codes "`)"))))

-- What `runDaemonStop` meets: the error of the first ping, the answer to the shutdown request, and the
-- rounds until the deadline.
pub record Stopping : Type 0 where
  pub first_ping : Option Bytes
  pub shutdown_call : Result Bytes Response
  pub rounds : List StopRound

abbrev pub stop_begin : ℕ → StopState
stop_begin pid = record { sock_gone = false; process_gone = not (has_pid pid) }

unfoldable pub after_shutdown : Result Bytes Response → List StopRound → Emitted
unfolding stop_result stop_loop
after_shutdown (err e) rounds = daemon_failure 1 (codes " --stop: shutdown request failed: " ++ e)
after_shutdown (ok resp) rounds =
    stop_result resp.pid (stop_loop resp.pid (stop_begin resp.pid) rounds)

-- `runDaemonStop`
unfoldable pub run_daemon_stop : Stopping → Emitted
unfolding after_shutdown
run_daemon_stop x = elim x.first_ping [
  | some e ↦ daemon_failure 0 (codes " --stop: no daemon running")
  | none ↦ after_shutdown x.shutdown_call x.rounds
]

-- What `runDaemon` meets: `Listen`, the error of the controller's start, the error of `Serve`, whether
-- the tmux server was lost, and whether the controller stops within two seconds.
pub record Serving : Type 0 where
  pub binding : Binding
  pub start_error : Option Bytes
  pub serve_error : Option Bytes
  pub server_lost : Bool
  pub stops_in_time : Bool

-- `stopWithDeadline`, with the exit code and the message of what ends behind it.
unfoldable pub stop_with_deadline : Bool → Bytes → ℕ → Emitted
stop_with_deadline in_time messages n =
    if in_time then record { exit_code = n; stdout = []; stderr = messages } else record {
      exit_code = 1;
      stdout = [];
      stderr = messages ++ codes "tpctl daemon: controller stop exceeded 2s; exiting\n";
    }

-- `runDaemon` from its `Serve` on.
unfoldable pub serve_daemon : Serving → Emitted
unfolding stop_with_deadline
serve_daemon x =
    let lost : Bytes =
      if x.server_lost then codes "tpctl daemon: tmux server connection lost; exiting\n" else [] in
    elim x.serve_error [
      | some e ↦
          stop_with_deadline x.stops_in_time
            (lost ++ (codes "tpctl daemon: serve: " ++ (e ++ codes "\n"))) 1
      | none ↦ stop_with_deadline x.stops_in_time lost (if x.server_lost then 1 else 0)
    ]

-- `runDaemon` from the start of its controller on.
unfoldable pub start_daemon : Serving → Emitted
unfolding serve_daemon
start_daemon x = elim x.start_error [
  | some e ↦ daemon_failure 1 (codes ": controller start: " ++ e)
  | none ↦ serve_daemon x
]

-- `runDaemon` behind `Listen`.
unfoldable pub listened_daemon : Serving → Bound → Emitted
unfolding start_daemon
listened_daemon x b = elim b.error [
  | some e ↦ daemon_failure 1 (codes ": " ++ e)
  | none ↦ start_daemon x
]

-- The daemon's socket: `--daemon-socket`, or the one derived from the tmux server's.
unfoldable pub socket_path : Environment → List (Bytes × Value) → Bytes → Result Bytes Bytes
socket_path env settings tmux_socket =
    if is_empty (text_flag (codes "daemon-socket") settings)
    then daemon_socket_path env tmux_socket
    else ok (text_flag (codes "daemon-socket") settings)

-- `runDaemon` behind `Parse`; the positionals are ignored.
unfoldable pub daemon_next :
    Environment
    → (Bytes → Stopping)
    → (Bytes → Serving)
    → List (Bytes × Value)
    → List Bytes
    → Emitted
unfolding run_daemon_stop listened_daemon socket_path
daemon_next env stopping serving settings args =
    elim (resolve_tmux_socket env (text_flag (codes "tmux-socket") settings)
      (text_flag (codes "tmux-socket-name") settings)) [
        | err e ↦ daemon_failure 2 (codes ": " ++ e)
        | ok tmux_socket ↦ elim (socket_path env settings tmux_socket) [
          | err e ↦ daemon_failure 1 (codes ": " ++ e)
          | ok path ↦
              if switch_flag (codes "stop") settings
              then run_daemon_stop (stopping path)
              else listened_daemon (serving path) (listen path (serving path).binding)
        ]
      ]
