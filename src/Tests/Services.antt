-- ===== src/Tests/Services.antt =====
-- Runs of the server, the daemons and the command line.
use tmux_pane_control.Prelude.{
  ℕ, suc, ◌+◌, ◌≤◌, ◌≡◌, ◌↔◌, ◌⊎◌, refl, true, false, [], ◌∷◌, none, some, Bytes, codes, arith, ok,
}
use tmux_pane_control.Ipc.Dispatch.{Response, plain_ok}
use tmux_pane_control.Tmuxctl.Lifetime
use tmux_pane_control.Tmuxctl.Lifetime.Released.{Every, Released, released}
use tmux_pane_control.Ipc.Server
use tmux_pane_control.Ipc.Server.Life.{served-done}
use tmux_pane_control.Ipc.Autospawn
use tmux_pane_control.Ipc.Autospawn.Once.{spawned-once}
use tmux_pane_control.Cli.Daemon.{Stopping, run_daemon_stop}
use tmux_pane_control.Cli.Daemon.Shutdown
use tmux_pane_control.Cli.Daemon.Shutdown.Bounded.{stay, more, shutdown_bounded}
use tmux_pane_control.Cli.Daemon.Stopped.{some_ping_fails, ProcessGone, run_daemon_stop-zero}

-- A connection is accepted, `Close` is called, the connection ends, and `Serve` returns.
abbrev served : Server.Server
served = record Server.listened {
  closed = true;
  listening = false;
  socket_file = false;
  serving = Server.returned_nil;
  closing = Server.unlistened;
}

served-Reach : Server.Reach served
unfolding Server.accept_failed Server.close_flag
served-Reach =
    Server.later
      (Server.later
        (Server.later
          (Server.later
            (Server.later
              (Server.later (Server.later Server.start (Server.accept refl refl)) Server.close)
              (Server.unlink_socket refl))
            (Server.close_listener refl))
          (Server.connection_done (omega arith)))
        (Server.accept_error refl))
      (Server.drained refl refl)

served-done_example :
    (served.serving ≡ Server.returned_nil → (served.closed ≡ true) × (served.accept_wait ≡ 0))
    × (served.socket_file ≡ false → (Server.accept_failed served).serving ≡ Server.draining)
    × (served.listening ≡ false → served.socket_file ≡ false)
served-done_example = served-done served-Reach

abbrev found_none : Autospawn.World
found_none = Autospawn.go Autospawn.initially 0 Autospawn.fails

abbrev lock_opened : Autospawn.World
lock_opened = Autospawn.go found_none 0 Autospawn.succeeds

abbrev lock_held : Autospawn.World
lock_held = Autospawn.go lock_opened 0 Autospawn.succeeds

abbrev still_none : Autospawn.World
still_none = Autospawn.go lock_held 0 Autospawn.fails

abbrev binary_found : Autospawn.World
binary_found = Autospawn.go still_none 0 Autospawn.succeeds

-- The first call has started a daemon.
abbrev one_daemon : Autospawn.World
one_daemon = record (Autospawn.go binary_found 0 Autospawn.succeeds) { starting = 1; spawned = 1 }

one_daemon-Reach : Autospawn.Reach one_daemon
unfolding Autospawn.go Autospawn.advance Autospawn.lock_after Autospawn.holds_lock
one_daemon-Reach =
    Autospawn.later
      (Autospawn.later
        (Autospawn.later
          (Autospawn.later
            (Autospawn.later
              (Autospawn.later Autospawn.start (Autospawn.unanswered 0 Autospawn.first refl))
              (Autospawn.opened 0 Autospawn.succeeds refl))
            (Autospawn.locked 0 refl refl))
          (Autospawn.unanswered 0 Autospawn.recheck refl))
        (Autospawn.located 0 Autospawn.succeeds refl))
      (Autospawn.launched 0 refl)

spawned-once_example :
    ((c d : ℕ)
      → Autospawn.holds_lock (one_daemon.calls c) ≡ true
      → Autospawn.holds_lock (one_daemon.calls d) ≡ true
      → c ≡ d)
    × (one_daemon.spawned ≤ suc one_daemon.mishaps)
    × ((c : ℕ) → one_daemon.calls c ≡ Autospawn.launching → one_daemon.spawned ≤ one_daemon.mishaps)
spawned-once_example = spawned-once one_daemon-Reach

abbrev stopping : Stopping
stopping = record {
  first_ping = none;
  shutdown_call = ok (record plain_ok { pid = 41 });
  rounds =
      record { ping_ok = false; kill_ok = true } ∷ record { ping_ok = true; kill_ok = false } ∷ [];
}

run_daemon_stop-zero_example :
    ((run_daemon_stop stopping).exit_code ≡ 0)
    ↔ ((e : Bytes) × (stopping.first_ping ≡ some e))
      ⊎ ((resp : Response) × (stopping.first_ping ≡ none)
          × (stopping.shutdown_call ≡ ok resp)
          × (some_ping_fails stopping.rounds ≡ true)
          × ProcessGone resp stopping.rounds)
run_daemon_stop-zero_example = run_daemon_stop-zero stopping

abbrev all_calls : Lifetime.StartCalls
all_calls = record { mkdir_temp = true; mkfifo = true; open_file = true; pipe_pane = true }

abbrev no_pipe : Lifetime.StartCalls
no_pipe = record all_calls { pipe_pane = false }

-- One tracker starts and another does not; the context ends, and then the goroutine.
abbrev over : Lifetime.Life
over = record {
  trackers = Lifetime.nothing_held (codes "%2") ∷ Lifetime.nothing_held (codes "%1") ∷ [];
  wait_group = 0;
  running = Lifetime.returned;
}

over-Reach : Lifetime.Reach over
unfolding Lifetime.start_pane_tracker Lifetime.teardown
over-Reach =
    Lifetime.later
      (Lifetime.later
        (Lifetime.later
          (Lifetime.later
            (Lifetime.later Lifetime.subscribe (Lifetime.start_one all_calls (codes "%1") refl))
            (Lifetime.start_one no_pipe (codes "%2") refl))
          (Lifetime.cancelled refl))
        (Lifetime.end_one _ (Lifetime.there (Lifetime.here (Lifetime.ends refl)))))
      (Lifetime.waited refl refl)

released_example : Every Released over.trackers
released_example = released over-Reach refl

-- A request, a millisecond, and a signal.
abbrev requested : Shutdown.Process
requested = record Shutdown.launched { now = 1; watching = false; armed_at = some 0 }

shutdown_bounded_example :
    (Unit {0} → requested.now ≤ 0 + Shutdown.hard_exit_deadline)
    × (⊥ → requested.now ≤ 0 + Shutdown.shutdown_deadline)
unfolding Shutdown.request_shutdown
shutdown_bounded_example =
    shutdown_bounded Shutdown.start (Shutdown.op_shutdown tt)
      (more (more stay (Shutdown.tick (omega arith) tt)) (Shutdown.signal tt refl)) tt
