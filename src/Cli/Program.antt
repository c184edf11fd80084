-- ===== src/Cli/Program.antt =====
-- internal/cli/app.go, `Run`, and cmd/tpctl/main.go: the whole program, from the arguments to what it writes and its exit code.
pub mod Text
pub mod Exit
pub mod Wait
pub mod Reported
use tmux_pane_control.Prelude.{ℕ, List, [], ◌∷◌, ◌++◌, Bytes, codes, drop}
use tmux_pane_control.Cli.{Emitted}
use tmux_pane_control.Cli.Commands.{
  Action, show_version, show_usage, no_command, unknown_command, run_subcommand, run,
}
use tmux_pane_control.Cli.Subcommands.{Machine}
use tmux_pane_control.Cli.Subcommands.Runs
use tmux_pane_control.Cli.Daemon.{Stopping, Serving, daemon_next}

-- `Usage`, `versionString()`, and what `daemon` meets at a socket path.
pub record Installation : Type 0 where
  pub machine : Machine
  pub usage : Bytes
  pub version : Bytes
  pub stopping : Bytes → Stopping
  pub serving : Bytes → Serving

module _ (i : Installation) where
  unfoldable pub perform : Action → Emitted
  perform show_version = record { exit_code = 0; stdout = i.version ++ codes "\n"; stderr = [] }
  perform show_usage = record { exit_code = 0; stdout = i.usage; stderr = [] }
  perform no_command = record { exit_code = 2; stdout = []; stderr = i.usage }
  perform (unknown_command name) = record {
    exit_code = 2;
    stdout = [];
    stderr =
        codes "tpctl: unknown command "
        ++ (i.machine.strconv.quote name ++ (codes "\n\n" ++ i.usage));
  }
  perform (run_subcommand sub args) =
      Runs.run_subcommand i.machine (daemon_next i.machine.env i.stopping i.serving) sub args

  -- `App.Run`
  unfoldable pub app_run : List Bytes → Emitted
  unfolding perform
  app_run args = perform (run args)

  -- `main` of cmd/tpctl: `os.Args` begins with the program's own name.
  unfoldable pub main : List Bytes → Emitted
  unfolding app_run
  main argv = app_run (drop 1 argv)
