-- ===== src/Tests/Programs.antt =====
-- Runs of the command line, down to the port.
use tmux_pane_control.Prelude.{
  ◌≡◌, ◌↔◌, refl, true, List, [], ◌∷◌, ◌++◌, none, some, Bytes, bytes_eq, codes, has_prefix, arith,
  ok, err,
}
use tmux_pane_control.Textnorm.{has_byte}
use tmux_pane_control.Domain.{invalid_args}
use tmux_pane_control.Ipc.Dispatch.{
  Request, Response, prepare_wait, wait_response, Payloads, Meets, refuse, dispatch,
}
use tmux_pane_control.Tmuxctl.Port.{Port}
use tmux_pane_control.Ipc.Wire.{list_request, call}
use tmux_pane_control.Ipc.Wire.Call.{serving, call-dispatch}
use tmux_pane_control.Ipc.Socket.{resolve_tmux_socket}
use tmux_pane_control.Cli.{validate_pane_id, reorder_args, relay}
use tmux_pane_control.Cli.Commands.{run_list}
use tmux_pane_control.Cli.Flags.{
  text_kind, int_kind, text_value, int_value, parsed, parse, shape, set_value, last_set,
}
use tmux_pane_control.Cli.Flags.Pieces.{
  Piece, switch, valued, assigned, positional, arguments_of, settings_of, positionals_of, AllFit,
}
use tmux_pane_control.Cli.Flags.Reordered.{parse-reorder_args}
use tmux_pane_control.Cli.Subcommands.Sets.{text_flags, wait_flags, text_bools, common_bools}
use tmux_pane_control.Cli.Subcommands.{Client, Machine}
use tmux_pane_control.Cli.Subcommands.Runs.{run_subcommand, parsed_args}
use tmux_pane_control.Cli.Subcommands.Exits.{Exits, run_subcommand-Exits}
use tmux_pane_control.Cli.Daemon.{quiet_exit}
use tmux_pane_control.Cli.Program.{Installation, app_run}
use tmux_pane_control.Tmuxctl.Adapter.{Opts, Tmux}
use tmux_pane_control.Tmuxctl.Adapter.Implements.{adapter_port}
use tmux_pane_control.Cli.Program.Exit.{TextDone, send_text-exit_code}
use tmux_pane_control.Cli.Program.Text.{text_answer, app_run-send_text}
use tmux_pane_control.Cli.Program.Wait.{Answers, for_sentinel, app_run-wait}
use tmux_pane_control.Controller.{pane_not_found_response}
use tmux_pane_control.Controller.Wait.{
  failed, wait, validate, validate_mode, validate_sentinel_token, deferred, loop, round,
  read_failed,
}
use tmux_pane_control.Prelude.Int64.{leb64, ltb64}
use tmux_pane_control.Prelude.Dict.{lookup}
use tmux_pane_control.Store
use tmux_pane_control.Store.Refine.{apply_all}
use tmux_pane_control.Tests.Waits.{quiet_round}
use tmux_pane_control.Tests.Codec.{wire_codec}
use tmux_pane_control.Tests.Tools.{plain_strconv, plain_environment, no_stop, no_serving}
use tmux_pane_control.Tests.Sample.{codec}
use tmux_pane_control.Tests.Stores.{empty, screen}

abbrev pub pieces : List Piece
pieces =
    switch (codes "enter")
    ∷ positional (codes "ls")
    ∷ assigned (codes "pane") (codes "%1") (text_value (codes "%1"))
    ∷ []

pub pieces_fit : AllFit plain_strconv text_flags text_bools pieces
unfolding text_flags text_bools has_byte set_value shape bytes_eq
pieces_fit =
    (((omega arith, refl), refl, refl), (refl, ((text_kind, (omega arith, refl), refl, refl), tt)))

parse-reorder_args_example :
    parse plain_strconv text_flags
      (reorder_args text_bools (arguments_of pieces ++ (codes "--" ∷ codes "-x" ∷ [])))
    ≡ parsed (settings_of pieces) (codes "ls" ∷ codes "-x" ∷ [])
unfolding text_flags text_bools has_byte set_value shape bytes_eq positionals_of
parse-reorder_args_example =
    parse-reorder_args plain_strconv text_flags text_bools pieces (some (codes "-x" ∷ []))
      pieces_fit

unreachable : Machine
unreachable = record {
  strconv = plain_strconv;
  env = plain_environment;
  ensure_daemon = λ socket. err (codes "no daemon");
  error_json = λ e. e.message;
  defaults = λ name. name;
}

run_subcommand-Exits_example :
    Exits unreachable
      (parsed_args unreachable run_list [])
      (run_subcommand unreachable (λ settings args. quiet_exit 0) run_list [])
run_subcommand-Exits_example =
    run_subcommand-Exits unreachable (λ settings args. quiet_exit 0) run_list [] (λ same. cc same)

abbrev key_request : Request
key_request = record list_request { op = codes "key"; pane = codes "%1" }

abbrev refusal : Response
refusal = refuse key_request invalid_args (codes "key requires at least one token")

abbrev pub payloads : Payloads
payloads = record {
  list_json = λ r. [];
  snapshot_json = λ r. [];
  read_json = λ r. [];
  wait_json = λ r. [];
  quote = λ t. t;
}

abbrev pub accepting : Port
accepting = record screen { send_text = λ id text enter. ok tt }

abbrev pub meets : Meets
meets = record {
  port = accepting;
  port' = screen;
  later = empty;
  now = 5;
  schedule = [];
  ctx_error = [];
}

call-dispatch_example :
    call wire_codec
      (ok (serving wire_codec codec payloads (λ p. err []) 7 true empty meets (codes "EOF") []))
      key_request
    ≡ ok refusal
unfolding wire_codec dispatch bytes_eq
call-dispatch_example =
    call-dispatch wire_codec codec payloads (λ p. err []) 7 true empty meets key_request refusal
      (codes "EOF") []
      (record {
        op_plain = ground arith;
        pane_plain = ground arith;
        after_plain = tt;
        text_plain = tt;
        keys_plain = tt;
        mode_plain = tt;
        token_plain = tt;
        pattern_plain = tt;
        history_int = omega arith;
        quiet_int = omega arith;
        timeout_int = omega arith;
      })
      (record {
        body_json = tt;
        error_plain = (ground arith, ground arith);
        runtime_plain = tt;
        pid_int = omega arith;
      })
      refl refl

abbrev pub eof : Bytes
eof = codes "EOF"

abbrev daemon_of : Client
daemon_of req limit =
    call wire_codec (ok (serving wire_codec codec payloads (λ p. err []) 7 true empty meets eof []))
      req

abbrev pub installation : Installation
installation = record {
  machine = record {
    strconv = plain_strconv;
    env = plain_environment;
    ensure_daemon = λ socket. ok daemon_of;
    error_json = λ e. e.message;
    defaults = λ name. name;
  };
  usage = codes "usage";
  version = codes "v1";
  stopping = λ path. no_stop;
  serving = λ path. no_serving;
}

app_run-send_text_example :
    app_run installation (codes "text" ∷ (arguments_of pieces ++ []))
    ≡ text_answer installation.machine.error_json
        (codes "%1")
        (accepting.send_text (codes "%1") (codes "ls") true)
unfolding wire_codec positionals_of settings_of last_set validate_pane_id bytes_eq has_prefix
    resolve_tmux_socket text_flags text_bools has_byte set_value shape
app_run-send_text_example =
    app_run-send_text installation wire_codec codec payloads (λ p. err []) 7 true empty meets eof
      pieces none (codes "ls") (codes "/tmp/tmux-1/default") pieces_fit refl refl refl refl
      (ground arith) (ground arith) tt tt

-- A tmux that sends the payload and does not find the pane for the Enter.
abbrev works : Tmux
works args = record { stdout = []; stderr = []; failure = none }

abbrev no_pane : Tmux
no_pane args = record {
  stdout = [];
  stderr = codes "can't find pane: %1";
  failure = some (codes "exit status 1");
}

abbrev no_options : Opts
no_options = record { socket_path = []; socket_name = [] }

abbrev send_request : Request
send_request = record list_request {
  op = codes "text";
  pane = codes "%1";
  text = codes "ls";
  enter = true;
}

send_text-exit_code_example :
    ((relay
        (λ e. e.message)
        (dispatch codec payloads
          (λ p. err [])
          send_request
          empty
          (record meets { port = adapter_port no_options works no_pane })).1).exit_code
      ≡ 0)
    ↔ TextDone no_options works no_pane (codes "%1") (codes "ls") true
send_text-exit_code_example =
    send_text-exit_code (λ e. e.message) no_options works no_pane codec payloads (λ p. err [])
      send_request empty (record meets { port = adapter_port no_options works no_pane }) refl refl

abbrev wait_pieces : List Piece
wait_pieces =
    valued (codes "timeout-ms") (codes "!") (int_value 1)
    ∷ valued (codes "pane") (codes "%1") (text_value (codes "%1"))
    ∷ valued (codes "after") (codes "x") (text_value (codes "x"))
    ∷ assigned (codes "token") (codes "t") (text_value (codes "t"))
    ∷ valued (codes "for") (codes "sentinel") (text_value (codes "sentinel"))
    ∷ []

abbrev payloads_written : Payloads
payloads_written = record payloads { wait_json = λ r. codes "{}" }

abbrev meets_round : Meets
meets_round = record meets { schedule = quiet_round [] ∷ [] }

abbrev waiting : Installation
waiting = record installation {
  machine = record installation.machine {
    ensure_daemon = λ socket. ok (λ req limit.
        call wire_codec
          (ok (
            serving wire_codec codec payloads_written (λ p. err []) 7 true empty meets_round eof
              []))
          req);
  };
}

app_run-wait_example :
    Answers payloads_written waiting.machine.error_json []
      (failed (pane_not_found_response (codes "%1")))
      (app_run waiting (codes "wait" ∷ (arguments_of wait_pieces ++ [])))
unfolding wire_codec positionals_of settings_of last_set validate_pane_id bytes_eq has_prefix
    resolve_tmux_socket wait_flags common_bools has_byte set_value prepare_wait leb64 ltb64
    wait_response wait validate validate_mode validate_sentinel_token deferred loop round Store.read
    lookup apply_all Store.new read_failed
app_run-wait_example =
    app_run-wait waiting wire_codec codec payloads_written (λ p. err []) 7 true empty meets_round
      eof wait_pieces none (codes "/tmp/tmux-1/default") _
      (
        (int_kind, (omega arith, refl), refl, λ same. cc same, refl, refl),
        (
          (text_kind, (omega arith, refl), refl, λ same. cc same, refl, refl),
          (
            (text_kind, (omega arith, refl), refl, λ same. cc same, refl, refl),
            (
              (text_kind, (omega arith, refl), refl, refl),
              ((text_kind, (omega arith, refl), refl, λ same. cc same, refl, refl), tt),
            ),
          ),
        ),
      )
      refl refl refl refl
      (ground arith, ground arith, ground arith, ground arith, tt, omega arith, omega arith)
      (λ w. refl) tt (for_sentinel refl refl) (ground arith, ground arith) refl
