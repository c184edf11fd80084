-- ===== src/Cli/Subcommands.antt =====
-- internal/cli/app.go, what the run functions of the subcommands share: checks, the daemon, one call, and
-- what its response becomes. The daemon's connection and the JSON of an error are parameters.
pub mod Sets
pub mod Runs
pub mod Exits
pub mod Requests
use tmux_pane_control.Prelude.{
  ℕ, ◌+◌, ◌*◌, ◌%◌, ◌<◌, Bool, true, false, not, ◌||◌, List, [], ◌∷◌, ◌++◌, Option, none, some,
  Bytes, bytes_eq, codes, is_empty, has_prefix, length, ◌==◌, if◌then◌else◌, Result, ok, err,
}
use tmux_pane_control.Prelude.Int64.{two64, add64, leb64}
use tmux_pane_control.Prelude.Decimal.{itoa}
use tmux_pane_control.Domain.{ErrorResponse, invalid_args}
use tmux_pane_control.Ipc.Dispatch.{Request, Response}
use tmux_pane_control.Ipc.Socket.{Environment, resolve_tmux_socket}
use tmux_pane_control.Cli.{reorder_args, validate_pane_id, Emitted, emit_cmd_error, relay}
use tmux_pane_control.Cli.Flags.{
  Kind, text_kind, int_kind, bool_kind, Value, Strconv, FlagSet, Parse, parsed, refused, help_asked,
  parse, last_set, or_text, or_int, or_switch,
}

-- A client's `Call`: a request and the limit in nanoseconds, an int64 bit pattern.
abbrev pub Client : Type 0
Client = Request → ℕ → Result Bytes Response

-- What the commands use: `EnsureDaemon` is modelled on its own, `defaults` is what
-- `PrintDefaults` writes for a command.
pub record Machine : Type 0 where
  pub strconv : Strconv
  pub env : Environment
  pub ensure_daemon : Bytes → Result Bytes Client
  pub error_json : ErrorResponse → Bytes
  pub defaults : Bytes → Bytes

abbrev pub text_flag : Bytes → List (Bytes × Value) → Bytes
text_flag name settings = or_text (last_set name settings)

abbrev pub int_flag : ℕ → Bytes → List (Bytes × Value) → ℕ
int_flag default name settings = or_int default (last_set name settings)

abbrev pub switch_flag : Bytes → List (Bytes × Value) → Bool
switch_flag name settings = or_switch (last_set name settings)

abbrev pub request_of : Bytes → List (Bytes × Value) → Request
request_of op settings = record {
  op = op;
  pane = text_flag (codes "pane") settings;
  after = [];
  history_lines = 0;
  has_history = false;
  text = [];
  enter = false;
  keys = [];
  mode = [];
  sentinel_token = [];
  pattern = [];
  quiet_ms = 0;
  timeout_ms = 0;
}

abbrev pub seconds : ℕ → ℕ
seconds n = n * 1000000000

-- What `dial` returns.
pub data Dialled : Type 0 where
  connected : Client → Dialled
  bad_socket : ErrorResponse → Dialled
  no_daemon : Bytes → Dialled

abbrev pub arguments_error : Bytes → ErrorResponse
arguments_error m = record { pane_id = []; code = invalid_args; message = m }

module _ (m : Machine) where
  unfoldable pub dial : List (Bytes × Value) → Dialled
  dial settings =
      elim (resolve_tmux_socket m.env (text_flag (codes "tmux-socket") settings)
        (text_flag (codes "tmux-socket-name") settings)) [
          | err e ↦ bad_socket (arguments_error e)
          | ok tmux_socket ↦ elim (m.ensure_daemon tmux_socket) [
            | ok client ↦ connected client
            | err e ↦ no_daemon e
          ]
        ]

  abbrev pub refuse_args : Bytes → Emitted
  refuse_args message = emit_cmd_error m.error_json (arguments_error message)

  abbrev pub runtime_failure : Bytes → Bytes → Emitted
  runtime_failure name e = record {
    exit_code = 1;
    stdout = [];
    stderr = codes "tpctl " ++ (name ++ (codes ": " ++ (e ++ codes "\n")));
  }

  abbrev pub relay_result : Bytes → Result Bytes Response → Emitted
  relay_result name (err e) = runtime_failure name e
  relay_result name (ok resp) = relay m.error_json (some resp)

  -- The end of each run function: `dial`, `Call` and `relay`.
  unfoldable pub ask : Bytes → List (Bytes × Value) → Request → ℕ → Emitted
  unfolding dial
  ask name settings req limit = elim (dial settings) [
    | bad_socket e ↦ emit_cmd_error m.error_json e
    | no_daemon e ↦ runtime_failure name e
    | connected client ↦ relay_result name (client req limit)
  ]

  -- The check of the pane between the command's own checks and `dial`.
  unfoldable pub ask_pane : Bytes → List (Bytes × Value) → Request → ℕ → Emitted
  unfolding ask
  ask_pane name settings req limit = elim (validate_pane_id (text_flag (codes "pane") settings)) [
    | some e ↦ emit_cmd_error m.error_json e
    | none ↦ ask name settings req limit
  ]

  -- What `Parse` leaves each command with: the usage goes to the standard output, and behind an error too.
  abbrev pub with_flags : Bytes → (List (Bytes × Value) → List Bytes → Emitted) → Parse → Emitted
  with_flags help next (parsed settings args) = next settings args
  with_flags help next (refused e) = record {
    exit_code = 2;
    stdout = help;
    stderr = e ++ codes "\n";
  }
  with_flags help next help_asked = record { exit_code = 0; stdout = help; stderr = [] }

  -- `formatQuotedList`
  unfoldable pub format_quoted_list : List Bytes → Bytes
  format_quoted_list [] = []
  format_quoted_list (a ∷ []) = m.strconv.quote a
  format_quoted_list (a ∷ b ∷ args) =
      m.strconv.quote a ++ (codes ", " ++ format_quoted_list (b ∷ args))
