-- ===== src/Cli/Subcommands/Runs.antt =====
-- internal/cli/app.go: `runList`, `runSnapshot`, `runRead`, `runText`, `runKey` and `runWait`.
use tmux_pane_control.Prelude.{
  ℕ, ◌-◌, ◌*◌, ◌%◌, true, not, ◌||◌, List, [], ◌∷◌, ◌++◌, Bytes, codes, is_empty, has_prefix,
  length, if◌then◌else◌,
}
use tmux_pane_control.Prelude.Int64.{two64, add64, leb64}
use tmux_pane_control.Prelude.Decimal.{itoa}
use tmux_pane_control.Ipc.Dispatch.{Request}
use tmux_pane_control.Cli.{reorder_args, Emitted}
use tmux_pane_control.Cli.Commands.{
  Subcommand, run_list, run_snapshot, run_read, run_text, run_key, run_wait, run_daemon,
}
use tmux_pane_control.Cli.Flags.{Value, Parse, parse}
use tmux_pane_control.Cli.Subcommands.Sets.{
  global_flags, pane_flags, snapshot_flags, read_flags, text_flags, wait_flags, daemon_flags,
  daemon_bools, common_bools, text_bools, list_help, snapshot_help, read_help, text_help, key_help,
  wait_help, daemon_help,
}
use tmux_pane_control.Cli.Subcommands.{
  Machine, text_flag, int_flag, switch_flag, request_of, seconds, refuse_args, ask, ask_pane,
  with_flags, format_quoted_list,
}

-- `args` that begin with a dash.
unfoldable pub flags_among : List Bytes → List Bytes
flags_among [] = []
flags_among (a ∷ args) =
    let rest = flags_among args in
    if has_prefix a (codes "--") || has_prefix a (codes "-") then a ∷ rest else rest

abbrev pub read_request : List (Bytes × Value) → Request
read_request settings = record (request_of (codes "read") settings) {
  after = text_flag (codes "after") settings;
}

-- The history is asked for if its number of lines is not negative; the default is -1.
unfoldable pub snapshot_request : List (Bytes × Value) → Request
snapshot_request settings =
    let lines = int_flag (two64 - 1) (codes "history-lines") settings in
    if leb64 0 lines
    then record (request_of (codes "snapshot") settings) {
      has_history = true;
      history_lines = lines;
    }
    else request_of (codes "snapshot") settings

abbrev pub text_request : Bytes → List (Bytes × Value) → Request
text_request payload settings = record (request_of (codes "text") settings) {
  text = payload;
  enter = switch_flag (codes "enter") settings;
}

abbrev pub key_request : List Bytes → List (Bytes × Value) → Request
key_request keys settings = record (request_of (codes "key") settings) { keys = keys }

abbrev pub wait_request : List (Bytes × Value) → Request
wait_request settings = record (request_of (codes "wait") settings) {
  after = text_flag (codes "after") settings;
  mode = text_flag (codes "for") settings;
  sentinel_token = text_flag (codes "token") settings;
  pattern = text_flag (codes "pattern") settings;
  quiet_ms = int_flag 0 (codes "ms") settings;
  timeout_ms = int_flag 0 (codes "timeout-ms") settings;
}

-- `time.Duration(*timeoutMs)*time.Millisecond + grace`
unfoldable pub wait_limit : List (Bytes × Value) → ℕ
wait_limit settings = add64 (int_flag 0 (codes "timeout-ms") settings * 1000000 % two64) (seconds 2)

module _ (m : Machine) where
  -- `explainTextPositionalMismatch`
  unfoldable pub explain_text_positional_mismatch : List Bytes → Bytes
  unfolding flags_among
  explain_text_positional_mismatch args =
      if is_empty args
      then codes "text takes exactly one positional (the payload), got 0"
      else if not (is_empty (flags_among args))
      then codes "text takes exactly one positional, got "
        ++ (itoa (length args)
            ++ (codes ": "
                ++ (format_quoted_list m args
                    ++ (codes ". Flags-looking tokens ("
                        ++ (format_quoted_list m (flags_among args)
                            ++ codes
                                ") after `--` are treated as positional; put `--enter` before `--`, or drop `--` entirely.")))))
      else codes "text takes exactly one positional, got "
        ++ (itoa (length args) ++ (codes ": " ++ format_quoted_list m args))

  -- The checks of each command behind `Parse`, and its request.
  unfoldable pub list_next : List (Bytes × Value) → List Bytes → Emitted
  list_next settings args =
      if not (is_empty args)
      then refuse_args m (codes "list takes no positional arguments")
      else ask m (codes "list") settings (record (request_of (codes "list") settings) { pane = [] })
          (seconds 10)

  unfoldable pub snapshot_next : List (Bytes × Value) → List Bytes → Emitted
  unfolding snapshot_request
  snapshot_next settings args =
      if not (is_empty args)
      then refuse_args m (codes "snapshot takes no positional arguments")
      else ask_pane m (codes "snapshot") settings (snapshot_request settings) (seconds 15)

  unfoldable pub read_next : List (Bytes × Value) → List Bytes → Emitted
  read_next settings args =
      if not (is_empty args)
      then refuse_args m (codes "read takes no positional arguments")
      else ask_pane m (codes "read") settings (read_request settings) (seconds 10)

  unfoldable pub text_next : List (Bytes × Value) → List Bytes → Emitted
  unfolding explain_text_positional_mismatch
  text_next settings [] = refuse_args m (explain_text_positional_mismatch [])
  text_next settings (payload ∷ []) =
      ask_pane m (codes "text") settings (text_request payload settings) (seconds 10)
  text_next settings (a ∷ b ∷ args) =
      refuse_args m (explain_text_positional_mismatch (a ∷ b ∷ args))

  unfoldable pub key_next : List (Bytes × Value) → List Bytes → Emitted
  key_next settings keys =
      if is_empty keys
      then refuse_args m (codes "key requires at least one key token")
      else ask_pane m (codes "key") settings (key_request keys settings) (seconds 10)

  unfoldable pub wait_next : List (Bytes × Value) → List Bytes → Emitted
  unfolding wait_limit
  wait_next settings args =
      if not (is_empty args)
      then refuse_args m (codes "wait takes no positional arguments")
      else ask_pane m (codes "wait") settings (wait_request settings) (wait_limit settings)

  -- What `Parse` makes of a command's arguments.
  unfoldable pub parsed_args : Subcommand → List Bytes → Parse
  parsed_args run_list args = parse m.strconv global_flags args
  parsed_args run_snapshot args = parse m.strconv snapshot_flags (reorder_args common_bools args)
  parsed_args run_read args = parse m.strconv read_flags (reorder_args common_bools args)
  parsed_args run_text args = parse m.strconv text_flags (reorder_args text_bools args)
  parsed_args run_key args = parse m.strconv pane_flags (reorder_args common_bools args)
  parsed_args run_wait args = parse m.strconv wait_flags (reorder_args common_bools args)
  parsed_args run_daemon args = parse m.strconv daemon_flags (reorder_args daemon_bools args)

  -- Each run function; `daemon_next` is what `runDaemon` does behind `Parse`.
  unfoldable pub run_subcommand :
      (List (Bytes × Value) → List Bytes → Emitted) → Subcommand → List Bytes → Emitted
  unfolding parsed_args list_next snapshot_next read_next text_next key_next wait_next
  run_subcommand daemon_next run_list args =
      with_flags m (list_help (m.defaults (codes "list"))) list_next (parsed_args run_list args)
  run_subcommand daemon_next run_snapshot args =
      with_flags m (snapshot_help (m.defaults (codes "snapshot"))) snapshot_next
        (parsed_args run_snapshot args)
  run_subcommand daemon_next run_read args =
      with_flags m (read_help (m.defaults (codes "read"))) read_next (parsed_args run_read args)
  run_subcommand daemon_next run_text args =
      with_flags m (text_help (m.defaults (codes "text"))) text_next (parsed_args run_text args)
  run_subcommand daemon_next run_key args =
      with_flags m (key_help (m.defaults (codes "key"))) key_next (parsed_args run_key args)
  run_subcommand daemon_next run_wait args =
      with_flags m (wait_help (m.defaults (codes "wait"))) wait_next (parsed_args run_wait args)
  run_subcommand daemon_next run_daemon args =
      with_flags m (daemon_help (m.defaults (codes "daemon"))) daemon_next
        (parsed_args run_daemon args)
