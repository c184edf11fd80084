-- ===== src/Cli/Program/Wait.antt =====
-- The command `wait` through the whole program: command line, flags, socket, server, dispatch, wait.
use tmux_pane_control.Prelude.{
  ◌*◌, ◌%◌, ◌<◌, is_empty, true, false, arith, subst, sym, ◌≡◌, refl, ap, ◌∙◌, Bool, List, [], ◌∷◌,
  ◌++◌, Option, none, some, Bytes, bytes_eq, has_prefix, codes, ok, ℕ,
}
use tmux_pane_control.Prelude.Int64.{two64, leb64}
use tmux_pane_control.Token.{Json}
use tmux_pane_control.Token.Base64.{Below}
use tmux_pane_control.Domain.{ErrorResponse, WaitResponse}
use tmux_pane_control.Store.{Store}
use tmux_pane_control.Controller.Wait.{
  WaitMode, sentinel, quiescence, regex, WaitRequest, Outcome, matched, failed, aborted, continues,
  wait,
}
use tmux_pane_control.Controller.Wait.Ends.{is_done}
use tmux_pane_control.Ipc.Dispatch.{
  Request, Response, Payloads, Compile, Meets, prepare_wait, wait_response, dispatch_wait, dispatch,
  marshal_body,
}
use tmux_pane_control.Ipc.Wire.{WireJson, IsPlainRequest, IsPlainResponse, call}
use tmux_pane_control.Ipc.Wire.Call.{serving, call-dispatch}
use tmux_pane_control.Ipc.Socket.{resolve_tmux_socket}
use tmux_pane_control.Cli.{global_flag, validate_pane_id, Emitted, relay}
use tmux_pane_control.Cli.Flags.{Value}
use tmux_pane_control.Cli.Commands.{run_wait, subcommand, choose, run}
use tmux_pane_control.Cli.Commands
use tmux_pane_control.Cli.Flags.Pieces.{Piece, arguments_of, settings_of, positionals_of, AllFit}
use tmux_pane_control.Cli.Flags.Reordered.{tail_args, tail_positionals}
use tmux_pane_control.Cli.Subcommands.Sets.{wait_flags, common_bools}
use tmux_pane_control.Cli.Subcommands.{text_flag, int_flag, relay_result}
use tmux_pane_control.Cli.Subcommands.Runs.{wait_request}
use tmux_pane_control.Cli.Subcommands.Requests.{run_wait-pieces}
use tmux_pane_control.Cli.Daemon.{daemon_next}
use tmux_pane_control.Cli.Program.{Installation, perform, app_run}
use tmux_pane_control.Cli.Program.Text.{extract_globals-none, told}

run-wait : (args : List Bytes) → run (codes "wait" ∷ args) ≡ Commands.run_subcommand run_wait args
unfolding run choose subcommand global_flag bytes_eq has_prefix
run-wait args = rw (extract_globals-none (codes "wait") args refl) refl

-- The wait that a command line asks for, in a mode and with a compiled pattern.
abbrev pub wait_of : List (Bytes × Value) → WaitMode → Option (Bytes → Option (ℕ × ℕ)) → WaitRequest
wait_of settings mode find = record {
  pane_id = text_flag (codes "pane") settings;
  after = text_flag (codes "after") settings;
  timeout_ns = (int_flag 0 (codes "timeout-ms") settings * 1000000) % two64;
  mode = mode;
  sentinel_token = text_flag (codes "token") settings;
  quiet_window = (int_flag 0 (codes "ms") settings * 1000000) % two64;
  regex_find = find;
}

-- The texts of the flags are ASCII, and their numbers ones that an int holds.
abbrev pub PlainFlags : List (Bytes × Value) → Type 0
PlainFlags settings =
    Below 128 (text_flag (codes "pane") settings)
    × Below 128 (text_flag (codes "after") settings)
    × Below 128 (text_flag (codes "for") settings)
    × Below 128 (text_flag (codes "token") settings)
    × Below 128 (text_flag (codes "pattern") settings)
    × (int_flag 0 (codes "ms") settings < two64)
    × (int_flag 0 (codes "timeout-ms") settings < two64)

wait_request-IsPlain :
    (settings : List (Bytes × Value)) → PlainFlags settings → IsPlainRequest (wait_request settings)
wait_request-IsPlain settings (pane, after, mode, token, pattern, quiet, timeout) = record {
  op_plain = ground arith;
  pane_plain = pane;
  after_plain = after;
  text_plain = tt;
  keys_plain = tt;
  mode_plain = mode;
  token_plain = token;
  pattern_plain = pattern;
  history_int = omega arith;
  quiet_int = quiet;
  timeout_int = timeout;
}

-- The flags describe a wait: they give a positive timeout and name a mode.
pub data Described (compile : Compile) (settings : List (Bytes × Value))
    : WaitRequest → Type 0 where
  for_sentinel :
      leb64 (int_flag 0 (codes "timeout-ms") settings) 0 ≡ false
      → text_flag (codes "for") settings ≡ codes "sentinel"
      → Described compile settings (wait_of settings sentinel none)
  for_quiescence :
      leb64 (int_flag 0 (codes "timeout-ms") settings) 0 ≡ false
      → text_flag (codes "for") settings ≡ codes "quiescence"
      → Described compile settings (wait_of settings quiescence none)
  for_regex :
      (find : Bytes → Option (ℕ × ℕ))
      → leb64 (int_flag 0 (codes "timeout-ms") settings) 0 ≡ false
      → text_flag (codes "for") settings ≡ codes "regex"
      → is_empty (text_flag (codes "pattern") settings) ≡ false
      → compile (text_flag (codes "pattern") settings) ≡ ok find
      → Described compile settings (wait_of settings regex (some find))

prepare_wait-Described :
    (compile : Compile) (settings : List (Bytes × Value)) (wr : WaitRequest)
    → Described compile settings wr
    → prepare_wait compile (wait_request settings) ≡ ok wr
unfolding prepare_wait bytes_eq
prepare_wait-Described compile settings wr (for_sentinel positive mode) = rw (positive, mode) refl
prepare_wait-Described compile settings wr (for_quiescence positive mode) = rw (positive, mode) refl
prepare_wait-Described compile settings wr (for_regex find positive mode pattern compiled) =
    rw (positive, mode, pattern, compiled) refl

abbrev pub printed : Bytes → Emitted
printed body = record { exit_code = 0; stdout = body ++ codes "\n"; stderr = [] }

-- What the program prints, and its exit code, by the outcome of the wait.
pub data Answers (payloads : Payloads) (to_json : ErrorResponse → Bytes) (ctx_error : Bytes)
    : Outcome → Emitted → Type 0 where
  on_match :
      (w : WaitResponse)
      → Answers payloads to_json ctx_error (matched w) (printed (payloads.wait_json w))
  on_failure :
      (e : ErrorResponse)
      → Answers payloads to_json ctx_error
          (failed e)
          (record { exit_code = 1; stdout = to_json e ++ codes "\n"; stderr = [] })
  on_abort : Answers payloads to_json ctx_error aborted (told ctx_error)

-- The texts of an outcome are ASCII, and its body is JSON.
abbrev pub PlainOutcome : (Bytes → Type 0) → Payloads → Bytes → Outcome → Type 0
PlainOutcome IsBody payloads ctx_error (matched w) = IsBody (payloads.wait_json w)
PlainOutcome IsBody payloads ctx_error (failed e) = Below 128 e.pane_id × Below 128 e.message
PlainOutcome IsBody payloads ctx_error aborted = Below 128 ctx_error
PlainOutcome IsBody payloads ctx_error continues = Unit

module _ (payloads : Payloads) (to_json : ErrorResponse → Bytes) (IsBody : Bytes → Type 0)
    (ctx_error : Bytes) (none_body : IsBody [])
    (full : (w : WaitResponse) → is_empty (payloads.wait_json w) ≡ false) where
  response_of :
      (o : Outcome)
      → PlainOutcome IsBody payloads ctx_error o
      → is_done o ≡ true
      → (resp : Response) × (wait_response payloads ctx_error o ≡ some resp)
        × IsPlainResponse IsBody resp
        × Answers payloads to_json ctx_error o (relay to_json (some resp))
  unfolding wait_response marshal_body relay
  response_of (matched w) p d = (
    _,
    refl,
    record { body_json = p; error_plain = tt; runtime_plain = tt; pid_int = omega arith },
    rw (full w) (on_match w),
  )
  response_of (failed e) p d = (
    _,
    refl,
    record { body_json = none_body; error_plain = p; runtime_plain = tt; pid_int = omega arith },
    on_failure e,
  )
  response_of aborted p d = (
    _,
    refl,
    record { body_json = none_body; error_plain = tt; runtime_plain = p; pid_int = omega arith },
    on_abort,
  )
  response_of continues p d = cc d

module _ (i : Installation) (wire : WireJson) (json : Json) (payloads : Payloads)
    (compile : Compile) (pid : ℕ) (has_shutdown : Bool) (s : Store) (x : Meets) (end : Bytes) where
  dispatch-wait :
      (req : Request) (wr : WaitRequest) (resp : Response)
      → req.op ≡ codes "wait"
      → prepare_wait compile req ≡ ok wr
      → wait_response payloads x.ctx_error (wait json wr s x.schedule).1 ≡ some resp
      → (dispatch json payloads compile req s x).1 ≡ some resp
  unfolding dispatch dispatch_wait bytes_eq
  dispatch-wait req wr resp op prepared answered =
      rw (op, dispatch, prepared, dispatch_wait) answered

  -- Whatever request is handed on, and whatever response comes of it.
  app_run-response :
      (ps : List Piece) (tail : Option (List Bytes)) (tmux_socket : Bytes) (wr : WaitRequest)
      (resp : Response)
      → AllFit i.machine.strconv wait_flags common_bools ps
      → positionals_of ps ++ tail_positionals tail ≡ []
      → validate_pane_id (text_flag (codes "pane") (settings_of ps)) ≡ none
      → resolve_tmux_socket i.machine.env
          (text_flag (codes "tmux-socket") (settings_of ps))
          (text_flag (codes "tmux-socket-name") (settings_of ps))
        ≡ ok tmux_socket
      → i.machine.ensure_daemon tmux_socket
        ≡ ok (λ req limit.
          call wire (ok (serving wire json payloads compile pid has_shutdown s x end [])) req)
      → IsPlainRequest (wait_request (settings_of ps))
      → IsPlainResponse wire.IsBody resp
      → prepare_wait compile (wait_request (settings_of ps)) ≡ ok wr
      → wait_response payloads x.ctx_error (wait json wr s x.schedule).1 ≡ some resp
      → app_run i (codes "wait" ∷ (arguments_of ps ++ tail_args tail))
        ≡ relay i.machine.error_json (some resp)
  unfolding app_run perform bytes_eq
  app_run-response ps tail tmux_socket wr resp fit empty pane socket daemon plain ready prepared
        answered =
      ap (perform i) (run-wait (arguments_of ps ++ tail_args tail))
      ∙ run_wait-pieces i.machine (daemon_next i.machine.env i.stopping i.serving) ps tail
          tmux_socket _ fit empty pane socket daemon
      ∙ ap (relay_result i.machine (codes "wait")) (
          call-dispatch wire json payloads compile pid has_shutdown s x
            (wait_request (settings_of ps)) resp end [] plain ready refl
            (dispatch-wait (wait_request (settings_of ps)) wr resp refl prepared answered))

  -- The command line `wait` with its flags in any order, against a daemon whose server handles the one
  -- request of a connection: the wait that is run has the pane of `--pane`, the token of `--after`, the
  -- timeout of `--timeout-ms` and the window of `--ms` as int64 nanoseconds, the mode that `--for` names,
  -- and the token of `--token` or the compiled `--pattern`. If it reports a match the program prints the JSON
  -- of the response and exits with 0; if it fails, be it refused, timed out or closed, the program prints
  -- the JSON of its error and exits with 1; and if the context ends, it tells the context's error on its
  -- error output and exits with 1. Conditions are that the wait ends within the schedule, that the flags
  -- are written with two dashes and well formed with a positive timeout, a mode and, for `regex`, a
  -- pattern that compiles, that the pane is a pane id, that the tmux socket resolves and the daemon is
  -- reached, that the texts of flags and answer are ASCII and
  -- the numbers ones that an int holds, and that JSON bodies are carried by the wire
  -- and not empty.
  pub app_run-wait :
      (ps : List Piece) (tail : Option (List Bytes)) (tmux_socket : Bytes) (wr : WaitRequest)
      → AllFit i.machine.strconv wait_flags common_bools ps
      → positionals_of ps ++ tail_positionals tail ≡ []
      → validate_pane_id (text_flag (codes "pane") (settings_of ps)) ≡ none
      → resolve_tmux_socket i.machine.env
          (text_flag (codes "tmux-socket") (settings_of ps))
          (text_flag (codes "tmux-socket-name") (settings_of ps))
        ≡ ok tmux_socket
      → i.machine.ensure_daemon tmux_socket
        ≡ ok (λ req limit.
          call wire (ok (serving wire json payloads compile pid has_shutdown s x end [])) req)
      → PlainFlags (settings_of ps)
      → ((w : WaitResponse) → is_empty (payloads.wait_json w) ≡ false)
      → wire.IsBody []
      → Described compile (settings_of ps) wr
      → PlainOutcome wire.IsBody payloads x.ctx_error (wait json wr s x.schedule).1
      → is_done (wait json wr s x.schedule).1 ≡ true
      → Answers payloads i.machine.error_json x.ctx_error
          (wait json wr s x.schedule).1
          (app_run i (codes "wait" ∷ (arguments_of ps ++ tail_args tail)))
  app_run-wait ps tail tmux_socket wr fit empty pane socket daemon plain full none_body d o done =
      let outcome = (wait json wr s x.schedule).1 in
      let (resp, e, ready, a) =
        response_of payloads i.machine.error_json wire.IsBody x.ctx_error none_body full outcome o
          done in
      subst (Answers payloads i.machine.error_json x.ctx_error outcome)
        (sym (
          app_run-response ps tail tmux_socket wr resp fit empty pane socket daemon
            (wait_request-IsPlain (settings_of ps) plain) ready
            (prepare_wait-Described compile (settings_of ps) wr d) e))
        a
