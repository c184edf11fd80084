-- ===== src/Cli/Program/Text.antt =====
-- The command `text` through the whole program: command line, flags, socket, server, dispatch, port.
use tmux_pane_control.Prelude.{
  arith, is_empty, if◌then◌else◌, Result, err, ◌≡◌, refl, ap, ◌∙◌, Bool, List, [], ◌∷◌, ◌++◌,
  Option, none, some, Bytes, bytes_eq, has_prefix, codes, ok, ℕ,
}
use tmux_pane_control.Token.{Json}
use tmux_pane_control.Token.Base64.{Below}
use tmux_pane_control.Domain.{ErrorResponse, HandlerError, pane_not_found}
use tmux_pane_control.Tmuxctl.Port.{PortError, pane_missing, key_rejected, port_failed}
use tmux_pane_control.Store.{Store}
use tmux_pane_control.Controller
use tmux_pane_control.Ipc.Dispatch.{Payloads, Compile, Meets, done_or_err, classify_err, dispatch}
use tmux_pane_control.Ipc.Wire.{WireJson, IsPlainRequest, IsPlainResponse, call}
use tmux_pane_control.Ipc.Wire.Call.{serving}
use tmux_pane_control.Ipc.Socket.{resolve_tmux_socket}
use tmux_pane_control.Cli.{
  extract_globals, extracted, global_flag, no_global, validate_pane_id, Emitted, relay,
}
use tmux_pane_control.Cli.Commands.{Subcommand, run_text, subcommand, choose, run}
use tmux_pane_control.Cli.Commands
use tmux_pane_control.Cli.Flags.{Value}
use tmux_pane_control.Cli.Flags.Pieces.{Piece, arguments_of, settings_of, positionals_of, AllFit}
use tmux_pane_control.Cli.Flags.Reordered.{tail_args, tail_positionals}
use tmux_pane_control.Cli.Subcommands.Sets.{text_flags, text_bools}
use tmux_pane_control.Cli.Subcommands.{text_flag, switch_flag}
use tmux_pane_control.Cli.Subcommands.Runs.{text_request}
use tmux_pane_control.Cli.Subcommands.Requests.{run_text-dispatch}
use tmux_pane_control.Cli.Daemon.{daemon_next}
use tmux_pane_control.Cli.Program.{Installation, perform, app_run}

pub extract_globals-none :
    (a : Bytes) (args : List Bytes)
    → global_flag a ≡ no_global
    → extract_globals (a ∷ args) ≡ extracted (a ∷ args)
unfolding extract_globals
extract_globals-none a [] h = rw (extract_globals, h) refl
extract_globals-none a (v ∷ args) h = rw (extract_globals, h) refl

run-text : (args : List Bytes) → run (codes "text" ∷ args) ≡ Commands.run_subcommand run_text args
unfolding run choose subcommand global_flag bytes_eq has_prefix
run-text args = rw (extract_globals-none (codes "text") args refl) refl

-- A program that fails with a text, which it writes to its error output if it is not empty.
abbrev pub told : Bytes → Emitted
told text = record {
  exit_code = 1;
  stdout = [];
  stderr = if is_empty text then [] else codes "tpctl: " ++ (text ++ codes "\n");
}

-- What `text` prints, and its exit code, by what the port answers.
abbrev pub text_answer : (ErrorResponse → Bytes) → Bytes → Result PortError (Unit {0}) → Emitted
text_answer to_json pane (ok u) = record { exit_code = 0; stdout = []; stderr = [] }
text_answer to_json pane (err pane_missing) = record {
  exit_code = 1;
  stdout =
      to_json (record { pane_id = pane; code = pane_not_found; message = codes "pane not found" })
      ++ codes "\n";
  stderr = [];
}
text_answer to_json pane (err (key_rejected text)) = told text
text_answer to_json pane (err (port_failed text)) = told text

-- The texts of the port's errors are ASCII.
abbrev pub PlainAnswer : Result PortError (Unit {0}) → Type 0
PlainAnswer (ok u) = Unit
PlainAnswer (err pane_missing) = Unit
PlainAnswer (err (key_rejected text)) = Below 128 text
PlainAnswer (err (port_failed text)) = Below 128 text

-- What `SendText` makes of the port's answer.
abbrev handled : Bytes → Result PortError (Unit {0}) → Result HandlerError (Unit {0})
handled pane r = elim r [ err e ↦ err (Controller.port_error pane e) | ok u ↦ ok u ]

handled-relay :
    (to_json : ErrorResponse → Bytes) (pane : Bytes) (r : Result PortError (Unit {0}))
    → relay to_json (some (done_or_err (handled pane r))) ≡ text_answer to_json pane r
unfolding relay done_or_err classify_err Controller.port_error
handled-relay to_json pane (ok u) = refl
handled-relay to_json pane (err pane_missing) = refl
handled-relay to_json pane (err (key_rejected text)) = refl
handled-relay to_json pane (err (port_failed text)) = refl

handled-IsPlain :
    (IsBody : Bytes → Type 0) (pane : Bytes) (r : Result PortError (Unit {0}))
    → IsBody []
    → Below 128 pane
    → PlainAnswer r
    → IsPlainResponse IsBody (done_or_err (handled pane r))
unfolding done_or_err classify_err Controller.port_error
handled-IsPlain IsBody pane (ok u) b p a = record {
  body_json = b;
  error_plain = tt;
  runtime_plain = tt;
  pid_int = omega arith;
}
handled-IsPlain IsBody pane (err pane_missing) b p a = record {
  body_json = b;
  error_plain = (p, ground arith);
  runtime_plain = tt;
  pid_int = omega arith;
}
handled-IsPlain IsBody pane (err (key_rejected text)) b p a = record {
  body_json = b;
  error_plain = tt;
  runtime_plain = a;
  pid_int = omega arith;
}
handled-IsPlain IsBody pane (err (port_failed text)) b p a = record {
  body_json = b;
  error_plain = tt;
  runtime_plain = a;
  pid_int = omega arith;
}

text_request-IsPlain :
    (payload : Bytes) (settings : List (Bytes × Value))
    → Below 128 (text_flag (codes "pane") settings)
    → Below 128 payload
    → IsPlainRequest (text_request payload settings)
text_request-IsPlain payload settings pane text = record {
  op_plain = ground arith;
  pane_plain = pane;
  after_plain = tt;
  text_plain = text;
  keys_plain = tt;
  mode_plain = tt;
  token_plain = tt;
  pattern_plain = tt;
  history_int = omega arith;
  quiet_int = omega arith;
  timeout_int = omega arith;
}

-- The command line `text` with one payload, its flags and the payload in any order, or the payload behind
-- `--`, against a daemon whose server handles the one request of a connection: the output and exit code of
-- the program are given by what the port answers when it is asked to send exactly that payload to the pane
-- that `--pane` names, with an Enter exactly if `--enter` is set. Nothing is printed and the exit code is
-- 0 if the port accepts it; a missing pane is printed as a PANE_NOT_FOUND for that pane, and any other
-- failure is told on the error output, both with exit code 1. Conditions are that the flags are written
-- with two dashes and well formed and the pane is a pane id, that the tmux socket resolves and the daemon
-- is reached, that the pane, the payload and the text of a failure are ASCII, and that the wire allows a response
-- without a body.
pub app_run-send_text :
    (i : Installation) (wire : WireJson) (json : Json) (payloads : Payloads) (compile : Compile)
    (pid : ℕ) (has_shutdown : Bool) (s : Store) (x : Meets) (end : Bytes) (ps : List Piece)
    (tail : Option (List Bytes)) (payload tmux_socket : Bytes)
    → AllFit i.machine.strconv text_flags text_bools ps
    → positionals_of ps ++ tail_positionals tail ≡ payload ∷ []
    → validate_pane_id (text_flag (codes "pane") (settings_of ps)) ≡ none
    → resolve_tmux_socket i.machine.env
        (text_flag (codes "tmux-socket") (settings_of ps))
        (text_flag (codes "tmux-socket-name") (settings_of ps))
      ≡ ok tmux_socket
    → i.machine.ensure_daemon tmux_socket
      ≡ ok (λ req limit.
        call wire (ok (serving wire json payloads compile pid has_shutdown s x end [])) req)
    → Below 128 (text_flag (codes "pane") (settings_of ps))
    → Below 128 payload
    → wire.IsBody []
    → PlainAnswer (
        x.port.send_text
          (text_flag (codes "pane") (settings_of ps))
          payload
          (switch_flag (codes "enter") (settings_of ps)))
    → app_run i (codes "text" ∷ (arguments_of ps ++ tail_args tail))
      ≡ text_answer i.machine.error_json (text_flag (codes "pane") (settings_of ps)) (
          x.port.send_text
            (text_flag (codes "pane") (settings_of ps))
            payload
            (switch_flag (codes "enter") (settings_of ps)))
unfolding app_run perform dispatch bytes_eq Controller.send_text
app_run-send_text i wire json payloads compile pid has_shutdown s x end ps tail payload tmux_socket
      fit one pane socket daemon id_plain payload_plain body ready =
    let id = text_flag (codes "pane") (settings_of ps) in
    let enter = switch_flag (codes "enter") (settings_of ps) in
    ap (perform i) (run-text (arguments_of ps ++ tail_args tail))
    ∙ run_text-dispatch i.machine (daemon_next i.machine.env i.stopping i.serving) wire json
        payloads compile pid has_shutdown s x end ps tail payload tmux_socket _ fit one pane socket
        daemon (text_request-IsPlain payload (settings_of ps) id_plain payload_plain)
        (handled-IsPlain wire.IsBody id (x.port.send_text id payload enter) body id_plain ready)
        refl
    ∙ handled-relay i.machine.error_json id (x.port.send_text id payload enter)
