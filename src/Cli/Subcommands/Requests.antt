-- ===== src/Cli/Subcommands/Requests.antt =====
-- The requests that the commands send, and a command against a server, from its arguments to its output.
use tmux_pane_control.Prelude.{
  ℕ, ◌≡◌, refl, ap, ◌∙◌, Bool, List, [], ◌∷◌, ◌++◌, Option, none, some, Bytes, bytes_eq, codes, ok,
}
use tmux_pane_control.Token.{Json}
use tmux_pane_control.Store.{Store}
use tmux_pane_control.Ipc.Dispatch.{Request, Response, Payloads, Compile, Meets, dispatch}
use tmux_pane_control.Ipc.Wire.{WireJson, IsPlainRequest, IsPlainResponse, call}
use tmux_pane_control.Ipc.Wire.Call.{serving, call-dispatch}
use tmux_pane_control.Ipc.Socket.{resolve_tmux_socket}
use tmux_pane_control.Cli.{validate_pane_id, Emitted, relay}
use tmux_pane_control.Cli.Commands.{run_text, run_wait}
use tmux_pane_control.Cli.Flags.{Value}
use tmux_pane_control.Cli.Flags.Pieces.{Piece, arguments_of, settings_of, positionals_of, AllFit}
use tmux_pane_control.Cli.Flags.Reordered.{tail_args, tail_positionals, parse-reorder_args}
use tmux_pane_control.Cli.Subcommands.Sets.{text_flags, wait_flags, common_bools, text_bools}
use tmux_pane_control.Cli.Subcommands.{
  Client, Machine, text_flag, seconds, dial, ask, ask_pane, relay_result,
}
use tmux_pane_control.Cli.Subcommands.Runs.{
  text_request, wait_request, wait_limit, text_next, wait_next, parsed_args, run_subcommand,
}

module _ (m : Machine) (daemon_next : List (Bytes × Value) → List Bytes → Emitted) where
  run_text-pieces :
      (ps : List Piece) (tail : Option (List Bytes)) (payload : Bytes)
      → AllFit m.strconv text_flags text_bools ps
      → positionals_of ps ++ tail_positionals tail ≡ payload ∷ []
      → run_subcommand m daemon_next run_text (arguments_of ps ++ tail_args tail)
        ≡ ask_pane m
            (codes "text")
            (settings_of ps)
            (text_request payload (settings_of ps))
            (seconds 10)
  unfolding run_subcommand parsed_args text_next
  run_text-pieces ps tail payload fit one =
      rw (parse-reorder_args m.strconv text_flags text_bools ps tail fit, one) refl

  ask_pane-called :
      (name : Bytes) (settings : List (Bytes × Value)) (req : Request) (limit : ℕ)
      (tmux_socket : Bytes) (client : Client)
      → validate_pane_id (text_flag (codes "pane") settings) ≡ none
      → resolve_tmux_socket m.env
          (text_flag (codes "tmux-socket") settings)
          (text_flag (codes "tmux-socket-name") settings)
        ≡ ok tmux_socket
      → m.ensure_daemon tmux_socket ≡ ok client
      → ask_pane m name settings req limit ≡ relay_result m name (client req limit)
  unfolding ask_pane ask dial
  ask_pane-called name settings req limit tmux_socket client pane socket daemon =
      rw (ask_pane, pane, ask, dial, socket, daemon) refl

  -- `wait` with its flags in any order, and no positional: with a valid pane, a tmux socket that resolves
  -- and a daemon that is reached, it makes the call of the request that the flags describe, the call's
  -- limit is the timeout and two seconds more, and the command ends as `relay` makes of the result.
  pub run_wait-pieces :
      (ps : List Piece) (tail : Option (List Bytes)) (tmux_socket : Bytes) (client : Client)
      → AllFit m.strconv wait_flags common_bools ps
      → positionals_of ps ++ tail_positionals tail ≡ []
      → validate_pane_id (text_flag (codes "pane") (settings_of ps)) ≡ none
      → resolve_tmux_socket m.env
          (text_flag (codes "tmux-socket") (settings_of ps))
          (text_flag (codes "tmux-socket-name") (settings_of ps))
        ≡ ok tmux_socket
      → m.ensure_daemon tmux_socket ≡ ok client
      → run_subcommand m daemon_next run_wait (arguments_of ps ++ tail_args tail)
        ≡ relay_result m
            (codes "wait")
            (client (wait_request (settings_of ps)) (wait_limit (settings_of ps)))
  unfolding run_subcommand parsed_args wait_next
  run_wait-pieces ps tail tmux_socket client fit empty pane socket daemon =
      rw (parse-reorder_args m.strconv wait_flags common_bools ps tail fit, empty)
        (ask_pane-called (codes "wait") (settings_of ps) (wait_request (settings_of ps))
          (wait_limit (settings_of ps)) tmux_socket client pane socket daemon)

  -- `text` with one payload, its flags and the payload in any order, or the payload behind `--`, against a
  -- daemon whose server handles the one request of a connection: the payload reaches the dispatch with the
  -- pane and `--enter` as they were given, and the command's output and exit code are those that `relay`
  -- makes of the response that was dispatched. Conditions are that the flags are well formed and the pane
  -- is a pane id, that the tmux socket resolves and the daemon is reached, and that request and response are
  -- of the form that JSON keeps.
  pub run_text-dispatch :
      (wire : WireJson) (json : Json) (payloads : Payloads) (compile : Compile) (pid : ℕ)
      (has_shutdown : Bool) (s : Store) (x : Meets) (end : Bytes) (ps : List Piece)
      (tail : Option (List Bytes)) (payload tmux_socket : Bytes) (resp : Response)
      → AllFit m.strconv text_flags text_bools ps
      → positionals_of ps ++ tail_positionals tail ≡ payload ∷ []
      → validate_pane_id (text_flag (codes "pane") (settings_of ps)) ≡ none
      → resolve_tmux_socket m.env
          (text_flag (codes "tmux-socket") (settings_of ps))
          (text_flag (codes "tmux-socket-name") (settings_of ps))
        ≡ ok tmux_socket
      → m.ensure_daemon tmux_socket
        ≡ ok (λ req limit.
          call wire (ok (serving wire json payloads compile pid has_shutdown s x end [])) req)
      → IsPlainRequest (text_request payload (settings_of ps))
      → IsPlainResponse wire.IsBody resp
      → (dispatch json payloads compile (text_request payload (settings_of ps)) s x).1 ≡ some resp
      → run_subcommand m daemon_next run_text (arguments_of ps ++ tail_args tail)
        ≡ relay m.error_json (some resp)
  unfolding bytes_eq
  run_text-dispatch wire json payloads compile pid has_shutdown s x end ps tail payload tmux_socket
        resp fit one pane socket daemon plain ready e =
      run_text-pieces ps tail payload fit one
      ∙ ask_pane-called (codes "text") (settings_of ps) (text_request payload (settings_of ps))
          (seconds 10) tmux_socket _ pane socket daemon
      ∙ ap (relay_result m (codes "text")) (
          call-dispatch wire json payloads compile pid has_shutdown s x
            (text_request payload (settings_of ps)) resp end [] plain ready refl e)
