-- ===== src/Harness/Program.antt =====
-- The harness against the program itself: `Run` with the modelled command line as the binary.
use tmux_pane_control.Prelude.{
  ℕ, ◌≡◌, ◌↔◌, refl, sym, ap, ap₂, subst, ◌∙◌, Bool, true, false, List, [], ◌∷◌, ◌++◌, Option, none,
  some, Bytes, bytes_eq, codes, is_empty, ◌==◌, if◌then◌else◌, arith, Option-cases, inl, inr,
  Result, ok, err,
}
use tmux_pane_control.Token.{Json}
use tmux_pane_control.Token.Base64.{Below}
use tmux_pane_control.Tmuxctl.Port.{PortError, pane_missing, key_rejected, port_failed}
use tmux_pane_control.Store.{Store}
use tmux_pane_control.Domain.{ErrorResponse}
use tmux_pane_control.Ipc.Dispatch.{Payloads, Compile, Meets}
use tmux_pane_control.Ipc.Wire.{WireJson, call}
use tmux_pane_control.Ipc.Wire.Call.{serving}
use tmux_pane_control.Ipc.Socket.{Environment, resolve_tmux_socket}
use tmux_pane_control.Cli.{validate_pane_id, Emitted}
use tmux_pane_control.Cli.Flags.{
  or_text, or_switch, Value, text_value, text_kind, last_set, set_value,
}
use tmux_pane_control.Cli.Flags.Pieces.{
  Piece, valued, arguments_of, settings_of, positionals_of, AllFit,
}
use tmux_pane_control.Cli.Flags.Reordered.{tail_args, tail_positionals}
use tmux_pane_control.Cli.Subcommands.Sets.{text_flags, text_bools}
use tmux_pane_control.Cli.Subcommands.{text_flag, switch_flag}
use tmux_pane_control.Cli.Program.{Installation, app_run, main}
use tmux_pane_control.Cli.Program.Text.{text_answer, PlainAnswer, app_run-send_text}
use tmux_pane_control.Textnorm.{has_byte}
use tmux_pane_control.Harness.{
  Env, RunResult, Ran, no_error, exit_error, World, run_args, after_run, with_socket, run,
  must_muted, recorded, exited_with,
}

-- A process that runs the program and exits with the code of `App.Run`.
abbrev pub process : Emitted → Ran
process x = record {
  failure = if x.exit_code == 0 then no_error else exit_error x.exit_code;
  stdout = x.stdout;
  stderr = x.stderr;
}

abbrev pub program : (Bytes → Bytes) → Installation → World
program getenv i = record {
  exec = λ bin args environ. process (main i (bin ∷ args));
  getenv = getenv;
}

abbrev pub result_of : Emitted → RunResult
result_of x = record { code = x.exit_code; stdout = x.stdout; stderr = x.stderr }

after_run-process :
    (started : ℕ) (args : List Bytes) (x : Emitted) (e : Env) (b : Bool)
    → (x.exit_code == 0) ≡ b
    → (e' : Env) × (after_run started args
          (process x)
          (if b then no_error else exit_error x.exit_code)
          e
        ≡ ok (e', result_of x))
unfolding after_run
after_run-process started args x e true h =
    let zero : 0 ≡ x.exit_code = ground arith in
    (
      recorded started args (exited_with 0 (process x)) e,
      ap (λ c. ok (recorded started args (exited_with 0 (process x)) e, exited_with c (process x)))
          zero,
    )
after_run-process started args x e false h =
    (recorded started args (exited_with x.exit_code (process x)) e, refl)

run_args-program :
    (getenv : Bytes → Bytes) (i : Installation) (started : ℕ) (args : List Bytes) (e : Env)
    → (e' : Env) × (run_args (program getenv i) started args e
        ≡ ok (e', result_of (app_run i args)))
unfolding run_args main
run_args-program getenv i started args e =
    after_run-process started args (app_run i args) e ((app_run i args).exit_code == 0) refl

must_muted-text_answer :
    (to_json : ErrorResponse → Bytes) (pane : Bytes) (r : Result PortError (Unit {0}))
    → (must_muted (result_of (text_answer to_json pane r)) ≡ ok tt) ↔ (r ≡ ok tt)
unfolding must_muted
must_muted-text_answer to_json pane (ok u) = (λ h. refl, λ h. refl)
must_muted-text_answer to_json pane (err pane_missing) = (λ h. cc h, λ h. cc h)
must_muted-text_answer to_json pane (err (key_rejected text)) = (λ h. cc h, λ h. cc h)
must_muted-text_answer to_json pane (err (port_failed text)) = (λ h. cc h, λ h. cc h)

last_set-other :
    (name n : Bytes) (v : Value) (settings : List (Bytes × Value))
    → bytes_eq n name ≡ false
    → last_set name ((n, v) ∷ settings) ≡ last_set name settings
unfolding last_set
last_set-other name n v settings h = elim (Option-cases (last_set name settings)) [
  | inl e ↦ rw (e, h) refl
  | inr (w, e) ↦ rw e refl
]

last_set-first :
    (name : Bytes) (v : Value) (settings : List (Bytes × Value))
    → last_set name settings ≡ none
    → bytes_eq name name ≡ true
    → last_set name ((name, v) ∷ settings) ≡ some v
unfolding last_set
last_set-first name v settings e h = rw (e, h) refl

-- The pieces of the command line that `Run` passes on, behind the command's name.
abbrev pub with_fixture : Bytes → List Piece → List Piece
with_fixture soc ps = valued (codes "tmux-socket") soc (text_value soc) ∷ ps

-- The scenario's own flags name no tmux socket.
abbrev pub NoSocket : List (Bytes × Value) → Type 0
NoSocket settings =
    (last_set (codes "tmux-socket") settings ≡ none)
    × (last_set (codes "tmux-socket-name") settings ≡ none)

resolved :
    (env : Environment) (soc : Bytes) (settings : List (Bytes × Value))
    → is_empty soc ≡ false
    → NoSocket settings
    → resolve_tmux_socket env
        (text_flag (codes "tmux-socket") ((codes "tmux-socket", text_value soc) ∷ settings))
        (text_flag (codes "tmux-socket-name") ((codes "tmux-socket", text_value soc) ∷ settings))
      ≡ env.abs_path soc
unfolding resolve_tmux_socket bytes_eq
resolved env soc settings full (none_path, none_name) =
    rw
      (
        last_set-first (codes "tmux-socket") (text_value soc) settings none_path refl,
        last_set-other (codes "tmux-socket-name") (codes "tmux-socket") (text_value soc) settings
            refl,
        none_name,
        full,
      )
      refl

module _ (getenv : Bytes → Bytes) (i : Installation) (wire : WireJson) (json : Json)
    (payloads : Payloads) (compile : Compile) (pid : ℕ) (has_shutdown : Bool) (s : Store)
    (x : Meets) (end : Bytes) where
  -- What the port answers to the text that a command line sends.
  abbrev pub sent : Bytes → List (Bytes × Value) → Result PortError (Unit {0})
  sent payload settings =
      x.port.send_text (text_flag (codes "pane") settings) payload
        (switch_flag (codes "enter") settings)

  fixture_run :
      (soc : Bytes) (ps : List Piece) (tail : Option (List Bytes)) (payload tmux_socket : Bytes)
      → is_empty soc ≡ false
      → AllFit i.machine.strconv text_flags text_bools ps
      → positionals_of ps ++ tail_positionals tail ≡ payload ∷ []
      → NoSocket (settings_of ps)
      → validate_pane_id (text_flag (codes "pane") (settings_of ps)) ≡ none
      → i.machine.env.abs_path soc ≡ ok tmux_socket
      → i.machine.ensure_daemon tmux_socket
        ≡ ok (λ req limit.
          call wire (ok (serving wire json payloads compile pid has_shutdown s x end [])) req)
      → Below 128 (text_flag (codes "pane") (settings_of ps))
      → Below 128 payload
      → wire.IsBody []
      → PlainAnswer (sent payload (settings_of ps))
      → app_run i (with_socket soc (codes "text" ∷ (arguments_of ps ++ tail_args tail)))
        ≡ text_answer i.machine.error_json
            (text_flag (codes "pane") (settings_of ps))
            (sent payload (settings_of ps))
  unfolding with_socket arguments_of settings_of positionals_of set_value bytes_eq has_byte
      text_flags text_bools
  fixture_run soc ps tail payload tmux_socket full fit one free pane socket daemon id_plain
        payload_plain body ready =
      let settings = settings_of ps in
      let v = text_value soc in
      let p = last_set-other (codes "pane") (codes "tmux-socket") v settings refl in
      let n = last_set-other (codes "enter") (codes "tmux-socket") v settings refl in
      let answer = ap₂ (λ a b. x.port.send_text (or_text a) payload (or_switch b)) p n in
      app_run-send_text i wire json payloads compile pid has_shutdown s x end (with_fixture soc ps)
        tail payload tmux_socket
        ((text_kind, (omega arith, refl), refl, λ same. cc same, refl, refl), fit) one (rw p pane)
        (resolved i.machine.env soc settings full free ∙ socket) daemon (rw p id_plain)
        payload_plain body (subst PlainAnswer (sym answer) ready)
      ∙ ap₂ (λ a r. text_answer i.machine.error_json (or_text a) r) p answer

  -- A scenario's `Run` of `text`, with one payload and flags that name no tmux socket, against the program
  -- whose daemon, for the fixture's tmux socket, handles the request: the run returns, and `MustMuted`
  -- accepts its result exactly if the port, asked to send that payload to the pane of `--pane` with an Enter
  -- exactly if `--enter` is set, accepts it. Conditions are that the fixture has a tmux socket, that the flags are
  -- written with two dashes and well formed and the pane is a pane id, that the daemon is reached, that the
  -- pane, the payload and the text of a failure are ASCII, and that the wire allows a response without a body.
  pub run-must_muted :
      (e : Env) (started : ℕ) (ps : List Piece) (tail : Option (List Bytes))
      (payload tmux_socket : Bytes)
      → is_empty e.tmux_soc ≡ false
      → AllFit i.machine.strconv text_flags text_bools ps
      → positionals_of ps ++ tail_positionals tail ≡ payload ∷ []
      → NoSocket (settings_of ps)
      → validate_pane_id (text_flag (codes "pane") (settings_of ps)) ≡ none
      → i.machine.env.abs_path e.tmux_soc ≡ ok tmux_socket
      → i.machine.ensure_daemon tmux_socket
        ≡ ok (λ req limit.
          call wire (ok (serving wire json payloads compile pid has_shutdown s x end [])) req)
      → Below 128 (text_flag (codes "pane") (settings_of ps))
      → Below 128 payload
      → wire.IsBody []
      → PlainAnswer (sent payload (settings_of ps))
      → (e' : Env) × (r : RunResult) × (run
            (program getenv i)
            started
            (codes "text" ∷ (arguments_of ps ++ tail_args tail))
            e
          ≡ ok (e', r))
        × ((must_muted r ≡ ok tt) ↔ (sent payload (settings_of ps) ≡ ok tt))
  unfolding run
  run-must_muted e started ps tail payload tmux_socket full fit one free pane socket daemon id_plain
        payload_plain body ready =
      let args = codes "text" ∷ (arguments_of ps ++ tail_args tail) in
      let (e', ran) = run_args-program getenv i started (with_socket e.tmux_soc args) e in
      let out =
        fixture_run e.tmux_soc ps tail payload tmux_socket full fit one free pane socket daemon
          id_plain payload_plain body ready in
      let (there, back) =
        must_muted-text_answer i.machine.error_json (text_flag (codes "pane") (settings_of ps))
          (sent payload (settings_of ps)) in
      (e', result_of (app_run i (with_socket e.tmux_soc args)), ran, rw out (there, back))
