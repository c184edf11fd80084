-- ===== src/Harness.antt =====
-- conformance/harness/harness.go: the world of a scenario, the invocations of the binary under test, and
-- the checks of what they leave. The binary, the environment's variables and the JSON of responses are
-- parameters. A `Fatalf` ends the scenario; the texts of its message are kept apart, as `fmt` writes them.
pub mod Responses
pub mod Fixture
pub mod Start
pub mod Diagnostics
pub mod Teardown
pub mod Sentinel
pub mod History
pub mod Program
use tmux_pane_control.Prelude.{
  ℕ, ◌+◌, ◌-◌, Bool, true, false, not, List, [], ◌∷◌, ◌++◌, Bytes, bytes_eq, codes, is_empty,
  length, drop, ltb, ◌==◌, if◌then◌else◌, Result, ok, err,
}
use tmux_pane_control.Tmuxctl.Adapter.{trim_space}

-- `invocation`; exit codes are int64 bit patterns.
pub record Invocation : Type 0 where
  pub when : ℕ
  pub args : List Bytes
  pub code : ℕ
  pub stdout : Bytes
  pub stderr : Bytes

-- `Env`, without the test that it belongs to.
pub record Env : Type 0 where
  pub bin : Bytes
  pub tmux : Bytes
  pub tmux_soc : Bytes
  pub xdg_dir : Bytes
  pub history : List Invocation
  pub panes : List Bytes

-- `Result`
pub record RunResult : Type 0 where
  pub code : ℕ
  pub stdout : Bytes
  pub stderr : Bytes

-- Why a scenario ends: the check that failed, and what its message shows.
pub data Fatal : Type 0 where
  exec_failed : Bytes → List Bytes → Bytes → Fatal
  expected_exit_0 : RunResult → Fatal
  expected_nonzero : RunResult → Fatal
  undecodable : Bytes → Bytes → Fatal
  code_missing : Bytes → Fatal
  message_missing : Bytes → Fatal
  expected_no_stdout : Bytes → Fatal
  wrong_code : Bytes → Bytes → Bytes → Fatal
  tmux_failed : List Bytes → Bytes → Bytes → Fatal
  no_panes : Fatal
  unexpected_window : Bytes → Fatal
  never_contained : Bytes → Bytes → Fatal
  not_an_int : Bytes → Bytes → Bytes → Fatal

-- The error of `cmd.Run`: none, an exit status, or any other by its text.
pub data RunError : Type 0 where
  no_error : RunError
  exit_error : ℕ → RunError
  other_error : Bytes → RunError

pub record Ran : Type 0 where
  pub failure : RunError
  pub stdout : Bytes
  pub stderr : Bytes

-- A run of the binary, by its name, its arguments and its environment; and `os.Getenv`.
pub record World : Type 0 where
  pub exec : Bytes → List Bytes → List Bytes → Ran
  pub getenv : Bytes → Bytes

-- The environment of the command.
abbrev pub environ : World → Env → List Bytes
environ w e =
    (codes "XDG_RUNTIME_DIR=" ++ e.xdg_dir)
    ∷ (codes "PATH=" ++ w.getenv (codes "PATH"))
    ∷ (codes "HOME=" ++ w.getenv (codes "HOME"))
    ∷ []

abbrev pub max_history : ℕ
max_history = 32

-- The bounded window of `history`.
unfoldable pub record_invocation : Invocation → List Invocation → List Invocation
record_invocation inv history =
    let all = history ++ (inv ∷ []) in
    if ltb max_history (length all) then drop (length all - max_history) all else all

abbrev recorded : ℕ → List Bytes → RunResult → Env → Env
recorded started args r e = record e {
  history =
      record_invocation
        (record {
          when = started;
          args = args;
          code = r.code;
          stdout = r.stdout;
          stderr = r.stderr;
        })
        e.history;
}

abbrev pub exited_with : ℕ → Ran → RunResult
exited_with code ran = record { code = code; stdout = ran.stdout; stderr = ran.stderr }

-- What `RunArgs` makes of the command that has run.
unfoldable pub after_run : ℕ → List Bytes → Ran → RunError → Env → Result Fatal (Env × RunResult)
unfolding record_invocation
after_run started args ran no_error e =
    ok (recorded started args (exited_with 0 ran) e, exited_with 0 ran)
after_run started args ran (exit_error code) e =
    ok (recorded started args (exited_with code ran) e, exited_with code ran)
after_run started args ran (other_error text) e = err (exec_failed e.bin args text)

-- `RunArgs`, at a time.
unfoldable pub run_args : World → ℕ → List Bytes → Env → Result Fatal (Env × RunResult)
unfolding after_run
run_args w started args e =
    let ran = w.exec e.bin args (environ w e) in after_run started args ran ran.failure e

-- The arguments that `Run` passes on.
unfoldable pub with_socket : Bytes → List Bytes → List Bytes
with_socket soc [] = []
with_socket soc (a ∷ args) = a ∷ codes "--tmux-socket" ∷ soc ∷ args

-- `Run`
unfoldable pub run : World → ℕ → List Bytes → Env → Result Fatal (Env × RunResult)
unfolding run_args with_socket
run w started args e = run_args w started (with_socket e.tmux_soc args) e

-- `MustJSON`; `decode` is `json.Unmarshal` at the type of `v`, with its error's text.
unfoldable pub must_json {ℓ} : {A : Type ℓ} → (Bytes → Result Bytes A) → RunResult → Result Fatal A
must_json decode r =
    if not (r.code == 0) then err (expected_exit_0 r) else elim (decode (trim_space r.stdout)) [
      | err text ↦ err (undecodable text r.stdout)
      | ok v ↦ ok v
    ]

-- `MustMuted`
unfoldable pub must_muted : RunResult → Result Fatal (Unit {0})
must_muted r =
    if not (r.code == 0)
    then err (expected_exit_0 r)
    else if not (is_empty r.stdout)
    then err (expected_no_stdout r.stdout)
    else ok tt

-- `AtoiOrFail`; `atoi` is `strconv.Atoi`, with its error's text.
unfoldable pub atoi_or_fail : (Bytes → Result Bytes ℕ) → Bytes → Bytes → Result Fatal ℕ
atoi_or_fail atoi s context = elim (atoi s) [
  | err text ↦ err (not_an_int context s text)
  | ok n ↦ ok n
]
