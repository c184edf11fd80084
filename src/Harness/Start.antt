-- ===== src/Harness/Start.antt =====
-- conformance/harness/harness.go: how a scenario starts. The flags, the file system and tmux are what they
-- are found to be.
use tmux_pane_control.Prelude.{
  Bool, not, List, [], ◌∷◌, Option, none, some, Bytes, codes, is_empty, if◌then◌else◌,
}
use tmux_pane_control.Harness.{Env}
use tmux_pane_control.Harness.Fixture.{Combined, Tmux}

-- Why a scenario is skipped, or does not start.
pub data Skip : Type 0 where
  no_binary_flag : Skip
  tmux_not_found : Bytes → Skip

pub data StartError : Type 0 where
  binary_not_found : Bytes → Bytes → StartError
  new_session_failed : Bytes → Bytes → StartError

pub data Started : Type 0 where
  skipped : Skip → Started
  failed : StartError → Started
  created : Env → Started

-- `--binary` and `--tmux`, the error of `os.Stat`, whether `LookPath` finds tmux, the two temporary paths,
-- and tmux.
pub record Machine : Type 0 where
  pub binary_flag : Bytes
  pub tmux_flag : Bytes
  pub stat_error : Option Bytes
  pub tmux_on_path : Bool
  pub xdg : Bytes
  pub soc : Bytes
  pub tmux : Tmux

abbrev pub session_args : Bytes → List Bytes
session_args soc =
    codes "-S"
    ∷ soc
    ∷ codes "-f"
    ∷ codes "/dev/null"
    ∷ codes "new-session"
    ∷ codes "-d"
    ∷ codes "-s"
    ∷ codes "t"
    ∷ codes "-x"
    ∷ codes "80"
    ∷ codes "-y"
    ∷ codes "24"
    ∷ codes "bash"
    ∷ codes "-i"
    ∷ []

abbrev fresh_env : Machine → Env
fresh_env m = record {
  bin = m.binary_flag;
  tmux = m.tmux_flag;
  tmux_soc = m.soc;
  xdg_dir = m.xdg;
  history = [];
  panes = [];
}

-- What `NewEnv` makes of its session.
abbrev with_session : Machine → Combined → Started
with_session m x = elim x.failure [
  | some text ↦ failed (new_session_failed text x.output)
  | none ↦ created (fresh_env m)
]

-- `NewEnv`
unfoldable pub new_env : Machine → Started
new_env m = if is_empty m.binary_flag then skipped no_binary_flag else elim m.stat_error [
  | some text ↦ failed (binary_not_found m.binary_flag text)
  | none ↦
      if not m.tmux_on_path
      then skipped (tmux_not_found m.tmux_flag)
      else with_session m (m.tmux (session_args m.soc))
]

-- `RequireBinary`; `none` if the test is skipped.
unfoldable pub require_binary : Bytes → Option Bytes
require_binary binary_flag = if is_empty binary_flag then none else some binary_flag
