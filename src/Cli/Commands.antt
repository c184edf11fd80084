-- ===== src/Cli/Commands.antt =====
-- internal/cli/app.go, `Run`: which command the arguments ask for; and internal/cli/version.go.
use tmux_pane_control.Prelude.{
  ℕ, ◌||◌, List, [], ◌∷◌, ◌++◌, Option, none, some, Bytes, bytes_eq, codes, is_empty, length, take,
  ltb, if◌then◌else◌,
}
use tmux_pane_control.Cli.{extract_globals}

pub data Subcommand : Type 0 where
  run_list run_snapshot run_read run_text run_key run_wait run_daemon : Subcommand

-- What `Run` does: it prints the version or the usage, refuses no command or an unknown one, or runs a
-- subcommand on its arguments.
pub data Action : Type 0 where
  show_version show_usage no_command : Action
  unknown_command : Bytes → Action
  run_subcommand : Subcommand → List Bytes → Action

-- The last switch of `Run`.
unfoldable pub subcommand : Bytes → Option Subcommand
subcommand name =
    if bytes_eq name (codes "list")
    then some run_list
    else if bytes_eq name (codes "snapshot")
    then some run_snapshot
    else if bytes_eq name (codes "read")
    then some run_read
    else if bytes_eq name (codes "text")
    then some run_text
    else if bytes_eq name (codes "key")
    then some run_key
    else if bytes_eq name (codes "wait")
    then some run_wait
    else if bytes_eq name (codes "daemon")
    then some run_daemon
    else none

-- The part of `Run` behind the global flags.
unfoldable pub choose : List Bytes → List Bytes → Action
unfolding subcommand
choose globals [] = no_command
choose globals (name ∷ args) =
    if bytes_eq name (codes "-h") || bytes_eq name (codes "help")
    then show_usage
    else if bytes_eq name (codes "version")
    then show_version
    else elim (subcommand name) [
      | some sub ↦ run_subcommand sub (globals ++ args)
      | none ↦ unknown_command name
    ]

-- `Run`
unfoldable pub run : List Bytes → Action
unfolding choose
run args =
    let x = extract_globals args in
    if x.version_seen
    then show_version
    else if x.help_seen
    then show_usage
    else choose x.globals x.remaining

-- The exit code that `Run` itself returns; `none` for a subcommand, which has its own.
unfoldable pub exit_code_of : Action → Option ℕ
exit_code_of show_version = some 0
exit_code_of show_usage = some 0
exit_code_of no_command = some 2
exit_code_of (unknown_command name) = some 2
exit_code_of (run_subcommand sub args) = none

-- What the loop over the build settings collects.
pub record Revision : Type 0 where
  pub rev : Bytes
  pub time : Bytes
  pub dirty : Bytes

unfoldable pub note_setting : Bytes → Bytes → Revision → Revision
note_setting setting value r =
    if bytes_eq setting (codes "vcs.revision")
    then record r { rev = value }
    else if bytes_eq setting (codes "vcs.time")
    then record r { time = value }
    else if bytes_eq setting (codes "vcs.modified")
    then (if bytes_eq value (codes "true") then record r { dirty = codes "+dirty" } else r)
    else r

unfoldable pub revision_from : Revision → List (Bytes × Bytes) → Revision
unfolding note_setting
revision_from r [] = r
revision_from r ((setting, value) ∷ rest) = revision_from (note_setting setting value r) rest

abbrev pub short_rev : Bytes → Bytes
short_rev rev = if ltb 12 (length rev) then take 12 rev else rev

unfoldable pub devel_version : Revision → Bytes
devel_version r =
    if is_empty r.rev
    then codes "tpctl devel"
    else if is_empty r.time
    then codes "tpctl devel " ++ (short_rev r.rev ++ r.dirty)
    else codes "tpctl devel "
      ++ (short_rev r.rev ++ (r.dirty ++ (codes " (" ++ (r.time ++ codes ")"))))

-- `versionString`; `none` if there is no build information, else the module's version and the settings.
unfoldable pub version_string : Option (Bytes × List (Bytes × Bytes)) → Bytes
unfolding devel_version revision_from
version_string none = codes "tpctl (version information unavailable)"
version_string (some (version, settings)) =
    if is_empty version || bytes_eq version (codes "(devel)")
    then devel_version (revision_from (record { rev = []; time = []; dirty = [] }) settings)
    else codes "tpctl " ++ version
