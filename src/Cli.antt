-- ===== src/Cli.antt =====
-- internal/cli/app.go: the arguments of the command line, and what a response is turned into.
pub mod Arguments
pub mod Commands
pub mod Flags
pub mod Subcommands
pub mod Daemon
pub mod Program
use tmux_pane_control.Prelude.{
  ℕ, ◌+◌, ◌<◌, Bool, true, false, not, ◌&&◌, ◌||◌, List, [], ◌∷◌, ◌++◌, Option, none, some, Bytes,
  bytes_eq, codes, is_empty, has_prefix, length, drop, ltb, ◌==◌, if◌then◌else◌,
}
use tmux_pane_control.Textnorm.{has_byte}
use tmux_pane_control.Domain.{ErrorResponse, invalid_args}
use tmux_pane_control.Ipc.Dispatch.{Response}

-- `strings.HasPrefix(a, "--") && len(a) > 2`
abbrev pub is_long : Bytes → Bool
is_long a = has_prefix a (codes "--") && ltb 2 (length a)

-- `name[:eq]`, or the whole name if it has no `=`.
unfoldable pub before_equals : Bytes → Bytes
before_equals [] = []
before_equals (c ∷ cs) = if c == b'=' then [] else c ∷ before_equals cs

-- What the two switches of `extractGlobals` make of an argument.
pub data GlobalFlag : Type 0 where
  help_flag version_flag socket_flag no_global : GlobalFlag

unfoldable pub named_flag : Bytes → GlobalFlag
named_flag name =
    if bytes_eq name (codes "help") || bytes_eq name (codes "h")
    then help_flag
    else if bytes_eq name (codes "version")
    then version_flag
    else if bytes_eq name (codes "tmux-socket") || bytes_eq name (codes "tmux-socket-name")
    then socket_flag
    else no_global

unfoldable pub global_flag : Bytes → GlobalFlag
unfolding named_flag before_equals
global_flag a =
    if bytes_eq a (codes "--")
    then no_global
    else if is_long a
    then named_flag (before_equals (drop 2 a))
    else if bytes_eq a (codes "-h")
    then named_flag (codes "h")
    else no_global

-- The results of `extractGlobals`.
pub record Extracted : Type 0 where
  pub globals : List Bytes
  pub help_seen : Bool
  pub version_seen : Bool
  pub remaining : List Bytes

abbrev pub extracted : List Bytes → Extracted
extracted args = record { globals = []; help_seen = false; version_seen = false; remaining = args }

abbrev pub with_global : Bytes → Extracted → Extracted
with_global a x = record x { globals = a ∷ x.globals }

-- `extractGlobals`
unfoldable pub extract_globals : List Bytes → Extracted
unfolding global_flag
extract_globals [] = extracted []
extract_globals (a ∷ []) = elim (global_flag a) [
  | help_flag ↦ record (extracted []) { help_seen = true }
  | version_flag ↦ record (extracted []) { version_seen = true }
  | socket_flag ↦ with_global a (extracted [])
  | no_global ↦ extracted (a ∷ [])
]
extract_globals (a ∷ v ∷ args) =
    let rest = extract_globals (v ∷ args) in
    let behind = extract_globals args in
    elim (global_flag a) [
      | help_flag ↦ record rest { help_seen = true }
      | version_flag ↦ record rest { version_seen = true }
      | socket_flag ↦
          if has_byte b'=' a then with_global a rest else with_global a (with_global v behind)
      | no_global ↦ extracted (a ∷ v ∷ args)
    ]

-- `len(a) > 1 && a[0] == '-' && a[1] != '-'`
abbrev pub is_short : Bytes → Bool
is_short [] = false
is_short (c ∷ []) = false
is_short (c ∷ d ∷ cs) = c == b'-' && not (d == b'-')

abbrev pub on_flags : Bytes → List Bytes × List Bytes → List Bytes × List Bytes
on_flags a (flags, positionals) = (a ∷ flags, positionals)

abbrev pub on_positionals : Bytes → List Bytes × List Bytes → List Bytes × List Bytes
on_positionals a (flags, positionals) = (flags, a ∷ positionals)

-- The loop of `reorderArgs`: the flags with their values, and the positionals.
unfoldable pub split_args : (Bytes → Bool) → List Bytes → List Bytes × List Bytes
split_args is_bool [] = ([], [])
split_args is_bool (a ∷ []) =
    if bytes_eq a (codes "--")
    then ([], [])
    else if is_long a || is_short a
    then (a ∷ [], [])
    else ([], a ∷ [])
split_args is_bool (a ∷ v ∷ args) =
    let rest = split_args is_bool (v ∷ args) in
    let behind = split_args is_bool args in
    if bytes_eq a (codes "--")
    then ([], v ∷ args)
    else if is_long a
    then (if has_byte b'=' (drop 2 a) || is_bool (drop 2 a)
        then on_flags a rest
        else on_flags a (on_flags v behind))
    else if is_short a
    then on_flags a rest
    else on_positionals a rest

-- `reorderArgs`
unfoldable pub reorder_args : (Bytes → Bool) → List Bytes → List Bytes
unfolding split_args
reorder_args is_bool args =
    let (flags, positionals) = split_args is_bool args in flags ++ (codes "--" ∷ positionals)

-- `validatePaneID`
unfoldable pub validate_pane_id : Bytes → Option ErrorResponse
validate_pane_id p =
    if is_empty p
    then some (record { pane_id = []; code = invalid_args; message = codes "--pane is required" })
    else if not (has_prefix p (codes "%"))
    then some (record {
      pane_id = [];
      code = invalid_args;
      message = codes "--pane must be a tmux pane id (e.g. %42)";
    })
    else none

-- What a command leaves: its exit code and what it wrote.
pub record Emitted : Type 0 where
  pub exit_code : ℕ
  pub stdout : Bytes
  pub stderr : Bytes

-- `emitCmdError`; the JSON of an error response is a parameter, which does not fail.
abbrev pub emit_cmd_error : (ErrorResponse → Bytes) → ErrorResponse → Emitted
emit_cmd_error to_json e = record { exit_code = 1; stdout = to_json e ++ codes "\n"; stderr = [] }

-- `relay`; `none` is a nil response.
unfoldable pub relay : (ErrorResponse → Bytes) → Option Response → Emitted
relay to_json none = record { exit_code = 1; stdout = []; stderr = codes "tpctl: empty response\n" }
relay to_json (some resp) =
    if resp.is_ok
    then record {
      exit_code = 0;
      stdout = if is_empty resp.body then [] else resp.body ++ codes "\n";
      stderr = [];
    }
    else elim resp.error [
      | some e ↦ emit_cmd_error to_json e
      | none ↦ record {
        exit_code = 1;
        stdout = [];
        stderr =
            if is_empty resp.runtime then [] else codes "tpctl: " ++ (resp.runtime ++ codes "\n");
      }
    ]
