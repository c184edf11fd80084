-- ===== src/Tmuxctl/Adapter.antt =====
-- internal/tmuxctl/adapter.go: each call of the port runs the tmux command and reads what it printed. A
-- run of the command is a function of its arguments; what tmux does with them is not modelled, but for the `;`
-- at which it ends a command, in Adapter/Arguments.
pub mod Output
pub mod Arguments
pub mod Implements
use tmux_pane_control.Prelude.{
  ℕ, ◌+◌, Bool, true, false, not, ◌&&◌, ◌||◌, List, [], ◌∷◌, ◌++◌, Option, none, some, Bytes,
  bytes_eq, codes, is_empty, has_prefix, leb, ◌==◌, if◌then◌else◌, Result, ok, err,
}
use tmux_pane_control.Prelude.Int64.{leb64}
use tmux_pane_control.Prelude.Decimal.{itoa}
use tmux_pane_control.Textnorm.{split_lines}
use tmux_pane_control.Tmuxctl.Port.{PortError, pane_missing, key_rejected, port_failed}

-- `Opts`
pub record Opts : Type 0 where
  pub socket_path : Bytes
  pub socket_name : Bytes

-- What a run of a command leaves: its output, its error output, and the text of the error of `Run`.
pub record Execution : Type 0 where
  pub stdout : Bytes
  pub stderr : Bytes
  pub failure : Option Bytes

-- tmux at one moment, by the arguments of the command.
abbrev pub Tmux : Type 0
Tmux = List Bytes → Execution

-- `strings.Contains(s, sub)`
unfoldable pub contains : Bytes → Bytes → Bool
contains [] sub = is_empty sub
contains (c ∷ cs) sub = has_prefix (c ∷ cs) sub || contains cs sub

abbrev pub is_space : ℕ → Bool
is_space c = c == 32 || (leb 9 c && leb c 13)

unfoldable pub trim_left_space : Bytes → Bytes
trim_left_space [] = []
trim_left_space (c ∷ cs) = let rest = trim_left_space cs in if is_space c then rest else c ∷ cs

unfoldable pub trim_right_space : Bytes → Bytes
trim_right_space [] = []
trim_right_space (c ∷ cs) =
    let rest = trim_right_space cs in if is_space c && is_empty rest then [] else c ∷ rest

-- `strings.TrimSpace`, for ASCII white space.
unfoldable pub trim_space : Bytes → Bytes
trim_space s = trim_right_space (trim_left_space s)

-- `strings.TrimRight(s, "\n")`
unfoldable pub trim_newlines : Bytes → Bytes
trim_newlines [] = []
trim_newlines (c ∷ cs) =
    let rest = trim_newlines cs in if c == b'\n' && is_empty rest then [] else c ∷ rest

abbrev pub option_if : Bool → List Bytes → List Bytes
option_if true args = args
option_if false args = []

-- `cmd`: the arguments behind `tmux`.
unfoldable pub cmd : Opts → List Bytes → List Bytes
cmd opts args =
    option_if (not (is_empty opts.socket_path)) (codes "-S" ∷ opts.socket_path ∷ [])
    ++ (option_if (not (is_empty opts.socket_name)) (codes "-L" ∷ opts.socket_name ∷ []) ++ args)

-- `fmt.Errorf(what + ": %w: %s", err, strings.TrimSpace(stderr))`
unfoldable pub failed_text : Bytes → Bytes → Bytes → Bytes
failed_text what e stderr = what ++ (codes ": " ++ (e ++ (codes ": " ++ trim_space stderr)))

-- What `ListPanes` makes of the output.
unfoldable pub parse_panes : Bytes → List Bytes
parse_panes stdout =
    if is_empty (trim_newlines stdout) then [] else split_lines (trim_newlines stdout)

abbrev pub list_args : Opts → List Bytes
list_args opts = cmd opts (codes "list-panes" ∷ codes "-a" ∷ codes "-F" ∷ codes "#{pane_id}" ∷ [])

-- `ListPanes`
unfoldable pub list_panes : Opts → Tmux → Result PortError (List Bytes)
list_panes opts tmux =
    let x = tmux (list_args opts) in
    elim x.failure [
      | some e ↦ err (port_failed (failed_text (codes "tmux list-panes") e x.stderr))
      | none ↦ ok (parse_panes x.stdout)
    ]

-- `isPaneMissingStderr`
unfoldable pub is_pane_missing_stderr : Bytes → Bool
is_pane_missing_stderr s =
    contains s (codes "can't find pane")
    || contains s (codes "no such pane")
    || contains s (codes "pane not found")

-- The error path that the calls share.
unfoldable pub run_error : Bytes → Bytes → Bytes → PortError
run_error what e stderr =
    if is_pane_missing_stderr stderr then pane_missing else port_failed (failed_text what e stderr)

abbrev pub text_args : Opts → Bytes → Bytes → List Bytes
text_args opts id text =
    cmd opts (codes "send-keys" ∷ codes "-l" ∷ codes "-t" ∷ id ∷ codes "--" ∷ text ∷ [])

abbrev pub enter_args : Opts → Bytes → List Bytes
enter_args opts id =
    cmd opts (codes "send-keys" ∷ codes "-t" ∷ id ∷ codes "--" ∷ codes "Enter" ∷ [])

-- The second half of `SendText`.
unfoldable pub send_enter : Opts → Tmux → Bytes → Bool → Result PortError (Unit {0})
unfolding run_error
send_enter opts tmux id false = ok tt
send_enter opts tmux id true =
    let x = tmux (enter_args opts id) in
    elim x.failure [
      | some e ↦ err (run_error (codes "tmux send-keys Enter") e x.stderr)
      | none ↦ ok tt
    ]

-- `SendText`; `tmux` is at its first command and `tmux'` at its second.
unfoldable pub send_text : Opts → Tmux → Tmux → Bytes → Bytes → Bool → Result PortError (Unit {0})
unfolding run_error send_enter
send_text opts tmux tmux' id text enter =
    let x = tmux (text_args opts id text) in
    elim x.failure [
      | some e ↦ err (run_error (codes "tmux send-keys -l") e x.stderr)
      | none ↦ send_enter opts tmux' id enter
    ]

-- The loop over the keys.
unfoldable pub escape_keys : List Bytes → List Bytes
escape_keys [] = []
escape_keys (k ∷ ks) = (if bytes_eq k (codes ";") then codes "\\;" else k) ∷ escape_keys ks

abbrev pub key_args : Opts → Bytes → List Bytes → List Bytes
key_args opts id keys =
    cmd opts ((codes "send-keys" ∷ codes "-t" ∷ id ∷ codes "--" ∷ []) ++ escape_keys keys)

unfoldable pub is_key_rejected : Bytes → Bool
is_key_rejected s =
    contains s (codes "unknown key")
    || contains s (codes "invalid key")
    || contains s (codes "bad key")

-- The error path of `SendKeys`; a rejected key wraps `ErrInvalidKey`.
unfoldable pub keys_run_error : Bytes → Bytes → PortError
keys_run_error e stderr =
    if is_pane_missing_stderr stderr
    then pane_missing
    else if is_key_rejected stderr
    then key_rejected (codes "invalid key token: " ++ trim_space stderr)
    else port_failed (failed_text (codes "tmux send-keys") e stderr)

-- `SendKeys`
unfoldable pub send_keys : Opts → Tmux → Bytes → List Bytes → Result PortError (Unit {0})
unfolding keys_run_error
send_keys opts tmux id [] = err (port_failed (codes "send-keys: no keys"))
send_keys opts tmux id (k ∷ ks) =
    let x = tmux (key_args opts id (k ∷ ks)) in
    elim x.failure [ some e ↦ err (keys_run_error e x.stderr) | none ↦ ok tt ]

abbrev pub scrollback_args : Opts → Bytes → ℕ → List Bytes
scrollback_args opts id lines = cmd opts (
    codes "capture-pane"
    ∷ codes "-p"
    ∷ codes "-S"
    ∷ (b'-' ∷ itoa lines)
    ∷ codes "-E"
    ∷ codes "-1"
    ∷ codes "-t"
    ∷ id
    ∷ [])

-- `CaptureScrollback`; `lines` is an int.
unfoldable pub capture_scrollback : Opts → Tmux → Bytes → ℕ → Result PortError Bytes
unfolding run_error
capture_scrollback opts tmux id lines =
    let x = tmux (scrollback_args opts id lines) in
    let captured : Result PortError Bytes = elim x.failure [
      | some e ↦ err (run_error (codes "tmux capture-pane scrollback") e x.stderr)
      | none ↦ ok x.stdout
    ] in
    if leb64 lines 0 then ok [] else captured

abbrev pub capture_args : Opts → Bytes → List Bytes
capture_args opts id = cmd opts (codes "capture-pane" ∷ codes "-p" ∷ codes "-t" ∷ id ∷ [])

-- The error path of `CapturePane`, with tests of its own.
unfoldable pub capture_error : Bytes → Bytes → PortError
capture_error e stderr =
    if contains stderr (codes "can't find pane") || contains stderr (codes "no such pane")
    then pane_missing
    else port_failed (failed_text (codes "tmux capture-pane") e stderr)

-- `CapturePane`
unfoldable pub capture_pane : Opts → Tmux → Bytes → Result PortError Bytes
unfolding capture_error
capture_pane opts tmux id =
    let x = tmux (capture_args opts id) in
    elim x.failure [ some e ↦ err (capture_error e x.stderr) | none ↦ ok x.stdout ]
