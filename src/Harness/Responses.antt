-- ===== src/Harness/Responses.antt =====
-- conformance/harness/harness.go: the responses as the scenarios read them, defined apart from the
-- program's own, and the checks of an error response. The JSON decoder is a parameter.
use tmux_pane_control.Prelude.{
  ℕ, not, List, Option, Bytes, bytes_eq, is_empty, ◌==◌, if◌then◌else◌, Result, ok, err,
}
use tmux_pane_control.Tmuxctl.Adapter.{trim_space}
use tmux_pane_control.Harness.{
  RunResult, Fatal, expected_nonzero, undecodable, code_missing, message_missing, wrong_code,
}

-- A pointer field that may be absent is an option; codes and results are plain texts here.
pub record ListResponse : Type 0 where
  pub panes : List Bytes

pub record SnapshotResponse : Type 0 where
  pub pane_id : Bytes
  pub next : Bytes
  pub text : Bytes
  pub scrollback_text : Option Bytes

pub record ReadResponse : Type 0 where
  pub pane_id : Bytes
  pub next : Bytes
  pub text : Bytes

pub record WaitResponse : Type 0 where
  pub pane_id : Bytes
  pub next : Bytes
  pub result : Bytes
  pub matched : Option Bytes
  pub exit_code : Option ℕ

pub record ErrorResponse : Type 0 where
  pub pane_id : Bytes
  pub code : Bytes
  pub message : Bytes

-- The tests of `MustError` on the decoded response.
unfoldable pub check_error : Bytes → ErrorResponse → Result Fatal ErrorResponse
check_error stdout e =
    if is_empty e.code
    then err (code_missing stdout)
    else if is_empty e.message
    then err (message_missing stdout)
    else ok e

-- `MustError`
unfoldable pub must_error :
    (Bytes → Result Bytes ErrorResponse) → RunResult → Result Fatal ErrorResponse
unfolding check_error
must_error decode r =
    if r.code == 0 then err (expected_nonzero r) else elim (decode (trim_space r.stdout)) [
      | err text ↦ err (undecodable text r.stdout)
      | ok e ↦ check_error r.stdout e
    ]

-- `AssertCode`
unfoldable pub assert_code : ErrorResponse → Bytes → Result Fatal (Unit {0})
assert_code got want =
    if not (bytes_eq got.code want) then err (wrong_code got.code want got.message) else ok tt
