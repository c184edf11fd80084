-- ===== src/Domain.antt =====
-- internal/domain: error codes, error responses and the response shapes. A pointer field that may be
-- absent is an option.
use tmux_pane_control.Prelude.{ℕ, Option, List, ◌++◌, Bytes, codes, is_empty, if◌then◌else◌, not}

-- `ErrorCode`
pub data ErrorCode : Type 0 where
  missing_after invalid_after pane_not_found pane_closed timeout : ErrorCode
  invalid_key invalid_args invalid_regex : ErrorCode

-- The string of each code.
unfoldable pub code_text : ErrorCode → Bytes
code_text missing_after = codes "MISSING_AFTER"
code_text invalid_after = codes "INVALID_AFTER"
code_text pane_not_found = codes "PANE_NOT_FOUND"
code_text pane_closed = codes "PANE_CLOSED"
code_text timeout = codes "TIMEOUT"
code_text invalid_key = codes "INVALID_KEY"
code_text invalid_args = codes "INVALID_ARGS"
code_text invalid_regex = codes "INVALID_REGEX"

-- `ErrorResponse`
pub record ErrorResponse : Type 0 where
  pub pane_id : Bytes
  pub code : ErrorCode
  pub message : Bytes

-- `(*ErrorResponse).Error`
unfoldable pub error_text : ErrorResponse → Bytes
error_text e =
    if not (is_empty e.pane_id)
    then code_text e.code ++ (codes " [" ++ (e.pane_id ++ (codes "]: " ++ e.message)))
    else code_text e.code ++ (codes ": " ++ e.message)

pub record ListResponse : Type 0 where
  pub panes : List Bytes

pub record SnapshotResponse : Type 0 where
  pub pane_id : Bytes
  pub next : Bytes
  pub scrollback_text : Option Bytes
  pub text : Bytes

pub record ReadResponse : Type 0 where
  pub pane_id : Bytes
  pub next : Bytes
  pub text : Bytes

pub data WaitResult : Type 0 where
  wait_sentinel wait_regex wait_quiescence : WaitResult

pub record WaitResponse : Type 0 where
  pub pane_id : Bytes
  pub next : Bytes
  pub result : WaitResult
  pub matched : Option Bytes
  pub exit_code : Option ℕ

-- What a handler returns beside its response: a command-level error, or any other error by its text.
pub data HandlerError : Type 0 where
  command : ErrorResponse → HandlerError
  runtime : Bytes → HandlerError
