-- ===== src/Tmuxctl/Port.antt =====
-- internal/tmuxctl/port.go: the operations that the controller uses, and the events it is sent.
use tmux_pane_control.Prelude.{ℕ, Bool, List, Bytes, codes, Result}

-- The errors of a port: `ErrPaneNotFound`, an error that wraps `ErrInvalidKey`, and any other, the last
-- two with their text.
pub data PortError : Type 0 where
  pane_missing : PortError
  key_rejected : Bytes → PortError
  port_failed : Bytes → PortError

-- `err.Error()`
unfoldable pub port_error_text : PortError → Bytes
port_error_text pane_missing = codes "pane not found"
port_error_text (key_rejected text) = text
port_error_text (port_failed text) = text

-- `PaneOutput`: output of a pane, the end of a pane, or the loss of the server.
pub record PaneOutput : Type 0 where
  pub id : Bytes
  pub bytes : Bytes
  pub closed : Bool
  pub server_lost : Bool

-- `Port`, at one moment: what each call returns. `lines` is a Go int.
pub record Port : Type 0 where
  pub list_panes : Result PortError (List Bytes)
  pub capture_pane : Bytes → Result PortError Bytes
  pub capture_scrollback : Bytes → ℕ → Result PortError Bytes
  pub send_text : Bytes → Bytes → Bool → Result PortError (Unit {0})
  pub send_keys : Bytes → List Bytes → Result PortError (Unit {0})
