-- ===== src/Tmuxctl/Adapter/Implements.antt =====
-- internal/tmuxctl: the adapter as the port that the controller uses.
use tmux_pane_control.Tmuxctl.Port.{Port}
use tmux_pane_control.Tmuxctl.Adapter
use tmux_pane_control.Tmuxctl.Adapter.{Opts, Tmux}

-- `NewAdapter`; `tmux'` is tmux at the second command of a call that runs two.
abbrev pub adapter_port : Opts → Tmux → Tmux → Port
adapter_port opts tmux tmux' = record {
  list_panes = Adapter.list_panes opts tmux;
  capture_pane = λ id. Adapter.capture_pane opts tmux id;
  capture_scrollback = λ id lines. Adapter.capture_scrollback opts tmux id lines;
  send_text = λ id text enter. Adapter.send_text opts tmux tmux' id text enter;
  send_keys = λ id keys. Adapter.send_keys opts tmux id keys;
}
