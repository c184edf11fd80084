-- ===== src/Controller.antt =====
-- internal/controller: the command handlers over a port and the store, and the event loop that feeds
-- the store.
pub mod Wait
pub mod Drain
pub mod Handlers
pub mod Lifecycle
use tmux_pane_control.Prelude.{
  ℕ, Bool, true, false, List, [], ◌∷◌, ◌++◌, Option, none, some, Bytes, codes, if◌then◌else◌,
  Result, ok, err,
}
use tmux_pane_control.Token.{
  Json, StoreError, pane_unknown, token_malformed, token_wrong_instance, token_wrong_pane,
  token_evicted,
}
use tmux_pane_control.Store
use tmux_pane_control.Store.{Store}
use tmux_pane_control.Textnorm.{normalize}
use tmux_pane_control.Tmuxctl.Port.{
  Port, PortError, pane_missing, key_rejected, port_failed, port_error_text, PaneOutput,
}
use tmux_pane_control.Domain.{
  ErrorCode, pane_not_found, invalid_after, invalid_key, ErrorResponse, ListResponse,
  SnapshotResponse, ReadResponse, HandlerError, command, runtime,
}

abbrev pub pane_not_found_response : Bytes → ErrorResponse
pane_not_found_response id = record {
  pane_id = id;
  code = pane_not_found;
  message = codes "pane not found";
}

abbrev pub invalid_after_response : Bytes → ErrorResponse
invalid_after_response id = record {
  pane_id = id;
  code = invalid_after;
  message = codes "checkpoint token is not valid for this pane or is no longer retained";
}

-- The switch of `Read` on the store's error.
unfoldable pub read_error : Bytes → StoreError → HandlerError
read_error id pane_unknown = command (pane_not_found_response id)
read_error id token_malformed = command (invalid_after_response id)
read_error id token_wrong_instance = command (invalid_after_response id)
read_error id token_wrong_pane = command (invalid_after_response id)
read_error id token_evicted = command (invalid_after_response id)

-- The test that the handlers of port calls make: a missing pane is a command-level error.
unfoldable pub port_error : Bytes → PortError → HandlerError
port_error id pane_missing = command (pane_not_found_response id)
port_error id (key_rejected text) = runtime text
port_error id (port_failed text) = runtime text

-- `List`; a nil slice of panes is the empty list.
unfoldable pub list_panes : Port → Result HandlerError ListResponse
list_panes port = elim port.list_panes [
  | err e ↦ err (runtime (port_error_text e))
  | ok panes ↦ ok (record { panes = panes })
]

-- `SendText`
unfoldable pub send_text : Port → Bytes → Bytes → Bool → Result HandlerError (Unit {0})
send_text port id text enter = elim (port.send_text id text enter) [
  | err e ↦ err (port_error id e)
  | ok u ↦ ok u
]

-- The tests of `SendKeys` on the port's error.
unfoldable pub keys_error : Bytes → PortError → HandlerError
keys_error id pane_missing = command (pane_not_found_response id)
keys_error id (key_rejected text) =
    command (record { pane_id = id; code = invalid_key; message = text })
keys_error id (port_failed text) = runtime text

-- `SendKeys`
unfoldable pub send_keys : Port → Bytes → List Bytes → Result HandlerError (Unit {0})
send_keys port id keys = elim (port.send_keys id keys) [
  | err e ↦ err (keys_error id e)
  | ok u ↦ ok u
]

-- The part of `Snapshot` behind the visible screen: the scrollback, if it was asked for.
unfoldable pub with_scrollback :
    Port → Bytes → Option ℕ → SnapshotResponse → Result HandlerError SnapshotResponse
with_scrollback port id none resp = ok resp
with_scrollback port id (some lines) resp = elim (port.capture_scrollback id lines) [
  | err e ↦ err (port_error id e)
  | ok sb ↦ ok (record resp { scrollback_text = some (normalize sb) })
]

module _ (json : Json) where
  -- `Read`; the store is that of its first and of its second critical section.
  unfoldable pub read : Store → Store → Bytes → Bytes → ℕ → Result HandlerError ReadResponse
  read s s' id after now = elim (Store.read json s s' id after now) [
    | err e ↦ err (read_error id e)
    | ok (bytes, next) ↦ ok (record { pane_id = id; next = next; text = normalize bytes })
  ]

  -- `Snapshot`; `before` is the port at its first call and `after` at its second.
  unfoldable pub snapshot :
      Port → Port → Store → Bytes → Option ℕ → ℕ → Store × Result HandlerError SnapshotResponse
  snapshot before after s id history_lines now = elim (before.capture_pane id) [
    | err e ↦ (s, err (port_error id e))
    | ok text ↦
        let (s', next) = Store.new_token json s id now in
        let resp : SnapshotResponse = record {
          pane_id = id;
          next = next;
          scrollback_text = none;
          text = normalize text;
        } in
        (s', with_scrollback after id history_lines resp)
  ]

-- `Controller`, as far as events change it: the store, and whether `ServerLost` is closed.
pub record Controller : Type 0 where
  pub store : Store
  pub lost : Bool

-- One round of the loop of `drain`. `lostOnce` closes the channel once: the flag stays set.
unfoldable pub drain_event : Controller → PaneOutput → ℕ → Controller
drain_event c ev now =
    if ev.server_lost
    then record c { lost = true }
    else if ev.closed
    then record c { store = Store.forget c.store ev.id }
    else record c { store = Store.append c.store ev.id ev.bytes now }

-- `drain`, over the events of the channel until it closes, each with its time.
unfoldable pub drain : Controller → List (PaneOutput × ℕ) → Controller
drain c [] = c
drain c ((ev, now) ∷ evs) = drain (drain_event c ev now) evs
