-- ===== src/Tmuxctl/Fake.antt =====
-- internal/tmuxctl/fake.go: the port of the program's tests. A method that locks is one step, and an `Emit`
-- is one step too, so that no subscription ends while its events are sent.
pub mod Delivered
use tmux_pane_control.Prelude.{
  ℕ, suc, Bool, true, false, List, [], ◌∷◌, ◌++◌, Option, none, some, Bytes, bytes_eq, ◌==◌,
  if◌then◌else◌, Result, ok, err,
}
use tmux_pane_control.Prelude.Int64.{leb64}
use tmux_pane_control.Prelude.Dict.{lookup}
use tmux_pane_control.Tmuxctl.Port.{Port, PortError, pane_missing, PaneOutput}
use tmux_pane_control.Tmuxctl.Subscription.{is_member}

pub record FakeSendText : Type 0 where
  pub id : Bytes
  pub text : Bytes
  pub enter : Bool

pub record FakeSendKeys : Type 0 where
  pub id : Bytes
  pub keys : List Bytes

-- A subscriber's channel, by a number that tells it from the others, with all that was sent on it.
pub record Channel : Type 0 where
  pub number : ℕ
  pub sent : List PaneOutput

-- `Fake`; a nil map or function is `none`.
pub record Fake : Type 0 where
  pub panes : List Bytes
  pub screens : Option (List (Bytes × Bytes))
  pub scrollback : Option (List (Bytes × Bytes))
  pub list_panes_fn : Option (Result PortError (List Bytes))
  pub capture_pane_fn : Option (Bytes → Result PortError Bytes)
  pub capture_scroll_fn : Option (Bytes → ℕ → Result PortError Bytes)
  pub send_text_fn : Option (Bytes → Bytes → Bool → Result PortError (Unit {0}))
  pub send_keys_fn : Option (Bytes → List Bytes → Result PortError (Unit {0}))
  pub subs : List Channel
  pub next_number : ℕ
  pub sent_text : List FakeSendText
  pub sent_keys : List FakeSendKeys

-- `ListPanes`
unfoldable pub list_panes : Fake → Result PortError (List Bytes)
list_panes f = elim f.list_panes_fn [ some r ↦ r | none ↦ ok f.panes ]

abbrev pub entry : Bytes → Option (List (Bytes × Bytes)) → Option Bytes
entry id none = none
entry id (some m) = lookup id m

-- The look into a map and then into the panes.
unfoldable pub preset : Fake → Option (List (Bytes × Bytes)) → Bytes → Result PortError Bytes
preset f m id = elim (entry id m) [
  | some text ↦ ok text
  | none ↦ if is_member id f.panes then ok [] else err pane_missing
]

-- `CapturePane`
unfoldable pub capture_pane : Fake → Bytes → Result PortError Bytes
unfolding preset
capture_pane f id = elim f.capture_pane_fn [ some fn ↦ fn id | none ↦ preset f f.screens id ]

-- `CaptureScrollback`; `lines` is an int.
unfoldable pub capture_scrollback : Fake → Bytes → ℕ → Result PortError Bytes
unfolding preset
capture_scrollback f id lines = elim f.capture_scroll_fn [
  | some fn ↦ fn id lines
  | none ↦ if leb64 lines 0 then ok [] else preset f f.scrollback id
]

-- `Subscribe`, and the end of its context.
unfoldable pub subscribe : Fake → Fake × ℕ
subscribe f = (
  record f {
    subs = f.subs ++ (record { number = f.next_number; sent = [] } ∷ []);
    next_number = suc f.next_number;
  },
  f.next_number,
)

unfoldable pub remove : ℕ → List Channel → List Channel
remove k [] = []
remove k (c ∷ cs) = let rest = remove k cs in if c.number == k then cs else c ∷ rest

abbrev pub unsubscribe : ℕ → Fake → Fake
unsubscribe k f = record f { subs = remove k f.subs }

unfoldable pub send_all : PaneOutput → List Channel → List Channel
send_all ev [] = []
send_all ev (c ∷ cs) = record c { sent = c.sent ++ (ev ∷ []) } ∷ send_all ev cs

-- `Emit`, `EmitClosed` and `EmitServerLost`
abbrev pub deliver : Fake → PaneOutput → Fake
deliver f ev = record f { subs = send_all ev f.subs }

abbrev pub emit : Fake → Bytes → Bytes → Fake
emit f id bytes = deliver f (record { id = id; bytes = bytes; closed = false; server_lost = false })

abbrev pub emit_closed : Fake → Bytes → Fake
emit_closed f id = deliver f (record { id = id; bytes = []; closed = true; server_lost = false })

abbrev pub emit_server_lost : Fake → Fake
emit_server_lost f = deliver f (record { id = []; bytes = []; closed = false; server_lost = true })

-- `SendText` and `SendKeys`: they record the call whatever it returns.
unfoldable pub send_text : Fake → Bytes → Bytes → Bool → Fake × Result PortError (Unit {0})
send_text f id text enter = (
  record f { sent_text = f.sent_text ++ (record { id = id; text = text; enter = enter } ∷ []) },
  elim f.send_text_fn [ some fn ↦ fn id text enter | none ↦ ok tt ],
)

unfoldable pub send_keys : Fake → Bytes → List Bytes → Fake × Result PortError (Unit {0})
send_keys f id keys = (
  record f { sent_keys = f.sent_keys ++ (record { id = id; keys = keys } ∷ []) },
  elim f.send_keys_fn [ some fn ↦ fn id keys | none ↦ ok tt ],
)

-- The fake as a port, at one moment.
abbrev pub fake_port : Fake → Port
unfolding list_panes capture_pane capture_scrollback send_text send_keys
fake_port f = record {
  list_panes = list_panes f;
  capture_pane = capture_pane f;
  capture_scrollback = capture_scrollback f;
  send_text = λ id text enter. (send_text f id text enter).1;
  send_keys = λ id keys. (send_keys f id keys).1;
}
