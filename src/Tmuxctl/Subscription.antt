-- ===== src/Tmuxctl/Subscription.antt =====
-- internal/tmuxctl/subscribe_unix.go: the polling of the pane set, and the quoting of the shell command.
-- Whether a tracker starts is an argument; what it holds is in Tmuxctl/Lifetime.
pub mod Polls
pub mod Trackers
pub mod Quote
use tmux_pane_control.Prelude.{
  ℕ, ◌+◌, Bool, true, false, not, ◌&&◌, ◌||◌, List, [], ◌∷◌, ◌++◌, Bytes, bytes_eq, leb, ◌==◌,
  if◌then◌else◌, Result, ok, err,
}
use tmux_pane_control.Tmuxctl.Port.{PortError, PaneOutput}

abbrev pub server_lost_threshold : ℕ
server_lost_threshold = 3

-- `subscription`; `trackers` are the keys of its map.
pub record Subscription : Type 0 where
  pub trackers : List Bytes
  pub consecutive_list_failures : ℕ
  pub lost_notified : Bool

-- The subscription that `Subscribe` starts with.
abbrev pub subscribed : Subscription
subscribed = record { trackers = []; consecutive_list_failures = 0; lost_notified = false }

unfoldable pub is_member : Bytes → List Bytes → Bool
is_member p [] = false
is_member p (q ∷ qs) = bytes_eq p q || is_member p qs

-- The loop over the seen panes; `starts` says whose tracker starts. A pane that stands twice in the
-- list is seen once.
unfoldable pub start_trackers : (Bytes → Bool) → List Bytes → List Bytes → List Bytes
start_trackers starts [] trackers = trackers
start_trackers starts (p ∷ ps) trackers =
    let rest = start_trackers starts ps trackers in
    let rest' = start_trackers starts ps (trackers ++ (p ∷ [])) in
    if is_member p trackers || not (starts p) then rest else rest'

-- The loop over the trackers: those that stay, and an event for each that is stopped.
unfoldable pub stop_trackers : List Bytes → List Bytes → List Bytes × List PaneOutput
stop_trackers panes [] = ([], [])
stop_trackers panes (t ∷ ts) =
    let (kept, events) = stop_trackers panes ts in
    if is_member t panes
    then (t ∷ kept, events)
    else (kept, record { id = t; bytes = []; closed = true; server_lost = false } ∷ events)

abbrev pub lost_event : PaneOutput
lost_event = record { id = []; bytes = []; closed = false; server_lost = true }

-- The error path of `sync`.
unfoldable pub list_failed : Subscription → Subscription × List PaneOutput
list_failed s =
    let failures = s.consecutive_list_failures + 1 in
    if leb server_lost_threshold failures && not s.lost_notified
    then (record s { consecutive_list_failures = failures; lost_notified = true }, lost_event ∷ [])
    else (record s { consecutive_list_failures = failures }, [])

-- `sync`, while the context is not done: the new state and the events that it sends.
unfoldable pub sync :
    Subscription → Result PortError (List Bytes) → (Bytes → Bool) → Subscription × List PaneOutput
unfolding list_failed start_trackers stop_trackers
sync s (err e) starts = list_failed s
sync s (ok panes) starts =
    let (kept, events) = stop_trackers panes (start_trackers starts panes s.trackers) in
    (record s { trackers = kept; consecutive_list_failures = 0 }, events)

-- `shellQuote`
unfoldable pub quote_bytes : Bytes → Bytes
quote_bytes [] = []
quote_bytes (c ∷ cs) =
    (if c == b'\'' then b'\'' ∷ b'\\' ∷ b'\'' ∷ b'\'' ∷ [] else c ∷ []) ++ quote_bytes cs

unfoldable pub shell_quote : Bytes → Bytes
unfolding quote_bytes
shell_quote s = b'\'' ∷ (quote_bytes s ++ (b'\'' ∷ []))
