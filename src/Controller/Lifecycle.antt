-- ===== src/Controller/Lifecycle.antt =====
-- internal/controller/controller.go: the making, the start and the stop of a controller. The goroutine of
-- `drain` ends when the port closes its channel, which the model is told.
use tmux_pane_control.Prelude.{
  ℕ, ◌≡◌, refl, Bool, true, false, not, ◌&&◌, Option, none, some, Bytes, if◌then◌else◌, Bool-cases,
  inl, inr,
}
use tmux_pane_control.Store
use tmux_pane_control.Controller.{Controller}

-- `NewWithCapacity`; the instance's name is random.
abbrev pub new_with_capacity : ℕ → Bytes → Controller
new_with_capacity capacity instance_id = record {
  store = Store.new capacity instance_id;
  lost = false;
}

-- `New`
abbrev pub new : Bytes → Controller
new instance_id = new_with_capacity Store.default_capacity instance_id

-- `startOnce` with its error, whether `cancel` and `done` are set, whether the context is cancelled, and
-- whether `done` is closed.
pub record Lifecycle : Type 0 where
  pub start_done : Bool
  pub start_err : Option Bytes
  pub has_cancel : Bool
  pub has_done : Bool
  pub is_cancelled : Bool
  pub drained : Bool

abbrev pub unstarted : Lifecycle
unstarted = record {
  start_done = false;
  start_err = none;
  has_cancel = false;
  has_done = false;
  is_cancelled = false;
  drained = false;
}

-- `Start`, on what `Subscribe` returns, an error's text or none; the new state, what `Start` returns, and
-- whether `Subscribe` was called.
unfoldable pub start : Option Bytes → Lifecycle → Lifecycle × Option Bytes × Bool
start subscribe_err l = if l.start_done then (l, l.start_err, false) else elim subscribe_err [
  | some e ↦ (
    record l { start_done = true; has_cancel = true; is_cancelled = true; start_err = some e },
    some e,
    true,
  )
  | none ↦ (record l { start_done = true; has_cancel = true; has_done = true }, l.start_err, true)
]

-- `Stop`: the new state, and whether it returns; else it waits for `done`.
unfoldable pub stop : Lifecycle → Lifecycle × Bool
stop l = (
  record l { is_cancelled = if l.has_cancel then true else l.is_cancelled },
  not (l.has_done && not l.drained),
)

started-again :
    (e' e : Option Bytes) (l : Lifecycle)
    → l.start_done ≡ false
    → start e' (start e l).0 ≡ ((start e l).0, (start e l).1, false)
unfolding start
started-again e' (some e) l h = rw h refl
started-again e' none l h = rw h refl

-- A second `Start` changes nothing, calls no `Subscribe`, and returns what the first one returned.
start-again :
    (e' e : Option Bytes) (l : Lifecycle)
    → start e' (start e l).0 ≡ ((start e l).0, (start e l).1, false)
unfolding start
start-again e' e l = elim (Bool-cases l.start_done) [
  | inl h ↦ rw h refl
  | inr h ↦ started-again e' e l h
]
