-- ===== src/Cli/Daemon/Shutdown.antt =====
-- internal/cli/daemon.go, `runDaemon` behind the controller's start: requests to shut down, `Serve`, the
-- controller's stop and the two deadlines, as a step relation over a clock of milliseconds.
pub mod Bounded
use tmux_pane_control.Prelude.{
  ℕ, suc, ◌+◌, ◌<◌, ◌≡◌, Bool, true, false, Option, none, some, if◌then◌else◌,
}

-- `shutdownDeadline` and `hardExitDeadline`
abbrev pub shutdown_deadline : ℕ
shutdown_deadline = 2000

abbrev pub hard_exit_deadline : ℕ
hard_exit_deadline = 3000

-- Where `runDaemon` stands: in `Serve`, in `stopWithDeadline` since a time and with the exit code that is
-- due behind it, or gone.
pub data Doing : Type 0 where
  serving : Doing
  stopping : ℕ → ℕ → Doing
  exited : ℕ → Doing

-- `watching`: the goroutine waits for a signal or the loss of the server. `armed_at`: when the timer of
-- the hard exit was set, which also cancels the context.
pub record Process : Type 0 where
  pub now : ℕ
  pub watching : Bool
  pub server_lost : Bool
  pub armed_at : Option ℕ
  pub doing : Doing

abbrev pub launched : Process
launched = record {
  now = 0;
  watching = true;
  server_lost = false;
  armed_at = none;
  doing = serving;
}

abbrev pub or_now : Option ℕ → ℕ → ℕ
or_now none n = n
or_now (some t) n = t

-- `requestShutdown`: the timer is set by the first call only.
unfoldable pub request_shutdown : Process → Process
request_shutdown p = record p { armed_at = some (or_now p.armed_at p.now) }

-- A timer that is set runs at its time: the clock does not go on while one is due.
abbrev pub HardPending : Option ℕ → ℕ → Type 0
HardPending none now = Unit
HardPending (some t) now = now < t + hard_exit_deadline

abbrev pub StopPending : Doing → ℕ → Type 0
StopPending serving now = Unit
StopPending (stopping t n) now = now < t + shutdown_deadline
StopPending (exited n) now = ⊥

abbrev pub Alive : Doing → Type 0
Alive serving = Unit
Alive (stopping t n) = Unit
Alive (exited n) = ⊥

-- `Serve` returns without an error only behind a request, as Ipc/Server/Life shows of its own flag.
pub data Step (p : Process) : Process → Type 0 where
  op_shutdown : Alive p.doing → Step p (request_shutdown p)
  signal :
      Alive p.doing → p.watching ≡ true → Step p (request_shutdown (record p { watching = false }))
  server_loss :
      Alive p.doing
      → p.watching ≡ true
      → Step p (request_shutdown (record p { watching = false; server_lost = true }))
  serve_nil :
      (t : ℕ)
      → p.doing ≡ serving
      → p.armed_at ≡ some t
      → Step p (record p { doing = stopping p.now (if p.server_lost then 1 else 0) })
  serve_error : p.doing ≡ serving → Step p (record p { doing = stopping p.now 1 })
  stop_returns : (t n : ℕ) → p.doing ≡ stopping t n → Step p (record p { doing = exited n })
  stop_expires :
      (t n : ℕ)
      → p.doing ≡ stopping t n
      → p.now ≡ t + shutdown_deadline
      → Step p (record p { doing = exited 1 })
  hard_exit :
      (t : ℕ)
      → Alive p.doing
      → p.armed_at ≡ some t
      → p.now ≡ t + hard_exit_deadline
      → Step p (record p { doing = exited 1 })
  tick :
      HardPending p.armed_at p.now
      → StopPending p.doing p.now
      → Step p (record p { now = suc p.now })

pub data Reach : Process → Type 0 where
  start : Reach launched
  later : {p q : Process} → Reach p → Step p q → Reach q
