-- ===== src/Ipc/Dispatch/Answers.antt =====
-- What a dispatched request is answered, and which waits reach the loop.
use tmux_pane_control.Prelude.{ℕ, ◌<◌, ◌≢◌, [], ◌∷◌, Option, none, Bytes}
use tmux_pane_control.Controller.Wait.{WaitMode, sentinel, regex, quiescence, unsupported}
use tmux_pane_control.Ipc.Dispatch.{Request}

-- The largest number of milliseconds whose nanoseconds an int64 holds.
abbrev pub max_ms : ℕ
max_ms = 9223372036854

abbrev pub Everywhere : (ℕ → Type 0) → Bytes → Type 0
Everywhere P [] = Unit
Everywhere P (c ∷ cs) = P c × Everywhere P cs

-- A byte that may stand in a sentinel's token.
abbrev pub IsTokenByte : ℕ → Type 0
IsTokenByte c = (c ≢ b':') × (c ≢ b'\n')

-- When the controller accepts the mode of a prepared request.
abbrev pub Accepts : Request → WaitMode → Type 0
Accepts req sentinel = (req.sentinel_token ≢ []) × Everywhere IsTokenByte req.sentinel_token
Accepts req quiescence = (0 < req.quiet_ms) × (req.quiet_ms < req.timeout_ms)
Accepts req regex = Unit
Accepts req unsupported = ⊥

-- A regex request carries a pattern, and each request one of the three modes.
abbrev pub HasPattern {ℓ} : {A : Type ℓ} → WaitMode → Option A → Type 0
HasPattern regex none = ⊥
HasPattern unsupported find = ⊥
HasPattern mode find = Unit
