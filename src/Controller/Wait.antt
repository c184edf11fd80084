-- ===== src/Controller/Wait.antt =====
-- internal/controller/wait.go. The loop runs against a schedule: for each round, what other goroutines do
-- to the store before each of its critical sections, the clock at each call of `time.Now`, and which
-- channel its `select` receives from.
pub mod Matched
pub mod Rounds
pub mod Wakes
pub mod Bounded
pub mod Ends
pub mod Causes
pub mod Latest
pub mod Quiet
pub mod Watcher
use tmux_pane_control.Prelude.{
  ℕ, ◌+◌, ◌-◌, ◌/◌, ◌%◌, Bool, true, false, not, ◌&&◌, ◌||◌, List, [], ◌∷◌, ◌++◌, Option, none,
  some, Bytes, codes, is_empty, leb, ◌==◌, if◌then◌else◌, Result, ok, err,
}
use tmux_pane_control.Prelude.Int64.{two63, two64, leb64, ltb64}
use tmux_pane_control.Prelude.Decimal.{itoa}
use tmux_pane_control.Token.{
  Json, StoreError, pane_unknown, token_malformed, token_wrong_instance, token_wrong_pane,
  token_evicted,
}
use tmux_pane_control.Store
use tmux_pane_control.Store.{Store, PaneWatcher}
use tmux_pane_control.Store.Spec.{Op}
use tmux_pane_control.Store.Refine.{apply_all}
use tmux_pane_control.Textnorm.{strip_ansi_and_cr, has_byte}
use tmux_pane_control.Waiter.{SentinelMatch, RegexMatch, match_sentinel, match_regex}
use tmux_pane_control.Domain.{
  ErrorCode, missing_after, pane_closed, timeout, invalid_args, ErrorResponse, WaitResponse,
  wait_sentinel, wait_regex, wait_quiescence,
}
use tmux_pane_control.Controller.{pane_not_found_response, invalid_after_response}

-- `WaitMode`; `unsupported` is any other number.
pub data WaitMode : Type 0 where
  sentinel regex quiescence unsupported : WaitMode

-- `WaitRequest`. Durations are int64 nanoseconds; a compiled regex is its `FindIndex`.
pub record WaitRequest : Type 0 where
  pub pane_id : Bytes
  pub after : Bytes
  pub timeout_ns : ℕ
  pub mode : WaitMode
  pub sentinel_token : Bytes
  pub quiet_window : ℕ
  pub regex_find : Option (Bytes → Option (ℕ × ℕ))

-- `validateSentinelToken`; `some` is the error's text.
unfoldable pub validate_sentinel_token : Bytes → Option Bytes
validate_sentinel_token t =
    if is_empty t
    then some (codes "sentinel --token is required")
    else if has_byte b':' t || has_byte b'\n' t
    then some (codes "sentinel --token must not contain ':' or newline")
    else none

abbrev pub rejected : WaitRequest → ErrorCode → Bytes → Option ErrorResponse
rejected req code message = some (record { pane_id = req.pane_id; code = code; message = message })

-- `d.Milliseconds()` of a positive duration, printed.
abbrev pub milliseconds : ℕ → Bytes
milliseconds d = itoa (d / 1000000)

-- The switch over the modes in front of the loop.
unfoldable pub validate_mode : WaitMode → WaitRequest → Option ErrorResponse
validate_mode sentinel req = elim (validate_sentinel_token req.sentinel_token) [
  | none ↦ none
  | some text ↦ rejected req invalid_args text
]
validate_mode quiescence req =
    if leb64 req.quiet_window 0
    then rejected req invalid_args (codes "quiescence mode requires a positive --ms")
    else if leb64 req.timeout_ns req.quiet_window
    then rejected req invalid_args (
        codes "quiescence requires --ms ("
        ++ (milliseconds req.quiet_window
            ++ (codes "ms) < --timeout-ms (" ++ (milliseconds req.timeout_ns ++ codes "ms)"))))
    else none
validate_mode regex req = elim req.regex_find [
  | none ↦ rejected req invalid_args (codes "regex mode requires a compiled --pattern")
  | some find ↦ none
]
validate_mode unsupported req = rejected req invalid_args (codes "unsupported --for mode")

-- The checks of `Wait` in front of its loop; `none` if all pass.
unfoldable pub validate : WaitRequest → Option ErrorResponse
validate req =
    if is_empty req.after
    then rejected req missing_after (codes "wait requires --after; use snapshot to bootstrap")
    else if leb64 req.timeout_ns 0
    then rejected req invalid_args (codes "wait requires a positive --timeout-ms")
    else validate_mode req.mode req

-- `mapWaitStoreError`; `Store.Read` returns no other error, so its last case does not arise.
unfoldable pub map_wait_store_error : Bytes → StoreError → ErrorResponse
map_wait_store_error id pane_unknown = pane_not_found_response id
map_wait_store_error id token_malformed = invalid_after_response id
map_wait_store_error id token_wrong_instance = invalid_after_response id
map_wait_store_error id token_wrong_pane = invalid_after_response id
map_wait_store_error id token_evicted = invalid_after_response id

-- What `select` receives from: the watcher's channel, the quiet timer, the timeout, or the context.
pub data Wake : Type 0 where
  signalled quiet_elapsed timed_out cancelled : Wake

pub record Round : Type 0 where
  pub before : List Op
  pub between : List Op
  pub read_at : ℕ
  pub meanwhile : List Op
  pub since_at : ℕ
  pub minting : List Op
  pub mint_at : ℕ
  pub waiting : List Op
  pub wake : Wake

-- How a round ends; `continues` is the next round of the loop, or, of the whole wait, that it is still
-- pending at the end of the schedule. `aborted` is the context's error.
pub data Outcome : Type 0 where
  matched : WaitResponse → Outcome
  failed : ErrorResponse → Outcome
  aborted : Outcome
  continues : Outcome

abbrev pub closed_response : Bytes → ErrorResponse
closed_response id = record {
  pane_id = id;
  code = pane_closed;
  message = codes "pane was destroyed while wait was pending";
}

abbrev pub timeout_response : Bytes → ErrorResponse
timeout_response id = record { pane_id = id; code = timeout; message = codes "wait timed out" }

-- The error path of a round's read.
unfoldable pub read_failed : Bool → Bytes → StoreError → ErrorResponse
unfolding map_wait_store_error
read_failed known id pane_unknown =
    if known then closed_response id else map_wait_store_error id pane_unknown
read_failed known id e = map_wait_store_error id e

-- A receive from the watcher's channel takes its signal.
unfoldable pub take_signal : ℕ → List PaneWatcher → List PaneWatcher
take_signal k [] = []
take_signal k (w ∷ ws) = (if w.key == k then record w { pending = false } else w) ∷ take_signal k ws

abbrev pub received : ℕ → Store → Store
received k s = record s { watchers = take_signal k s.watchers }

unfoldable pub woken : Bytes → ℕ → Store → Wake → Store × Outcome
unfolding take_signal
woken id k s signalled = (received k s, continues)
woken id k s quiet_elapsed = (s, continues)
woken id k s timed_out = (s, failed (timeout_response id))
woken id k s cancelled = (s, aborted)

-- An int64 time, moved up so that the order of the numbers is that of the times.
abbrev pub instant : ℕ → ℕ
instant t = (t + two63) % two64

-- `ref`: the checkpoint, or the last append if that is later. `none` is the zero time.
unfoldable pub reference : Option ℕ → Option ℕ → Option ℕ
reference checkpoint none = checkpoint
reference none (some la) = some la
reference (some t) (some la) = some (if ltb64 t la then la else t)

-- `time.Since(ref) >= req.QuietWindow`
unfoldable pub is_quiet : Option ℕ → ℕ → ℕ → Bool
is_quiet none now window = true
is_quiet (some t) now window = leb (instant t + window) (instant now)

module _ (json : Json) (req : WaitRequest) (k : ℕ) where
  abbrev select : Round → Store → Store × Outcome
  select r s = woken req.pane_id k (apply_all json s r.waiting) r.wake

  -- The switch over the modes in a round, on what the store's `Read` returned.
  unfoldable pub evaluate : WaitMode → Option ℕ → Round → Store → Bytes → Bytes → Store × Outcome
  evaluate sentinel checkpoint r s bytes next =
      elim (match_sentinel (strip_ansi_and_cr bytes) req.sentinel_token) [
        | some m ↦ (
          s,
          matched (record {
            pane_id = req.pane_id;
            next = next;
            result = wait_sentinel;
            matched = some m.matched;
            exit_code = some m.exit_code;
          }),
        )
        | none ↦ select r s
      ]
  evaluate regex checkpoint r s bytes next = elim req.regex_find [
    | none ↦ select r s
    | some find ↦ elim (match_regex (strip_ansi_and_cr bytes) find) [
      | some m ↦ (
        s,
        matched (record {
          pane_id = req.pane_id;
          next = next;
          result = wait_regex;
          matched = some m.matched;
          exit_code = none;
        }),
      )
      | none ↦ select r s
    ]
  ]
  evaluate quiescence checkpoint r s bytes next =
      let seen = apply_all json s r.meanwhile in
      let ref = reference checkpoint (Store.last_append seen req.pane_id) in
      let (minted, token) =
        Store.new_token json (apply_all json seen r.minting) req.pane_id r.mint_at in
      if is_quiet ref r.since_at req.quiet_window
      then (
        minted,
        matched (record {
          pane_id = req.pane_id;
          next = token;
          result = wait_quiescence;
          matched = none;
          exit_code = none;
        }),
      )
      else select r seen
  evaluate unsupported checkpoint r s bytes next = select r s

  -- One round of the loop; the flag is `paneKnownAtStart`.
  unfoldable pub round : Option ℕ → Bool → Store → Round → Store × Outcome
  round checkpoint known s r =
      let first = apply_all json s r.before in
      let second = apply_all json first r.between in
      elim (Store.read json first second req.pane_id req.after r.read_at) [
        | err e ↦ (second, failed (read_failed known req.pane_id e))
        | ok (bytes, next) ↦ evaluate req.mode checkpoint r second bytes next
      ]

  -- The loop, over the rounds of a schedule.
  unfoldable pub loop : Option ℕ → Bool → Store → List Round → Store × Outcome
  loop checkpoint known s [] = (s, continues)
  loop checkpoint known s (r ∷ rs) =
      let (s', o) = round checkpoint known s r in
      let rest = loop checkpoint true s' rs in
      elim o [
        | continues ↦ rest
        | matched w ↦ (s', matched w)
        | failed e ↦ (s', failed e)
        | aborted ↦ (s', aborted)
      ]

-- `checkpointAt`: the zero time if the token does not decode.
unfoldable pub checkpoint_at : Json → Bytes → Option ℕ
checkpoint_at json after = elim (Store.token_time json after) [ err e ↦ none | ok t ↦ some t ]

-- The deferred `cancel`, which runs when the wait returns.
unfoldable pub deferred : ℕ → Store × Outcome → Store × Outcome
deferred k (s, continues) = (s, continues)
deferred k (s, o) = (Store.cancel s k, o)

-- `Wait`
unfoldable pub wait : Json → WaitRequest → Store → List Round → Store × Outcome
wait json req s rs =
    let (s', k) = Store.watch s req.pane_id in
    let ended = deferred k (loop json req k (checkpoint_at json req.after) false s' rs) in
    elim (validate req) [ some e ↦ (s, failed e) | none ↦ ended ]
