-- ===== src/Ipc/Dispatch.antt =====
-- internal/ipc/dispatch.go and protocol.go: one request against the controller. The JSON of a payload and
-- the compilation of a pattern are parameters.
pub mod Answers
use tmux_pane_control.Prelude.{
  ℕ, ◌*◌, ◌%◌, Bool, true, false, List, [], ◌∷◌, ◌++◌, Option, none, some, Bytes, bytes_eq, codes,
  is_empty, if◌then◌else◌, Result, ok, err,
}
use tmux_pane_control.Prelude.Int64.{two64, leb64}
use tmux_pane_control.Token.{Json}
use tmux_pane_control.Store.{Store}
use tmux_pane_control.Domain.{
  ErrorCode, missing_after, invalid_args, invalid_regex, ErrorResponse, ListResponse,
  SnapshotResponse, ReadResponse, WaitResponse, HandlerError, command, runtime,
}
use tmux_pane_control.Tmuxctl.Port.{Port}
use tmux_pane_control.Controller
use tmux_pane_control.Controller.Wait.{
  WaitMode, sentinel, regex, quiescence, WaitRequest, Round, Outcome, matched, failed, aborted,
  continues, wait,
}

-- `Request`; ints are int64 bit patterns.
pub record Request : Type 0 where
  pub op : Bytes
  pub pane : Bytes
  pub after : Bytes
  pub history_lines : ℕ
  pub has_history : Bool
  pub text : Bytes
  pub enter : Bool
  pub keys : List Bytes
  pub mode : Bytes
  pub sentinel_token : Bytes
  pub pattern : Bytes
  pub quiet_ms : ℕ
  pub timeout_ms : ℕ

-- `Response`; what is left out is empty, or 0.
pub record Response : Type 0 where
  pub is_ok : Bool
  pub body : Bytes
  pub error : Option ErrorResponse
  pub runtime : Bytes
  pub pid : ℕ

-- `json.Marshal` of each payload, which hold strings, ints and pointers, for which it does not fail; and
-- `strconv.Quote`.
pub record Payloads : Type 0 where
  pub list_json : ListResponse → Bytes
  pub snapshot_json : SnapshotResponse → Bytes
  pub read_json : ReadResponse → Bytes
  pub wait_json : WaitResponse → Bytes
  pub quote : Bytes → Bytes

-- A compiled pattern by its `FindIndex`, or the error's text.
abbrev pub Compile : Type 0
Compile = Bytes → Result Bytes (Bytes → Option (ℕ × ℕ))

abbrev pub cmd_err : ErrorResponse → Response
cmd_err e = record { is_ok = false; body = []; error = some e; runtime = []; pid = 0 }

abbrev pub runtime_err : Bytes → Response
runtime_err text = record { is_ok = false; body = []; error = none; runtime = text; pid = 0 }

abbrev pub plain_ok : Response
plain_ok = record { is_ok = true; body = []; error = none; runtime = []; pid = 0 }

-- `classifyErr`
unfoldable pub classify_err : HandlerError → Response
classify_err (command e) = cmd_err e
classify_err (runtime text) = runtime_err text

-- `marshalBody`
unfoldable pub marshal_body {ℓ} : {A : Type ℓ} → (A → Bytes) → Result HandlerError A → Response
unfolding classify_err
marshal_body to_json (ok a) = record {
  is_ok = true;
  body = to_json a;
  error = none;
  runtime = [];
  pid = 0;
}
marshal_body to_json (err e) = classify_err e

-- The answer to a command that has no payload.
unfoldable pub done_or_err : Result HandlerError (Unit {0}) → Response
unfolding classify_err
done_or_err (ok u) = plain_ok
done_or_err (err e) = classify_err e

abbrev pub refuse : Request → ErrorCode → Bytes → Response
refuse req code message = cmd_err (record { pane_id = req.pane; code = code; message = message })

-- `time.Duration(ms) * time.Millisecond`
abbrev pub duration : ℕ → ℕ
duration ms = (ms * 1000000) % two64

-- The `WaitRequest` that is handed to the controller.
abbrev pub wait_request : Request → WaitMode → Option (Bytes → Option (ℕ × ℕ)) → WaitRequest
wait_request req mode find = record {
  pane_id = req.pane;
  after = req.after;
  timeout_ns = duration req.timeout_ms;
  mode = mode;
  sentinel_token = req.sentinel_token;
  quiet_window = duration req.quiet_ms;
  regex_find = find;
}

-- The checks of `dispatchWait`: the request for the controller, or the refusal.
unfoldable pub prepare_wait : Compile → Request → Result Response WaitRequest
prepare_wait compile req =
    if leb64 req.timeout_ms 0
    then err (refuse req invalid_args (codes "wait requires a positive timeout_ms"))
    else if bytes_eq req.mode (codes "sentinel")
    then ok (wait_request req sentinel none)
    else if bytes_eq req.mode (codes "quiescence")
    then ok (wait_request req quiescence none)
    else if bytes_eq req.mode (codes "regex")
    then (if is_empty req.pattern
        then err (refuse req invalid_args (codes "regex mode requires pattern"))
        else elim (compile req.pattern) [
          | err text ↦ err (refuse req invalid_regex (codes "invalid pattern: " ++ text))
          | ok find ↦ ok (wait_request req regex (some find))
        ])
    else err (refuse req invalid_args (codes "unknown wait mode: " ++ req.mode))

-- The answer to an ended wait; `none` while it is pending.
unfoldable pub wait_response : Payloads → Bytes → Outcome → Option Response
unfolding marshal_body
wait_response payloads ctx_error (matched w) = some (marshal_body payloads.wait_json (ok w))
wait_response payloads ctx_error (failed e) = some (cmd_err e)
wait_response payloads ctx_error aborted = some (runtime_err ctx_error)
wait_response payloads ctx_error continues = none

-- What a request meets outside the store: the port at its first and at its second call, what other
-- goroutines do to the store between the two critical sections of a read, the clock, a
-- schedule, and the context's error.
pub record Meets : Type 0 where
  pub port : Port
  pub port' : Port
  pub later : Store
  pub now : ℕ
  pub schedule : List Round
  pub ctx_error : Bytes

module _ (json : Json) (payloads : Payloads) (compile : Compile) where
  -- `dispatchWait`
  unfoldable pub dispatch_wait : Request → Store → List Round → Bytes → Store × Option Response
  unfolding prepare_wait wait_response
  dispatch_wait req s rounds ctx_error = elim (prepare_wait compile req) [
    | err refusal ↦ (s, some refusal)
    | ok wr ↦ let (s', o) = wait json wr s rounds in (s', wait_response payloads ctx_error o)
  ]

  -- The response of `Dispatch`.
  unfoldable pub dispatch : Request → Store → Meets → Store × Option Response
  unfolding marshal_body done_or_err dispatch_wait
  dispatch req s x =
      let history : Option ℕ = if req.has_history then some req.history_lines else none in
      let (s', snap) = Controller.snapshot json x.port x.port' s req.pane history x.now in
      let waited = dispatch_wait req s x.schedule x.ctx_error in
      if bytes_eq req.op (codes "list")
      then (s, some (marshal_body payloads.list_json (Controller.list_panes x.port)))
      else if bytes_eq req.op (codes "snapshot")
      then (s', some (marshal_body payloads.snapshot_json snap))
      else if bytes_eq req.op (codes "read")
      then (if is_empty req.after
          then (
            s,
            some (
                refuse req missing_after
                  (codes "read requires --after; use snapshot to bootstrap")),
          )
          else (
            x.later,
            some (
                marshal_body payloads.read_json
                  (Controller.read json s x.later req.pane req.after x.now)),
          ))
      else if bytes_eq req.op (codes "text")
      then (s, some (done_or_err (Controller.send_text x.port req.pane req.text req.enter)))
      else if bytes_eq req.op (codes "key")
      then (if is_empty req.keys
          then (s, some (refuse req invalid_args (codes "key requires at least one token")))
          else (s, some (done_or_err (Controller.send_keys x.port req.pane req.keys))))
      else if bytes_eq req.op (codes "wait")
      then waited
      else (s, some (runtime_err (codes "unknown op " ++ payloads.quote req.op)))
