-- ===== src/Ipc/Wire.antt =====
-- internal/ipc/server.go, `handle` and `writeResponse`, and internal/ipc/client.go: one request and one
-- response on a connection, a line of JSON each. The JSON of requests and responses is a parameter, with
-- its documented behaviour on text that it keeps as it is.
pub mod Call
use tmux_pane_control.Prelude.{
  ℕ, ◌<◌, ◌≡◌, Bool, true, false, List, [], ◌∷◌, ◌++◌, Option, none, some, Bytes, bytes_eq, codes,
  ◌==◌, if◌then◌else◌, Result, ok, err,
}
use tmux_pane_control.Prelude.Int64.{two64}
use tmux_pane_control.Token.{Json}
use tmux_pane_control.Token.Base64.{Below}
use tmux_pane_control.Textnorm.{has_byte}
use tmux_pane_control.Domain.{ErrorResponse}
use tmux_pane_control.Store.{Store}
use tmux_pane_control.Ipc.Dispatch.{
  Request, Response, Payloads, Compile, Meets, runtime_err, dispatch,
}

abbrev pub AllBelow : List Bytes → Type 0
AllBelow [] = Unit
AllBelow (s ∷ rest) = Below 128 s × AllBelow rest

-- ASCII texts, which JSON keeps, and numbers that an int holds.
pub record IsPlainRequest (r : Request) : Type 0 where
  pub op_plain : Below 128 r.op
  pub pane_plain : Below 128 r.pane
  pub after_plain : Below 128 r.after
  pub text_plain : Below 128 r.text
  pub keys_plain : AllBelow r.keys
  pub mode_plain : Below 128 r.mode
  pub token_plain : Below 128 r.sentinel_token
  pub pattern_plain : Below 128 r.pattern
  pub history_int : r.history_lines < two64
  pub quiet_int : r.quiet_ms < two64
  pub timeout_int : r.timeout_ms < two64

abbrev pub IsPlainError : Option ErrorResponse → Type 0
IsPlainError none = Unit
IsPlainError (some e) = Below 128 e.pane_id × Below 128 e.message

-- `IsBody` says that bytes are JSON as `json.Marshal` writes it, or empty.
pub record IsPlainResponse (IsBody : Bytes → Type 0) (r : Response) : Type 0 where
  pub body_json : IsBody r.body
  pub error_plain : IsPlainError r.error
  pub runtime_plain : Below 128 r.runtime
  pub pid_int : r.pid < two64

-- `json.Marshal` and `json.Unmarshal` at `Request` and `Response`; a failure is the error's text. Marshal
-- fails on a response whose body is no JSON, and writes no line break; Unmarshal allows one behind.
pub record WireJson : Type 1 where
  pub IsBody : Bytes → Type 0
  pub request_json : Request → Bytes
  pub request_of : Bytes → Result Bytes Request
  pub response_json : Response → Result Bytes Bytes
  pub response_of : Bytes → Result Bytes Response
  pub request_line : (r : Request) → IsPlainRequest r → has_byte b'\n' (request_json r) ≡ false
  pub request_of-request_json :
      (r : Request) → IsPlainRequest r → request_of (request_json r ++ (b'\n' ∷ [])) ≡ ok r
  pub response_line :
      (r : Response)
      → IsPlainResponse IsBody r
      → (b : Bytes) × (response_json r ≡ ok b)
        × (has_byte b'\n' b ≡ false)
        × (response_of (b ++ (b'\n' ∷ [])) ≡ ok r)

abbrev pub cons_line : ℕ → Option Bytes → Option Bytes
cons_line c none = none
cons_line c (some line) = some (c ∷ line)

-- `br.ReadBytes('\n')` on all that a connection delivers before its end: the first line with its break, or
-- an error if there is no break.
unfoldable pub read_line : Bytes → Option Bytes
read_line [] = none
read_line (c ∷ cs) =
    let rest = read_line cs in if c == b'\n' then some (c ∷ []) else cons_line c rest

abbrev pub or_empty : Result Bytes Bytes → Bytes
or_empty (ok b) = b
or_empty (err e) = []

module _ (wire : WireJson) where
  -- `writeResponse`: what it writes.
  unfoldable pub write_response : Response → Bytes
  write_response r = elim (wire.response_json r) [
    | ok b ↦ b ++ (b'\n' ∷ [])
    | err e ↦ or_empty (wire.response_json (runtime_err e)) ++ (b'\n' ∷ [])
  ]

  abbrev pub shutdown_response : ℕ → Response
  shutdown_response pid = record { is_ok = true; body = []; error = none; runtime = []; pid = pid }

  -- What a handled connection leaves; `written` is `none` while a wait is pending.
  pub record Handled : Type 0 where
    pub store : Store
    pub written : Option Bytes
    pub shutdown_called : Bool

  abbrev pub answered : Store → Response → Handled
  answered s r = record { store = s; written = some (write_response r); shutdown_called = false }

  abbrev pub answered_if : Store × Option Response → Handled
  answered_if (s, none) = record { store = s; written = none; shutdown_called = false }
  answered_if (s, some r) = answered s r

  -- `handle` on a request that has been decoded; `has_shutdown` says that `s.Shutdown` is set.
  unfoldable pub handle_request :
      Json → Payloads → Compile → ℕ → Bool → Request → Store → Meets → Handled
  unfolding write_response
  handle_request json payloads compile pid has_shutdown req s x =
      if bytes_eq req.op (codes "shutdown")
      then record {
        store = s;
        written = some (write_response (shutdown_response pid));
        shutdown_called = has_shutdown;
      }
      else answered_if (dispatch json payloads compile req s x)

  -- `handle`, on what the connection delivers.
  unfoldable pub handle : Json → Payloads → Compile → ℕ → Bool → Bytes → Store → Meets → Handled
  unfolding handle_request write_response read_line
  handle json payloads compile pid has_shutdown delivered s x = elim (read_line delivered) [
    | none ↦ record { store = s; written = some []; shutdown_called = false }
    | some line ↦ elim (wire.request_of line) [
      | err e ↦ answered s (runtime_err (codes "malformed request: " ++ e))
      | ok req ↦ handle_request json payloads compile pid has_shutdown req s x
    ]
  ]

  -- `Call`, on a connection: the error of dialling, or, for the bytes written, the error of the write or
  -- what is read back before the end or the deadline, with the error that stands there.
  unfoldable pub call :
      Result Bytes (Bytes → Result Bytes (Bytes × Bytes)) → Request → Result Bytes Response
  unfolding read_line
  call connection req = elim connection [
    | err e ↦ err e
    | ok exchange ↦ elim (exchange (wire.request_json req ++ (b'\n' ∷ []))) [
      | err e ↦ err e
      | ok (reply, end) ↦ elim (read_line reply) [
        | none ↦ err end
        | some line ↦ wire.response_of line
      ]
    ]
  ]

-- `Ping`: a list request, of which only the error counts.
abbrev pub list_request : Request
list_request = record {
  op = codes "list";
  pane = [];
  after = [];
  history_lines = 0;
  has_history = false;
  text = [];
  enter = false;
  keys = [];
  mode = [];
  sentinel_token = [];
  pattern = [];
  quiet_ms = 0;
  timeout_ms = 0;
}

unfoldable pub ping : WireJson → Result Bytes (Bytes → Result Bytes (Bytes × Bytes)) → Option Bytes
unfolding call
ping wire connection = elim (call wire connection list_request) [ ok r ↦ none | err e ↦ some e ]
