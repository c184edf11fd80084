-- ===== src/Ipc/Wire/Call.antt =====
-- A call over a connection that the server handles returns what the server dispatched.
use tmux_pane_control.Prelude.{
  ℕ, ◌≡◌, refl, ap, Bool, false, [], ◌∷◌, ◌++◌, append_assoc, Option, none, some, Bytes, bytes_eq,
  codes, arith, Result, ok,
}
use tmux_pane_control.Token.{Json}
use tmux_pane_control.Textnorm.{has_byte}
use tmux_pane_control.Store.{Store}
use tmux_pane_control.Ipc.Dispatch.{Request, Response, Payloads, Compile, Meets, dispatch}
use tmux_pane_control.Ipc.Wire.{
  WireJson, IsPlainRequest, IsPlainResponse, read_line, write_response, handle, handle_request,
  answered_if, call,
}

read_line-append :
    (line rest : Bytes)
    → has_byte b'\n' line ≡ false
    → read_line (line ++ (b'\n' ∷ rest)) ≡ some (line ++ (b'\n' ∷ []))
unfolding read_line has_byte
read_line-append [] rest h = refl
read_line-append (c ∷ cs) rest h = ground (arith, read_line-append cs rest)

-- The bytes that a connection to the server gives back, and the error at their end.
abbrev pub served : Option Bytes → Bytes → Result Bytes (Bytes × Bytes)
served none end = ok ([], end)
served (some b) end = ok (b, end)

module _ (wire : WireJson) where
  answered-written :
      (p : Store × Option Response) (resp : Response)
      → p.1 ≡ some resp
      → (answered_if wire p).written ≡ some (write_response wire resp)
  answered-written (s, none) resp e = cc
  answered-written (s, some r) resp e = ap (λ o. (answered_if wire (s, o)).written) e

module _ (wire : WireJson) (json : Json) (payloads : Payloads) (compile : Compile) (pid : ℕ)
    (has_shutdown : Bool) (s : Store) (x : Meets) where
  -- A connection to a server that handles its first line.
  abbrev pub serving : Bytes → Bytes → Bytes → Result Bytes (Bytes × Bytes)
  serving end extra sent =
      served (handle wire json payloads compile pid has_shutdown (sent ++ extra) s x).written end

  handle-request_json :
      (req : Request) (extra : Bytes)
      → IsPlainRequest req
      → handle wire json payloads compile pid has_shutdown
          ((wire.request_json req ++ (b'\n' ∷ [])) ++ extra)
          s
          x
        ≡ handle_request wire json payloads compile pid has_shutdown req s x
  unfolding handle
  handle-request_json req extra plain = rw (
    append_assoc (wire.request_json req) (b'\n' ∷ []) extra,
    read_line-append (wire.request_json req) extra (wire.request_line req plain),
    wire.request_of-request_json req plain,
    handle,
  )

  call-write_response :
      (req : Request) (resp : Response) (end extra : Bytes)
      → IsPlainRequest req
      → IsPlainResponse wire.IsBody resp
      → (handle_request wire json payloads compile pid has_shutdown req s x).written
        ≡ some (write_response wire resp)
      → call wire (ok (serving end extra)) req ≡ ok resp
  unfolding call write_response
  call-write_response req resp end extra plain ready e =
      let (b, written, line, back) = wire.response_line resp ready in
      rw (handle-request_json req extra plain, e, written, call)
        (rw (read_line-append b [] line) back)

  -- A call of a request but a shutdown, to a server that handles what it sends, returns the response
  -- that the server dispatched, as it was; what the client sends behind the request, and what the
  -- connection ends with, do not matter. Conditions are that the texts of the request and of the
  -- response's error are ASCII, that their numbers are ones that an int holds, and that the response's
  -- body is empty or JSON as it is written on the wire.
  pub call-dispatch :
      (req : Request) (resp : Response) (end extra : Bytes)
      → IsPlainRequest req
      → IsPlainResponse wire.IsBody resp
      → bytes_eq req.op (codes "shutdown") ≡ false
      → (dispatch json payloads compile req s x).1 ≡ some resp
      → call wire (ok (serving end extra)) req ≡ ok resp
  unfolding handle_request
  call-dispatch req resp end extra plain ready other e =
      call-write_response req resp end extra plain ready
        (rw (other, handle_request) (answered-written wire _ resp e))
