-- ===== src/Tests/Codec.antt =====
-- A codec that has the documented behaviour of `encoding/json` on requests and responses, for the runs.
use tmux_pane_control.Prelude.{
  ℕ, zero, suc, ◌+◌, ◌-◌, ◌≡◌, refl, Bool, true, false, List, [], ◌∷◌, ◌++◌, length, Option, none,
  some, Bytes, ◌==◌, if◌then◌else◌, arith, ok,
}
use tmux_pane_control.Textnorm.{has_byte}
use tmux_pane_control.Domain.{
  ErrorCode, missing_after, invalid_after, pane_not_found, pane_closed, timeout, invalid_key,
  invalid_args, invalid_regex, ErrorResponse,
}
use tmux_pane_control.Ipc.Dispatch.{Request, Response}
use tmux_pane_control.Ipc.Wire.{WireJson}

-- Every element is raised above the line break.
unfoldable pub raise : Bytes → Bytes
raise [] = []
raise (x ∷ xs) = (x + 11) ∷ raise xs

unfoldable pub lower : Bytes → Bytes
lower [] = []
lower (x ∷ xs) = if x == b'\n' then [] else (x - 11) ∷ lower xs

pub lower-raise : (xs : Bytes) → lower (raise xs ++ (b'\n' ∷ [])) ≡ xs
unfolding lower raise
lower-raise [] = refl
lower-raise (x ∷ xs) = ground (arith, lower-raise xs)

pub raise_line : (xs : Bytes) → has_byte b'\n' (raise xs) ≡ false
unfolding raise has_byte
raise_line [] = refl
raise_line (x ∷ xs) = ground (arith, raise_line xs)

-- A text behind its length.
unfoldable put_text : Bytes → Bytes → Bytes
put_text t rest = length t ∷ (t ++ rest)

unfoldable cut : ℕ → Bytes → Bytes × Bytes
cut zero s = ([], s)
cut (suc n) [] = ([], [])
cut (suc n) (x ∷ s) = let (t, rest) = cut n s in (x ∷ t, rest)

unfoldable get_text : Bytes → Bytes × Bytes
unfolding cut
get_text [] = ([], [])
get_text (n ∷ s) = cut n s

cut-append : (t rest : Bytes) → cut (length t) (t ++ rest) ≡ (t, rest)
unfolding cut
cut-append [] rest = refl
cut-append (x ∷ t) rest = rw (cut-append t rest) refl

get_text-put_text : (t rest : Bytes) → get_text (put_text t rest) ≡ (t, rest)
unfolding get_text put_text
get_text-put_text t rest = cut-append t rest

unfoldable put_texts : List Bytes → Bytes → Bytes
unfolding put_text
put_texts [] rest = rest
put_texts (t ∷ ts) rest = put_text t (put_texts ts rest)

unfoldable get_texts : ℕ → Bytes → List Bytes × Bytes
unfolding get_text
get_texts zero s = ([], s)
get_texts (suc n) s =
    let (t, rest) = get_text s in let (ts, rest') = get_texts n rest in (t ∷ ts, rest')

get_texts-put_texts :
    (ts : List Bytes) (rest : Bytes) → get_texts (length ts) (put_texts ts rest) ≡ (ts, rest)
unfolding get_texts put_texts
get_texts-put_texts [] rest = refl
get_texts-put_texts (t ∷ ts) rest =
    rw (get_text-put_text t (put_texts ts rest), get_texts-put_texts ts rest) refl

unfoldable head : Bytes → ℕ
head [] = 0
head (n ∷ s) = n

unfoldable tail : Bytes → Bytes
tail [] = []
tail (n ∷ s) = s

unfoldable put_bool : Bool → ℕ
put_bool b = if b then 1 else 0

put_bool-one : (b : Bool) → (put_bool b == 1) ≡ b
unfolding put_bool
put_bool-one true = refl
put_bool-one false = refl

unfoldable pub put_request : Request → Bytes
unfolding put_text put_texts put_bool
put_request r =
    r.history_lines
    ∷ put_bool r.has_history
    ∷ put_bool r.enter
    ∷ r.quiet_ms
    ∷ r.timeout_ms
    ∷ length r.keys
    ∷ put_texts r.keys (
        put_text r.op (
          put_text r.pane (
            put_text r.after (
              put_text r.text
                (put_text r.mode (put_text r.sentinel_token (put_text r.pattern [])))))))

unfoldable pub get_request : Bytes → Request
unfolding get_texts get_text head tail
get_request s =
    let s1 = tail s in
    let s2 = tail s1 in
    let s3 = tail s2 in
    let s4 = tail s3 in
    let s5 = tail s4 in
    let (keys, s6) = get_texts (head s5) (tail s5) in
    let (op, s7) = get_text s6 in
    let (pane, s8) = get_text s7 in
    let (after, s9) = get_text s8 in
    let (text, s10) = get_text s9 in
    let (mode, s11) = get_text s10 in
    let (sentinel_token, s12) = get_text s11 in
    record {
      op = op;
      pane = pane;
      after = after;
      history_lines = head s;
      has_history = head s1 == 1;
      text = text;
      enter = head s2 == 1;
      keys = keys;
      mode = mode;
      sentinel_token = sentinel_token;
      pattern = (get_text s12).0;
      quiet_ms = head s3;
      timeout_ms = head s4;
    }

pub get_request-put_request : (r : Request) → get_request (put_request r) ≡ r
unfolding get_request put_request head tail
get_request-put_request r = simp (get_texts-put_texts, get_text-put_text, put_bool-one)

unfoldable put_code : ErrorCode → ℕ
put_code missing_after = 0
put_code invalid_after = 1
put_code pane_not_found = 2
put_code pane_closed = 3
put_code timeout = 4
put_code invalid_key = 5
put_code invalid_args = 6
put_code invalid_regex = 7

unfoldable get_code : ℕ → ErrorCode
get_code n =
    if n == 0
    then missing_after
    else if n == 1
    then invalid_after
    else if n == 2
    then pane_not_found
    else if n == 3
    then pane_closed
    else if n == 4
    then timeout
    else if n == 5
    then invalid_key
    else if n == 6
    then invalid_args
    else invalid_regex

get_code-put_code : (c : ErrorCode) → get_code (put_code c) ≡ c
unfolding get_code put_code
get_code-put_code missing_after = refl
get_code-put_code invalid_after = refl
get_code-put_code pane_not_found = refl
get_code-put_code pane_closed = refl
get_code-put_code timeout = refl
get_code-put_code invalid_key = refl
get_code-put_code invalid_args = refl
get_code-put_code invalid_regex = refl

unfoldable put_error : Option ErrorResponse → Bytes
unfolding put_code put_text
put_error none = []
put_error (some e) = put_code e.code ∷ put_text e.pane_id (put_text e.message [])

unfoldable get_error : Bytes → Option ErrorResponse
unfolding get_code get_text
get_error [] = none
get_error (c ∷ s) =
    let (pane, rest) = get_text s in
    some (record { pane_id = pane; code = get_code c; message = (get_text rest).0 })

get_error-put_error : (e : Option ErrorResponse) → get_error (put_error e) ≡ e
unfolding get_error put_error
get_error-put_error none = refl
get_error-put_error (some e) = simp (get_text-put_text, get_code-put_code)

unfoldable pub put_response : Response → Bytes
unfolding put_text put_bool put_error
put_response r = put_bool r.is_ok ∷ r.pid ∷ put_text r.body (put_text r.runtime (put_error r.error))

unfoldable pub get_response : Bytes → Response
unfolding get_text get_error head tail
get_response s =
    let (body, rest) = get_text (tail (tail s)) in
    let (runtime, rest') = get_text rest in
    record {
      is_ok = head s == 1;
      body = body;
      error = get_error rest';
      runtime = runtime;
      pid = head (tail s);
    }

pub get_response-put_response : (r : Response) → get_response (put_response r) ≡ r
unfolding get_response put_response head tail
get_response-put_response r = simp (get_text-put_text, get_error-put_error, put_bool-one)

unfoldable pub wire_codec : WireJson
unfolding raise lower
wire_codec = record {
  IsBody = λ b. Unit;
  request_json = λ r. raise (put_request r);
  request_of = λ s. ok (get_request (lower s));
  response_json = λ r. ok (raise (put_response r));
  response_of = λ s. ok (get_response (lower s));
  request_line = λ r p. raise_line (put_request r);
  request_of-request_json = λ r p. rw (lower-raise, get_request-put_request) refl;
  response_line = λ r p. (
    raise (put_response r),
    refl,
    raise_line (put_response r),
    rw (lower-raise, get_response-put_response) refl,
  );
}
