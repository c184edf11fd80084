-- ===== src/Harness/History.antt =====
-- The bounded history of invocations, over a whole scenario.
use tmux_pane_control.Prelude.{
  ℕ, ◌-◌, ◌≤◌, ◌≡◌, sym, ap, ◌∙◌, List, [], ◌∷◌, ◌++◌, Bytes, length, drop, leb, leb→le,
  length-append, length-drop, drop-append, drop-drop, append_assoc, append-nil, arith, Bool-cases,
  inl, inr, Result, ok, ◌>>=◌, >>=-eq-ok,
}
use tmux_pane_control.Harness.{
  Invocation, Env, RunResult, Fatal, Ran, RunError, no_error, exit_error, other_error, World,
  environ, record_invocation, after_run, run_args, max_history,
}
use tmux_pane_control.Harness.Diagnostics.{recent}

-- The last `n` of a list.
abbrev pub last {ℓ} : {A : Type ℓ} → ℕ → List A → List A
last n xs = drop (length xs - n) xs

module _ {ℓ} {A : Type ℓ} where
  last_all : (n : ℕ) (xs : List A) → length xs ≤ n → last n xs ≡ xs
  last_all n xs h = ap (λ k. drop k xs) {y = 0} (omega arith)

  last-append : (n : ℕ) (xs ys : List A) → last n (last n xs ++ ys) ≡ last n (xs ++ ys)
  last-append n xs ys = elim (Bool-cases (leb n (length xs))) [
    | inr few ↦ ap (λ zs. last n (zs ++ ys)) (last_all n xs (ground arith))
    | inl many ↦
        let a = length xs - n in
        let le : n ≤ length xs = leb→le n (length xs) many in
        let e : last n xs ++ ys ≡ drop a (xs ++ ys) = sym (drop-append a xs ys (omega arith)) in
        ap (last n) e
        ∙ drop-drop (length (drop a (xs ++ ys)) - n) a (length (xs ++ ys) - n) (xs ++ ys)
            (omega (arith, length-drop a (xs ++ ys), length-append xs ys))
  ]

  last-last : (n m : ℕ) (xs : List A) → n ≤ m → last n (last m xs) ≡ last n xs
  last-last n m xs h =
      drop-drop (length (last m xs) - n) (length xs - m) (length xs - n) xs
        (omega (arith, length-drop (length xs - m) xs))

record_invocation-last :
    (inv : Invocation) (history : List Invocation)
    → record_invocation inv history ≡ last max_history (history ++ (inv ∷ []))
unfolding record_invocation
record_invocation-last inv history = ground arith

recent-last : (hist : List Invocation) → recent hist ≡ last 6 hist
unfolding recent
recent-last hist = ground arith

-- One call of `RunArgs`: the world it meets, the time, and the arguments.
pub record Call : Type 0 where
  pub world : World
  pub started : ℕ
  pub args : List Bytes

abbrev invoked : Call → RunResult → Invocation
invoked c r = record {
  when = c.started;
  args = c.args;
  code = r.code;
  stdout = r.stdout;
  stderr = r.stderr;
}

-- Calls of `RunArgs`, and their invocations.
unfoldable pub run_calls : List Call → Env → Result Fatal (Env × List Invocation)
run_calls [] e = ok (e, [])
run_calls (c ∷ calls) e = do
  ran ← run_args c.world c.started c.args e
  rest ← run_calls calls ran.0
  ok (rest.0, invoked c ran.1 ∷ rest.1)

-- What calls leave of the scenario: the last 32 invocations of all that were made, of which the
-- diagnostics show the last six, and the panes as they were.
pub record Kept (e e' : Env) (made : List Invocation) : Type 0 where
  pub history_is : e'.history ≡ last max_history (e.history ++ made)
  pub shown_is : recent e'.history ≡ last 6 (e.history ++ made)
  pub bounded : length e'.history ≤ max_history
  pub panes_is : e'.panes ≡ e.panes

after_run-history :
    (c : Call) (ran : Ran) (failure : RunError) (e e' : Env) (r : RunResult)
    → after_run c.started c.args ran failure e ≡ ok (e', r)
    → (e'.history ≡ record_invocation (invoked c r) e.history) × (e'.panes ≡ e.panes)
unfolding after_run
after_run-history c ran no_error e e' r h = (cc h, cc h)
after_run-history c ran (exit_error code) e e' r h = (cc h, cc h)
after_run-history c ran (other_error text) e e' r h = cc h

run_args-history :
    (c : Call) (e e' : Env) (r : RunResult)
    → run_args c.world c.started c.args e ≡ ok (e', r)
    → (e'.history ≡ last max_history (e.history ++ (invoked c r ∷ []))) × (e'.panes ≡ e.panes)
unfolding run_args
run_args-history c e e' r h =
    let ran = c.world.exec e.bin c.args (environ c.world e) in
    let (a, b) = after_run-history c ran ran.failure e e' r h in
    (a ∙ record_invocation-last (invoked c r) e.history, b)

last_bounded : (n : ℕ) (xs ys : List Invocation) → ys ≡ last n xs → length ys ≤ n
last_bounded n xs ys e = rw e (omega (arith, length-drop (length xs - n) xs))

run_calls-history :
    (calls : List Call) (e e' : Env) (made : List Invocation)
    → length e.history ≤ max_history
    → run_calls calls e ≡ ok (e', made)
    → (e'.history ≡ last max_history (e.history ++ made)) × (e'.panes ≡ e.panes)
unfolding run_calls
run_calls-history [] e e' made b h =
    let same : e ≡ e' = cc h in
    let none_made : [] ≡ made = cc h in
    (
      ap (λ x. x.history) (sym same)
          ∙ sym (last_all max_history e.history b)
          ∙ ap (last max_history) (sym (append-nil e.history) ∙ ap (λ x. e.history ++ x) none_made),
      ap (λ x. x.panes) (sym same),
    )
run_calls-history (c ∷ calls) e e' made b h =
    let ((e1, r), ran, h1) = >>=-eq-ok (run_args c.world c.started c.args e) _ h in
    let ((e2, more), rest, h2) = >>=-eq-ok (run_calls calls e1) _ h1 in
    let (first, panes) = run_args-history c e e1 r ran in
    let (later, panes') =
      run_calls-history calls e1 e2 more
        (last_bounded max_history (e.history ++ (invoked c r ∷ [])) e1.history first) rest in
    let same : e2 ≡ e' = cc h2 in
    let all : invoked c r ∷ more ≡ made = cc h2 in
    (
      ap (λ x. x.history) (sym same)
          ∙ later
          ∙ ap (λ x. last max_history (x ++ more)) first
          ∙ last-append max_history (e.history ++ (invoked c r ∷ [])) more
          ∙ ap (last max_history)
              (append_assoc e.history (invoked c r ∷ []) more ∙ ap (λ x. e.history ++ x) all),
      ap (λ x. x.panes) (sym same) ∙ panes' ∙ panes,
    )

-- Calls of `RunArgs` from a history of at most 32 invocations, none of which ends the scenario, leave the
-- last 32 of its and their invocations in their order, and the diagnostics then show the last six of all
-- of these; the tracked panes stay as they were.
pub run_calls-Kept :
    (calls : List Call) (e e' : Env) (made : List Invocation)
    → length e.history ≤ max_history
    → run_calls calls e ≡ ok (e', made)
    → Kept e e' made
run_calls-Kept calls e e' made b h =
    let (history, panes) = run_calls-history calls e e' made b h in
    record {
      history_is = history;
      shown_is =
          recent-last e'.history
          ∙ ap (last 6) history
          ∙ last-last 6 max_history (e.history ++ made) (omega arith);
      bounded = last_bounded max_history (e.history ++ made) e'.history history;
      panes_is = panes;
    }
