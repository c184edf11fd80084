-- ===== src/Controller/Wait/Bounded.antt =====
-- A wait does not outlive its timeout.
use tmux_pane_control.Prelude.{
  ℕ, ◌≡◌, refl, ap, Bool, true, false, List, [], ◌∷◌, ◌++◌, Option, Bytes, Bool-cases, Option-cases,
  inl, inr, Result, ok, err,
}
use tmux_pane_control.Token.{Json, StoreError}
use tmux_pane_control.Store
use tmux_pane_control.Store.{Store}
use tmux_pane_control.Store.Refine.{apply_all}
use tmux_pane_control.Textnorm.{strip_ansi_and_cr}
use tmux_pane_control.Waiter.{match_sentinel, match_regex}
use tmux_pane_control.Controller.Wait.{
  WaitMode, sentinel, regex, quiescence, unsupported, WaitRequest, Wake, signalled, quiet_elapsed,
  timed_out, cancelled, Round, Outcome, matched, failed, aborted, continues, woken, evaluate, round,
  loop, deferred, wait, validate, checkpoint_at, reference, is_quiet,
}
use tmux_pane_control.Controller.Wait.Ends.{is_done, behind, round_read}

-- The `select` of a round receives the timeout, or the end of the context.
abbrev pub Stops : Wake → Type 0
Stops signalled = ⊥
Stops quiet_elapsed = ⊥
Stops timed_out = Unit
Stops cancelled = Unit

module _ (json : Json) (req : WaitRequest) (k : ℕ) (checkpoint : Option ℕ) where
  woken-is_done : (v : Wake) (s : Store) → Stops v → is_done (woken req.pane_id k s v).1 ≡ true
  unfolding woken
  woken-is_done signalled s h = elim h [ ]
  woken-is_done quiet_elapsed s h = elim h [ ]
  woken-is_done timed_out s h = refl
  woken-is_done cancelled s h = refl

  evaluate-is_done :
      (mode : WaitMode) (r : Round) (s : Store) (bytes next : Bytes)
      → Stops r.wake
      → is_done (evaluate json req k mode checkpoint r s bytes next).1 ≡ true
  unfolding evaluate
  evaluate-is_done sentinel r s bytes next h =
      elim (Option-cases (match_sentinel (strip_ansi_and_cr bytes) req.sentinel_token)) [
        | inl n ↦ rw (n, evaluate) (woken-is_done r.wake _ h)
        | inr (m, n) ↦ rw (n, evaluate) refl
      ]
  evaluate-is_done regex r s bytes next h = elim (Option-cases req.regex_find) [
    | inl n ↦ rw (n, evaluate) (woken-is_done r.wake _ h)
    | inr (find, n) ↦ elim (Option-cases (match_regex (strip_ansi_and_cr bytes) find)) [
      | inl q ↦ rw (n, q, evaluate) (woken-is_done r.wake _ h)
      | inr (m, q) ↦ rw (n, q, evaluate) refl
    ]
  ]
  evaluate-is_done quiescence r s bytes next h =
      elim (Bool-cases (
        is_quiet
          (reference checkpoint (Store.last_append (apply_all json s r.meanwhile) req.pane_id))
          r.since_at req.quiet_window)) [
            | inl q ↦ rw (q, evaluate) refl
            | inr q ↦ rw (q, evaluate) (woken-is_done r.wake _ h)
          ]
  evaluate-is_done unsupported r s bytes next h = woken-is_done r.wake _ h

  round-is_done :
      (known : Bool) (s : Store) (r : Round)
      → Stops r.wake
      → is_done (round json req k checkpoint known s r).1 ≡ true
  unfolding round
  round-is_done known s r h = go (round_read json req s r) refl
    where
      go :
          (p : Result StoreError (Bytes × Bytes))
          → round_read json req s r ≡ p
          → is_done (round json req k checkpoint known s r).1 ≡ true
      go (err x) f = rw (f, round) refl
      go (ok (bytes, next)) f = rw (f, round) (evaluate-is_done req.mode r _ bytes next h)

  -- A loop that is done, whatever rounds were to come.
  abbrev DoneBy : Store × Outcome → Store × Outcome → Type 0
  DoneBy p q = (is_done p.1 ≡ true) × (p ≡ q)

  behind-DoneBy :
      (p : Store × Outcome) (rs rs' : List Round)
      → is_done p.1 ≡ true
      → DoneBy (behind json req k checkpoint p rs) (behind json req k checkpoint p rs')
  behind-DoneBy (t, matched w) rs rs' h = (refl, refl)
  behind-DoneBy (t, failed e) rs rs' h = (refl, refl)
  behind-DoneBy (t, aborted) rs rs' h = (refl, refl)
  behind-DoneBy (t, continues) rs rs' h = cc h

  behind-later :
      (p : Store × Outcome) (rs rs' : List Round)
      → ((t : Store)
          → DoneBy (loop json req k checkpoint true t rs) (loop json req k checkpoint true t rs'))
      → DoneBy (behind json req k checkpoint p rs) (behind json req k checkpoint p rs')
  behind-later (t, matched w) rs rs' h = (refl, refl)
  behind-later (t, failed e) rs rs' h = (refl, refl)
  behind-later (t, aborted) rs rs' h = (refl, refl)
  behind-later (t, continues) rs rs' h = h t

  loop-DoneBy :
      (earlier : List Round) (r : Round) (later : List Round) (known : Bool) (s : Store)
      → Stops r.wake
      → DoneBy
          (loop json req k checkpoint known s (earlier ++ (r ∷ later)))
          (loop json req k checkpoint known s (earlier ++ (r ∷ [])))
  unfolding loop
  loop-DoneBy [] r later known s h =
      behind-DoneBy (round json req k checkpoint known s r) later [] (round-is_done known s r h)
  loop-DoneBy (e ∷ es) r later known s h =
      behind-later (round json req k checkpoint known s e) (es ++ (r ∷ later)) (es ++ (r ∷ []))
        (λ t. loop-DoneBy es r later true t h)

deferred-is_done :
    (k : ℕ) (p : Store × Outcome) → is_done p.1 ≡ true → is_done (deferred k p).1 ≡ true
unfolding deferred
deferred-is_done k (t, matched w) h = refl
deferred-is_done k (t, failed e) h = refl
deferred-is_done k (t, aborted) h = refl
deferred-is_done k (t, continues) h = cc h

-- A wait in which some round's `select` receives the timeout or the end of the context has ended by that
-- round, with a match, an error or the context's error: what it leaves and returns does not depend on any
-- rounds that would follow.
pub wait_bounded :
    (json : Json) (req : WaitRequest) (s : Store) (earlier : List Round) (r : Round)
    (later : List Round)
    → Stops r.wake
    → (is_done (wait json req s (earlier ++ (r ∷ later))).1 ≡ true)
      × (wait json req s (earlier ++ (r ∷ later)) ≡ wait json req s (earlier ++ (r ∷ [])))
unfolding wait
wait_bounded json req s earlier r later h =
    let k = (Store.watch s req.pane_id).1 in
    let (done, same) =
      loop-DoneBy json req k (checkpoint_at json req.after) earlier r later false
        (Store.watch s req.pane_id).0 h in
    elim (Option-cases (validate req)) [
      | inr (e, v) ↦ rw (v, wait) (refl, refl)
      | inl v ↦ rw (v, wait) (deferred-is_done k _ done, ap (deferred k) same)
    ]
