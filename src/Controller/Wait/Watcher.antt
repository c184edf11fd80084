-- ===== src/Controller/Wait/Watcher.antt =====
-- The watcher of a wait: registered when it starts, gone when it returns.
use tmux_pane_control.Prelude.{
  ℕ, suc, ◌≤◌, ◌≡◌, refl, sym, ap, Bool, true, false, List, [], ◌∷◌, Option, none, some, Bytes,
  ◌==◌, arith, Bool-cases, Option-cases, inl, inr, Result, ok, err, subst,
}
use tmux_pane_control.Token.{Json, StoreError}
use tmux_pane_control.Store
use tmux_pane_control.Store.{Store, PaneWatcher, remove_first}
use tmux_pane_control.Store.Spec.{Op, watch_op, cancel_op, new_token_op}
use tmux_pane_control.Store.Refine.{apply, apply_all}
use tmux_pane_control.Store.Watch.{find, Ascending, HasKeys, apply-HasKeys}
use tmux_pane_control.Textnorm.{strip_ansi_and_cr}
use tmux_pane_control.Domain.{ErrorResponse}
use tmux_pane_control.Waiter.{match_sentinel, match_regex}
use tmux_pane_control.Controller.Wait.{
  WaitMode, sentinel, regex, quiescence, unsupported, WaitRequest, Wake, signalled, quiet_elapsed,
  timed_out, cancelled, Round, Outcome, matched, failed, aborted, continues, take_signal, woken,
  evaluate, round, loop, wait, validate, checkpoint_at, reference, is_quiet,
}
use tmux_pane_control.Controller.Wait.Ends.{is_done, round_read, wait-loop}

apply_all-HasKeys :
    (json : Json) (ops : List Op) (s : Store) → HasKeys s → HasKeys (apply_all json s ops)
unfolding apply_all
apply_all-HasKeys json [] s h = h
apply_all-HasKeys json (op ∷ ops) s h =
    apply_all-HasKeys json ops (apply json s op) (apply-HasKeys json s op h)

Ascending-take_signal :
    (ws : List PaneWatcher) (lo hi k : ℕ) → Ascending lo hi ws → Ascending lo hi (take_signal k ws)
unfolding take_signal
Ascending-take_signal [] lo hi k a = a
Ascending-take_signal (w ∷ ws) lo hi k a = elim (Bool-cases (w.key == k)) [
  | inl same ↦ rw same (a.0, Ascending-take_signal ws (suc w.key) hi k a.1)
  | inr other ↦ rw other (a.0, Ascending-take_signal ws (suc w.key) hi k a.1)
]

find-below :
    (ws : List PaneWatcher) (lo hi k : ℕ) → suc k ≤ lo → Ascending lo hi ws → find k ws ≡ none
unfolding find
find-below [] lo hi k h a = refl
find-below (w ∷ ws) lo hi k h a = ground (arith, find-below ws (suc w.key) hi k (omega arith) a.1)

find-remove_first_self :
    (ws : List PaneWatcher) (lo hi k : ℕ) → Ascending lo hi ws → find k (remove_first k ws) ≡ none
unfolding find remove_first
find-remove_first_self [] lo hi k a = refl
find-remove_first_self (w ∷ ws) lo hi k a = elim (Bool-cases (w.key == k)) [
  | inl same ↦ rw same (find-below ws (suc w.key) hi k (ground arith) a.1)
  | inr other ↦ rw (other, find) (rw other (find-remove_first_self ws (suc w.key) hi k a.1))
]

module _ (json : Json) (req : WaitRequest) (k : ℕ) (checkpoint : Option ℕ) where
  woken-HasKeys : (v : Wake) (s : Store) → HasKeys s → HasKeys (woken req.pane_id k s v).0
  unfolding woken
  woken-HasKeys signalled s h = Ascending-take_signal s.watchers 0 s.next_key k h
  woken-HasKeys quiet_elapsed s h = h
  woken-HasKeys timed_out s h = h
  woken-HasKeys cancelled s h = h

  select-HasKeys :
      (r : Round) (s : Store)
      → HasKeys s
      → HasKeys (woken req.pane_id k (apply_all json s r.waiting) r.wake).0
  select-HasKeys r s h = woken-HasKeys r.wake _ (apply_all-HasKeys json r.waiting s h)

  evaluate-HasKeys :
      (mode : WaitMode) (r : Round) (s : Store) (bytes next : Bytes)
      → HasKeys s
      → HasKeys (evaluate json req k mode checkpoint r s bytes next).0
  unfolding evaluate apply
  evaluate-HasKeys sentinel r s bytes next h =
      elim (Option-cases (match_sentinel (strip_ansi_and_cr bytes) req.sentinel_token)) [
        | inl n ↦ rw (n, evaluate) (select-HasKeys r s h)
        | inr (m, n) ↦ rw (n, evaluate) h
      ]
  evaluate-HasKeys regex r s bytes next h = elim (Option-cases req.regex_find) [
    | inl n ↦ rw (n, evaluate) (select-HasKeys r s h)
    | inr (f, n) ↦ elim (Option-cases (match_regex (strip_ansi_and_cr bytes) f)) [
      | inl q ↦ rw (n, q, evaluate) (select-HasKeys r s h)
      | inr (m, q) ↦ rw (n, q, evaluate) h
    ]
  ]
  evaluate-HasKeys quiescence r s bytes next h =
      let seen = apply_all-HasKeys json r.meanwhile s h in
      elim (Bool-cases (
        is_quiet
          (reference checkpoint (Store.last_append (apply_all json s r.meanwhile) req.pane_id))
          r.since_at req.quiet_window)) [
            | inl q ↦
                rw (q, evaluate)
                  (apply-HasKeys json _ (new_token_op req.pane_id r.mint_at)
                    (apply_all-HasKeys json r.minting _ seen))
            | inr q ↦ rw (q, evaluate) (select-HasKeys r _ seen)
          ]
  evaluate-HasKeys unsupported r s bytes next h = select-HasKeys r s h

  round-HasKeys :
      (known : Bool) (s : Store) (r : Round)
      → HasKeys s
      → HasKeys (round json req k checkpoint known s r).0
  unfolding round
  round-HasKeys known s r h = go (round_read json req s r) refl
    where
      second : HasKeys (apply_all json (apply_all json s r.before) r.between)
      second = apply_all-HasKeys json r.between _ (apply_all-HasKeys json r.before s h)

      go :
          (p : Result StoreError (Bytes × Bytes))
          → round_read json req s r ≡ p
          → HasKeys (round json req k checkpoint known s r).0
      go (err x) f = rw (f, round) second
      go (ok (bytes, next)) f = rw (f, round) (evaluate-HasKeys req.mode r _ bytes next second)

  pub loop-HasKeys :
      (rs : List Round) (known : Bool) (s : Store)
      → HasKeys s
      → HasKeys (loop json req k checkpoint known s rs).0
  unfolding loop
  loop-HasKeys [] known s h = h
  loop-HasKeys (r ∷ rs) known s h =
      go (round json req k checkpoint known s r) (round-HasKeys known s r h) (loop-HasKeys rs true)
    where
      go :
          (p : Store × Outcome)
          → HasKeys p.0
          → ((t : Store) → HasKeys t → HasKeys (loop json req k checkpoint true t rs).0)
          → HasKeys
              (elim p.1 as (λ o. Store × Outcome) [
                | continues ↦ loop json req k checkpoint true p.0 rs
                | matched w ↦ (p.0, matched w)
                | failed e ↦ (p.0, failed e)
                | aborted ↦ (p.0, aborted)
              ]).0
      go (t, continues) h rest = rest t h
      go (t, matched w) h rest = h
      go (t, failed e) h rest = h
      go (t, aborted) h rest = h

Ascending-le : (ws : List PaneWatcher) (lo hi : ℕ) → Ascending lo hi ws → lo ≤ hi
Ascending-le [] lo hi a = a
Ascending-le (w ∷ ws) lo hi a = omega (arith, a.0, Ascending-le ws (suc w.key) hi a.1)

find-fresh : (ws : List PaneWatcher) (lo hi : ℕ) → Ascending lo hi ws → find hi ws ≡ none
unfolding find
find-fresh [] lo hi a = refl
find-fresh (w ∷ ws) lo hi a =
    let below = Ascending-le ws (suc w.key) hi a.1 in
    elim (Bool-cases (w.key == hi)) [
      | inl same ↦ absurd (ground arith)
      | inr other ↦ rw other (find-fresh ws (suc w.key) hi a.1)
    ]

accepted-find :
    (json : Json) (req : WaitRequest) (s s' : Store) (rs : List Round) (o : Outcome)
    → HasKeys s
    → validate req ≡ none
    → wait json req s rs ≡ (s', o)
    → is_done o ≡ true
    → (find (Store.watch s req.pane_id).1 s'.watchers ≡ none) × HasKeys s'
unfolding apply Store.watch Store.cancel
accepted-find json req s s' rs o h v e d =
    let (t, l, g) = wait-loop json req s s' rs o v e d in
    let kept =
      loop-HasKeys json req s.next_key (checkpoint_at json req.after) rs false _
        (apply-HasKeys json s (watch_op req.pane_id) h) in
    let t_keys : HasKeys t = subst (λ p. HasKeys p.0) l kept in
    subst (λ u. (find s.next_key u.watchers ≡ none) × HasKeys u) (sym g)
      (
        find-remove_first_self t.watchers 0 t.next_key s.next_key t_keys,
        apply-HasKeys json t (cancel_op s.next_key) t_keys,
      )

wait-refused :
    (json : Json) (req : WaitRequest) (s s' : Store) (rs : List Round) (o : Outcome)
    (e : ErrorResponse)
    → validate req ≡ some e
    → wait json req s rs ≡ (s', o)
    → s ≡ s'
unfolding wait
wait-refused json req s s' rs o e v h = ap (λ p. p.0) (rw (v, wait) at h)

-- A wait that returns, whatever it returns and also when it refuses its request, leaves no watcher in the
-- store under the key that the next call of `Watch` would have given out when it began, and leaves the
-- keys of the others distinct. The condition is that the watchers' keys are distinct and were all given
-- out when it began.
pub wait-find :
    (json : Json) (req : WaitRequest) (s s' : Store) (rs : List Round) (o : Outcome)
    → HasKeys s
    → wait json req s rs ≡ (s', o)
    → is_done o ≡ true
    → (find (Store.watch s req.pane_id).1 s'.watchers ≡ none) × HasKeys s'
unfolding Store.watch
wait-find json req s s' rs o h e d = elim (Option-cases (validate req)) [
  | inl v ↦ accepted-find json req s s' rs o h v e d
  | inr (x, v) ↦
      subst (λ u. (find (Store.watch s req.pane_id).1 u.watchers ≡ none) × HasKeys u)
        (wait-refused json req s s' rs o x v e) (find-fresh s.watchers 0 s.next_key h, h)
]
