-- ===== src/Controller/Wait/Wakes.antt =====
-- The signal of a wait that is pending: none is lost between a read and the next `select`.
use tmux_pane_control.Prelude.{
  ℕ, ◌≡◌, refl, sym, ap, ◌∙◌, Bool, true, false, ◌||◌, List, [], ◌∷◌, Option, none, some, Bytes,
  arith, Bool-cases, Option-cases, inl, inr, Result, ok, err,
}
use tmux_pane_control.Token.{Json, StoreError}
use tmux_pane_control.Store
use tmux_pane_control.Store.{Store, PaneWatcher}
use tmux_pane_control.Store.Spec.{Op}
use tmux_pane_control.Store.Refine.{apply_all}
use tmux_pane_control.Store.Watch.{
  find, HasKeys, touched, Uncancelled, watcher, apply_all-find, find-fresh,
}
use tmux_pane_control.Textnorm.{strip_ansi_and_cr}
use tmux_pane_control.Waiter.{match_sentinel, match_regex}
use tmux_pane_control.Controller.Wait.{
  WaitMode, sentinel, regex, quiescence, unsupported, WaitRequest, Wake, signalled, quiet_elapsed,
  timed_out, cancelled, Round, Outcome, matched, failed, aborted, continues, take_signal, woken,
  evaluate, round, loop, deferred, wait, validate, checkpoint_at, reference, is_quiet,
}
use tmux_pane_control.Controller.Wait.Ends.{behind, round_read}

-- The calls between a round's read and its `select` that only a wait for quiescence meets.
abbrev pub looked_at : WaitMode → Round → List Op
looked_at sentinel r = []
looked_at regex r = []
looked_at quiescence r = r.meanwhile
looked_at unsupported r = []

-- No call of the rounds cancels the watcher.
abbrev pub AllUncancelled : ℕ → List Round → Type 0
AllUncancelled k [] = Unit
AllUncancelled k (r ∷ rs) =
    (Uncancelled k r.before
      × Uncancelled k r.between
      × Uncancelled k r.meanwhile
      × Uncancelled k r.waiting)
    × AllUncancelled k rs

-- Whether the channel holds a signal at the `select` of a round, and behind it.
abbrev pub at_select : WaitMode → Bytes → Round → Bool → Bool
at_select mode id r b =
    touched id r.waiting
    || (touched id (looked_at mode r) || (touched id r.between || (touched id r.before || b)))

abbrev pub after_wake : Wake → Bool → Bool
after_wake signalled b = false
after_wake quiet_elapsed b = b
after_wake timed_out b = b
after_wake cancelled b = b

-- Whether it holds a signal behind some rounds: the pane was appended to, or forgotten, since the last
-- receive.
abbrev pub pending_after : WaitMode → Bytes → Bool → List Round → Bool
pending_after mode id b [] = b
pending_after mode id b (r ∷ rs) =
    pending_after mode id (after_wake r.wake (at_select mode id r b)) rs

find-take_signal :
    (ws : List PaneWatcher) (k : ℕ) (id : Bytes) (b : Bool)
    → find k ws ≡ some (watcher k id b)
    → find k (take_signal k ws) ≡ some (watcher k id false)
unfolding find take_signal
find-take_signal [] k id b e = cc
find-take_signal (w ∷ ws) k id b e = ground (arith, find-take_signal ws k id b)

module _ (json : Json) (req : WaitRequest) (k : ℕ) (checkpoint : Option ℕ) where
  woken-find :
      (v : Wake) (s t : Store) (b : Bool)
      → woken req.pane_id k s v ≡ (t, continues)
      → find k s.watchers ≡ some (watcher k req.pane_id b)
      → find k t.watchers ≡ some (watcher k req.pane_id (after_wake v b))
  unfolding woken
  woken-find signalled s t b h e =
      ap (λ p. find k p.0.watchers) (sym h) ∙ find-take_signal s.watchers k req.pane_id b e
  woken-find quiet_elapsed s t b h e = ap (λ p. find k p.0.watchers) (sym h) ∙ e
  woken-find timed_out s t b h e = cc h
  woken-find cancelled s t b h e = cc h

  abbrev select_store : WaitMode → Round → Store → Store
  select_store mode r s = apply_all json (apply_all json s (looked_at mode r)) r.waiting

  evaluate-continues :
      (mode : WaitMode) (r : Round) (s t : Store) (bytes next : Bytes)
      → evaluate json req k mode checkpoint r s bytes next ≡ (t, continues)
      → woken req.pane_id k (select_store mode r s) r.wake ≡ (t, continues)
  unfolding evaluate apply_all
  evaluate-continues sentinel r s t bytes next h =
      elim (Option-cases (match_sentinel (strip_ansi_and_cr bytes) req.sentinel_token)) [
        | inl n ↦ rw (n, evaluate) at h
        | inr (m, n) ↦ cc (rw (n, evaluate) at h)
      ]
  evaluate-continues regex r s t bytes next h = elim (Option-cases req.regex_find) [
    | inl n ↦ rw (n, evaluate) at h
    | inr (find, n) ↦ elim (Option-cases (match_regex (strip_ansi_and_cr bytes) find)) [
      | inl q ↦ rw (n, q, evaluate) at h
      | inr (m, q) ↦ cc (rw (n, q, evaluate) at h)
    ]
  ]
  evaluate-continues quiescence r s t bytes next h =
      elim (Bool-cases (
        is_quiet
          (reference checkpoint (Store.last_append (apply_all json s r.meanwhile) req.pane_id))
          r.since_at req.quiet_window)) [
            | inl q ↦ cc (rw (q, evaluate) at h)
            | inr q ↦ rw (q, evaluate) at h
          ]
  evaluate-continues unsupported r s t bytes next h = h

  Uncancelled-looked_at :
      (mode : WaitMode) (r : Round) → Uncancelled k r.meanwhile → Uncancelled k (looked_at mode r)
  Uncancelled-looked_at sentinel r u = tt
  Uncancelled-looked_at regex r u = tt
  Uncancelled-looked_at quiescence r u = u
  Uncancelled-looked_at unsupported r u = tt

  round-continues :
      (known : Bool) (s t : Store) (r : Round)
      → round json req k checkpoint known s r ≡ (t, continues)
      → woken req.pane_id k
          (select_store req.mode r (apply_all json (apply_all json s r.before) r.between))
          r.wake
        ≡ (t, continues)
  unfolding round
  round-continues known s t r h = go (round_read json req s r) refl
    where
      go :
          (p : Result StoreError (Bytes × Bytes))
          → round_read json req s r ≡ p
          → woken req.pane_id k
              (select_store req.mode r (apply_all json (apply_all json s r.before) r.between))
              r.wake
            ≡ (t, continues)
      go (err x) f = cc (rw (f, round) at h)
      go (ok (bytes, next)) f =
          evaluate-continues req.mode r (apply_all json (apply_all json s r.before) r.between) t
            bytes next (rw (f, round) at h)

  round-find :
      (known : Bool) (s t : Store) (r : Round) (b : Bool)
      → round json req k checkpoint known s r ≡ (t, continues)
      → AllUncancelled k (r ∷ [])
      → find k s.watchers ≡ some (watcher k req.pane_id b)
      → find k t.watchers
        ≡ some (watcher k req.pane_id (after_wake r.wake (at_select req.mode req.pane_id r b)))
  round-find known s t r b h ((u1, u2, u3, u4), none_left) e =
      let e1 = apply_all-find json r.before s k req.pane_id b u1 e in
      let e2 = apply_all-find json r.between _ k req.pane_id _ u2 e1 in
      let e3 =
        apply_all-find json (looked_at req.mode r) _ k req.pane_id _
          (Uncancelled-looked_at req.mode r u3) e2 in
      let e4 = apply_all-find json r.waiting _ k req.pane_id _ u4 e3 in
      woken-find r.wake _ t _ (round-continues known s t r h) e4

  loop-find :
      (rs : List Round) (known : Bool) (s t : Store) (b : Bool)
      → loop json req k checkpoint known s rs ≡ (t, continues)
      → AllUncancelled k rs
      → find k s.watchers ≡ some (watcher k req.pane_id b)
      → find k t.watchers ≡ some (watcher k req.pane_id (pending_after req.mode req.pane_id b rs))
  unfolding loop
  loop-find [] known s t b h u e = ap (λ p. find k p.0.watchers) (sym h) ∙ e
  loop-find (r ∷ rs) known s t b h (u, us) e =
      go (round json req k checkpoint known s r) refl h (λ s' here rest.
        loop-find rs true s' t (after_wake r.wake (at_select req.mode req.pane_id r b)) rest us
          (round-find known s s' r b here (u, tt) e))
    where
      Goal : Type 0
      Goal =
          find k t.watchers
          ≡ some (watcher k req.pane_id (pending_after req.mode req.pane_id b (r ∷ rs)))

      go :
          (p : Store × Outcome)
          → round json req k checkpoint known s r ≡ p
          → behind json req k checkpoint p rs ≡ (t, continues)
          → ((s' : Store)
              → round json req k checkpoint known s r ≡ (s', continues)
              → loop json req k checkpoint true s' rs ≡ (t, continues)
              → Goal)
          → Goal
      go (s', matched w) f g rest = cc g
      go (s', failed x) f g rest = cc g
      go (s', aborted) f g rest = cc g
      go (s', continues) f g rest = rest s' f g

undeferred :
    (k : ℕ) (p : Store × Outcome) (t : Store) → deferred k p ≡ (t, continues) → p ≡ (t, continues)
unfolding deferred
undeferred k (s, continues) t h = h
undeferred k (s, matched w) t h = cc h
undeferred k (s, failed e) t h = cc h
undeferred k (s, aborted) t h = cc h

-- A wait that passes its checks and is still pending after some rounds has its watcher in the store; after
-- any further calls, its channel holds a signal exactly if bytes were appended to the wait's pane, or the
-- pane was forgotten, since the receive that last took a signal, or since the wait began. Conditions are
-- that the store's keys are in order and that nobody else cancels the watcher.
pub wait-pending :
    (json : Json) (req : WaitRequest) (s t : Store) (rs : List Round) (ops : List Op)
    → HasKeys s
    → validate req ≡ none
    → wait json req s rs ≡ (t, continues)
    → AllUncancelled (Store.watch s req.pane_id).1 rs
    → Uncancelled (Store.watch s req.pane_id).1 ops
    → find (Store.watch s req.pane_id).1 (apply_all json t ops).watchers
      ≡ some (record {
        key = (Store.watch s req.pane_id).1;
        pane = req.pane_id;
        pending = touched req.pane_id ops || pending_after req.mode req.pane_id false rs;
      })
unfolding wait Store.watch
wait-pending json req s t rs ops keys v h us u =
    apply_all-find json ops t s.next_key req.pane_id (pending_after req.mode req.pane_id false rs) u
      (loop-find json req s.next_key (checkpoint_at json req.after) rs false
        (Store.watch s req.pane_id).0 t false (undeferred s.next_key _ t (rw (v, wait) at h)) us
        (find-fresh s.watchers 0 s.next_key (watcher s.next_key req.pane_id false) refl keys))
