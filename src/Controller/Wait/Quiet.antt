-- ===== src/Controller/Wait/Quiet.antt =====
-- What a wait for quiescence reports, against the formula of its mode.
use tmux_pane_control.Prelude.{
  ℕ, ◌+◌, ◌≤◌, ◌≡◌, refl, sym, ap, ◌∙◌, Bool, true, false, List, ◌∷◌, ◌++◌, Option, none, some,
  Bytes, Result, ok, err, arith, Bool-cases, inl, inr, subst,
}
use tmux_pane_control.Prelude.Int64.{ltb64}
use tmux_pane_control.Token.{Json, StoreError}
use tmux_pane_control.Store
use tmux_pane_control.Store.{Store}
use tmux_pane_control.Store.Refine.{apply_all}
use tmux_pane_control.Domain.{WaitResponse, wait_quiescence}
use tmux_pane_control.Controller.Wait.{
  WaitRequest, quiescence, Round, matched, instant, reference, is_quiet, evaluate, round, wait,
  validate, checkpoint_at,
}
use tmux_pane_control.Controller.Wait.Latest.{seen, latest, calls_until, latest-loop}
use tmux_pane_control.Controller.Wait.Ends.{
  loop-Ended, woken_unmatched, response_of, round_read, wait-loop, Reached,
}

-- At `now`, the window has passed since a time, if there is one.
abbrev pub Passed : Option ℕ → ℕ → ℕ → Type 0
Passed none now window = Unit
Passed (some t) now window = instant t + window ≤ instant now

is_quiet-Passed :
    (checkpoint last : Option ℕ) (now window : ℕ)
    → is_quiet (reference checkpoint last) now window ≡ true
    → Passed checkpoint now window × Passed last now window
unfolding is_quiet reference ltb64
is_quiet-Passed none none now window h = (tt, tt)
is_quiet-Passed none (some a) now window h = (tt, ground arith)
is_quiet-Passed (some t) none now window h = (ground arith, tt)
is_quiet-Passed (some t) (some a) now window h = elim (Bool-cases (ltb64 t a)) [
  | inl l ↦ let q = rw l at h in (ground (arith, q, l), ground (arith, q))
  | inr l ↦ let q = rw l at h in (ground (arith, q), ground (arith, q, l))
]

-- The round that found the pane quiet, in the run of the wait.
pub record Quieted (json : Json) (req : WaitRequest) (s : Store) (rs : List Round)
    (w : WaitResponse) : Type 0 where
  pub earlier : List Round
  pub last : Round
  pub later : List Round
  pub from : Store
  pub splits : rs ≡ earlier ++ (last ∷ later)
  pub reached : Reached json req s earlier from
  pub since_checkpoint : Passed (checkpoint_at json req.after) last.since_at req.quiet_window
  pub since_append :
      Passed
        (latest req.pane_id (Store.last_append s req.pane_id) (calls_until earlier last))
        last.since_at
        req.quiet_window
  pub next_is :
      w.next
      ≡ (Store.new_token json
          (apply_all json (seen json from last) last.minting)
          req.pane_id
          last.mint_at).1
  pub result_is : w.result ≡ wait_quiescence
  pub pane_is : w.pane_id ≡ req.pane_id

module _ (json : Json) (req : WaitRequest) (k : ℕ) (checkpoint : Option ℕ) where
  evaluate-quiet :
      (r : Round) (s s' : Store) (bytes next : Bytes) (w : WaitResponse)
      → evaluate json req k quiescence checkpoint r s bytes next ≡ (s', matched w)
      → (is_quiet
            (reference checkpoint (Store.last_append (apply_all json s r.meanwhile) req.pane_id))
            r.since_at
            req.quiet_window
          ≡ true)
        × (w.next
            ≡ (Store.new_token json
                (apply_all json (apply_all json s r.meanwhile) r.minting)
                req.pane_id
                r.mint_at).1)
        × (w.result ≡ wait_quiescence)
        × (w.pane_id ≡ req.pane_id)
  unfolding evaluate
  evaluate-quiet r s s' bytes next w h =
      elim (Bool-cases (
        is_quiet
          (reference checkpoint (Store.last_append (apply_all json s r.meanwhile) req.pane_id))
          r.since_at req.quiet_window)) [
            | inl q ↦
                let g = ap (λ p. response_of json req k checkpoint p.1 w) (rw (q, evaluate) at h) in
                (
                  q,
                  sym (ap (λ v. v.next) g),
                  sym (ap (λ v. v.result) g),
                  sym (ap (λ v. v.pane_id) g),
                )
            | inr q ↦ woken_unmatched json req k checkpoint r.wake _ s' w (rw (q, evaluate) at h)
          ]

round-Quieted :
    (json : Json) (req : WaitRequest) (s : Store) (rs later : List Round) (last : Round)
    (from : Store) (k : ℕ) (known : Bool) (earlier : List Round) (t : Store) (w : WaitResponse)
    (p : Result StoreError (Bytes × Bytes))
    → req.mode ≡ quiescence
    → rs ≡ earlier ++ (last ∷ later)
    → Reached json req s earlier from
    → round_read json req from last ≡ p
    → round json req k (checkpoint_at json req.after) known from last ≡ (t, matched w)
    → Quieted json req s rs w
unfolding round Store.watch Store.last_append
round-Quieted json req s rs later last from k known earlier t w (err x) mode splits reached f h =
    cc (rw (f, round) at h)
round-Quieted json req s rs later last from k known earlier t w (ok (bytes, next)) mode splits
      reached f h =
    let c = checkpoint_at json req.after in
    let (quiet, n, result, pane) =
      evaluate-quiet json req k c last
        (apply_all json (apply_all json from last.before) last.between) t bytes next w
        (ap
            (λ m.
              evaluate json req k m c last
                (apply_all json (apply_all json from last.before) last.between) bytes next)
            (sym mode)
          ∙ rw (f, round) at h) in
    let (since, append) = is_quiet-Passed c _ last.since_at req.quiet_window quiet in
    record {
      earlier = earlier;
      last = last;
      later = later;
      from = from;
      splits = splits;
      reached = reached;
      since_checkpoint = since;
      since_append =
          subst (λ t. Passed t last.since_at req.quiet_window)
            (latest-loop json req s.next_key c req.pane_id earlier last false
              (Store.watch s req.pane_id).0 from mode reached)
            append;
      next_is = n;
      result_is = result;
      pane_is = pane;
    }

-- A wait for quiescence that passes its checks and reports a match found, in some round of its run, that
-- the quiet window had passed since its checkpoint and since the last append to the pane: that of the last
-- call of `Append` with bytes for the pane, in all rounds up to this one's look at it and behind the last
-- `Forget` of the pane, or else that which the store had at the start. It reports a token that the store
-- minted behind that.
pub wait-Quieted :
    (json : Json) (req : WaitRequest) (s s' : Store) (rs : List Round) (w : WaitResponse)
    → validate req ≡ none
    → req.mode ≡ quiescence
    → wait json req s rs ≡ (s', matched w)
    → Quieted json req s rs w
unfolding Store.watch
wait-Quieted json req s s' rs w v mode h =
    let (t, l, _) = wait-loop json req s s' rs (matched w) v h refl in
    let q =
      loop-Ended json req s.next_key (checkpoint_at json req.after) rs false
        (Store.watch s req.pane_id).0 t (matched w) l refl in
    round-Quieted json req s rs q.later q.last q.from s.next_key _ q.earlier t w _ mode q.splits
      q.reached refl q.ends
