-- ===== src/Controller/Wait/Ends.antt =====
-- How `Wait` ends: the round that ended its loop, and what that round saw.
use tmux_pane_control.Prelude.{
  ℕ, ◌≡◌, refl, sym, ap, ◌∙◌, inl, inr, Bool, true, false, not, ◌||◌, List, [], ◌∷◌, ◌++◌, Option,
  none, some, Bytes, is_empty, arith, Bool-cases, Option-cases, Result,
}
use tmux_pane_control.Token.{Json, StoreError}
use tmux_pane_control.Store
use tmux_pane_control.Store.{Store}
use tmux_pane_control.Store.Refine.{apply_all}
use tmux_pane_control.Textnorm.{strip_ansi_and_cr}
use tmux_pane_control.Waiter.{SentinelMatch, match_sentinel, match_regex}
use tmux_pane_control.Domain.{ErrorResponse, WaitResponse}
use tmux_pane_control.Controller.Wait.{
  WaitMode, sentinel, regex, quiescence, unsupported, WaitRequest, Wake, signalled, quiet_elapsed,
  timed_out, cancelled, Round, Outcome, matched, failed, aborted, continues, timeout_response,
  woken, evaluate, round, loop, deferred, wait, validate, checkpoint_at, reference, is_quiet,
}

abbrev pub is_done : Outcome → Bool
is_done continues = false
is_done (matched w) = true
is_done (failed e) = true
is_done aborted = true

-- The round that ended a loop: the rounds before it all went on, and left the store that it starts with.
pub record Ended (json : Json) (req : WaitRequest) (k : ℕ) (checkpoint : Option ℕ) (known : Bool)
    (s : Store) (rs : List Round) (s' : Store) (o : Outcome) : Type 0 where
  pub earlier : List Round
  pub last : Round
  pub later : List Round
  pub from : Store
  pub splits : rs ≡ earlier ++ (last ∷ later)
  pub reached : loop json req k checkpoint known s earlier ≡ (from, continues)
  pub ends : round json req k checkpoint (known || not (is_empty earlier)) from last ≡ (s', o)

module _ (json : Json) (req : WaitRequest) (k : ℕ) (checkpoint : Option ℕ) where
  -- The loop behind the round that it starts with.
  abbrev pub behind : Store × Outcome → List Round → Store × Outcome
  behind p rs =
      let rest = loop json req k checkpoint true p.0 rs in
      elim p.1 [
        | continues ↦ rest
        | matched w ↦ (p.0, matched w)
        | failed e ↦ (p.0, failed e)
        | aborted ↦ (p.0, aborted)
      ]

  pub loop-Ended :
      (rs : List Round) (known : Bool) (s s' : Store) (o : Outcome)
      → loop json req k checkpoint known s rs ≡ (s', o)
      → is_done o ≡ true
      → Ended json req k checkpoint known s rs s' o
  unfolding loop
  loop-Ended [] known s s' o e d = cc (ap is_done (ap (λ p. p.1) e) ∙ d)
  loop-Ended (r ∷ rs) known s s' o e d =
      go (round json req k checkpoint known s r) refl e (λ t f. loop-Ended rs true t s' o f d)
    where
      here :
          (p : Store × Outcome)
          → round json req k checkpoint known s r ≡ p
          → p ≡ (s', o)
          → Ended json req k checkpoint known s (r ∷ rs) s' o
      here p f g = record {
        earlier = [];
        last = r;
        later = rs;
        from = s;
        splits = refl;
        reached = refl;
        ends = ap (λ b. round json req k checkpoint b s r) (ground arith) ∙ f ∙ g;
      }

      go :
          (p : Store × Outcome)
          → round json req k checkpoint known s r ≡ p
          → behind p rs ≡ (s', o)
          → ((t : Store)
              → loop json req k checkpoint true t rs ≡ (s', o)
              → Ended json req k checkpoint true t rs s' o)
          → Ended json req k checkpoint known s (r ∷ rs) s' o
      go (t, matched w) f g rest = here _ f g
      go (t, failed x) f g rest = here _ f g
      go (t, aborted) f g rest = here _ f g
      go (t, continues) f g rest =
          let q = rest t g in
          record {
            earlier = r ∷ q.earlier;
            last = q.last;
            later = q.later;
            from = q.from;
            splits = ap (◌∷◌ r) q.splits;
            reached = ap (λ p. behind p q.earlier) f ∙ q.reached;
            ends = ap (λ b. round json req k checkpoint b q.from q.last) (ground arith) ∙ q.ends;
          }

  -- What the end of the round by its `select` says of its outcome.
  woken-failed :
      (v : Wake) (s s' : Store) (e : ErrorResponse)
      → woken req.pane_id k s v ≡ (s', failed e)
      → (v ≡ timed_out) × (e ≡ timeout_response req.pane_id)
  unfolding woken
  woken-failed signalled s s' e h = cc
  woken-failed quiet_elapsed s s' e h = cc
  woken-failed timed_out s s' e h = (refl, cc)
  woken-failed cancelled s s' e h = cc

  pub woken_unmatched :
      (v : Wake) (s s' : Store) (w : WaitResponse) {X : Type 0}
      → woken req.pane_id k s v ≡ (s', matched w)
      → X
  unfolding woken
  woken_unmatched signalled s s' w h = cc
  woken_unmatched quiet_elapsed s s' w h = cc
  woken_unmatched timed_out s s' w h = cc
  woken_unmatched cancelled s s' w h = cc

  pub evaluate-failed :
      (mode : WaitMode) (r : Round) (s s' : Store) (bytes next : Bytes) (e : ErrorResponse)
      → evaluate json req k mode checkpoint r s bytes next ≡ (s', failed e)
      → (r.wake ≡ timed_out) × (e ≡ timeout_response req.pane_id)
  unfolding evaluate
  evaluate-failed sentinel r s s' bytes next e h =
      elim (Option-cases (match_sentinel (strip_ansi_and_cr bytes) req.sentinel_token)) [
        | inl n ↦ woken-failed r.wake _ s' e (rw (n, evaluate) at h)
        | inr (m, n) ↦ cc (rw (n, evaluate) at h)
      ]
  evaluate-failed regex r s s' bytes next e h = elim (Option-cases req.regex_find) [
    | inl n ↦ woken-failed r.wake _ s' e (rw (n, evaluate) at h)
    | inr (find, n) ↦ elim (Option-cases (match_regex (strip_ansi_and_cr bytes) find)) [
      | inl q ↦ woken-failed r.wake _ s' e (rw (n, q, evaluate) at h)
      | inr (m, q) ↦ cc (rw (n, q, evaluate) at h)
    ]
  ]
  evaluate-failed quiescence r s s' bytes next e h =
      elim (Bool-cases (
        is_quiet
          (reference checkpoint (Store.last_append (apply_all json s r.meanwhile) req.pane_id))
          r.since_at req.quiet_window)) [
            | inl q ↦ cc (rw (q, evaluate) at h)
            | inr q ↦ woken-failed r.wake _ s' e (rw (q, evaluate) at h)
          ]
  evaluate-failed unsupported r s s' bytes next e h = woken-failed r.wake _ s' e h

  abbrev pub response_of : Outcome → WaitResponse → WaitResponse
  response_of (matched w) v = w
  response_of o v = v

  pub evaluate-sentinel :
      (r : Round) (s s' : Store) (bytes next : Bytes) (w : WaitResponse)
      → evaluate json req k sentinel checkpoint r s bytes next ≡ (s', matched w)
      → (m : SentinelMatch) × (match_sentinel (strip_ansi_and_cr bytes) req.sentinel_token ≡ some m)
        × (w.matched ≡ some m.matched)
        × (w.exit_code ≡ some m.exit_code)
        × (w.next ≡ next)
        × (w.pane_id ≡ req.pane_id)
  unfolding evaluate
  evaluate-sentinel r s s' bytes next w h =
      elim (Option-cases (match_sentinel (strip_ansi_and_cr bytes) req.sentinel_token)) [
        | inl n ↦ woken_unmatched r.wake _ s' w (rw (n, evaluate) at h)
        | inr (m, n) ↦
            let g = ap (λ p. response_of p.1 w) (rw (n, evaluate) at h) in
            (
              m,
              n,
              sym (ap (λ v. v.matched) g),
              sym (ap (λ v. v.exit_code) g),
              sym (ap (λ v. v.next) g),
              sym (ap (λ v. v.pane_id) g),
            )
      ]

-- What `Store.Read` returned in a round.
abbrev pub round_read : Json → WaitRequest → Store → Round → Result StoreError (Bytes × Bytes)
round_read json req s r =
    let first = apply_all json s r.before in
    Store.read json first (apply_all json first r.between) req.pane_id req.after r.read_at

deferred-done :
    (k : ℕ) (p : Store × Outcome) (s' : Store) (o : Outcome)
    → deferred k p ≡ (s', o)
    → is_done o ≡ true
    → (t : Store) × (p ≡ (t, o)) × (s' ≡ Store.cancel t k)
unfolding deferred
deferred-done k (t, continues) s' o e d = cc (ap is_done (ap (λ q. q.1) e) ∙ d)
deferred-done k (t, matched w) s' o e d = (t, ap (λ q. (t, q.1)) e, sym (ap (λ q. q.0) e))
deferred-done k (t, failed x) s' o e d = (t, ap (λ q. (t, q.1)) e, sym (ap (λ q. q.0) e))
deferred-done k (t, aborted) s' o e d = (t, ap (λ q. (t, q.1)) e, sym (ap (λ q. q.0) e))

-- The loop of a wait that ended.
pub wait-loop :
    (json : Json) (req : WaitRequest) (s s' : Store) (rs : List Round) (o : Outcome)
    → validate req ≡ none
    → wait json req s rs ≡ (s', o)
    → is_done o ≡ true
    → (t : Store) × (loop json req s.next_key
          (checkpoint_at json req.after)
          false
          (Store.watch s req.pane_id).0
          rs
        ≡ (t, o))
      × (s' ≡ Store.cancel t s.next_key)
unfolding wait Store.watch
wait-loop json req s s' rs o v e d = deferred-done s.next_key _ s' o (rw (v, wait) at e) d

-- What the loop of a wait leaves in the store with rounds that all go on.
abbrev pub Reached : Json → WaitRequest → Store → List Round → Store → Type 0
Reached json req s rs from =
    let (watched, k) = Store.watch s req.pane_id in
    loop json req k (checkpoint_at json req.after) false watched rs ≡ (from, continues)
