-- ===== src/Controller/Wait/Matched.antt =====
-- A wait reports the sentinel that was printed since its checkpoint.
use tmux_pane_control.Prelude.{
  ℕ, ◌≤◌, ◌<◌, ◌≡◌, refl, sym, ap, ◌∙◌, Bool, false, List, [], ◌∷◌, ◌++◌, Option, none, some, Bytes,
  is_empty, length, arith, ok,
}
use tmux_pane_control.Prelude.Int64.{two63, two64}
use tmux_pane_control.Token.{Json, encode_token}
use tmux_pane_control.Token.Base64.{Below}
use tmux_pane_control.Store
use tmux_pane_control.Store.{Store}
use tmux_pane_control.Store.Spec
use tmux_pane_control.Store.Spec.{Streams, so_far, Op, watch_op, AllFit}
use tmux_pane_control.Store.Refine.{Tracks, apply, apply_all}
use tmux_pane_control.Store.Checkpoint.{appended, Keeps, read-new_token}
use tmux_pane_control.Textnorm.{strip_ansi_and_cr}
use tmux_pane_control.Waiter.{SentinelMatch, match_sentinel, sentinel_marker, decimal}
use tmux_pane_control.Waiter.Sentinel.{AllDigits, starts_with_digit, match_sentinel_total}
use tmux_pane_control.Domain.{WaitResponse, wait_sentinel}
use tmux_pane_control.Controller.Wait.{
  sentinel, WaitRequest, Round, matched, evaluate, round, loop, deferred, wait, validate,
  checkpoint_at,
}
use tmux_pane_control.Controller.Wait.Ends.{round_read}

pub apply_all-append :
    (json : Json) (ops ops' : List Op) (s : Store)
    → apply_all json s (ops ++ ops') ≡ apply_all json (apply_all json s ops) ops'
unfolding apply_all
apply_all-append json [] ops' s = refl
apply_all-append json (op ∷ ops) ops' s = apply_all-append json ops ops' (apply json s op)

-- The calls on the store from the minting of the token to the read of the wait's first round.
abbrev pub until_read : WaitRequest → List Op → Round → List Op
until_read req ops r = ops ++ (watch_op req.pane_id ∷ r.before)

module _ (json : Json) (req : WaitRequest) (bytes next : Bytes) (m : SentinelMatch)
    (mode : req.mode ≡ sentinel)
    (hit : match_sentinel (strip_ansi_and_cr bytes) req.sentinel_token ≡ some m) where
  abbrev pub response : WaitResponse
  response = record {
    pane_id = req.pane_id;
    next = next;
    result = wait_sentinel;
    matched = some m.matched;
    exit_code = some m.exit_code;
  }

  pub evaluate-hit :
      (k : ℕ) (checkpoint : Option ℕ) (r : Round) (s : Store)
      → evaluate json req k req.mode checkpoint r s bytes next ≡ (s, matched response)
  unfolding evaluate
  evaluate-hit k checkpoint r s =
      ap (λ o. evaluate json req k o checkpoint r s bytes next) mode ∙ rw (hit, evaluate)

  pub round-hit :
      (k : ℕ) (checkpoint : Option ℕ) (known : Bool) (s : Store) (r : Round)
      → round_read json req s r ≡ ok (bytes, next)
      → round json req k checkpoint known s r
        ≡ (apply_all json (apply_all json s r.before) r.between, matched response)
  unfolding round
  round-hit k checkpoint known s r e = rw (e, round) (evaluate-hit k checkpoint r _)

  wait-hit :
      (s : Store) (r : Round) (rs : List Round)
      → validate req ≡ none
      → round_read json req (Store.watch s req.pane_id).0 r ≡ ok (bytes, next)
      → (wait json req s (r ∷ rs)).1 ≡ matched response
  unfolding wait loop deferred
  wait-hit s r rs v e = rw (
    v,
    wait,
    round-hit (Store.watch s req.pane_id).1 (checkpoint_at json req.after) false
        (Store.watch s req.pane_id).0 r e,
    loop,
    deferred,
  )

module _ (json : Json) (req : WaitRequest) (s : Store) (m : Streams) (minted : ℕ) (ops : List Op)
    (r : Round) where
  -- The bytes of the pane since the token, and the store that the wait is called on.
  abbrev since : Bytes
  since = appended req.pane_id (until_read req ops r)

  abbrev called_on : Store
  called_on = apply_all json (Store.new_token json s req.pane_id minted).0 ops

  round_read-new_token :
      Tracks s m
      → Below 128 s.instance_id
      → Below 128 req.pane_id
      → minted < two64
      → req.after ≡ (Store.new_token json s req.pane_id minted).1
      → r.between ≡ []
      → Keeps req.pane_id (until_read req ops r)
      → AllFit two63 (Spec.ensure m req.pane_id) (until_read req ops r)
      → length since ≤ s.capacity
      → round_read json req (Store.watch called_on req.pane_id).0 r
        ≡ ok (
          since,
          encode_token json s.instance_id req.pane_id
              (length (so_far (m req.pane_id) ++ since))
              r.read_at,
        )
  unfolding apply_all apply
  round_read-new_token k pi pp w token still keeps fits short =
      let q =
        read-new_token json s m req.pane_id minted r.read_at (until_read req ops r) k pi pp w keeps
          fits in
      let e =
        apply_all-append json ops (watch_op req.pane_id ∷ r.before)
          (Store.new_token json s req.pane_id minted).0 in
      rw (still, token)
        (ap
            (λ u.
              Store.read json u u req.pane_id (Store.new_token json s req.pane_id minted).1
                r.read_at)
            (sym e)
          ∙ q
          ∙ ground arith)

  -- A wait for a sentinel, whose token was minted for its pane before any calls that do not forget the
  -- pane, reports a match in its first round if the stripped text of the pane since the token holds the
  -- marker with a whole run of digits whose number an int holds, and the buffer still has all of it.
  pub wait-sentinel :
      (rs : List Round) (before ds after : Bytes)
      → Tracks s m
      → Below 128 s.instance_id
      → Below 128 req.pane_id
      → minted < two64
      → validate req ≡ none
      → req.mode ≡ sentinel
      → req.after ≡ (Store.new_token json s req.pane_id minted).1
      → r.between ≡ []
      → Keeps req.pane_id (until_read req ops r)
      → AllFit two63 (Spec.ensure m req.pane_id) (until_read req ops r)
      → length since ≤ s.capacity
      → strip_ansi_and_cr since ≡ before ++ (sentinel_marker req.sentinel_token ++ (ds ++ after))
      → AllDigits ds
      → is_empty ds ≡ false
      → starts_with_digit after ≡ false
      → decimal ds < two63
      → (w : WaitResponse) × ((wait json req called_on (r ∷ rs)).1 ≡ matched w)
        × ((h : SentinelMatch) × (match_sentinel (strip_ansi_and_cr since) req.sentinel_token
              ≡ some h)
            × (w.matched ≡ some h.matched)
            × (w.exit_code ≡ some h.exit_code))
        × (w.next
            ≡ encode_token json s.instance_id req.pane_id
                (length (so_far (m req.pane_id) ++ since))
                r.read_at)
  wait-sentinel rs before ds after k pi pp w v mode token still keeps fits short text digits
        some_digit stops small =
      let (h, hit) =
        match_sentinel_total before ds after req.sentinel_token digits some_digit stops small in
      let found = ap (λ b. match_sentinel b req.sentinel_token) text ∙ hit in
      let read = round_read-new_token k pi pp w token still keeps fits short in
      (
        response json req since _ h mode found,
        wait-hit json req since _ h mode found called_on r rs v read,
        (h, found, refl, refl),
        refl,
      )
