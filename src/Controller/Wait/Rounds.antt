-- ===== src/Controller/Wait/Rounds.antt =====
-- A wait for a sentinel over several rounds of its loop.
pub mod Calls
pub mod Found
use tmux_pane_control.Prelude.{
  ℕ, ◌+◌, ◌≤◌, ◌<◌, ◌≡◌, refl, sym, ap, ◌∙◌, inl, inr, Bool, true, false, List, [], ◌∷◌, ◌++◌,
  Option, none, some, Bytes, bytes_eq_refl, is_empty, length, length-append, append_assoc,
  append-nil, leb, arith, Option-cases, Result, ok, subst,
}
use tmux_pane_control.Prelude.Int64.{two63, two64}
use tmux_pane_control.Token.{Json, IsPlain, encode_token}
use tmux_pane_control.Token.Base64.{Below}
use tmux_pane_control.Store
use tmux_pane_control.Store.{Store}
use tmux_pane_control.Store.Spec
use tmux_pane_control.Store.Spec.{
  Streams, so_far, Op, ensure_op, append_op, forget_op, new_token_op, watch_op, cancel_op, AllFit,
}
use tmux_pane_control.Store.Refine.{
  Tracks, buffer_locked-Tracks, buffer_locked-Holds, apply, apply_all, apply_all-Tracks,
}
use tmux_pane_control.Store.Read.{read-encode_token}
use tmux_pane_control.Store.Checkpoint.{
  appended, Keeps, run-appended, apply_all_fixed, new_token-parts, answer_since,
  instance_id-buffer_locked, capacity-buffer_locked,
}
use tmux_pane_control.Textnorm.{strip_ansi_and_cr}
use tmux_pane_control.Waiter.{SentinelMatch, match_sentinel, sentinel_marker, decimal}
use tmux_pane_control.Waiter.Sentinel.{AllDigits, starts_with_digit, match_sentinel_total}
use tmux_pane_control.Domain.{WaitResponse}
use tmux_pane_control.Controller.Wait.{
  sentinel, WaitRequest, Wake, signalled, quiet_elapsed, timed_out, cancelled, Round, Outcome,
  matched, continues, received, woken, evaluate, round, loop, deferred, wait, validate,
  checkpoint_at,
}
use tmux_pane_control.Controller.Wait.Ends.{behind, round_read}
use tmux_pane_control.Controller.Wait.Matched.{apply_all-append, response, evaluate-hit, round-hit}
use tmux_pane_control.Controller.Wait.Rounds.Calls.{
  Ahead, Ahead-append, Ahead-first, AllFit-append, AllGoOn, GoesOn, Keeps-append, Since,
  appended_twice, apply_all-Since, apply_twice-Since, calls_until, received-Since,
}
use tmux_pane_control.Controller.Wait.Rounds.Found.{Finds, loop-Finds}

-- The calls on the store from the minting of a token to the read of round `r` of a wait.
abbrev pub calls_between : Bytes → List Op → List Round → Round → List Op
calls_between id ops earlier r = (ops ++ (watch_op id ∷ [])) ++ calls_until earlier r

module _ (json : Json) (req : WaitRequest) (s : Store) (m : Streams) (minted : ℕ) (ops : List Op)
    (earlier : List Round) (r : Round) where
  abbrev calls : List Op
  calls = calls_between req.pane_id ops earlier r

  abbrev old : Bytes
  old = so_far (m req.pane_id)

  abbrev minted_store : Store
  minted_store = (Store.new_token json s req.pane_id minted).0

  minted-Since :
      Tracks s m
      → Since json s.capacity s.instance_id req.pane_id old minted_store
          (Spec.ensure m req.pane_id)
          []
  unfolding Spec.ensure
  minted-Since k =
      let (stays, _) = new_token-parts json s m req.pane_id minted k in
      record {
        tracks =
            subst (λ t. Tracks t (Spec.ensure m req.pane_id)) (sym stays)
              (buffer_locked-Tracks s m req.pane_id k);
        stream = rw (bytes_eq_refl req.pane_id, append-nil old) refl;
        capacity_is = ap (λ t. t.capacity) stays ∙ capacity-buffer_locked s req.pane_id;
        instance_is = ap (λ t. t.instance_id) stays ∙ instance_id-buffer_locked s req.pane_id;
      }

  wait_runs :
      (t : Store) (rs : List Round) (w : WaitResponse)
      → validate req ≡ none
      → (loop json req
          (Store.watch t req.pane_id).1
          (checkpoint_at json req.after)
          false
          (Store.watch t req.pane_id).0
          rs).1
        ≡ matched w
      → (wait json req t rs).1 ≡ matched w
  unfolding wait deferred
  wait_runs t rs w v e = rw (v, wait, e, deferred)

  called-Since :
      Tracks s m
      → Ahead s.capacity req.pane_id (Spec.ensure m req.pane_id) [] calls
      → (n : Streams) × (since : Bytes) × Since json s.capacity s.instance_id req.pane_id old
          (Store.watch (apply_all json minted_store ops) req.pane_id).0
          n
          since
        × Ahead s.capacity req.pane_id n since (calls_until earlier r)
        × (since ++ appended req.pane_id (calls_until earlier r) ≡ appended req.pane_id calls)
  unfolding apply_all apply
  called-Since k a =
      let first = ops ++ (watch_op req.pane_id ∷ []) in
      let tail = calls_until earlier r in
      let n = Spec.ensure m req.pane_id in
      let a1 = Ahead-first json s.capacity s.instance_id req.pane_id old first tail n [] a in
      (
        _,
        _,
        apply_twice-Since json s.capacity s.instance_id req.pane_id old ops
            (watch_op req.pane_id ∷ []) minted_store n [] (minted-Since k) a1.keeps a1.fits,
        Ahead-append json s.capacity s.instance_id req.pane_id old first tail n [] a,
        appended_twice req.pane_id [] first tail,
      )

  -- A wait for a sentinel, whose token was minted for its pane before any calls, over a schedule with any
  -- number of rounds that go on by a signal or the quiet timer and then a further round: if the stripped
  -- text of the pane from the token to the read of that round holds the marker with a whole run of digits
  -- whose number an int holds, the wait reports a match, in that round or an earlier one. It is the first
  -- match, among the literals whose number an int holds, in the text that was read, which starts at the
  -- token; and the response's token is for the end of all that text, not of the match. Conditions are that no call forgets the pane, that the buffer keeps all the bytes since the
  -- token, and that no stream grows to 2^63 bytes.
  pub wait-sentinel_rounds :
      (rs : List Round) (before ds after : Bytes)
      → Tracks s m
      → Below 128 s.instance_id
      → Below 128 req.pane_id
      → minted < two64
      → validate req ≡ none
      → req.mode ≡ sentinel
      → req.after ≡ (Store.new_token json s req.pane_id minted).1
      → AllGoOn earlier
      → Keeps req.pane_id calls
      → AllFit two63 (Spec.ensure m req.pane_id) calls
      → length (appended req.pane_id calls) ≤ s.capacity
      → strip_ansi_and_cr (appended req.pane_id calls)
        ≡ before ++ (sentinel_marker req.sentinel_token ++ (ds ++ after))
      → AllDigits ds
      → is_empty ds ≡ false
      → starts_with_digit after ≡ false
      → decimal ds < two63
      → Finds json req s.instance_id
          (so_far (m req.pane_id))
          (appended req.pane_id calls)
          (wait json req (apply_all json minted_store ops) (earlier ++ (r ∷ rs))).1
  wait-sentinel_rounds rs before ds after k pi pp w v mode token go keeps fits short text digits
        some_digit stops small =
      let (h, hit) =
        match_sentinel_total before ds after req.sentinel_token digits some_digit stops small in
      let found = ap (λ b. match_sentinel b req.sentinel_token) text ∙ hit in
      let (_, minted_token) = new_token-parts json s m req.pane_id minted k in
      let (holds, _) = buffer_locked-Holds s m req.pane_id k in
      let (n, since, seen, a, e) =
        called-Since k (record { keeps = keeps; fits = fits; short = short }) in
      let f =
        subst
          (λ b.
            Finds json req s.instance_id old b
              (loop json req (Store.watch (apply_all json minted_store ops) req.pane_id).1
                (checkpoint_at json req.after) false
                (Store.watch (apply_all json minted_store ops) req.pane_id).0
                (earlier ++ (r ∷ rs))).1)
          e
          (loop-Finds json req (Store.watch (apply_all json minted_store ops) req.pane_id).1 minted
            (checkpoint_at json req.after) s.capacity s.instance_id old mode
            (token
              ∙ minted_token
              ∙ ap (λ i. encode_token json i req.pane_id (length old) minted)
                  (instance_id-buffer_locked s req.pane_id))
            (record {
              instance_plain = pi;
              pane_plain = pp;
              offset_int64 = omega (arith, holds.counts.small);
              time_int64 = w;
            })
            earlier false _ n since r rs h seen a go
            (subst (λ b. match_sentinel (strip_ansi_and_cr b) req.sentinel_token ≡ some h) (sym e)
              found)) in
      subst (Finds json req s.instance_id old (appended req.pane_id calls))
        (f.ends ∙ sym (wait_runs _ (earlier ++ (r ∷ rs)) f.response v f.ends)) f
