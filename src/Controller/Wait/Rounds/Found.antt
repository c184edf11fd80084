-- ===== src/Controller/Wait/Rounds/Found.antt =====
-- The loop of a wait for a sentinel over rounds that go on.
use tmux_pane_control.Prelude.{
  ℕ, ◌≤◌, ◌≡◌, refl, sym, ap, ◌∙◌, inl, inr, Bool, true, List, [], ◌∷◌, ◌++◌, Option, none, some,
  Bytes, length, append-nil, arith, Option-cases, ok, subst,
}
use tmux_pane_control.Token.{Json, IsPlain, encode_token}
use tmux_pane_control.Store
use tmux_pane_control.Store.{Store}
use tmux_pane_control.Store.Spec.{Streams}
use tmux_pane_control.Store.Refine.{apply_all}
use tmux_pane_control.Store.Read.{read-encode_token}
use tmux_pane_control.Store.Checkpoint.{appended, answer_since}
use tmux_pane_control.Textnorm.{strip_ansi_and_cr}
use tmux_pane_control.Waiter.{SentinelMatch, match_sentinel}
use tmux_pane_control.Domain.{WaitResponse}
use tmux_pane_control.Controller.Wait.{
  sentinel, WaitRequest, Wake, signalled, quiet_elapsed, timed_out, cancelled, Round, Outcome,
  matched, continues, received, woken, evaluate, round, loop,
}
use tmux_pane_control.Controller.Wait.Ends.{behind, round_read}
use tmux_pane_control.Controller.Wait.Matched.{response, round-hit}
use tmux_pane_control.Controller.Wait.Rounds.Calls.{
  Ahead, Ahead-append, Ahead-first, AllFit-append, AllGoOn, GoesOn, Keeps-append, Since,
  appended_twice, apply_all-Since, apply_twice-Since, calls_until, received-Since,
}

-- What a wait for a sentinel reports: the first match in the stripped text of what a read returned, which
-- are the first bytes of the pane since the token, and a token for the end of these bytes.
pub record Finds (json : Json) (req : WaitRequest) (instance_id old since : Bytes) (o : Outcome)
    : Type 0 where
  pub response : WaitResponse
  pub ends : o ≡ matched response
  pub bytes : Bytes
  pub rest : Bytes
  pub now : ℕ
  pub found : SentinelMatch
  pub is_prefix : since ≡ bytes ++ rest
  pub hit : match_sentinel (strip_ansi_and_cr bytes) req.sentinel_token ≡ some found
  pub matched_is : response.matched ≡ some found.matched
  pub code_is : response.exit_code ≡ some found.exit_code
  pub next_is :
      response.next ≡ encode_token json instance_id req.pane_id (length (old ++ bytes)) now

module _ (json : Json) (req : WaitRequest) (k minted : ℕ) (checkpoint : Option ℕ) (capacity : ℕ)
    (instance_id old : Bytes) (mode : req.mode ≡ sentinel)
    (token : req.after ≡ encode_token json instance_id req.pane_id (length old) minted)
    (plain : IsPlain
      (record { i = instance_id; p = req.pane_id; o = length old; t = minted })) where
  abbrev Seen : Store → Streams → Bytes → Type 0
  Seen = Since json capacity instance_id req.pane_id old

  abbrev token_now : Bytes → ℕ → Bytes
  token_now since now = encode_token json instance_id req.pane_id (length (old ++ since)) now

  read-Seen :
      (s s' : Store) (m m' : Streams) (since since' : Bytes) (now : ℕ)
      → Seen s m since
      → Seen s' m' since'
      → length since' ≤ capacity
      → Store.read json s s' req.pane_id req.after now ≡ ok (since', token_now since' now)
  read-Seen s s' m m' since since' now h h' short =
      ap (λ t. Store.read json s s' req.pane_id t now) token
      ∙ ap
          (λ n.
            Store.read json s s' req.pane_id (encode_token json n req.pane_id (length old) minted)
              now)
          (sym h.instance_is)
      ∙ read-encode_token json s s' m m' req.pane_id h.tracks h'.tracks (length old) minted now
          (rw h.instance_is plain)
      ∙ rw (h.stream, h'.stream, h'.capacity_is, h'.instance_is)
          (answer_since capacity (λ end. encode_token json instance_id req.pane_id end now) old
              since'
            ∙ ground arith)

  round_read-Seen :
      (s : Store) (m : Streams) (since : Bytes) (r : Round)
      → Seen s m since
      → Ahead capacity req.pane_id m since (r.before ++ r.between)
      → let all = since ++ appended req.pane_id (r.before ++ r.between) in
        round_read json req s r ≡ ok (all, token_now all r.read_at)
  round_read-Seen s m since r h a =
      read-Seen _ _ _ _ _ _ r.read_at
        (apply_all-Since json capacity instance_id req.pane_id old r.before s m since h
          (Keeps-append req.pane_id r.before r.between a.keeps).0
          (AllFit-append r.before r.between m a.fits).0)
        (apply_twice-Since json capacity instance_id req.pane_id old r.before r.between s m since h
          a.keeps a.fits)
        a.short

  abbrev at_select : Store → Round → Store
  at_select s r = apply_all json (apply_all json (apply_all json s r.before) r.between) r.waiting

  round-miss :
      (known : Bool) (s : Store) (r : Round) (bytes next : Bytes)
      → round_read json req s r ≡ ok (bytes, next)
      → match_sentinel (strip_ansi_and_cr bytes) req.sentinel_token ≡ none
      → round json req k checkpoint known s r ≡ woken req.pane_id k (at_select s r) r.wake
  unfolding round evaluate
  round-miss known s r bytes next e miss =
      rw (e, round)
        (ap
            (λ o.
              evaluate json req k o checkpoint r
                (apply_all json (apply_all json s r.before) r.between) bytes next)
            mode
          ∙ rw (miss, evaluate))

  woken-Seen :
      (v : Wake) (s : Store) (m : Streams) (since : Bytes)
      → GoesOn v
      → Seen s m since
      → (t : Store) × (woken req.pane_id k s v ≡ (t, continues)) × Seen t m since
  unfolding woken
  woken-Seen signalled s m since g h =
      (received k s, refl, received-Since json capacity instance_id req.pane_id old k s m since h)
  woken-Seen quiet_elapsed s m since g h = (s, refl, h)
  woken-Seen timed_out s m since g h = elim g [ ]
  woken-Seen cancelled s m since g h = elim g [ ]

  loop-goes_on :
      (known : Bool) (s t : Store) (r : Round) (rs : List Round)
      → round json req k checkpoint known s r ≡ (t, continues)
      → loop json req k checkpoint known s (r ∷ rs) ≡ loop json req k checkpoint true t rs
  unfolding loop
  loop-goes_on known s t r rs e = ap (λ p. behind json req k checkpoint p rs) e

  loop-ends :
      (known : Bool) (s t : Store) (r : Round) (rs : List Round) (w : WaitResponse)
      → round json req k checkpoint known s r ≡ (t, matched w)
      → (loop json req k checkpoint known s (r ∷ rs)).1 ≡ matched w
  unfolding loop
  loop-ends known s t r rs w e = rw (e, loop)

  round-Finds :
      (known : Bool) (s : Store) (m : Streams) (since rest : Bytes) (r : Round) (rs : List Round)
      (h : SentinelMatch)
      → Seen s m since
      → Ahead capacity req.pane_id m since (r.before ++ r.between)
      → match_sentinel
          (strip_ansi_and_cr (since ++ appended req.pane_id (r.before ++ r.between)))
          req.sentinel_token
        ≡ some h
      → Finds json req instance_id old
          ((since ++ appended req.pane_id (r.before ++ r.between)) ++ rest)
          (loop json req k checkpoint known s (r ∷ rs)).1
  round-Finds known s m since rest r rs h seen a hit =
      let all = since ++ appended req.pane_id (r.before ++ r.between) in
      record {
        response = response json req all (token_now all r.read_at) h mode hit;
        ends = loop-ends known s _ r rs _ (
            round-hit json req all (token_now all r.read_at) h mode hit k checkpoint known s r
              (round_read-Seen s m since r seen a));
        bytes = all;
        rest = rest;
        now = r.read_at;
        found = h;
        is_prefix = refl;
        hit = hit;
        matched_is = refl;
        code_is = refl;
        next_is = refl;
      }

  pub loop-Finds :
      (earlier : List Round) (known : Bool) (s : Store) (m : Streams) (since : Bytes) (r : Round)
      (rs : List Round) (h : SentinelMatch)
      → Seen s m since
      → Ahead capacity req.pane_id m since (calls_until earlier r)
      → AllGoOn earlier
      → match_sentinel
          (strip_ansi_and_cr (since ++ appended req.pane_id (calls_until earlier r)))
          req.sentinel_token
        ≡ some h
      → Finds json req instance_id old
          (since ++ appended req.pane_id (calls_until earlier r))
          (loop json req k checkpoint known s (earlier ++ (r ∷ rs))).1
  loop-Finds [] known s m since r rs h seen a go hit =
      subst (λ b. Finds json req instance_id old b (loop json req k checkpoint known s (r ∷ rs)).1)
        (append-nil _) (round-Finds known s m since [] r rs h seen a hit)
  loop-Finds (e ∷ es) known s m since r rs h seen a (goes, go) hit =
      let head = e.before ++ e.between in
      let tail = e.waiting ++ calls_until es r in
      let a1 = Ahead-first json capacity instance_id req.pane_id old head tail m since a in
      let a2 = Ahead-append json capacity instance_id req.pane_id old head tail m since a in
      let all = since ++ appended req.pane_id head in
      let join = appended_twice req.pane_id since head tail in
      let read = round_read-Seen s m since e seen a1 in
      elim (Option-cases (match_sentinel (strip_ansi_and_cr all) req.sentinel_token)) [
        | inr (h', found) ↦
            subst
              (λ b.
                Finds json req instance_id old b
                  (loop json req k checkpoint known s (e ∷ (es ++ (r ∷ rs)))).1)
              join
              (round-Finds known s m since (appended req.pane_id tail) e (es ++ (r ∷ rs)) h' seen a1
                found)
        | inl miss ↦
            let second =
              apply_twice-Since json capacity instance_id req.pane_id old e.before e.between s m
                since seen a1.keeps a1.fits in
            let third =
              apply_all-Since json capacity instance_id req.pane_id old e.waiting _ _ _ second
                (Keeps-append req.pane_id e.waiting (calls_until es r) a2.keeps).0
                (AllFit-append e.waiting (calls_until es r) _ a2.fits).0 in
            let (t, woke, seen') = woken-Seen e.wake _ _ _ goes third in
            let more = appended_twice req.pane_id all e.waiting (calls_until es r) in
            let ih =
              loop-Finds es true t _ _ r rs h seen'
                (Ahead-append json capacity instance_id req.pane_id old e.waiting (calls_until es r)
                  _ _ a2)
                go
                (subst (λ b. match_sentinel (strip_ansi_and_cr b) req.sentinel_token ≡ some h)
                  (sym (more ∙ join)) hit) in
            subst
              (λ b.
                Finds json req instance_id old b
                  (loop json req k checkpoint known s (e ∷ (es ++ (r ∷ rs)))).1)
              (more ∙ join)
              (subst (Finds json req instance_id old _)
                (sym (
                  ap (λ p. p.1)
                    (loop-goes_on known s t e (es ++ (r ∷ rs))
                      (round-miss known s e all (token_now all e.read_at) read miss ∙ woke))))
                ih)
      ]
