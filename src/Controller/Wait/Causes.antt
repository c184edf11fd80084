-- ===== src/Controller/Wait/Causes.antt =====
-- Why `Wait` fails, and that a sentinel it reports was read.
use tmux_pane_control.Prelude.{
  ℕ, ◌≡◌, refl, sym, ap, ◌∙◌, Bool, false, not, ◌||◌, List, [], ◌∷◌, ◌++◌, Option, none, some,
  Bytes, is_empty, Result, ok, err, subst,
}
use tmux_pane_control.Token.{
  Json, StoreError, pane_unknown, token_malformed, token_wrong_instance, token_wrong_pane,
  token_evicted,
}
use tmux_pane_control.Store
use tmux_pane_control.Store.{Store}
use tmux_pane_control.Store.Refine.{apply_all}
use tmux_pane_control.Textnorm.{strip_ansi_and_cr}
use tmux_pane_control.Waiter.{SentinelMatch, sentinel_marker}
use tmux_pane_control.Waiter.Sentinel.{FoundIn, match_sentinel-FoundIn}
use tmux_pane_control.Domain.{ErrorResponse, WaitResponse}
use tmux_pane_control.Controller.{pane_not_found_response, invalid_after_response}
use tmux_pane_control.Controller.Wait.{
  WaitRequest, sentinel, timed_out, Round, Outcome, matched, failed, closed_response,
  timeout_response, read_failed, map_wait_store_error, evaluate, round, wait, validate,
  checkpoint_at,
}
use tmux_pane_control.Controller.Wait.Ends.{
  loop-Ended, evaluate-failed, evaluate-sentinel, round_read, wait-loop, Reached,
}

-- The store refuses the token, in any way but as one of an unknown pane.
abbrev pub Refused : StoreError → Type 0
Refused pane_unknown = ⊥
Refused token_malformed = Unit
Refused token_wrong_instance = Unit
Refused token_wrong_pane = Unit
Refused token_evicted = Unit

-- Why a wait over a schedule fails: its timeout fires in some round; the store does not know the pane in
-- the first round; it knows it no more in a later round; or it refuses the token in some round. The store
-- is the wait's own at that round, behind rounds that all went on.
pub data Failure (json : Json) (req : WaitRequest) (s : Store) (rs : List Round)
    : ErrorResponse → Type 0 where
  by_timeout :
      (earlier later : List Round) (last : Round) (from : Store)
      → rs ≡ earlier ++ (last ∷ later)
      → Reached json req s earlier from
      → last.wake ≡ timed_out
      → Failure json req s rs (timeout_response req.pane_id)
  at_start :
      (later : List Round) (last : Round) (from : Store)
      → rs ≡ last ∷ later
      → Reached json req s [] from
      → round_read json req from last ≡ err pane_unknown
      → Failure json req s rs (pane_not_found_response req.pane_id)
  in_flight :
      (first : Round) (earlier later : List Round) (last : Round) (from : Store)
      → rs ≡ (first ∷ earlier) ++ (last ∷ later)
      → Reached json req s (first ∷ earlier) from
      → round_read json req from last ≡ err pane_unknown
      → Failure json req s rs (closed_response req.pane_id)
  by_token :
      (earlier later : List Round) (last : Round) (from : Store) (e : StoreError)
      → rs ≡ earlier ++ (last ∷ later)
      → Reached json req s earlier from
      → round_read json req from last ≡ err e
      → Refused e
      → Failure json req s rs (invalid_after_response req.pane_id)

module _ (json : Json) (req : WaitRequest) (s : Store) (rs later : List Round) (last : Round)
    (from : Store) where
  read-Failure :
      (earlier : List Round) (e : StoreError)
      → rs ≡ earlier ++ (last ∷ later)
      → Reached json req s earlier from
      → round_read json req from last ≡ err e
      → Failure json req s rs (read_failed (false || not (is_empty earlier)) req.pane_id e)
  unfolding read_failed map_wait_store_error
  read-Failure [] pane_unknown p q r = at_start later last from p q r
  read-Failure (f ∷ earlier) pane_unknown p q r = in_flight f earlier later last from p q r
  read-Failure earlier token_malformed p q r =
      by_token earlier later last from token_malformed p q r tt
  read-Failure earlier token_wrong_instance p q r =
      by_token earlier later last from token_wrong_instance p q r tt
  read-Failure earlier token_wrong_pane p q r =
      by_token earlier later last from token_wrong_pane p q r tt
  read-Failure earlier token_evicted p q r = by_token earlier later last from token_evicted p q r tt

  round-Failure :
      (k : ℕ) (checkpoint : Option ℕ) (earlier : List Round) (s' : Store) (e : ErrorResponse)
      → rs ≡ earlier ++ (last ∷ later)
      → Reached json req s earlier from
      → round json req k checkpoint (false || not (is_empty earlier)) from last ≡ (s', failed e)
      → Failure json req s rs e
  unfolding round
  round-Failure k checkpoint earlier s' e splits reached h = go (round_read json req from last) refl
    where
      error_of : Outcome → ErrorResponse
      error_of (failed x) = x
      error_of o = e

      go :
          (p : Result StoreError (Bytes × Bytes))
          → round_read json req from last ≡ p
          → Failure json req s rs e
      go (err x) f =
          subst (Failure json req s rs) (ap (λ q. error_of q.1) (rw (f, round) at h))
            (read-Failure earlier x splits reached f)
      go (ok (bytes, next)) f =
          let (w, i) =
            evaluate-failed json req k checkpoint req.mode last _ s' bytes next e
              (rw (f, round) at h) in
          subst (Failure json req s rs) (sym i)
            (by_timeout earlier later last from splits reached w)

-- A wait that passes its checks and fails does so for one of the reasons of `Failure`: it reports a
-- timeout only if its timer fired in some round, an unknown pane only if the store did not know it in the first
-- round, a closed pane only if the store did not know it in a later one, and a refused token only if the
-- store refused it; the store is that of the wait's own run at that round, behind rounds that all went on.
pub wait-Failure :
    (json : Json) (req : WaitRequest) (s s' : Store) (rs : List Round) (e : ErrorResponse)
    → validate req ≡ none
    → wait json req s rs ≡ (s', failed e)
    → Failure json req s rs e
unfolding Store.watch
wait-Failure json req s s' rs e v h =
    let (t, l, _) = wait-loop json req s s' rs (failed e) v h refl in
    let q =
      loop-Ended json req s.next_key (checkpoint_at json req.after) rs false
        (Store.watch s req.pane_id).0 t (failed e) l refl in
    round-Failure json req s rs q.later q.last q.from s.next_key (checkpoint_at json req.after)
      q.earlier t e q.splits q.reached q.ends

-- What a wait for a sentinel reports: the read of some round of its run, and the literal in its stripped
-- text.
pub record Reported (json : Json) (req : WaitRequest) (s : Store) (rs : List Round)
    (w : WaitResponse) : Type 0 where
  pub earlier : List Round
  pub last : Round
  pub later : List Round
  pub from : Store
  pub bytes : Bytes
  pub found : SentinelMatch
  pub splits : rs ≡ earlier ++ (last ∷ later)
  pub reached : Reached json req s earlier from
  pub was_read : round_read json req from last ≡ ok (bytes, w.next)
  pub found_in : FoundIn (sentinel_marker req.sentinel_token) (strip_ansi_and_cr bytes) 0 found
  pub matched_is : w.matched ≡ some found.matched
  pub code_is : w.exit_code ≡ some found.exit_code
  pub pane_is : w.pane_id ≡ req.pane_id

module _ (json : Json) (req : WaitRequest) (s : Store) (rs later : List Round) (last : Round)
    (from : Store) where
  round-Reported :
      (k : ℕ) (checkpoint : Option ℕ) (known : Bool) (earlier : List Round) (s' : Store)
      (w : WaitResponse)
      → req.mode ≡ sentinel
      → rs ≡ earlier ++ (last ∷ later)
      → Reached json req s earlier from
      → round json req k checkpoint known from last ≡ (s', matched w)
      → Reported json req s rs w
  unfolding round
  round-Reported k checkpoint known earlier s' w mode splits reached h =
      go (round_read json req from last) refl
    where
      go :
          (p : Result StoreError (Bytes × Bytes))
          → round_read json req from last ≡ p
          → Reported json req s rs w
      go (err x) f = cc (rw (f, round) at h)
      go (ok (bytes, next)) f =
          let (m, hit, text, code, n, pane) =
            evaluate-sentinel json req k checkpoint last _ s' bytes next w (
              ap
                (λ m.
                  evaluate json req k m checkpoint last
                    (apply_all json (apply_all json from last.before) last.between) bytes next)
                (sym mode)
              ∙ rw (f, round) at h) in
          record {
            earlier = earlier;
            last = last;
            later = later;
            from = from;
            bytes = bytes;
            found = m;
            splits = splits;
            reached = reached;
            was_read = f ∙ ap (λ t. ok (bytes, t)) (sym n);
            found_in = match_sentinel-FoundIn (strip_ansi_and_cr bytes) req.sentinel_token m hit;
            matched_is = text;
            code_is = code;
            pane_is = pane;
          }

-- A wait for a sentinel that passes its checks and reports a match read, in some round of its run, bytes
-- from the store as the rounds before left it, whose stripped text holds the marker with a number that an
-- int holds; it reports the first such literal, its number, and the token of that read, which is the one
-- for the end of all the bytes read.
pub wait-Reported :
    (json : Json) (req : WaitRequest) (s s' : Store) (rs : List Round) (w : WaitResponse)
    → validate req ≡ none
    → req.mode ≡ sentinel
    → wait json req s rs ≡ (s', matched w)
    → Reported json req s rs w
unfolding Store.watch
wait-Reported json req s s' rs w v mode h =
    let (t, l, _) = wait-loop json req s s' rs (matched w) v h refl in
    let q =
      loop-Ended json req s.next_key (checkpoint_at json req.after) rs false
        (Store.watch s req.pane_id).0 t (matched w) l refl in
    round-Reported json req s rs q.later q.last q.from s.next_key (checkpoint_at json req.after) _
      q.earlier t w mode q.splits q.reached q.ends
