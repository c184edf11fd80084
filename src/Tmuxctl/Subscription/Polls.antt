-- ===== src/Tmuxctl/Subscription/Polls.antt =====
-- Runs of polls: when the server counts as lost, and whose output is tracked.
use tmux_pane_control.Prelude.{
  ℕ, zero, suc, ◌+◌, ◌≡◌, refl, ap, ◌∙◌, Bool, true, false, not, ◌&&◌, ◌||◌, List, [], ◌∷◌, ◌++◌,
  Bytes, leb, if◌then◌else◌, arith, Result, ok, err,
}
use tmux_pane_control.Tmuxctl.Port.{PortError, PaneOutput}
use tmux_pane_control.Tmuxctl.Subscription.{
  Subscription, subscribed, start_trackers, stop_trackers, list_failed, sync,
}

-- What one poll meets: the answer of `ListPanes`, and whose tracker would start.
abbrev pub Poll : Type 0
Poll = Result PortError (List Bytes) × (Bytes → Bool)

unfoldable pub run : Subscription → List Poll → Subscription × List PaneOutput
unfolding sync
run s [] = (s, [])
run s ((panes, starts) ∷ polls) =
    let (s', events) = sync s panes starts in
    let (last, later) = run s' polls in (last, events ++ later)

unfoldable pub lost_count : List PaneOutput → ℕ
lost_count [] = 0
lost_count (e ∷ es) = if e.server_lost then suc (lost_count es) else lost_count es

abbrev pub fails : Poll → Bool
fails (err e, starts) = true
fails (ok panes, starts) = false

-- The first `n` polls fail.
unfoldable pub all_fail : ℕ → List Poll → Bool
all_fail zero polls = true
all_fail (suc n) [] = false
all_fail (suc n) (p ∷ polls) = fails p && all_fail n polls

-- Somewhere three polls in a row fail.
unfoldable pub three_fail : List Poll → Bool
three_fail [] = false
three_fail (p ∷ polls) = all_fail 3 (p ∷ polls) || three_fail polls

lost_count-append : (a b : List PaneOutput) → lost_count (a ++ b) ≡ lost_count a + lost_count b
unfolding lost_count
lost_count-append [] b = ground arith
lost_count-append (e ∷ es) b = ground (arith, lost_count-append es b)

lost_count-stop : (panes ts : List Bytes) → lost_count (stop_trackers panes ts).1 ≡ 0
unfolding lost_count stop_trackers
lost_count-stop panes [] = refl
lost_count-stop panes (t ∷ ts) = ground (arith, lost_count-stop panes ts)

-- The loss that the polls of a run show, after `n` failures in a row.
unfoldable lost_from : ℕ → List Poll → Bool
lost_from n [] = false
lost_from n ((err e, starts) ∷ polls) = leb 3 (suc n) || lost_from (suc n) polls
lost_from n ((ok panes, starts) ∷ polls) = lost_from 0 polls

all_fail-two : (polls : List Poll) → all_fail 2 polls ≡ true → all_fail 1 polls ≡ true
unfolding all_fail
all_fail-two [] h = h
all_fail-two (p ∷ polls) h = ground arith

lost_from-three_fail :
    (polls : List Poll)
    → (lost_from 0 polls ≡ three_fail polls)
      × (lost_from 1 polls ≡ (all_fail 2 polls || three_fail polls))
      × (lost_from 2 polls ≡ (all_fail 1 polls || three_fail polls))
unfolding lost_from all_fail three_fail
lost_from-three_fail [] = (refl, refl, refl)
lost_from-three_fail ((err e, starts) ∷ polls) =
    let (zero_lost, one_lost, two_lost) = lost_from-three_fail polls in
    (one_lost, two_lost ∙ ground (arith, all_fail-two polls), refl)
lost_from-three_fail ((ok panes, starts) ∷ polls) =
    let (zero_lost, one_lost, two_lost) = lost_from-three_fail polls in
    (zero_lost, zero_lost, zero_lost)

lost_count-run :
    (polls : List Poll) (s : Subscription)
    → lost_count (run s polls).1
      ≡ (if not s.lost_notified && lost_from s.consecutive_list_failures polls then 1 else 0)
unfolding run lost_from sync list_failed lost_count
lost_count-run [] s = ground arith
lost_count-run ((err e, starts) ∷ polls) s =
    let failures = s.consecutive_list_failures + 1 in
    let told =
      lost_count-run polls
        (record s { consecutive_list_failures = failures; lost_notified = true }) in
    let untold = lost_count-run polls (record s { consecutive_list_failures = failures }) in
    ground (arith, told, untold)
lost_count-run ((ok panes, starts) ∷ polls) s =
    let kept = stop_trackers panes (start_trackers starts panes s.trackers) in
    let after : Subscription = record s { trackers = kept.0; consecutive_list_failures = 0 } in
    lost_count-append kept.1 (run after polls).1
    ∙ ap (λ n. n + lost_count (run after polls).1)
        (lost_count-stop panes (start_trackers starts panes s.trackers))
    ∙ omega arith
    ∙ lost_count-run polls after

-- Over any polls of a new subscription, the loss of the server is sent once if three polls in a row fail
-- somewhere among them, and never otherwise.
pub run-three_fail :
    (polls : List Poll) → lost_count (run subscribed polls).1 ≡ (if three_fail polls then 1 else 0)
run-three_fail polls =
    lost_count-run polls subscribed ∙ ap (λ b. if b then 1 else 0) (lost_from-three_fail polls).0
