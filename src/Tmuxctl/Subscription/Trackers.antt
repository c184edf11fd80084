-- ===== src/Tmuxctl/Subscription/Trackers.antt =====
-- One successful poll: which panes are tracked after it, and which it reports as closed.
use tmux_pane_control.Prelude.{
  ◌≡◌, refl, ap, ◌∙◌, Bool, true, false, not, ◌&&◌, ◌||◌, List, [], ◌∷◌, ◌++◌, Bytes, bytes_eq,
  bytes_eq_iff, arith, Bool-cases, inl, inr, ok,
}
use tmux_pane_control.Tmuxctl.Port.{PaneOutput}
use tmux_pane_control.Tmuxctl.Subscription.{
  Subscription, is_member, start_trackers, stop_trackers, sync,
}

-- An event says that the pane was closed.
unfoldable pub is_closed : Bytes → List PaneOutput → Bool
is_closed p [] = false
is_closed p (e ∷ es) = (e.closed && bytes_eq p e.id) || is_closed p es

is_member-concat :
    (p q : Bytes) (ts : List Bytes)
    → is_member p (ts ++ (q ∷ [])) ≡ (is_member p ts || bytes_eq p q)
unfolding is_member
is_member-concat p q [] = ground arith
is_member-concat p q (t ∷ ts) = ground (arith, is_member-concat p q ts)

is_member-eq :
    (p q : Bytes) (ts : List Bytes) → bytes_eq p q ≡ true → is_member p ts ≡ is_member q ts
is_member-eq p q ts h = ap (λ r. is_member r ts) ((bytes_eq_iff p q).0 h)

is_member-start :
    (starts : Bytes → Bool) (p : Bytes) (panes ts : List Bytes)
    → is_member p (start_trackers starts panes ts)
      ≡ (is_member p ts || (is_member p panes && starts p))
unfolding is_member start_trackers
is_member-start starts p [] ts = ground arith
is_member-start starts p (q ∷ qs) ts = elim (Bool-cases (bytes_eq p q)) [
  | inl same ↦
      let e = is_member-eq p q ts same in
      let f = ap starts ((bytes_eq_iff p q).0 same) in
      ground (
        arith,
        is_member-start starts p qs ts,
        is_member-start starts p qs (ts ++ (q ∷ [])),
        is_member-concat p q ts,
      )
  | inr other ↦ ground (
    arith,
    is_member-start starts p qs ts,
    is_member-start starts p qs (ts ++ (q ∷ [])),
    is_member-concat p q ts,
  )
]

is_member-stop :
    (p : Bytes) (panes ts : List Bytes)
    → is_member p (stop_trackers panes ts).0 ≡ (is_member p ts && is_member p panes)
unfolding is_member stop_trackers
is_member-stop p panes [] = refl
is_member-stop p panes (t ∷ ts) = elim (Bool-cases (bytes_eq p t)) [
  | inl same ↦ let e = is_member-eq p t panes same in ground (arith, is_member-stop p panes ts)
  | inr other ↦ ground (arith, is_member-stop p panes ts)
]

is_closed-stop :
    (p : Bytes) (panes ts : List Bytes)
    → is_closed p (stop_trackers panes ts).1 ≡ (is_member p ts && not (is_member p panes))
unfolding is_member is_closed stop_trackers
is_closed-stop p panes [] = refl
is_closed-stop p panes (t ∷ ts) = elim (Bool-cases (bytes_eq p t)) [
  | inl same ↦ let e = is_member-eq p t panes same in ground (arith, is_closed-stop p panes ts)
  | inr other ↦ ground (arith, is_closed-stop p panes ts)
]

-- After a poll that lists some panes, exactly the listed panes are tracked that were tracked before or
-- whose tracker starts; exactly the tracked panes are reported as closed that are not listed; and the
-- count of failures is zero.
pub sync-is_member :
    (s : Subscription) (panes : List Bytes) (starts : Bytes → Bool) (p : Bytes)
    → let (s', events) = sync s (ok panes) starts in
      (is_member p s'.trackers ≡ (is_member p panes && (is_member p s.trackers || starts p)))
      × (is_closed p events ≡ (is_member p s.trackers && not (is_member p panes)))
      × (s'.consecutive_list_failures ≡ 0)
unfolding sync
sync-is_member s panes starts p =
    let started = is_member-start starts p panes s.trackers in
    let all = start_trackers starts panes s.trackers in
    (
      is_member-stop p panes all ∙ rw started (ground arith),
      is_closed-stop p panes all ∙ rw started (ground arith),
      refl,
    )
