-- ===== src/Controller/Drain.antt =====
-- The event loop: events reach the store in order, and the loss of the server is remembered.
use tmux_pane_control.Prelude.{
  ℕ, ◌≡◌, refl, sym, ◌∙◌, Bool, true, false, ◌||◌, List, [], ◌∷◌, if◌then◌else◌, arith, subst,
  Bool-cases, inl, inr,
}
use tmux_pane_control.Prelude.Int64.{two63}
use tmux_pane_control.Token.{Json}
use tmux_pane_control.Store.Spec
use tmux_pane_control.Store.Spec.{Streams, Op, append_op, forget_op, AllFit}
use tmux_pane_control.Store.Refine.{Tracks, apply_all, apply_all-Tracks}
use tmux_pane_control.Tmuxctl.Port.{PaneOutput}
use tmux_pane_control.Controller.{Controller, drain_event, drain}

-- The store calls that the events stand for: output is appended, the end of a pane forgets it, and the
-- loss of the server touches no pane.
unfoldable pub calls : List (PaneOutput × ℕ) → List Op
calls [] = []
calls ((ev, now) ∷ evs) =
    if ev.server_lost
    then calls evs
    else if ev.closed
    then forget_op ev.id ∷ calls evs
    else append_op ev.id ev.bytes now ∷ calls evs

unfoldable pub any_lost : List (PaneOutput × ℕ) → Bool
any_lost [] = false
any_lost ((ev, now) ∷ evs) = ev.server_lost || any_lost evs

drain-calls :
    (json : Json) (evs : List (PaneOutput × ℕ)) (c : Controller)
    → (drain c evs).store ≡ apply_all json c.store (calls evs)
unfolding drain calls apply_all drain_event
drain-calls json [] c = refl
drain-calls json ((ev, now) ∷ evs) c = elim (Bool-cases ev.server_lost) [
  | inl lost ↦ rw lost (drain-calls json evs (record c { lost = true }))
  | inr up ↦ elim (Bool-cases ev.closed) [
    | inl gone ↦ rw (up, gone) (drain-calls json evs _)
    | inr out ↦ rw (up, out) (drain-calls json evs _)
  ]
]

pub drain-lost :
    (evs : List (PaneOutput × ℕ)) (c : Controller) → (drain c evs).lost ≡ (c.lost || any_lost evs)
unfolding drain any_lost
drain-lost [] c = ground arith
drain-lost ((ev, now) ∷ evs) c =
    drain-lost evs (drain_event c ev now) ∙ unfold drain_event in ground arith

-- Draining events leaves the store with the streams that their output and closures make, in the order of
-- the events, and reports the server as lost exactly if some event said so.
pub drain-Tracks :
    (json : Json) (evs : List (PaneOutput × ℕ)) (c : Controller) (m : Streams)
    → Tracks c.store m
    → AllFit two63 m (calls evs)
    → Tracks (drain c evs).store (Spec.run m (calls evs))
      × ((drain c evs).lost ≡ (c.lost || any_lost evs))
drain-Tracks json evs c m k fits = (
  subst (λ s. Tracks s (Spec.run m (calls evs))) (sym (drain-calls json evs c))
      (apply_all-Tracks json (calls evs) c.store m k fits),
  drain-lost evs c,
)
