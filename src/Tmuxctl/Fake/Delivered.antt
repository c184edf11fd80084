-- ===== src/Tmuxctl/Fake/Delivered.antt =====
-- A subscriber of the fake port gets what is emitted from its subscription on, in order.
use tmux_pane_control.Prelude.{◌≡◌, refl, ◌∙◌, List, [], ◌∷◌, ◌++◌, append_assoc, append-nil}
use tmux_pane_control.Tmuxctl.Port.{PaneOutput}
use tmux_pane_control.Tmuxctl.Fake.{Channel, Fake, deliver, send_all}

unfoldable pub deliver_all : Fake → List PaneOutput → Fake
deliver_all f [] = f
deliver_all f (ev ∷ evs) = deliver_all (deliver f ev) evs

abbrev pub with_sent : List PaneOutput → List Channel → List Channel
with_sent evs [] = []
with_sent evs (c ∷ cs) = record c { sent = c.sent ++ evs } ∷ with_sent evs cs

with_sent-nil : (cs : List Channel) → with_sent [] cs ≡ cs
with_sent-nil [] = refl
with_sent-nil (c ∷ cs) = rw (append-nil c.sent, with_sent-nil cs) refl

with_sent-send_all :
    (ev : PaneOutput) (evs : List PaneOutput) (cs : List Channel)
    → with_sent evs (send_all ev cs) ≡ with_sent (ev ∷ evs) cs
unfolding send_all
with_sent-send_all ev evs [] = refl
with_sent-send_all ev evs (c ∷ cs) =
    rw (append_assoc c.sent (ev ∷ []) evs, with_sent-send_all ev evs cs) refl

-- Every channel is sent all the events, behind what it was sent before, and nothing else.
deliver_all-subs :
    (f : Fake) (evs : List PaneOutput) → (deliver_all f evs).subs ≡ with_sent evs f.subs
unfolding deliver_all
deliver_all-subs f [] = rw (with_sent-nil f.subs) refl
deliver_all-subs f (ev ∷ evs) =
    deliver_all-subs (deliver f ev) evs ∙ with_sent-send_all ev evs f.subs
