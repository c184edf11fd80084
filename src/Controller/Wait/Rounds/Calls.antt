-- ===== src/Controller/Wait/Rounds/Calls.antt =====
-- The calls on the store over some rounds of a wait, and what a store has got of a pane.
use tmux_pane_control.Prelude.{
  ℕ, ◌≤◌, ◌≡◌, refl, sym, ap, ◌∙◌, List, [], ◌∷◌, ◌++◌, some, Bytes, length, length-append,
  append_assoc, arith, subst,
}
use tmux_pane_control.Prelude.Int64.{two63}
use tmux_pane_control.Token.{Json}
use tmux_pane_control.Store.{Store}
use tmux_pane_control.Store.Spec
use tmux_pane_control.Store.Spec.{
  Streams, so_far, Op, ensure_op, append_op, forget_op, new_token_op, watch_op, cancel_op, AllFit,
}
use tmux_pane_control.Store.Refine.{Tracks, apply_all, apply_all-Tracks}
use tmux_pane_control.Store.Checkpoint.{appended, Keeps, run-appended, apply_all_fixed}
use tmux_pane_control.Controller.Wait.{
  Wake, signalled, quiet_elapsed, timed_out, cancelled, Round, received,
}
use tmux_pane_control.Controller.Wait.Matched.{apply_all-append}

-- The `select` of a round goes on to the next one.
abbrev pub GoesOn : Wake → Type 0
GoesOn signalled = Unit
GoesOn quiet_elapsed = Unit
GoesOn timed_out = ⊥
GoesOn cancelled = ⊥

abbrev pub AllGoOn : List Round → Type 0
AllGoOn [] = Unit
AllGoOn (r ∷ rs) = GoesOn r.wake × AllGoOn rs

-- The calls on the store up to the read of a round, behind some earlier ones.
abbrev pub calls_until : List Round → Round → List Op
calls_until [] r = r.before ++ r.between
calls_until (e ∷ es) r = (e.before ++ e.between) ++ (e.waiting ++ calls_until es r)

appended-append :
    (id : Bytes) (ops ops' : List Op)
    → appended id (ops ++ ops') ≡ appended id ops ++ appended id ops'
unfolding appended
appended-append id [] ops' = refl
appended-append id (ensure_op j ∷ ops) ops' = appended-append id ops ops'
appended-append id (append_op j p now ∷ ops) ops' =
    rw (appended-append id ops ops') (sym (append_assoc _ (appended id ops) (appended id ops')))
appended-append id (forget_op j ∷ ops) ops' = appended-append id ops ops'
appended-append id (new_token_op j now ∷ ops) ops' = appended-append id ops ops'
appended-append id (watch_op j ∷ ops) ops' = appended-append id ops ops'
appended-append id (cancel_op n ∷ ops) ops' = appended-append id ops ops'

pub appended_twice :
    (id since : Bytes) (ops ops' : List Op)
    → (since ++ appended id ops) ++ appended id ops' ≡ since ++ appended id (ops ++ ops')
appended_twice id since ops ops' =
    append_assoc since _ _ ∙ ap (λ b. since ++ b) (sym (appended-append id ops ops'))

pub Keeps-append :
    (id : Bytes) (ops ops' : List Op) → Keeps id (ops ++ ops') → Keeps id ops × Keeps id ops'
Keeps-append id [] ops' k = (tt, k)
Keeps-append id (ensure_op j ∷ ops) ops' k = Keeps-append id ops ops' k
Keeps-append id (append_op j p now ∷ ops) ops' k = Keeps-append id ops ops' k
Keeps-append id (forget_op j ∷ ops) ops' k =
    let (a, b) = Keeps-append id ops ops' k.1 in ((k.0, a), b)
Keeps-append id (new_token_op j now ∷ ops) ops' k = Keeps-append id ops ops' k
Keeps-append id (watch_op j ∷ ops) ops' k = Keeps-append id ops ops' k
Keeps-append id (cancel_op n ∷ ops) ops' k = Keeps-append id ops ops' k

pub AllFit-append :
    (ops ops' : List Op) (m : Streams)
    → AllFit two63 m (ops ++ ops')
    → AllFit two63 m ops × AllFit two63 (Spec.run m ops) ops'
unfolding Spec.run
AllFit-append [] ops' m f = (tt, f)
AllFit-append (op ∷ ops) ops' m f =
    let (a, b) = AllFit-append ops ops' (Spec.step m op) f.1 in ((f.0, a), b)

-- The store knows the pane: its stream is `old`, followed by `since`.
pub record Since (json : Json) (capacity : ℕ) (instance_id id old : Bytes) (s : Store) (m : Streams)
    (since : Bytes) : Type 0 where
  pub tracks : Tracks s m
  pub stream : m id ≡ some (old ++ since)
  pub capacity_is : s.capacity ≡ capacity
  pub instance_is : s.instance_id ≡ instance_id

-- What is asked of the calls that are still to come.
pub record Ahead (capacity : ℕ) (id : Bytes) (m : Streams) (since : Bytes) (ops : List Op)
    : Type 0 where
  pub keeps : Keeps id ops
  pub fits : AllFit two63 m ops
  pub short : length (since ++ appended id ops) ≤ capacity

module _ (json : Json) (capacity : ℕ) (instance_id id old : Bytes) where
  pub apply_all-Since :
      (ops : List Op) (s : Store) (m : Streams) (since : Bytes)
      → Since json capacity instance_id id old s m since
      → Keeps id ops
      → AllFit two63 m ops
      → Since json capacity instance_id id old
          (apply_all json s ops)
          (Spec.run m ops)
          (since ++ appended id ops)
  apply_all-Since ops s m since h keeps fits =
      let (c, i) = apply_all_fixed json ops s in
      record {
        tracks = apply_all-Tracks json ops s m h.tracks fits;
        stream = run-appended ops m id h.stream keeps ∙ ap some (append_assoc old since _);
        capacity_is = c ∙ h.capacity_is;
        instance_is = i ∙ h.instance_is;
      }

  pub apply_twice-Since :
      (ops ops' : List Op) (s : Store) (m : Streams) (since : Bytes)
      → Since json capacity instance_id id old s m since
      → Keeps id (ops ++ ops')
      → AllFit two63 m (ops ++ ops')
      → Since json capacity instance_id id old
          (apply_all json (apply_all json s ops) ops')
          (Spec.run m (ops ++ ops'))
          (since ++ appended id (ops ++ ops'))
  apply_twice-Since ops ops' s m since h keeps fits =
      subst
        (λ t.
          Since json capacity instance_id id old t (Spec.run m (ops ++ ops'))
            (since ++ appended id (ops ++ ops')))
        (apply_all-append json ops ops' s) (apply_all-Since (ops ++ ops') s m since h keeps fits)

  pub received-Since :
      (k : ℕ) (s : Store) (m : Streams) (since : Bytes)
      → Since json capacity instance_id id old s m since
      → Since json capacity instance_id id old (received k s) m since
  received-Since k s m since h = record {
    tracks = record {
      positive = h.tracks.positive;
      cap_small = h.tracks.cap_small;
      panes = h.tracks.panes;
    };
    stream = h.stream;
    capacity_is = h.capacity_is;
    instance_is = h.instance_is;
  }

  pub Ahead-first :
      (ops ops' : List Op) (m : Streams) (since : Bytes)
      → Ahead capacity id m since (ops ++ ops')
      → Ahead capacity id m since ops
  Ahead-first ops ops' m since a = record {
    keeps = (Keeps-append id ops ops' a.keeps).0;
    fits = (AllFit-append ops ops' m a.fits).0;
    short = omega (
      arith,
      subst (λ b. length b ≤ capacity) (sym (appended_twice id since ops ops')) a.short,
      length-append (since ++ appended id ops) (appended id ops'),
    );
  }

  pub Ahead-append :
      (ops ops' : List Op) (m : Streams) (since : Bytes)
      → Ahead capacity id m since (ops ++ ops')
      → Ahead capacity id (Spec.run m ops) (since ++ appended id ops) ops'
  Ahead-append ops ops' m since a = record {
    keeps = (Keeps-append id ops ops' a.keeps).1;
    fits = (AllFit-append ops ops' m a.fits).1;
    short = subst (λ b. length b ≤ capacity) (sym (appended_twice id since ops ops')) a.short;
  }
