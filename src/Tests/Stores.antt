-- ===== src/Tests/Stores.antt =====
-- Runs of the store and of the handlers on it.
use tmux_pane_control.Prelude.{
  ℕ, ◌≡◌, ◌≢◌, refl, true, false, [], ◌∷◌, List, some, ok, err, Bytes, codes, arith, ◌||◌, bytes_eq,
  bytes_eq_iff,
}
use tmux_pane_control.Prelude.Int64.{two63}
use tmux_pane_control.Token.{encode_token}
use tmux_pane_control.Store
use tmux_pane_control.Store.{Store, new, new_token, watch}
use tmux_pane_control.Store.Spec
use tmux_pane_control.Store.Spec.{Op, append_op, ensure_op, forget_op, watch_op, no_streams, AllFit}
use tmux_pane_control.Store.Refine.{
  Tracks, new-Tracks, apply_all, apply_all-Tracks, buffer_locked-Tracks,
}
use tmux_pane_control.Store.Watch.{find, touched, watch-touched}
use tmux_pane_control.Store.Read.{Answered, read-Answered}
use tmux_pane_control.Store.Checkpoint.{appended, read-new_token}
use tmux_pane_control.Tmuxctl.Port.{Port, PaneOutput, pane_missing}
use tmux_pane_control.Domain.{SnapshotResponse}
use tmux_pane_control.Controller
use tmux_pane_control.Controller.{Controller, snapshot, drain, with_scrollback}
use tmux_pane_control.Textnorm.{
  normalize, join_lines, drop_blank_end, trim_lines, trim_right, split_lines, strip_ansi_and_cr,
  strip_ansi, has_byte,
}
use tmux_pane_control.Controller.Drain.{calls, any_lost, drain-Tracks}
use tmux_pane_control.Controller.Handlers.{Snapshotted, snapshot-Snapshotted, read-snapshot}
use tmux_pane_control.Tests.Sample.{codec, instance_name, pane, instance_plain, pane_plain}

abbrev pub empty : Store
empty = new 8 instance_name

empty-Tracks : Tracks empty no_streams
empty-Tracks = new-Tracks 8 instance_name (omega arith) (omega arith)

abbrev ops : List Op
ops = append_op pane (codes "abc") 1 ∷ ensure_op (codes "%2") ∷ append_op pane (codes "de") 2 ∷ []

ops_fit : AllFit two63 no_streams ops
unfolding Spec.step Spec.append Spec.ensure bytes_eq
ops_fit = (omega arith, (tt, (omega arith, tt)))

ops_fit_later : AllFit two63 (Spec.ensure no_streams pane) ops
unfolding Spec.step Spec.append Spec.ensure bytes_eq
ops_fit_later = (omega arith, (tt, (omega arith, tt)))

apply_all-Tracks_example : Tracks (apply_all codec empty ops) (Spec.run no_streams ops)
apply_all-Tracks_example = apply_all-Tracks codec ops empty no_streams empty-Tracks ops_fit

watch-touched_example :
    find 0 (apply_all codec (watch empty pane).0 ops).watchers
    ≡ some (record { key = 0; pane = pane; pending = true })
unfolding new watch touched bytes_eq
watch-touched_example = watch-touched codec empty pane ops (omega arith) tt

read-new_token_example :
    Store.read codec
      (apply_all codec (new_token codec empty pane 4).0 ops)
      (apply_all codec (new_token codec empty pane 4).0 ops)
      pane
      (new_token codec empty pane 4).1
      9
    ≡ ok (codes "abcde", encode_token codec instance_name pane 5 9)
unfolding new appended bytes_eq
read-new_token_example =
    read-new_token codec empty no_streams pane 4 9 ops empty-Tracks instance_plain pane_plain
      (omega arith) tt ops_fit_later

abbrev known : Store
known = (new_token codec empty pane 4).0

known-read :
    Store.read codec known known pane (new_token codec empty pane 4).1 9
    ≡ ok ([], encode_token codec instance_name pane 0 9)
unfolding new appended bytes_eq apply_all
known-read =
    read-new_token codec empty no_streams pane 4 9 [] empty-Tracks instance_plain pane_plain
      (omega arith) tt tt

read-Answered_example :
    Answered codec known
      (Spec.ensure no_streams pane)
      pane
      (new_token codec empty pane 4).1
      []
      (encode_token codec instance_name pane 0 9)
      9
unfolding new_token Store.buffer_locked
read-Answered_example =
    read-Answered codec known (Spec.ensure no_streams pane) pane (new_token codec empty pane 4).1 []
      (encode_token codec instance_name pane 0 9) 9
      (buffer_locked-Tracks empty no_streams pane empty-Tracks) known-read

abbrev other : Store
other = (new_token codec (new 8 (codes "cd")) pane 1).0

differ : (a b : Bytes) → bytes_eq a b ≡ false → a ≢ b
differ a b h = ground (arith, bytes_eq_iff a b)

abbrev pub screen : Port
screen = record {
  list_panes = ok (pane ∷ []);
  capture_pane = λ id. ok (codes "$ ls  \n\n");
  capture_scrollback = λ id lines. ok (codes "old\n");
  send_text = λ id text enter. err pane_missing;
  send_keys = λ id keys. err pane_missing;
}

abbrev answer : SnapshotResponse
answer = record {
  pane_id = pane;
  next = (new_token codec empty pane 4).1;
  scrollback_text = some (codes "old");
  text = codes "$ ls";
}

answered : snapshot codec screen screen empty pane (some 3) 4 ≡ (known, ok answer)
unfolding snapshot with_scrollback normalize join_lines drop_blank_end trim_lines trim_right
    split_lines strip_ansi_and_cr strip_ansi has_byte
answered = refl

snapshot-Snapshotted_example : Snapshotted codec empty known pane (some 3) 4 answer
snapshot-Snapshotted_example =
    snapshot-Snapshotted codec screen screen empty pane 4 (some 3) known answer answered

read-snapshot_example :
    Controller.read codec (apply_all codec known ops) (apply_all codec known ops) pane answer.next 9
    ≡ ok (record {
      pane_id = pane;
      next = encode_token codec instance_name pane 5 9;
      text = normalize (codes "abcde");
    })
unfolding new appended bytes_eq
read-snapshot_example =
    read-snapshot codec screen screen empty known no_streams pane (some 3) 4 9 answer ops answered
      empty-Tracks instance_plain pane_plain (omega arith) tt ops_fit_later

abbrev events : List (PaneOutput × ℕ)
events =
    (record { id = pane; bytes = codes "hi"; closed = false; server_lost = false }, 1)
    ∷ (record { id = []; bytes = []; closed = false; server_lost = true }, 2)
    ∷ []

drain-Tracks_example :
    let c : Controller = record { store = empty; lost = false } in
    Tracks (drain c events).store (Spec.run no_streams (calls events))
    × ((drain c events).lost ≡ (false || any_lost events))
unfolding calls Spec.step
drain-Tracks_example =
    drain-Tracks codec events (record { store = empty; lost = false }) no_streams empty-Tracks
      (omega arith, tt)
