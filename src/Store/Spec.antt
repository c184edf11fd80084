-- ===== src/Store/Spec.antt =====
-- What the store promises of its panes, with no ring and no table: for each known pane, the stream of
-- all bytes appended since it became known.
use tmux_pane_control.Prelude.{
  ℕ, ◌+◌, ◌-◌, ◌<◌, ◌&&◌, List, [], ◌∷◌, ◌++◌, Option, none, some, Bytes, bytes_eq, is_empty,
  length, drop, leb, if◌then◌else◌,
}

-- `none` for a pane that is not known.
abbrev pub Streams : Type 0
Streams = Bytes → Option Bytes

abbrev pub no_streams : Streams
no_streams id = none

abbrev pub so_far : Option Bytes → Bytes
so_far none = []
so_far (some t) = t

abbrev pub update : Streams → Bytes → Option Bytes → Streams
update m id o j = if bytes_eq id j then o else m j

unfoldable pub ensure : Streams → Bytes → Streams
ensure m id = update m id (some (so_far (m id)))

unfoldable pub append : Streams → Bytes → Bytes → Streams
append m id p = if is_empty p then m else update m id (some (so_far (m id) ++ p))

unfoldable pub forget : Streams → Bytes → Streams
forget m id = update m id none

-- What a read from offset `o` returns under a retention budget: the later bytes, unless more than
-- `capacity` of them have come, or `o` lies ahead of the stream.
abbrev pub window : ℕ → Bytes → ℕ → Option Bytes
window capacity t o =
    if leb (length t - capacity) o && leb o (length t) then some (drop o t) else none

-- The calls that change a store.
pub data Op : Type 0 where
  ensure_op : Bytes → Op
  append_op : Bytes → Bytes → ℕ → Op
  forget_op : Bytes → Op
  new_token_op : Bytes → ℕ → Op
  watch_op : Bytes → Op
  cancel_op : ℕ → Op

unfoldable pub step : Streams → Op → Streams
unfolding ensure append forget
step m (ensure_op id) = ensure m id
step m (append_op id p now) = append m id p
step m (forget_op id) = forget m id
step m (new_token_op id now) = ensure m id
step m (watch_op id) = m
step m (cancel_op k) = m

unfoldable pub run : Streams → List Op → Streams
unfolding step
run m [] = m
run m (op ∷ ops) = run (step m op) ops

-- No stream grows to 2^63 bytes, the range of an offset.
abbrev pub Fits : ℕ → Streams → Op → Type 0
Fits limit m (append_op id p now) = length (so_far (m id)) + length p < limit
Fits limit m _ = Unit

abbrev pub AllFit : ℕ → Streams → List Op → Type 0
AllFit limit m [] = Unit
AllFit limit m (op ∷ ops) = Fits limit m op × AllFit limit (step m op) ops
