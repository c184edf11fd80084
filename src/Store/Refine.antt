-- ===== src/Store/Refine.antt =====
-- The store implements the streams of Store/Spec: every operation is the abstract one.
use tmux_pane_control.Prelude.{
  ℕ, ◌+◌, ◌<◌, ◌≡◌, refl, sym, ◌∙◌, inl, inr, List, [], ◌∷◌, ◌++◌, Option, none, some, Bytes,
  bytes_eq, bytes_eq_iff, length, arith, Bool-cases, subst,
}
use tmux_pane_control.Prelude.Dict.{lookup, insert, lookup-insert, lookup-erase}
use tmux_pane_control.Prelude.Int64.{two63}
use tmux_pane_control.Buffer
use tmux_pane_control.Buffer.{Buffer, fresh}
use tmux_pane_control.Buffer.Stream.{Holds, append-Holds, fresh-Holds}
use tmux_pane_control.Buffer.Read.{capacity-append}
use tmux_pane_control.Token.{Json}
use tmux_pane_control.Store.{
  Store, new, buffer_locked, ensure, forget, append, watch, cancel, new_token,
}
use tmux_pane_control.Store.Spec
use tmux_pane_control.Store.Spec.{
  Streams, no_streams, so_far, update, Op, ensure_op, append_op, forget_op, new_token_op, watch_op,
  cancel_op, Fits, AllFit,
}

-- An entry of the table against the stream of the pane.
abbrev pub Matches : ℕ → Option Buffer → Option Bytes → Type 0
Matches c none none = Unit
Matches c none (some t) = ⊥
Matches c (some b) none = ⊥
Matches c (some b) (some t) = Holds b t × (b.capacity ≡ c)

-- The store's table holds, for every pane, its stream's last `capacity` bytes.
pub record Tracks (s : Store) (m : Streams) : Type 0 where
  pub positive : 0 < s.capacity
  pub cap_small : s.capacity < two63
  pub panes : (id : Bytes) → Matches s.capacity (lookup id s.bufs) (m id)

-- A new store knows no pane.
pub new-Tracks :
    (c : ℕ) (instance_id : Bytes) → 0 < c → c < two63 → Tracks (new c instance_id) no_streams
unfolding new lookup
new-Tracks c instance_id pos small = record { positive = pos; cap_small = small; panes = λ id. tt }

insert-Matches :
    (c : ℕ) (bufs : List (Bytes × Buffer)) (m : Streams) (id : Bytes) (b : Buffer) (t : Bytes)
    → ((j : Bytes) → Matches c (lookup j bufs) (m j))
    → Holds b t
    → b.capacity ≡ c
    → (j : Bytes) → Matches c (lookup j (insert id b bufs)) (update m id (some t) j)
insert-Matches c bufs m id b t all h e j =
    rw (lookup-insert id j b bufs) (elim (Bool-cases (bytes_eq id j)) [
      | inl same ↦ rw same (h, e)
      | inr other ↦ rw other (all j)
    ])

-- The buffer that `bufferLocked` returns holds the pane's stream so far.
pub buffer_locked-Holds :
    (s : Store) (m : Streams) (id : Bytes)
    → Tracks s m
    → Holds (buffer_locked s id).1 (so_far (m id)) × ((buffer_locked s id).1.capacity ≡ s.capacity)
unfolding buffer_locked
buffer_locked-Holds s m id k = go (lookup id s.bufs) (m id) refl (k.panes id)
  where
    go :
        (o : Option Buffer) (t : Option Bytes)
        → lookup id s.bufs ≡ o
        → Matches s.capacity o t
        → Holds (buffer_locked s id).1 (so_far t) × ((buffer_locked s id).1.capacity ≡ s.capacity)
    go none none e h = rw (e, buffer_locked) (fresh-Holds s.capacity k.positive k.cap_small, refl)
    go none (some t) e h = elim h [ ]
    go (some b) none e h = elim h [ ]
    go (some b) (some t) e h = rw (e, buffer_locked) h

capacity-buffer_locked : (s : Store) (id : Bytes) → (buffer_locked s id).0.capacity ≡ s.capacity
unfolding buffer_locked
capacity-buffer_locked s id = ground arith

-- A known pane's stream is what it was.
ensure-known :
    (c : ℕ) (bufs : List (Bytes × Buffer)) (m : Streams) (id : Bytes) {t : Bytes}
    → m id ≡ some t
    → ((j : Bytes) → Matches c (lookup j bufs) (m j))
    → (j : Bytes) → Matches c (lookup j bufs) (update m id (some (so_far (m id))) j)
ensure-known c bufs m id {t} e all j = elim (Bool-cases (bytes_eq id j)) [
  | inl same ↦
      let i : id ≡ j = (bytes_eq_iff id j).0 same in
      rw (same, e) (subst (λ k. Matches c (lookup k bufs) (some t)) i (rw e at (all id)))
  | inr other ↦ rw other (all j)
]

pub buffer_locked-Tracks :
    (s : Store) (m : Streams) (id : Bytes)
    → Tracks s m
    → Tracks (buffer_locked s id).0 (Spec.ensure m id)
unfolding buffer_locked Spec.ensure
buffer_locked-Tracks s m id k = record {
  positive = rw (capacity-buffer_locked s id) k.positive;
  cap_small = rw (capacity-buffer_locked s id) k.cap_small;
  panes = λ j. go (lookup id s.bufs) (m id) refl refl (k.panes id) j;
}
  where
    go :
        (o : Option Buffer) (t : Option Bytes)
        → lookup id s.bufs ≡ o
        → m id ≡ t
        → Matches s.capacity o t
        → (j : Bytes)
        → Matches
            (buffer_locked s id).0.capacity
            (lookup j (buffer_locked s id).0.bufs)
            (update m id (some (so_far (m id))) j)
    go none none e f h j =
        rw (e, f, buffer_locked)
          (insert-Matches s.capacity s.bufs m id (fresh s.capacity) [] k.panes
            (fresh-Holds s.capacity k.positive k.cap_small) refl j)
    go none (some t) e f h j = elim h [ ]
    go (some b) none e f h j = elim h [ ]
    go (some b) (some t) e f h j =
        rw (e, buffer_locked) (ensure-known s.capacity s.bufs m id f k.panes j)

update-update :
    (m : Streams) (id j : Bytes) (o o' : Option Bytes)
    → update (update m id o) id o' j ≡ update m id o' j
update-update m id j o o' = ground arith

append-Tracks :
    (s : Store) (m : Streams) (id p : Bytes) (now : ℕ)
    → Tracks s m
    → length (so_far (m id)) + length p < two63
    → Tracks (append s id p now) (Spec.append m id p)
unfolding append Spec.append Spec.ensure
append-Tracks s m id [] now k fits = k
append-Tracks s m id (x ∷ xs) now k fits =
    let k' = buffer_locked-Tracks s m id k in
    let (h, c) = buffer_locked-Holds s m id k in
    let b = (buffer_locked s id).1 in
    record {
      positive = k'.positive;
      cap_small = k'.cap_small;
      panes = λ j.
          subst (Matches (buffer_locked s id).0.capacity _)
            (update-update m id j (some (so_far (m id))) (some (so_far (m id) ++ x ∷ xs)))
            (insert-Matches (buffer_locked s id).0.capacity (buffer_locked s id).0.bufs
              (Spec.ensure m id) id (Buffer.append b (x ∷ xs) now) _ k'.panes
              (append-Holds b (so_far (m id)) (x ∷ xs) now h fits)
              (capacity-append b (x ∷ xs) now ∙ c ∙ sym (capacity-buffer_locked s id)) j);
    }

forget-Tracks :
    (s : Store) (m : Streams) (id : Bytes) → Tracks s m → Tracks (forget s id) (Spec.forget m id)
unfolding forget Spec.forget
forget-Tracks s m id k = record {
  positive = k.positive;
  cap_small = k.cap_small;
  panes = λ j. rw (lookup-erase id j s.bufs) (elim (Bool-cases (bytes_eq id j)) [
    | inl same ↦ rw same tt
    | inr other ↦ rw other (k.panes j)
  ]);
}

-- One call on a store, as a step on its state.
unfoldable pub apply : Json → Store → Op → Store
unfolding ensure append forget watch cancel new_token
apply json s (ensure_op id) = ensure s id
apply json s (append_op id p now) = append s id p now
apply json s (forget_op id) = forget s id
apply json s (new_token_op id now) = (new_token json s id now).0
apply json s (watch_op id) = (watch s id).0
apply json s (cancel_op k) = cancel s k

unfoldable pub apply_all : Json → Store → List Op → Store
unfolding apply
apply_all json s [] = s
apply_all json s (op ∷ ops) = apply_all json (apply json s op) ops

-- Each call takes a store that holds some streams to one that holds the streams of the abstract call.
pub apply-Tracks :
    (json : Json) (s : Store) (m : Streams) (op : Op)
    → Tracks s m
    → Fits two63 m op
    → Tracks (apply json s op) (Spec.step m op)
unfolding apply Spec.step
apply-Tracks json s m (ensure_op id) k fits = buffer_locked-Tracks s m id k
apply-Tracks json s m (append_op id p now) k fits = append-Tracks s m id p now k fits
apply-Tracks json s m (forget_op id) k fits = forget-Tracks s m id k
apply-Tracks json s m (new_token_op id now) k fits = buffer_locked-Tracks s m id k
apply-Tracks json s m (watch_op id) k fits = record {
  positive = k.positive;
  cap_small = k.cap_small;
  panes = k.panes;
}
apply-Tracks json s m (cancel_op n) k fits = record {
  positive = k.positive;
  cap_small = k.cap_small;
  panes = k.panes;
}

-- Calls that grow no stream to 2^63 bytes take a store that holds some streams to one that holds the streams
-- of the abstract calls.
pub apply_all-Tracks :
    (json : Json) (ops : List Op) (s : Store) (m : Streams)
    → Tracks s m
    → AllFit two63 m ops
    → Tracks (apply_all json s ops) (Spec.run m ops)
unfolding apply_all Spec.run
apply_all-Tracks json [] s m k fits = k
apply_all-Tracks json (op ∷ ops) s m k fits =
    apply_all-Tracks json ops (apply json s op) (Spec.step m op) (apply-Tracks json s m op k fits.0)
      fits.1
