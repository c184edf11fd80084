-- ===== src/Store/Watch.antt =====
-- The watchers: who is signalled, and that no signal is lost.
use tmux_pane_control.Prelude.{
  ℕ, suc, ◌+◌, ◌≤◌, ◌≡◌, ◌≢◌, refl, ap, ◌∙◌, ◌||◌, ◌&&◌, Bool, false, not, List, [], ◌∷◌, ◌++◌,
  Option, none, some, Bytes, bytes_eq, is_empty, ◌==◌, if◌then◌else◌, arith, Bool-cases, inl, inr,
}
use tmux_pane_control.Token.{Json}
use tmux_pane_control.Store.{Store, PaneWatcher, buffer_locked, signal, watch, remove_first}
use tmux_pane_control.Store.Spec.{
  Op, ensure_op, append_op, forget_op, new_token_op, watch_op, cancel_op,
}
use tmux_pane_control.Store.Refine.{apply, apply_all}

-- The watcher of a key.
unfoldable pub find : ℕ → List PaneWatcher → Option PaneWatcher
find k [] = none
find k (w ∷ ws) = if w.key == k then some w else find k ws

-- Keys rise along the list, from `lo` to below `hi`: no key stands twice, and `hi` is fresh.
abbrev pub Ascending : ℕ → ℕ → List PaneWatcher → Type 0
Ascending lo hi [] = lo ≤ hi
Ascending lo hi (w ∷ ws) = (lo ≤ w.key) × Ascending (suc w.key) hi ws

abbrev pub HasKeys : Store → Type 0
HasKeys s = Ascending 0 s.next_key s.watchers

Ascending-weaken :
    (ws : List PaneWatcher) (lo lo' hi : ℕ) → lo ≤ lo' → Ascending lo' hi ws → Ascending lo hi ws
Ascending-weaken [] lo lo' hi h a = omega arith
Ascending-weaken (w ∷ ws) lo lo' hi h a = (omega arith, a.1)

Ascending-signal :
    (ws : List PaneWatcher) (lo hi : ℕ) (id : Bytes)
    → Ascending lo hi ws
    → Ascending lo hi (signal id ws)
unfolding signal
Ascending-signal [] lo hi id a = a
Ascending-signal (w ∷ ws) lo hi id a = elim (Bool-cases (bytes_eq w.pane id)) [
  | inl same ↦ rw same (a.0, Ascending-signal ws (suc w.key) hi id a.1)
  | inr other ↦ rw other (a.0, Ascending-signal ws (suc w.key) hi id a.1)
]

Ascending-concat :
    (ws : List PaneWatcher) (lo hi : ℕ) (w : PaneWatcher)
    → w.key ≡ hi
    → Ascending lo hi ws
    → Ascending lo (hi + 1) (ws ++ (w ∷ []))
Ascending-concat [] lo hi w e a = omega arith
Ascending-concat (v ∷ ws) lo hi w e a = (a.0, Ascending-concat ws (suc v.key) hi w e a.1)

Ascending-remove_first :
    (ws : List PaneWatcher) (lo hi k : ℕ) → Ascending lo hi ws → Ascending lo hi (remove_first k ws)
unfolding remove_first
Ascending-remove_first [] lo hi k a = a
Ascending-remove_first (w ∷ ws) lo hi k a = elim (Bool-cases (w.key == k)) [
  | inl same ↦ rw same (Ascending-weaken ws lo (suc w.key) hi (omega arith) a.1)
  | inr other ↦ rw other (a.0, Ascending-remove_first ws (suc w.key) hi k a.1)
]

HasKeys-buffer_locked : (s : Store) (id : Bytes) → HasKeys s → HasKeys (buffer_locked s id).0
unfolding buffer_locked
HasKeys-buffer_locked s id h = ground arith

-- Every call keeps the keys distinct and the next key fresh.
pub apply-HasKeys : (json : Json) (s : Store) (op : Op) → HasKeys s → HasKeys (apply json s op)
unfolding apply
apply-HasKeys json s (ensure_op id) h = HasKeys-buffer_locked s id h
apply-HasKeys json s (append_op id [] now) h = h
apply-HasKeys json s (append_op id (x ∷ xs) now) h =
    Ascending-signal (buffer_locked s id).0.watchers 0 (buffer_locked s id).0.next_key id
      (HasKeys-buffer_locked s id h)
apply-HasKeys json s (forget_op id) h = Ascending-signal s.watchers 0 s.next_key id h
apply-HasKeys json s (new_token_op id now) h = HasKeys-buffer_locked s id h
apply-HasKeys json s (watch_op id) h = Ascending-concat s.watchers 0 s.next_key _ refl h
apply-HasKeys json s (cancel_op k) h = Ascending-remove_first s.watchers 0 s.next_key k h

-- What one call does to the pending flag of a watcher of `id`.
unfoldable pub touches : Bytes → Op → Bool
touches id (append_op j p now) = not (is_empty p) && bytes_eq id j
touches id (forget_op j) = bytes_eq id j
touches id op = false

unfoldable pub touched : Bytes → List Op → Bool
unfolding touches
touched id [] = false
touched id (op ∷ ops) = touches id op || touched id ops

abbrev pub Uncancelled : ℕ → List Op → Type 0
Uncancelled k [] = Unit
Uncancelled k (cancel_op n ∷ ops) = (n ≢ k) × Uncancelled k ops
Uncancelled k (op ∷ ops) = Uncancelled k ops

abbrev pub watcher : ℕ → Bytes → Bool → PaneWatcher
watcher k id pending = record { key = k; pane = id; pending = pending }

find-signal :
    (ws : List PaneWatcher) (k : ℕ) (id j : Bytes) (b : Bool)
    → find k ws ≡ some (watcher k id b)
    → find k (signal j ws) ≡ some (watcher k id (bytes_eq id j || b))
unfolding find signal
find-signal [] k id j b e = cc
find-signal (w ∷ ws) k id j b e = ground (arith, find-signal ws k id j b)

find-concat :
    (ws : List PaneWatcher) (k : ℕ) (v : PaneWatcher) {w : PaneWatcher}
    → find k ws ≡ some w
    → find k (ws ++ (v ∷ [])) ≡ some w
unfolding find
find-concat [] k v e = cc
find-concat (u ∷ ws) k v e = elim (Bool-cases (u.key == k)) [
  | inl here ↦ rw here (rw here at e)
  | inr later ↦ rw later (find-concat ws k v (rw later at e))
]

Ascending-le : (ws : List PaneWatcher) (lo hi : ℕ) → Ascending lo hi ws → lo ≤ hi
Ascending-le [] lo hi a = a
Ascending-le (w ∷ ws) lo hi a = omega (arith, Ascending-le ws (suc w.key) hi a.1)

pub find-fresh :
    (ws : List PaneWatcher) (lo k : ℕ) (v : PaneWatcher)
    → v.key ≡ k
    → Ascending lo k ws
    → find k (ws ++ (v ∷ [])) ≡ some v
unfolding find
find-fresh [] lo k v e a = ground arith
find-fresh (w ∷ ws) lo k v e a =
    ground (arith, Ascending-le ws (suc w.key) k a.1, find-fresh ws (suc w.key) k v e a.1)

find-remove_first :
    (ws : List PaneWatcher) (k n : ℕ) → n ≢ k → find k (remove_first n ws) ≡ find k ws
unfolding find remove_first
find-remove_first [] k n ne = refl
find-remove_first (w ∷ ws) k n ne = ground (arith, find-remove_first ws k n ne)

watchers-buffer_locked : (s : Store) (id : Bytes) → (buffer_locked s id).0.watchers ≡ s.watchers
unfolding buffer_locked
watchers-buffer_locked s id = ground arith

-- One call keeps an uncancelled watcher, and sets its flag exactly if it touches the watcher's pane.
apply-find :
    (json : Json) (s : Store) (op : Op) (k : ℕ) (id : Bytes) (b : Bool)
    → Uncancelled k (op ∷ [])
    → find k s.watchers ≡ some (watcher k id b)
    → find k (apply json s op).watchers ≡ some (watcher k id (touches id op || b))
unfolding apply touches
apply-find json s (ensure_op j) k id b u e = rw (watchers-buffer_locked s j) e
apply-find json s (append_op j [] now) k id b u e = e
apply-find json s (append_op j (x ∷ xs) now) k id b u e =
    find-signal (buffer_locked s j).0.watchers k id j b (rw (watchers-buffer_locked s j) e)
apply-find json s (forget_op j) k id b u e = find-signal s.watchers k id j b e
apply-find json s (new_token_op j now) k id b u e = rw (watchers-buffer_locked s j) e
apply-find json s (watch_op j) k id b u e = find-concat s.watchers k _ e
apply-find json s (cancel_op n) k id b u e = find-remove_first s.watchers k n u.0 ∙ e

Uncancelled-cons :
    (k : ℕ) (op : Op) (ops : List Op)
    → Uncancelled k (op ∷ ops)
    → Uncancelled k (op ∷ []) × Uncancelled k ops
Uncancelled-cons k (ensure_op j) ops u = (tt, u)
Uncancelled-cons k (append_op j p now) ops u = (tt, u)
Uncancelled-cons k (forget_op j) ops u = (tt, u)
Uncancelled-cons k (new_token_op j now) ops u = (tt, u)
Uncancelled-cons k (watch_op j) ops u = (tt, u)
Uncancelled-cons k (cancel_op n) ops u = ((u.0, tt), u.1)

or-false : (a : Bool) → (a || false) ≡ a
or-false a = ground arith

or_swap : (a b c : Bool) → (a || (b || c)) ≡ ((b || a) || c)
or_swap a b c = ground arith

pub apply_all-find :
    (json : Json) (ops : List Op) (s : Store) (k : ℕ) (id : Bytes) (b : Bool)
    → Uncancelled k ops
    → find k s.watchers ≡ some (watcher k id b)
    → find k (apply_all json s ops).watchers ≡ some (watcher k id (touched id ops || b))
unfolding apply_all touched
apply_all-find json [] s k id b u e = e
apply_all-find json (op ∷ ops) s k id b u e =
    let (now, later) = Uncancelled-cons k op ops u in
    apply_all-find json ops (apply json s op) k id (touches id op || b) later
      (apply-find json s op k id b now e)
    ∙ ap (λ p. some (watcher k id p)) (or_swap (touched id ops) (touches id op) b)

-- After `Watch`, and any calls that do not cancel the watcher, its channel holds a signal exactly if
-- bytes were appended to its pane or the pane was forgotten.
pub watch-touched :
    (json : Json) (s : Store) (id : Bytes) (ops : List Op)
    → HasKeys s
    → Uncancelled (watch s id).1 ops
    → let (s', k) = watch s id in
      find k (apply_all json s' ops).watchers
      ≡ some (record { key = k; pane = id; pending = touched id ops })
unfolding watch
watch-touched json s id ops h u =
    apply_all-find json ops (watch s id).0 s.next_key id false u
      (find-fresh s.watchers 0 s.next_key (watcher s.next_key id false) refl h)
    ∙ ap (λ p. some (watcher s.next_key id p)) (or-false (touched id ops))
