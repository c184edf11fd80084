-- ===== src/Controller/Wait/Latest.antt =====
-- The time of the last append to a pane, from the calls alone.
use tmux_pane_control.Prelude.{
  ℕ, ◌≡◌, refl, sym, ap, ◌∙◌, Bool, true, false, not, ◌&&◌, List, [], ◌∷◌, ◌++◌, Option, none, some,
  Bytes, bytes_eq, bytes_eq_iff, is_empty, if◌then◌else◌, arith, Bool-cases, Option-cases, inl, inr,
  Result, ok, err,
}
use tmux_pane_control.Prelude.Dict.{lookup, lookup-insert, lookup-erase}
use tmux_pane_control.Buffer
use tmux_pane_control.Token.{Json, StoreError}
use tmux_pane_control.Store
use tmux_pane_control.Store.{Store}
use tmux_pane_control.Store.Spec.{
  Op, ensure_op, append_op, forget_op, new_token_op, watch_op, cancel_op,
}
use tmux_pane_control.Store.Refine.{apply, apply_all}
use tmux_pane_control.Controller.Wait.{
  WaitRequest, quiescence, Wake, signalled, quiet_elapsed, timed_out, cancelled, Round, Outcome,
  continues, woken, evaluate, round, loop, reference, is_quiet, matched, failed, aborted,
}
use tmux_pane_control.Controller.Wait.Ends.{behind, round_read}

-- What a call does to the time of the pane's last append.
abbrev pub last_of : Bytes → Option ℕ → Op → Option ℕ
last_of id t (ensure_op p) = t
last_of id t (append_op p bytes now) = if bytes_eq p id && not (is_empty bytes) then some now else t
last_of id t (forget_op p) = if bytes_eq p id then none else t
last_of id t (new_token_op p now) = t
last_of id t (watch_op p) = t
last_of id t (cancel_op k) = t

abbrev pub latest : Bytes → Option ℕ → List Op → Option ℕ
latest id t [] = t
latest id t (op ∷ ops) = latest id (last_of id t op) ops

pub latest-append :
    (id : Bytes) (t : Option ℕ) (ops more : List Op)
    → latest id t (ops ++ more) ≡ latest id (latest id t ops) more
latest-append id t [] more = refl
latest-append id t (op ∷ ops) more = latest-append id (last_of id t op) ops more

abbrev time_of : Option Buffer.Buffer → Option ℕ
time_of o = elim o [ none ↦ none | some b ↦ b.last_append ]

appended_at :
    (b : Buffer.Buffer) (p : Bytes) (now : ℕ)
    → is_empty p ≡ false
    → (Buffer.append b p now).last_append ≡ some now
unfolding Buffer.append Buffer.drop_excess Buffer.advance
appended_at b p now h = ground arith

ensured_at :
    (s : Store) (p id : Bytes)
    → Store.last_append (Store.buffer_locked s p).0 id ≡ Store.last_append s id
unfolding Store.buffer_locked Store.last_append
ensured_at s p id = elim (Option-cases (lookup p s.bufs)) [
  | inr (b, e) ↦ rw (e, Store.buffer_locked) refl
  | inl e ↦ elim (Bool-cases (bytes_eq p id)) [
    | inl same ↦
        let q = (bytes_eq_iff p id).0 same in
        rw
          (
            e,
            Store.buffer_locked,
            lookup-insert p id (Buffer.fresh s.capacity) s.bufs,
            same,
            Store.last_append,
          )
          (sym (ap (λ x. time_of (lookup x s.bufs)) (sym q) ∙ ap time_of e))
    | inr other ↦
        rw
          (
            e,
            Store.buffer_locked,
            lookup-insert p id (Buffer.fresh s.capacity) s.bufs,
            other,
            Store.last_append,
          )
          refl
  ]
]

last_append-append :
    (s : Store) (p id bytes : Bytes) (now : ℕ)
    → is_empty bytes ≡ false
    → Store.last_append (Store.append s p bytes now) id
      ≡ (if bytes_eq p id then some now else Store.last_append s id)
unfolding Store.append Store.last_append
last_append-append s p id bytes now full =
    let b = Buffer.append (Store.buffer_locked s p).1 bytes now in
    let bufs = (Store.buffer_locked s p).0.bufs in
    rw (full, Store.append)
      (elim (Bool-cases (bytes_eq p id)) [
        | inl same ↦
            rw (lookup-insert p id b bufs, same, Store.last_append)
              (appended_at (Store.buffer_locked s p).1 bytes now full)
        | inr other ↦ rw (lookup-insert p id b bufs, other, Store.last_append) (ensured_at s p id)
      ])

last_append-forget :
    (s : Store) (p id : Bytes)
    → Store.last_append (Store.forget s p) id
      ≡ (if bytes_eq p id then none else Store.last_append s id)
unfolding Store.forget Store.last_append
last_append-forget s p id = elim (Bool-cases (bytes_eq p id)) [
  | inl same ↦ rw (lookup-erase p id s.bufs, same, Store.forget, Store.last_append) refl
  | inr other ↦ rw (lookup-erase p id s.bufs, other, Store.forget, Store.last_append) refl
]

last_append-apply :
    (json : Json) (s : Store) (op : Op) (id : Bytes)
    → Store.last_append (apply json s op) id ≡ last_of id (Store.last_append s id) op
unfolding apply Store.ensure Store.new_token Store.watch Store.cancel Store.last_append Store.append
last_append-apply json s (ensure_op p) id = ensured_at s p id
last_append-apply json s (append_op p bytes now) id = elim (Bool-cases (is_empty bytes)) [
  | inl e ↦ rw (e, Store.append) (ground arith)
  | inr full ↦ last_append-append s p id bytes now full ∙ rw full (ground arith)
]
last_append-apply json s (forget_op p) id = last_append-forget s p id
last_append-apply json s (new_token_op p now) id = ensured_at s p id
last_append-apply json s (watch_op p) id = refl
last_append-apply json s (cancel_op k) id = refl

pub last_append-apply_all :
    (json : Json) (ops : List Op) (s : Store) (id : Bytes)
    → Store.last_append (apply_all json s ops) id ≡ latest id (Store.last_append s id) ops
unfolding apply_all
last_append-apply_all json [] s id = refl
last_append-apply_all json (op ∷ ops) s id =
    last_append-apply_all json ops (apply json s op) id
    ∙ ap (λ t. latest id t ops) (last_append-apply json s op id)

-- The calls of a round that goes on, and of all rounds before one that ends the wait and of that one, up
-- to its look at the last append.
abbrev pub calls_of : Round → List Op
calls_of r = r.before ++ (r.between ++ (r.meanwhile ++ r.waiting))

abbrev pub calls_until : List Round → Round → List Op
calls_until [] last = last.before ++ (last.between ++ last.meanwhile)
calls_until (r ∷ rs) last = calls_of r ++ calls_until rs last

-- The store when a round's read is done, and when it looks for the last append.
abbrev pub seen : Json → Store → Round → Store
seen json from r =
    apply_all json (apply_all json (apply_all json from r.before) r.between) r.meanwhile

latest-seen :
    (json : Json) (r : Round) (s : Store) (id : Bytes)
    → Store.last_append (seen json s r) id
      ≡ latest id (Store.last_append s id) (r.before ++ (r.between ++ r.meanwhile))
latest-seen json r s id =
    last_append-apply_all json r.meanwhile _ id
    ∙ ap (λ t. latest id t r.meanwhile)
        (last_append-apply_all json r.between _ id
          ∙ ap (λ t. latest id t r.between) (last_append-apply_all json r.before s id))
    ∙ sym (
        latest-append id (Store.last_append s id) r.before (r.between ++ r.meanwhile)
        ∙ latest-append id _ r.between r.meanwhile)

latest-calls_of :
    (json : Json) (r : Round) (s : Store) (id : Bytes)
    → Store.last_append
        (apply_all json
          (apply_all json (apply_all json (apply_all json s r.before) r.between) r.meanwhile)
          r.waiting)
        id
      ≡ latest id (Store.last_append s id) (calls_of r)
latest-calls_of json r s id =
    last_append-apply_all json r.waiting _ id
    ∙ ap (λ t. latest id t r.waiting) (latest-seen json r s id)
    ∙ sym (
        latest-append id (Store.last_append s id) r.before (r.between ++ (r.meanwhile ++ r.waiting))
        ∙ latest-append id _ r.between (r.meanwhile ++ r.waiting)
        ∙ latest-append id _ r.meanwhile r.waiting
        ∙ ap (λ t. latest id t r.waiting)
            (sym (
              latest-append id (Store.last_append s id) r.before (r.between ++ r.meanwhile)
              ∙ latest-append id _ r.between r.meanwhile)))

module _ (json : Json) (req : WaitRequest) (k : ℕ) (checkpoint : Option ℕ) (id : Bytes) where
  last_append-woken :
      (v : Wake) (s t : Store)
      → woken req.pane_id k s v ≡ (t, continues)
      → Store.last_append t id ≡ Store.last_append s id
  unfolding woken Store.last_append
  last_append-woken signalled s t e = ap (λ p. Store.last_append p.0 id) (sym e)
  last_append-woken quiet_elapsed s t e = ap (λ p. Store.last_append p.0 id) (sym e)
  last_append-woken timed_out s t e = cc
  last_append-woken cancelled s t e = cc

  last_append-evaluate :
      (r : Round) (s t : Store) (bytes next : Bytes)
      → evaluate json req k quiescence checkpoint r s bytes next ≡ (t, continues)
      → Store.last_append t id
        ≡ Store.last_append (apply_all json (apply_all json s r.meanwhile) r.waiting) id
  unfolding evaluate
  last_append-evaluate r s t bytes next e =
      elim (Bool-cases (
        is_quiet
          (reference checkpoint (Store.last_append (apply_all json s r.meanwhile) req.pane_id))
          r.since_at req.quiet_window)) [
            | inl q ↦ cc (rw (q, evaluate) at e)
            | inr q ↦ last_append-woken r.wake _ t (rw (q, evaluate) at e)
          ]

  last_append-round :
      (r : Round) (known : Bool) (s t : Store) (p : Result StoreError (Bytes × Bytes))
      → req.mode ≡ quiescence
      → round_read json req s r ≡ p
      → round json req k checkpoint known s r ≡ (t, continues)
      → Store.last_append t id ≡ latest id (Store.last_append s id) (calls_of r)
  unfolding round
  last_append-round r known s t (err x) mode f e = cc (rw (f, round) at e)
  last_append-round r known s t (ok (bytes, next)) mode f e =
      let second = apply_all json (apply_all json s r.before) r.between in
      last_append-evaluate r second t bytes next (
        ap (λ m. evaluate json req k m checkpoint r second bytes next) (sym mode)
        ∙ rw (f, round) at e)
      ∙ latest-calls_of json r s id

  -- The last append that a wait for quiescence sees is that of all calls since the start of its loop.
  pub latest-loop :
      (earlier : List Round) (last : Round) (known : Bool) (s from : Store)
      → req.mode ≡ quiescence
      → loop json req k checkpoint known s earlier ≡ (from, continues)
      → Store.last_append (seen json from last) id
        ≡ latest id (Store.last_append s id) (calls_until earlier last)
  unfolding loop
  latest-loop [] last known s from mode e =
      ap (λ p. Store.last_append (seen json p.0 last) id) (sym e) ∙ latest-seen json last s id
  latest-loop (r ∷ rs) last known s from mode e =
      go (round json req k checkpoint known s r) refl e
        (λ t h. latest-loop rs last true t from mode h)
    where
      go :
          (p : Store × Outcome)
          → round json req k checkpoint known s r ≡ p
          → behind json req k checkpoint p rs ≡ (from, continues)
          → ((t : Store)
              → loop json req k checkpoint true t rs ≡ (from, continues)
              → Store.last_append (seen json from last) id
                ≡ latest id (Store.last_append t id) (calls_until rs last))
          → Store.last_append (seen json from last) id
            ≡ latest id (Store.last_append s id) (calls_until (r ∷ rs) last)
      go (t, matched w) f h rest = cc h
      go (t, failed x) f h rest = cc h
      go (t, aborted) f h rest = cc h
      go (t, continues) f h rest =
          rest t h
          ∙ ap (λ u. latest id u (calls_until rs last))
              (last_append-round r known s t _ mode refl f)
          ∙ sym (latest-append id (Store.last_append s id) (calls_of r) (calls_until rs last))
