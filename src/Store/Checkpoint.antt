-- ===== src/Store/Checkpoint.antt =====
-- A checkpoint token, whatever happens to the store between its minting and the read.
use tmux_pane_control.Prelude.{
  ℕ, ◌<◌, ◌≡◌, ◌≢◌, refl, sym, ap, ◌∙◌, true, false, List, [], ◌∷◌, ◌++◌, none, some, Bytes,
  bytes_eq, bytes_eq_iff, bytes_eq_refl, length, leb, if◌then◌else◌, arith, Bool-cases, inl, inr,
  Result, ok, err, append-nil, append_assoc, length-append, drop-length,
}
use tmux_pane_control.Prelude.Int64.{two63, two64}
use tmux_pane_control.Token.{
  Json, IsPlain, StoreError, token_evicted, token_wrong_instance, token_wrong_pane, encode_token,
  decode_token,
}
use tmux_pane_control.Token.Laws.{decode_token-encode_token}
use tmux_pane_control.Token.Base64.{Below}
use tmux_pane_control.Store.{Store, buffer_locked, new_token, read, has_pane}
use tmux_pane_control.Store.Spec
use tmux_pane_control.Store.Spec.{
  Streams, so_far, update, window, Op, ensure_op, append_op, forget_op, new_token_op, watch_op,
  cancel_op, AllFit,
}
use tmux_pane_control.Store.Refine.{
  Tracks, buffer_locked-Tracks, buffer_locked-Holds, apply, apply_all, apply_all-Tracks,
}
use tmux_pane_control.Store.Read.{answer, read-encode_token, read_wrong_instance, read_wrong_pane}

-- The bytes that the calls append to one pane.
unfoldable pub appended : Bytes → List Op → Bytes
appended id [] = []
appended id (append_op j p now ∷ ops) = (if bytes_eq j id then p else []) ++ appended id ops
appended id (op ∷ ops) = appended id ops

-- No call forgets the pane.
abbrev pub Keeps : Bytes → List Op → Type 0
Keeps id [] = Unit
Keeps id (forget_op j ∷ ops) = (bytes_eq j id ≡ false) × Keeps id ops
Keeps id (op ∷ ops) = Keeps id ops

-- What is kept of a stream is all that came after its head, if the budget allows.
window_since :
    (c : ℕ) (old new : Bytes)
    → window c (old ++ new) (length old) ≡ (if leb (length new) c then some new else none)
window_since c old new = ground (arith, length-append old new, drop-length old new)

ensure_other :
    (m : Streams) (j id : Bytes) {t : Bytes} → m id ≡ some t → Spec.ensure m j id ≡ some t
unfolding Spec.ensure
ensure_other m j id e = elim (Bool-cases (bytes_eq j id)) [
  | inl same ↦ rw same (ap (λ k. some (so_far (m k))) ((bytes_eq_iff j id).0 same) ∙ rw e)
  | inr other ↦ rw other e
]

append_other :
    (m : Streams) (j id p : Bytes) {t : Bytes}
    → m id ≡ some t
    → Spec.append m j p id ≡ some (t ++ (if bytes_eq j id then p else []))
unfolding Spec.append
append_other m j id [] {t} e = ground (arith, append-nil t)
append_other m j id (x ∷ xs) {t} e = elim (Bool-cases (bytes_eq j id)) [
  | inl same ↦ rw same (ap (λ k. some (so_far (m k) ++ x ∷ xs)) ((bytes_eq_iff j id).0 same) ∙ rw e)
  | inr other ↦ rw other (rw (append-nil t) e)
]

pub run-appended :
    (ops : List Op) (m : Streams) (id : Bytes) {t : Bytes}
    → m id ≡ some t
    → Keeps id ops
    → Spec.run m ops id ≡ some (t ++ appended id ops)
unfolding Spec.run Spec.step appended
run-appended [] m id {t} e k = rw append-nil e
run-appended (ensure_op j ∷ ops) m id e k =
    run-appended ops (Spec.ensure m j) id (ensure_other m j id e) k
run-appended (append_op j p now ∷ ops) m id {t} e k =
    run-appended ops (Spec.append m j p) id (append_other m j id p e) k
    ∙ ap some (append_assoc t _ _)
run-appended (forget_op j ∷ ops) m id e k =
    run-appended ops (Spec.forget m j) id (unfold Spec.forget in rw k.0 e) k.1
run-appended (new_token_op j now ∷ ops) m id e k =
    run-appended ops (Spec.ensure m j) id (ensure_other m j id e) k
run-appended (watch_op j ∷ ops) m id e k = run-appended ops m id e k
run-appended (cancel_op n ∷ ops) m id e k = run-appended ops m id e k

pub instance_id-buffer_locked :
    (s : Store) (id : Bytes) → (buffer_locked s id).0.instance_id ≡ s.instance_id
unfolding buffer_locked
instance_id-buffer_locked s id = ground arith

pub capacity-buffer_locked : (s : Store) (id : Bytes) → (buffer_locked s id).0.capacity ≡ s.capacity
unfolding buffer_locked
capacity-buffer_locked s id = ground arith

-- No call changes the retention budget or the instance id.
pub apply_fixed :
    (json : Json) (s : Store) (op : Op)
    → ((apply json s op).capacity ≡ s.capacity) × ((apply json s op).instance_id ≡ s.instance_id)
unfolding apply
apply_fixed json s (ensure_op id) = (capacity-buffer_locked s id, instance_id-buffer_locked s id)
apply_fixed json s (append_op id [] now) = (refl, refl)
apply_fixed json s (append_op id (x ∷ xs) now) =
    (capacity-buffer_locked s id, instance_id-buffer_locked s id)
apply_fixed json s (forget_op id) = (refl, refl)
apply_fixed json s (new_token_op id now) =
    (capacity-buffer_locked s id, instance_id-buffer_locked s id)
apply_fixed json s (watch_op id) = (refl, refl)
apply_fixed json s (cancel_op k) = (refl, refl)

pub apply_all_fixed :
    (json : Json) (ops : List Op) (s : Store)
    → ((apply_all json s ops).capacity ≡ s.capacity)
      × ((apply_all json s ops).instance_id ≡ s.instance_id)
unfolding apply_all
apply_all_fixed json [] s = (refl, refl)
apply_all_fixed json (op ∷ ops) s =
    let (c, i) = apply_all_fixed json ops (apply json s op) in
    let (c', i') = apply_fixed json s op in (c ∙ c', i ∙ i')

abbrev outcome : Json → Store → Bytes → Bytes → Bytes → ℕ → Result StoreError (Bytes × Bytes)
outcome json s id old since now =
    if leb (length since) s.capacity
    then ok (since, encode_token json s.instance_id id (length (old ++ since)) now)
    else err token_evicted

pub answer_since :
    (c : ℕ) (mint : ℕ → Bytes) (old new : Bytes)
    → answer c mint (some (old ++ new)) (some (old ++ new)) (length old)
      ≡ (if leb (length new) c then ok (new, mint (length (old ++ new))) else err token_evicted)
answer_since c mint old new = ground (arith, window_since c old new)

-- A token for the head of a known pane's stream.
read_since :
    (json : Json) (s : Store) (m : Streams) (id old : Bytes) (minted now : ℕ) (ops : List Op)
    → Tracks s m
    → m id ≡ some old
    → IsPlain (record { i = s.instance_id; p = id; o = length old; t = minted })
    → Keeps id ops
    → AllFit two63 m ops
    → let last = apply_all json s ops in
      read json last last id (encode_token json s.instance_id id (length old) minted) now
      ≡ outcome json s id old (appended id ops) now
read_since json s m id old minted now ops k e plain keeps fits =
    let last = apply_all json s ops in
    let (c, i) = apply_all_fixed json ops s in
    let k' = apply_all-Tracks json ops s m k fits in
    let since = run-appended ops m id e keeps in
    let step =
      read-encode_token json last last (Spec.run m ops) (Spec.run m ops) id k' k' (length old)
        minted now (rw i plain) in
    ap (λ n. read json last last id (encode_token json n id (length old) minted) now) (sym i)
    ∙ step
    ∙ rw (since, c, i)
        (answer_since s.capacity (λ end. encode_token json s.instance_id id end now) old
          (appended id ops))

pub new_token-parts :
    (json : Json) (s : Store) (m : Streams) (id : Bytes) (minted : ℕ)
    → Tracks s m
    → ((new_token json s id minted).0 ≡ (buffer_locked s id).0)
      × ((new_token json s id minted).1
          ≡ encode_token json (buffer_locked s id).0.instance_id id (length (so_far (m id))) minted)
unfolding new_token
new_token-parts json s m id minted k =
    let (h, _) = buffer_locked-Holds s m id k in
    (
      refl,
      ap (λ n. encode_token json (buffer_locked s id).0.instance_id id n minted) h.counts.end_is,
    )

-- A token that `NewToken` minted reads, after any further calls that do not forget the pane, exactly
-- the bytes appended to that pane since, with a token for the new head; or it is reported as evicted,
-- exactly when these bytes are more than the retention budget.
pub read-new_token :
    (json : Json) (s : Store) (m : Streams) (id : Bytes) (minted now : ℕ) (ops : List Op)
    → Tracks s m
    → Below 128 s.instance_id
    → Below 128 id
    → minted < two64
    → Keeps id ops
    → AllFit two63 (Spec.ensure m id) ops
    → let (s', token) = new_token json s id minted in
      let last = apply_all json s' ops in
      let since = appended id ops in
      read json last last id token now ≡ (
        if leb (length since) s.capacity
        then ok (since, encode_token json s.instance_id id (length (so_far (m id) ++ since)) now)
        else err token_evicted)
read-new_token json s m id minted now ops k plain_i plain_p w keeps fits =
    let (stays, minted_token) = new_token-parts json s m id minted k in
    let (h, _) = buffer_locked-Holds s m id k in
    let i = instance_id-buffer_locked s id in
    rw (stays, minted_token)
      (read_since json (buffer_locked s id).0 (Spec.ensure m id) id (so_far (m id)) minted now ops
          (buffer_locked-Tracks s m id k) (unfold Spec.ensure in rw (bytes_eq_refl id))
          (record {
            instance_plain = rw i plain_i;
            pane_plain = plain_p;
            offset_int64 = omega (arith, h.counts.small);
            time_int64 = w;
          })
          keeps fits
        ∙ rw (capacity-buffer_locked s id, i))

module _ (json : Json) (s : Store) (m : Streams) (j : Bytes) (minted : ℕ) (k : Tracks s m)
    (plain_i : Below 128 s.instance_id) (plain_p : Below 128 j) (w : minted < two64) where
  decoded :
      decode_token json (new_token json s j minted).1
      ≡ ok (record { i = s.instance_id; p = j; o = length (so_far (m j)); t = minted })
  decoded =
      let (_, token) = new_token-parts json s m j minted k in
      let (h, _) = buffer_locked-Holds s m j k in
      rw (token, instance_id-buffer_locked s j)
        (decode_token-encode_token json s.instance_id j (length (so_far (m j))) minted (record {
          instance_plain = plain_i;
          pane_plain = plain_p;
          offset_int64 = omega (arith, h.counts.small);
          time_int64 = w;
        }))

  -- A token minted by one controller for pane `j` and given to another one for a pane that it knows is
  -- refused as foreign, whatever the pane.
  read_foreign_instance :
      (other later : Store) (id : Bytes) (now : ℕ)
      → has_pane other id ≡ true
      → s.instance_id ≢ other.instance_id
      → read json other later id (new_token json s j minted).1 now ≡ err token_wrong_instance
  read_foreign_instance other later id now known ne =
      read_wrong_instance json other later id _ _ now known decoded ne

  -- A token minted for pane `j` and given to the same controller for another known pane is refused.
  read_foreign_pane :
      (other later : Store) (id : Bytes) (now : ℕ)
      → has_pane other id ≡ true
      → s.instance_id ≡ other.instance_id
      → j ≢ id
      → read json other later id (new_token json s j minted).1 now ≡ err token_wrong_pane
  read_foreign_pane other later id now known same ne =
      read_wrong_pane json other later id _ _ now known decoded same ne
