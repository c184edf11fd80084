-- ===== src/Controller/Handlers.antt =====
-- The handlers of `snapshot`, `read`, `text` and `key`.
use tmux_pane_control.Prelude.{
  ℕ, ◌<◌, ◌≡◌, refl, ap, Bool, true, false, List, ◌++◌, Option, none, some, Bytes, length, leb,
  if◌then◌else◌, Bool-cases, inl, inr, Result, ok, err, ok-injective, subst,
}
use tmux_pane_control.Prelude.Int64.{two63, two64}
use tmux_pane_control.Token.{Json, encode_token}
use tmux_pane_control.Token.Base64.{Below}
use tmux_pane_control.Store
use tmux_pane_control.Store.{Store}
use tmux_pane_control.Store.Spec
use tmux_pane_control.Store.Spec.{Streams, so_far, Op, AllFit}
use tmux_pane_control.Store.Refine.{Tracks, apply_all}
use tmux_pane_control.Store.Checkpoint.{appended, Keeps, read-new_token}
use tmux_pane_control.Textnorm.{normalize}
use tmux_pane_control.Textnorm.Normal.{IsNormal, normalize-IsNormal}
use tmux_pane_control.Tmuxctl.Port.{Port, PortError}
use tmux_pane_control.Domain.{SnapshotResponse, command}
use tmux_pane_control.Controller.{
  read, snapshot, with_scrollback, read_error, invalid_after_response,
}

abbrev pub same_presence {ℓ κ} : {A : Type ℓ} {B : Type κ} → Option A → Option B → Bool
same_presence none none = true
same_presence (some a) (some b) = true
same_presence none (some b) = false
same_presence (some a) none = false

abbrev pub OptionNormal : Option Bytes → Type 0
OptionNormal none = Unit
OptionNormal (some t) = IsNormal t

-- What a successful snapshot answers.
pub record Snapshotted (json : Json) (s s' : Store) (id : Bytes) (history : Option ℕ) (now : ℕ)
    (resp : SnapshotResponse) : Type 0 where
  pub store_is : s' ≡ (Store.new_token json s id now).0
  pub next_is : resp.next ≡ (Store.new_token json s id now).1
  pub pane_is : resp.pane_id ≡ id
  pub text_normal : IsNormal resp.text
  pub scrollback_normal : OptionNormal resp.scrollback_text
  pub scrollback_iff : same_presence resp.scrollback_text history ≡ true

module _ (json : Json) (before after : Port) (s : Store) (id : Bytes) (now : ℕ) where
  base : Bytes → SnapshotResponse
  base text = record {
    pane_id = id;
    next = (Store.new_token json s id now).1;
    scrollback_text = none;
    text = normalize text;
  }

  with_scrollback-Snapshotted :
      (history : Option ℕ) (text : Bytes) {resp : SnapshotResponse}
      → with_scrollback after id history (base text) ≡ ok resp
      → Snapshotted json s (Store.new_token json s id now).0 id history now resp
  unfolding with_scrollback base
  with_scrollback-Snapshotted none text e =
      subst (Snapshotted json s (Store.new_token json s id now).0 id none now) (ok-injective e)
        (record {
          store_is = refl;
          next_is = refl;
          pane_is = refl;
          text_normal = normalize-IsNormal text;
          scrollback_normal = tt;
          scrollback_iff = refl;
        })
  with_scrollback-Snapshotted (some lines) text {resp} e =
      go (after.capture_scrollback id lines) refl
    where
      go :
          (r : Result PortError Bytes)
          → after.capture_scrollback id lines ≡ r
          → Snapshotted json s (Store.new_token json s id now).0 id (some lines) now resp
      go (err x) f = cc (rw (f, with_scrollback) at e)
      go (ok sb) f =
          subst (Snapshotted json s (Store.new_token json s id now).0 id (some lines) now)
            (ok-injective (rw (f, with_scrollback) at e))
            (record {
              store_is = refl;
              next_is = refl;
              pane_is = refl;
              text_normal = normalize-IsNormal text;
              scrollback_normal = normalize-IsNormal sb;
              scrollback_iff = refl;
            })

  -- A successful snapshot names its pane, has normalised texts, a scrollback exactly if one was asked
  -- for, and the token that the store mints, which is all that it changes in the store.
  pub snapshot-Snapshotted :
      (history : Option ℕ) (s' : Store) (resp : SnapshotResponse)
      → snapshot json before after s id history now ≡ (s', ok resp)
      → Snapshotted json s s' id history now resp
  unfolding snapshot
  snapshot-Snapshotted history s' resp e = go (before.capture_pane id) refl
    where
      go :
          (r : Result PortError Bytes)
          → before.capture_pane id ≡ r
          → Snapshotted json s s' id history now resp
      go (err x) f = cc (rw (f, snapshot) at e)
      go (ok text) f =
          let p = rw (f, snapshot) at e in
          subst (λ t. Snapshotted json s t id history now resp) (ap (λ q. q.0) p)
            (with_scrollback-Snapshotted history text (unfold base in ap (λ q. q.1) p))

-- `read` answers with the token's bytes normalised, or the error of an evicted token, for a token that a
-- snapshot returned and any calls since that do not forget the pane.
pub read-snapshot :
    (json : Json) (before after : Port) (s s' : Store) (m : Streams) (id : Bytes)
    (history : Option ℕ) (minted now : ℕ) (resp : SnapshotResponse) (ops : List Op)
    → snapshot json before after s id history minted ≡ (s', ok resp)
    → Tracks s m
    → Below 128 s.instance_id
    → Below 128 id
    → minted < two64
    → Keeps id ops
    → AllFit two63 (Spec.ensure m id) ops
    → let last = apply_all json s' ops in
      let since = appended id ops in
      read json last last id resp.next now ≡ (
        if leb (length since) s.capacity
        then ok (record {
          pane_id = id;
          next = encode_token json s.instance_id id (length (so_far (m id) ++ since)) now;
          text = normalize since;
        })
        else err (command (invalid_after_response id)))
unfolding read read_error
read-snapshot json before after s s' m id history minted now resp ops e k pi pp w keeps fits =
    let q = snapshot-Snapshotted json before after s id minted history s' resp e in
    let r = read-new_token json s m id minted now ops k pi pp w keeps fits in
    rw (q.store_is, q.next_is, r, read)
      (elim (Bool-cases (leb (length (appended id ops)) s.capacity)) [
        | inl kept ↦ rw kept
        | inr gone ↦ rw gone
      ])
