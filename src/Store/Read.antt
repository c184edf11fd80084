-- ===== src/Store/Read.antt =====
-- What `Store.Read` returns, against the streams of Store/Spec.
use tmux_pane_control.Prelude.{
  ℕ, ◌-◌, ◌≤◌, ◌<◌, ◌≡◌, refl, sym, ap, ◌∙◌, ◌⊎◌, inl, inr, true, false, [], Option, none, some,
  Bytes, bytes_eq_iff, bytes_eq_refl, length, drop, arith, Bool-cases, Result, ok, err, ◌≢◌,
  of_option, >>=-eq-ok, of_option-eq-ok,
}
use tmux_pane_control.Prelude.Dict.{lookup}
use tmux_pane_control.Prelude.Int64.{two64}
use tmux_pane_control.Buffer.{Buffer}
use tmux_pane_control.Buffer.Read.{read_lem}
use tmux_pane_control.Token.{
  Json, TokenPayload, IsPlain, StoreError, pane_unknown, token_malformed, token_wrong_instance,
  token_wrong_pane, token_evicted, encode_token, decode_token,
}
use tmux_pane_control.Token.Base64.{decode_string}
use tmux_pane_control.Token.Laws.{decode_token-encode_token}
use tmux_pane_control.Store.{Store, has_pane, read, read_locked, check_token}
use tmux_pane_control.Store.Spec.{Streams, window}
use tmux_pane_control.Store.Refine.{Tracks, Matches}

-- The answer for a token of this store and pane: from the pane's stream when the read begins, and its
-- stream when the lock is taken again.
abbrev pub answer :
    ℕ → (ℕ → Bytes) → Option Bytes → Option Bytes → ℕ → Result StoreError (Bytes × Bytes)
answer capacity mint none later o = err pane_unknown
answer capacity mint (some t) none o = err pane_unknown
answer capacity mint (some t) (some t') o = elim (window capacity t' o) [
  | none ↦ err token_evicted
  | some out ↦ ok (out, mint (length t'))
]

pub has_pane-Matches :
    (s : Store) (m : Streams) (id : Bytes)
    → Tracks s m
    → ((has_pane s id ≡ true) × ((t : Bytes) × (m id ≡ some t)))
      ⊎ ((has_pane s id ≡ false) × (m id ≡ none))
unfolding has_pane
has_pane-Matches s m id k = go (lookup id s.bufs) (m id) refl refl (k.panes id)
  where
    go :
        (o : Option Buffer) (t : Option Bytes)
        → lookup id s.bufs ≡ o
        → m id ≡ t
        → Matches s.capacity o t
        → ((has_pane s id ≡ true) × ((t : Bytes) × (m id ≡ some t)))
          ⊎ ((has_pane s id ≡ false) × (m id ≡ none))
    go none none e f h = inr (rw (e, has_pane), f)
    go none (some t) e f h = elim h [ ]
    go (some b) none e f h = elim h [ ]
    go (some b) (some t) e f h = inl (rw (e, has_pane), (t, f))

read_locked-answer :
    (json : Json) (s : Store) (m : Streams) (id : Bytes) (tp : TokenPayload) (now : ℕ) (t : Bytes)
    → Tracks s m
    → tp.o < two64
    → read_locked json s id tp now
      ≡ answer s.capacity (λ end. encode_token json s.instance_id id end now) (some t) (m id) tp.o
unfolding read_locked
read_locked-answer json s m id tp now t k w = go (lookup id s.bufs) (m id) refl (k.panes id)
  where
    go :
        (o : Option Buffer) (later : Option Bytes)
        → lookup id s.bufs ≡ o
        → Matches s.capacity o later
        → read_locked json s id tp now
          ≡ answer s.capacity
              (λ end. encode_token json s.instance_id id end now)
              (some t)
              later
              tp.o
    go none none e h = rw (e, read_locked)
    go none (some t') e h = elim h [ ]
    go (some b) none e h = elim h [ ]
    go (some b) (some t') e h = rw (e, read_locked, read_lem b t' tp.o h.0 w, h.1) (ground arith)

check_token_same :
    (s : Store) (id : Bytes) (o t : ℕ)
    → let tp : TokenPayload = record { i = s.instance_id; p = id; o = o; t = t } in
      check_token s id tp ≡ ok tp
unfolding check_token
check_token_same s id o t = rw (bytes_eq_refl s.instance_id, bytes_eq_refl id)

module _ (json : Json) (s s' : Store) (m m' : Streams) (id : Bytes) (k : Tracks s m)
    (k' : Tracks s' m') where
  -- A token of this controller for this pane is answered from the pane's streams: unknown pane,
  -- evicted offset, or exactly the bytes since the token's offset with a token for the new head.
  pub read-encode_token :
      (o t now : ℕ)
      → IsPlain (record { i = s.instance_id; p = id; o = o; t = t })
      → read json s s' id (encode_token json s.instance_id id o t) now
        ≡ answer s'.capacity (λ end. encode_token json s'.instance_id id end now) (m id) (m' id) o
  unfolding read
  read-encode_token o t now plain = elim (has_pane-Matches s m id k) [
    | inl (known, (u, e)) ↦
        rw
          (
            known,
            read,
            e,
            decode_token-encode_token json s.instance_id id o t plain,
            check_token_same s id o t,
          )
          (read_locked-answer json s' m' id (record { i = s.instance_id; p = id; o = o; t = t }) now
            u k' plain.offset_int64)
    | inr (unknown, e) ↦ rw (unknown, read, e)
  ]

-- What a successful read says of its token and of its answer.
pub record Answered (json : Json) (s : Store) (m : Streams) (id after out next : Bytes) (now : ℕ)
    : Type 0 where
  pub payload : TokenPayload
  pub stream : Bytes
  pub decoded : decode_token json after ≡ ok payload
  pub same_instance : payload.i ≡ s.instance_id
  pub same_pane : payload.p ≡ id
  pub known : m id ≡ some stream
  pub not_ahead : payload.o ≤ length stream
  pub not_evicted : length stream - s.capacity ≤ payload.o
  pub all_since : out ≡ drop payload.o stream
  pub next_is : next ≡ encode_token json s.instance_id id (length stream) now

decode_token_int64 :
    (json : Json) (after : Bytes) {tp : TokenPayload}
    → decode_token json after ≡ ok tp
    → tp.o < two64
unfolding decode_token
decode_token_int64 json after e =
    let (raw, _, rest) =
      >>=-eq-ok (of_option token_malformed (decode_string after))
        (λ raw. of_option token_malformed (json.unmarshal raw)) e in
    (json.unmarshal_int64 raw (of_option-eq-ok token_malformed (json.unmarshal raw) rest)).0

check_token-eq-ok :
    (s : Store) (id : Bytes) (tp : TokenPayload) {tp' : TokenPayload}
    → check_token s id tp ≡ ok tp'
    → (tp' ≡ tp) × (tp.i ≡ s.instance_id) × (tp.p ≡ id)
unfolding check_token
check_token-eq-ok s id tp e = ground (arith, bytes_eq_iff tp.i s.instance_id, bytes_eq_iff tp.p id)

answer-eq-ok :
    (c : ℕ) (mint : ℕ → Bytes) (t : Bytes) (later : Option Bytes) (o : ℕ) {out next : Bytes}
    → answer c mint (some t) later o ≡ ok (out, next)
    → (u : Bytes) × (later ≡ some u)
      × (o ≤ length u)
      × (length u - c ≤ o)
      × (out ≡ drop o u)
      × (next ≡ mint (length u))
answer-eq-ok c mint t none o e = cc
answer-eq-ok c mint t (some u) o e =
    (u, refl, ground arith, ground arith, ground arith, ground arith)

-- A read with nothing in between its two critical sections that succeeds was given a token of this
-- controller for this pane, with an offset that is not ahead of the pane's stream nor evicted; it returns
-- the whole stream after that offset, and a token for the stream's end.
pub read-Answered :
    (json : Json) (s : Store) (m : Streams) (id after out next : Bytes) (now : ℕ)
    → Tracks s m
    → read json s s id after now ≡ ok (out, next)
    → Answered json s m id after out next now
unfolding read
read-Answered json s m id after out next now k e = elim (Bool-cases (has_pane s id)) [
  | inr unknown ↦ cc (rw (unknown, read) at e)
  | inl known ↦
      let (tp, d, e') = >>=-eq-ok (decode_token json after) _ (rw (known, read) at e) in
      let (tp', c, e'') = >>=-eq-ok (check_token s id tp) _ e' in
      let (same, i, p) = check_token-eq-ok s id tp c in
      let w = decode_token_int64 json after d in
      let l : read_locked json s id tp now ≡ ok (out, next) =
        ap (λ q. read_locked json s id q now) (sym same) ∙ e'' in
      let (u, f, hi, lo, all, n) =
        answer-eq-ok s.capacity (λ end. encode_token json s.instance_id id end now) [] (m id) tp.o
          (sym (read_locked-answer json s m id tp now [] k w) ∙ l) in
      record {
        payload = tp;
        stream = u;
        decoded = d;
        same_instance = i;
        same_pane = p;
        known = f;
        not_ahead = hi;
        not_evicted = lo;
        all_since = all;
        next_is = n;
      }
]

pub read_wrong_instance :
    (json : Json) (s s' : Store) (id after : Bytes) (tp : TokenPayload) (now : ℕ)
    → has_pane s id ≡ true
    → decode_token json after ≡ ok tp
    → tp.i ≢ s.instance_id
    → read json s s' id after now ≡ err token_wrong_instance
unfolding read check_token
read_wrong_instance json s s' id after tp now u d i =
    rw (u, read, d) (ground (arith, bytes_eq_iff tp.i s.instance_id))

pub read_wrong_pane :
    (json : Json) (s s' : Store) (id after : Bytes) (tp : TokenPayload) (now : ℕ)
    → has_pane s id ≡ true
    → decode_token json after ≡ ok tp
    → tp.i ≡ s.instance_id
    → tp.p ≢ id
    → read json s s' id after now ≡ err token_wrong_pane
unfolding read check_token
read_wrong_pane json s s' id after tp now u d i p =
    rw (u, read, d) (ground (arith, bytes_eq_iff tp.i s.instance_id, bytes_eq_iff tp.p id))
