-- ===== src/Store.antt =====
-- internal/store/store.go: per-pane buffers, checkpoint tokens and watchers. Each method holds the
-- lock for its body, so it is one step on the store; `read` locks twice and takes both stores.
-- `time.Now` is an argument, and a channel of capacity one is its pending flag.
pub mod Watch
pub mod Spec
pub mod Refine
pub mod Read
pub mod Checkpoint
use tmux_pane_control.Prelude.{
  ℕ, ◌+◌, Bool, true, false, not, List, [], ◌∷◌, ◌++◌, Option, none, some, Bytes, bytes_eq,
  is_empty, ◌==◌, if◌then◌else◌, Result, ok, err, ◌>>=◌,
}
use tmux_pane_control.Prelude.Dict.{lookup, insert, erase}
use tmux_pane_control.Buffer
use tmux_pane_control.Buffer.{Buffer, fresh}
use tmux_pane_control.Token.{
  Json, TokenPayload, StoreError, pane_unknown, token_wrong_instance, token_wrong_pane,
  token_evicted, encode_token, decode_token,
}

-- `paneWatcher`; `key` is the identity of the pointer.
pub record PaneWatcher : Type 0 where
  pub key : ℕ
  pub pane : Bytes
  pub pending : Bool

-- `Store`. `bufs` is a Go map; `next_key` numbers the watchers that `Watch` allocates.
pub record Store : Type 0 where
  pub capacity : ℕ
  pub instance_id : Bytes
  pub bufs : List (Bytes × Buffer)
  pub watchers : List PaneWatcher
  pub next_key : ℕ

abbrev pub default_capacity : ℕ
default_capacity = 0x100000

-- `New`; the random instance id is an argument.
unfoldable pub new : ℕ → Bytes → Store
new capacity instance_id = record {
  capacity = capacity;
  instance_id = instance_id;
  bufs = [];
  watchers = [];
  next_key = 0;
}

-- `bufferLocked`: the buffer of a pane, created if missing. `NewBuffer` panics on a capacity that is
-- not positive; the store's capacity is (`Store.Refine.Tracks`).
unfoldable pub buffer_locked : Store → Bytes → Store × Buffer
buffer_locked s id = elim (lookup id s.bufs) [
  | some b ↦ (s, b)
  | none ↦ (record s { bufs = insert id (fresh s.capacity) s.bufs }, fresh s.capacity)
]

unfoldable pub ensure : Store → Bytes → Store
unfolding buffer_locked
ensure s id = (buffer_locked s id).0

unfoldable pub has_pane : Store → Bytes → Bool
has_pane s id = elim (lookup id s.bufs) [ some b ↦ true | none ↦ false ]

-- The loop over the watchers: a send that does not block.
unfoldable pub signal : Bytes → List PaneWatcher → List PaneWatcher
signal id [] = []
signal id (w ∷ ws) = (if bytes_eq w.pane id then record w { pending = true } else w) ∷ signal id ws

unfoldable pub forget : Store → Bytes → Store
unfolding signal
forget s id = record s { bufs = erase id s.bufs; watchers = signal id s.watchers }

unfoldable pub append : Store → Bytes → Bytes → ℕ → Store
unfolding buffer_locked signal
append s id p now =
    if is_empty p
    then s
    else let (s', b) = buffer_locked s id in
      record s' {
        bufs = insert id (Buffer.append b p now) s'.bufs;
        watchers = signal id s'.watchers;
      }

-- `Watch` returns the watcher's channel and its cancel function: here the watcher's key.
unfoldable pub watch : Store → Bytes → Store × ℕ
watch s id =
    let w : PaneWatcher = record { key = s.next_key; pane = id; pending = false } in
    (record s { watchers = s.watchers ++ (w ∷ []); next_key = s.next_key + 1 }, s.next_key)

unfoldable pub remove_first : ℕ → List PaneWatcher → List PaneWatcher
remove_first k [] = []
remove_first k (w ∷ ws) = if w.key == k then ws else w ∷ remove_first k ws

-- The cancel function that `Watch` returns.
unfoldable pub cancel : Store → ℕ → Store
unfolding remove_first
cancel s k = record s { watchers = remove_first k s.watchers }

-- `LastAppend`
unfoldable pub last_append : Store → Bytes → Option ℕ
last_append s id = elim (lookup id s.bufs) [ none ↦ none | some b ↦ b.last_append ]

-- The tests of `Read` on a decoded token.
unfoldable pub check_token : Store → Bytes → TokenPayload → Result StoreError TokenPayload
check_token s id tp =
    if not (bytes_eq tp.i s.instance_id)
    then err token_wrong_instance
    else if not (bytes_eq tp.p id)
    then err token_wrong_pane
    else ok tp

module _ (json : Json) where
  unfoldable pub new_token : Store → Bytes → ℕ → Store × Bytes
  unfolding buffer_locked
  new_token s id now =
      let (s', b) = buffer_locked s id in (s', encode_token json s'.instance_id id b.end now)

  -- `TokenTime`
  unfoldable pub token_time : Bytes → Result StoreError ℕ
  token_time after = do tp ← decode_token json after; ok tp.t

  -- The second critical section of `Read`.
  unfoldable pub read_locked : Store → Bytes → TokenPayload → ℕ → Result StoreError (Bytes × Bytes)
  read_locked s id tp now = elim (lookup id s.bufs) [
    | none ↦ err pane_unknown
    | some b ↦
        let (out, end, found) = Buffer.read b tp.o in
        if found then ok (out, encode_token json s.instance_id id end now) else err token_evicted
  ]

  -- `Read`: `s` is the store of its first critical section, `s'` that of its second.
  unfoldable pub read : Store → Store → Bytes → Bytes → ℕ → Result StoreError (Bytes × Bytes)
  unfolding has_pane read_locked check_token
  read s s' id after now = if not (has_pane s id) then err pane_unknown else do
    tp ← decode_token json after
    checked ← check_token s id tp
    read_locked s' id checked now
