-- ===== src/Buffer.antt =====
-- internal/store/buffer.go: the byte ring that retains the last `capacity` bytes of one pane.
-- A method that writes `*b` returns the new buffer. A slice index is used as it is computed.
pub mod Copy
pub mod Window
pub mod Stream
pub mod Read
use tmux_pane_control.Prelude.{
  ℕ, ◌+◌, ◌-◌, Bool, true, false, ◌||◌, List, [], ◌∷◌, ◌++◌, Option, none, some, Bytes, length,
  take, drop, replicate, leb, ltb, if◌then◌else◌, is_empty,
}
use tmux_pane_control.Prelude.Int64.{add64, sub64, ltb64, leb64, rem64}
use tmux_pane_control.Buffer.Copy.{copy_at}

-- `lastAppend` is `none` for the zero time; times are nanoseconds.
pub record Buffer : Type 0 where
  pub capacity : ℕ
  pub bytes : Bytes
  pub start : ℕ
  pub end : ℕ
  pub last_append : Option ℕ

abbrev pub fresh : ℕ → Buffer
fresh capacity = record {
  capacity = capacity;
  bytes = replicate capacity 0;
  start = 0;
  end = 0;
  last_append = none;
}

-- `none` is the panic on a capacity that is not positive.
unfoldable pub new_buffer : ℕ → Option Buffer
new_buffer capacity = if leb64 capacity 0 then none else some (fresh capacity)

-- `Len`: the number of bytes retained.
unfoldable pub len : Buffer → ℕ
len b = sub64 b.end b.start

-- `b.end += n`, and `b.start` follows so that no more than `capacity` bytes are retained.
unfoldable pub advance : Buffer → ℕ → Buffer
advance b n =
    let end = add64 b.end n in
    record b {
      end = end;
      start = (if ltb64 b.capacity (sub64 end b.start) then sub64 end b.capacity else b.start);
    }

-- The part of `Append` for a slice longer than the ring: the leading bytes are evicted at once.
unfoldable pub drop_excess : Buffer → Bytes → Buffer × Bytes
drop_excess b p =
    let dropped = length p - b.capacity in
    if ltb b.capacity (length p) then (advance b dropped, drop dropped p) else (b, p)

-- The copies of `Append`, in one part or in two, from the index of `end` on.
unfoldable pub write_ring : Buffer → Bytes → Bytes
write_ring b p =
    let head = rem64 b.end b.capacity in
    let first = b.capacity - head in
    if leb (length p) first
    then copy_at b.bytes head p
    else copy_at (copy_at b.bytes head (take first p)) 0 (drop first p)

unfoldable pub append : Buffer → Bytes → ℕ → Buffer
append b p now =
    if is_empty p
    then b
    else let (kept, rest) = drop_excess (record b { last_append = some now }) p in
      advance (record kept { bytes = write_ring kept rest }) (length rest)

-- What `Read` copies out: `n` bytes from index `begin` on, going round at the end of the ring.
unfoldable pub read_ring : Buffer → ℕ → ℕ → Bytes
read_ring b begin n =
    let first = b.capacity - begin in
    if leb64 (add64 begin n) b.capacity
    then take n (drop begin b.bytes)
    else drop begin b.bytes ++ take (n - first) b.bytes

-- `Read`: the bytes in [after, end), the new end, and whether `after` is in the retained window.
unfoldable pub read : Buffer → ℕ → Bytes × ℕ × Bool
read b after =
    let n = sub64 b.end after in
    if ltb64 after b.start || ltb64 b.end after
    then ([], b.end, false)
    else if leb n 0
    then ([], b.end, true)
    else (read_ring b (rem64 after b.capacity) n, b.end, true)
