-- ===== src/Buffer/Stream.antt =====
-- The ring against the stream of all bytes ever appended to it: what it retains of that stream, and
-- that `Append` keeps this true.
use native.Mathlib.Nat.{mod-lt}
use tmux_pane_control.Prelude.{
  ℕ, ◌+◌, ◌-◌, ◌%◌, ◌≤◌, ◌<◌, ◌≡◌, ◌≢◌, refl, sym, ap, ◌∙◌, inl, inr, [], ◌∷◌, ◌++◌, Bytes, length,
  get_or, take, drop, ltb, if◌then◌else◌, arith, dec_lt, Bool-cases, length-append, length-take,
  length-drop, take-append-drop, append_assoc, append-nil, get_or-append_left, get_or-append_right,
  some, none, ◌&&◌, length-replicate, ltb→lt, ltb_false→le, subst,
}
use tmux_pane_control.Prelude.Int64.{
  two63, two64, ltb64, add64-small, sub64-small, ltb64-small, leb64,
}
use tmux_pane_control.Buffer.{Buffer, fresh, new_buffer, advance, drop_excess, write_ring, append}
use tmux_pane_control.Buffer.Window.{
  add-mod_ne, length-write_ring, get_or-write_ring_in, get_or-write_ring_out,
}

-- The counters of a buffer to which the stream `s` has been appended.
pub record Counts (b : Buffer) (s : Bytes) : Type 0 where
  pub positive : 0 < b.capacity
  pub cap_small : b.capacity < two63
  pub storage : length b.bytes ≡ b.capacity
  pub end_is : b.end ≡ length s
  pub start_is : b.start ≡ length s - b.capacity
  pub small : length s < two63

-- The buffer holds the last `capacity` bytes of `s`, each at the index of its offset.
pub record Holds (b : Buffer) (s : Bytes) : Type 0 where
  pub counts : Counts b s
  pub retained :
      (o : ℕ)
      → length s - b.capacity ≤ o
      → o < length s
      → get_or b.bytes (o % b.capacity) 0 ≡ get_or s o 0

capacity-advance : (b : Buffer) (n : ℕ) → (advance b n).capacity ≡ b.capacity
unfolding advance
capacity-advance b n = refl

advance-Counts :
    (b : Buffer) (s t : Bytes) (n : ℕ)
    → Counts b s
    → length t ≡ length s + n
    → length t < two63
    → Counts (advance b n) t
unfolding advance
advance-Counts b s t n c e small = ground (
  arith,
  add64-small b.end n (omega arith),
  sub64-small (b.end + n) b.start (omega arith) (omega arith),
  sub64-small (b.end + n) b.capacity,
  ltb64-small b.capacity (b.end + n - b.start) (omega arith) (omega arith),
)

write-Counts :
    (b : Buffer) (s p : Bytes)
    → Counts b s
    → length p ≤ b.capacity
    → Counts (record b { bytes = write_ring b p }) s
write-Counts b s p c fits = record {
  positive = c.positive;
  cap_small = c.cap_small;
  storage = length-write_ring b p c.storage c.positive fits (omega arith);
  end_is = c.end_is;
  start_is = c.start_is;
  small = c.small;
}

-- One write of at most `capacity` bytes: it is enough that the buffer held what stays retained.
write-Holds :
    (b : Buffer) (s p : Bytes)
    → Counts b s
    → length p ≤ b.capacity
    → length s + length p < two63
    → ((o : ℕ)
        → length s + length p - b.capacity ≤ o
        → o < length s
        → get_or b.bytes (o % b.capacity) 0 ≡ get_or s o 0)
    → Holds (advance (record b { bytes = write_ring b p }) (length p)) (s ++ p)
unfolding advance
write-Holds b s p c fits small old = record {
  counts =
      advance-Counts (record b { bytes = write_ring b p }) s (s ++ p) (length p)
        (write-Counts b s p c fits) (length-append s p) (omega (arith, length-append s p));
  retained = λ o lo hi. elim (dec_lt o (length s)) [
    | yes before ↦
        get_or-write_ring_out b p c.storage c.positive fits (omega arith) (o % b.capacity)
          (mod-lt o c.positive) (λ k h. missed o k (omega (arith, length-append s p)) before h)
        ∙ old o (omega (arith, length-append s p)) before
        ∙ sym (get_or-append_left s p o 0 before)
    | no past ↦
        ap (λ i. get_or (write_ring b p) (i % b.capacity) 0) (omega (arith, c.end_is))
        ∙ get_or-write_ring_in b p c.storage c.positive fits (omega arith) (o - length s)
            (omega (arith, length-append s p))
        ∙ sym (get_or-append_right s p (o - length s) 0)
        ∙ ap (λ i. get_or (s ++ p) i 0) (omega arith)
  ];
}
  where
    missed :
        (o k : ℕ)
        → length s + length p - b.capacity ≤ o
        → o < length s
        → k < length p
        → (b.end + k) % b.capacity ≢ o % b.capacity
    missed o k lo hi h e =
        add-mod_ne b.capacity o (b.end + k - o) (omega (arith, c.end_is)) (omega (arith, c.end_is))
          (ap (λ i. i % b.capacity) (omega (arith, c.end_is)) ∙ e)

stamp-Counts :
    (b : Buffer) (s : Bytes) (now : ℕ) → Counts b s → Counts (record b { last_append = some now }) s
stamp-Counts b s now c = record {
  positive = c.positive;
  cap_small = c.cap_small;
  storage = c.storage;
  end_is = c.end_is;
  start_is = c.start_is;
  small = c.small;
}

-- A slice that is longer than the ring: its tail alone is written, over all that was there.
write_tail-Holds :
    (b : Buffer) (s p : Bytes)
    → Counts b s
    → b.capacity < length p
    → length s + length p < two63
    → let d = length p - b.capacity in
      let skipped = advance b d in
      Holds
        (advance (record skipped { bytes = write_ring skipped (drop d p) }) (length (drop d p)))
        (s ++ p)
write_tail-Holds b s p c more small =
    let d = length p - b.capacity in
    let gone = length-append s (take d p) in
    let taken = length-take d p in
    let rest = length-drop d p in
    subst
      (λ t.
        Holds
          (advance (record (advance b d) { bytes = write_ring (advance b d) (drop d p) })
            (length (drop d p)))
          t)
      (append_assoc s (take d p) (drop d p) ∙ ap (λ t. s ++ t) (take-append-drop d p))
      (write-Holds (advance b d) (s ++ take d p) (drop d p)
        (advance-Counts b s (s ++ take d p) d c (omega arith) (omega arith))
        (omega (arith, capacity-advance b d)) (omega arith)
        (λ o lo hi. absurd (omega (arith, capacity-advance b d))))

-- Appending to a buffer that holds a stream makes it hold the longer stream.
pub append-Holds :
    (b : Buffer) (s p : Bytes) (now : ℕ)
    → Holds b s
    → length s + length p < two63
    → Holds (append b p now) (s ++ p)
unfolding append drop_excess
append-Holds b s [] now h small = rw append-nil h
append-Holds b s (x ∷ xs) now h small =
    let stamped = record b { last_append = some now } in
    let counts = stamp-Counts b s now h.counts in
    elim (Bool-cases (ltb b.capacity (length (x ∷ xs)))) [
      | inl more ↦ rw more (write_tail-Holds stamped s (x ∷ xs) counts (ltb→lt _ _ more) small)
      | inr fits ↦ rw fits (
          write-Holds stamped s (x ∷ xs) counts (ltb_false→le _ _ fits) small
            (λ o lo hi. h.retained o (omega arith) hi))
    ]

-- A new buffer of positive capacity has nothing of the empty stream.
pub fresh-Holds : (c : ℕ) → 0 < c → c < two63 → Holds (fresh c) []
fresh-Holds c pos small = record {
  counts = record {
    positive = pos;
    cap_small = small;
    storage = length-replicate c 0;
    end_is = refl;
    start_is = omega arith;
    small = omega arith;
  };
  retained = λ o lo hi. absurd (omega arith);
}

-- `NewBuffer` makes a buffer exactly for the capacities that are positive as signed numbers.
pub new_buffer_lem :
    (c : ℕ) → c < two64 → new_buffer c ≡ (if ltb 0 c && ltb c two63 then some (fresh c) else none)
unfolding new_buffer leb64 ltb64
new_buffer_lem c h = ground arith
