-- ===== src/Buffer/Read.antt =====
-- What `Read` returns from a buffer that holds a stream, and runs of appends followed by a read.
use native.Mathlib.Nat.{mod-lt, mod-le}
use tmux_pane_control.Prelude.{
  ℕ, ◌+◌, ◌-◌, ◌%◌, ◌≤◌, ◌<◌, ◌≡◌, refl, sym, ap, ◌∙◌, inl, inr, true, false, List, [], ◌∷◌, ◌++◌,
  Bytes, length, get_or, take, drop, leb, ◌&&◌, if◌then◌else◌, arith, dec_lt, Bool-cases,
  length-append, length-take, length-drop, get_or-drop, get_or-take, drop_all, get_or-append_left,
  get_or-append_right, eq_of_get_or, append_assoc, append-nil, leb_false→lt, leb→le, subst,
}
use tmux_pane_control.Prelude.Int64.{
  two63, two64, add64-small, sub64-small, ltb64-small, ltb64-negative, leb64-small, rem64-small,
}
use tmux_pane_control.Buffer.{Buffer, fresh, advance, drop_excess, append, read, read_ring}
use tmux_pane_control.Buffer.Window.{add-mod_cases}
use tmux_pane_control.Buffer.Stream.{Holds, append-Holds, fresh-Holds}

module _ (b : Buffer) (s : Bytes) (h : Holds b s) (o : ℕ) (lo : length s - b.capacity ≤ o)
    (hi : o < length s) where
  begin-lt : o % b.capacity < b.capacity
  begin-lt = mod-lt o h.counts.positive

  one_part :
      o % b.capacity + (length s - o) ≤ b.capacity
      → take (length s - o) (drop (o % b.capacity) b.bytes) ≡ drop o s
  one_part fits =
      eq_of_get_or _ _ 0
        (omega (
          arith,
          length-take (length s - o) (drop (o % b.capacity) b.bytes),
          length-drop (o % b.capacity) b.bytes,
          length-drop o s,
          h.counts.storage,
        ))
        (λ i lt. at i (omega (arith, length-take (length s - o) (drop (o % b.capacity) b.bytes))))
    where
      at :
          (i : ℕ)
          → i < length s - o
          → get_or (take (length s - o) (drop (o % b.capacity) b.bytes)) i 0 ≡ get_or (drop o s) i 0
      at i lt =
          get_or-take (length s - o) i (drop (o % b.capacity) b.bytes) 0 lt
          ∙ get_or-drop (o % b.capacity) i b.bytes 0
          ∙ elim (add-mod_cases b.capacity o i (omega arith)) [
            | inl (_, e) ↦ ap (λ k. get_or b.bytes k 0) (sym e)
            | inr (m, _) ↦ absurd (omega arith)
          ]
          ∙ h.retained (o + i) (omega arith) (omega arith)
          ∙ sym (get_or-drop o i s 0)

  two_parts :
      b.capacity < o % b.capacity + (length s - o)
      → drop (o % b.capacity) b.bytes ++ take (length s - o - (b.capacity - o % b.capacity)) b.bytes
        ≡ drop o s
  two_parts more =
      let first = b.capacity - o % b.capacity in
      let front = length-drop (o % b.capacity) b.bytes in
      let back = length-take (length s - o - first) b.bytes in
      let both =
        length-append (drop (o % b.capacity) b.bytes) (take (length s - o - first) b.bytes) in
      eq_of_get_or _ _ 0
        (omega (arith, front, back, both, length-drop o s, h.counts.storage, begin-lt))
        (λ i lt. elim (dec_lt i first) [
          | yes ahead ↦ before i ahead
          | no round ↦
              after i (omega arith) (omega (arith, front, back, both, h.counts.storage, begin-lt))
        ])
    where
      first : ℕ
      first = b.capacity - o % b.capacity

      before :
          (i : ℕ)
          → i < first
          → get_or (drop (o % b.capacity) b.bytes ++ take (length s - o - first) b.bytes) i 0
            ≡ get_or (drop o s) i 0
      before i lt =
          get_or-append_left (drop (o % b.capacity) b.bytes) _ i 0
            (omega (arith, length-drop (o % b.capacity) b.bytes, h.counts.storage))
          ∙ get_or-drop (o % b.capacity) i b.bytes 0
          ∙ elim (add-mod_cases b.capacity o i (omega arith)) [
            | inl (_, e) ↦ ap (λ k. get_or b.bytes k 0) (sym e)
            | inr (m, _) ↦ absurd (omega arith)
          ]
          ∙ h.retained (o + i) (omega arith) (omega arith)
          ∙ sym (get_or-drop o i s 0)

      after :
          (i : ℕ)
          → first ≤ i
          → i < length s - o
          → get_or (drop (o % b.capacity) b.bytes ++ take (length s - o - first) b.bytes) i 0
            ≡ get_or (drop o s) i 0
      after i ge lt =
          ap
            (λ k. get_or (drop (o % b.capacity) b.bytes ++ take (length s - o - first) b.bytes) k 0)
            (omega (arith, length-drop (o % b.capacity) b.bytes, h.counts.storage, begin-lt))
          ∙ get_or-append_right (drop (o % b.capacity) b.bytes) _ (i - first) 0
          ∙ get_or-take (length s - o - first) (i - first) b.bytes 0 (omega arith)
          ∙ elim (add-mod_cases b.capacity o i (omega arith)) [
            | inl (l, _) ↦ absurd (omega arith)
            | inr (m, e) ↦ ap (λ k. get_or b.bytes k 0) (omega (arith, begin-lt))
          ]
          ∙ h.retained (o + i) (omega arith) (omega arith)
          ∙ sym (get_or-drop o i s 0)

  read_ring-drop : read_ring b (o % b.capacity) (length s - o) ≡ drop o s
  unfolding read_ring
  read_ring-drop =
      rw
        (
          add64-small (o % b.capacity) (length s - o) (omega (arith, begin-lt)),
          leb64-small (o % b.capacity + (length s - o)) b.capacity
              (omega (arith, mod-le o b.capacity)) h.counts.cap_small,
        )
        (elim (Bool-cases (leb (o % b.capacity + (length s - o)) b.capacity)) [
          | inl fits ↦ rw fits (one_part (leb→le _ _ fits))
          | inr more ↦ rw more (two_parts (leb_false→lt _ _ more))
        ])

-- `Read` returns all that was appended from `after` on, if `after` is neither evicted nor beyond
-- the end, and refuses any other offset, a negative one too.
pub read_lem :
    (b : Buffer) (s : Bytes) (after : ℕ)
    → Holds b s
    → after < two64
    → read b after ≡ (
        if leb (length s - b.capacity) after && leb after (length s)
        then (drop after s, length s, true)
        else ([], length s, false))
unfolding read
read_lem b s after h w = elim (dec_lt after two63) [
  | no negative ↦
      let low = ltb64-negative after b.start (omega arith) w (omega arith) in ground (arith, low)
  | yes small ↦
      let low = ltb64-small after b.start small (omega arith) in
      let high = ltb64-small b.end after (omega arith) small in
      let begin = rem64-small after b.capacity small in
      ground (
        arith,
        low,
        high,
        begin,
        sub64-small b.end after,
        read_ring-drop b s h after,
        drop_all after s,
      )
]

-- `Append` called on each slice in turn, each with its time.
unfoldable pub append_all : Buffer → List (Bytes × ℕ) → Buffer
append_all b [] = b
append_all b ((p, now) ∷ ps) = append_all (append b p now) ps

abbrev pub stream : List (Bytes × ℕ) → Bytes
stream [] = []
stream ((p, now) ∷ ps) = p ++ stream ps

pub append_all-Holds :
    (ps : List (Bytes × ℕ)) (b : Buffer) (s : Bytes)
    → Holds b s
    → length s + length (stream ps) < two63
    → Holds (append_all b ps) (s ++ stream ps)
unfolding append_all
append_all-Holds [] b s h small = rw append-nil h
append_all-Holds ((p, now) ∷ ps) b s h small = rw (← append_assoc s p (stream ps)) (
    append_all-Holds ps (append b p now) (s ++ p)
      (append-Holds b s p now h (omega (arith, length-append p (stream ps))))
      (omega (arith, length-append p (stream ps), length-append s p)))

pub capacity-append : (b : Buffer) (p : Bytes) (now : ℕ) → (append b p now).capacity ≡ b.capacity
unfolding append drop_excess advance
capacity-append b [] now = refl
capacity-append b (x ∷ xs) now = ground arith

pub capacity-append_all :
    (ps : List (Bytes × ℕ)) (b : Buffer) → (append_all b ps).capacity ≡ b.capacity
unfolding append_all
capacity-append_all [] b = refl
capacity-append_all ((p, now) ∷ ps) b =
    capacity-append_all ps (append b p now) ∙ capacity-append b p now

-- A new buffer of capacity `c`, after any appends of fewer than 2^63 bytes in all, gives back by
-- `Read` the stream from `after` on exactly when at most `c` of its bytes come after `after`.
pub read-append_all :
    (c : ℕ) (ps : List (Bytes × ℕ)) (after : ℕ)
    → 0 < c
    → c < two63
    → length (stream ps) < two63
    → after < two64
    → read (append_all (fresh c) ps) after ≡ (
        if leb (length (stream ps) - c) after && leb after (length (stream ps))
        then (drop after (stream ps), length (stream ps), true)
        else ([], length (stream ps), false))
read-append_all c ps after pos small fits w =
    subst
      (λ k. read (append_all (fresh c) ps) after ≡ (
        if leb (length (stream ps) - k) after && leb after (length (stream ps))
        then (drop after (stream ps), length (stream ps), true)
        else ([], length (stream ps), false)))
      (capacity-append_all ps (fresh c))
      (read_lem (append_all (fresh c) ps) (stream ps) after
        (append_all-Holds ps (fresh c) [] (fresh-Holds c pos small) (omega arith)) w)
