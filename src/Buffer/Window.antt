-- ===== src/Buffer/Window.antt =====
-- Which index of the ring holds which offset, and what one write puts there.
use native.Mathlib.Nat.{mod-add-mod, mod-eq_of_lt, mod-eq-sub-mod, mod-lt}
use tmux_pane_control.Prelude.{
  ℕ, ◌+◌, ◌-◌, ◌%◌, ◌≤◌, ◌<◌, ◌≡◌, ◌≢◌, refl, sym, ap, ◌∙◌, ◌⊎◌, inl, inr, Bytes, length, get_or,
  take, drop, leb, if◌then◌else◌, arith, dec_lt, Bool-cases, leb→le, leb_false→lt, length-take,
  length-drop, get_or-take, get_or-drop,
}
use tmux_pane_control.Prelude.Int64.{two63, rem64-small}
use tmux_pane_control.Buffer.{Buffer, write_ring}
use tmux_pane_control.Buffer.Copy.{
  copy_at, length-copy_at, get_or-copy_at_before, get_or-copy_at_after, get_or-copy_at_in,
}

-- `k` steps on from offset `e`, the index has advanced by `k`, or has gone round once.
pub add-mod_cases :
    (c e k : ℕ)
    → k < c
    → ((e % c + k < c) × ((e + k) % c ≡ e % c + k))
      ⊎ ((c ≤ e % c + k) × ((e + k) % c ≡ e % c + k - c))
add-mod_cases c e k h = elim (dec_lt (e % c + k) c) [
  | yes p ↦ inl (p, sym (mod-add-mod e c k) ∙ mod-eq_of_lt p)
  | no p ↦ inr (
    omega arith,
    sym (mod-add-mod e c k)
        ∙ mod-eq-sub-mod {n = e % c + k} {m = c} (omega arith)
        ∙ mod-eq_of_lt {n = e % c + k - c} {m = c} (omega (arith, mod-lt e {m = c} (omega arith))),
  )
]

-- Fewer than a whole round apart, two offsets have different indices.
pub add-mod_ne : (c o j : ℕ) → 0 < j → j < c → (o + j) % c ≢ o % c
add-mod_ne c o j h k e = elim (add-mod_cases c o j k) [
  | inl (p, q) ↦ omega arith
  | inr (p, q) ↦ omega (arith, mod-lt o {m = c} (omega arith))
]

-- The copies of `write_ring`, over the index `head` that they start from.
abbrev copies : Bytes → ℕ → ℕ → Bytes → Bytes
copies bs c head p =
    if leb (length p) (c - head)
    then copy_at bs head p
    else copy_at (copy_at bs head (take (c - head) p)) 0 (drop (c - head) p)

module _ (bs p : Bytes) (c head : ℕ) (storage : length bs ≡ c) (inside : head < c) where
  length-copies : length (copies bs c head p) ≡ c
  length-copies = elim (Bool-cases (leb (length p) (c - head))) [
    | inl one ↦ rw one (length-copy_at bs head p ∙ storage)
    | inr two ↦ rw two (length-copy_at (copy_at bs head _) 0 _ ∙ length-copy_at bs head _ ∙ storage)
  ]

  -- Before the end of the storage.
  copies_ahead :
      (k : ℕ)
      → length p ≤ c
      → k < length p
      → head + k < c
      → get_or (copies bs c head p) (head + k) 0 ≡ get_or p k 0
  copies_ahead k fits h ahead = elim (Bool-cases (leb (length p) (c - head))) [
    | inl one ↦ rw one (get_or-copy_at_in bs head p k (head + k) 0 refl h (omega arith))
    | inr two ↦ rw two (
        get_or-copy_at_after (copy_at bs head _) 0 (drop (c - head) p) (head + k) 0
          (omega (arith, length-drop (c - head) p))
        ∙ get_or-copy_at_in bs head (take (c - head) p) k (head + k) 0 refl
            (omega (arith, length-take (c - head) p)) (omega arith)
        ∙ get_or-take (c - head) k p 0 (omega arith))
  ]

  -- Past it, from index 0 on.
  copies_round :
      (k : ℕ)
      → length p ≤ c
      → k < length p
      → c ≤ head + k
      → get_or (copies bs c head p) (head + k - c) 0 ≡ get_or p k 0
  copies_round k fits h round = elim (Bool-cases (leb (length p) (c - head))) [
    | inl one ↦ absurd (omega (arith, leb→le _ _ one))
    | inr two ↦ rw two (
        get_or-copy_at_in (copy_at bs head _) 0 (drop (c - head) p) (head + k - c) (head + k - c) 0
          (omega arith) (omega (arith, length-drop (c - head) p))
          (omega (arith, length-copy_at bs head (take (c - head) p)))
        ∙ get_or-drop (c - head) (head + k - c) p 0
        ∙ ap (λ i. get_or p i 0) (omega arith))
  ]

  copies_outside :
      (i : ℕ)
      → i < c
      → length p ≤ c
      → ((k : ℕ) → k < length p → head + k < c → head + k ≢ i)
      → ((k : ℕ) → k < length p → c ≤ head + k → head + k - c ≢ i)
      → get_or (copies bs c head p) i 0 ≡ get_or bs i 0
  copies_outside i lt fits ahead round = elim (dec_lt i head) [
    | yes before ↦ elim (Bool-cases (leb (length p) (c - head))) [
      | inl one ↦ rw one (get_or-copy_at_before bs head p i 0 before)
      | inr two ↦ elim (dec_lt i (length p - (c - head))) [
        | yes hit ↦ absurd (round (c - head + i) (omega arith) (omega arith) (omega arith))
        | no miss ↦ rw two (
            get_or-copy_at_after (copy_at bs head _) 0 (drop (c - head) p) i 0
              (omega (arith, length-drop (c - head) p))
            ∙ get_or-copy_at_before bs head (take (c - head) p) i 0 before)
      ]
    ]
    | no past ↦ elim (dec_lt i (head + length p)) [
      | yes hit ↦ absurd (ahead (i - head) (omega arith) (omega arith) (omega arith))
      | no miss ↦ elim (Bool-cases (leb (length p) (c - head))) [
        | inl one ↦ rw one (get_or-copy_at_after bs head p i 0 (omega arith))
        | inr two ↦ absurd (omega (arith, leb_false→lt _ _ two))
      ]
    ]
  ]

module _ (b : Buffer) (p : Bytes) (storage : length b.bytes ≡ b.capacity)
    (positive : 0 < b.capacity) (fits : length p ≤ b.capacity) (small : b.end < two63) where
  write_ring-copies : write_ring b p ≡ copies b.bytes b.capacity (b.end % b.capacity) p
  unfolding write_ring
  write_ring-copies = rw (rem64-small b.end b.capacity small)

  inside : b.end % b.capacity < b.capacity
  inside = mod-lt b.end positive

  pub length-write_ring : length (write_ring b p) ≡ b.capacity
  length-write_ring = rw write_ring-copies (length-copies b.bytes p b.capacity _ storage inside)

  -- The byte of offset `end + k` is byte `k` of the slice.
  pub get_or-write_ring_in :
      (k : ℕ) → k < length p → get_or (write_ring b p) ((b.end + k) % b.capacity) 0 ≡ get_or p k 0
  get_or-write_ring_in k h = elim (add-mod_cases b.capacity b.end k (omega arith)) [
    | inl (l, e) ↦
        rw (e, write_ring-copies) (copies_ahead b.bytes p b.capacity _ storage inside k fits h l)
    | inr (l, e) ↦
        rw (e, write_ring-copies) (copies_round b.bytes p b.capacity _ storage inside k fits h l)
  ]

  -- An index that no offset of the slice has keeps its byte.
  pub get_or-write_ring_out :
      (i : ℕ)
      → i < b.capacity
      → ((k : ℕ) → k < length p → (b.end + k) % b.capacity ≢ i)
      → get_or (write_ring b p) i 0 ≡ get_or b.bytes i 0
  get_or-write_ring_out i lt out = rw write_ring-copies (
      copies_outside b.bytes p b.capacity _ storage inside i lt fits
        (λ k h l e. elim (add-mod_cases b.capacity b.end k (omega arith)) [
          | inl (_, q) ↦ out k h (q ∙ e)
          | inr (m, q) ↦ absurd (omega arith)
        ])
        (λ k h l e. elim (add-mod_cases b.capacity b.end k (omega arith)) [
          | inl (m, q) ↦ absurd (omega arith)
          | inr (_, q) ↦ out k h (q ∙ e)
        ]))
