-- ===== src/Buffer/Copy.antt =====
-- Go's `copy` into a slice, and where it puts each byte.
use tmux_pane_control.Prelude.{
  ℕ, zero, suc, ◌+◌, ◌≤◌, ◌<◌, ◌≡◌, refl, ap, List, [], ◌∷◌, length, get_or, arith,
}

module _ {ℓ} {A : Type ℓ} where
  -- `copy(dst[i:], src)`: at most as many as there is room for.
  unfoldable pub copy_at : List A → ℕ → List A → List A
  copy_at [] i src = []
  copy_at (d ∷ ds) zero [] = d ∷ ds
  copy_at (d ∷ ds) zero (s ∷ ss) = s ∷ copy_at ds zero ss
  copy_at (d ∷ ds) (suc i) src = d ∷ copy_at ds i src

  pub length-copy_at :
      (dst : List A) (i : ℕ) (src : List A) → length (copy_at dst i src) ≡ length dst
  unfolding copy_at
  length-copy_at [] i src = refl
  length-copy_at (d ∷ ds) zero [] = refl
  length-copy_at (d ∷ ds) zero (s ∷ ss) = ap suc (length-copy_at ds zero ss)
  length-copy_at (d ∷ ds) (suc i) src = ap suc (length-copy_at ds i src)

  pub get_or-copy_at_before :
      (dst : List A) (i : ℕ) (src : List A) (j : ℕ) (d : A)
      → j < i
      → get_or (copy_at dst i src) j d ≡ get_or dst j d
  unfolding copy_at
  get_or-copy_at_before [] i src j d h = refl
  get_or-copy_at_before (x ∷ ds) zero src j d h = absurd (omega arith)
  get_or-copy_at_before (x ∷ ds) (suc i) src zero d h = refl
  get_or-copy_at_before (x ∷ ds) (suc i) src (suc j) d h =
      get_or-copy_at_before ds i src j d (omega arith)

  pub get_or-copy_at_after :
      (dst : List A) (i : ℕ) (src : List A) (j : ℕ) (d : A)
      → i + length src ≤ j
      → get_or (copy_at dst i src) j d ≡ get_or dst j d
  unfolding copy_at
  get_or-copy_at_after [] i src j d h = refl
  get_or-copy_at_after (x ∷ ds) zero [] j d h = refl
  get_or-copy_at_after (x ∷ ds) zero (s ∷ ss) zero d h = absurd (omega arith)
  get_or-copy_at_after (x ∷ ds) zero (s ∷ ss) (suc j) d h =
      get_or-copy_at_after ds zero ss j d (omega arith)
  get_or-copy_at_after (x ∷ ds) (suc i) src zero d h = absurd (omega arith)
  get_or-copy_at_after (x ∷ ds) (suc i) src (suc j) d h =
      get_or-copy_at_after ds i src j d (omega arith)

  pub get_or-copy_at_in :
      (dst : List A) (i : ℕ) (src : List A) (k j : ℕ) (d : A)
      → j ≡ i + k
      → k < length src
      → j < length dst
      → get_or (copy_at dst i src) j d ≡ get_or src k d
  unfolding copy_at
  get_or-copy_at_in [] i src k j d e h l = absurd (omega arith)
  get_or-copy_at_in (x ∷ ds) zero [] k j d e h l = absurd (omega arith)
  get_or-copy_at_in (x ∷ ds) zero (s ∷ ss) zero zero d e h l = refl
  get_or-copy_at_in (x ∷ ds) zero (s ∷ ss) zero (suc j) d e h l = absurd (omega arith)
  get_or-copy_at_in (x ∷ ds) zero (s ∷ ss) (suc k) zero d e h l = absurd (omega arith)
  get_or-copy_at_in (x ∷ ds) zero (s ∷ ss) (suc k) (suc j) d e h l =
      get_or-copy_at_in ds zero ss k j d (omega arith) (omega arith) (omega arith)
  get_or-copy_at_in (x ∷ ds) (suc i) src k zero d e h l = absurd (omega arith)
  get_or-copy_at_in (x ∷ ds) (suc i) src k (suc j) d e h l =
      get_or-copy_at_in ds i src k j d (omega arith) h (omega arith)
