-- ===== src/Textnorm/Strip.antt =====
-- `stripANSI`: the loop ends, its fast path changes nothing, and what it leaves.
use tmux_pane_control.Prelude.{
  ℕ, zero, suc, ◌≤◌, ◌≡◌, refl, sym, ap, ◌∙◌, false, [], ◌∷◌, Bytes, length, ◌==◌, arith,
  Bool-cases, inl, inr,
}
use tmux_pane_control.Textnorm.{
  escape, has_byte, skip_range, skip_one, skip_osc, skip_string, skip_csi, skip_other,
  skip_sequence, strip_from, strip_ansi, remove_byte, strip_ansi_and_cr,
}

length-skip_range : (lo hi : ℕ) (s : Bytes) → length (skip_range lo hi s) ≤ length s
unfolding skip_range
length-skip_range lo hi [] = omega arith
length-skip_range lo hi (c ∷ cs) = ground (arith, length-skip_range lo hi cs)

length-skip_one : (lo hi : ℕ) (s : Bytes) → length (skip_one lo hi s) ≤ length s
unfolding skip_one
length-skip_one lo hi [] = omega arith
length-skip_one lo hi (c ∷ cs) = ground arith

length-skip_osc : (s : Bytes) → length (skip_osc s) ≤ length s
unfolding skip_osc
length-skip_osc [] = omega arith
length-skip_osc (c ∷ []) = ground (arith, length-skip_osc [])
length-skip_osc (c ∷ d ∷ cs) = ground (arith, length-skip_osc (d ∷ cs))

length-skip_string : (s : Bytes) → length (skip_string s) ≤ length s
unfolding skip_string
length-skip_string [] = omega arith
length-skip_string (c ∷ []) = ground (arith, length-skip_string [])
length-skip_string (c ∷ d ∷ cs) = ground (arith, length-skip_string (d ∷ cs))

length-skip_csi : (s : Bytes) → length (skip_csi s) ≤ length s
unfolding skip_csi
length-skip_csi s = omega (
  arith,
  length-skip_one 0x40 0x7E (skip_range 0x20 0x2F (skip_range 0x30 0x3F s)),
  length-skip_range 0x20 0x2F (skip_range 0x30 0x3F s),
  length-skip_range 0x30 0x3F s,
)

length-skip_other : (s : Bytes) → length (skip_other s) ≤ length s
unfolding skip_other
length-skip_other s =
    omega (arith, length-skip_one 0x30 0x7E (skip_range 0x20 0x2F s), length-skip_range 0x20 0x2F s)

-- A scan never moves back.
pub length-skip_sequence : (s : Bytes) → length (skip_sequence s) ≤ length s
unfolding skip_sequence
length-skip_sequence [] = omega arith
length-skip_sequence (c ∷ cs) = ground (
  arith,
  length-skip_csi cs,
  length-skip_osc cs,
  length-skip_string cs,
  length-skip_other (c ∷ cs),
)

-- The fuel is enough: more of it changes nothing.
strip_from_fuel :
    (f g : ℕ) (s : Bytes) → length s ≤ f → length s ≤ g → strip_from f s ≡ strip_from g s
unfolding strip_from
strip_from_fuel zero zero s h k = refl
strip_from_fuel zero (suc g) [] h k = refl
strip_from_fuel zero (suc g) (c ∷ cs) h k = absurd (omega arith)
strip_from_fuel (suc f) zero [] h k = refl
strip_from_fuel (suc f) zero (c ∷ cs) h k = absurd (omega arith)
strip_from_fuel (suc f) (suc g) [] h k = refl
strip_from_fuel (suc f) (suc g) (c ∷ cs) h k = elim (Bool-cases (c == escape)) [
  | inl esc ↦ rw esc (
      strip_from_fuel f g (skip_sequence cs) (omega (arith, length-skip_sequence cs))
        (omega (arith, length-skip_sequence cs)))
  | inr plain ↦ rw plain (ap (◌∷◌ c) (strip_from_fuel f g cs (omega arith) (omega arith)))
]

-- The loop on a text, with the fuel it needs.
abbrev pub strip_loop : Bytes → Bytes
strip_loop s = strip_from (length s) s

pub strip_loop-plain :
    (c : ℕ) (cs : Bytes) → (c == escape) ≡ false → strip_loop (c ∷ cs) ≡ c ∷ strip_loop cs
unfolding strip_from
strip_loop-plain c cs h = rw h

pub strip_loop-escape : (cs : Bytes) → strip_loop (escape ∷ cs) ≡ strip_loop (skip_sequence cs)
unfolding strip_from
strip_loop-escape cs =
    strip_from_fuel (length cs) (length (skip_sequence cs)) (skip_sequence cs)
      (length-skip_sequence cs) (omega arith)

strip_loop-no_escape : (s : Bytes) → has_byte escape s ≡ false → strip_loop s ≡ s
unfolding has_byte
strip_loop-no_escape [] h = unfold strip_from in refl
strip_loop-no_escape (c ∷ cs) h =
    strip_loop-plain c cs (ground arith) ∙ ap (◌∷◌ c) (strip_loop-no_escape cs (ground arith))

-- The fast path of `stripANSI` for a text with no ESC returns what the loop would.
pub strip_ansi-strip_loop : (s : Bytes) → strip_ansi s ≡ strip_loop s
unfolding strip_ansi
strip_ansi-strip_loop s = elim (Bool-cases (has_byte escape s)) [
  | inl some_escape ↦ rw some_escape
  | inr none_there ↦ rw none_there (sym (strip_loop-no_escape s none_there))
]

strip_from_no_escape : (f : ℕ) (s : Bytes) → has_byte escape (strip_from f s) ≡ false
unfolding strip_from has_byte
strip_from_no_escape zero s = refl
strip_from_no_escape (suc f) [] = refl
strip_from_no_escape (suc f) (c ∷ cs) = elim (Bool-cases (c == escape)) [
  | inl esc ↦ rw esc (strip_from_no_escape f (skip_sequence cs))
  | inr plain ↦ rw (plain, has_byte, plain) (strip_from_no_escape f cs)
]

-- No ESC is left, whatever the input.
pub strip_ansi_no_escape : (s : Bytes) → has_byte escape (strip_ansi s) ≡ false
strip_ansi_no_escape s = rw (strip_ansi-strip_loop s) (strip_from_no_escape (length s) s)

-- Stripping a second time changes nothing.
pub strip_ansi_idem : (s : Bytes) → strip_ansi (strip_ansi s) ≡ strip_ansi s
strip_ansi_idem s =
    strip_ansi-strip_loop (strip_ansi s)
    ∙ strip_loop-no_escape (strip_ansi s) (strip_ansi_no_escape s)

has_byte-remove_byte :
    (d c : ℕ) (s : Bytes) → has_byte d s ≡ false → has_byte d (remove_byte c s) ≡ false
unfolding has_byte remove_byte
has_byte-remove_byte d c [] h = refl
has_byte-remove_byte d c (x ∷ xs) h = ground (arith, has_byte-remove_byte d c xs)

remove_byte_self : (c : ℕ) (s : Bytes) → has_byte c (remove_byte c s) ≡ false
unfolding has_byte remove_byte
remove_byte_self c [] = refl
remove_byte_self c (x ∷ xs) = ground (arith, remove_byte_self c xs)

remove_byte_none : (c : ℕ) (s : Bytes) → has_byte c s ≡ false → remove_byte c s ≡ s
unfolding has_byte remove_byte
remove_byte_none c [] h = refl
remove_byte_none c (x ∷ xs) h = ground (arith, remove_byte_none c xs)

-- The test before `ReplaceAll` only saves work.
pub strip_ansi_and_cr_lem : (s : Bytes) → strip_ansi_and_cr s ≡ remove_byte b'\r' (strip_ansi s)
unfolding strip_ansi_and_cr
strip_ansi_and_cr_lem s = elim (Bool-cases (has_byte b'\r' (strip_ansi s))) [
  | inl there ↦ rw there
  | inr absent ↦ rw absent (sym (remove_byte_none b'\r' (strip_ansi s) absent))
]

-- The input of the matchers has neither ESC nor carriage return.
pub strip_ansi_and_cr_clean :
    (s : Bytes)
    → (has_byte escape (strip_ansi_and_cr s) ≡ false)
      × (has_byte b'\r' (strip_ansi_and_cr s) ≡ false)
strip_ansi_and_cr_clean s = rw (strip_ansi_and_cr_lem s) (
  has_byte-remove_byte escape b'\r' (strip_ansi s) (strip_ansi_no_escape s),
  remove_byte_self b'\r' (strip_ansi s),
)

-- A text with neither is left as it is.
pub strip_ansi_and_cr_plain :
    (s : Bytes) → has_byte escape s ≡ false → has_byte b'\r' s ≡ false → strip_ansi_and_cr s ≡ s
strip_ansi_and_cr_plain s e r =
    strip_ansi_and_cr_lem s
    ∙ ap (remove_byte b'\r') (strip_ansi-strip_loop s ∙ strip_loop-no_escape s e)
    ∙ remove_byte_none b'\r' s r
