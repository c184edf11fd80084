-- ===== src/Textnorm/Lines.antt =====
-- Splitting into lines, joining, and the two trims.
use tmux_pane_control.Prelude.{
  ℕ, ◌≡◌, ◌≢◌, refl, sym, ap, ◌∙◌, Bool, false, ◌||◌, List, [], ◌∷◌, ◌++◌, Bytes, is_empty, ◌==◌,
  ==_iff, arith, Bool-cases, inl, inr,
}
use tmux_pane_control.Textnorm.{has_byte, cons_first, split_lines, join_lines}

abbrev pub newline : ℕ
newline = b'\n'

abbrev is_blank : ℕ → Bool
is_blank c = c == b' ' || c == b'\t'

-- The last byte is a space or a tab.
unfoldable pub ends_blank : Bytes → Bool
ends_blank [] = false
ends_blank (c ∷ []) = is_blank c
ends_blank (c ∷ d ∷ cs) = ends_blank (d ∷ cs)

unfoldable pub ends_newline : Bytes → Bool
ends_newline [] = false
ends_newline (c ∷ []) = c == newline
ends_newline (c ∷ d ∷ cs) = ends_newline (d ∷ cs)

-- The last line is empty.
unfoldable pub last_blank : List Bytes → Bool
last_blank [] = false
last_blank (l ∷ []) = is_empty l
last_blank (l ∷ k ∷ ls) = last_blank (k ∷ ls)

abbrev pub AllTrimmed : List Bytes → Type 0
AllTrimmed [] = Unit
AllTrimmed (l ∷ ls) = (ends_blank l ≡ false) × AllTrimmed ls

-- No line holds the byte.
abbrev pub AllWithout : ℕ → List Bytes → Type 0
AllWithout c [] = Unit
AllWithout c (l ∷ ls) = (has_byte c l ≡ false) × AllWithout c ls

cons_first-join : (c : ℕ) (ls : List Bytes) → join_lines (cons_first c ls) ≡ c ∷ join_lines ls
unfolding join_lines
cons_first-join c [] = refl
cons_first-join c (l ∷ []) = refl
cons_first-join c (l ∷ k ∷ ls) = refl

split_lines-ne-nil : (s : Bytes) → split_lines s ≢ []
unfolding split_lines
split_lines-ne-nil [] e = cc
split_lines-ne-nil (c ∷ cs) e = elim (Bool-cases (c == newline)) [
  | inl brk ↦ cc (rw brk at e)
  | inr plain ↦ cons_first-ne-nil (split_lines cs) (rw plain at e)
]
  where
    cons_first-ne-nil : (ls : List Bytes) → cons_first c ls ≡ [] → ⊥
    cons_first-ne-nil [] e = cc
    cons_first-ne-nil (l ∷ ls) e = cc

join-nil-cons : (ls : List Bytes) → ls ≢ [] → join_lines ([] ∷ ls) ≡ newline ∷ join_lines ls
unfolding join_lines
join-nil-cons [] ne = absurd (ne refl)
join-nil-cons (l ∷ ls) ne = refl

pub join-split : (s : Bytes) → join_lines (split_lines s) ≡ s
unfolding split_lines
join-split [] = unfold join_lines in refl
join-split (c ∷ cs) = elim (Bool-cases (c == newline)) [
  | inl brk ↦ rw brk (
      join-nil-cons (split_lines cs) (split_lines-ne-nil cs)
      ∙ ap (◌∷◌ newline) (join-split cs)
      ∙ ap (λ d. d ∷ cs) (sym ((==_iff c newline).0 brk)))
  | inr plain ↦ rw plain (cons_first-join c (split_lines cs) ∙ ap (◌∷◌ c) (join-split cs))
]

split-line : (l : Bytes) → has_byte newline l ≡ false → split_lines l ≡ l ∷ []
unfolding split_lines has_byte
split-line [] h = refl
split-line (c ∷ cs) h = elim (Bool-cases (c == newline)) [
  | inl brk ↦ cc (rw brk at h)
  | inr plain ↦ rw (plain, split-line cs (rw plain at h))
]

split-append :
    (l rest : Bytes)
    → has_byte newline l ≡ false
    → split_lines (l ++ (newline ∷ rest)) ≡ l ∷ split_lines rest
unfolding split_lines has_byte
split-append [] rest h = refl
split-append (c ∷ cs) rest h = elim (Bool-cases (c == newline)) [
  | inl brk ↦ cc (rw brk at h)
  | inr plain ↦ rw (plain, split-append cs rest (rw plain at h))
]

pub split-join :
    (ls : List Bytes) → ls ≢ [] → AllWithout newline ls → split_lines (join_lines ls) ≡ ls
unfolding join_lines
split-join [] ne h = absurd (ne refl)
split-join (l ∷ []) ne h = split-line l h.0
split-join (l ∷ k ∷ ls) ne h =
    split-append l (join_lines (k ∷ ls)) h.0 ∙ ap (◌∷◌ l) (split-join (k ∷ ls) (λ e. cc) h.1)

-- No line of a split text holds a line break.
pub split-AllWithout-newline : (s : Bytes) → AllWithout newline (split_lines s)
unfolding split_lines
split-AllWithout-newline [] = unfold has_byte in (refl, tt)
split-AllWithout-newline (c ∷ cs) = elim (Bool-cases (c == newline)) [
  | inl brk ↦ rw brk (unfold has_byte in refl, split-AllWithout-newline cs)
  | inr plain ↦ rw plain (cons_lem (split_lines cs) plain (split-AllWithout-newline cs))
]
  where
    cons_lem :
        (ls : List Bytes)
        → (c == newline) ≡ false
        → AllWithout newline ls
        → AllWithout newline (cons_first c ls)
    cons_lem [] p h = (unfold has_byte in rw p, tt)
    cons_lem (l ∷ ls) p h = (unfold has_byte in rw p h.0, h.1)

-- Nor a byte that the text does not hold.
pub split-AllWithout : (d : ℕ) (s : Bytes) → has_byte d s ≡ false → AllWithout d (split_lines s)
unfolding split_lines has_byte
split-AllWithout d [] h = (refl, tt)
split-AllWithout d (c ∷ cs) h = elim (Bool-cases (c == newline)) [
  | inl brk ↦ rw brk (refl, split-AllWithout d cs (ground arith))
  | inr plain ↦
      rw plain (cons_lem (split_lines cs) (ground arith) (split-AllWithout d cs (ground arith)))
]
  where
    cons_lem :
        (ls : List Bytes) → (c == d) ≡ false → AllWithout d ls → AllWithout d (cons_first c ls)
    cons_lem [] p h = (rw p, tt)
    cons_lem (l ∷ ls) p h = (rw p h.0, h.1)

has_byte-append_cons :
    (d c : ℕ) (l rest : Bytes)
    → (c == d) ≡ false
    → has_byte d l ≡ false
    → has_byte d rest ≡ false
    → has_byte d (l ++ (c ∷ rest)) ≡ false
unfolding has_byte
has_byte-append_cons d c [] rest n h k = rw n k
has_byte-append_cons d c (x ∷ xs) rest n h k = ground (arith, has_byte-append_cons d c xs rest n)

pub has_byte-join :
    (d : ℕ) (ls : List Bytes)
    → (newline == d) ≡ false
    → AllWithout d ls
    → has_byte d (join_lines ls) ≡ false
unfolding join_lines
has_byte-join d [] n h = unfold has_byte in refl
has_byte-join d (l ∷ []) n h = h.0
has_byte-join d (l ∷ k ∷ ls) n h =
    has_byte-append_cons d newline l (join_lines (k ∷ ls)) n h.0 (has_byte-join d (k ∷ ls) n h.1)
