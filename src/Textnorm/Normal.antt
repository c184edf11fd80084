-- ===== src/Textnorm/Normal.antt =====
-- The texts that `Normalize` returns, and that it returns such a text as it is.
use tmux_pane_control.Prelude.{
  ℕ, ◌≡◌, refl, sym, ap, ◌∙◌, Bool, false, ◌&&◌, ◌||◌, List, [], ◌∷◌, Bytes, is_empty, ◌==◌, arith,
  Bool-cases, inl, inr,
}
use tmux_pane_control.Textnorm.{
  escape, has_byte, split_lines, trim_right, trim_lines, drop_blank_end, join_lines,
  strip_ansi_and_cr, normalize, cons_first,
}
use tmux_pane_control.Textnorm.Strip.{strip_ansi_and_cr_clean, strip_ansi_and_cr_plain}
use tmux_pane_control.Textnorm.Lines.{
  newline, ends_blank, ends_newline, last_blank, AllTrimmed, AllWithout, join-split, split-join,
  split-AllWithout-newline, split-AllWithout, has_byte-join,
}

-- The four rules of the comment on `Normalize`, as properties of a text.
pub record IsNormal (t : Bytes) : Type 0 where
  pub no_escape : has_byte escape t ≡ false
  pub no_cr : has_byte b'\r' t ≡ false
  pub lines_trimmed : AllTrimmed (split_lines t)
  pub no_blank_end : ends_newline t ≡ false

trim_right_trimmed : (l : Bytes) → ends_blank (trim_right l) ≡ false
unfolding trim_right
trim_right_trimmed [] = unfold ends_blank in refl
trim_right_trimmed (c ∷ cs) = go (trim_right cs) refl (trim_right_trimmed cs)
  where
    go :
        (r : Bytes)
        → trim_right cs ≡ r
        → ends_blank r ≡ false
        → ends_blank (trim_right (c ∷ cs)) ≡ false
    go [] e h = rw (e, trim_right) (unfold ends_blank in ground arith)
    go (d ∷ ds) e h = rw (e, trim_right) (unfold ends_blank in ground arith)

trim_right_fixed : (l : Bytes) → ends_blank l ≡ false → trim_right l ≡ l
unfolding trim_right ends_blank
trim_right_fixed [] h = refl
trim_right_fixed (c ∷ []) h = ground arith
trim_right_fixed (c ∷ d ∷ cs) h = rw (trim_right_fixed (d ∷ cs) h, trim_right) (ground arith)

trim_lines_trimmed : (ls : List Bytes) → AllTrimmed (trim_lines ls)
unfolding trim_lines
trim_lines_trimmed [] = tt
trim_lines_trimmed (l ∷ ls) = (trim_right_trimmed l, trim_lines_trimmed ls)

trim_lines_fixed : (ls : List Bytes) → AllTrimmed ls → trim_lines ls ≡ ls
unfolding trim_lines
trim_lines_fixed [] h = refl
trim_lines_fixed (l ∷ ls) h = cc (trim_right_fixed l h.0, trim_lines_fixed ls h.1)

has_byte-trim_right : (d : ℕ) (l : Bytes) → has_byte d l ≡ false → has_byte d (trim_right l) ≡ false
unfolding has_byte trim_right
has_byte-trim_right d [] h = refl
has_byte-trim_right d (c ∷ cs) h = ground (arith, has_byte-trim_right d cs)

trim_lines-AllWithout : (d : ℕ) (ls : List Bytes) → AllWithout d ls → AllWithout d (trim_lines ls)
unfolding trim_lines
trim_lines-AllWithout d [] h = tt
trim_lines-AllWithout d (l ∷ ls) h = (has_byte-trim_right d l h.0, trim_lines-AllWithout d ls h.1)

-- Dropping blank lines at the end leaves a front part of the list, which ends otherwise.
drop_blank_end-last : (ls : List Bytes) → last_blank (drop_blank_end ls) ≡ false
unfolding drop_blank_end
drop_blank_end-last [] = unfold last_blank in refl
drop_blank_end-last (l ∷ ls) = go (drop_blank_end ls) refl (drop_blank_end-last ls)
  where
    go :
        (r : List Bytes)
        → drop_blank_end ls ≡ r
        → last_blank r ≡ false
        → last_blank (drop_blank_end (l ∷ ls)) ≡ false
    go [] e h = rw (e, drop_blank_end) (unfold last_blank in ground arith)
    go (k ∷ ks) e h = rw (e, drop_blank_end) (unfold last_blank in ground arith)

drop_blank_end_fixed : (ls : List Bytes) → last_blank ls ≡ false → drop_blank_end ls ≡ ls
unfolding drop_blank_end last_blank
drop_blank_end_fixed [] h = refl
drop_blank_end_fixed (l ∷ []) h = ground arith
drop_blank_end_fixed (l ∷ k ∷ ls) h =
    rw (drop_blank_end_fixed (k ∷ ls) h, drop_blank_end) (ground arith)

drop_blank_end-AllTrimmed : (ls : List Bytes) → AllTrimmed ls → AllTrimmed (drop_blank_end ls)
unfolding drop_blank_end
drop_blank_end-AllTrimmed [] h = tt
drop_blank_end-AllTrimmed (l ∷ ls) h =
    elim (Bool-cases (is_empty l && is_empty (drop_blank_end ls))) [
      | inl gone ↦ rw gone tt
      | inr kept ↦ rw kept (h.0, drop_blank_end-AllTrimmed ls h.1)
    ]

drop_blank_end-AllWithout :
    (d : ℕ) (ls : List Bytes) → AllWithout d ls → AllWithout d (drop_blank_end ls)
unfolding drop_blank_end
drop_blank_end-AllWithout d [] h = tt
drop_blank_end-AllWithout d (l ∷ ls) h =
    elim (Bool-cases (is_empty l && is_empty (drop_blank_end ls))) [
      | inl gone ↦ rw gone tt
      | inr kept ↦ rw kept (h.0, drop_blank_end-AllWithout d ls h.1)
    ]

last_blank-cons :
    (c d : ℕ) (cs : Bytes) (r : List Bytes)
    → join_lines r ≡ d ∷ cs
    → (last_blank ([] ∷ r) ≡ last_blank r) × (last_blank (cons_first c r) ≡ last_blank r)
unfolding last_blank join_lines
last_blank-cons c d cs [] e = cc
last_blank-cons c d cs ([] ∷ []) e = cc
last_blank-cons c d cs ((x ∷ xs) ∷ []) e = (refl, refl)
last_blank-cons c d cs (l ∷ k ∷ ls) e = (refl, refl)

-- A text's last line is empty if the text is, or ends with a line break.
last_blank-split : (t : Bytes) → last_blank (split_lines t) ≡ (is_empty t || ends_newline t)
unfolding split_lines ends_newline
last_blank-split [] = unfold last_blank in refl
last_blank-split (c ∷ []) = unfold last_blank in ground arith
last_blank-split (c ∷ d ∷ cs) =
    let (brk_lem, plain_lem) =
      last_blank-cons c d cs (split_lines (d ∷ cs)) (join-split (d ∷ cs)) in
    elim (Bool-cases (c == newline)) [
      | inl brk ↦ rw brk (brk_lem ∙ last_blank-split (d ∷ cs))
      | inr plain ↦ rw plain (plain_lem ∙ last_blank-split (d ∷ cs))
    ]

join-drop_blank_end-split :
    (t : Bytes) → ends_newline t ≡ false → join_lines (drop_blank_end (split_lines t)) ≡ t
join-drop_blank_end-split [] h = unfold split_lines drop_blank_end join_lines in refl
join-drop_blank_end-split (c ∷ cs) h =
    ap join_lines (drop_blank_end_fixed (split_lines (c ∷ cs)) (last_blank-split (c ∷ cs) ∙ h))
    ∙ join-split (c ∷ cs)

-- A normal text is returned as it is.
normalize_fixed : (t : Bytes) → IsNormal t → normalize t ≡ t
unfolding normalize
normalize_fixed t n =
    ap (λ u. join_lines (drop_blank_end (trim_lines (split_lines u))))
      (strip_ansi_and_cr_plain t n.no_escape n.no_cr)
    ∙ ap (λ u. join_lines (drop_blank_end u)) (trim_lines_fixed (split_lines t) n.lines_trimmed)
    ∙ join-drop_blank_end-split t n.no_blank_end

lines_of-IsNormal :
    (r : List Bytes)
    → AllTrimmed r
    → last_blank r ≡ false
    → AllWithout newline r
    → AllWithout escape r
    → AllWithout b'\r' r
    → IsNormal (join_lines r)
lines_of-IsNormal [] a b n e c = record {
  no_escape = unfold has_byte join_lines in refl;
  no_cr = unfold has_byte join_lines in refl;
  lines_trimmed = unfold split_lines join_lines ends_blank in (refl, tt);
  no_blank_end = unfold ends_newline join_lines in refl;
}
lines_of-IsNormal (l ∷ ls) a b n e c =
    let s = split-join (l ∷ ls) (λ f. cc) n in
    let j = last_blank-split (join_lines (l ∷ ls)) in
    record {
      no_escape = has_byte-join escape (l ∷ ls) refl e;
      no_cr = has_byte-join b'\r' (l ∷ ls) refl c;
      lines_trimmed = rw s a;
      no_blank_end = or_right (is_empty (join_lines (l ∷ ls))) _ (sym j ∙ ap last_blank s ∙ b);
    }
  where
    or_right : (p q : Bool) → (p || q) ≡ false → q ≡ false
    or_right p q h = ground arith

-- Whatever the input, the result has no ESC and no carriage return, no line of it ends with a space or
-- a tab, and no blank line ends it.
pub normalize-IsNormal : (s : Bytes) → IsNormal (normalize s)
unfolding normalize
normalize-IsNormal s =
    let u = strip_ansi_and_cr s in
    let (e, c) = strip_ansi_and_cr_clean s in
    lines_of-IsNormal (drop_blank_end (trim_lines (split_lines u)))
      (drop_blank_end-AllTrimmed _ (trim_lines_trimmed (split_lines u)))
      (drop_blank_end-last (trim_lines (split_lines u)))
      (drop_blank_end-AllWithout newline _
        (trim_lines-AllWithout newline _ (split-AllWithout-newline u)))
      (drop_blank_end-AllWithout escape _
        (trim_lines-AllWithout escape _ (split-AllWithout escape u e)))
      (drop_blank_end-AllWithout b'\r' _
        (trim_lines-AllWithout b'\r' _ (split-AllWithout b'\r' u c)))

-- Normalising is idempotent.
pub normalize_idem : (s : Bytes) → normalize (normalize s) ≡ normalize s
normalize_idem s = normalize_fixed (normalize s) (normalize-IsNormal s)
