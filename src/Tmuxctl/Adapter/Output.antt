-- ===== src/Tmuxctl/Adapter/Output.antt =====
-- The parsing of the pane list.
use tmux_pane_control.Prelude.{
  ◌≡◌, refl, sym, ap, ◌∙◌, true, false, List, [], ◌∷◌, ◌++◌, append_assoc, Bytes, is_empty, arith,
  Bool-cases, inl, inr,
}
use tmux_pane_control.Textnorm.{has_byte, join_lines}
use tmux_pane_control.Textnorm.Lines.{newline, AllWithout, split-join}
use tmux_pane_control.Tmuxctl.Adapter.{trim_newlines, parse_panes}

-- What tmux prints for `-F '#{pane_id}'`: a line per pane.
unfoldable pub print_panes : List Bytes → Bytes
print_panes [] = []
print_panes (p ∷ ps) = p ++ (b'\n' ∷ print_panes ps)

-- Ids that are not empty and hold no line break.
abbrev pub AllIds : List Bytes → Type 0
AllIds [] = Unit
AllIds (p ∷ ps) = (is_empty p ≡ false) × (has_byte newline p ≡ false) × AllIds ps

print-join :
    (p : Bytes) (ps : List Bytes) → print_panes (p ∷ ps) ≡ join_lines (p ∷ ps) ++ (b'\n' ∷ [])
unfolding print_panes join_lines
print-join p [] = refl
print-join p (q ∷ ps) = ap (λ s. p ++ (b'\n' ∷ s)) (print-join q ps) ∙ sym (append_assoc p _ _)

trim_newlines-end : (s : Bytes) → trim_newlines (s ++ (b'\n' ∷ [])) ≡ trim_newlines s
unfolding trim_newlines
trim_newlines-end [] = refl
trim_newlines-end (c ∷ cs) = rw (trim_newlines-end cs)

trim_newlines-line : (p : Bytes) → has_byte newline p ≡ false → trim_newlines p ≡ p
unfolding trim_newlines has_byte
trim_newlines-line [] h = refl
trim_newlines-line (c ∷ cs) h = ground (arith, trim_newlines-line cs)

trim_newlines-append :
    (a b : Bytes) → trim_newlines b ≡ b → is_empty b ≡ false → trim_newlines (a ++ b) ≡ a ++ b
unfolding trim_newlines
trim_newlines-append [] b h n = h
trim_newlines-append (c ∷ a) b h n =
    rw (trim_newlines-append a b h n)
      (elim (Bool-cases (is_empty (a ++ b))) [ inl e ↦ absurd (no_end a e) | inr f ↦ ground arith ])
  where
    no_end : (l : Bytes) → is_empty (l ++ b) ≡ true → ⊥
    no_end [] e = cc
    no_end (x ∷ xs) e = cc

join-nonempty :
    (p : Bytes) (ps : List Bytes) → AllIds (p ∷ ps) → is_empty (join_lines (p ∷ ps)) ≡ false
unfolding join_lines
join-nonempty p [] h = h.0
join-nonempty [] (q ∷ ps) h = refl
join-nonempty (c ∷ p) (q ∷ ps) h = refl

trim_newlines-join :
    (p : Bytes) (ps : List Bytes)
    → AllIds (p ∷ ps)
    → trim_newlines (join_lines (p ∷ ps)) ≡ join_lines (p ∷ ps)
unfolding join_lines
trim_newlines-join p [] h = trim_newlines-line p h.1
trim_newlines-join p (q ∷ ps) h =
    trim_newlines-append p (b'\n' ∷ join_lines (q ∷ ps))
      (trim_newlines-append (b'\n' ∷ []) (join_lines (q ∷ ps)) (trim_newlines-join q ps h.2)
        (join-nonempty q ps h.2))
      refl

AllIds-AllWithout : (ps : List Bytes) → AllIds ps → AllWithout newline ps
AllIds-AllWithout [] h = tt
AllIds-AllWithout (p ∷ ps) h = (h.1, AllIds-AllWithout ps h.2)

-- The list of panes that tmux prints, a line for each id, is read back as it was, the empty list too.
parse_panes-print_panes : (ids : List Bytes) → AllIds ids → parse_panes (print_panes ids) ≡ ids
unfolding parse_panes print_panes trim_newlines
parse_panes-print_panes [] h = refl
parse_panes-print_panes (p ∷ ps) h =
    let trimmed =
      ap trim_newlines (print-join p ps)
      ∙ trim_newlines-end (join_lines (p ∷ ps))
      ∙ trim_newlines-join p ps h in
    rw (trimmed, parse_panes)
      (rw (join-nonempty p ps h) (split-join (p ∷ ps) (λ e. cc) (AllIds-AllWithout (p ∷ ps) h)))
