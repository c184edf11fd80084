-- ===== src/Tmuxctl/Adapter/Arguments.antt =====
-- The arguments that `SendKeys` hands to tmux.
use tmux_pane_control.Prelude.{
  ◌≡◌, refl, sym, ap₂, Bool, true, false, not, ◌||◌, ◌==◌, List, [], ◌∷◌, Bytes, bytes_eq, codes,
  if◌then◌else◌, arith, Bool-cases, inl, inr, bytes_eq_iff,
}
use tmux_pane_control.Tmuxctl.Adapter.{escape_keys}

-- tmux's reading of an argument: a `;` at its end ends the command, unless a backslash precedes it, which
-- tmux then takes away.
unfoldable pub separates : Bytes → Bool
separates [] = false
separates (c ∷ []) = c == b';'
separates (c ∷ d ∷ cs) =
    let rest = separates (d ∷ cs) in if bytes_eq (c ∷ d ∷ cs) (codes "\\;") then false else rest

unfoldable pub unescaped : Bytes → Bytes
unescaped [] = []
unescaped (c ∷ cs) =
    let rest = unescaped cs in if bytes_eq (c ∷ cs) (codes "\\;") then codes ";" else c ∷ rest

unfoldable pub has_separator : List Bytes → Bool
has_separator [] = false
has_separator (a ∷ rest) = separates a || has_separator rest

unfoldable pub unescape : List Bytes → List Bytes
unescape [] = []
unescape (a ∷ rest) = unescaped a ∷ unescape rest

unfoldable pub ends_semicolon : Bytes → Bool
ends_semicolon [] = false
ends_semicolon (c ∷ []) = c == b';'
ends_semicolon (c ∷ d ∷ cs) = ends_semicolon (d ∷ cs)

-- Every key is `;` itself, or does not end in one.
abbrev pub AllPlain : List Bytes → Type 0
AllPlain [] = Unit
AllPlain (k ∷ ks) = (bytes_eq k (codes ";") || not (ends_semicolon k) ≡ true) × AllPlain ks

unescaped_plain : (k : Bytes) → ends_semicolon k ≡ false → (separates k ≡ false) × (unescaped k ≡ k)
unfolding separates unescaped ends_semicolon bytes_eq
unescaped_plain [] h = (refl, refl)
unescaped_plain (c ∷ []) h = (h, ground arith)
unescaped_plain (c ∷ d ∷ []) h =
    let (a, b) = unescaped_plain (d ∷ []) h in (ground arith, ground arith)
unescaped_plain (c ∷ d ∷ e ∷ cs) h =
    let (a, b) = unescaped_plain (d ∷ e ∷ cs) h in (ground arith, ground arith)

-- Keys that are `;` or do not end in a `;`: among the arguments for them none ends tmux's command, as tmux
-- reads its arguments, and tmux gets the keys back.
pub escape_keys-unescape :
    (keys : List Bytes)
    → AllPlain keys
    → (has_separator (escape_keys keys) ≡ false) × (unescape (escape_keys keys) ≡ keys)
unfolding has_separator unescape escape_keys bytes_eq separates unescaped
escape_keys-unescape [] h = (refl, refl)
escape_keys-unescape (k ∷ ks) (h, hs) =
    let (none_left, back) = escape_keys-unescape ks hs in
    elim (Bool-cases (bytes_eq k (codes ";"))) [
      | inl same ↦ rw same (none_left, ap₂ (◌∷◌) (sym ((bytes_eq_iff k (codes ";")).0 same)) back)
      | inr other ↦
          let (a, b) = unescaped_plain k (ground arith) in
          rw other (rw a none_left, ap₂ (◌∷◌) b back)
    ]
