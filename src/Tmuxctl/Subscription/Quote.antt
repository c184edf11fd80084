-- ===== src/Tmuxctl/Subscription/Quote.antt =====
-- A quoted string is one shell word that stands for the string.
use tmux_pane_control.Prelude.{
  ℕ, ◌≡◌, refl, [], ◌∷◌, ◌++◌, Option, none, some, Bytes, ◌==◌, if◌then◌else◌, arith, Bool-cases,
  inl, inr,
}
use tmux_pane_control.Tmuxctl.Subscription.{quote_bytes, shell_quote}

pub data State : Type 0 where
  outside inside escaped : State

abbrev pub cons_read : ℕ → Option Bytes → Option Bytes
cons_read c none = none
cons_read c (some s) = some (c ∷ s)

-- The POSIX reading of a word that is made of single-quoted strings and backslash escapes only.
unfoldable pub read_word : State → Bytes → Option Bytes
read_word outside [] = some []
read_word outside (c ∷ cs) =
    if c == b'\'' then read_word inside cs else if c == b'\\' then read_word escaped cs else none
read_word inside [] = none
read_word inside (c ∷ cs) =
    let rest = cons_read c (read_word inside cs) in
    if c == b'\'' then read_word outside cs else rest
read_word escaped [] = none
read_word escaped (c ∷ cs) = cons_read c (read_word outside cs)

read_word-quote_bytes : (s : Bytes) → read_word inside (quote_bytes s ++ (b'\'' ∷ [])) ≡ some s
unfolding read_word quote_bytes
read_word-quote_bytes [] = refl
read_word-quote_bytes (c ∷ cs) = elim (Bool-cases (c == b'\'')) [
  | inl quote ↦ rw (quote, read_word-quote_bytes cs) (ground arith)
  | inr plain ↦ rw (plain, read_word) (rw (plain, read_word-quote_bytes cs))
]

-- A shell reads the quoted string as one word, the string itself.
pub read_word-shell_quote : (s : Bytes) → read_word outside (shell_quote s) ≡ some s
unfolding read_word shell_quote
read_word-shell_quote s = read_word-quote_bytes s
