-- ===== src/Cli/Flags/Pieces.antt =====
-- A command line as its writer means it: flags and positionals in any order.
use tmux_pane_control.Prelude.{
  ◌≡◌, ◌≢◌, Bool, true, false, List, [], ◌∷◌, ◌++◌, some, Bytes, codes, ok,
}
use tmux_pane_control.Textnorm.{has_byte}
use tmux_pane_control.Cli.Flags.{
  Kind, bool_kind, Value, bool_value, Strconv, FlagSet, no_flag, shape, set_value,
}

-- `--name`, `--name value`, `--name=value` and `text`; the values as the flags keep them stand with them.
pub data Piece : Type 0 where
  switch : Bytes → Piece
  valued : Bytes → Bytes → Value → Piece
  assigned : Bytes → Bytes → Value → Piece
  positional : Bytes → Piece

unfoldable pub arguments_of : List Piece → List Bytes
arguments_of [] = []
arguments_of (switch name ∷ ps) = (codes "--" ++ name) ∷ arguments_of ps
arguments_of (valued name s v ∷ ps) = (codes "--" ++ name) ∷ s ∷ arguments_of ps
arguments_of (assigned name s v ∷ ps) = (codes "--" ++ (name ++ (b'=' ∷ s))) ∷ arguments_of ps
arguments_of (positional t ∷ ps) = t ∷ arguments_of ps

unfoldable pub settings_of : List Piece → List (Bytes × Value)
settings_of [] = []
settings_of (switch name ∷ ps) = (name, bool_value true) ∷ settings_of ps
settings_of (valued name s v ∷ ps) = (name, v) ∷ settings_of ps
settings_of (assigned name s v ∷ ps) = (name, v) ∷ settings_of ps
settings_of (positional t ∷ ps) = settings_of ps

unfoldable pub positionals_of : List Piece → List Bytes
positionals_of [] = []
positionals_of (switch name ∷ ps) = positionals_of ps
positionals_of (valued name s v ∷ ps) = positionals_of ps
positionals_of (assigned name s v ∷ ps) = positionals_of ps
positionals_of (positional t ∷ ps) = t ∷ positionals_of ps

-- A name that the flag package can read behind two dashes.
abbrev pub IsName : Bytes → Type 0
IsName [] = ⊥
IsName (c ∷ cs) = (c ≢ b'-') × (has_byte b'=' (c ∷ cs) ≡ false)

-- A flag is in the set, of a kind that `is_bool`, the map handed to `reorderArgs`, agrees with; its value
-- can be read; a positional does not look like a flag.
abbrev pub Fits : Strconv → FlagSet → (Bytes → Bool) → Piece → Type 0
Fits strconv flags is_bool (switch name) =
    IsName name × (flags name ≡ some bool_kind) × (is_bool name ≡ true)
Fits strconv flags is_bool (valued name s v) =
    (k : Kind) × IsName name
    × (flags name ≡ some k)
    × (k ≢ bool_kind)
    × (is_bool name ≡ false)
    × (set_value strconv k name s ≡ ok v)
Fits strconv flags is_bool (assigned name s v) =
    (k : Kind) × IsName name × (flags name ≡ some k) × (set_value strconv k name s ≡ ok v)
Fits strconv flags is_bool (positional t) = shape t ≡ no_flag

abbrev pub AllFit : Strconv → FlagSet → (Bytes → Bool) → List Piece → Type 0
AllFit strconv flags is_bool [] = Unit
AllFit strconv flags is_bool (p ∷ ps) =
    Fits strconv flags is_bool p × AllFit strconv flags is_bool ps
