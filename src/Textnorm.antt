-- ===== src/Textnorm.antt =====
-- internal/textnorm/normalize.go: ANSI stripping and the normalisation of text fields. A scan index
-- is the rest of the text from that index on.
pub mod Strip
pub mod Sequences
pub mod Lines
pub mod Normal
use tmux_pane_control.Prelude.{
  ℕ, zero, suc, ◌+◌, Bool, true, false, not, ◌&&◌, ◌||◌, List, [], ◌∷◌, ◌++◌, Bytes, bytes_eq,
  is_empty, length, leb, ◌==◌, if◌then◌else◌,
}

abbrev pub escape : ℕ
escape = 0x1b

-- `strings.IndexByte(s, c) >= 0`
unfoldable pub has_byte : ℕ → Bytes → Bool
has_byte c [] = false
has_byte c (x ∷ xs) = x == c || has_byte c xs

-- `for j < len(s) && s[j] >= lo && s[j] <= hi { j++ }`
unfoldable pub skip_range : ℕ → ℕ → Bytes → Bytes
skip_range lo hi [] = []
skip_range lo hi (c ∷ cs) =
    let rest = skip_range lo hi cs in if leb lo c && leb c hi then rest else c ∷ cs

-- `if j < len(s) && s[j] >= lo && s[j] <= hi { j++ }`
unfoldable pub skip_one : ℕ → ℕ → Bytes → Bytes
skip_one lo hi [] = []
skip_one lo hi (c ∷ cs) = if leb lo c && leb c hi then cs else c ∷ cs

abbrev pub starts_with_backslash : Bytes → Bool
starts_with_backslash [] = false
starts_with_backslash (c ∷ cs) = c == b'\\'

abbrev pub after_one : Bytes → Bytes
after_one [] = []
after_one (c ∷ cs) = cs

-- The loop of the OSC case: to behind BEL or ESC \.
unfoldable pub skip_osc : Bytes → Bytes
skip_osc [] = []
skip_osc (c ∷ cs) =
    let rest = skip_osc cs in
    if c == 0x07 then cs else if c == escape && starts_with_backslash cs then after_one cs else rest

-- The loop of the DCS, SOS, PM and APC case: to behind ESC \.
unfoldable pub skip_string : Bytes → Bytes
skip_string [] = []
skip_string (c ∷ cs) =
    let rest = skip_string cs in
    if c == escape && starts_with_backslash cs then after_one cs else rest

-- ESC [ : parameter bytes, intermediate bytes, and a final byte if there is one.
unfoldable pub skip_csi : Bytes → Bytes
skip_csi s = skip_one 0x40 0x7E (skip_range 0x20 0x2F (skip_range 0x30 0x3F s))

-- Any other escape sequence: intermediate bytes and a final byte.
unfoldable pub skip_other : Bytes → Bytes
skip_other s = skip_one 0x30 0x7E (skip_range 0x20 0x2F s)

-- What is left behind an escape sequence, from the byte after ESC on.
unfoldable pub skip_sequence : Bytes → Bytes
skip_sequence [] = []
skip_sequence (c ∷ cs) =
    if c == b'['
    then skip_csi cs
    else if c == b']'
    then skip_osc cs
    else if c == b'P' || c == b'X' || c == b'^' || c == b'_'
    then skip_string cs
    else skip_other (c ∷ cs)

-- The main loop, on fuel.
unfoldable pub strip_from : ℕ → Bytes → Bytes
strip_from zero s = []
strip_from (suc fuel) [] = []
strip_from (suc fuel) (c ∷ cs) =
    let rest = strip_from fuel (if c == escape then skip_sequence cs else cs) in
    if c == escape then rest else c ∷ rest

-- `stripANSI`: each round of the loop moves on by at least one byte.
unfoldable pub strip_ansi : Bytes → Bytes
strip_ansi s = if not (has_byte escape s) then s else strip_from (length s) s

-- `strings.ReplaceAll(s, "\r", "")`
unfoldable pub remove_byte : ℕ → Bytes → Bytes
remove_byte c [] = []
remove_byte c (x ∷ xs) = let rest = remove_byte c xs in if x == c then rest else x ∷ rest

-- `StripANSIAndCR`
unfoldable pub strip_ansi_and_cr : Bytes → Bytes
strip_ansi_and_cr s = let t = strip_ansi s in if has_byte b'\r' t then remove_byte b'\r' t else t

abbrev pub cons_first : ℕ → List Bytes → List Bytes
cons_first c [] = (c ∷ []) ∷ []
cons_first c (l ∷ ls) = (c ∷ l) ∷ ls

-- `strings.Split(s, "\n")`
unfoldable pub split_lines : Bytes → List Bytes
split_lines [] = [] ∷ []
split_lines (c ∷ cs) =
    let rest = split_lines cs in if c == b'\n' then [] ∷ rest else cons_first c rest

-- `strings.TrimRight(l, " \t")`
unfoldable pub trim_right : Bytes → Bytes
trim_right [] = []
trim_right (c ∷ cs) =
    let rest = trim_right cs in if (c == b' ' || c == b'\t') && is_empty rest then [] else c ∷ rest

unfoldable pub trim_lines : List Bytes → List Bytes
unfolding trim_right
trim_lines [] = []
trim_lines (l ∷ ls) = trim_right l ∷ trim_lines ls

-- `for len(lines) > 0 && lines[len(lines)-1] == "" { drop the last }`
unfoldable pub drop_blank_end : List Bytes → List Bytes
drop_blank_end [] = []
drop_blank_end (l ∷ ls) =
    let rest = drop_blank_end ls in if is_empty l && is_empty rest then [] else l ∷ rest

-- `strings.Join(lines, "\n")`
unfoldable pub join_lines : List Bytes → Bytes
join_lines [] = []
join_lines (l ∷ []) = l
join_lines (l ∷ k ∷ ls) = l ++ (b'\n' ∷ join_lines (k ∷ ls))

unfoldable pub normalize : Bytes → Bytes
normalize s = join_lines (drop_blank_end (trim_lines (split_lines (strip_ansi_and_cr s))))
