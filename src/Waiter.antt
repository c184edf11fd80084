-- ===== src/Waiter.antt =====
-- internal/waiter: the match evaluators of `wait`, on text that is stripped already.
pub mod Scan
pub mod Sentinel
use tmux_pane_control.Prelude.{
  ℕ, zero, suc, ◌+◌, ◌-◌, ◌*◌, Bool, true, false, ◌&&◌, List, [], ◌∷◌, ◌++◌, Option, none, some,
  Bytes, codes, is_empty, has_prefix, length, take, drop, ltb, leb, if◌then◌else◌,
}
use tmux_pane_control.Prelude.Int64.{two63}

-- `SentinelMatch`
pub record SentinelMatch : Type 0 where
  pub matched : Bytes
  pub exit_code : ℕ
  pub end : ℕ

abbrev pub next_index : Option ℕ → Option ℕ
next_index none = none
next_index (some i) = some (suc i)

-- `bytes.Index(s, sep)`: the first position of `sep`.
unfoldable pub index : Bytes → Bytes → Option ℕ
index [] sep = if is_empty sep then some 0 else none
index (c ∷ cs) sep =
    let rest = index cs sep in if has_prefix (c ∷ cs) sep then some 0 else next_index rest

-- `buf[end] >= '0' && buf[end] <= '9'`
abbrev pub is_digit : ℕ → Bool
is_digit c = leb b'0' c && leb c b'9'

-- What the loop over `end` walks: the digits in front.
unfoldable pub take_digits : Bytes → Bytes
take_digits [] = []
take_digits (c ∷ cs) = let rest = take_digits cs in if is_digit c then c ∷ rest else []

unfoldable pub decimal_from : ℕ → Bytes → ℕ
decimal_from acc [] = acc
decimal_from acc (c ∷ cs) = decimal_from (acc * 10 + (c - b'0')) cs

-- The number that a string of digits stands for.
abbrev pub decimal : Bytes → ℕ
decimal = decimal_from 0

-- `strconv.Atoi` of a string of digits; `none` is the range error.
unfoldable pub atoi : Bytes → Option ℕ
atoi ds = if ltb (decimal ds) two63 then some (decimal ds) else none

-- The loop of `MatchSentinel`, on fuel.
unfoldable pub match_from : ℕ → Bytes → Bytes → ℕ → Option SentinelMatch
match_from zero buf marker offset = none
match_from (suc fuel) buf marker offset = elim (index (drop offset buf) marker) [
  | none ↦ none
  | some i ↦
      let idx = i + offset in
      let start = idx + length marker in
      let digits = take_digits (drop start buf) in
      let end = start + length digits in
      let rest = match_from fuel buf marker (idx + 1) in
      let hit : Option SentinelMatch = elim (atoi digits) [
        | some code ↦
            some (record { matched = take (end - idx) (drop idx buf); exit_code = code; end = end })
        | none ↦ rest
      ] in
      if ltb start end then hit else rest
]

-- The literal in front of the digits.
abbrev pub sentinel_marker : Bytes → Bytes
sentinel_marker token = codes "__DONE__:" ++ (token ++ codes ":")

-- Each round moves `offset` on, so the length of the buffer bounds their number.
unfoldable pub match_sentinel : Bytes → Bytes → Option SentinelMatch
match_sentinel buf token = match_from (suc (length buf)) buf (sentinel_marker token) 0

-- `RegexMatch`
pub record RegexMatch : Type 0 where
  pub matched : Bytes
  pub end : ℕ

-- `MatchRegex`; a compiled `*regexp.Regexp` is its `FindIndex`.
unfoldable pub match_regex : Bytes → (Bytes → Option (ℕ × ℕ)) → Option RegexMatch
match_regex buf find_index = elim (find_index buf) [
  | none ↦ none
  | some (from, to) ↦ some (record { matched = take (to - from) (drop from buf); end = to })
]
