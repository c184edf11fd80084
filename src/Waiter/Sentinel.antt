-- ===== src/Waiter/Sentinel.antt =====
-- What a sentinel match is, and when there is one.
use tmux_pane_control.Prelude.{
  ℕ, zero, suc, ◌+◌, ◌<◌, ◌≡◌, refl, sym, ap, ◌∙◌, Bool, true, false, [], ◌∷◌, ◌++◌, Option, none,
  some, Bytes, is_empty, has_prefix, has_prefix-split, has_prefix-append, length, drop, arith,
  Bool-cases, Option-cases, inl, inr, drop-length,
}
use tmux_pane_control.Prelude.Int64.{two63}
use tmux_pane_control.Waiter.{
  SentinelMatch, is_digit, take_digits, decimal, atoi, sentinel_marker, match_sentinel,
}
use tmux_pane_control.Waiter.Scan.{candidate, or_else, scan, match_sentinel-scan}

abbrev pub AllDigits : Bytes → Type 0
AllDigits [] = Unit
AllDigits (c ∷ cs) = (is_digit c ≡ true) × AllDigits cs

abbrev pub starts_with_digit : Bytes → Bool
starts_with_digit [] = false
starts_with_digit (c ∷ cs) = is_digit c

-- The text holds the marker and a whole run of digits, whose number an int holds, at the first position
-- where that is so; the match is this literal, its number and its end.
pub record FoundIn (marker s : Bytes) (pos : ℕ) (m : SentinelMatch) : Type 0 where
  pub before : Bytes
  pub digits : Bytes
  pub after : Bytes
  pub splits : s ≡ before ++ (marker ++ (digits ++ after))
  pub only_digits : AllDigits digits
  pub some_digit : is_empty digits ≡ false
  pub whole_run : starts_with_digit after ≡ false
  pub matched_is : m.matched ≡ marker ++ digits
  pub code_is : m.exit_code ≡ decimal digits
  pub code_small : decimal digits < two63
  pub end_is : m.end ≡ pos + length before + length marker + length digits
  pub is_first : (i : ℕ) → i < length before → candidate marker (pos + i) (drop i s) ≡ none

record Leading (s : Bytes) : Type 0 where
  rest : Bytes
  splits : s ≡ take_digits s ++ rest
  only : AllDigits (take_digits s)
  stops : starts_with_digit rest ≡ false

take_digits-Leading : (s : Bytes) → Leading s
unfolding take_digits
take_digits-Leading [] = record { rest = []; splits = refl; only = tt; stops = refl }
take_digits-Leading (c ∷ cs) = elim (Bool-cases (is_digit c)) [
  | inl digit ↦
      let d = take_digits-Leading cs in
      record {
        rest = d.rest;
        splits = rw digit (ap (◌∷◌ c) d.splits);
        only = rw digit (digit, d.only);
        stops = d.stops;
      }
  | inr stop ↦ record { rest = c ∷ cs; splits = rw stop; only = rw stop tt; stops = stop }
]

-- What a candidate says of its text.
record Parts (marker s : Bytes) (pos : ℕ) (m : SentinelMatch) : Type 0 where
  prefix : has_prefix s marker ≡ true
  some_digit : is_empty (take_digits (drop (length marker) s)) ≡ false
  matched_is : m.matched ≡ marker ++ take_digits (drop (length marker) s)
  code_is : m.exit_code ≡ decimal (take_digits (drop (length marker) s))
  code_small : decimal (take_digits (drop (length marker) s)) < two63
  end_is : m.end ≡ pos + length marker + length (take_digits (drop (length marker) s))

candidate-Parts :
    (marker s : Bytes) (pos : ℕ) {m : SentinelMatch}
    → candidate marker pos s ≡ some m
    → Parts marker s pos m
unfolding atoi
candidate-Parts marker s pos h = ground arith

candidate-FoundIn :
    (marker s : Bytes) (pos : ℕ) {m : SentinelMatch}
    → candidate marker pos s ≡ some m
    → FoundIn marker s pos m
candidate-FoundIn marker s pos h =
    let p = candidate-Parts marker s pos h in
    let (t, e) = has_prefix-split s marker p.prefix in
    let f : drop (length marker) s ≡ t = ap (drop (length marker)) e ∙ drop-length marker t in
    let d = take_digits-Leading t in
    record {
      before = [];
      digits = take_digits t;
      after = d.rest;
      splits = e ∙ ap (λ r. marker ++ r) d.splits;
      only_digits = d.only;
      some_digit = rw f at p.some_digit;
      whole_run = d.stops;
      matched_is = rw f at p.matched_is;
      code_is = rw f at p.code_is;
      code_small = rw f at p.code_small;
      end_is = omega (arith, rw f at p.end_is);
      is_first = λ i lt. absurd (omega arith);
    }

or_else-none {ℓ} : {A : Type ℓ} (o p : Option A) → o ≡ none → or_else o p ≡ p
or_else-none none p h = refl
or_else-none (some a) p h = cc

scan-FoundIn :
    (marker s : Bytes) (pos : ℕ) {m : SentinelMatch}
    → scan marker pos s ≡ some m
    → FoundIn marker s pos m
unfolding scan
scan-FoundIn marker [] pos h = candidate-FoundIn marker [] pos h
scan-FoundIn marker (c ∷ cs) pos {m} h = elim (Option-cases (candidate marker pos (c ∷ cs))) [
  | inr (n, e) ↦
      candidate-FoundIn marker (c ∷ cs) pos
        (e ∙ sym (ap (λ o. or_else o (scan marker (suc pos) cs)) e) ∙ h)
  | inl e ↦
      let f = scan-FoundIn marker cs (suc pos) (sym (or_else-none _ _ e) ∙ h) in
      record {
        before = c ∷ f.before;
        digits = f.digits;
        after = f.after;
        splits = ap (◌∷◌ c) f.splits;
        only_digits = f.only_digits;
        some_digit = f.some_digit;
        whole_run = f.whole_run;
        matched_is = f.matched_is;
        code_is = f.code_is;
        code_small = f.code_small;
        end_is = omega (arith, f.end_is);
        is_first = λ i lt. first f.before i lt f.is_first e;
      }
]
  where
    first :
        (before : Bytes) (i : ℕ)
        → i < length (c ∷ before)
        → ((j : ℕ) → j < length before → candidate marker (suc pos + j) (drop j cs) ≡ none)
        → candidate marker pos (c ∷ cs) ≡ none
        → candidate marker (pos + i) (drop i (c ∷ cs)) ≡ none
    first before zero lt h e = ap (λ p. candidate marker p (c ∷ cs)) (omega arith) ∙ e
    first before (suc j) lt h e =
        ap (λ p. candidate marker p (drop j cs)) (omega arith) ∙ h j (omega arith)

-- A match is the marker of the token with a whole run of digits behind it, at the first position of the
-- buffer that has such a literal with a number that an int holds.
pub match_sentinel-FoundIn :
    (buf token : Bytes) (m : SentinelMatch)
    → match_sentinel buf token ≡ some m
    → FoundIn (sentinel_marker token) buf 0 m
match_sentinel-FoundIn buf token m h =
    scan-FoundIn (sentinel_marker token) buf 0 (sym (match_sentinel-scan buf token) ∙ h)

take_digits_run :
    (ds rest : Bytes)
    → AllDigits ds
    → starts_with_digit rest ≡ false
    → take_digits (ds ++ rest) ≡ ds
unfolding take_digits
take_digits_run [] [] h k = refl
take_digits_run [] (c ∷ cs) h k = rw k
take_digits_run (d ∷ ds) rest h k = rw h.0 (ap (◌∷◌ d) (take_digits_run ds rest h.1 k))

module _ (marker ds rest : Bytes) (digits : AllDigits ds) (nonempty : is_empty ds ≡ false)
    (stops : starts_with_digit rest ≡ false) (small : decimal ds < two63) where
  digits_behind : take_digits (drop (length marker) (marker ++ (ds ++ rest))) ≡ ds
  digits_behind =
      ap take_digits (drop-length marker (ds ++ rest)) ∙ take_digits_run ds rest digits stops

  atoi-small : atoi ds ≡ some (decimal ds)
  unfolding atoi
  atoi-small = ground arith

  pub candidate-literal :
      (pos : ℕ)
      → candidate marker pos (marker ++ (ds ++ rest))
        ≡ some (record {
          matched = marker ++ ds;
          exit_code = decimal ds;
          end = pos + length marker + length ds;
        })
  candidate-literal pos =
      rw (has_prefix-append marker (ds ++ rest)) (ground (arith, digits_behind, atoi-small))

  or_else-some :
      (o p : Option SentinelMatch)
      → (m : SentinelMatch) × (p ≡ some m)
      → (m : SentinelMatch) × (or_else o p ≡ some m)
  or_else-some none p h = h
  or_else-some (some a) p h = (a, refl)

  scan-nil-or :
      (pos : ℕ) (s : Bytes) {m : SentinelMatch}
      → candidate marker pos s ≡ some m
      → scan marker pos s ≡ some m
  unfolding scan
  scan-nil-or pos [] e = e
  scan-nil-or pos (c ∷ cs) e = rw (e, candidate)

  scan-literal :
      (before : Bytes) (pos : ℕ)
      → (m : SentinelMatch) × (scan marker pos (before ++ (marker ++ (ds ++ rest))) ≡ some m)
  unfolding scan
  scan-literal [] pos = (_, scan-nil-or pos _ (candidate-literal pos))
  scan-literal (c ∷ before) pos = or_else-some _ _ (scan-literal before (suc pos))

-- Wherever the marker stands with a whole run of digits behind it whose number an int holds, there is a
-- match.
pub match_sentinel_total :
    (before ds after token : Bytes)
    → AllDigits ds
    → is_empty ds ≡ false
    → starts_with_digit after ≡ false
    → decimal ds < two63
    → (m : SentinelMatch) × (match_sentinel
          (before ++ (sentinel_marker token ++ (ds ++ after)))
          token
        ≡ some m)
match_sentinel_total before ds after token digits nonempty stops small =
    let (m, e) =
      scan-literal (sentinel_marker token) ds after digits nonempty stops small before 0 in
    (m, match_sentinel-scan _ token ∙ e)
