-- ===== src/Waiter/Scan.antt =====
-- `MatchSentinel` against a scan that tries every position in turn.
use tmux_pane_control.Prelude.{
  ℕ, zero, suc, ◌+◌, ◌-◌, ◌<◌, ◌≡◌, refl, sym, ap, ◌∙◌, true, false, [], ◌∷◌, ◌++◌, Option, none,
  some, Bytes, is_empty, has_prefix, has_prefix-split, length, take, drop, ltb, if◌then◌else◌,
  arith, Bool-cases, inl, inr, length-append, length-drop, ap₂, append_assoc, Option-cases,
  drop_all, drop-drop, drop-length, take-length,
}
use tmux_pane_control.Waiter.{
  SentinelMatch, index, next_index, is_digit, take_digits, atoi, match_from, sentinel_marker,
  match_sentinel,
}

-- The match that begins with the text, which stands at position `pos`.
abbrev pub candidate : Bytes → ℕ → Bytes → Option SentinelMatch
candidate marker pos s =
    let digits = take_digits (drop (length marker) s) in
    if has_prefix s marker
    then (if is_empty digits then none else (elim (atoi digits) [
      | none ↦ none
      | some code ↦ some (record {
        matched = marker ++ digits;
        exit_code = code;
        end = pos + length marker + length digits;
      })
    ]))
    else none

abbrev pub or_else {ℓ} : {A : Type ℓ} → Option A → Option A → Option A
or_else none o = o
or_else (some a) o = some a

pub take_digits-split : (s : Bytes) → (u : Bytes) × (s ≡ take_digits s ++ u)
unfolding take_digits
take_digits-split [] = ([], refl)
take_digits-split (c ∷ cs) = elim (Bool-cases (is_digit c)) [
  | inl digit ↦ let (u, e) = take_digits-split cs in (u, rw digit (ap (◌∷◌ c) e))
  | inr stop ↦ (c ∷ cs, rw stop)
]

-- The first candidate.
unfoldable pub scan : Bytes → ℕ → Bytes → Option SentinelMatch
scan marker pos [] = candidate marker pos []
scan marker pos (c ∷ cs) = or_else (candidate marker pos (c ∷ cs)) (scan marker (suc pos) cs)

module _ (marker : Bytes) (nonempty : is_empty marker ≡ false) where
  no_candidate : (pos : ℕ) (s : Bytes) → has_prefix s marker ≡ false → candidate marker pos s ≡ none
  no_candidate pos s h = rw h

  no_prefix : has_prefix [] marker ≡ false
  no_prefix = go marker nonempty
    where
      go : (m : Bytes) → is_empty m ≡ false → has_prefix [] m ≡ false
      go [] h = cc
      go (c ∷ cs) h = unfold has_prefix in refl

  next_index-none : (o : Option ℕ) → next_index o ≡ none → o ≡ none
  next_index-none none h = refl
  next_index-none (some i) h = cc

  next_index-some :
      (o : Option ℕ) {i : ℕ} → next_index o ≡ some i → (j : ℕ) × (o ≡ some j) × (i ≡ suc j)
  next_index-some none h = cc
  next_index-some (some j) h = (j, refl, ground arith)

  -- Without an occurrence of the marker there is no candidate.
  index-none : (s : Bytes) (pos : ℕ) → index s marker ≡ none → scan marker pos s ≡ none
  unfolding index scan
  index-none [] pos h = no_candidate pos [] no_prefix
  index-none (c ∷ cs) pos h = elim (Bool-cases (has_prefix (c ∷ cs) marker)) [
    | inl here ↦ cc (rw here at h)
    | inr later ↦
        rw later (index-none cs (suc pos) (next_index-none (index cs marker) (rw later at h)))
  ]

  scan_skip :
      (pos c : ℕ) (cs : Bytes)
      → has_prefix (c ∷ cs) marker ≡ false
      → scan marker pos (c ∷ cs) ≡ scan marker (suc pos) cs
  unfolding scan
  scan_skip pos c cs h = rw (no_candidate pos (c ∷ cs) h)

  record Occurs (s : Bytes) (pos i : ℕ) : Type 0 where
    found : has_prefix (drop i s) marker ≡ true
    inside : i < length s
    skips : scan marker pos s ≡ scan marker (pos + i) (drop i s)

  -- Up to the first occurrence there is none either.
  index-some : (s : Bytes) (pos : ℕ) {i : ℕ} → index s marker ≡ some i → Occurs s pos i
  unfolding index
  index-some [] pos h = cc (rw nonempty at h)
  index-some (c ∷ cs) pos {i} h = elim (Bool-cases (has_prefix (c ∷ cs) marker)) [
    | inl here ↦
        let e : i ≡ 0 = ground (arith, rw here at h) in
        rw e (record {
          found = here;
          inside = omega arith;
          skips = ap (λ p. scan marker p (c ∷ cs)) (omega arith);
        })
    | inr later ↦
        let (j, f, e) = next_index-some (index cs marker) (rw later at h) in
        let o = index-some cs (suc pos) f in
        rw e (record {
          found = o.found;
          inside = omega (arith, o.inside);
          skips =
              scan_skip pos c cs later
              ∙ o.skips
              ∙ ap (λ p. scan marker p (drop j cs)) (omega arith);
        })
  ]

  -- Where the marker stands, the code's test and slices are the candidate.
  abbrev attempt : Bytes → ℕ → Option SentinelMatch → Option SentinelMatch
  attempt buf idx rest =
      let start = idx + length marker in
      let digits = take_digits (drop start buf) in
      let end = start + length digits in
      let hit : Option SentinelMatch = elim (atoi digits) [
        | some code ↦
            some (record { matched = take (end - idx) (drop idx buf); exit_code = code; end = end })
        | none ↦ rest
      ] in
      if ltb start end then hit else rest

  -- The slice that the code cuts out of the buffer.
  matched_slice :
      (t : Bytes) (idx : ℕ)
      → has_prefix t marker ≡ true
      → let ds = take_digits (drop (length marker) t) in
        take (idx + length marker + length ds - idx) t ≡ marker ++ ds
  matched_slice t idx h =
      let (rest, e) = has_prefix-split t marker h in
      let f : drop (length marker) t ≡ rest =
        ap (drop (length marker)) e ∙ drop-length marker rest in
      let ds = take_digits rest in
      let (tail, g) = take_digits-split rest in
      let whole : t ≡ (marker ++ ds) ++ tail =
        e ∙ ap (λ r. marker ++ r) g ∙ sym (append_assoc marker ds tail) in
      rw f (
        ap (λ r. take (idx + length marker + length ds - idx) r) whole
        ∙ ap (λ n. take n ((marker ++ ds) ++ tail)) (omega (arith, length-append marker ds))
        ∙ take-length (marker ++ ds) tail)

  attempt-candidate :
      (buf : Bytes) (idx : ℕ) (rest : Option SentinelMatch)
      → has_prefix (drop idx buf) marker ≡ true
      → attempt buf idx rest ≡ or_else (candidate marker idx (drop idx buf)) rest
  attempt-candidate buf idx rest h =
      let e = drop-drop (length marker) idx (idx + length marker) buf refl in
      let m = rw e at (matched_slice (drop idx buf) idx h) in rw (h, e) (ground (arith, m))

  scan-step :
      (pos : ℕ) (s : Bytes)
      → 0 < length s
      → scan marker pos s ≡ or_else (candidate marker pos s) (scan marker (suc pos) (drop 1 s))
  unfolding scan
  scan-step pos [] h = elim h [ ]
  scan-step pos (c ∷ cs) h = refl

  -- The loop from `offset` on is the scan from there on, if the fuel covers the rest of the buffer.
  match_from-scan :
      (fuel : ℕ) (buf : Bytes) (offset : ℕ)
      → length buf < fuel + offset
      → match_from fuel buf marker offset ≡ scan marker offset (drop offset buf)
  unfolding match_from
  match_from-scan zero buf offset h =
      rw (drop_all offset buf (omega arith)) (unfold scan in sym (no_candidate offset [] no_prefix))
  match_from-scan (suc fuel) buf offset h = elim (Option-cases (index (drop offset buf) marker)) [
    | inl e ↦ rw (e, match_from) (sym (index-none (drop offset buf) offset e))
    | inr (i, e) ↦
        let o = index-some (drop offset buf) offset e in
        let at_i = drop-drop i offset (i + offset) buf (omega arith) in
        let next = drop-drop 1 (i + offset) (i + offset + 1) buf refl in
        let ih = match_from-scan fuel buf (i + offset + 1) (omega arith) in
        rw (e, match_from)
          (ap (attempt buf (i + offset)) ih
            ∙ attempt-candidate buf (i + offset) _ (rw at_i at o.found)
            ∙ ap₂
                (λ p r.
                  or_else (candidate marker (i + offset) (drop (i + offset) buf)) (scan marker p r))
                (omega arith) (sym next)
            ∙ sym (
                scan-step (i + offset) (drop (i + offset) buf)
                  (omega (arith, o.inside, length-drop offset buf, length-drop (i + offset) buf)))
            ∙ ap₂ (scan marker) (omega arith) (sym at_i)
            ∙ sym o.skips)
  ]

-- `MatchSentinel` returns the first position in the buffer where the marker stands with digits behind it
-- that an int holds; its fuel is enough for every buffer.
pub match_sentinel-scan :
    (buf token : Bytes) → match_sentinel buf token ≡ scan (sentinel_marker token) 0 buf
unfolding match_sentinel
match_sentinel-scan buf token =
    match_from-scan (sentinel_marker token) refl (suc (length buf)) buf 0 (omega arith)
