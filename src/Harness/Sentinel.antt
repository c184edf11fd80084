-- ===== src/Harness/Sentinel.antt =====
-- conformance/harness/harness.go, `FormatSentinelCmd`: the command that appends a sentinel to the output
-- of another one. The shell that runs it is a parameter, with what is documented of `;`, of quotes, of
-- `$?` and of its printf.
use tmux_pane_control.Prelude.{
  ℕ, zero, suc, ◌+◌, ◌*◌, ◌-◌, ◌/◌, ◌%◌, ◌<◌, ◌≡◌, ◌≢◌, refl, sym, ap, ◌∙◌, true, false, [], ◌∷◌,
  ◌++◌, append_assoc, Option, none, some, Bytes, codes, length, drop, ltb, is_empty, arith, subst,
  Bool-cases, inl, inr,
}
use tmux_pane_control.Prelude.Decimal.{digits_of, itoa}
use tmux_pane_control.Textnorm.{has_byte}
use tmux_pane_control.Waiter.{
  SentinelMatch, is_digit, decimal_from, decimal, sentinel_marker, match_sentinel,
}
use tmux_pane_control.Waiter.Scan.{candidate, or_else, scan, match_sentinel-scan}
use tmux_pane_control.Waiter.Sentinel.{AllDigits, candidate-literal}

-- `FormatSentinelCmd`; the two bytes `\n` stay as they are in a Go raw string.
unfoldable pub format_sentinel_cmd : Bytes → Bytes → Bytes
format_sentinel_cmd cmd token =
    cmd ++ (codes "; printf '__DONE__:" ++ (token ++ (codes ":%d\\n" ++ codes "' $?")))

-- What the program relies on of the shell: `printf fmt n` writes plain bytes as they are, `%d` as the
-- number that stands for it, and `\n` as a line break; a list of two commands writes what the first one
-- does and then what the second one does, which finds the exit status of the first one in `$?`.
pub record Shell : Type 1 where
  pub IsCommand : Bytes → Type 0
  pub output : Bytes → Bytes
  pub status : Bytes → ℕ
  pub printf : Bytes → Bytes → Bytes
  pub status_byte : (cmd : Bytes) → status cmd < 256
  pub printf_plain :
      (c : ℕ) (fmt arg : Bytes) → c ≢ b'%' → c ≢ b'\\' → printf (c ∷ fmt) arg ≡ c ∷ printf fmt arg
  pub printf_number :
      (fmt : Bytes) (n : ℕ)
      → n < 256
      → printf (codes "%d" ++ fmt) (itoa n) ≡ itoa n ++ printf fmt []
  pub printf_break : (fmt arg : Bytes) → printf (codes "\\n" ++ fmt) arg ≡ b'\n' ∷ printf fmt arg
  pub printf_end : printf [] [] ≡ []
  pub output_printf :
      (cmd fmt : Bytes)
      → IsCommand cmd
      → has_byte b'\'' fmt ≡ false
      → output (cmd ++ (codes "; printf '" ++ (fmt ++ codes "' $?")))
        ≡ output cmd ++ printf fmt (itoa (status cmd))

-- A token that `printf` and the quotes leave as it is.
abbrev pub IsPlainToken : Bytes → Type 0
IsPlainToken [] = Unit
IsPlainToken (c ∷ cs) = (c ≢ b'%') × (c ≢ b'\\') × (c ≢ b'\'') × IsPlainToken cs

-- Decimal printing is read back.
decimal_from-append :
    (acc : ℕ) (ds : Bytes) (c : ℕ)
    → decimal_from acc (ds ++ (c ∷ [])) ≡ decimal_from acc ds * 10 + (c - b'0')
unfolding decimal_from
decimal_from-append acc [] c = refl
decimal_from-append acc (d ∷ ds) c = decimal_from-append (acc * 10 + (d - b'0')) ds c

AllDigits-append :
    (ds : Bytes) (c : ℕ) → AllDigits ds → is_digit c ≡ true → AllDigits (ds ++ (c ∷ []))
AllDigits-append [] c a h = (h, tt)
AllDigits-append (d ∷ ds) c a h = (a.0, AllDigits-append ds c a.1 h)

is_digit-small : (n : ℕ) → n < 10 → is_digit (b'0' + n) ≡ true
is_digit-small n h = ground arith

abbrev ten_to : ℕ → ℕ
ten_to zero = 1
ten_to (suc k) = 10 * ten_to k

digits_of-AllDigits : (fuel n : ℕ) → AllDigits (digits_of fuel n)
unfolding digits_of
digits_of-AllDigits zero n = tt
digits_of-AllDigits (suc fuel) n = elim (Bool-cases (ltb n 10)) [
  | inl small ↦ rw small (is_digit-small n (ground arith), tt)
  | inr large ↦ rw large (
      AllDigits-append (digits_of fuel (n / 10)) (b'0' + n % 10) (digits_of-AllDigits fuel (n / 10))
        (is_digit-small (n % 10) (omega arith)))
]

decimal-digits_of : (fuel n : ℕ) → n < ten_to fuel → decimal (digits_of fuel n) ≡ n
unfolding digits_of decimal_from
decimal-digits_of zero n h = omega arith
decimal-digits_of (suc fuel) n h = elim (Bool-cases (ltb n 10)) [
  | inl small ↦ rw small (omega arith)
  | inr large ↦
      let back = decimal-digits_of fuel (n / 10) (omega arith) in
      rw large (decimal_from-append 0 (digits_of fuel (n / 10)) (b'0' + n % 10) ∙ omega arith)
]

nonempty-append : (ds : Bytes) (c : ℕ) → is_empty (ds ++ (c ∷ [])) ≡ false
nonempty-append [] c = refl
nonempty-append (d ∷ ds) c = refl

nonempty-itoa : (n : ℕ) → is_empty (itoa n) ≡ false
unfolding itoa digits_of
nonempty-itoa n = elim (Bool-cases (ltb n 10)) [
  | inl small ↦ rw small refl
  | inr large ↦ rw large (nonempty-append (digits_of 19 (n / 10)) (b'0' + n % 10))
]

AllDigits-itoa : (n : ℕ) → AllDigits (itoa n)
unfolding itoa
AllDigits-itoa n = digits_of-AllDigits 20 n

decimal-itoa : (n : ℕ) → n < 256 → decimal (itoa n) ≡ n
unfolding itoa
decimal-itoa n h = decimal-digits_of 20 n (omega arith)

scan-here :
    (marker s : Bytes) (pos : ℕ) (m : SentinelMatch)
    → candidate marker pos s ≡ some m
    → scan marker pos s ≡ some m
unfolding scan
scan-here marker [] pos m e = e
scan-here marker (c ∷ cs) pos m e = rw (e, candidate)

or_else-none :
    (o p : Option SentinelMatch) {r : Option SentinelMatch} → o ≡ none → p ≡ r → or_else o p ≡ r
or_else-none none p h e = e
or_else-none (some a) p h e = cc h

-- No literal of the marker, with a number that an int holds, begins within the first bytes of a text.
abbrev pub NoneWithin : Bytes → ℕ → ℕ → Bytes → Type 0
NoneWithin marker pos n s = (i : ℕ) → i < n → candidate marker (pos + i) (drop i s) ≡ none

scan-first :
    (marker : Bytes) (pos : ℕ) (before s : Bytes) (m : SentinelMatch)
    → NoneWithin marker pos (length before) (before ++ s)
    → candidate marker (pos + length before) s ≡ some m
    → scan marker pos (before ++ s) ≡ some m
unfolding scan
scan-first marker pos [] s m nothing here =
    scan-here marker s pos m (ap (λ p. candidate marker p s) (pos_is 0) ∙ here)
  where
    pos_is : (k : ℕ) → pos ≡ pos + 0
    pos_is k = omega arith
scan-first marker pos (c ∷ cs) s m nothing here =
    or_else-none _ _
      (ap (λ p. candidate marker p (c ∷ (cs ++ s))) {x = pos} {y = pos + 0} (omega arith)
        ∙ nothing 0 (omega arith))
      (scan-first marker (suc pos) cs s m
        (λ i lt.
          ap (λ p. candidate marker p (drop i (cs ++ s))) {x = suc pos + i} {y = pos + suc i}
            (omega arith)
          ∙ nothing (suc i) (omega arith))
        (ap (λ p. candidate marker p s) {x = suc pos + length cs} {y = pos + suc (length cs)}
            (omega arith)
          ∙ here))

has_byte-token :
    (token : Bytes) → IsPlainToken token → has_byte b'\'' (token ++ codes ":%d\\n") ≡ false
unfolding has_byte
has_byte-token [] h = refl
has_byte-token (c ∷ cs) h = ground (arith, has_byte-token cs h.3)

module _ (shell : Shell) where
  printf-token :
      (token fmt arg : Bytes)
      → IsPlainToken token
      → shell.printf (token ++ fmt) arg ≡ token ++ shell.printf fmt arg
  printf-token [] fmt arg h = refl
  printf-token (c ∷ cs) fmt arg h =
      shell.printf_plain c (cs ++ fmt) arg h.0 h.1 ∙ ap (◌∷◌ c) (printf-token cs fmt arg h.3)

  printf-sentinel :
      (token : Bytes) (n : ℕ)
      → IsPlainToken token
      → n < 256
      → shell.printf (codes "__DONE__:" ++ (token ++ codes ":%d\\n")) (itoa n)
        ≡ codes "__DONE__:" ++ (token ++ (codes ":" ++ (itoa n ++ codes "\n")))
  printf-sentinel token n h small =
      printf-token (codes "__DONE__:") (token ++ codes ":%d\\n") (itoa n) (ground arith)
      ∙ ap (λ r. codes "__DONE__:" ++ r)
          (printf-token token (codes ":%d\\n") (itoa n) h
            ∙ ap (λ r. token ++ r)
                (printf-token (codes ":") (codes "%d\\n") (itoa n) (ground arith)
                  ∙ ap (λ r. codes ":" ++ r)
                      (shell.printf_number (codes "\\n") n small
                        ∙ ap (λ r. itoa n ++ r)
                            (shell.printf_break [] [] ∙ ap (◌∷◌ b'\n') shell.printf_end))))

  -- The output of the command with its sentinel.
  output-format_sentinel_cmd :
      (cmd token : Bytes)
      → shell.IsCommand cmd
      → IsPlainToken token
      → shell.output (format_sentinel_cmd cmd token)
        ≡ shell.output cmd ++ (sentinel_marker token ++ (itoa (shell.status cmd) ++ codes "\n"))
  unfolding format_sentinel_cmd has_byte
  output-format_sentinel_cmd cmd token command h =
      ap (λ r. shell.output (cmd ++ (codes "; printf '__DONE__:" ++ r)))
        (sym (append_assoc token (codes ":%d\\n") (codes "' $?")))
      ∙ shell.output_printf cmd (codes "__DONE__:" ++ (token ++ codes ":%d\\n")) command
          (has_byte-token token h)
      ∙ ap (λ r. shell.output cmd ++ r)
          (printf-sentinel token (shell.status cmd) h (shell.status_byte cmd)
            ∙ ap (λ r. codes "__DONE__:" ++ r)
                (sym (append_assoc token (codes ":") (itoa (shell.status cmd) ++ codes "\n"))))

  -- The output of a command with its sentinel, behind any text: where no literal of the token's marker with
  -- a number begins in that text or in the command's own output, the match is the sentinel, and its exit
  -- code is the exit status of the command. Conditions are that the shell takes the command as one, and
  -- that the token has no `%`, no backslash and no single quote.
  pub match_sentinel-format_sentinel_cmd :
      (before cmd token : Bytes)
      → shell.IsCommand cmd
      → IsPlainToken token
      → let text = before ++ shell.output (format_sentinel_cmd cmd token) in
        let own = length (before ++ shell.output cmd) in
        NoneWithin (sentinel_marker token) 0 own text
        → (m : SentinelMatch) × (match_sentinel text token ≡ some m)
          × (m.exit_code ≡ shell.status cmd)
          × (m.matched ≡ sentinel_marker token ++ itoa (shell.status cmd))
  match_sentinel-format_sentinel_cmd before cmd token command h nothing =
      let n = shell.status cmd in
      let marker = sentinel_marker token in
      let front = before ++ shell.output cmd in
      let literal = marker ++ (itoa n ++ codes "\n") in
      let text = before ++ shell.output (format_sentinel_cmd cmd token) in
      let e : text ≡ front ++ literal =
        ap (λ r. before ++ r) (output-format_sentinel_cmd cmd token command h)
        ∙ sym (append_assoc before (shell.output cmd) literal) in
      let back = decimal-itoa n (shell.status_byte cmd) in
      (
        record {
          matched = marker ++ itoa n;
          exit_code = decimal (itoa n);
          end = 0 + length front + length marker + length (itoa n);
        },
        match_sentinel-scan text token
            ∙ ap (scan marker 0) e
            ∙ scan-first marker 0 front literal _
                (subst (NoneWithin marker 0 (length front)) e nothing)
                (candidate-literal marker (itoa n) (codes "\n") (AllDigits-itoa n) (nonempty-itoa n)
                  refl (omega (arith, back)) (0 + length front)),
        back,
        refl,
      )
