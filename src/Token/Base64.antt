-- ===== src/Token/Base64.antt =====
-- `base64.RawURLEncoding`: three bytes as four characters of a URL-safe alphabet, no padding.
use tmux_pane_control.Prelude.{
  ℕ, ◌+◌, ◌-◌, ◌*◌, ◌/◌, ◌%◌, ◌<◌, ◌≡◌, refl, false, ◌&&◌, ◌||◌, [], ◌∷◌, Option, none, some, Bytes,
  ltb, leb, ◌==◌, if◌then◌else◌, arith,
}

-- Byte values, and values of a character.
abbrev pub Below : ℕ → Bytes → Type 0
Below n [] = Unit
Below n (x ∷ xs) = (x < n) × Below n xs

symbol : ℕ → ℕ
symbol v =
    if ltb v 26
    then v + b'A'
    else if ltb v 52
    then v - 26 + b'a'
    else if ltb v 62
    then v - 52 + b'0'
    else if v == 62
    then b'-'
    else b'_'

value : ℕ → Option ℕ
value c =
    if leb b'A' c && leb c b'Z'
    then some (c - b'A')
    else if leb b'a' c && leb c b'z'
    then some (c - b'a' + 26)
    else if leb b'0' c && leb c b'9'
    then some (c - b'0' + 52)
    else if c == b'-'
    then some 62
    else if c == b'_'
    then some 63
    else none

value-symbol : (v : ℕ) → v < 64 → value (symbol v) ≡ some v
unfolding value symbol
value-symbol v h = ground arith

symbol_no_break : (v : ℕ) → v < 64 → (symbol v == b'\n' || symbol v == b'\r') ≡ false
unfolding symbol
symbol_no_break v h = ground arith

-- The six-bit groups of a byte slice.
sextets : Bytes → Bytes
sextets [] = []
sextets (a ∷ []) = a / 4 ∷ a % 4 * 16 ∷ []
sextets (a ∷ b ∷ []) = a / 4 ∷ (a % 4 * 16 + b / 16) ∷ b % 16 * 4 ∷ []
sextets (a ∷ b ∷ c ∷ r) = a / 4 ∷ (a % 4 * 16 + b / 16) ∷ (b % 16 * 4 + c / 64) ∷ c % 64 ∷ sextets r

-- The bytes of six-bit groups; spare low bits of the last group are dropped, and a single group
-- left over is an error.
octets : Bytes → Option Bytes
octets [] = some []
octets (x ∷ []) = none
octets (x ∷ y ∷ []) = some ((x * 4 + y / 16) ∷ [])
octets (x ∷ y ∷ z ∷ []) = some ((x * 4 + y / 16) ∷ (y % 16 * 16 + z / 4) ∷ [])
octets (x ∷ y ∷ z ∷ w ∷ r) = elim (octets r) [
  | none ↦ none
  | some t ↦ some ((x * 4 + y / 16) ∷ (y % 16 * 16 + z / 4) ∷ (z % 4 * 64 + w) ∷ t)
]

symbols : Bytes → Bytes
symbols [] = []
symbols (v ∷ vs) = symbol v ∷ symbols vs

-- The decoder skips line breaks and refuses any other character.
values : Bytes → Option Bytes
values [] = some []
values (c ∷ cs) =
    let rest = values cs in
    if c == b'\n' || c == b'\r' then rest else elim (value c) [
      | none ↦ none
      | some v ↦ elim rest [ none ↦ none | some vs ↦ some (v ∷ vs) ]
    ]

unfoldable pub encode_to_string : Bytes → Bytes
unfolding symbols symbol sextets
encode_to_string b = symbols (sextets b)

unfoldable pub decode_string : Bytes → Option Bytes
unfolding values value octets
decode_string s = elim (values s) [ none ↦ none | some vs ↦ octets vs ]

values-symbols : (vs : Bytes) → Below 64 vs → values (symbols vs) ≡ some vs
unfolding values symbols
values-symbols [] h = refl
values-symbols (v ∷ vs) h =
    ground (arith, value-symbol v h.0, symbol_no_break v h.0, values-symbols vs h.1)

sextets-Below : (b : Bytes) → Below 256 b → Below 64 (sextets b)
unfolding sextets
sextets-Below [] h = tt
sextets-Below (a ∷ []) h = omega arith
sextets-Below (a ∷ b ∷ []) h = omega arith
sextets-Below (a ∷ b ∷ c ∷ r) h =
    (omega arith, (omega arith, (omega arith, (omega arith, sextets-Below r h.1.1.1))))

octets-sextets : (b : Bytes) → Below 256 b → octets (sextets b) ≡ some b
unfolding octets sextets
octets-sextets [] h = refl
octets-sextets (a ∷ []) h = ground arith
octets-sextets (a ∷ b ∷ []) h = ground arith
octets-sextets (a ∷ b ∷ c ∷ r) h = ground (arith, octets-sextets r h.1.1.1)

-- Decoding gives back every slice of bytes that was encoded.
pub decode-encode : (b : Bytes) → Below 256 b → decode_string (encode_to_string b) ≡ some b
unfolding encode_to_string decode_string
decode-encode b h =
    rw (values-symbols (sextets b) (sextets-Below b h), decode_string) (octets-sextets b h)
