-- ===== src/Tests/Sample.antt =====
-- A codec that has the documented behaviour of `encoding/json` on token payloads, for the runs.
use tmux_pane_control.Prelude.{
  ℕ, zero, suc, ◌+◌, ◌*◌, ◌/◌, ◌%◌, ◌<◌, ◌≡◌, refl, sym, ap, ◌∙◌, ◌&&◌, [], ◌∷◌, ◌++◌, Option, none,
  some, Bytes, ltb, ◌==◌, codes, if◌then◌else◌, arith,
}
use tmux_pane_control.Prelude.Int64.{two64}
use tmux_pane_control.Token.Base64.{Below}
use tmux_pane_control.Token.{TokenPayload, IsPlain, Json}

-- Text up to the byte 255, and eight digits to the base 256.
unfoldable put_digits : ℕ → ℕ → Bytes → Bytes
put_digits zero n rest = rest
put_digits (suc k) n rest = n % 256 ∷ put_digits k (n / 256) rest

unfoldable get_digits : ℕ → Bytes → ℕ
get_digits zero s = 0
get_digits (suc k) [] = 0
get_digits (suc k) (x ∷ s) = x + 256 * get_digits k s

unfoldable skip : ℕ → Bytes → Bytes
skip zero s = s
skip (suc k) [] = []
skip (suc k) (x ∷ s) = skip k s

unfoldable text_of : Bytes → Bytes
text_of [] = []
text_of (x ∷ s) = if x == 255 then [] else x ∷ text_of s

unfoldable behind : Bytes → Bytes
behind [] = []
behind (x ∷ s) = if x == 255 then s else behind s

unfoldable pub put : TokenPayload → Bytes
unfolding put_digits
put tp = tp.i ++ (255 ∷ (tp.p ++ (255 ∷ put_digits 8 tp.o (put_digits 8 tp.t []))))

unfoldable pub get : Bytes → Option TokenPayload
unfolding get_digits skip text_of behind
get s =
    let q = behind (behind s) in
    let o = get_digits 8 q in
    let t = get_digits 8 (skip 8 q) in
    if ltb o two64 && ltb t two64
    then some (record { i = text_of s; p = text_of (behind s); o = o; t = t })
    else none

text_of-append : (s r : Bytes) → Below 128 s → text_of (s ++ (255 ∷ r)) ≡ s
unfolding text_of
text_of-append [] r h = refl
text_of-append (x ∷ s) r h = ground (arith, text_of-append s r)

behind-append : (s r : Bytes) → Below 128 s → behind (s ++ (255 ∷ r)) ≡ r
unfolding behind
behind-append [] r h = refl
behind-append (x ∷ s) r h = ground (arith, behind-append s r)

abbrev Fits : ℕ → ℕ → Type 0
Fits zero n = n ≡ 0
Fits (suc k) n = Fits k (n / 256)

get_digits-put_digits : (k n : ℕ) (r : Bytes) → Fits k n → get_digits k (put_digits k n r) ≡ n
unfolding get_digits put_digits
get_digits-put_digits zero n r h = sym h
get_digits-put_digits (suc k) n r h =
    ap (λ m. n % 256 + 256 * m) (get_digits-put_digits k (n / 256) r h) ∙ omega arith

skip-put_digits : (k n : ℕ) (r : Bytes) → skip k (put_digits k n r) ≡ r
unfolding skip put_digits
skip-put_digits zero n r = refl
skip-put_digits (suc k) n r = skip-put_digits k (n / 256) r

Fits-eight : (n : ℕ) → n < two64 → Fits 8 n
Fits-eight n h = omega arith

Below-put_digits : (k n : ℕ) (r : Bytes) → Below 256 r → Below 256 (put_digits k n r)
unfolding put_digits
Below-put_digits zero n r h = h
Below-put_digits (suc k) n r h = (omega arith, Below-put_digits k (n / 256) r h)

Below-text : (s r : Bytes) → Below 128 s → Below 256 r → Below 256 (s ++ (255 ∷ r))
Below-text [] r h k = (omega arith, k)
Below-text (x ∷ s) r h k = (omega arith, Below-text s r h.1 k)

pub get-put : (tp : TokenPayload) → IsPlain tp → get (put tp) ≡ some tp
unfolding get put
get-put tp plain =
    let times = put_digits 8 tp.t [] in
    let tail = put_digits 8 tp.o times in
    let after : behind (put tp) ≡ tp.p ++ (255 ∷ tail) =
      behind-append tp.i _ plain.instance_plain in
    let rest : behind (behind (put tp)) ≡ tail =
      ap behind after ∙ behind-append tp.p _ plain.pane_plain in
    let o : get_digits 8 (behind (behind (put tp))) ≡ tp.o =
      ap (get_digits 8) rest
      ∙ get_digits-put_digits 8 tp.o times (Fits-eight tp.o plain.offset_int64) in
    let t : get_digits 8 (skip 8 (behind (behind (put tp)))) ≡ tp.t =
      ap (λ q. get_digits 8 (skip 8 q)) rest
      ∙ ap (get_digits 8) (skip-put_digits 8 tp.o times)
      ∙ get_digits-put_digits 8 tp.t [] (Fits-eight tp.t plain.time_int64) in
    let p : text_of (behind (put tp)) ≡ tp.p =
      ap text_of after ∙ text_of-append tp.p _ plain.pane_plain in
    rw (o, t, p, text_of-append tp.i _ plain.instance_plain)
      (ground (arith, plain.offset_int64, plain.time_int64))

pub get_int64 : (s : Bytes) {tp : TokenPayload} → get s ≡ some tp → (tp.o < two64) × (tp.t < two64)
unfolding get
get_int64 s e = ground arith

pub put-Below : (tp : TokenPayload) → IsPlain tp → Below 256 (put tp)
unfolding put
put-Below tp plain = Below-text tp.i _ plain.instance_plain (
    Below-text tp.p _ plain.pane_plain
      (Below-put_digits 8 tp.o (put_digits 8 tp.t []) (Below-put_digits 8 tp.t [] tt)))

abbrev pub codec : Json
codec = record {
  marshal = put;
  unmarshal = get;
  marshal_bytes = put-Below;
  unmarshal-marshal = get-put;
  unmarshal_int64 = get_int64;
}

abbrev pub instance_name : Bytes
instance_name = codes "ab"

abbrev pub pane : Bytes
pane = codes "%1"

pub instance_plain : Below 128 instance_name
instance_plain = (omega arith, (omega arith, tt))

pub pane_plain : Below 128 pane
pane_plain = (omega arith, (omega arith, tt))
