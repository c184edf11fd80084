-- ===== src/Textnorm/Sequences.antt =====
-- The escape sequences of the comment above `stripANSI`, as a grammar: texts are written from pieces,
-- and stripping recovers the plain ones.
use tmux_pane_control.Prelude.{
  ℕ, ◌≤◌, ◌≡◌, ◌≢◌, refl, sym, ap, ◌∙◌, ◌⊎◌, Bool, true, false, ◌&&◌, ◌||◌, List, [], ◌∷◌, ◌++◌,
  Bytes, leb, ◌==◌, arith,
}
use tmux_pane_control.Textnorm.{
  escape, skip_range, skip_one, skip_osc, skip_string, skip_csi, skip_other, skip_sequence,
  strip_from, strip_ansi,
}
use tmux_pane_control.Textnorm.Strip.{
  strip_loop, strip_loop-plain, strip_loop-escape, strip_ansi-strip_loop,
}

pub data Piece : Type 0 where
  plain : ℕ → Piece
  csi : Bytes → Bytes → ℕ → Piece
  osc_bel : Bytes → Piece
  osc_st : Bytes → Piece
  control_string : ℕ → Bytes → Piece
  other : Bytes → ℕ → Piece

abbrev pub AllIn : ℕ → ℕ → Bytes → Type 0
AllIn lo hi [] = Unit
AllIn lo hi (c ∷ cs) = ((lo ≤ c) × (c ≤ hi)) × AllIn lo hi cs

abbrev pub Without : ℕ → Bytes → Type 0
Without d [] = Unit
Without d (c ∷ cs) = (c ≢ d) × Without d cs

abbrev introducer : ℕ → Bool
introducer c = c == b'[' || (c == b']' || (c == b'P' || c == b'X' || c == b'^' || c == b'_'))

-- The bytes that each piece may hold. A body stops before its terminator.
abbrev pub IsPiece : Piece → Type 0
IsPiece (plain c) = c ≢ escape
IsPiece (csi params between final) =
    AllIn 0x30 0x3F params × AllIn 0x20 0x2F between × (0x40 ≤ final) × (final ≤ 0x7E)
IsPiece (osc_bel body) = Without 0x07 body × Without escape body
IsPiece (osc_st body) = Without 0x07 body × Without escape body
IsPiece (control_string kind body) =
    ((kind ≡ b'P') ⊎ ((kind ≡ b'X') ⊎ ((kind ≡ b'^') ⊎ (kind ≡ b'_')))) × Without escape body
IsPiece (other [] final) = (0x30 ≤ final) × (final ≤ 0x7E) × (introducer final ≡ false)
IsPiece (other (c ∷ cs) final) = AllIn 0x20 0x2F (c ∷ cs) × (0x30 ≤ final) × (final ≤ 0x7E)

abbrev pub ArePieces : List Piece → Type 0
ArePieces [] = Unit
ArePieces (p ∷ ps) = IsPiece p × ArePieces ps

-- A piece in front of what follows it.
abbrev pub write : Piece → Bytes → Bytes
write (plain c) rest = c ∷ rest
write (csi params between final) rest = escape ∷ b'[' ∷ (params ++ (between ++ (final ∷ rest)))
write (osc_bel body) rest = escape ∷ b']' ∷ (body ++ (0x07 ∷ rest))
write (osc_st body) rest = escape ∷ b']' ∷ (body ++ (escape ∷ b'\\' ∷ rest))
write (control_string kind body) rest = escape ∷ kind ∷ (body ++ (escape ∷ b'\\' ∷ rest))
write (other between final) rest = escape ∷ (between ++ (final ∷ rest))

unfoldable pub write_all : List Piece → Bytes
write_all [] = []
write_all (p ∷ ps) = write p (write_all ps)

unfoldable pub plain_text : List Piece → Bytes
plain_text [] = []
plain_text (plain c ∷ ps) = c ∷ plain_text ps
plain_text (p ∷ ps) = plain_text ps

skip_range-run :
    (lo hi : ℕ) (xs rest : Bytes)
    → AllIn lo hi xs
    → skip_range lo hi (xs ++ rest) ≡ skip_range lo hi rest
unfolding skip_range
skip_range-run lo hi [] rest h = refl
skip_range-run lo hi (x ∷ xs) rest h = ground (arith, skip_range-run lo hi xs rest h.1)

skip_range-stop :
    (lo hi c : ℕ) (rest : Bytes)
    → (leb lo c && leb c hi) ≡ false
    → skip_range lo hi (c ∷ rest) ≡ c ∷ rest
unfolding skip_range
skip_range-stop lo hi c rest h = rw h

skip_one-hit :
    (lo hi c : ℕ) (rest : Bytes) → (leb lo c && leb c hi) ≡ true → skip_one lo hi (c ∷ rest) ≡ rest
unfolding skip_one
skip_one-hit lo hi c rest h = rw h

-- Parameters end where an intermediate or the final byte begins.
skip_params :
    (between rest : Bytes) (final : ℕ)
    → AllIn 0x20 0x2F between
    → 0x40 ≤ final
    → skip_range 0x30 0x3F (between ++ (final ∷ rest)) ≡ between ++ (final ∷ rest)
skip_params [] rest final h lo = skip_range-stop 0x30 0x3F final rest (ground arith)
skip_params (c ∷ cs) rest final h lo =
    skip_range-stop 0x30 0x3F c (cs ++ (final ∷ rest)) (ground arith)

skip_csi-write :
    (params between rest : Bytes) (final : ℕ)
    → IsPiece (csi params between final)
    → skip_csi (params ++ (between ++ (final ∷ rest))) ≡ rest
unfolding skip_csi
skip_csi-write params between rest final h =
    rw
      (
        skip_range-run 0x30 0x3F params (between ++ (final ∷ rest)) h.0,
        skip_params between rest final h.1 h.2,
        skip_range-run 0x20 0x2F between (final ∷ rest) h.1,
        skip_range-stop 0x20 0x2F final rest (ground arith),
      )
      (skip_one-hit 0x40 0x7E final rest (ground arith))

skip_osc-bel :
    (body rest : Bytes)
    → Without 0x07 body
    → Without escape body
    → skip_osc (body ++ (0x07 ∷ rest)) ≡ rest
unfolding skip_osc
skip_osc-bel [] rest h k = refl
skip_osc-bel (c ∷ cs) rest h k = ground (arith, skip_osc-bel cs rest h.1 k.1)

skip_osc-st :
    (body rest : Bytes)
    → Without 0x07 body
    → Without escape body
    → skip_osc (body ++ (escape ∷ b'\\' ∷ rest)) ≡ rest
unfolding skip_osc
skip_osc-st [] rest h k = refl
skip_osc-st (c ∷ cs) rest h k = ground (arith, skip_osc-st cs rest h.1 k.1)

skip_string-st :
    (body rest : Bytes) → Without escape body → skip_string (body ++ (escape ∷ b'\\' ∷ rest)) ≡ rest
unfolding skip_string
skip_string-st [] rest k = refl
skip_string-st (c ∷ cs) rest k = ground (arith, skip_string-st cs rest k.1)

skip_other-write :
    (between rest : Bytes) (final : ℕ)
    → AllIn 0x20 0x2F between
    → 0x30 ≤ final
    → final ≤ 0x7E
    → skip_other (between ++ (final ∷ rest)) ≡ rest
unfolding skip_other
skip_other-write between rest final h lo hi =
    rw
      (
        skip_range-run 0x20 0x2F between (final ∷ rest) h,
        skip_range-stop 0x20 0x2F final rest (ground arith),
      )
      (skip_one-hit 0x30 0x7E final rest (ground arith))

skip_sequence-string :
    (kind : ℕ) (cs : Bytes)
    → (kind ≡ b'P') ⊎ ((kind ≡ b'X') ⊎ ((kind ≡ b'^') ⊎ (kind ≡ b'_')))
    → skip_sequence (kind ∷ cs) ≡ skip_string cs
unfolding skip_sequence
skip_sequence-string kind cs h = ground arith

skip_sequence-other :
    (c : ℕ) (cs : Bytes) → introducer c ≡ false → skip_sequence (c ∷ cs) ≡ skip_other (c ∷ cs)
unfolding skip_sequence
skip_sequence-other c cs h = ground arith

-- Stripping a text that begins with a piece.
strip_loop-write :
    (p : Piece) (rest : Bytes)
    → IsPiece p
    → strip_loop (write p rest) ≡ plain_text (p ∷ []) ++ strip_loop rest
unfolding plain_text
strip_loop-write (plain c) rest h = strip_loop-plain c rest (ground arith)
strip_loop-write (csi params between final) rest h =
    strip_loop-escape _ ∙ ap strip_loop (csi_lem params between rest final h)
  where
    csi_lem :
        (params between rest : Bytes) (final : ℕ)
        → IsPiece (csi params between final)
        → skip_sequence (b'[' ∷ (params ++ (between ++ (final ∷ rest)))) ≡ rest
    csi_lem params between rest final h =
        unfold skip_sequence in skip_csi-write params between rest final h
strip_loop-write (osc_bel body) rest h =
    strip_loop-escape _ ∙ ap strip_loop (unfold skip_sequence in skip_osc-bel body rest h.0 h.1)
strip_loop-write (osc_st body) rest h =
    strip_loop-escape _ ∙ ap strip_loop (unfold skip_sequence in skip_osc-st body rest h.0 h.1)
strip_loop-write (control_string kind body) rest h =
    strip_loop-escape _
    ∙ ap strip_loop (skip_sequence-string kind _ h.0 ∙ skip_string-st body rest h.1)
strip_loop-write (other [] final) rest h =
    strip_loop-escape _
    ∙ ap strip_loop (skip_sequence-other final rest h.2 ∙ skip_other-write [] rest final tt h.0 h.1)
strip_loop-write (other (c ∷ cs) final) rest h =
    strip_loop-escape _
    ∙ ap strip_loop
        (skip_sequence-other c _ (ground arith) ∙ skip_other-write (c ∷ cs) rest final h.0 h.1 h.2)

plain_text-cons :
    (p : Piece) (ps : List Piece) → plain_text (p ∷ ps) ≡ plain_text (p ∷ []) ++ plain_text ps
unfolding plain_text
plain_text-cons (plain c) ps = refl
plain_text-cons _ ps = refl

strip_loop-write_all : (ps : List Piece) → ArePieces ps → strip_loop (write_all ps) ≡ plain_text ps
unfolding write_all
strip_loop-write_all [] h = unfold plain_text strip_from in refl
strip_loop-write_all (p ∷ ps) h =
    strip_loop-write p (write_all ps) h.0
    ∙ ap (λ t. plain_text (p ∷ []) ++ t) (strip_loop-write_all ps h.1)
    ∙ sym (plain_text-cons p ps)

-- Of a text that is written from plain bytes and complete escape sequences, `stripANSI` leaves exactly
-- the plain bytes, in order.
pub strip_ansi-write_all :
    (ps : List Piece) → ArePieces ps → strip_ansi (write_all ps) ≡ plain_text ps
strip_ansi-write_all ps h = strip_ansi-strip_loop (write_all ps) ∙ strip_loop-write_all ps h
