-- ===== src/Tests/Texts.antt =====
-- Runs of the text normalisation and of the sentinel search.
use tmux_pane_control.Prelude.{◌≡◌, refl, [], ◌∷◌, ◌++◌, List, Bytes, codes, arith, has_prefix}
use tmux_pane_control.Textnorm.{escape, normalize, strip_ansi}
use tmux_pane_control.Textnorm.Sequences.{
  Piece, plain, csi, osc_bel, other, write_all, plain_text, strip_ansi-write_all,
}
use tmux_pane_control.Textnorm.Normal.{IsNormal, normalize-IsNormal}
use tmux_pane_control.Waiter.{
  match_sentinel, match_from, sentinel_marker, index, take_digits, atoi, decimal_from,
}
use tmux_pane_control.Waiter.Sentinel.{FoundIn, match_sentinel-FoundIn}

abbrev coloured : Bytes
coloured = escape ∷ codes "[31mred" ++ (escape ∷ codes "[0m \r\n\n")

abbrev pieces : List Piece
pieces =
    csi (codes "1;3") [] b'm'
    ∷ plain b'o'
    ∷ plain b'k'
    ∷ osc_bel (codes "0;t")
    ∷ other (codes "(") b'B'
    ∷ []

strip_ansi-write_all_example : strip_ansi (write_all pieces) ≡ plain_text pieces
strip_ansi-write_all_example = strip_ansi-write_all pieces (
  (
    ((omega arith, omega arith), ((omega arith, omega arith), ((omega arith, omega arith), tt))),
    tt,
    omega arith,
    omega arith,
  ),
  (
    omega arith,
    (
      omega arith,
      (
        (
          (omega arith, (omega arith, (omega arith, tt))),
          (omega arith, (omega arith, (omega arith, tt))),
        ),
        ((((omega arith, omega arith), tt), omega arith, omega arith), tt),
      ),
    ),
  ),
)

normalize-IsNormal_example : IsNormal (normalize coloured)
normalize-IsNormal_example = normalize-IsNormal coloured

abbrev done : Bytes
done = codes "x__DONE__:t:7;"

match_sentinel-FoundIn_example :
    FoundIn
      (sentinel_marker (codes "t"))
      done
      0
      (record { matched = codes "__DONE__:t:7"; exit_code = 7; end = 13 })
unfolding match_sentinel match_from index has_prefix take_digits atoi decimal_from
match_sentinel-FoundIn_example =
    match_sentinel-FoundIn done (codes "t")
      (record { matched = codes "__DONE__:t:7"; exit_code = 7; end = 13 }) refl
