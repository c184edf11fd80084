-- ===== src/Cli/Arguments.antt =====
-- No argument is lost or made up on the way to the flag parser.
use tmux_pane_control.Prelude.{
  ℕ, suc, ◌+◌, ◌≡◌, refl, sym, ◌∙◌, Bool, true, false, ◌||◌, List, [], ◌∷◌, ◌++◌, Bytes, bytes_eq,
  bytes_eq_iff, codes, drop, if◌then◌else◌, arith, Bool-cases, inl, inr, subst,
}
use tmux_pane_control.Textnorm.{has_byte}
use tmux_pane_control.Cli.{
  extract_globals, is_long, is_short, on_flags, on_positionals, split_args, reorder_args,
}

-- If neither help nor the version is asked for, the global flags and what remains are the arguments as
-- they were.
extract_globals-append :
    (args : List Bytes)
    → (extract_globals args).help_seen ≡ false
    → (extract_globals args).version_seen ≡ false
    → (extract_globals args).globals ++ (extract_globals args).remaining ≡ args
unfolding extract_globals
extract_globals-append [] h v = refl
extract_globals-append (a ∷ []) h v = ground arith
extract_globals-append (a ∷ x ∷ args) h v =
    let rest = extract_globals-append (x ∷ args) in
    let behind = extract_globals-append args in ground (arith, rest, behind)

unfoldable pub count : Bytes → List Bytes → ℕ
count t [] = 0
count t (a ∷ args) = if bytes_eq a t then suc (count t args) else count t args

count-append : (t : Bytes) (a b : List Bytes) → count t (a ++ b) ≡ count t a + count t b
unfolding count
count-append t [] b = ground arith
count-append t (x ∷ a) b = ground (arith, count-append t a b)

sentinel_lem :
    (a t : Bytes)
    → bytes_eq a (codes "--") ≡ true
    → bytes_eq (codes "--") t ≡ false
    → bytes_eq a t ≡ false
sentinel_lem a t same n =
    subst (λ b. bytes_eq b t ≡ false) (sym ((bytes_eq_iff a (codes "--")).0 same)) n

abbrev total : Bytes → List Bytes × List Bytes → ℕ
unfolding count
total t p = count t p.0 + count t p.1

total-on_flags :
    (t a : Bytes) (p : List Bytes × List Bytes) (args : List Bytes)
    → total t p ≡ count t args
    → total t (on_flags a p) ≡ count t (a ∷ args)
unfolding count
total-on_flags t a p args h = ground arith

total-on_positionals :
    (t a : Bytes) (p : List Bytes × List Bytes) (args : List Bytes)
    → total t p ≡ count t args
    → total t (on_positionals a p) ≡ count t (a ∷ args)
unfolding count
total-on_positionals t a p args h = ground arith

count-split_args :
    (is_bool : Bytes → Bool) (t : Bytes) (args : List Bytes)
    → bytes_eq (codes "--") t ≡ false
    → count t (split_args is_bool args).0 + count t (split_args is_bool args).1 ≡ count t args
unfolding count split_args
count-split_args is_bool t [] n = ground arith
count-split_args is_bool t (a ∷ []) n = elim (Bool-cases (bytes_eq a (codes "--"))) [
  | inl same ↦ let missing = sentinel_lem a t same n in ground arith
  | inr other ↦ ground arith
]
count-split_args is_bool t (a ∷ v ∷ args) n =
    let rest = count-split_args is_bool t (v ∷ args) n in
    let behind = count-split_args is_bool t args n in
    elim (Bool-cases (bytes_eq a (codes "--"))) [
      | inl same ↦ let missing = sentinel_lem a t same n in ground arith
      | inr other ↦ elim (Bool-cases (is_long a)) [
        | inl long ↦ elim (Bool-cases (has_byte b'=' (drop 2 a) || is_bool (drop 2 a))) [
          | inl alone ↦ rw (other, long, alone, split_args) (total-on_flags t a _ (v ∷ args) rest)
          | inr valued ↦
              rw (other, long, valued, split_args)
                (total-on_flags t a (on_flags v (split_args is_bool args)) (v ∷ args)
                  (total-on_flags t v _ args behind))
        ]
        | inr plain ↦ elim (Bool-cases (is_short a)) [
          | inl short ↦ rw (other, plain, short, split_args) (total-on_flags t a _ (v ∷ args) rest)
          | inr positional ↦
              rw (other, plain, positional, split_args) (total-on_positionals t a _ (v ∷ args) rest)
        ]
      ]
    ]

-- Putting the flags first keeps every argument as often as it stood, but for `--`.
count-reorder_args :
    (is_bool : Bytes → Bool) (t : Bytes) (args : List Bytes)
    → bytes_eq (codes "--") t ≡ false
    → count t (reorder_args is_bool args) ≡ count t args
unfolding count reorder_args
count-reorder_args is_bool t args n =
    count-append t (split_args is_bool args).0 (codes "--" ∷ (split_args is_bool args).1)
    ∙ rw (n, count) (count-split_args is_bool t args n)
