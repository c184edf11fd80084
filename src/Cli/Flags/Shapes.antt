-- ===== src/Cli/Flags/Shapes.antt =====
-- What a flag with its name, a flag with a value behind `=`, and a positional look like to `reorderArgs` and
-- to the flag package.
use tmux_pane_control.Prelude.{
  ℕ, ◌≡◌, ◌≢◌, refl, true, false, [], ◌∷◌, ◌++◌, none, some, Bytes, bytes_eq, has_prefix, codes,
  is_empty, ◌==◌, if◌then◌else◌, arith, Bool-cases, inl, inr,
}
use tmux_pane_control.Textnorm.{has_byte}
use tmux_pane_control.Cli.{before_equals, is_long, is_short}
use tmux_pane_control.Cli.Flags.{no_flag, flag_named, terminator, behind_equals, shape_named, shape}
use tmux_pane_control.Cli.Flags.Pieces.{IsName}

pub named-is_long : (c : ℕ) (cs : Bytes) → is_long (codes "--" ++ (c ∷ cs)) ≡ true
unfolding has_prefix
named-is_long c cs = ground arith

pub named-not_sentinel :
    (c : ℕ) (cs : Bytes) → bytes_eq (codes "--" ++ (c ∷ cs)) (codes "--") ≡ false
unfolding bytes_eq
named-not_sentinel c cs = refl

pub has_byte-append : (c : ℕ) (a b : Bytes) → has_byte c (a ++ (c ∷ b)) ≡ true
unfolding has_byte
has_byte-append c [] b = ground arith
has_byte-append c (x ∷ a) b = ground (arith, has_byte-append c a b)

pub before_equals-none : (cs : Bytes) → has_byte b'=' cs ≡ false → before_equals cs ≡ cs
unfolding has_byte before_equals
before_equals-none [] h = refl
before_equals-none (c ∷ cs) h = ground (arith, before_equals-none cs)

pub behind_equals-none : (cs : Bytes) → has_byte b'=' cs ≡ false → behind_equals cs ≡ none
unfolding has_byte behind_equals
behind_equals-none [] h = refl
behind_equals-none (c ∷ cs) h = ground (arith, behind_equals-none cs)

pub before_equals-append :
    (cs s : Bytes) → has_byte b'=' cs ≡ false → before_equals (cs ++ (b'=' ∷ s)) ≡ cs
unfolding has_byte before_equals
before_equals-append [] s h = refl
before_equals-append (c ∷ cs) s h = ground (arith, before_equals-append cs s)

pub behind_equals-append :
    (cs s : Bytes) → has_byte b'=' cs ≡ false → behind_equals (cs ++ (b'=' ∷ s)) ≡ some s
unfolding has_byte behind_equals
behind_equals-append [] s h = refl
behind_equals-append (c ∷ cs) s h = ground (arith, behind_equals-append cs s)

pub shape-name : (name : Bytes) → IsName name → shape (codes "--" ++ name) ≡ flag_named name none
unfolding shape shape_named has_byte
shape-name [] n = elim n [ ]
shape-name (c ∷ cs) (d, h) =
    rw (before_equals-none cs (ground arith), behind_equals-none cs (ground arith)) (ground arith)

pub shape-assigned :
    (name s : Bytes)
    → IsName name
    → shape (codes "--" ++ (name ++ (b'=' ∷ s))) ≡ flag_named name (some s)
unfolding shape shape_named has_byte
shape-assigned [] s n = elim n [ ]
shape-assigned (c ∷ cs) s (d, h) =
    rw (before_equals-append cs s (ground arith), behind_equals-append cs s (ground arith))
      (ground arith)

pub shape_named-flag : (name : Bytes) → shape_named name ≢ no_flag
unfolding shape_named
shape_named-flag [] e = cc
shape_named-flag (c ∷ cs) e = ground arith

pub dashed-flag :
    (d : ℕ) (cs : Bytes)
    → (if d == b'-'
        then (if is_empty cs then terminator else shape_named cs)
        else shape_named (d ∷ cs))
      ≢ no_flag
dashed-flag d [] e = ground (arith, shape_named-flag (d ∷ []))
dashed-flag d (c ∷ cs) e = ground (arith, shape_named-flag (c ∷ cs), shape_named-flag (d ∷ c ∷ cs))

pub no_flag-plain :
    (t : Bytes)
    → shape t ≡ no_flag
    → (bytes_eq t (codes "--") ≡ false) × (is_long t ≡ false) × (is_short t ≡ false)
unfolding shape bytes_eq has_prefix
no_flag-plain [] h = (refl, refl, refl)
no_flag-plain (c ∷ []) h = (ground arith, ground arith, ground arith)
no_flag-plain (c ∷ d ∷ cs) h = elim (Bool-cases (c == b'-')) [
  | inl dash ↦ elim (dashed-flag d cs (rw dash at h)) [ ]
  | inr plain ↦ rw plain (refl, refl, refl)
]
