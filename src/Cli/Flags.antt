-- ===== src/Cli/Flags.antt =====
-- What internal/cli uses of Go's package `flag`: `FlagSet.Parse` with `ContinueOnError`, from the package's
-- documentation and behaviour, on the flag sets that internal/cli/app.go and daemon.go build. What
-- `strconv` reads and quotes is a parameter.
pub mod Pieces
pub mod Shapes
pub mod Reordered
use tmux_pane_control.Prelude.{
  ℕ, ◌≡◌, Bool, true, false, ◌||◌, List, [], ◌∷◌, ◌++◌, Option, none, some, Bytes, bytes_eq, codes,
  is_empty, ◌==◌, if◌then◌else◌, Result, ok, err,
}
use tmux_pane_control.Cli.{before_equals}

pub data Kind : Type 0 where
  text_kind int_kind bool_kind : Kind

-- An `int` is its bit pattern.
pub data Value : Type 0 where
  text_value : Bytes → Value
  int_value : ℕ → Value
  bool_value : Bool → Value

-- `strconv.ParseInt`, `strconv.ParseBool` with their errors, and `strconv.Quote`.
pub record Strconv : Type 0 where
  pub parse_int : Bytes → Result Bytes ℕ
  pub parse_bool : Bytes → Result Bytes Bool
  pub quote : Bytes → Bytes

-- A flag set, by the kind of each flag that is defined in it.
abbrev pub FlagSet : Type 0
FlagSet = Bytes → Option Kind

-- What `Parse` leaves: the flags that were set, in order, with `Args()`; the error's text, which it has
-- printed; or `ErrHelp`.
pub data Parse : Type 0 where
  parsed : List (Bytes × Value) → List Bytes → Parse
  refused : Bytes → Parse
  help_asked : Parse

-- What an argument is to `parseOne`.
pub data Shape : Type 0 where
  no_flag terminator malformed : Shape
  flag_named : Bytes → Option Bytes → Shape

-- What is behind the first `=`.
unfoldable pub behind_equals : Bytes → Option Bytes
behind_equals [] = none
behind_equals (c ∷ cs) = if c == b'=' then some cs else behind_equals cs

unfoldable pub shape_named : Bytes → Shape
unfolding before_equals behind_equals
shape_named [] = malformed
shape_named (c ∷ cs) =
    if c == b'-' || c == b'='
    then malformed
    else flag_named (c ∷ before_equals cs) (behind_equals cs)

unfoldable pub shape : Bytes → Shape
unfolding shape_named
shape [] = no_flag
shape (c ∷ []) = no_flag
shape (c ∷ d ∷ cs) =
    if c == b'-'
    then (if d == b'-'
        then (if is_empty cs then terminator else shape_named cs)
        else shape_named (d ∷ cs))
    else no_flag

-- A flag's value that is set before the rest is parsed.
abbrev pub with_setting : Bytes → Result Bytes Value → Parse → Parse
with_setting name (err m) rest = refused m
with_setting name (ok v) (parsed settings args) = parsed ((name, v) ∷ settings) args
with_setting name (ok v) (refused m) = refused m
with_setting name (ok v) help_asked = help_asked

module _ (strconv : Strconv) where
  abbrev pub int_result : Bytes → Bytes → Result Bytes ℕ → Result Bytes Value
  int_result name s (ok n) = ok (int_value n)
  int_result name s (err e) = err (
      codes "invalid value "
      ++ (strconv.quote s ++ (codes " for flag -" ++ (name ++ (codes ": " ++ e)))))

  abbrev pub bool_result : Bytes → Bytes → Result Bytes Bool → Result Bytes Value
  bool_result name s (ok b) = ok (bool_value b)
  bool_result name s (err e) = err (
      codes "invalid boolean value "
      ++ (strconv.quote s ++ (codes " for -" ++ (name ++ (codes ": " ++ e)))))

  -- `Value.Set`
  unfoldable pub set_value : Kind → Bytes → Bytes → Result Bytes Value
  set_value text_kind name s = ok (text_value s)
  set_value int_kind name s = int_result name s (strconv.parse_int s)
  set_value bool_kind name s = bool_result name s (strconv.parse_bool s)

  abbrev pub undefined_flag : Bytes → Parse
  undefined_flag name =
      if bytes_eq name (codes "help") || bytes_eq name (codes "h")
      then help_asked
      else refused (codes "flag provided but not defined: -" ++ name)

  -- A flag that takes its value from the next argument, if there is one.
  abbrev pub take_next : Kind → Bytes → Option Bytes → Parse → Parse
  take_next k name none behind = refused (codes "flag needs an argument: -" ++ name)
  take_next k name (some v) behind = with_setting name (set_value k name v) behind

  -- `parseOne` on a flag: `after` is what parsing gives from the next argument on, `behind` from the one
  -- behind that on.
  abbrev pub take_flag : Option Kind → Bytes → Option Bytes → Option Bytes → Parse → Parse → Parse
  take_flag none name value next after behind = undefined_flag name
  take_flag (some k) name (some v) next after behind = with_setting name (set_value k name v) after
  take_flag (some bool_kind) name none next after behind =
      with_setting name (ok (bool_value true)) after
  take_flag (some text_kind) name none next after behind = take_next text_kind name next behind
  take_flag (some int_kind) name none next after behind = take_next int_kind name next behind

  -- `FlagSet.Parse`
  unfoldable pub parse : FlagSet → List Bytes → Parse
  unfolding shape set_value
  parse flags [] = parsed [] []
  parse flags (a ∷ []) = elim (shape a) [
    | no_flag ↦ parsed [] (a ∷ [])
    | terminator ↦ parsed [] []
    | malformed ↦ refused (codes "bad flag syntax: " ++ a)
    | flag_named name value ↦ take_flag (flags name) name value none (parsed [] []) (parsed [] [])
  ]
  parse flags (a ∷ v ∷ args) =
      let after = parse flags (v ∷ args) in
      let behind = parse flags args in
      elim (shape a) [
        | no_flag ↦ parsed [] (a ∷ v ∷ args)
        | terminator ↦ parsed [] (v ∷ args)
        | malformed ↦ refused (codes "bad flag syntax: " ++ a)
        | flag_named name value ↦ take_flag (flags name) name value (some v) after behind
      ]

-- The variable of a flag behind `Parse`: the last value that was set, or its default.
unfoldable pub last_set : Bytes → List (Bytes × Value) → Option Value
last_set name [] = none
last_set name ((n, v) ∷ rest) = elim (last_set name rest) [
  | some w ↦ some w
  | none ↦ if bytes_eq n name then some v else none
]

abbrev pub or_text : Option Value → Bytes
or_text (some (text_value t)) = t
or_text v = []

abbrev pub or_int : ℕ → Option Value → ℕ
or_int default (some (int_value n)) = n
or_int default v = default

abbrev pub or_switch : Option Value → Bool
or_switch (some (bool_value b)) = b
or_switch v = false
