-- ===== src/Cli/Flags/Reordered.antt =====
-- Flags and positionals in any order are parsed as they are meant.
use tmux_pane_control.Prelude.{
  ◌≡◌, ◌≢◌, refl, Bool, true, false, ◌||◌, List, [], ◌∷◌, ◌++◌, Option, none, some, Bytes, bytes_eq,
  codes, ok,
}
use tmux_pane_control.Textnorm.{has_byte}
use tmux_pane_control.Cli.{is_long, on_flags, on_positionals, split_args, reorder_args}
use tmux_pane_control.Cli.Flags.{
  Kind, text_kind, int_kind, bool_kind, bool_value, Strconv, FlagSet, no_flag, flag_named, shape,
  set_value, with_setting, parsed, parse,
}
use tmux_pane_control.Cli.Flags.Pieces.{
  Piece, switch, valued, assigned, positional, arguments_of, settings_of, positionals_of, AllFit,
}
use tmux_pane_control.Cli.Flags.Shapes.{
  named-is_long, named-not_sentinel, has_byte-append, shape-name, shape-assigned, no_flag-plain,
}

abbrev pub flags_of : List Piece → List Bytes
flags_of [] = []
flags_of (switch name ∷ ps) = (codes "--" ++ name) ∷ flags_of ps
flags_of (valued name s v ∷ ps) = (codes "--" ++ name) ∷ s ∷ flags_of ps
flags_of (assigned name s v ∷ ps) = (codes "--" ++ (name ++ (b'=' ∷ s))) ∷ flags_of ps
flags_of (positional t ∷ ps) = flags_of ps

-- What may stand behind the pieces: nothing, or `--` and arguments of any form.
abbrev pub tail_args : Option (List Bytes) → List Bytes
tail_args none = []
tail_args (some rest) = codes "--" ∷ rest

abbrev pub tail_positionals : Option (List Bytes) → List Bytes
tail_positionals none = []
tail_positionals (some rest) = rest

module _ (is_bool : Bytes → Bool) where
  split_args-positional :
      (t : Bytes) (rest : List Bytes)
      → shape t ≡ no_flag
      → split_args is_bool (t ∷ rest) ≡ on_positionals t (split_args is_bool rest)
  unfolding split_args
  split_args-positional t [] h = let (e, l, s) = no_flag-plain t h in rw (e, l, s) refl
  split_args-positional t (v ∷ args) h = let (e, l, s) = no_flag-plain t h in rw (e, l, s) refl

  split_args-alone :
      (name : Bytes) (rest : List Bytes)
      → bytes_eq (codes "--" ++ name) (codes "--") ≡ false
      → is_long (codes "--" ++ name) ≡ true
      → (has_byte b'=' name || is_bool name) ≡ true
      → split_args is_bool ((codes "--" ++ name) ∷ rest)
        ≡ on_flags (codes "--" ++ name) (split_args is_bool rest)
  unfolding split_args
  split_args-alone name [] e l h = rw (e, l) refl
  split_args-alone name (v ∷ args) e l h = rw (e, l, h) refl

  split_args-tail :
      (tail : Option (List Bytes))
      → split_args is_bool (tail_args tail) ≡ ([], tail_positionals tail)
  unfolding split_args bytes_eq
  split_args-tail none = refl
  split_args-tail (some []) = refl
  split_args-tail (some (x ∷ rest)) = refl

module _ (strconv : Strconv) (flags : FlagSet) (is_bool : Bytes → Bool) where
  split_args-arguments_of :
      (ps : List Piece) (tail : Option (List Bytes))
      → AllFit strconv flags is_bool ps
      → split_args is_bool (arguments_of ps ++ tail_args tail)
        ≡ (flags_of ps, positionals_of ps ++ tail_positionals tail)
  unfolding arguments_of positionals_of split_args
  split_args-arguments_of [] tail fit = split_args-tail is_bool tail
  split_args-arguments_of (switch [] ∷ ps) tail ((n, f, b), fit) = elim n [ ]
  split_args-arguments_of (switch (c ∷ cs) ∷ ps) tail ((n, f, b), fit) =
      rw
        (
          split_args-alone is_bool (c ∷ cs) (arguments_of ps ++ tail_args tail)
              (named-not_sentinel c cs) (named-is_long c cs) (rw (n.1, b) refl),
          split_args-arguments_of ps tail fit,
        )
        refl
  split_args-arguments_of (valued [] s v ∷ ps) tail ((k, n, f, nb, b, e), fit) = elim n [ ]
  split_args-arguments_of (valued (c ∷ cs) s v ∷ ps) tail ((k, n, f, nb, b, e), fit) =
      rw (named-not_sentinel c cs, named-is_long c cs, n.1, b, split_args-arguments_of ps tail fit)
        refl
  split_args-arguments_of (assigned [] s v ∷ ps) tail ((k, n, f, e), fit) = elim n [ ]
  split_args-arguments_of (assigned (c ∷ cs) s v ∷ ps) tail ((k, n, f, e), fit) =
      rw
        (
          split_args-alone is_bool (c ∷ (cs ++ (b'=' ∷ s))) (arguments_of ps ++ tail_args tail)
              (named-not_sentinel c (cs ++ (b'=' ∷ s))) (named-is_long c (cs ++ (b'=' ∷ s)))
              (rw (has_byte-append b'=' (c ∷ cs) s) refl),
          split_args-arguments_of ps tail fit,
        )
        refl
  split_args-arguments_of (positional t ∷ ps) tail (h, fit) =
      rw
        (
          split_args-positional is_bool t (arguments_of ps ++ tail_args tail) h,
          split_args-arguments_of ps tail fit,
        )
        refl

  parse-switch :
      (a name : Bytes) (rest : List Bytes)
      → shape a ≡ flag_named name none
      → flags name ≡ some bool_kind
      → parse strconv flags (a ∷ rest)
        ≡ with_setting name (ok (bool_value true)) (parse strconv flags rest)
  unfolding parse
  parse-switch a name [] h f = rw (parse, h, f) refl
  parse-switch a name (x ∷ rest) h f = rw (parse, h, f) refl

  parse-assigned :
      (a name s : Bytes) (k : Kind) (rest : List Bytes)
      → shape a ≡ flag_named name (some s)
      → flags name ≡ some k
      → parse strconv flags (a ∷ rest)
        ≡ with_setting name (set_value strconv k name s) (parse strconv flags rest)
  unfolding parse
  parse-assigned a name s k [] h f = rw (parse, h, f) refl
  parse-assigned a name s k (x ∷ rest) h f = rw (parse, h, f) refl

  parse-valued :
      (a name s : Bytes) (k : Kind) (rest : List Bytes)
      → shape a ≡ flag_named name none
      → flags name ≡ some k
      → k ≢ bool_kind
      → parse strconv flags (a ∷ s ∷ rest)
        ≡ with_setting name (set_value strconv k name s) (parse strconv flags rest)
  unfolding parse
  parse-valued a name s text_kind rest h f n = rw (parse, h, f) refl
  parse-valued a name s int_kind rest h f n = rw (parse, h, f) refl
  parse-valued a name s bool_kind rest h f n = elim (n refl) [ ]

  parse-tail : (pos : List Bytes) → parse strconv flags (codes "--" ∷ pos) ≡ parsed [] pos
  unfolding parse shape
  parse-tail [] = refl
  parse-tail (x ∷ pos) = refl

  parse-flags_of :
      (ps : List Piece) (pos : List Bytes)
      → AllFit strconv flags is_bool ps
      → parse strconv flags (flags_of ps ++ (codes "--" ∷ pos)) ≡ parsed (settings_of ps) pos
  unfolding settings_of
  parse-flags_of [] pos fit = parse-tail pos
  parse-flags_of (switch name ∷ ps) pos ((n, f, b), fit) =
      rw
        (
          parse-switch (codes "--" ++ name) name (flags_of ps ++ (codes "--" ∷ pos))
              (shape-name name n) f,
          parse-flags_of ps pos fit,
        )
        refl
  parse-flags_of (valued name s v ∷ ps) pos ((k, n, f, nb, b, e), fit) =
      rw
        (
          parse-valued (codes "--" ++ name) name s k (flags_of ps ++ (codes "--" ∷ pos))
              (shape-name name n) f nb,
          e,
          parse-flags_of ps pos fit,
        )
        refl
  parse-flags_of (assigned name s v ∷ ps) pos ((k, n, f, e), fit) =
      rw
        (
          parse-assigned (codes "--" ++ (name ++ (b'=' ∷ s))) name s k
              (flags_of ps ++ (codes "--" ∷ pos)) (shape-assigned name s n) f,
          e,
          parse-flags_of ps pos fit,
        )
        refl
  parse-flags_of (positional t ∷ ps) pos (h, fit) = parse-flags_of ps pos fit

  -- Flags written with two dashes, with their values, and positionals in any order, with or without `--`
  -- and further arguments of any form behind them: `Parse` of what `reorderArgs` makes of them sets exactly the flags, in their
  -- order and to their values, and leaves exactly the positionals, in their order. Conditions are that the
  -- flags are in the set, that the map handed to `reorderArgs` names the Boolean ones among those written
  -- without `=`, that the values can be read, and that no positional before `--` looks like a flag.
  pub parse-reorder_args :
      (ps : List Piece) (tail : Option (List Bytes))
      → AllFit strconv flags is_bool ps
      → parse strconv flags (reorder_args is_bool (arguments_of ps ++ tail_args tail))
        ≡ parsed (settings_of ps) (positionals_of ps ++ tail_positionals tail)
  unfolding reorder_args
  parse-reorder_args ps tail fit =
      rw (split_args-arguments_of ps tail fit)
        (parse-flags_of ps (positionals_of ps ++ tail_positionals tail) fit)
