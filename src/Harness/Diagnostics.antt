-- ===== src/Harness/Diagnostics.antt =====
-- conformance/harness/harness.go, `dumpDiagnostics`: the summary of a scenario that failed.
use tmux_pane_control.Prelude.{
  ℕ, ◌-◌, not, List, [], ◌∷◌, ◌++◌, Bytes, codes, is_empty, length, take, drop, leb, ltb,
  if◌then◌else◌, none, some,
}
use tmux_pane_control.Prelude.Int64.{two63, two64}
use tmux_pane_control.Prelude.Decimal.{itoa}
use tmux_pane_control.Textnorm.{split_lines, join_lines}
use tmux_pane_control.Tmuxctl.Adapter.{trim_newlines}
use tmux_pane_control.Harness.{Invocation, Env}
use tmux_pane_control.Harness.Fixture.{Tmux}

-- The UTF-8 bytes of `…`, of `→` and of four times `─`.
abbrev ellipsis : Bytes
ellipsis = 0xE2 ∷ 0x80 ∷ 0xA6 ∷ []

abbrev arrow : Bytes
arrow = 0xE2 ∷ 0x86 ∷ 0x92 ∷ []

abbrev rule : Bytes
rule = 0xE2 ∷ 0x94 ∷ 0x80 ∷ 0xE2 ∷ 0x94 ∷ 0x80 ∷ 0xE2 ∷ 0x94 ∷ 0x80 ∷ 0xE2 ∷ 0x94 ∷ 0x80 ∷ []

-- `truncate`
unfoldable pub truncate : Bytes → ℕ → Bytes
truncate s n = let t = trim_newlines s in if leb (length t) n then t else take n t ++ ellipsis

abbrev pub prefix_all : Bytes → List Bytes → List Bytes
prefix_all prefix [] = []
prefix_all prefix (l ∷ ls) = (prefix ++ l) ∷ prefix_all prefix ls

-- `indent`
unfoldable pub indent : Bytes → Bytes → Bytes
indent s prefix =
    if is_empty s
    then prefix ++ codes "<empty>\n"
    else join_lines (prefix_all prefix (split_lines (trim_newlines s))) ++ codes "\n"

-- `%d` of an int64.
abbrev pub signed_text : ℕ → Bytes
signed_text n = if ltb n two63 then itoa n else codes "-" ++ itoa (two64 - n)

-- `strings.Join(args, " ")`
abbrev pub join_spaces : List Bytes → Bytes
join_spaces [] = []
join_spaces (a ∷ []) = a
join_spaces (a ∷ b ∷ args) = a ++ (codes " " ++ join_spaces (b ∷ args))

abbrev pub shown : Bytes → Bytes → Bytes
shown label s = if not (is_empty s) then label ++ (s ++ codes "\n") else []

-- The invocations that are shown: the last six.
unfoldable pub recent : List Invocation → List Invocation
recent hist = let n = length hist in drop (if ltb 6 n then n - 6 else 0) hist

-- `clock` is `when.Format("15:04:05.000")`.
module _ (clock : ℕ → Bytes) where
  unfoldable pub show_invocation : Invocation → Bytes
  unfolding truncate
  show_invocation inv =
      codes "  ["
      ++ (clock inv.when
          ++ (codes "] tpctl "
              ++ (join_spaces inv.args
                  ++ (codes " "
                      ++ (arrow
                          ++ (codes " code="
                              ++ (signed_text inv.code
                                  ++ (codes "\n"
                                      ++ (shown (codes "    stdout: ") (truncate inv.stdout 200)
                                          ++ shown (codes "    stderr: ")
                                              (truncate inv.stderr 200))))))))))

  unfoldable pub show_invocations : List Invocation → Bytes
  unfolding show_invocation
  show_invocations [] = []
  show_invocations (inv ∷ invs) = show_invocation inv ++ show_invocations invs

  unfoldable pub show_pane : Tmux → Env → Bytes → Bytes
  unfolding indent
  show_pane tmux e p =
      let x =
        tmux (codes "-S" ∷ e.tmux_soc ∷ codes "capture-pane" ∷ codes "-p" ∷ codes "-t" ∷ p ∷ []) in
      elim x.failure [
        | some text ↦ codes "  " ++ (p ++ (codes ": <unavailable: " ++ (text ++ codes ">\n")))
        | none ↦ codes "  " ++ (p ++ (codes ":\n" ++ indent x.output (codes "    ")))
      ]

  unfoldable pub show_panes : Tmux → Env → List Bytes → Bytes
  unfolding show_pane
  show_panes tmux e [] = []
  show_panes tmux e (p ∷ panes) = show_pane tmux e p ++ show_panes tmux e panes

  abbrev title : ℕ → Bytes
  title n = codes "Last " ++ (itoa n ++ codes " tpctl invocation(s):\n")

  -- `dumpDiagnostics`: the text that is logged.
  unfoldable pub dump_diagnostics : Tmux → Env → Bytes
  unfolding show_invocations show_panes recent
  dump_diagnostics tmux e =
      let hist = recent e.history in
      codes "\n"
      ++ (rule
          ++ (codes " conformance failure-time diagnostics "
              ++ (rule
                  ++ (codes "\n"
                      ++ ((if is_empty e.history
                            then []
                            else title (length hist) ++ show_invocations hist)
                          ++ ((if is_empty e.panes
                                then []
                                else codes "Pane captures (tmux capture-pane -p):\n"
                                  ++ show_panes tmux e e.panes)
                              ++ (rule ++ (codes " end diagnostics " ++ rule))))))))
