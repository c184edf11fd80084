-- ===== src/Tests/Harnesses.antt =====
-- Runs of the conformance harness.
use tmux_pane_control.Prelude.{
  ℕ, zero, suc, ◌-◌, ◌≡◌, ◌≢◌, ◌↔◌, refl, ap, ◌∙◌, false, true, [], ◌∷◌, ◌++◌, none, some, Bytes,
  bytes_eq, codes, length, take, drop, length-append, take-length, ◌==◌, if◌then◌else◌, arith, ok,
  err, has_prefix,
}
use tmux_pane_control.Prelude.Decimal.{digits_of, itoa}
use tmux_pane_control.Textnorm.{has_byte}
use tmux_pane_control.Waiter.{SentinelMatch, sentinel_marker, match_sentinel}
use tmux_pane_control.Harness.{
  Env, RunResult, exit_error, World, run, run_args, after_run, record_invocation, must_muted,
}
use tmux_pane_control.Harness.History.{Call, Kept, run_calls, run_calls-Kept}
use tmux_pane_control.Harness.Sentinel.{
  Shell, NoneWithin, format_sentinel_cmd, match_sentinel-format_sentinel_cmd,
}
use tmux_pane_control.Harness.Program.{program, run-must_muted}
use tmux_pane_control.Cli.{validate_pane_id}
use tmux_pane_control.Cli.Flags.{last_set}
use tmux_pane_control.Cli.Flags.Pieces.{arguments_of, settings_of, positionals_of}
use tmux_pane_control.Tests.Codec.{wire_codec}
use tmux_pane_control.Tests.Sample.{codec}
use tmux_pane_control.Tests.Stores.{empty}
use tmux_pane_control.Tests.Programs.{
  pieces, pieces_fit, installation, payloads, meets, eof, accepting,
}

abbrev scenario : Env
scenario = record {
  bin = codes "tpctl";
  tmux = codes "tmux";
  tmux_soc = codes "/s";
  xdg_dir = codes "/x";
  history = [];
  panes = [];
}

-- A binary that exits with 2.
abbrev refusing : World
refusing = record {
  exec = λ bin args environ. record { failure = exit_error 2; stdout = []; stderr = codes "usage" };
  getenv = λ name. name;
}

abbrev listing : Call
listing = record { world = refusing; started = 5; args = codes "list" ∷ [] }

run_calls-Kept_example :
    Kept scenario
      (record scenario {
        history =
            record {
              when = 5;
              args = codes "list" ∷ [];
              code = 2;
              stdout = [];
              stderr = codes "usage";
            }
            ∷ [];
      })
      (record { when = 5; args = codes "list" ∷ []; code = 2; stdout = []; stderr = codes "usage" }
        ∷ [])
unfolding run_calls run_args after_run record_invocation
run_calls-Kept_example = run_calls-Kept (listing ∷ []) scenario _ _ (omega arith) refl

-- A shell that has one command, `f`, which prints nothing and exits with 3.
unfoldable print : Bytes → Bytes → Bytes
print [] arg = []
print (c ∷ []) arg = c ∷ []
print (c ∷ d ∷ cs) arg =
    let number = print cs [] in
    let break = print cs arg in
    let plain = print (d ∷ cs) arg in
    if c == b'%' then arg ++ number else if c == b'\\' then b'\n' ∷ break else c ∷ plain

print_plain :
    (c : ℕ) (fmt arg : Bytes) → c ≢ b'%' → c ≢ b'\\' → print (c ∷ fmt) arg ≡ c ∷ print fmt arg
unfolding print
print_plain c [] arg h k = refl
print_plain c (d ∷ cs) arg h k = ground arith

abbrev end_of : Bytes → Bytes
end_of t = take (length t - 4) t

unfoldable shown : Bytes → Bytes
unfolding print itoa digits_of
shown t = if bytes_eq t (codes "f") then [] else print (end_of (drop 11 t)) (itoa 3)

end_of-append : (fmt : Bytes) → end_of (fmt ++ codes "' $?") ≡ fmt
end_of-append fmt =
    ap (λ n. take n (fmt ++ codes "' $?")) {y = length fmt}
      (omega (arith, length-append fmt (codes "' $?")))
    ∙ take-length fmt (codes "' $?")

shown_printf :
    (cmd fmt : Bytes)
    → cmd ≡ codes "f"
    → has_byte b'\'' fmt ≡ false
    → shown (cmd ++ (codes "; printf '" ++ (fmt ++ codes "' $?"))) ≡ shown cmd ++ print fmt (itoa 3)
unfolding shown bytes_eq
shown_printf cmd fmt e h = rw e (ap (λ t. print t (itoa 3)) (end_of-append fmt))

abbrev small_shell : Shell
unfolding print
small_shell = record {
  IsCommand = λ cmd. cmd ≡ codes "f";
  output = shown;
  status = λ cmd. 3;
  printf = print;
  status_byte = λ cmd. omega arith;
  printf_plain = print_plain;
  printf_number = λ fmt n h. refl;
  printf_break = λ fmt arg. refl;
  printf_end = refl;
  output_printf = shown_printf;
}

nothing :
    NoneWithin
      (sentinel_marker (codes "t"))
      0
      2
      (codes "$ " ++ shown (format_sentinel_cmd (codes "f") (codes "t")))
unfolding has_prefix shown bytes_eq
nothing zero h = refl
nothing (suc zero) h = refl
nothing (suc (suc i)) h = absurd (omega arith)

match_sentinel-format_sentinel_cmd_example :
    let text = codes "$ " ++ shown (format_sentinel_cmd (codes "f") (codes "t")) in
    (m : SentinelMatch) × (match_sentinel text (codes "t") ≡ some m)
    × (m.exit_code ≡ 3)
    × (m.matched ≡ sentinel_marker (codes "t") ++ itoa 3)
unfolding shown bytes_eq has_prefix
match_sentinel-format_sentinel_cmd_example =
    match_sentinel-format_sentinel_cmd small_shell (codes "$ ") (codes "f") (codes "t") refl
      (ground arith) nothing

run-must_muted_example :
    (e' : Env) × (r : RunResult) × (run
        (program (λ name. name) installation)
        5
        (codes "text" ∷ (arguments_of pieces ++ []))
        scenario
      ≡ ok (e', r))
    × ((must_muted r ≡ ok tt) ↔ (accepting.send_text (codes "%1") (codes "ls") true ≡ ok tt))
unfolding wire_codec positionals_of settings_of last_set validate_pane_id bytes_eq has_prefix
run-must_muted_example =
    run-must_muted (λ name. name) installation wire_codec codec payloads (λ p. err []) 7 true empty
      meets eof scenario 5 pieces none (codes "ls") (codes "/s") refl pieces_fit refl (refl, refl)
      refl refl refl (ground arith) (ground arith) tt tt
