-- ===== src/Cli/Subcommands/Sets.antt =====
-- internal/cli/app.go and daemon.go: the flag sets of the commands and their help texts.
use tmux_pane_control.Prelude.{
  Bool, ◌||◌, [], ◌∷◌, ◌++◌, none, some, Bytes, bytes_eq, codes, is_empty, if◌then◌else◌,
}
use tmux_pane_control.Cli.Flags.{text_kind, int_kind, bool_kind, FlagSet}

-- `globalFlags.register`, `registerPaneFlag` and the flags of each command.
unfoldable pub global_flags : FlagSet
global_flags n =
    if bytes_eq n (codes "tmux-socket") || bytes_eq n (codes "tmux-socket-name")
    then some text_kind
    else none

unfoldable pub pane_flags : FlagSet
unfolding global_flags
pane_flags n = if bytes_eq n (codes "pane") then some text_kind else global_flags n

unfoldable pub snapshot_flags : FlagSet
unfolding pane_flags
snapshot_flags n = if bytes_eq n (codes "history-lines") then some int_kind else pane_flags n

unfoldable pub read_flags : FlagSet
unfolding pane_flags
read_flags n = if bytes_eq n (codes "after") then some text_kind else pane_flags n

unfoldable pub text_flags : FlagSet
unfolding pane_flags
text_flags n = if bytes_eq n (codes "enter") then some bool_kind else pane_flags n

unfoldable pub wait_flags : FlagSet
unfolding read_flags
wait_flags n =
    if bytes_eq n (codes "for") || (bytes_eq n (codes "token") || bytes_eq n (codes "pattern"))
    then some text_kind
    else if bytes_eq n (codes "timeout-ms") || bytes_eq n (codes "ms")
    then some int_kind
    else read_flags n

unfoldable pub daemon_flags : FlagSet
unfolding global_flags
daemon_flags n =
    if bytes_eq n (codes "daemon-socket")
    then some text_kind
    else if bytes_eq n (codes "stop")
    then some bool_kind
    else global_flags n

-- `boolFlagsCommon`, and with `enter` and `stop`.
unfoldable pub common_bools : Bytes → Bool
common_bools n = bytes_eq n (codes "help") || bytes_eq n (codes "h")

unfoldable pub text_bools : Bytes → Bool
unfolding common_bools
text_bools n = bytes_eq n (codes "enter") || common_bools n

unfoldable pub daemon_bools : Bytes → Bool
unfolding common_bools
daemon_bools n = bytes_eq n (codes "stop") || common_bools n

-- `attachSubcommandHelp`, the text; `defaults` is what `PrintDefaults` writes.
unfoldable pub usage_text : Bytes → Bytes → Bytes → Bytes → Bytes → Bytes
usage_text usage description defaults example spec_ref =
    codes "Usage: tpctl "
    ++ (usage
        ++ (codes "\n\n"
            ++ ((if is_empty description then [] else description ++ codes "\n\n")
                ++ (codes "Flags:\n"
                    ++ (defaults
                        ++ ((if is_empty example
                              then []
                              else codes "\nExample:\n  " ++ (example ++ codes "\n"))
                            ++ (if is_empty spec_ref
                                then []
                                else codes "\nSee docs/specs/tpctl-v1.md "
                                  ++ (spec_ref ++ codes " for the full contract.\n"))))))))

-- The help text of each command, around its defaults.
unfoldable pub list_help : Bytes → Bytes
unfolding usage_text
list_help defaults =
    usage_text (codes "list") (codes "Enumerate tmux pane ids on the target server.") defaults
      (codes "tpctl list") (194 ∷ 167 ∷ codes "9.1")

unfoldable pub snapshot_help : Bytes → Bytes
unfolding usage_text
snapshot_help defaults =
    usage_text (codes "snapshot --pane %ID [--history-lines N]")
      (codes "Capture the pane's visible screen and return a checkpoint token.") defaults
      (codes "tpctl snapshot --pane %42 --history-lines 40") (194 ∷ 167 ∷ codes "9.2")

unfoldable pub read_help : Bytes → Bytes
unfolding usage_text
read_help defaults =
    usage_text (codes "read --pane %ID --after TOKEN")
      (codes "Return pane output appended after the given checkpoint token.") defaults
      (codes "tpctl read --pane %42 --after r_000205") (194 ∷ 167 ∷ codes "9.3")

unfoldable pub text_help : Bytes → Bytes
unfolding usage_text
text_help defaults =
    usage_text (codes "text --pane %ID TEXT [--enter]")
      (codes
        "Send literal text to the pane. Exactly one positional payload; --enter appends an Enter keystroke.")
      defaults (codes "tpctl text --pane %42 \"kubectl get pods\" --enter")
      (194 ∷ 167 ∷ codes "9.4")

unfoldable pub key_help : Bytes → Bytes
unfolding usage_text
key_help defaults =
    usage_text (codes "key --pane %ID KEY [KEY...]")
      (codes "Send one or more named keys (tmux send-keys vocabulary) to the pane.") defaults
      (codes "tpctl key --pane %42 Escape \":\" \"q\" Enter") (194 ∷ 167 ∷ codes "9.5")

unfoldable pub wait_help : Bytes → Bytes
unfolding usage_text
wait_help defaults =
    usage_text (codes "wait --pane %ID --after TOKEN --for MODE ... --timeout-ms T")
      (codes "Wait for pane output to match a condition. Modes: sentinel, regex, quiescence.")
      defaults
      (codes "tpctl wait --pane %42 --after r_000205 --for sentinel --token run1 --timeout-ms 5000")
      (194 ∷ 167 ∷ codes "9.6")

unfoldable pub daemon_help : Bytes → Bytes
unfolding usage_text
daemon_help defaults =
    usage_text (codes "daemon")
      (codes
        "Run (or --stop) the controller. Auto-spawn starts the daemon on demand; --stop shuts it down cleanly without needing pkill.")
      defaults (codes "tpctl daemon --tmux-socket /tmp/tmux.sock\n  tpctl daemon --stop")
      (194 ∷ 167 ∷ codes "11.3")
