-- ===== src/Tests/Tools.antt =====
-- Runs of the tmux adapter, the subscription, the dispatch and the arguments.
use tmux_pane_control.Prelude.{
  ◌≡◌, refl, true, false, not, ◌&&◌, ◌||◌, [], ◌∷◌, ◌++◌, List, none, some, ok, err, Bytes, codes,
  bytes_eq, length,
}
use tmux_pane_control.Tmuxctl.Port.{port_failed}
use tmux_pane_control.Tmuxctl.Adapter.{escape_keys}
use tmux_pane_control.Tmuxctl.Adapter.Arguments.{
  has_separator, unescape, ends_semicolon, escape_keys-unescape,
}
use tmux_pane_control.Tmuxctl.Subscription.{Subscription, subscribed, sync, is_member, shell_quote}
use tmux_pane_control.Tmuxctl.Subscription.Polls.{
  Poll, run, lost_count, three_fail, all_fail, run-three_fail,
}
use tmux_pane_control.Tmuxctl.Subscription.Trackers.{is_closed, sync-is_member}
use tmux_pane_control.Tmuxctl.Subscription.Quote.{outside, read_word, read_word-shell_quote}
use tmux_pane_control.Ipc.Dispatch.{Request, Compile}
use tmux_pane_control.Ipc.Socket.{Environment}
use tmux_pane_control.Cli.Flags.{Strconv}
use tmux_pane_control.Cli.Daemon.{Stopping, Serving}

escape_keys-unescape_example :
    (has_separator (escape_keys (codes "Up" ∷ codes ";" ∷ [])) ≡ false)
    × (unescape (escape_keys (codes "Up" ∷ codes ";" ∷ [])) ≡ codes "Up" ∷ codes ";" ∷ [])
unfolding bytes_eq ends_semicolon
escape_keys-unescape_example = escape_keys-unescape (codes "Up" ∷ codes ";" ∷ []) (refl, (refl, tt))

read_word-shell_quote_example : read_word outside (shell_quote (codes "it's")) ≡ some (codes "it's")
read_word-shell_quote_example = read_word-shell_quote (codes "it's")

abbrev failing : Poll
failing = (err (port_failed (codes "no server")), λ p. true)

run-three_fail_example :
    lost_count (run subscribed (failing ∷ failing ∷ failing ∷ failing ∷ [])).1 ≡ 1
unfolding three_fail all_fail
run-three_fail_example = run-three_fail (failing ∷ failing ∷ failing ∷ failing ∷ [])

sync-is_member_example :
    let s : Subscription = record {
      trackers = codes "%1" ∷ [];
      consecutive_list_failures = 2;
      lost_notified = false;
    } in
    let (s', events) = sync s (ok (codes "%2" ∷ [])) (λ p. true) in
    (is_member (codes "%1") s'.trackers ≡ (
      is_member (codes "%1") (codes "%2" ∷ [])
      && (is_member (codes "%1") (codes "%1" ∷ []) || true)))
    × (is_closed (codes "%1") events ≡ (
        is_member (codes "%1") (codes "%1" ∷ []) && not (is_member (codes "%1") (codes "%2" ∷ []))))
    × (s'.consecutive_list_failures ≡ 0)
sync-is_member_example =
    sync-is_member
      (record { trackers = codes "%1" ∷ []; consecutive_list_failures = 2; lost_notified = false })
      (codes "%2" ∷ []) (λ p. true) (codes "%1")

abbrev request : Request
request = record {
  op = codes "wait";
  pane = codes "%1";
  after = codes "abc";
  history_lines = 0;
  has_history = false;
  text = [];
  enter = false;
  keys = [];
  mode = codes "sentinel";
  sentinel_token = codes "t";
  pattern = [];
  quiet_ms = 0;
  timeout_ms = 5000;
}

abbrev no_regex : Compile
no_regex pattern = err (codes "unsupported")

abbrev arguments : List Bytes
arguments = codes "--tmux-socket" ∷ codes "/s" ∷ codes "list" ∷ codes "--x" ∷ []

-- What the command line's runs are given.
abbrev pub plain_strconv : Strconv
plain_strconv = record {
  parse_int = λ s. ok (length s);
  parse_bool = λ s. err (codes "syntax");
  quote = λ s. s;
}

abbrev pub plain_environment : Environment
plain_environment = record {
  tmux = codes "/tmp/tmux-1/default,12,0";
  xdg_runtime_dir = [];
  temp_dir = codes "/tmp";
  euid = 1;
  abs_path = λ p. ok p;
  join_path = λ a b. a ++ (codes "/" ++ b);
  mkdir_all = λ p. none;
  digest = λ p. p;
}

abbrev pub no_stop : Stopping
no_stop = record { first_ping = some (codes "refused"); shutdown_call = err []; rounds = [] }

abbrev pub no_serving : Serving
no_serving = record {
  binding = record { peer_alive = true; mkdir_error = none; bind_error = none; chmod_error = none };
  start_error = none;
  serve_error = none;
  server_lost = false;
  stops_in_time = true;
}
