-- ===== src/Cli/Subcommands/Exits.antt =====
-- The exit codes of the commands.
use tmux_pane_control.Prelude.{
  ℕ, ◌≤◌, ◌≡◌, ◌≢◌, ◌↔◌, ◌⊎◌, refl, true, false, List, [], ◌∷◌, Option, none, some, Bytes, codes,
  arith, Bool-cases, inl, inr, Result, ok, err,
}
use tmux_pane_control.Domain.{ErrorResponse}
use tmux_pane_control.Ipc.Dispatch.{Request, Response}
use tmux_pane_control.Cli.{validate_pane_id, Emitted, relay}
use tmux_pane_control.Cli.Commands.{
  Subcommand, run_list, run_snapshot, run_read, run_text, run_key, run_wait, run_daemon,
}
use tmux_pane_control.Cli.Flags.{Value, Parse, parsed, refused, help_asked}
use tmux_pane_control.Cli.Subcommands.{
  Client, Machine, Dialled, connected, bad_socket, no_daemon, dial, ask, ask_pane, with_flags,
  text_flag, relay_result,
}
use tmux_pane_control.Cli.Subcommands.Runs.{
  list_next, snapshot_next, read_next, text_next, key_next, wait_next, parsed_args, run_subcommand,
}

module _ (m : Machine) where
  -- A daemon was reached and answered some request with success.
  abbrev pub Succeeded : Type 0
  Succeeded =
      (settings : List (Bytes × Value)) × (client : Client) × (req : Request) × (limit : ℕ)
      × (resp : Response) × (dial m settings ≡ connected client)
      × (client req limit ≡ ok resp)
      × (resp.is_ok ≡ true)

  -- An exit code of 0, only behind that, or of 1.
  abbrev pub Reports : ℕ → Type 0
  Reports n = (n ≤ 1) × (n ≡ 0 → Succeeded)

  failure-Reports : Reports 1
  failure-Reports = (omega arith, λ zero. cc zero)

  relay-failed :
      (resp : Response) (e : Option ErrorResponse)
      → resp.error ≡ e
      → resp.is_ok ≡ false
      → (relay m.error_json (some resp)).exit_code ≡ 1
  unfolding relay
  relay-failed resp none h bad = rw (relay, bad, h) refl
  relay-failed resp (some e) h bad = rw (relay, bad, h) refl

  relay-Reports :
      (resp : Response)
      → (resp.is_ok ≡ true → Succeeded)
      → Reports (relay m.error_json (some resp)).exit_code
  unfolding relay
  relay-Reports resp success = elim (Bool-cases resp.is_ok) [
    | inl good ↦ rw (relay, good) (omega arith, λ zero. success good)
    | inr bad ↦ rw (relay-failed resp resp.error refl bad) failure-Reports
  ]

  called-Reports :
      (name : Bytes) (settings : List (Bytes × Value)) (client : Client) (req : Request) (limit : ℕ)
      (r : Result Bytes Response)
      → dial m settings ≡ connected client
      → client req limit ≡ r
      → Reports (relay_result m name r).exit_code
  called-Reports name settings client req limit (err e) d h = failure-Reports
  called-Reports name settings client req limit (ok resp) d h =
      relay-Reports resp (λ good. (settings, client, req, limit, resp, d, h, good))

  dialled-Reports :
      (name : Bytes) (settings : List (Bytes × Value)) (req : Request) (limit : ℕ) (d : Dialled)
      → dial m settings ≡ d
      → Reports (ask m name settings req limit).exit_code
  unfolding ask
  dialled-Reports name settings req limit (bad_socket e) h = rw (ask, h) (failure-Reports)
  dialled-Reports name settings req limit (no_daemon e) h = rw (ask, h) (failure-Reports)
  dialled-Reports name settings req limit (connected client) h =
      rw (ask, h) (called-Reports name settings client req limit (client req limit) h refl)

  pane-Reports :
      (name : Bytes) (settings : List (Bytes × Value)) (req : Request) (limit : ℕ)
      (v : Option ErrorResponse)
      → validate_pane_id (text_flag (codes "pane") settings) ≡ v
      → Reports (ask_pane m name settings req limit).exit_code
  unfolding ask_pane
  pane-Reports name settings req limit (some e) h = rw (ask_pane, h) (failure-Reports)
  pane-Reports name settings req limit none h =
      rw (ask_pane, h) (dialled-Reports name settings req limit (dial m settings) refl)

  ask-Reports :
      (name : Bytes) (settings : List (Bytes × Value)) (req : Request) (limit : ℕ)
      → Reports (ask_pane m name settings req limit).exit_code
  ask-Reports name settings req limit = pane-Reports name settings req limit _ refl

  -- What a command does behind `Parse`, with no condition.
  abbrev AlwaysReports : (List (Bytes × Value) → List Bytes → Emitted) → Type 0
  AlwaysReports next =
      (settings : List (Bytes × Value)) (args : List Bytes) → Reports (next settings args).exit_code

  list_next-Reports : AlwaysReports (list_next m)
  unfolding list_next
  list_next-Reports settings [] = dialled-Reports _ settings _ _ (dial m settings) refl
  list_next-Reports settings (a ∷ args) = failure-Reports

  snapshot_next-Reports : AlwaysReports (snapshot_next m)
  unfolding snapshot_next
  snapshot_next-Reports settings [] = ask-Reports _ settings _ _
  snapshot_next-Reports settings (a ∷ args) = failure-Reports

  read_next-Reports : AlwaysReports (read_next m)
  unfolding read_next
  read_next-Reports settings [] = ask-Reports _ settings _ _
  read_next-Reports settings (a ∷ args) = failure-Reports

  text_next-Reports : AlwaysReports (text_next m)
  unfolding text_next
  text_next-Reports settings [] = failure-Reports
  text_next-Reports settings (a ∷ []) = ask-Reports _ settings _ _
  text_next-Reports settings (a ∷ b ∷ args) = failure-Reports

  key_next-Reports : AlwaysReports (key_next m)
  unfolding key_next
  key_next-Reports settings [] = failure-Reports
  key_next-Reports settings (a ∷ args) = ask-Reports _ settings _ _

  wait_next-Reports : AlwaysReports (wait_next m)
  unfolding wait_next
  wait_next-Reports settings [] = ask-Reports _ settings _ _
  wait_next-Reports settings (a ∷ args) = failure-Reports

  -- The exit codes of a command whose flags `Parse` gave.
  abbrev pub Exits : Parse → Emitted → Type 0
  Exits p e =
      ((e.exit_code ≡ 2) ↔ ((message : Bytes) × (p ≡ refused message)))
      × (e.exit_code ≡ 0 → (p ≡ help_asked) ⊎ Succeeded)

  with_flags-Exits :
      (name : Bytes) (next : List (Bytes × Value) → List Bytes → Emitted) (p : Parse)
      → AlwaysReports next
      → Exits p (with_flags m name next p)
  with_flags-Exits name next (parsed settings args) r =
      let (low, success) = r settings args in
      (
        (λ two. let no_two : ⊥ = omega (arith, low, two) in elim no_two [ ], λ h. cc (h.1)),
        λ zero. inr (success zero),
      )
  with_flags-Exits name next (refused e) r = ((λ two. (e, refl), λ h. refl), λ zero. cc zero)
  with_flags-Exits name next help_asked r = ((λ two. cc two, λ h. cc (h.1)), λ zero. inl refl)

  -- Every command but `daemon`: it exits with 2 exactly if the flag package refuses its flags, and with 0
  -- only if help was asked for, or if a daemon was reached and answered with success.
  pub run_subcommand-Exits :
      (daemon_next : List (Bytes × Value) → List Bytes → Emitted) (sub : Subcommand)
      (args : List Bytes)
      → sub ≢ run_daemon
      → Exits (parsed_args m sub args) (run_subcommand m daemon_next sub args)
  unfolding run_subcommand
  run_subcommand-Exits daemon_next run_list args n =
      with_flags-Exits _ (list_next m) _ list_next-Reports
  run_subcommand-Exits daemon_next run_snapshot args n =
      with_flags-Exits _ (snapshot_next m) _ snapshot_next-Reports
  run_subcommand-Exits daemon_next run_read args n =
      with_flags-Exits _ (read_next m) _ read_next-Reports
  run_subcommand-Exits daemon_next run_text args n =
      with_flags-Exits _ (text_next m) _ text_next-Reports
  run_subcommand-Exits daemon_next run_key args n =
      with_flags-Exits _ (key_next m) _ key_next-Reports
  run_subcommand-Exits daemon_next run_wait args n =
      with_flags-Exits _ (wait_next m) _ wait_next-Reports
  run_subcommand-Exits daemon_next run_daemon args n = elim (n refl) [ ]
