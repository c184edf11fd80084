-- ===== src/Cli/Program/Reported.antt =====
-- The command `wait --for sentinel` through the whole program, up to what it prints.
use tmux_pane_control.Prelude.{
  ℕ, ◌≤◌, ◌<◌, ◌≡◌, refl, ap, ◌∙◌, Bool, false, List, [], ◌*◌, ◌%◌, subst, sym, ◌∷◌, ◌++◌, Option,
  none, Bytes, is_empty, length, codes, ok,
}
use tmux_pane_control.Prelude.Int64.{two63, two64, leb64}
use tmux_pane_control.Token.{Json}
use tmux_pane_control.Token.Base64.{Below}
use tmux_pane_control.Store
use tmux_pane_control.Store.{Store}
use tmux_pane_control.Store.Spec
use tmux_pane_control.Store.Spec.{Streams, so_far, Op, AllFit}
use tmux_pane_control.Store.Refine.{Tracks, apply_all}
use tmux_pane_control.Store.Checkpoint.{appended, Keeps}
use tmux_pane_control.Textnorm.{strip_ansi_and_cr}
use tmux_pane_control.Waiter.{sentinel_marker, decimal}
use tmux_pane_control.Waiter.Sentinel.{AllDigits, starts_with_digit}
use tmux_pane_control.Domain.{ErrorResponse, WaitResponse}
use tmux_pane_control.Controller.Wait.{WaitRequest, sentinel, Round, matched, wait, validate}
use tmux_pane_control.Controller.Wait.Ends.{is_done}
use tmux_pane_control.Controller.Wait.Rounds.Calls.{AllGoOn}
use tmux_pane_control.Controller.Wait.Rounds.Found.{Finds}
use tmux_pane_control.Controller.Wait.Rounds.{calls_between, wait-sentinel_rounds}
use tmux_pane_control.Ipc.Dispatch.{Payloads, Compile, Meets}
use tmux_pane_control.Ipc.Wire.{WireJson, call}
use tmux_pane_control.Ipc.Wire.Call.{serving}
use tmux_pane_control.Ipc.Socket.{resolve_tmux_socket}
use tmux_pane_control.Cli.{validate_pane_id, Emitted}
use tmux_pane_control.Cli.Flags.{Value}
use tmux_pane_control.Cli.Flags.Pieces.{Piece, arguments_of, settings_of, positionals_of}
use tmux_pane_control.Cli.Flags.Pieces
use tmux_pane_control.Cli.Flags.Reordered.{tail_args, tail_positionals}
use tmux_pane_control.Cli.Subcommands.Sets.{wait_flags, common_bools}
use tmux_pane_control.Cli.Subcommands.{text_flag, int_flag}
use tmux_pane_control.Cli.Program.{Installation, app_run}
use tmux_pane_control.Cli.Program.Wait.{
  Answers, on_match, PlainOutcome, PlainFlags, printed, for_sentinel, app_run-wait,
}

-- The wait that `--for sentinel` asks the controller for.
abbrev pub sentinel_wait : List (Bytes × Value) → WaitRequest
sentinel_wait settings = record {
  pane_id = text_flag (codes "pane") settings;
  after = text_flag (codes "after") settings;
  timeout_ns = (int_flag 0 (codes "timeout-ms") settings * 1000000) % two64;
  mode = sentinel;
  sentinel_token = text_flag (codes "token") settings;
  quiet_window = (int_flag 0 (codes "ms") settings * 1000000) % two64;
  regex_find = none;
}

Answers-matched :
    (payloads : Payloads) (to_json : ErrorResponse → Bytes) (ctx_error : Bytes) (w : WaitResponse)
    (x : Emitted)
    → Answers payloads to_json ctx_error (matched w) x
    → x ≡ printed (payloads.wait_json w)
Answers-matched payloads to_json ctx_error w x (on_match v) = refl

module _ (i : Installation) (wire : WireJson) (json : Json) (payloads : Payloads)
    (compile : Compile) (pid : ℕ) (has_shutdown : Bool) (x : Meets) (end : Bytes) (s : Store)
    (m : Streams) (minted : ℕ) (ops : List Op) (earlier : List Round) (r : Round) (rs : List Round)
    (ps : List Piece) where
  abbrev pane : Bytes
  pane = text_flag (codes "pane") (settings_of ps)

  -- The store of the daemon when the request reaches it.
  abbrev meanwhile : Store
  meanwhile = apply_all json (Store.new_token json s pane minted).0 ops

  -- The bytes of the pane from the token to the read of round `r`.
  abbrev since : Bytes
  since = appended pane (calls_between pane ops earlier r)

  -- The command line `wait --for sentinel` with its flags in any order, whose `--after` is a token that the
  -- daemon minted for the pane before any calls: if the stripped text of the pane from the token to the read
  -- of some round holds the marker of `--token` with a whole run of digits whose number an int holds, and the
  -- rounds before it go on, the program exits with 0 and prints the JSON of a response, which
  -- carries the first match in the text read, among the literals whose number an int holds, and the token
  -- for the end of all the text read, not of the match. Conditions are those of
  -- the wait: no call forgets the pane, the buffer keeps all since the token, and no stream grows to 2^63
  -- bytes; and those of the way to it: the flags are written with two dashes and well formed with a
  -- positive timeout, the pane is a pane id, the tmux socket resolves, the daemon is reached, the texts of
  -- the flags are ASCII and their numbers ones that an int holds, and JSON bodies are carried by the wire and not empty.
  pub app_run-wait_sentinel :
      (tail : Option (List Bytes)) (tmux_socket before ds after : Bytes)
      → Pieces.AllFit i.machine.strconv wait_flags common_bools ps
      → positionals_of ps ++ tail_positionals tail ≡ []
      → validate_pane_id pane ≡ none
      → resolve_tmux_socket i.machine.env
          (text_flag (codes "tmux-socket") (settings_of ps))
          (text_flag (codes "tmux-socket-name") (settings_of ps))
        ≡ ok tmux_socket
      → i.machine.ensure_daemon tmux_socket
        ≡ ok (λ req limit.
          call wire
            (ok (serving wire json payloads compile pid has_shutdown meanwhile x end []))
            req)
      → PlainFlags (settings_of ps)
      → wire.IsBody []
      → ((w : WaitResponse) → wire.IsBody (payloads.wait_json w))
      → ((w : WaitResponse) → is_empty (payloads.wait_json w) ≡ false)
      → text_flag (codes "for") (settings_of ps) ≡ codes "sentinel"
      → leb64 (int_flag 0 (codes "timeout-ms") (settings_of ps)) 0 ≡ false
      → x.schedule ≡ earlier ++ (r ∷ rs)
      → Tracks s m
      → Below 128 s.instance_id
      → minted < two64
      → validate (sentinel_wait (settings_of ps)) ≡ none
      → text_flag (codes "after") (settings_of ps) ≡ (Store.new_token json s pane minted).1
      → AllGoOn earlier
      → Keeps pane (calls_between pane ops earlier r)
      → AllFit two63 (Spec.ensure m pane) (calls_between pane ops earlier r)
      → length since ≤ s.capacity
      → strip_ansi_and_cr since
        ≡ before ++ (sentinel_marker (text_flag (codes "token") (settings_of ps)) ++ (ds ++ after))
      → AllDigits ds
      → is_empty ds ≡ false
      → starts_with_digit after ≡ false
      → decimal ds < two63
      → (f : Finds json
          (sentinel_wait (settings_of ps))
          s.instance_id
          (so_far (m pane))
          since
          (wait json (sentinel_wait (settings_of ps)) meanwhile (earlier ++ (r ∷ rs))).1)
        × (app_run i (codes "wait" ∷ (arguments_of ps ++ tail_args tail))
            ≡ printed (payloads.wait_json f.response))
  app_run-wait_sentinel tail tmux_socket before ds after fit empty valid socket daemon plain
        none_body body full mode positive schedule k pi w v token go keeps fits short text digits
        some_digit stops small =
      let wr = sentinel_wait (settings_of ps) in
      let f =
        wait-sentinel_rounds json wr s m minted ops earlier r rs before ds after k pi plain.0 w v
          refl token go keeps fits short text digits some_digit stops small in
      let ends : (wait json wr meanwhile x.schedule).1 ≡ matched f.response =
        ap (λ l. (wait json wr meanwhile l).1) schedule ∙ f.ends in
      let answers =
        app_run-wait i wire json payloads compile pid has_shutdown meanwhile x end ps tail
          tmux_socket wr fit empty valid socket daemon plain full none_body
          (for_sentinel positive mode)
          (subst (PlainOutcome wire.IsBody payloads x.ctx_error) (sym ends) (body f.response))
          (ap is_done ends) in
      (
        f,
        Answers-matched payloads i.machine.error_json x.ctx_error f.response _ (
            subst
              (λ o.
                Answers payloads i.machine.error_json x.ctx_error o
                  (app_run i (codes "wait" ∷ (arguments_of ps ++ tail_args tail))))
              ends answers),
      )
