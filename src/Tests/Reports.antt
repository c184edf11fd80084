-- ===== src/Tests/Reports.antt =====
-- A run of `wait --for sentinel`, from the command line to what it prints.
use tmux_pane_control.Prelude.{
  ◌≡◌, refl, true, List, [], ◌∷◌, ◌++◌, none, Bytes, bytes_eq, has_prefix, codes, arith, ok, err,
}
use tmux_pane_control.Prelude.Int64.{leb64, ltb64}
use tmux_pane_control.Prelude.Dict.{lookup}
use tmux_pane_control.Textnorm.{has_byte, strip_ansi_and_cr, strip_ansi}
use tmux_pane_control.Token.{encode_token}
use tmux_pane_control.Token.Base64.{encode_to_string}
use tmux_pane_control.Store
use tmux_pane_control.Store.{new, new_token}
use tmux_pane_control.Store.Spec.{no_streams}
use tmux_pane_control.Store.Checkpoint.{appended}
use tmux_pane_control.Store.Refine.{apply_all}
use tmux_pane_control.Waiter.{decimal_from}
use tmux_pane_control.Controller.Wait.{validate, validate_mode, validate_sentinel_token, wait}
use tmux_pane_control.Controller.Wait.Rounds.Found.{Finds}
use tmux_pane_control.Ipc.Dispatch.{Payloads, Meets}
use tmux_pane_control.Ipc.Wire.{call}
use tmux_pane_control.Ipc.Wire.Call.{serving}
use tmux_pane_control.Ipc.Socket.{resolve_tmux_socket}
use tmux_pane_control.Cli.{validate_pane_id}
use tmux_pane_control.Cli.Flags.{text_kind, int_kind, text_value, int_value, set_value, last_set}
use tmux_pane_control.Cli.Flags.Pieces.{
  Piece, valued, assigned, arguments_of, settings_of, positionals_of,
}
use tmux_pane_control.Cli.Subcommands.Sets.{wait_flags, common_bools}
use tmux_pane_control.Cli.Program.{Installation, app_run}
use tmux_pane_control.Cli.Program.Wait.{printed}
use tmux_pane_control.Cli.Program.Reported.{sentinel_wait, app_run-wait_sentinel}
use tmux_pane_control.Tests.Codec.{wire_codec}
use tmux_pane_control.Tests.Sample.{codec, put, instance_name, pane, instance_plain}
use tmux_pane_control.Tests.Waits.{empty, empty-Tracks, half_printed, rounds_fit}
use tmux_pane_control.Tests.Waits
use tmux_pane_control.Tests.Programs.{installation, payloads, meets, eof}

abbrev token : Bytes
token = (new_token codec empty pane 4).1

abbrev pieces : List Piece
pieces =
    valued (codes "timeout-ms") (codes "!") (int_value 1)
    ∷ valued (codes "pane") (codes "%1") (text_value (codes "%1"))
    ∷ valued (codes "after") token (text_value token)
    ∷ assigned (codes "token") (codes "t") (text_value (codes "t"))
    ∷ valued (codes "for") (codes "sentinel") (text_value (codes "sentinel"))
    ∷ []

abbrev answers : Payloads
answers = record payloads { wait_json = λ w. codes "{}" }

abbrev meets_rounds : Meets
meets_rounds = record meets { schedule = half_printed ∷ Waits.printed ∷ [] }

abbrev waiting : Installation
waiting = record installation {
  machine = record installation.machine {
    ensure_daemon = λ socket. ok (λ req limit.
        call wire_codec
          (ok (
            serving wire_codec codec answers (λ p. err []) 7 true (new_token codec empty pane 4).0
              meets_rounds eof []))
          req);
  };
}

app_run-wait_sentinel_example :
    (f : Finds codec
      (sentinel_wait (settings_of pieces))
      instance_name
      []
      (codes "x__DONE__:t:7\n")
      (wait codec
        (sentinel_wait (settings_of pieces))
        (new_token codec empty pane 4).0
        (half_printed ∷ Waits.printed ∷ [])).1)
    × (app_run waiting (codes "wait" ∷ (arguments_of pieces ++ [])) ≡ printed (codes "{}"))
unfolding wire_codec positionals_of settings_of last_set validate_pane_id bytes_eq has_prefix
    resolve_tmux_socket wait_flags common_bools has_byte set_value new appended strip_ansi_and_cr
    strip_ansi decimal_from new_token apply_all leb64 ltb64 validate validate_mode
    validate_sentinel_token encode_token encode_to_string put lookup Store.buffer_locked
app_run-wait_sentinel_example =
    app_run-wait_sentinel waiting wire_codec codec answers (λ p. err []) 7 true meets_rounds eof
      empty no_streams 4 [] (half_printed ∷ []) Waits.printed [] pieces none
      (codes "/tmp/tmux-1/default") (codes "x") (codes "7") (codes "\n")
      (
        (int_kind, (omega arith, refl), refl, λ same. cc same, refl, refl),
        (
          (text_kind, (omega arith, refl), refl, λ same. cc same, refl, refl),
          (
            (text_kind, (omega arith, refl), refl, λ same. cc same, refl, refl),
            (
              (text_kind, (omega arith, refl), refl, refl),
              ((text_kind, (omega arith, refl), refl, λ same. cc same, refl, refl), tt),
            ),
          ),
        ),
      )
      refl refl refl refl
      (ground arith, ground arith, ground arith, ground arith, tt, omega arith, omega arith) tt
      (λ w. tt) (λ w. refl) refl refl refl empty-Tracks instance_plain (omega arith) refl refl
      (tt, tt) tt rounds_fit (omega arith) refl (refl, tt) refl refl (omega arith)
