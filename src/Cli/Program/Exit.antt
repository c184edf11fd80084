-- ===== src/Cli/Program/Exit.antt =====
-- The exit code of `text`, against what tmux does with their commands.
use tmux_pane_control.Prelude.{
  ℕ, ◌≡◌, ◌↔◌, refl, sym, ◌++◌, List, [], ◌∷◌, codes, bytes_eq, Bool, true, false, Option, none,
  some, Bytes, Result, ok, err,
}
use tmux_pane_control.Domain.{ErrorResponse, HandlerError, command, runtime}
use tmux_pane_control.Tmuxctl.Adapter
use tmux_pane_control.Tmuxctl.Adapter.{Opts, Tmux, cmd, text_args, enter_args}
use tmux_pane_control.Tmuxctl.Adapter.Implements.{adapter_port}
use tmux_pane_control.Controller
use tmux_pane_control.Token.{Json}
use tmux_pane_control.Store.{Store}
use tmux_pane_control.Ipc.Dispatch.{
  Request, Payloads, Compile, Meets, dispatch, done_or_err, classify_err,
}
use tmux_pane_control.Cli.{relay}

-- The exit code of a command without a payload.
abbrev pub exit_of : (ErrorResponse → Bytes) → Result HandlerError (Unit {0}) → ℕ
exit_of to_json r = (relay to_json (some (done_or_err r))).exit_code

exit_of-err : (to_json : ErrorResponse → Bytes) (e : HandlerError) → exit_of to_json (err e) ≡ 1
unfolding relay done_or_err classify_err
exit_of-err to_json (command e) = refl
exit_of-err to_json (runtime text) = refl

exit_of-ok : (to_json : ErrorResponse → Bytes) → exit_of to_json (ok tt) ≡ 0
unfolding relay done_or_err
exit_of-ok to_json = refl

-- The options by which tmux is told its socket.
abbrev pub socket_options : Bytes → Bytes → List Bytes
socket_options [] [] = []
socket_options [] (c ∷ name) = codes "-L" ∷ (c ∷ name) ∷ []
socket_options (c ∷ path) [] = codes "-S" ∷ (c ∷ path) ∷ []
socket_options (c ∷ path) (d ∷ name) = codes "-S" ∷ (c ∷ path) ∷ codes "-L" ∷ (d ∷ name) ∷ []

cmd-socket_options :
    (path name : Bytes) (args : List Bytes)
    → cmd (record { socket_path = path; socket_name = name }) args
      ≡ socket_options path name ++ args
unfolding cmd
cmd-socket_options [] [] args = refl
cmd-socket_options [] (c ∷ name) args = refl
cmd-socket_options (c ∷ path) [] args = refl
cmd-socket_options (c ∷ path) (d ∷ name) args = refl

module _ (opts : Opts) (tmux tmux' : Tmux) where
  -- tmux, at the two times at which `text` runs it, takes the commands.
  abbrev pub TextDone : Bytes → Bytes → Bool → Type 0
  TextDone id text enter =
      let socket = socket_options opts.socket_path opts.socket_name in
      let send_text = codes "send-keys" ∷ codes "-l" ∷ codes "-t" ∷ id ∷ codes "--" ∷ text ∷ [] in
      let send_enter = codes "send-keys" ∷ codes "-t" ∷ id ∷ codes "--" ∷ codes "Enter" ∷ [] in
      ((tmux (socket ++ send_text)).failure ≡ none)
      × (enter ≡ true → (tmux' (socket ++ send_enter)).failure ≡ none)

module _ (to_json : ErrorResponse → Bytes) (opts : Opts) (tmux tmux' : Tmux) where
  sent-exit :
      (id text : Bytes) (enter : Bool) (f g : Option Bytes)
      → (tmux (text_args opts id text)).failure ≡ f
      → (tmux' (enter_args opts id)).failure ≡ g
      → (exit_of to_json (Controller.send_text (adapter_port opts tmux tmux') id text enter) ≡ 0)
        ↔ (((tmux (text_args opts id text)).failure ≡ none)
            × (enter ≡ true → (tmux' (enter_args opts id)).failure ≡ none))
  unfolding Controller.send_text Adapter.send_text Adapter.send_enter
  sent-exit id text enter (some e) g p q =
      let one : exit_of to_json (Controller.send_text (adapter_port opts tmux tmux') id text enter)
          ≡ 1 =
        rw (Controller.send_text, Adapter.send_text, p) (exit_of-err to_json _) in
      (λ z. cc (one, z), λ d. cc (p, d.0))
  sent-exit id text false none g p q = (
    λ z. (p, λ on. cc on),
    λ d. rw (Controller.send_text, Adapter.send_text, p) (exit_of-ok to_json),
  )
  sent-exit id text true none none p q = (
    λ z. (p, λ on. q),
    λ d.
        rw (Controller.send_text, Adapter.send_text, p, Adapter.send_enter, q) (exit_of-ok to_json),
  )
  sent-exit id text true none (some e) p q =
      let one : exit_of to_json (Controller.send_text (adapter_port opts tmux tmux') id text true)
          ≡ 1 =
        rw (Controller.send_text, Adapter.send_text, p, Adapter.send_enter, q)
          (exit_of-err to_json _) in
      (λ z. cc (one, z), λ d. cc (q, d.1 refl))

  -- A request for `text` in the daemon, whose port is the tmux adapter: the exit code that the program
  -- gives for the dispatch's response is 0 exactly if tmux succeeds with the arguments `send-keys -l`, the
  -- pane, `--` and the payload, behind the options for its socket, and, if an Enter is asked for, with
  -- those of the `send-keys` for Enter behind it. What tmux does with the arguments is not said.
  pub send_text-exit_code :
      (json : Json) (payloads : Payloads) (compile : Compile) (req : Request) (s : Store)
      (x : Meets)
      → req.op ≡ codes "text"
      → x.port ≡ adapter_port opts tmux tmux'
      → ((relay to_json (dispatch json payloads compile req s x).1).exit_code ≡ 0)
        ↔ TextDone opts tmux tmux' req.pane req.text req.enter
  unfolding dispatch bytes_eq
  send_text-exit_code json payloads compile req s x op port =
      rw
        (
          op,
          dispatch,
          port,
          sym (
              cmd-socket_options opts.socket_path opts.socket_name (
                codes "send-keys"
                ∷ codes "-l"
                ∷ codes "-t"
                ∷ req.pane
                ∷ codes "--"
                ∷ req.text
                ∷ [])),
          sym (
              cmd-socket_options opts.socket_path opts.socket_name
                (codes "send-keys" ∷ codes "-t" ∷ req.pane ∷ codes "--" ∷ codes "Enter" ∷ [])),
        )
        (sent-exit req.pane req.text req.enter _ _ refl refl)
