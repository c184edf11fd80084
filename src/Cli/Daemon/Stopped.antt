-- ===== src/Cli/Daemon/Stopped.antt =====
-- When `daemon --stop` says that the daemon is gone.
use tmux_pane_control.Prelude.{
  ℕ, ◌≡◌, ◌↔◌, ◌⊎◌, refl, sym, ◌∙◌, Bool, true, false, not, ◌&&◌, ◌||◌, List, [], ◌∷◌, Option, none,
  some, Bytes, arith, inl, inr, Result, ok, err,
}
use tmux_pane_control.Ipc.Dispatch.{Response}
use tmux_pane_control.Cli.Daemon.{
  StopRound, StopState, has_pid, stop_round, stop_loop, stop_result, Stopping, stop_begin,
  after_shutdown, run_daemon_stop,
}

-- In some round the socket did not answer; in some round the process was not there.
unfoldable pub some_ping_fails : List StopRound → Bool
some_ping_fails [] = false
some_ping_fails (r ∷ rs) = not r.ping_ok || some_ping_fails rs

unfoldable pub some_kill_fails : List StopRound → Bool
some_kill_fails [] = false
some_kill_fails (r ∷ rs) = not r.kill_ok || some_kill_fails rs

stop_loop-gone :
    (pid : ℕ) (g : StopState) (rs : List StopRound)
    → ((stop_loop pid g rs).sock_gone && (stop_loop pid g rs).process_gone) ≡ (
        (g.sock_gone || some_ping_fails rs)
        && (g.process_gone || (has_pid pid && some_kill_fails rs)))
unfolding stop_loop stop_round some_ping_fails some_kill_fails
stop_loop-gone pid g [] = ground arith
stop_loop-gone pid g (r ∷ rs) =
    let rest = stop_loop-gone pid (stop_round pid g r) rs in ground (arith, rest)

stop_result-zero :
    (pid : ℕ) (g : StopState)
    → ((stop_result pid g).exit_code ≡ 0) ↔ ((g.sock_gone && g.process_gone) ≡ true)
unfolding stop_result
stop_result-zero pid g = ground arith

-- The process of a response with a process id was not there in some round; without one, that is not asked.
abbrev pub ProcessGone : Response → List StopRound → Type 0
ProcessGone resp rounds = (has_pid resp.pid ≡ true → some_kill_fails rounds ≡ true)

gone_lem :
    (pid kill ping : Bool)
    → ((ping && (not pid || (pid && kill))) ≡ true) ↔ ((ping ≡ true) × (pid ≡ true → kill ≡ true))
gone_lem false kill ping = ground arith
gone_lem true kill ping = ground arith

after_shutdown-zero :
    (resp : Response) (rounds : List StopRound)
    → ((after_shutdown (ok resp) rounds).exit_code ≡ 0)
      ↔ ((some_ping_fails rounds ≡ true) × ProcessGone resp rounds)
unfolding after_shutdown
after_shutdown-zero resp rounds =
    let looped = stop_loop-gone resp.pid (stop_begin resp.pid) rounds in
    let result = stop_result-zero resp.pid (stop_loop resp.pid (stop_begin resp.pid) rounds) in
    let gone = gone_lem (has_pid resp.pid) (some_kill_fails rounds) (some_ping_fails rounds) in
    (λ h. gone.0 (sym looped ∙ result.0 h), λ h. result.1 (looped ∙ gone.1 h))

stopped-zero :
    (x : Stopping) (p : Option Bytes) (c : Result Bytes Response)
    → x.first_ping ≡ p
    → x.shutdown_call ≡ c
    → ((run_daemon_stop x).exit_code ≡ 0)
      ↔ ((e : Bytes) × (x.first_ping ≡ some e))
        ⊎ ((resp : Response) × (x.first_ping ≡ none)
            × (x.shutdown_call ≡ ok resp)
            × (some_ping_fails x.rounds ≡ true)
            × ProcessGone resp x.rounds)
unfolding run_daemon_stop
stopped-zero x (some e) c hp hc = (λ h. inl (e, hp), λ h. rw (run_daemon_stop, hp) refl)
stopped-zero x none (err e) hp hc = (
  λ h. cc (rw (run_daemon_stop, hp, hc) at h),
  λ h. elim h [ inl (e', he) ↦ cc (hp, he) | inr (resp, hn, hr, f, g) ↦ cc (hc, hr) ],
)
stopped-zero x none (ok resp) hp hc =
    let (out, back) = after_shutdown-zero resp x.rounds in
    (
      (λ h. let (f, g) = out (rw (run_daemon_stop, hp, hc) at h) in inr (resp, hp, hc, f, g)),
      (λ h. elim h [
        | inl (e', he) ↦ cc (hp, he)
        | inr (resp', hn, hr, f, g) ↦
            let same : resp' ≡ resp = cc (hc, hr) in
            rw (run_daemon_stop, hp, hc) (back (f, rw same at g))
      ]),
    )

-- `daemon --stop` exits with 0 exactly if the first ping found no daemon, or the daemon acknowledged the
-- shutdown, in some round before the deadline its socket did not answer, and in some round, not
-- necessarily the same, the process was not there, if the daemon reported a process id.
pub run_daemon_stop-zero :
    (x : Stopping)
    → ((run_daemon_stop x).exit_code ≡ 0)
      ↔ ((e : Bytes) × (x.first_ping ≡ some e))
        ⊎ ((resp : Response) × (x.first_ping ≡ none)
            × (x.shutdown_call ≡ ok resp)
            × (some_ping_fails x.rounds ≡ true)
            × ProcessGone resp x.rounds)
run_daemon_stop-zero x = stopped-zero x x.first_ping x.shutdown_call refl refl
