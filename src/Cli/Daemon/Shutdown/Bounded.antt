-- ===== src/Cli/Daemon/Shutdown/Bounded.antt =====
-- When the daemon is gone.
use tmux_pane_control.Prelude.{ℕ, suc, ◌+◌, ◌≤◌, ◌≡◌, refl, ap, Option, none, some, arith}
use tmux_pane_control.Cli.Daemon.Shutdown.{
  Doing, serving, stopping, exited, Process, or_now, request_shutdown, HardPending, StopPending,
  Alive, Step, op_shutdown, signal, server_loss, serve_nil, serve_error, stop_returns, stop_expires,
  hard_exit, tick, Reach, start, later, shutdown_deadline, hard_exit_deadline,
}

abbrev pub Armed : Option ℕ → ℕ → Type 0
Armed none now = Unit
Armed (some t) now = (t ≤ now) × (now ≤ t + hard_exit_deadline)

abbrev pub Timely : Doing → Option ℕ → ℕ → Type 0
Timely serving armed now = Armed armed now
Timely (stopping t n) armed now = Armed armed now × (t ≤ now) × (now ≤ t + shutdown_deadline)
Timely (exited n) armed now = Unit

request-Armed : (armed : Option ℕ) (now : ℕ) → Armed armed now → Armed (some (or_now armed now)) now
request-Armed none now a = (omega arith, omega arith)
request-Armed (some t) now a = a

request-Timely :
    (d : Doing) (armed : Option ℕ) (now : ℕ)
    → Alive d
    → Timely d armed now
    → Timely d (some (or_now armed now)) now
request-Timely serving armed now l a = request-Armed armed now a
request-Timely (stopping t n) armed now l (a, lo, hi) = (request-Armed armed now a, lo, hi)
request-Timely (exited n) armed now l a = elim l [ ]

tick-Timely :
    (d : Doing) (armed : Option ℕ) (now : ℕ)
    → HardPending armed now
    → StopPending d now
    → Timely d armed now
    → Timely d armed (suc now)
tick-Timely serving none now h s a = tt
tick-Timely serving (some t) now h s (lo, hi) = (omega arith, omega arith)
tick-Timely (stopping t n) none now h s (a, lo, hi) = (tt, omega arith, omega arith)
tick-Timely (stopping t n) (some u) now h s ((a, b), lo, hi) =
    ((omega arith, omega arith), omega arith, omega arith)
tick-Timely (exited n) armed now h s a = elim s [ ]

Step-Timely :
    {p q : Process} → Step p q → Timely p.doing p.armed_at p.now → Timely q.doing q.armed_at q.now
unfolding request_shutdown
Step-Timely {p} (op_shutdown l) i = request-Timely p.doing p.armed_at p.now l i
Step-Timely {p} (signal l w) i = request-Timely p.doing p.armed_at p.now l i
Step-Timely {p} (server_loss l w) i = request-Timely p.doing p.armed_at p.now l i
Step-Timely {p} (serve_nil t e a) i = (rw e at i, omega arith, omega arith)
Step-Timely {p} (serve_error e) i = (rw e at i, omega arith, omega arith)
Step-Timely {p} (stop_returns t n e) i = tt
Step-Timely {p} (stop_expires t n e d) i = tt
Step-Timely {p} (hard_exit t l a d) i = tt
Step-Timely {p} (tick h s) i = tick-Timely p.doing p.armed_at p.now h s i

Reach-Timely : {p : Process} → Reach p → Timely p.doing p.armed_at p.now
Reach-Timely start = tt
Reach-Timely (later r s) = Step-Timely s (Reach-Timely r)

Alive-Armed :
    (d : Doing) (armed : Option ℕ) (now : ℕ) → Timely d armed now → Alive d → Armed armed now
Alive-Armed serving armed now i l = i
Alive-Armed (stopping t n) armed now (a, lo, hi) l = a
Alive-Armed (exited n) armed now i l = elim l [ ]

-- Steps from one state of the process to a later one.
pub data Steps (p : Process) : Process → Type 0 where
  stay : Steps p p
  more : {q r : Process} → Steps p q → Step q r → Steps p r

-- A request to shut down: the operation, a signal, or the loss of the server.
abbrev pub IsRequest : {p q : Process} → Step p q → Type 0
IsRequest (op_shutdown l) = Unit
IsRequest (signal l w) = Unit
IsRequest (server_loss l w) = Unit
IsRequest (serve_nil t e a) = ⊥
IsRequest (serve_error e) = ⊥
IsRequest (stop_returns t n e) = ⊥
IsRequest (stop_expires t n e d) = ⊥
IsRequest (hard_exit t l a d) = ⊥
IsRequest (tick h s) = ⊥

-- `Serve` returns.
abbrev pub EndsServe : {p q : Process} → Step p q → Type 0
EndsServe (serve_nil t e a) = Unit
EndsServe (serve_error e) = Unit
EndsServe (op_shutdown l) = ⊥
EndsServe (signal l w) = ⊥
EndsServe (server_loss l w) = ⊥
EndsServe (stop_returns t n e) = ⊥
EndsServe (stop_expires t n e d) = ⊥
EndsServe (hard_exit t l a d) = ⊥
EndsServe (tick h s) = ⊥

Steps-Reach : {p q : Process} → Reach p → Steps p q → Reach q
Steps-Reach r stay = r
Steps-Reach r (more ss s) = later (Steps-Reach r ss) s

Step-armed_at : {p q : Process} → (t : ℕ) → Step p q → p.armed_at ≡ some t → q.armed_at ≡ some t
unfolding request_shutdown
Step-armed_at {p} t (op_shutdown l) a = ap (λ o. some (or_now o p.now)) a
Step-armed_at {p} t (signal l w) a = ap (λ o. some (or_now o p.now)) a
Step-armed_at {p} t (server_loss l w) a = ap (λ o. some (or_now o p.now)) a
Step-armed_at t (serve_nil u e b) a = a
Step-armed_at t (serve_error e) a = a
Step-armed_at t (stop_returns u n e) a = a
Step-armed_at t (stop_expires u n e d) a = a
Step-armed_at t (hard_exit u l b d) a = a
Step-armed_at t (tick h s) a = a

Steps-armed_at : {p q : Process} → (t : ℕ) → Steps p q → p.armed_at ≡ some t → q.armed_at ≡ some t
Steps-armed_at t stay a = a
Steps-armed_at t (more ss s) a = Step-armed_at t s (Steps-armed_at t ss a)

-- A stop goes on since its time, or the process is gone.
abbrev Stops : ℕ → Doing → Type 0
Stops t serving = ⊥
Stops t (stopping u n) = u ≡ t
Stops t (exited n) = Unit

Step-Stops : {p q : Process} → (t : ℕ) → Step p q → Stops t p.doing → Stops t q.doing
unfolding request_shutdown
Step-Stops t (op_shutdown l) a = a
Step-Stops t (signal l w) a = a
Step-Stops t (server_loss l w) a = a
Step-Stops t (serve_nil u e b) a = elim (rw e at a) [ ]
Step-Stops t (serve_error e) a = elim (rw e at a) [ ]
Step-Stops t (stop_returns u n e) a = tt
Step-Stops t (stop_expires u n e d) a = tt
Step-Stops t (hard_exit u l b d) a = tt
Step-Stops t (tick h s) a = a

Steps-Stops : {p q : Process} → (t : ℕ) → Steps p q → Stops t p.doing → Stops t q.doing
Steps-Stops t stay a = a
Steps-Stops t (more ss s) a = Step-Stops t s (Steps-Stops t ss a)

or_now-le : (armed : Option ℕ) (now : ℕ) → Armed armed now → or_now armed now ≤ now
or_now-le none now a = omega arith
or_now-le (some t) now a = a.0

IsRequest-armed_at :
    {p q : Process}
    → (s : Step p q) → IsRequest s
    → Timely p.doing p.armed_at p.now
    → (t : ℕ) × (t ≤ p.now) × (q.armed_at ≡ some t)
unfolding request_shutdown
IsRequest-armed_at {p} (op_shutdown l) h i =
    (_, or_now-le p.armed_at p.now (Alive-Armed p.doing p.armed_at p.now i l), refl)
IsRequest-armed_at {p} (signal l w) h i =
    (_, or_now-le p.armed_at p.now (Alive-Armed p.doing p.armed_at p.now i l), refl)
IsRequest-armed_at {p} (server_loss l w) h i =
    (_, or_now-le p.armed_at p.now (Alive-Armed p.doing p.armed_at p.now i l), refl)
IsRequest-armed_at (serve_nil t e a) h i = elim h [ ]
IsRequest-armed_at (serve_error e) h i = elim h [ ]
IsRequest-armed_at (stop_returns t n e) h i = elim h [ ]
IsRequest-armed_at (stop_expires t n e d) h i = elim h [ ]
IsRequest-armed_at (hard_exit t l a d) h i = elim h [ ]
IsRequest-armed_at (tick a b) h i = elim h [ ]

EndsServe-Stops : {p q : Process} → (s : Step p q) → EndsServe s → Stops p.now q.doing
EndsServe-Stops (serve_nil t e a) h = refl
EndsServe-Stops (serve_error e) h = refl
EndsServe-Stops (op_shutdown l) h = elim h [ ]
EndsServe-Stops (signal l w) h = elim h [ ]
EndsServe-Stops (server_loss l w) h = elim h [ ]
EndsServe-Stops (stop_returns t n e) h = elim h [ ]
EndsServe-Stops (stop_expires t n e d) h = elim h [ ]
EndsServe-Stops (hard_exit t l a d) h = elim h [ ]
EndsServe-Stops (tick a b) h = elim h [ ]

Stops-bounded :
    (d : Doing) (armed : Option ℕ) (t now : ℕ)
    → Stops t d
    → Timely d armed now
    → Alive d
    → now ≤ t + shutdown_deadline
Stops-bounded serving armed t now s i l = elim s [ ]
Stops-bounded (stopping u n) armed t now s i l = omega (arith, s, i.2)
Stops-bounded (exited n) armed t now s i l = elim l [ ]

-- Behind a step of any reachable state of the daemon, and whatever steps follow it, further requests to
-- shut down among them: if the step is a request to shut down, be it the operation, a signal or the loss
-- of the server, the process is not there any more when three seconds have passed since; and if `Serve`
-- returns in the step, it is not there when two seconds have passed since. The condition is that a timer
-- which is due runs before the clock goes on.
pub shutdown_bounded :
    {p q r : Process}
    → Reach p
    → (s : Step p q) → Steps q r
    → Alive r.doing
    → (IsRequest s → r.now ≤ p.now + hard_exit_deadline)
      × (EndsServe s → r.now ≤ p.now + shutdown_deadline)
shutdown_bounded {p} {q} {r} reach s ss l =
    let i = Reach-Timely (Steps-Reach (later reach s) ss) in
    (
      (λ h.
          let (t, before, armed) = IsRequest-armed_at s h (Reach-Timely reach) in
          let bound =
            rw (Steps-armed_at t ss armed) at (Alive-Armed r.doing r.armed_at r.now i l) in
          omega (arith, before, bound.1)),
      (λ h.
          Stops-bounded r.doing r.armed_at p.now r.now (Steps-Stops p.now ss (EndsServe-Stops s h))
            i l),
    )
