-- ===== src/Ipc/Server/Life.antt =====
-- What holds of a server at every time, however its goroutines interleave.
use tmux_pane_control.Prelude.{ℕ, ◌-◌, ◌≡◌, refl, Bool, true, false, Bool-cases, inl, inr, arith}
use tmux_pane_control.Ipc.Server.{
  Serving, accepting, draining, returned_nil, returned_error, Closing, untouched, flagged, unlinked,
  unlistened, removed, Server, accept_failed, close_flag, Step, accept, connection_done,
  accept_error, close, unlink_socket, close_listener, remove_socket, drained, Reach, start, later,
}

-- The flag, the listener and the socket file against the progress of `Close`.
abbrev pub Follows : Closing → Bool → Bool → Bool → Type 0
Follows untouched closed listening file = (closed ≡ false) × (listening ≡ true) × (file ≡ true)
Follows flagged closed listening file = (closed ≡ true) × (listening ≡ true) × (file ≡ true)
Follows unlinked closed listening file = (closed ≡ true) × (listening ≡ true) × (file ≡ false)
Follows unlistened closed listening file = (closed ≡ true) × (listening ≡ false) × (file ≡ false)
Follows removed closed listening file = (closed ≡ true) × (listening ≡ false) × (file ≡ false)

-- `Serve` waits for its handlers, and returns without an error, only behind `Close`.
abbrev pub Waits : Serving → Bool → ℕ → Type 0
Waits accepting closed n = Unit
Waits draining closed n = closed ≡ true
Waits returned_nil closed n = (closed ≡ true) × (n ≡ 0)
Waits returned_error closed n = Unit

pub record Inv (s : Server) : Type 0 where
  pub follows : Follows s.closing s.closed s.listening s.socket_file
  pub waits : Waits s.serving s.closed s.accept_wait

flag-Follows :
    {f : Bool} → {l : Bool} → (c : Closing) → Follows c false l f → Follows flagged true l f
flag-Follows untouched (c, l, f) = (refl, l, f)
flag-Follows flagged (c, l, f) = (refl, l, f)
flag-Follows unlinked (c, l, f) = cc
flag-Follows unlistened (c, l, f) = cc
flag-Follows removed (c, l, f) = cc

unlinked-closed : {b : Bool} → (l : Bool) → (c : Closing) → Follows c b l false → b ≡ true
unlinked-closed l untouched (c, m, g) = cc
unlinked-closed l flagged (c, m, g) = c
unlinked-closed l unlinked (c, m, g) = c
unlinked-closed l unlistened (c, m, g) = c
unlinked-closed l removed (c, m, g) = c

unlistened-unlinked : {f : Bool} → (b : Bool) → (c : Closing) → Follows c b false f → f ≡ false
unlistened-unlinked b untouched (c, l, g) = cc
unlistened-unlinked b flagged (c, l, g) = cc
unlistened-unlinked b unlinked (c, l, g) = cc
unlistened-unlinked b unlistened (c, l, g) = g
unlistened-unlinked b removed (c, l, g) = g

pred-Waits : (b : Bool) → (n : ℕ) → (v : Serving) → Waits v b n → Waits v b (n - 1)
pred-Waits b n accepting w = w
pred-Waits b n draining w = w
pred-Waits b n returned_nil (l, z) = (l, omega arith)
pred-Waits b n returned_error w = w

flag-Waits : (b : Bool) → (n : ℕ) → (v : Serving) → Waits v b n → Waits v true n
flag-Waits b n accepting w = w
flag-Waits b n draining w = refl
flag-Waits b n returned_nil (l, z) = (refl, z)
flag-Waits b n returned_error w = w

Step-Inv : {s t : Server} → Step s t → Inv s → Inv t
unfolding accept_failed close_flag
Step-Inv (accept p q) i = record { follows = i.follows; waits = rw p tt }
Step-Inv {s} (connection_done p) i = record {
  follows = i.follows;
  waits = pred-Waits s.closed s.accept_wait s.serving i.waits;
}
Step-Inv {s} (accept_error p) i = elim (Bool-cases s.closed) [
  | inl c ↦ rw (accept_failed, c) (record { follows = rw c at (i.follows); waits = refl })
  | inr o ↦ rw (accept_failed, o) (record { follows = rw o at (i.follows); waits = tt })
]
Step-Inv {s} close i = elim (Bool-cases s.closed) [
  | inl c ↦ rw (close_flag, c) (record { follows = rw c at (i.follows); waits = rw c at (i.waits) })
  | inr o ↦
      rw (close_flag, o)
        (record {
          follows = flag-Follows s.closing (rw o at (i.follows));
          waits = flag-Waits s.closed s.accept_wait s.serving i.waits;
        })
]
Step-Inv {s} (unlink_socket p) i =
    let (c, l, f) = rw p at (i.follows) in record { follows = (c, l, refl); waits = i.waits }
Step-Inv {s} (close_listener p) i =
    let (c, l, f) = rw p at (i.follows) in record { follows = (c, refl, f); waits = i.waits }
Step-Inv (remove_socket p) i =
    let (c, l, f) = rw p at (i.follows) in record { follows = (c, l, refl); waits = i.waits }
Step-Inv (drained p q) i = record { follows = i.follows; waits = (rw p at (i.waits), q) }

Reach-Inv : {s : Server} → Reach s → Inv s
Reach-Inv start = record { follows = (refl, refl, refl); waits = tt }
Reach-Inv (later r p) = Step-Inv p (Reach-Inv r)

-- Whatever the order of accepted and finished connections, failures of `Accept` and calls of `Close`: when
-- `Serve` has returned without an error, `Close` has been called and no connection is being handled any
-- more; when the socket file is gone, the flag is set, so that a failure of `Accept` from then on makes
-- `Serve` wait for its handlers and not return an error; and when the listener's descriptor is closed, the
-- socket file is gone.
pub served-done :
    {s : Server}
    → Reach s
    → (s.serving ≡ returned_nil → (s.closed ≡ true) × (s.accept_wait ≡ 0))
      × (s.socket_file ≡ false → (accept_failed s).serving ≡ draining)
      × (s.listening ≡ false → s.socket_file ≡ false)
unfolding accept_failed
served-done {s} r =
    let i = Reach-Inv r in
    (
      (λ e. rw e at (i.waits)),
      (λ e. rw (accept_failed, unlinked-closed s.listening s.closing (rw e at (i.follows))) refl),
      (λ e. unlistened-unlinked s.closed s.closing (rw e at (i.follows))),
    )
