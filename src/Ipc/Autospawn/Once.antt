-- ===== src/Ipc/Autospawn/Once.antt =====
-- At most one process starts a daemon at a time, and no more than one daemon is started unless something
-- goes wrong.
use tmux_pane_control.Prelude.{
  ℕ, suc, ◌+◌, ◌≤◌, ◌≡◌, refl, Bool, true, false, if◌then◌else◌, none, arith,
}
use tmux_pane_control.Ipc.Autospawn.{
  Stage, pinging, opening, locking, rechecking, locating, launching, polling, ready, gave_up,
  Outcome, succeeds, fails, expires, advance, holds_lock, Pings, first, recheck, poll, World,
  lock_after, go, mishap, Step, answered, unanswered, missed, expired, opened, locked, lock_failed,
  located, launched, launch_failed, died, bound, refused, start_failed, ended, Reach, start, later,
}
use tmux_pane_control.Ipc.Autospawn.Lock.{LockInv, phase, go-LockInv, phase-go, phase-holds}

-- What may have been spawned besides what the mishaps account for.
unfoldable pub allowance : Bool → Stage → ℕ
allowance up polling = 1
allowance up locating = 0
allowance up launching = 0
allowance up g = if up then 1 else 0

pub record Inv (w : World) : Type 0 where
  pub lock : LockInv w.calls w.holder
  pub count : w.spawned ≤ w.mishaps + allowance w.up (phase w.calls w.holder)

allowance-one : (up : Bool) (g : Stage) → allowance up g ≤ 1
unfolding allowance
allowance-one up polling = omega arith
allowance-one up locating = omega arith
allowance-one up launching = omega arith
allowance-one up pinging = ground arith
allowance-one up opening = ground arith
allowance-one up locking = ground arith
allowance-one up rechecking = ground arith
allowance-one up ready = ground arith
allowance-one up gave_up = ground arith

allowance-up : (g : Stage) → allowance false g ≤ allowance true g
unfolding allowance
allowance-up polling = omega arith
allowance-up locating = omega arith
allowance-up launching = omega arith
allowance-up pinging = omega arith
allowance-up opening = omega arith
allowance-up locking = omega arith
allowance-up rechecking = omega arith
allowance-up ready = omega arith
allowance-up gave_up = omega arith

-- A change of stage that leaves the rest.
go-Inv :
    (w : World) (c : ℕ) (o : Outcome)
    → Inv w
    → (holds_lock (w.calls c) ≡ false → holds_lock (advance (w.calls c) o) ≡ true → w.holder ≡ none)
    → allowance w.up (phase w.calls w.holder)
      ≤ allowance w.up (
          if holds_lock (advance (w.calls c) o)
          then advance (w.calls c) o
          else if holds_lock (w.calls c)
          then pinging
          else phase w.calls w.holder)
    → Inv (go w c o)
unfolding go
go-Inv w c o i free more = record {
  lock = go-LockInv w c (advance (w.calls c) o) i.lock free;
  count = rw (phase-go w c (advance (w.calls c) o) i.lock) (omega (arith, i.count, more));
}

-- The same, with a mishap.
go-mishap-Inv :
    (w : World) (c : ℕ) (o : Outcome)
    → Inv w
    → (holds_lock (w.calls c) ≡ false → holds_lock (advance (w.calls c) o) ≡ true → w.holder ≡ none)
    → Inv (mishap (go w c o))
unfolding go
go-mishap-Inv w c o i free = record {
  lock = go-LockInv w c (advance (w.calls c) o) i.lock free;
  count = omega (arith, i.count, allowance-one w.up (phase w.calls w.holder));
}

Pings-no_lock :
    {g : Stage} (o : Outcome) → Pings g → holds_lock g ≡ false → holds_lock (advance g o) ≡ true → ⊥
unfolding holds_lock advance
Pings-no_lock succeeds first h h' = cc
Pings-no_lock fails first h h' = cc
Pings-no_lock expires first h h' = cc
Pings-no_lock o recheck h h' = cc
Pings-no_lock o poll h h' = cc

answered-allowance :
    {g : Stage} (ph : Stage)
    → Pings g
    → allowance true ph
      ≤ allowance true (
          if holds_lock (advance g succeeds)
          then advance g succeeds
          else if holds_lock g
          then pinging
          else ph)
unfolding holds_lock advance allowance
answered-allowance ph first = omega arith
answered-allowance ph recheck = allowance-one true ph
answered-allowance ph poll = allowance-one true ph

unanswered-allowance :
    {g : Stage} (ph : Stage)
    → Pings g
    → (holds_lock g ≡ true → ph ≡ g)
    → allowance false ph
      ≤ allowance false (
          if holds_lock (advance g fails)
          then advance g fails
          else if holds_lock g
          then pinging
          else ph)
unfolding holds_lock advance allowance
unanswered-allowance ph first same = omega arith
unanswered-allowance ph recheck same = rw (same refl) (omega arith)
unanswered-allowance ph poll same = rw (same refl) (omega arith)

advance-opening : (o : Outcome) → holds_lock (advance opening o) ≡ false
unfolding holds_lock advance
advance-opening succeeds = refl
advance-opening fails = refl
advance-opening expires = refl

-- The holder of the lock has found no daemon and has started none yet.
allowance-zero :
    (w : World) (c : ℕ) (g : Stage)
    → LockInv w.calls w.holder
    → w.calls c ≡ g
    → holds_lock g ≡ true
    → allowance w.up g ≡ 0
    → allowance w.up (phase w.calls w.holder) ≡ 0
allowance-zero w c g i p h z = rw (phase-holds w c i (rw p h), p) z

Step-Inv : {w v : World} → Step w v → Inv w → Inv v
unfolding go holds_lock advance lock_after allowance
Step-Inv {w} (answered c p u) i =
    go-Inv w c succeeds i (λ h h'. elim (Pings-no_lock succeeds p h h') [ ])
      (rw u (answered-allowance (phase w.calls w.holder) p))
Step-Inv {w} (unanswered c p u) i =
    go-Inv w c fails i (λ h h'. elim (Pings-no_lock fails p h h') [ ])
      (rw u (unanswered-allowance (phase w.calls w.holder) p (phase-holds w c i.lock)))
Step-Inv {w} (missed c p u) i =
    go-mishap-Inv w c fails i (λ h h'. elim (Pings-no_lock fails p h h') [ ])
Step-Inv {w} (expired c p) i = go-mishap-Inv w c expires i (λ h h'. cc (rw p at h))
Step-Inv {w} (opened c o p) i =
    go-Inv w c o i (λ h h'. cc (rw (p, advance-opening o) at h'))
      (rw (p, advance-opening o) (omega arith))
Step-Inv {w} (locked c p n) i = go-Inv w c succeeds i (λ h h'. n) (rw (p, n) (omega arith))
Step-Inv {w} (lock_failed c p) i = go-Inv w c fails i (λ h h'. cc (rw p at h')) (rw p (omega arith))
Step-Inv {w} (located c o p) i =
    go-Inv w c o i (λ h h'. cc (rw p at h))
      (omega (arith, allowance-zero w c locating i.lock p refl refl))
Step-Inv {w} (launched c p) i = record {
  lock = go-LockInv w c (advance (w.calls c) succeeds) i.lock (λ h h'. cc (rw p at h));
  count =
      rw (phase-go w c (advance (w.calls c) succeeds) i.lock, p)
        (omega (arith, i.count, allowance-zero w c launching i.lock p refl refl));
}
Step-Inv {w} (launch_failed c p) i =
    go-Inv w c fails i (λ h h'. cc (rw p at h))
      (omega (arith, allowance-zero w c launching i.lock p refl refl))
Step-Inv {w} (died c p) i = record {
  lock = rw (lock_after, i.lock.held c p) at (go-LockInv w c gave_up i.lock (λ h h'. cc h'));
  count = omega (arith, i.count, allowance-one w.up (phase w.calls w.holder));
}
Step-Inv {w} (bound p u) i = record {
  lock = i.lock;
  count = omega (arith, rw u at (i.count), allowance-up (phase w.calls w.holder));
}
Step-Inv {w} (refused p u) i = record { lock = i.lock; count = i.count }
Step-Inv {w} (start_failed p) i = record { lock = i.lock; count = omega (arith, i.count) }
Step-Inv {w} (ended u) i = record {
  lock = i.lock;
  count = omega (arith, i.count, allowance-one w.up (phase w.calls w.holder));
}

Reach-Inv : {w : World} → Reach w → Inv w
unfolding holds_lock allowance
Reach-Inv start = record {
  lock = record { holds = λ c h. cc h; held = λ c h. cc h };
  count = omega arith;
}
Reach-Inv (later r p) = Step-Inv p (Reach-Inv r)

-- However many processes call `EnsureDaemon` at once, and however their operations and the daemons'
-- interleave: two calls that are both between the lock and the unlock are the same call; the daemons
-- started are at most one more than the mishaps (a listening daemon that leaves a ping unanswered, a
-- deadline that passes, a call that dies under the lock, a daemon that ends); and a call that is about
-- to start a daemon finds that those started before it are all accounted for by mishaps, so that none
-- was started where nothing went wrong.
pub spawned-once :
    {w : World}
    → Reach w
    → ((c d : ℕ) → holds_lock (w.calls c) ≡ true → holds_lock (w.calls d) ≡ true → c ≡ d)
      × (w.spawned ≤ suc w.mishaps)
      × ((c : ℕ) → w.calls c ≡ launching → w.spawned ≤ w.mishaps)
unfolding holds_lock allowance
spawned-once {w} r =
    let i = Reach-Inv r in
    (
      (λ c d h h'. cc (i.lock.holds c h, i.lock.holds d h')),
      omega (arith, i.count, allowance-one w.up (phase w.calls w.holder)),
      (λ c p. omega (arith, i.count, allowance-zero w c launching i.lock p refl refl)),
    )
