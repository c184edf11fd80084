-- ===== src/Ipc/Autospawn.antt =====
-- internal/ipc/autospawn.go, `EnsureDaemon`: the control flow of one call as a function, and any number of
-- calls in as many processes, with the daemons they start, as a step relation. The lock file's `flock` and
-- the daemon's socket are what the calls share.
pub mod Lock
pub mod Once
use tmux_pane_control.Prelude.{
  ℕ, suc, ◌+◌, ◌-◌, ◌<◌, ◌≡◌, Bool, true, false, ◌==◌, if◌then◌else◌, Option, none, some,
}

-- Where a call stands, by the operation it does next: the first ping, opening the lock file, `flock`, the
-- ping under the lock, `os.Executable`, starting the daemon, the pings until it is ready; or its end.
pub data Stage : Type 0 where
  pinging opening locking rechecking locating launching polling ready gave_up : Stage

-- How the operation ends; `expires` is the deadline of the last loop.
pub data Outcome : Type 0 where
  succeeds fails expires : Outcome

unfoldable pub advance : Stage → Outcome → Stage
advance pinging succeeds = ready
advance pinging o = opening
advance opening succeeds = locking
advance opening o = gave_up
advance locking succeeds = rechecking
advance locking o = gave_up
advance rechecking succeeds = ready
advance rechecking o = locating
advance locating succeeds = launching
advance locating o = gave_up
advance launching succeeds = polling
advance launching o = gave_up
advance polling succeeds = ready
advance polling fails = polling
advance polling expires = gave_up
advance ready o = ready
advance gave_up o = gave_up

-- Behind `Flock` until the deferred unlock.
unfoldable pub holds_lock : Stage → Bool
holds_lock rechecking = true
holds_lock locating = true
holds_lock launching = true
holds_lock polling = true
holds_lock g = false

-- The stages that ping.
pub data Pings : Stage → Type 0 where
  first : Pings pinging
  recheck : Pings rechecking
  poll : Pings polling

-- `calls` by process; `holder` of the lock; `up` says that a daemon listens on the socket; `starting`
-- counts the daemons that do not listen yet, `spawned` all that were started, and `mishaps` what goes
-- wrong: a ping that a listening daemon leaves unanswered, a deadline that passes, a call that dies under
-- the lock, and a daemon that ends.
pub record World : Type 0 where
  pub calls : ℕ → Stage
  pub holder : Option ℕ
  pub up : Bool
  pub starting : ℕ
  pub spawned : ℕ
  pub mishaps : ℕ

abbrev pub initially : World
initially = record {
  calls = λ c. pinging;
  holder = none;
  up = false;
  starting = 0;
  spawned = 0;
  mishaps = 0;
}

abbrev pub put_stage : (ℕ → Stage) → ℕ → Stage → ℕ → Stage
put_stage calls c g d = if d == c then g else calls d

-- The lock when the call that is at a stage goes on to another.
unfoldable pub lock_after : Option ℕ → ℕ → Stage → Stage → Option ℕ
unfolding holds_lock
lock_after holder c g g' = if holds_lock g' then some c else if holds_lock g then none else holder

unfoldable pub go : World → ℕ → Outcome → World
unfolding advance lock_after
go w c o = record w {
  calls = put_stage w.calls c (advance (w.calls c) o);
  holder = lock_after w.holder c (w.calls c) (advance (w.calls c) o);
}

abbrev pub mishap : World → World
mishap w = record w { mishaps = suc w.mishaps }

pub data Step (w : World) : World → Type 0 where
  answered : (c : ℕ) → Pings (w.calls c) → w.up ≡ true → Step w (go w c succeeds)
  unanswered : (c : ℕ) → Pings (w.calls c) → w.up ≡ false → Step w (go w c fails)
  missed : (c : ℕ) → Pings (w.calls c) → w.up ≡ true → Step w (mishap (go w c fails))
  expired : (c : ℕ) → w.calls c ≡ polling → Step w (mishap (go w c expires))
  opened : (c : ℕ) → (o : Outcome) → w.calls c ≡ opening → Step w (go w c o)
  locked : (c : ℕ) → w.calls c ≡ locking → w.holder ≡ none → Step w (go w c succeeds)
  lock_failed : (c : ℕ) → w.calls c ≡ locking → Step w (go w c fails)
  located : (c : ℕ) → (o : Outcome) → w.calls c ≡ locating → Step w (go w c o)
  launched :
      (c : ℕ)
      → w.calls c ≡ launching
      → Step w (record (go w c succeeds) { starting = suc w.starting; spawned = suc w.spawned })
  launch_failed : (c : ℕ) → w.calls c ≡ launching → Step w (go w c fails)
  died :
      (c : ℕ)
      → w.holder ≡ some c
      → Step w (mishap (record w { calls = put_stage w.calls c gave_up; holder = none }))
  bound : 0 < w.starting → w.up ≡ false → Step w (record w { starting = w.starting - 1; up = true })
  refused : 0 < w.starting → w.up ≡ true → Step w (record w { starting = w.starting - 1 })
  start_failed : 0 < w.starting → Step w (mishap (record w { starting = w.starting - 1 }))
  ended : w.up ≡ true → Step w (mishap (record w { up = false }))

pub data Reach : World → Type 0 where
  start : Reach initially
  later : {w v : World} → Reach w → Step w v → Reach v
