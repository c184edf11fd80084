-- ===== src/Ipc/Autospawn/Lock.antt =====
-- The lock file: who holds it, and the stage of the holder.
use tmux_pane_control.Prelude.{
  ℕ, ◌≡◌, refl, true, false, if◌then◌else◌, Option, none, some, Bool-cases, inl, inr, arith,
}
use tmux_pane_control.Ipc.Autospawn.{Stage, pinging, holds_lock, World, put_stage, lock_after}

-- The lock against the stages.
pub record LockInv (calls : ℕ → Stage) (holder : Option ℕ) : Type 0 where
  pub holds : (c : ℕ) → holds_lock (calls c) ≡ true → holder ≡ some c
  pub held : (c : ℕ) → holder ≡ some c → holds_lock (calls c) ≡ true

-- The stage of the call that holds the lock.
abbrev pub phase : (ℕ → Stage) → Option ℕ → Stage
phase calls none = pinging
phase calls (some c) = calls c

pub go-LockInv :
    (w : World) (c : ℕ) (g : Stage)
    → LockInv w.calls w.holder
    → (holds_lock (w.calls c) ≡ false → holds_lock g ≡ true → w.holder ≡ none)
    → LockInv (put_stage w.calls c g) (lock_after w.holder c (w.calls c) g)
unfolding lock_after
go-LockInv w c g i free = record {
  holds = λ d h. grind (arith, i.holds, i.held, free, h);
  held = λ d h. grind (arith, i.holds, i.held, free, h);
}

pub phase-other :
    (calls : ℕ → Stage) (c : ℕ) (g : Stage) (holder : Option ℕ)
    → (holder ≡ some c → holds_lock (calls c) ≡ true)
    → holds_lock (calls c) ≡ false
    → phase (put_stage calls c g) holder ≡ phase calls holder
phase-other calls c g none held h = refl
phase-other calls c g (some d) held h = grind (arith, held, h)

pub phase-go :
    (w : World) (c : ℕ) (g : Stage)
    → LockInv w.calls w.holder
    → phase (put_stage w.calls c g) (lock_after w.holder c (w.calls c) g) ≡ (
        if holds_lock g
        then g
        else if holds_lock (w.calls c)
        then pinging
        else phase w.calls w.holder)
unfolding lock_after
phase-go w c g i = elim (Bool-cases (holds_lock g)) [
  | inl h ↦ rw h (ground arith)
  | inr h ↦ elim (Bool-cases (holds_lock (w.calls c))) [
    | inl h' ↦ rw (h, h') refl
    | inr h' ↦ rw (h, h') (phase-other w.calls c g w.holder (i.held c) h')
  ]
]

pub phase-holds :
    (w : World) (c : ℕ)
    → LockInv w.calls w.holder
    → holds_lock (w.calls c) ≡ true
    → phase w.calls w.holder ≡ w.calls c
phase-holds w c i h = rw (i.holds c h) refl
