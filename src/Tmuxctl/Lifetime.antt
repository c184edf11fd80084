-- ===== src/Tmuxctl/Lifetime.antt =====
-- internal/tmuxctl/subscribe_unix.go: the trackers with what they hold (a temporary directory, an open
-- FIFO, a goroutine), and the subscription's goroutine from its first poll to its return, as a step relation.
pub mod Released
use tmux_pane_control.Prelude.{
  ℕ, suc, ◌+◌, ◌-◌, ◌≡◌, Bool, true, false, List, [], ◌∷◌, Bytes, if◌then◌else◌,
}

-- `paneTracker`: whether its directory exists, its file is open, its goroutine runs, and the
-- subscription's map has it.
pub record Tracker : Type 0 where
  pub pane : Bytes
  pub dir_exists : Bool
  pub file_open : Bool
  pub reading : Bool
  pub mapped : Bool

abbrev pub nothing_held : Bytes → Tracker
nothing_held p = record {
  pane = p;
  dir_exists = false;
  file_open = false;
  reading = false;
  mapped = false;
}

-- Which of the calls of `startPaneTracker` succeed.
pub record StartCalls : Type 0 where
  pub mkdir_temp : Bool
  pub mkfifo : Bool
  pub open_file : Bool
  pub pipe_pane : Bool

-- `os.RemoveAll` and `Close` on the error paths.
abbrev pub remove_all : Tracker → Tracker
remove_all t = record t { dir_exists = false }

abbrev pub close_file : Tracker → Tracker
close_file t = record t { file_open = false }

-- `startPaneTracker`, and the entry in the map behind a success.
unfoldable pub start_pane_tracker : StartCalls → Bytes → Tracker
start_pane_tracker c p =
    let made = record (nothing_held p) { dir_exists = true } in
    let opened = record made { file_open = true } in
    if c.mkdir_temp
    then (if c.mkfifo
        then (if c.open_file
            then (if c.pipe_pane
                then record opened { reading = true; mapped = true }
                else remove_all (close_file opened))
            else remove_all made)
        else remove_all made)
    else nothing_held p

-- `stop`, with the deletion from the map.
abbrev pub stop : Tracker → Tracker
stop t = record (close_file t) { mapped = false }

-- The deferred calls of `read`.
abbrev pub end_read : Tracker → Tracker
end_read t = record (remove_all (close_file t)) { reading = false }

-- A tracker stops, or its goroutine ends: on an error of a read, or on a context that is done.
pub data Stops : Tracker → Tracker → Type 0 where
  stops : {t : Tracker} → t.mapped ≡ true → Stops t (stop t)

pub data Ends : Tracker → Tracker → Type 0 where
  ends : {t : Tracker} → t.reading ≡ true → Ends t (end_read t)

-- One tracker of a list changes.
pub data Changes (R : Tracker → Tracker → Type 0) : List Tracker → List Tracker → Type 0 where
  here : {t t' : Tracker} {ts : List Tracker} → R t t' → Changes R (t ∷ ts) (t' ∷ ts)
  there : {t : Tracker} {ts ts' : List Tracker} → Changes R ts ts' → Changes R (t ∷ ts) (t ∷ ts')

-- `teardown`
unfoldable pub teardown : List Tracker → List Tracker
teardown [] = []
teardown (t ∷ ts) = (if t.mapped then stop t else t) ∷ teardown ts

-- Where `run` stands: in its loop, in `wg.Wait()`, or returned, with the channel closed.
pub data Running : Type 0 where
  polls awaits returned : Running

-- Every tracker that was ever started, and the counter of the wait group.
pub record Life : Type 0 where
  pub trackers : List Tracker
  pub wait_group : ℕ
  pub running : Running

abbrev pub begun : Life
begun = record { trackers = []; wait_group = 0; running = polls }

abbrev pub one_if : Bool → ℕ
one_if b = if b then 1 else 0

pub data Step (l : Life) : Life → Type 0 where
  start_one :
      (c : StartCalls) (p : Bytes)
      → l.running ≡ polls
      → Step l (record l {
        trackers = start_pane_tracker c p ∷ l.trackers;
        wait_group = l.wait_group + one_if (start_pane_tracker c p).reading;
      })
  stop_one :
      (ts : List Tracker)
      → l.running ≡ polls
      → Changes Stops l.trackers ts
      → Step l (record l { trackers = ts })
  end_one :
      (ts : List Tracker)
      → Changes Ends l.trackers ts
      → Step l (record l { trackers = ts; wait_group = l.wait_group - 1 })
  cancelled :
      l.running ≡ polls → Step l (record l { trackers = teardown l.trackers; running = awaits })
  waited : l.running ≡ awaits → l.wait_group ≡ 0 → Step l (record l { running = returned })

pub data Reach : Life → Type 0 where
  subscribe : Reach begun
  later : {l k : Life} → Reach l → Step l k → Reach k
