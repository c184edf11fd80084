-- ===== src/Ipc/Server.antt =====
-- internal/ipc/server.go: the life of a server as a state machine. `Serve` accepts connections, each of
-- which is handled on its own; `Close` runs in other goroutines, in four steps: the flag, the two of the
-- listener's own `Close`, which removes the socket file and then closes the descriptor, and `os.Remove`. The
-- operating system's calls are steps that are possible when it allows them.
pub mod Life
use tmux_pane_control.Prelude.{ℕ, suc, ◌+◌, ◌-◌, ◌<◌, ◌≡◌, Bool, true, false, ◌==◌, if◌then◌else◌}

-- Where `Serve` stands: in its loop, in `acceptW.Wait()`, or returned, with no error or with one.
pub data Serving : Type 0 where
  accepting draining returned_nil returned_error : Serving

-- Where the call of `Close` that set the flag stands: none did, the flag is set, the listener's `Close` has
-- removed the socket file, it has closed the descriptor too, or `os.Remove` is done.
pub data Closing : Type 0 where
  untouched flagged unlinked unlistened removed : Closing

-- `Server`: `accept_wait` is the counter of the wait group `acceptW`.
pub record Server : Type 0 where
  pub closed : Bool
  pub listening : Bool
  pub socket_file : Bool
  pub accept_wait : ℕ
  pub serving : Serving
  pub closing : Closing

-- A server behind `Listen`.
abbrev pub listened : Server
listened = record {
  closed = false;
  listening = true;
  socket_file = true;
  accept_wait = 0;
  serving = accepting;
  closing = untouched;
}

-- What `Serve` does when `Accept` fails: it reads the flag.
unfoldable pub accept_failed : Server → Server
accept_failed s =
    if s.closed then record s { serving = draining } else record s { serving = returned_error }

-- The first part of `Close`, under the lock.
unfoldable pub close_flag : Server → Server
close_flag s = if s.closed then s else record s { closed = true; closing = flagged }

-- A step of some goroutine. `Accept` returns a connection only while the listener is open; it may fail at
-- any time, and does behind the listener's close.
pub data Step (s : Server) : Server → Type 0 where
  accept :
      s.serving ≡ accepting
      → s.listening ≡ true
      → Step s (record s { accept_wait = suc s.accept_wait })
  connection_done : 0 < s.accept_wait → Step s (record s { accept_wait = s.accept_wait - 1 })
  accept_error : s.serving ≡ accepting → Step s (accept_failed s)
  close : Step s (close_flag s)
  unlink_socket :
      s.closing ≡ flagged → Step s (record s { socket_file = false; closing = unlinked })
  close_listener :
      s.closing ≡ unlinked → Step s (record s { listening = false; closing = unlistened })
  remove_socket :
      s.closing ≡ unlistened → Step s (record s { socket_file = false; closing = removed })
  drained : s.serving ≡ draining → s.accept_wait ≡ 0 → Step s (record s { serving = returned_nil })

pub data Reach : Server → Type 0 where
  start : Reach listened
  later : {s t : Server} → Reach s → Step s t → Reach t
