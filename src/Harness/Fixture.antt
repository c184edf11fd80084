-- ===== src/Harness/Fixture.antt =====
-- conformance/harness/harness.go: the helpers of a scenario that drive tmux and the binary. tmux at one
-- moment is what it leaves for each list of arguments, output and errors combined.
use tmux_pane_control.Prelude.{
  ℕ, Bool, false, not, ◌||◌, List, [], ◌∷◌, ◌++◌, Option, none, some, Bytes, bytes_eq, codes,
  has_prefix, ltb, if◌then◌else◌, Result, ok, err, ◌>>=◌,
}
use tmux_pane_control.Tmuxctl.Adapter.{contains, trim_space}
use tmux_pane_control.Harness.{
  Env, Fatal, tmux_failed, no_panes, unexpected_window, never_contained, World, run, must_json,
}
use tmux_pane_control.Harness.Responses.{ListResponse, SnapshotResponse}

-- `CombinedOutput` of a command, and its error's text.
pub record Combined : Type 0 where
  pub output : Bytes
  pub failure : Option Bytes

abbrev pub Tmux : Type 0
Tmux = List Bytes → Combined

-- `Tmux`
unfoldable pub tmux : Tmux → Env → List Bytes → Result Fatal Bytes
tmux t e args =
    let x = t (codes "-S" ∷ e.tmux_soc ∷ args) in
    elim x.failure [ some text ↦ err (tmux_failed args text x.output) | none ↦ ok x.output ]

-- The loop that looks for a pane.
unfoldable pub is_tracked : Bytes → List Bytes → Bool
is_tracked p [] = false
is_tracked p (q ∷ panes) = bytes_eq q p || is_tracked p panes

unfoldable pub track : Bytes → Env → Env
unfolding is_tracked
track p e = if not (is_tracked p e.panes) then record e { panes = e.panes ++ (p ∷ []) } else e

abbrev first_of : Env × List Bytes → Result Fatal (Env × Bytes)
first_of (e, []) = err no_panes
first_of (e, p ∷ panes) = ok (track p e, p)

module _ (w : World) where
  -- `List`; `decode` is `json.Unmarshal`.
  unfoldable pub list_panes :
      (Bytes → Result Bytes ListResponse) → ℕ → Env → Result Fatal (Env × List Bytes)
  list_panes decode started e = do
    ran ← run w started (codes "list" ∷ []) e
    r ← must_json decode ran.1
    ok (ran.0, r.panes)

  -- `Snapshot`
  unfoldable pub snapshot :
      (Bytes → Result Bytes SnapshotResponse)
      → ℕ
      → Bytes
      → List Bytes
      → Env
      → Result Fatal (Env × SnapshotResponse)
  snapshot decode started pane extra_args e = do
    ran ← run w started (codes "snapshot" ∷ codes "--pane" ∷ pane ∷ extra_args) e
    s ← must_json decode ran.1
    ok (ran.0, s)

  -- `FirstPane`
  unfoldable pub first_pane :
      (Bytes → Result Bytes ListResponse) → ℕ → Env → Result Fatal (Env × Bytes)
  unfolding list_panes track
  first_pane decode started e = list_panes decode started e >>= first_of

-- `NewPane`
unfoldable pub new_pane : Tmux → Env → Result Fatal (Env × Bytes)
unfolding tmux
new_pane t e = do
  printed ← tmux t e (
      codes "new-window"
      ∷ codes "-t"
      ∷ codes "t:"
      ∷ codes "-P"
      ∷ codes "-F"
      ∷ codes "#{pane_id}"
      ∷ [])
  let out = trim_space printed in
      if not (has_prefix out (codes "%"))
      then err (unexpected_window out)
      else ok (record e { panes = e.panes ++ (out ∷ []) }, out)

-- `KillPane`
unfoldable pub kill_pane : Tmux → Env → Bytes → Result Fatal (Unit {0})
unfolding tmux
kill_pane t e id = do printed ← tmux t e (codes "kill-pane" ∷ codes "-t" ∷ id ∷ []); ok tt

-- `PaneOutput`
unfoldable pub pane_output : Tmux → Env → Bytes → Bytes → Result Fatal (Unit {0})
unfolding tmux
pane_output t e pane cmd = do
  printed ← tmux t e (codes "send-keys" ∷ codes "-t" ∷ pane ∷ cmd ∷ codes "Enter" ∷ [])
  ok tt

-- One turn of the loop of `WaitForText`: the clock at its test, and tmux then.
pub record Poll : Type 0 where
  pub now : ℕ
  pub meets : Tmux

-- How the loop stands at the end of some turns: `polling` is that it goes on.
pub data Waited : Type 0 where
  text_found polling : Waited
  gave_up : Fatal → Waited

unfoldable pub looked : Bytes → Result Fatal Bytes → Waited → Waited
looked text (err f) rest = gave_up f
looked text (ok out) rest = if contains out text then text_found else rest

-- `WaitForText`, over the turns of its loop; instants are numbers.
unfoldable pub wait_for_text : Env → Bytes → Bytes → ℕ → List Poll → Waited
unfolding looked tmux
wait_for_text e pane text deadline [] = polling
wait_for_text e pane text deadline (p ∷ polls) =
    let rest = wait_for_text e pane text deadline polls in
    if ltb p.now deadline
    then looked text (tmux p.meets e (codes "capture-pane" ∷ codes "-p" ∷ codes "-t" ∷ pane ∷ []))
        rest
    else gave_up (never_contained pane text)
