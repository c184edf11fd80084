-- ===== src/Harness/Teardown.antt =====
-- conformance/harness/harness.go: the end of a scenario, and the search for daemons that outlive it.
use tmux_pane_control.Prelude.{
  ℕ, ◌≡◌, ◌⊎◌, ◌+◌, Bool, true, not, ◌||◌, List, [], ◌∷◌, ◌++◌, Option, none, some, Bytes, bytes_eq,
  codes, is_empty, ltb, if◌then◌else◌,
}

-- An entry of the socket directory, and whether its socket accepts a connection.
pub record Entry : Type 0 where
  pub name : Bytes
  pub accepts : Bool

-- `strings.HasSuffix(s, suffix)`
unfoldable pub has_suffix : Bytes → Bytes → Bool
has_suffix [] suffix = is_empty suffix
has_suffix (c ∷ cs) suffix = bytes_eq (c ∷ cs) suffix || has_suffix cs suffix

-- The loop over the directory; 0 is a process of unknown number.
unfoldable pub leaked_among : List Entry → List ℕ
unfolding has_suffix
leaked_among [] = []
leaked_among (ent ∷ entries) =
    let rest = leaked_among entries in
    if not (has_suffix ent.name (codes ".sock"))
    then rest
    else if ent.accepts
    then 0 ∷ rest
    else rest

-- `findLeakedDaemons`; `none` is a directory that cannot be read.
unfoldable pub find_leaked_daemons : Option (List Entry) → List ℕ
unfolding leaked_among
find_leaked_daemons none = []
find_leaked_daemons (some entries) = leaked_among entries

-- A turn of the loop of `teardown`: the clock at its test, and the directory then.
pub record Turn : Type 0 where
  pub now : ℕ
  pub directory : Option (List Entry)

-- `all_gone` is the early return, `past_deadline` the loop's end by its test, `waiting` that it goes on.
pub data Polled : Type 0 where
  all_gone past_deadline waiting : Polled

unfoldable pub poll_daemons : ℕ → List Turn → Polled
unfolding find_leaked_daemons
poll_daemons deadline [] = waiting
poll_daemons deadline (t ∷ turns) =
    let rest = poll_daemons deadline turns in
    if ltb t.now deadline
    then (if is_empty (find_leaked_daemons t.directory) then all_gone else rest)
    else past_deadline

-- What `teardown` does, in its order.
pub data Act : Type 0 where
  diagnostics_dumped server_killed leak_logged : Act

-- `teardown`: its acts, over the turns of its loop and what the last look at the directory finds; `none`
-- while the loop goes on.
unfoldable pub teardown : Bool → ℕ → List Turn → Option (List Entry) → Option (List Act)
unfolding poll_daemons find_leaked_daemons
teardown failed started turns finally =
    let begun = if failed then diagnostics_dumped ∷ server_killed ∷ [] else server_killed ∷ [] in
    elim (poll_daemons (started + 3000000000) turns) [
      | waiting ↦ none
      | all_gone ↦ some begun
      | past_deadline ↦ some (
          if not (is_empty (find_leaked_daemons finally))
          then begun ++ (leak_logged ∷ [])
          else begun)
    ]

-- Some socket of a daemon accepts connections.
abbrev pub SomeAlive : List Entry → Type 0
SomeAlive [] = ⊥
SomeAlive (ent ∷ entries) =
    ((has_suffix ent.name (codes ".sock") ≡ true) × (ent.accepts ≡ true)) ⊎ SomeAlive entries
