-- ===== src/Tests/Buffers.antt =====
-- Runs of the ring and of tokens.
use tmux_pane_control.Prelude.{◌≡◌, true, [], ◌∷◌, codes, arith}
use tmux_pane_control.Buffer.{fresh, read}
use tmux_pane_control.Buffer.Read.{append_all, read-append_all}

read-append_all_example :
    read (append_all (fresh 4) ((codes "abc", 1) ∷ (codes "def", 2) ∷ [])) 2
    ≡ (codes "cdef", 6, true)
read-append_all_example =
    read-append_all 4 ((codes "abc", 1) ∷ (codes "def", 2) ∷ []) 2 (omega arith) (omega arith)
      (omega arith) (omega arith)
