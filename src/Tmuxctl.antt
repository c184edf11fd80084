-- ===== src/Tmuxctl.antt =====
-- internal/tmuxctl: the port through which the rest of the program talks to tmux, its adapter over the
-- tmux command, and the subscription to pane output.
pub mod Port
pub mod Adapter
pub mod Subscription
pub mod Lifetime
pub mod Fake
