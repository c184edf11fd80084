-- ===== src/Ipc/Socket.antt =====
-- internal/ipc/socket.go: the paths of the tmux server's socket and of the daemon's; and `Listen` of
-- internal/ipc/server.go. The environment, `filepath`, the digest and the operating system's calls are
-- parameters.
use tmux_pane_control.Prelude.{
  ℕ, Bool, true, false, not, ◌&&◌, [], ◌∷◌, ◌++◌, Option, none, some, Bytes, codes, is_empty, ◌==◌,
  if◌then◌else◌, Result, ok, err,
}
use tmux_pane_control.Prelude.Decimal.{itoa}

-- `digest` is the hexadecimal of the first eight bytes of the SHA-256 sum; `mkdir_all` is an error's text.
pub record Environment : Type 0 where
  pub tmux : Bytes
  pub xdg_runtime_dir : Bytes
  pub temp_dir : Bytes
  pub euid : ℕ
  pub abs_path : Bytes → Result Bytes Bytes
  pub join_path : Bytes → Bytes → Bytes
  pub mkdir_all : Bytes → Option Bytes
  pub digest : Bytes → Bytes

-- `tmux[:comma]`, or the whole value if it has no comma.
unfoldable pub before_comma : Bytes → Bytes
before_comma [] = []
before_comma (c ∷ cs) = if c == b',' then [] else c ∷ before_comma cs

-- `ResolveTmuxSocket`
unfoldable pub resolve_tmux_socket : Environment → Bytes → Bytes → Result Bytes Bytes
unfolding before_comma
resolve_tmux_socket env socket_path socket_name =
    let uid_dir = codes "/tmp/tmux-" ++ itoa env.euid in
    if not (is_empty socket_path) && not (is_empty socket_name)
    then err (codes "--tmux-socket and --tmux-socket-name are mutually exclusive")
    else if not (is_empty socket_path)
    then env.abs_path socket_path
    else if not (is_empty socket_name)
    then ok (env.join_path uid_dir socket_name)
    else if not (is_empty env.tmux)
    then ok (before_comma env.tmux)
    else ok (env.join_path uid_dir (codes "default"))

-- `daemonDir`
unfoldable pub daemon_dir : Environment → Bytes
daemon_dir env =
    if not (is_empty env.xdg_runtime_dir)
    then env.join_path env.xdg_runtime_dir (codes "tpctl")
    else env.join_path env.temp_dir (codes "tpctl-" ++ itoa env.euid)

-- `DaemonSocketPath`
unfoldable pub daemon_socket_path : Environment → Bytes → Result Bytes Bytes
unfolding daemon_dir
daemon_socket_path env tmux_socket =
    let dir = daemon_dir env in
    elim (env.mkdir_all dir) [
      | some e ↦ err (codes "mkdir " ++ (dir ++ (codes ": " ++ e)))
      | none ↦ ok (env.join_path dir (env.digest tmux_socket ++ codes ".sock"))
    ]

-- What `Listen` meets: whether a peer answers, and the errors of creating the directory, of binding and
-- of the change of mode.
pub record Binding : Type 0 where
  pub peer_alive : Bool
  pub mkdir_error : Option Bytes
  pub bind_error : Option Bytes
  pub chmod_error : Option Bytes

-- What `Listen` leaves: the error that it returns, or none with an open listener; whether it removed the
-- socket file; and whether a listener is open.
pub record Bound : Type 0 where
  pub error : Option Bytes
  pub removed_stale : Bool
  pub is_open : Bool

-- `Listen`
unfoldable pub listen : Bytes → Binding → Bound
listen path b =
    if b.peer_alive
    then record {
      error = some (codes "daemon socket already bound: " ++ path);
      removed_stale = false;
      is_open = false;
    }
    else elim b.mkdir_error [
      | some e ↦ record { error = some e; removed_stale = true; is_open = false }
      | none ↦ elim b.bind_error [
        | some e ↦ record { error = some e; removed_stale = true; is_open = false }
        | none ↦ elim b.chmod_error [
          | some e ↦ record { error = some e; removed_stale = true; is_open = false }
          | none ↦ record { error = none; removed_stale = true; is_open = true }
        ]
      ]
    ]
