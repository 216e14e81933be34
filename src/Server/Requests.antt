-- ===== src/Server/Requests.antt =====
-- internal/sshsrv/server.go: the requests of a channel (`handleSession`).
pub mod Served
use rconfig_sim.Base.{if◌then◌else◌, Bytes, codes, equal, ℕ, ◌+◌, Bool, true, false, List, [], ◌∷◌}

-- `ssh.Request`.
pub record Request : Type 0 where
  pub kind : Bytes
  pub want_reply : Bool

-- `shell_started`, how often the driver's Serve was started, and the replies, the latest first.
pub record Channel : Type 0 where
  pub shell_started : Bool
  pub served : ℕ
  pub replies : List Bool

unfoldable pub reply : Request → Bool → Channel → Channel
reply req answer ch = if req.want_reply then record ch { replies = answer ∷ ch.replies } else ch

unfoldable pub start_shell : Channel → Channel
start_shell ch =
    if ch.shell_started then ch else record ch { shell_started = true; served = ch.served + 1 }

unfoldable pub on_request : Request → Channel → Channel
unfolding reply start_shell
on_request req ch =
    if equal req.kind (codes "pty-req")
    then reply req true ch
    else if equal req.kind (codes "shell")
    then start_shell (reply req true ch)
    else reply req false ch

-- `handleSession`.
unfoldable pub handle_session : List Request → Channel → Channel
unfolding on_request
handle_session [] ch = ch
handle_session (req ∷ reqs) ch = handle_session reqs (on_request req ch)

abbrev pub fresh_channel : Channel
fresh_channel = record { shell_started = false; served = 0; replies = [] }
