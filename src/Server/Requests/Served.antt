-- ===== src/Server/Requests/Served.antt =====
-- How often the driver's loop is started, and what is replied.
use rconfig_sim.Base.{if◌then◌else◌, Bytes, codes, equal, ℕ, Bool, false, ◌||◌, List, [], ◌∷◌}
use rconfig_sim.Server.Requests.{Request}

-- The answers that are due: true to a pty-req or a shell, in the reverse of their order.
abbrev pub is_known : Bytes → Bool
is_known kind = equal kind (codes "pty-req") || equal kind (codes "shell")

abbrev pub answers : List Request → List Bool → List Bool
answers [] done = done
answers (req ∷ reqs) done = answers reqs (if req.want_reply then is_known req.kind ∷ done else done)

abbrev pub asks_shell : List Request → Bool
asks_shell [] = false
asks_shell (req ∷ reqs) = equal req.kind (codes "shell") || asks_shell reqs

abbrev started : Bool → Bool → ℕ
started before asked = if before || asked then 1 else 0
