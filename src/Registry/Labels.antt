-- ===== src/Registry/Labels.antt =====
-- internal/sshsrv/driver.go: `registeredCommands`.
use rconfig_sim.Base.{if◌then◌else◌, Bytes, List, [], ◌∷◌, ◌++◌}
use rconfig_sim.Registry.{driver_commands, is_seen, Driver}
use rconfig_sim.Command.{to_string, Command}

-- The loop over the commands of a driver, with the labels so far.
unfoldable pub add_labels : List Command → List Bytes → List Bytes
add_labels [] out = out
add_labels (c ∷ cs) out =
    let seen = add_labels cs out in
    let new = add_labels cs (out ++ (to_string c ∷ [])) in
    if is_seen (to_string c) out then seen else new

-- `registeredCommands`, for the drivers in the order in which the map gives them.
unfoldable pub registered_commands : List Driver → List Bytes → List Bytes
unfolding add_labels
registered_commands [] out = out
registered_commands (d ∷ ds) out = registered_commands ds (add_labels (driver_commands d) out)
