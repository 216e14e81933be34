-- ===== src/Drivers/Vendor.antt =====
-- The TL1 drivers side by side: what each registers with the shared loop `tl1Serve`.
use rconfig_sim.Base.{Bytes, ℕ, List, [], ◌∷◌}
use rconfig_sim.Command.{Command}
use rconfig_sim.Drivers.Node.{Answer, Credentials, Session}
use rconfig_sim.Drivers.Ciena.{ciena_rne_marker, ciena_prompt, ciena_commands, dispatch_ciena}
use rconfig_sim.Drivers.Infinera.{
  infinera_rne_marker, infinera_prompt, infinera_commands, dispatch_infinera,
}
use rconfig_sim.Drivers.CiscoOns.{
  cisco_ene_marker, cisco_ons_prompt, cisco_ons_commands, dispatch_cisco_ons,
}

pub data Vendor : Type 0 where
  ciena_tl1 infinera_tl1 cisco_ons_tl1 : Vendor

-- The dispatch that each `Serve` hands to `tl1Serve`.
unfoldable pub dispatch_tl1 :
    Vendor → Credentials → (ℕ → Bytes) → Bytes → Session → Answer × Session
dispatch_tl1 ciena_tl1 c stamp = dispatch_ciena c (stamp 0)
dispatch_tl1 infinera_tl1 c stamp = dispatch_infinera c stamp
dispatch_tl1 cisco_ons_tl1 c stamp = dispatch_cisco_ons c (stamp 0)

unfoldable pub vendor_commands : Vendor → List Command
vendor_commands ciena_tl1 = ciena_commands
vendor_commands infinera_tl1 = infinera_commands
vendor_commands cisco_ons_tl1 = cisco_ons_commands

unfoldable pub vendor_prompt : Vendor → Bytes
vendor_prompt ciena_tl1 = ciena_prompt
vendor_prompt infinera_tl1 = infinera_prompt
vendor_prompt cisco_ons_tl1 = cisco_ons_prompt

unfoldable pub vendor_marker : Vendor → Bytes
vendor_marker ciena_tl1 = ciena_rne_marker
vendor_marker infinera_tl1 = infinera_rne_marker
vendor_marker cisco_ons_tl1 = cisco_ene_marker

-- A session's commands one after the other.
unfoldable pub run_commands :
    Vendor → Credentials → (ℕ → Bytes) → List Bytes → Session → List Answer × Session
run_commands v c stamp [] s = ([], s)
run_commands v c stamp (raw ∷ raws) s =
    let (a, t) = dispatch_tl1 v c stamp raw s in
    let (answers, u) = run_commands v c stamp raws t in (a ∷ answers, u)
