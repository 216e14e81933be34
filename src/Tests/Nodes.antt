-- ===== src/Tests/Nodes.antt =====
-- The TL1 drivers on one node, whose password is "secret".
use rconfig_sim.Tl1.Sections.RoundTrip.{index_sections-render}
use rconfig_sim.Base.{
  Bytes, codes, equal, ℕ, ◌≡◌, refl, inl, inr, true, false, List, [], ◌∷◌, map, arith,
}
use rconfig_sim.Drivers.Infinera.Paging.{IsTidMap, tidmap_pages-IsTidMap}
use rconfig_sim.Drivers.Infinera.{tidmap_pages}
use rconfig_sim.Drivers.Login.{refusal, run_commands-session, run_commands-refusal}
use rconfig_sim.Drivers.Routing.{streamed}
use rconfig_sim.Drivers.Relay.{dispatch_tl1-relayed}
use rconfig_sim.Tl1.Grammar.{parse_tl1, unquote_tl1, parse_act_user, tid_is_local}
use rconfig_sim.Tl1.Sections.{index_byte, bound_at, bounds_from, sections_of, index_sections}
use rconfig_sim.Text.{upper, trim_space, has_prefix, split, join}
use rconfig_sim.Command.{tl1_rtrv_eqpt}
use rconfig_sim.Drivers.Node.{new_session, valid_tl1_login, Credentials, Session}
use rconfig_sim.Drivers.Vendor.{
  dispatch_tl1, vendor_marker, run_commands, ciena_tl1, infinera_tl1, cisco_ons_tl1,
}

abbrev login_with : Credentials
login_with = record { username = codes "admin"; password = codes "secret" }

abbrev clock : ℕ → Bytes
clock n = codes "00:00:00"

abbrev a_node : Session
a_node = record {
  logged_in = false;
  sid = codes "GNE-1";
  serial = codes "FTX1";
  local_eqpt = codes "local";
  remote_eqpt = (codes "RNE-2", codes "remote") ∷ [];
  order = codes "RNE-2" ∷ [];
}

abbrev open_node : Session
open_node = record a_node { logged_in = true }

abbrev eqpt_command : Bytes
eqpt_command = codes "RTRV-EQPT:rne-2:ALL:3"

-- The section of "RNE-2" in the data of a device.
new_session_sections :
    (new_session
      (codes ";;RNE ")
      (codes "GNE-1")
      (codes "FTX1")
      (codes "local\n;;RNE rne-2\nremote\n")).remote_eqpt
    ≡ (codes "RNE-2", codes "remote\n") ∷ []
unfolding new_session index_sections bounds_from sections_of bound_at index_byte has_prefix equal
    trim_space upper
new_session_sections = refl

run_commands-session_example :
    (run_commands cisco_ons_tl1 login_with clock
      (eqpt_command ∷ codes "ACT-USER::admin:7::secret" ∷ [])
      a_node).1
    ≡ open_node
unfolding parse_tl1 parse_act_user unquote_tl1 trim_space upper split join equal valid_tl1_login
run_commands-session_example =
    run_commands-session login_with clock cisco_ons_tl1
      (eqpt_command ∷ codes "ACT-USER::admin:7::secret" ∷ []) a_node

tidmap_pages-IsTidMap_example :
    IsTidMap clock open_node
      (codes "3")
      (codes "RNE-2" ∷ [])
      (tidmap_pages clock open_node (codes "3"))
tidmap_pages-IsTidMap_example = tidmap_pages-IsTidMap clock open_node (codes "3")

index_sections-render_example :
    index_sections (codes "local\n;;RNE rne-2\nremote\n") (codes ";;RNE ") ≡ record {
      local_eqpt = codes "local\n";
      remote_eqpt = (codes "RNE-2", codes "remote\n") ∷ [];
      order = codes "RNE-2" ∷ [];
    }
unfolding has_prefix trim_space upper
index_sections-render_example =
    index_sections-render b';' (codes ";RNE ") (omega arith) (codes "local\n")
      ((codes "rne-2", codes "remote\n") ∷ []) refl
      (inr refl, (inl refl, (inl refl, (inl refl, (inl refl, (inl refl, tt))))))
      (
        (
          omega arith,
          (λ e. absurd (ground arith)),
          refl,
          (inr refl, (inl refl, (inl refl, (inl refl, (inl refl, (inl refl, (inl refl, tt))))))),
        ),
        tt,
      )

-- A failed login, and then the inventory.
abbrev wrong_login : List Bytes
wrong_login = codes "ACT-USER::admin:7::guess" ∷ [] ∷ eqpt_command ∷ []

run_commands-refusal_example :
    run_commands infinera_tl1 login_with clock wrong_login a_node
    ≡ (map (refusal (codes "00:00:00") (codes "GNE-1")) wrong_login, a_node)
unfolding parse_tl1 parse_act_user unquote_tl1 trim_space upper split join equal valid_tl1_login
run_commands-refusal_example =
    run_commands-refusal login_with clock infinera_tl1 wrong_login a_node refl refl

abbrev node_data : Bytes
node_data = codes "local\n;;RNE rne-2\nremote\n"

abbrev opened_node : Session
opened_node =
    (run_commands ciena_tl1 login_with clock (codes "ACT-USER::admin:7::secret" ∷ [])
      (new_session (vendor_marker ciena_tl1) (codes "GNE-1") (codes "FTX1") node_data)).1

dispatch_tl1-relayed_example : dispatch_tl1 ciena_tl1 login_with clock eqpt_command opened_node ≡ (
  (tl1_rtrv_eqpt, streamed (codes "00:00:00") (codes "RNE-2") (codes "3") (codes "remote\n")),
  opened_node,
)
unfolding parse_tl1 parse_act_user unquote_tl1 trim_space upper split join equal valid_tl1_login
    tid_is_local has_prefix
dispatch_tl1-relayed_example =
    dispatch_tl1-relayed ciena_tl1 login_with clock (codes "GNE-1") (codes "FTX1") (codes "local\n")
      [] [] (codes "rne-2") (codes "remote\n") (codes "ACT-USER::admin:7::secret" ∷ []) eqpt_command
      (codes "ALL") (codes "3")
      (
        refl,
        (inr refl, (inl refl, (inl refl, (inl refl, (inl refl, (inl refl, tt)))))),
        (
          (
            omega arith,
            (λ e. absurd (ground arith)),
            refl,
            (inr refl, (inl refl, (inl refl, (inl refl, (inl refl, (inl refl, (inl refl, tt))))))),
          ),
          tt,
        ),
      )
      tt (λ e. absurd (ground arith)) refl refl (omega arith, omega arith, omega arith, refl)
