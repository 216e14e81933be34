-- ===== src/Tests/Cisco.antt =====
-- The builders of Cisco configurations.
use rconfig_sim.Base.{length, All, codes, ℕ, ◌+◌, ◌-◌, ◌%◌, ◌≡◌, refl, some, List, [], ◌∷◌, arith}
use rconfig_sim.Generator.Cisco.Ports.Refers.{Refers, build_interfaces-Refers}
use rconfig_sim.Generator.Cisco.Users.Fresh.{IsFair, AreVlans, build_vlans-AreVlans}
use rconfig_sim.Generator.Cisco.Filters.Bounds.{IsSound, build_prefix_lists-IsSound}
use rconfig_sim.Generator.Cisco.Sizes.{small_size, medium_size}
use rconfig_sim.Generator.Cisco.Ports.{build_interfaces}
use rconfig_sim.Generator.Cisco.Users.{is_used_id, draw_id, vlan_of, build_vlans, Vlan}
use rconfig_sim.Generator.Cisco.Filters.{build_prefix_lists}
use rconfig_sim.Text.{fields}
use rconfig_sim.Text.Decimal.{decimal, decimal_padded}
use rconfig_sim.Fault.{intn, Rng}

abbrev counting : Rng
counting = record { draws = λ (n : ℕ). n; drawn = 0 }

counting-IsFair : IsFair 3990 (λ (n : ℕ). n)
counting-IsFair p v h = let j = (v + 3990 - p % 3990) % 3990 in (j, omega arith, omega arith)

build_vlans-AreVlans_example : AreVlans (1 ∷ []) 2 (build_vlans 3990 2 counting).0
build_vlans-AreVlans_example = build_vlans-AreVlans 3990 2 counting counting-IsFair (omega arith)

-- The draws are 0 and 1, and then 2 and 3.
two_vlans :
    (build_vlans 3990 2 counting).0
    ≡ some (
        record { id = 10; name = codes "VOICE-0010" }
        ∷ record { id = 12; name = codes "IOT-0012" }
        ∷ [])
unfolding build_vlans draw_id vlan_of is_used_id intn decimal_padded decimal fields
two_vlans = refl

abbrev one_vlan : List Vlan
one_vlan = record { id = 20; name = codes "DATA-0020" } ∷ []

build_interfaces-Refers_example :
    All (Refers one_vlan []) (build_interfaces small_size one_vlan [] counting).0
build_interfaces-Refers_example = build_interfaces-Refers small_size one_vlan [] counting

build_prefix_lists-IsSound_example :
    All (IsSound medium_size) (build_prefix_lists medium_size counting).0
    × (length (build_prefix_lists medium_size counting).0 ≡ 10)
build_prefix_lists-IsSound_example = build_prefix_lists-IsSound medium_size counting
