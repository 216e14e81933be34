-- ===== src/Response/Canned.antt =====
-- internal/sshsrv/dispatch.go: `showVersionFor` and `showInventoryFor`, the canned outputs with the
-- device's hostname and serial number put in.
use rconfig_sim.Base.{Bytes, codes, crlf, List, [], ◌∷◌, ◌++◌}

-- The pieces one after another.
abbrev pub lines : List Bytes → Bytes
lines [] = []
lines (p ∷ ps) = p ++ lines ps

abbrev pub version_part_1 : Bytes
version_part_1 = lines (
    codes
      "Cisco IOS Software, C2900 Software (C2900-UNIVERSALK9-M), Version 15.5(3)M7, RELEASE SOFTWARE (fc2)\r\n"
    ∷ codes "Technical Support: http://www.cisco.com/techsupport\r\n"
    ∷ codes "Copyright (c) 1986-2018 by Cisco Systems, Inc.\r\n"
    ∷ codes "Compiled Wed 14-Mar-18 16:23 by prod_rel_team\r\n"
    ∷ codes "\r\n"
    ∷ codes "ROM: System Bootstrap, Version 15.0(1r)M16, RELEASE SOFTWARE (fc1)\r\n"
    ∷ codes "\r\n"
    ∷ [])

abbrev pub version_part_2 : Bytes
version_part_2 = lines (
    codes " uptime is 12 weeks, 3 days, 11 hours, 29 minutes\r\n"
    ∷ codes "System returned to ROM by power-on\r\n"
    ∷ codes "System restarted at 11:42:13 UTC Mon Mar 10 2025\r\n"
    ∷ codes "System image file is \"flash0:c2900-universalk9-mz.SPA.155-3.M7.bin\"\r\n"
    ∷ codes "Last reload type: Normal Reload\r\n"
    ∷ codes "Last reload reason: power-on\r\n"
    ∷ codes "\r\n"
    ∷ codes "cisco CISCO2901/K9 (revision 1.0) with 491520K/32768K bytes of memory.\r\n"
    ∷ [])

abbrev pub board_id : Bytes
board_id = codes "Processor board ID "

abbrev pub version_part_3 : Bytes
version_part_3 = lines (
    codes "2 Gigabit Ethernet interfaces\r\n"
    ∷ codes "DRAM configuration is 64 bits wide with parity enabled.\r\n"
    ∷ codes "255K bytes of non-volatile configuration memory.\r\n"
    ∷ codes "250880K bytes of ATA System CompactFlash 0 (Read/Write)\r\n"
    ∷ codes "\r\n"
    ∷ codes "License Info:\r\n"
    ∷ codes "License UDI:\r\n"
    ∷ codes "-------------------------------------------------\r\n"
    ∷ codes "Device#   PID                   SN\r\n"
    ∷ codes "*0        CISCO2901/K9          "
    ∷ [])

abbrev pub version_part_4 : Bytes
version_part_4 = lines (
    codes "\r\n"
    ∷ codes "\r\n"
    ∷ codes "Technology Package License Information for Module:'c2900'\r\n"
    ∷ codes "\r\n"
    ∷ codes "-----------------------------------------------------------------\r\n"
    ∷ codes "Technology    Technology-package           Technology-package\r\n"
    ∷ codes "              Current       Type           Next reboot\r\n"
    ∷ codes "------------------------------------------------------------------\r\n"
    ∷ codes "ipbase        ipbasek9      Permanent      ipbasek9\r\n"
    ∷ codes "security      None          None           None\r\n"
    ∷ codes "uc            None          None           None\r\n"
    ∷ codes "data          None          None           None\r\n"
    ∷ codes "\r\n"
    ∷ codes "Configuration register is 0x2102\r\n"
    ∷ codes "\r\n"
    ∷ [])

abbrev pub inventory_part_0 : Bytes
inventory_part_0 = codes "NAME: \"CISCO2901/K9\", DESCR: \"Cisco 2901 Integrated Services Router, "

abbrev pub inventory_part_1 : Bytes
inventory_part_1 = codes "\"\r\n"

abbrev pub chassis_sn : Bytes
chassis_sn = codes "PID: CISCO2901/K9      , VID: V07 , SN: "

abbrev pub inventory_part_2 : Bytes
inventory_part_2 = lines (
    codes "\r\n"
    ∷ codes
        "NAME: \"C2901 Mother board 2FE, integrated VPN and 4W\", DESCR: \"C2901 Motherboard with 2 GE and integrated VPN\"\r\n"
    ∷ codes "PID: C2901-MB          , VID: V06 , SN: "
    ∷ [])

abbrev pub inventory_part_3 : Bytes
inventory_part_3 = lines (
    codes "-MB\r\n"
    ∷ codes "\r\n"
    ∷ codes "NAME: \"Power Supply Module 0\", DESCR: \"Cisco 2901 AC Power Supply\"\r\n"
    ∷ codes "PID: PWR-2901-AC       , VID: V01 , SN: "
    ∷ [])

abbrev pub inventory_part_4 : Bytes
inventory_part_4 = lines (
    codes "-PS\r\n"
    ∷ codes "\r\n"
    ∷ codes "NAME: \"Gi0/0/0\", DESCR: \"Integrated Gigabit Ethernet Interface\"\r\n"
    ∷ codes "PID: CISCO2901/K9      , VID: V01 , SN:\r\n"
    ∷ codes "\r\n"
    ∷ codes "NAME: \"Gi0/0/1\", DESCR: \"Integrated Gigabit Ethernet Interface\"\r\n"
    ∷ codes "PID: CISCO2901/K9      , VID: V01 , SN:\r\n"
    ∷ codes "\r\n"
    ∷ [])

unfoldable pub show_version_for : Bytes → Bytes → Bytes
show_version_for hostname serial = lines (
    version_part_1 ∷ hostname ∷ version_part_2 ∷ board_id ∷ serial ∷ crlf ∷ version_part_3 ∷ serial
    ∷ version_part_4 ∷ [])

unfoldable pub show_inventory_for : Bytes → Bytes → Bytes
show_inventory_for hostname serial = lines (
    inventory_part_0 ∷ hostname ∷ inventory_part_1 ∷ chassis_sn ∷ serial ∷ crlf ∷ inventory_part_2
    ∷ serial ∷ inventory_part_3 ∷ serial ∷ inventory_part_4 ∷ [])
