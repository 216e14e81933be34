-- ===== src/Drivers.antt =====
-- The TL1 drivers of internal/sshsrv.
pub mod Node
pub mod Ciena
pub mod Infinera
pub mod CiscoOns
pub mod Vendor
pub mod Login
pub mod Labels
pub mod Relay
pub mod Routing
