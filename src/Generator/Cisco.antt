-- ===== src/Generator/Cisco.antt =====
-- internal/configs/build.go and data.go: what is drawn for a Cisco device.
pub mod Size
pub mod Sizes
pub mod Users
pub mod Interfaces
pub mod Ports
pub mod Acls
pub mod Routing
pub mod Policies
pub mod Filters
pub mod Build
