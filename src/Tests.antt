-- ===== src/Tests.antt =====
-- Runs of the model on concrete inputs, and the theorems at such inputs.
mod Commands
mod Lines
mod Tl1
mod Nodes
mod Sessions
mod Fleet
mod Loading
mod Profiles
mod Generation
mod Cisco
