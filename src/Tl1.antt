-- ===== src/Tl1.antt =====
-- internal/sshsrv/tl1.go: the machinery that the TL1 drivers share.
pub mod Read
pub mod Grammar
pub mod Block
pub mod Sections
