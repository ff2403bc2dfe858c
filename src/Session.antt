-- ===== src/Session.antt =====
-- The two sides together: what libvirt-sandbox-init-common.c sends, libvirt-sandbox-console-rpc.c
-- receives, and the other way round.
pub mod Exit
pub mod Output
pub mod Received
pub mod Stdin
pub mod Silence
mod Examples
