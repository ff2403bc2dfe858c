-- ===== src/Guest/Safety.antt =====
-- The invariant over the parts of the guest's event loop in libvirt-sandbox-init-common.c.
pub mod Stdin
pub mod Packets
pub mod App
pub mod Dispatch
pub mod Host
pub mod Runs
