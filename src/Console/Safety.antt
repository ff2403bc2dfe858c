-- ===== src/Console/Safety.antt =====
-- The invariant over the operations of libvirt-sandbox-console-rpc.c.
pub mod States
pub mod Terminal
pub mod Dispatch
pub mod Receive
pub mod Io
pub mod Local
pub mod Output
pub mod Runs
