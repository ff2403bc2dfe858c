-- ===== src/Guest.antt =====
-- libvirt-sandbox/libvirt-sandbox-init-common.c: the guest's side of the console, the local
-- variables of `eventloop` as a record. A descriptor of -1 and a pid that is not there are `none`.
pub mod Calls
pub mod Packets
pub mod Stdin
pub mod Host
pub mod App
pub mod Loop
pub mod Invariant
pub mod Safety
pub mod Deaf
pub mod Exit
pub mod Order
use libvirt_sandbox.Base.{ℕ, Bool, false, Option, none, some, Bytes, []}
use libvirt_sandbox.Packet.{Packet, new}

-- GVirSandboxConsoleState
pub data ConsoleState : Type 0 where
  waiting syncing running : ConsoleState

pub record Guest : Type 0 where
  pub state : ConsoleState
  pub rx : Option Packet
  pub tx : Option Packet
  pub quit : Bool
  pub app_out_eof : Bool
  pub app_err_eof : Bool
  pub app_quit : Bool
  pub exit_status : ℕ
  pub to_stdin : Option Bytes
  pub to_stdin_length : ℕ
  pub to_stdin_offset : ℕ
  pub serial : ℕ
  pub child : Option ℕ
  pub app_in : Option ℕ
  pub app_out : Option ℕ
  pub app_err : Option ℕ
  -- the bytes that were handed to the host and to the application
  pub host_sent : Bytes
  pub stdin_written : Bytes

-- "Ready to get a sync packet"
abbrev pub start : Guest
start = record {
  state = waiting;
  rx = some (record (new false) { buffer_length = 1 });
  tx = none;
  quit = false;
  app_out_eof = false;
  app_err_eof = false;
  app_quit = false;
  exit_status = 0;
  to_stdin = none;
  to_stdin_length = 0;
  to_stdin_offset = 0;
  serial = 0;
  child = none;
  app_in = none;
  app_out = none;
  app_err = none;
  host_sent = [];
  stdin_written = [];
}
