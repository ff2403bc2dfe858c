-- ===== src/Protocol.antt =====
-- libvirt-sandbox/libvirt-sandbox-protocol.x: the constants and the message types of the console
-- protocol. A C enum is the number that it stands for, since any number can arrive on the wire.
pub mod Xdr
pub mod BigEndian
use libvirt_sandbox.Base.{ℕ, ◌<◌, u32_mod}

abbrev pub packet_max : ℕ
packet_max = 262144

abbrev pub len_max : ℕ
len_max = 4

abbrev pub header_max : ℕ
header_max = 16

abbrev pub payload_max : ℕ
payload_max = 262128

-- 033 and 034.
abbrev pub handshake_wait : ℕ
handshake_wait = 0o33

abbrev pub handshake_sync : ℕ
handshake_sync = 0o34

-- GVirSandboxProtocolProc
abbrev pub proc_stdin : ℕ
proc_stdin = 1

abbrev pub proc_stdout : ℕ
proc_stdout = 2

abbrev pub proc_stderr : ℕ
proc_stderr = 3

abbrev pub proc_exit : ℕ
proc_exit = 4

abbrev pub proc_quit : ℕ
proc_quit = 5

-- GVirSandboxProtocolType
abbrev pub type_message : ℕ
type_message = 0

abbrev pub type_data : ℕ
type_data = 1

-- GVirSandboxProtocolStatus
abbrev pub status_ok : ℕ
status_ok = 0

pub record Header : Type 0 where
  pub proc : ℕ
  pub kind : ℕ
  pub status : ℕ
  pub serial : ℕ

-- The fields are words of 32 bits.
pub record HeaderFits (h : Header) : Type 0 where
  pub proc_fits : h.proc < u32_mod
  pub kind_fits : h.kind < u32_mod
  pub status_fits : h.status < u32_mod
  pub serial_fits : h.serial < u32_mod
