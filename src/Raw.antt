-- ===== src/Raw.antt =====
-- libvirt-sandbox/libvirt-sandbox-console-raw.c: the host's console without packets, over a stream of
-- the domain or, directly, over its pseudo-tty. A queue is the bytes in front of its offset, and the
-- offset is their number; memmove keeps them at the start of the memory.
pub mod Events
pub mod Terminal
pub mod Io
pub mod Step
pub mod Bounded
pub mod Bounds
pub mod Order
pub mod Direct
mod Examples
use libvirt_sandbox.Base.{ℕ, Bool, false, List, [], Bytes}
use libvirt_sandbox.Console.{Signal, Watch, no_watch}

-- _GVirSandboxConsoleRawPrivate. `stream` and `direct` say whether `console`, or `consoleInput` and
-- `consoleOutput`, are set.
pub record Raw : Type 0 where
  pub attached : Bool
  pub stream : Bool
  pub direct : Bool
  pub local_stdin : Bool
  pub local_stdout : Bool
  pub termios_active : Bool
  pub to_local : Bytes
  pub to_local_length : ℕ
  pub to_console : Bytes
  pub to_console_length : ℕ
  pub local_eof : Bool
  pub stdin_source : Bool
  pub stdout_source : Bool
  pub stderr_source : Bool
  pub console_watch : Watch
  pub input_source : Bool
  pub output_source : Bool
  pub escape : ℕ
  -- what was signalled (latest first) and handed over
  pub signals : List Signal
  pub local_written : Bytes
  pub console_written : Bytes

abbrev pub blank : ℕ → Raw
blank e = record {
  attached = false;
  stream = false;
  direct = false;
  local_stdin = false;
  local_stdout = false;
  termios_active = false;
  to_local = [];
  to_local_length = 0;
  to_console = [];
  to_console_length = 0;
  local_eof = false;
  stdin_source = false;
  stdout_source = false;
  stderr_source = false;
  console_watch = no_watch;
  input_source = false;
  output_source = false;
  escape = e;
  signals = [];
  local_written = [];
  console_written = [];
}
