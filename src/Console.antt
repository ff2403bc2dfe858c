-- ===== src/Console.antt =====
-- libvirt-sandbox/libvirt-sandbox-console-rpc.c: the state of the host's side of the console.
-- GObject references and event sources are kept as far as the code tests them: whether they are set.
pub mod Packets
pub mod Events
pub mod Terminal
pub mod Receive
pub mod Io
pub mod Local
pub mod Step
pub mod Invariant
pub mod Safety
pub mod Stderr
pub mod Stdout
pub mod Delivery
mod Examples
use libvirt_sandbox.Base.{
  ℕ, ◌+◌, ◌==◌, ltb, leb, if◌then◌else◌, Bool, true, false, not, ◌&&◌, Option, none, some, List, [],
  ◌∷◌, ◌++◌, Bytes, length, take, drop, add64,
}
use libvirt_sandbox.Packet.{Packet}

-- GVirSandboxConsoleRpcState
pub data State : Type 0 where
  inactive waiting syncing running stopping finished : State

abbrev pub number : State → ℕ
number inactive = 0
number waiting = 1
number syncing = 2
number running = 3
number stopping = 4
number finished = 5

-- GVIR_SANDBOX_CONSOLE_MAX_QUEUED_DATA
abbrev pub max_queued_data : ℕ
max_queued_data = 1024

-- MAX_IO
abbrev pub max_io : ℕ
max_io = 4096

-- localToStdout, localToStdoutLength and localToStdoutOffset; the same for stderr. `none` is NULL.
pub record Queue : Type 0 where
  pub text : Option Bytes
  pub size : ℕ
  pub offset : ℕ

abbrev pub empty_queue : Queue
empty_queue = record { text = none; size = 0; offset = 0 }

-- The signals that the console emits: "exited" with the status word, "closed" with the error flag.
pub data Signal : Type 0 where
  exited : ℕ → Signal
  closed : Bool → Signal

-- GVirStreamIOCondition, as far as the console asks for it.
pub record Watch : Type 0 where
  pub readable : Bool
  pub writable : Bool

abbrev pub no_watch : Watch
no_watch = record { readable = false; writable = false }

-- _GVirSandboxConsoleRpcPrivate, the escape character of GVirSandboxConsole, and what the console
-- has done to its surroundings: signals (latest first), bytes handed over, timers started.
pub record Console : Type 0 where
  pub state : State
  pub local_stdin : Bool
  pub termios_active : Bool
  pub allow_escape : Bool
  pub escape : ℕ
  pub rx : Option Packet
  pub tx : Option Packet
  pub to_stdout : Queue
  pub to_stderr : Queue
  pub local_eof : Bool
  pub stdin_source : Bool
  pub stdout_source : Bool
  pub stderr_source : Bool
  pub console_watch : Watch
  pub serial : ℕ
  pub signals : List Signal
  pub stream_sent : Bytes
  pub stdout_written : Bytes
  pub stderr_written : Bytes
  pub timers : ℕ

-- What g_object_new leaves, with an escape character.
abbrev pub fresh : ℕ → Console
fresh e = record {
  state = inactive;
  local_stdin = false;
  termios_active = false;
  allow_escape = false;
  escape = e;
  rx = none;
  tx = none;
  to_stdout = empty_queue;
  to_stderr = empty_queue;
  local_eof = false;
  stdin_source = false;
  stdout_source = false;
  stderr_source = false;
  console_watch = no_watch;
  serial = 0;
  signals = [];
  stream_sent = [];
  stdout_written = [];
  stderr_written = [];
  timers = 0;
}

abbrev pub is_set {ℓ} : {A : Type ℓ} → Option A → Bool
is_set none = false
is_set (some a) = true

-- `g_new0` or `g_renew` to hold `bytes` behind what is queued; of no bytes `g_new0` makes NULL.
append : Queue → Bytes → Option Bytes → Queue
append q bytes (some old) = record q {
  text = some (old ++ bytes);
  size = add64 q.size (length bytes);
}
append q [] none = empty_queue
append q (b ∷ bytes) none = record {
  text = some (b ∷ bytes);
  size = length (b ∷ bytes);
  offset = 0;
}

-- g_realloc and the memcpy to the position `size`, which is the end of the memory: that the text has
-- `size` bytes is part of the invariant, and so the bytes are appended.
unfoldable pub enqueue : Queue → Bytes → Queue
unfolding append
enqueue q bytes = append q bytes q.text

-- The `n` bytes of the queue's memory from `at` on, unless they reach outside it.
region : ℕ → ℕ → Option Bytes → Option Bytes
region at n none = if at + n == 0 then some [] else none
region at n (some bytes) =
    if leb (at + n) (length bytes) then some (take n (drop at bytes)) else none

unfoldable pub queued : Queue → ℕ → ℕ → Option Bytes
unfolding region
queued q at n = region at n q.text
