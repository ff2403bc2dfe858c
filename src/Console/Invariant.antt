-- ===== src/Console/Invariant.antt =====
-- What holds of the console between two events.

use libvirt_sandbox.Base.{ℕ, ◌+◌, ◌≤◌, ◌<◌, ◌≡◌, arith, Option, none, some, [], Bytes, length}
use libvirt_sandbox.Protocol.{Header, len_max, payload_max, proc_quit, proc_stdin}
use libvirt_sandbox.Protocol.Xdr.{Xdr, IsXdr}
use libvirt_sandbox.Result.{ok}
use libvirt_sandbox.Packet.{Packet}
use libvirt_sandbox.Packet.Safety.{IsValid}
use libvirt_sandbox.Packet.Encode.{
  IsFrame, encode_header-IsHeaded, encode_payload_empty-IsFrame, encode_payload_raw-IsFrame,
}
use libvirt_sandbox.Console.{Console, State, waiting, running, stopping, Queue, max_queued_data}
use libvirt_sandbox.Console.Packets.{build_quit, build_stdin, data_header, next_serial, headed}

-- A packet is being received only in two states; while running, its length word comes first.
abbrev pub RxOk : State → Option Packet → Type 0
RxOk s none = Unit {0}
RxOk waiting (some p) = IsValid p
RxOk running (some p) = IsValid p × (len_max ≤ p.buffer_length)
RxOk _ (some p) = ⊥

abbrev pub TxOk : Option Packet → Type 0
TxOk none = Unit {0}
TxOk (some p) = IsValid p

-- One payload more than what the limit lets through.
abbrev pub queue_max : ℕ
queue_max = max_queued_data + payload_max

abbrev pub text_size : Option Bytes → ℕ
text_size none = 0
text_size (some bytes) = length bytes

pub record QueueOk (q : Queue) : Type 0 where
  pub size_eq : text_size q.text ≡ q.size
  pub offset_le : q.offset ≤ q.size
  pub bounded : q.size < queue_max

-- While running, a packet is received only below the limit of both queues.
abbrev pub FlowOk : State → Option Packet → ℕ → ℕ → Type 0
FlowOk running (some p) a b = (a < max_queued_data) × (b < max_queued_data)
FlowOk _ _ a b = Unit {0}

-- Only while running and stopping is anything queued.
abbrev pub DrainedOk : State → ℕ → ℕ → Type 0
DrainedOk running a b = Unit {0}
DrainedOk stopping a b = Unit {0}
DrainedOk _ a b = (a ≡ 0) × (b ≡ 0)

pub record Inv (c : Console) : Type 0 where
  pub rx_ok : RxOk c.state c.rx
  pub tx_ok : TxOk c.tx
  pub stdout_ok : QueueOk c.to_stdout
  pub stderr_ok : QueueOk c.to_stderr
  pub flow_ok : FlowOk c.state c.rx c.to_stdout.size c.to_stderr.size
  -- Writing to stderr never moves its position: see `Console.Stderr`.
  pub stderr_start : c.to_stderr.offset ≡ 0
  pub stderr_silent : c.stderr_written ≡ []
  pub drained_ok : DrainedOk c.state c.to_stdout.size c.to_stderr.size

module _ (x : Xdr) (law : IsXdr x) where
  pub quit_built :
      (c : Console)
      → (p : Packet) × (build_quit x c ≡ (next_serial c, ok p))
        × IsFrame x law (data_header proc_quit c.serial) [] p
  unfolding build_quit
  quit_built c =
      let (m, e, h) = encode_header-IsHeaded x law (headed (data_header proc_quit c.serial)) in
      let (f, e', frame) = encode_payload_empty-IsFrame x law h in (f, cc (e, e'), frame)

  pub stdin_built :
      (bytes : Bytes) (c : Console)
      → length bytes ≤ payload_max
      → (p : Packet) × (build_stdin x bytes c ≡ (next_serial c, ok p))
        × IsFrame x law (data_header proc_stdin c.serial) bytes p
  unfolding build_stdin
  stdin_built bytes c short =
      let (m, e, h) = encode_header-IsHeaded x law (headed (data_header proc_stdin c.serial)) in
      let (f, e', frame) = encode_payload_raw-IsFrame x law bytes h short in (f, cc (e, e'), frame)

  pub IsFrame-IsValid :
      {h : Header} {bytes : Bytes} {p : Packet} → IsFrame x law h bytes p → IsValid p
  IsFrame-IsValid frame = omega (arith, frame.length_le, frame.offset_eq)
