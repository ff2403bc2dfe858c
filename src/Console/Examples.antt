-- ===== src/Console/Examples.antt =====
-- The theorems about the host's console at concrete inputs, with the XDR routines of
-- Protocol/BigEndian.antt.
use libvirt_sandbox.Base.{◌-◌, ◌≤◌, ◌<◌, ◌≡◌, refl, arith, [], ◌∷◌, List, true, some, Bytes}
use libvirt_sandbox.Buffer.{read_at}
use libvirt_sandbox.Protocol.{Header, proc_stdout, type_data, handshake_sync}
use libvirt_sandbox.Protocol.BigEndian.{big_endian, big_endian-IsXdr}
use libvirt_sandbox.Result.{ok, Leaves}
use libvirt_sandbox.Packet.{Packet, new, encode_payload_raw}
use libvirt_sandbox.Packet.Encode.{IsFrame, encode_header-IsHeaded, encode_payload_raw-IsFrame}
use libvirt_sandbox.Console.{Console, fresh, running, stopping}
use libvirt_sandbox.Console.Terminal.{Terminal}
use libvirt_sandbox.Console.Packets.{headed}
use libvirt_sandbox.Console.Io.{arrived, would_block, taken, next, receive_loop}
use libvirt_sandbox.Console.Local.{got, stdout_write}
use libvirt_sandbox.Console.Step.{Event, attached, stream, stdin, stderr, step, run}
use libvirt_sandbox.Console.Invariant.{Inv, queue_max}
use libvirt_sandbox.Console.Safety.Runs.{fresh-Inv, step-Inv, run-queues_bounded}
use libvirt_sandbox.Console.Stderr.{Stuck, run-stderr_silent, step-Stuck}
use libvirt_sandbox.Console.Stdout.{pending, stdout_total, stdout_write_moves}
use libvirt_sandbox.Console.Delivery.{receive_loop-append, stdout_packet_delivered}

abbrev tty : Terminal
tty = record { is_tty = true; query_succeeds = true; update_succeeds = true }

-- The console is attached, the guest answers with SYNC, and stdin has two bytes.
abbrev events : List (Terminal × Event)
events =
    (tty, attached true true)
    ∷ (tty, stream true true (arrived (handshake_sync ∷ []) ∷ []) (taken 1))
    ∷ (tty, stdin (got (104 ∷ 105 ∷ [])))
    ∷ (tty, stderr (taken 10))
    ∷ []

run-queues_bounded_example :
    (c : Console) × (run big_endian events (fresh 29) ≡ ok c)
    × (c.to_stdout.size < queue_max)
    × (c.to_stderr.size < queue_max)
    × (c.to_stdout.offset ≤ c.to_stdout.size)
    × (c.to_stderr.offset ≤ c.to_stderr.size)
run-queues_bounded_example = run-queues_bounded big_endian big_endian-IsXdr 29 events

step-Inv_example : Leaves Inv (step big_endian tty (attached true true) (fresh 29))
step-Inv_example =
    step-Inv big_endian big_endian-IsXdr tty (attached true true) (fresh 29) (fresh-Inv 29)

run-stderr_silent_example :
    (c : Console) × (run big_endian events (fresh 29) ≡ ok c) × (c.stderr_written ≡ [])
run-stderr_silent_example = run-stderr_silent big_endian big_endian-IsXdr 29 events

-- The guest has exited and left three bytes for stderr, and two for stdout.
abbrev ending : Console
ending = record (fresh 29) {
  state = stopping;
  to_stdout = record { text = some (111 ∷ 107 ∷ []); size = 2; offset = 0 };
  to_stderr = record { text = some (98 ∷ 97 ∷ 100 ∷ []); size = 3; offset = 0 };
}

ending-Inv : Inv ending
ending-Inv = record {
  rx_ok = tt;
  tx_ok = tt;
  stdout_ok = omega arith;
  stderr_ok = omega arith;
  flow_ok = tt;
  stderr_start = refl;
  stderr_silent = refl;
  drained_ok = tt;
}

step-Stuck_example :
    Leaves
      (Stuck big_endian big_endian-IsXdr ending)
      (step big_endian tty (stderr (taken 3)) ending)
step-Stuck_example =
    step-Stuck big_endian big_endian-IsXdr tty (stderr (taken 3)) ending ending-Inv refl
      (omega arith) tt

stdout_write_moves_example :
    (c : Console) × (stdout_write tty big_endian (taken 1) ending ≡ ok c)
    × (c.stdout_written ≡ 111 ∷ [])
    × (pending c.to_stdout ≡ 107 ∷ [])
    × (stdout_total c ≡ 111 ∷ 107 ∷ [])
stdout_write_moves_example = stdout_write_moves big_endian big_endian-IsXdr tty ending ending-Inv 1

-- A packet with two bytes of the guest's stdout.
abbrev stdout_header : Header
stdout_header = record { proc = proc_stdout; kind = type_data; status = 0; serial = 7 }

abbrev words : Bytes
words = 111 ∷ 107 ∷ []

abbrev headed_packet : Packet
headed_packet = (encode_header-IsHeaded big_endian big_endian-IsXdr (headed stdout_header)).0

framed :
    (f : Packet) × (encode_payload_raw big_endian words headed_packet ≡ ok f)
    × IsFrame big_endian big_endian-IsXdr stdout_header words f
framed =
    encode_payload_raw-IsFrame big_endian big_endian-IsXdr words
      (encode_header-IsHeaded big_endian big_endian-IsXdr (headed stdout_header)).2 (omega arith)

abbrev ready : Console
ready = record (fresh 29) { state = running; rx = some (new true) }

receive_loop-append_example :
    receive_loop tty big_endian (arrived (0 ∷ 0 ∷ 0 ∷ []) ∷ would_block ∷ []) ready
    ≡ receive_loop tty big_endian (arrived (0 ∷ []) ∷ arrived (0 ∷ 0 ∷ []) ∷ would_block ∷ []) ready
unfolding new
receive_loop-append_example =
    receive_loop-append tty big_endian (new true) (0 ∷ []) (0 ∷ 0 ∷ []) (would_block ∷ []) ready
      refl (omega arith) (omega arith) (omega arith) (omega arith)

stdout_packet_delivered_example :
    (c : Console) × (receive_loop tty big_endian
        (arrived (read_at framed.0.buffer 0 4)
          ∷ arrived (read_at framed.0.buffer 4 (framed.0.buffer_length - 4))
          ∷ [])
        ready
      ≡ next c)
    × (c.state ≡ running)
    × (stdout_total c ≡ words)
stdout_packet_delivered_example =
    stdout_packet_delivered tty big_endian big_endian-IsXdr framed.2 (omega arith) refl refl ready
      refl refl (omega arith)
