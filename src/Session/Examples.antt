-- ===== src/Session/Examples.antt =====
-- The theorems about the guest, and about both sides, at concrete inputs, with the XDR routines of
-- Protocol/BigEndian.antt.
use libvirt_sandbox.Base.{
  ◌-◌, ◌≤◌, ◌<◌, ◌≡◌, ◌⊎◌, refl, arith, [], ◌∷◌, List, true, false, some, none,
}
use libvirt_sandbox.Buffer.{read_at}
use libvirt_sandbox.Protocol.BigEndian.{big_endian, big_endian-IsXdr}
use libvirt_sandbox.Result.{ok}
use libvirt_sandbox.Packet.{Packet, new}
use libvirt_sandbox.Console.{Console, State, fresh}
use libvirt_sandbox.Console.Terminal.{Terminal}
use libvirt_sandbox.Console.Packets.{build_stdin, next_serial}
use libvirt_sandbox.Console.Io.{arrived, next, receive_loop}
use libvirt_sandbox.Guest.{Guest, start, running}
use libvirt_sandbox.Guest.Calls.{got, wrote}
use libvirt_sandbox.Guest.Packets.{encode_exit}
use libvirt_sandbox.Guest.Stdin.{write_stdin}
use libvirt_sandbox.Guest.Host.{Spawn, read_host}
use libvirt_sandbox.Guest.App.{reap}
use libvirt_sandbox.Guest.Loop.{Setting, Report, eventloop, host_watch}
use libvirt_sandbox.Guest.Invariant.{Inv, Keeps, start-Inv}
use libvirt_sandbox.Guest.Safety.Runs.{eventloop-Inv}
use libvirt_sandbox.Guest.Deaf.{Deaf}
use libvirt_sandbox.Guest.Exit.{reap-last_status}
use libvirt_sandbox.Guest.Order.{stdin_total, write_stdin_moves}
use libvirt_sandbox.Console.Stdout.{stdout_total}
use libvirt_sandbox.Guest.Packets.{counted}
use libvirt_sandbox.Guest.App.{serve_stdout}
use libvirt_sandbox.Session.Output.{output_delivered}
use libvirt_sandbox.Session.Exit.{Exited, exit_status_delivered}
use libvirt_sandbox.Session.Received.{StdinReceived}
use libvirt_sandbox.Session.Stdin.{HoldsBack, stdin_delivered}
use libvirt_sandbox.Session.Silence.{stdin_end_deafens}

abbrev pipes : Spawn
pipes = record {
  want_tty = false;
  master = none;
  owned = true;
  pipes = some (10, 11, 12);
  pid = some 42;
}

abbrev setting : Setting
setting = record { sigread = 3; host = 4; spawn = pipes }

abbrev quiet : Report
quiet = record {
  ready = record { readable = false; writable = false; hangup = false; broken = false };
  woken = false;
  waits = [];
  reads = [];
  read = got [];
  write = wrote 0;
}

-- The host sends WAIT, and then SYNC behind what the guest answers.
abbrev wait_in : Report
wait_in = record quiet {
  ready = record { readable = true; writable = false; hangup = false; broken = false };
  reads = got (0o33 ∷ []) ∷ [];
}

abbrev sync_in : Report
sync_in = record quiet {
  ready = record { readable = true; writable = true; hangup = false; broken = false };
  reads = got (0o34 ∷ []) ∷ [];
  write = wrote 1;
}

abbrev polls : List (List Report)
polls = (quiet ∷ wait_in ∷ []) ∷ (quiet ∷ sync_in ∷ []) ∷ []

eventloop-Inv_example : Keeps Inv (eventloop big_endian setting polls start)
eventloop-Inv_example = eventloop-Inv big_endian big_endian-IsXdr setting polls start start-Inv

abbrev console : Console
console = record (fresh 29) { state = State.running; rx = some (new true) }

-- The command runs, and the guest is ready for a packet.
abbrev guest : Guest
guest = record start { state = running; rx = some (new true); child = some 42; app_in = some 10 }

guest-Inv : Inv guest
unfolding new
guest-Inv = record { rx_ok = omega arith; tx_ok = tt; stdin_ok = (refl, refl); alone = tt }

abbrev tty : Terminal
tty = record { is_tty = false; query_succeeds = true; update_succeeds = true }

exit_status_delivered_example :
    (f : Packet) × (encode_exit big_endian 256 5 ≡ ok f)
    × (c : Console) × (receive_loop tty big_endian
          (arrived (read_at f.buffer 0 4) ∷ arrived (read_at f.buffer 4 (f.buffer_length - 4)) ∷ [])
          console
        ≡ next c)
    × Exited big_endian big_endian-IsXdr 256 console c
exit_status_delivered_example =
    exit_status_delivered big_endian big_endian-IsXdr tty 256 5 console (omega arith) (omega arith)
      refl refl

stdin_delivered_example :
    (f : Packet) × (build_stdin big_endian (104 ∷ 105 ∷ []) console ≡ (next_serial console, ok f))
    × (g : Guest) × (read_host big_endian pipes
          (got (read_at f.buffer 0 4) ∷ got (read_at f.buffer 4 (f.buffer_length - 4)) ∷ [])
          guest
        ≡ ok g)
    × StdinReceived (104 ∷ 105 ∷ []) guest g
    × Keeps (HoldsBack big_endian pipes) (eventloop big_endian setting polls g)
stdin_delivered_example =
    stdin_delivered big_endian big_endian-IsXdr setting (104 ∷ 105 ∷ []) console guest polls
      (omega arith) guest-Inv refl refl

stdin_end_deafens_example :
    (f : Packet) × (build_stdin big_endian [] console ≡ (next_serial console, ok f))
    × (g : Guest) × (read_host big_endian pipes
          (got (read_at f.buffer 0 4) ∷ got (read_at f.buffer 4 (f.buffer_length - 4)) ∷ [])
          guest
        ≡ ok g)
    × Keeps
        (λ h. Deaf h × ((host_watch h.state h).readable ≡ false))
        (eventloop big_endian setting polls g)
stdin_end_deafens_example =
    stdin_end_deafens big_endian big_endian-IsXdr setting console guest polls guest-Inv refl refl

-- The command has exited with 0, and another process, reaped behind it, with 256.
reap-last_status_example :
    Keeps (λ g. g.exit_status ≡ 256) (reap big_endian ((42, 0) ∷ (43, 256) ∷ []) guest)
reap-last_status_example = reap-last_status big_endian big_endian-IsXdr ((42, 0) ∷ []) 43 256 guest

-- Two bytes for the application, of which one is written.
abbrev typed : Guest
typed = record guest {
  rx = none;
  to_stdin = some (104 ∷ 105 ∷ []);
  to_stdin_length = 2;
  to_stdin_offset = 0;
}

typed-Inv : Inv typed
typed-Inv = record {
  rx_ok = tt;
  tx_ok = tt;
  stdin_ok = (refl, omega arith, omega arith);
  alone = tt;
}

write_stdin_moves_example :
    (g : Guest) × (write_stdin (wrote 1) typed ≡ ok g)
    × (g.stdin_written ≡ 104 ∷ [])
    × (stdin_total g ≡ 104 ∷ 105 ∷ [])
    × (((2 ≤ 1) × (g.to_stdin ≡ none) × (g.rx ≡ some (new true)))
        ⊎ ((1 < 2) × (g.to_stdin ≡ some (104 ∷ 105 ∷ [])) × (g.rx ≡ none)))
write_stdin_moves_example = write_stdin_moves (104 ∷ 105 ∷ []) typed refl typed-Inv 1

output_delivered_example :
    (f : Packet) × (serve_stdout big_endian wait_in.ready (got (111 ∷ 107 ∷ [])) guest
      ≡ ok (record (counted guest) { tx = some f }))
    × (c : Console) × (receive_loop tty big_endian
          (arrived (read_at f.buffer 0 4) ∷ arrived (read_at f.buffer 4 (f.buffer_length - 4)) ∷ [])
          console
        ≡ next c)
    × (c.state ≡ State.running)
    × (stdout_total c ≡ 111 ∷ 107 ∷ [])
output_delivered_example =
    output_delivered big_endian big_endian-IsXdr tty wait_in.ready (111 ∷ 107 ∷ []) guest console
      refl refl (omega arith) (omega arith) (omega arith) refl refl (omega arith)
