-- ===== src/Session/Output.antt =====
-- The output of the application on its way to the host's stdout.
use libvirt_sandbox.Base.{
  ◌-◌, ◌≤◌, ◌<◌, ◌≡◌, refl, arith, ap, ◌∙◌, [], ◌∷◌, ◌++◌, true, none, some, Option, Bytes, length,
  take_all, u32_mod,
}
use libvirt_sandbox.Buffer.{read_at}
use libvirt_sandbox.Protocol.{HeaderFits, proc_stdout, type_data}
use libvirt_sandbox.Protocol.Xdr.{Xdr, IsXdr}
use libvirt_sandbox.Result.{Result, ok}
use libvirt_sandbox.Packet.{Packet, new}
use libvirt_sandbox.Console.{Console, running}
use libvirt_sandbox.Console.Terminal.{Terminal}
use libvirt_sandbox.Console.Io.{arrived, next, receive_loop}
use libvirt_sandbox.Console.Invariant.{QueueOk}
use libvirt_sandbox.Console.Stdout.{stdout_total}
use libvirt_sandbox.Console.Delivery.{stdout_packet_delivered}
use libvirt_sandbox.Guest.{Guest}
use libvirt_sandbox.Guest.Calls.{got, read_data}
use libvirt_sandbox.Guest.Packets.{guest_header, send_stdout, encode_stdout, counted}
use libvirt_sandbox.Guest.App.{Ready, any, chunk, serve_stdout, stdout_read}
use libvirt_sandbox.Guest.Safety.Packets.{stdout_built}

module _ (x : Xdr) (law : IsXdr x) where
  chunk_read :
      (bytes : Bytes) (g : Guest)
      → 0 < length bytes
      → length bytes ≤ chunk
      → stdout_read x (read_data chunk (got bytes)) g ≡ send_stdout x bytes g
  unfolding stdout_read read_data
  chunk_read [] g some_in short = absurd (omega arith)
  chunk_read (b ∷ bytes) g some_in short = rw (take_all chunk (b ∷ bytes) short) refl

  serve_stdout-idle :
      (r : Ready) (bytes : Bytes) (g : Guest)
      → any r ≡ true
      → g.tx ≡ none
      → serve_stdout x r (got bytes) g ≡ stdout_read x (read_data chunk (got bytes)) g
  unfolding serve_stdout
  serve_stdout-idle r bytes g hit idle = rw hit (
      ap {A = Option Packet} {B = Result Guest}
        (λ o. elim o [ none ↦ stdout_read x (read_data chunk (got bytes)) g | some p ↦ ok g ]) idle)

  send_stdout-sent :
      (bytes : Bytes) (g : Guest) (f : Packet)
      → encode_stdout x bytes g.serial ≡ ok f
      → send_stdout x bytes g ≡ ok (record (counted g) { tx = some f })
  unfolding send_stdout
  send_stdout-sent bytes g f e = rw e refl

  -- Output that the guest reads from the application, up to 4096 bytes, while it has nothing to send
  -- becomes the packet to be sent; when this one arrives, in its two parts, at a host that runs and is
  -- ready for a packet, exactly these bytes are added to the guest's output on the host.
  pub output_delivered :
      (t : Terminal) (r : Ready) (bytes : Bytes) (g : Guest) (c : Console)
      → any r ≡ true
      → g.tx ≡ none
      → g.serial < u32_mod
      → 0 < length bytes
      → length bytes ≤ chunk
      → c.state ≡ running
      → c.rx ≡ some (new true)
      → QueueOk c.to_stdout
      → (f : Packet) × (serve_stdout x r (got bytes) g ≡ ok (record (counted g) { tx = some f }))
        × (c' : Console) × (receive_loop t x
              (arrived (read_at f.buffer 0 4)
                ∷ arrived (read_at f.buffer 4 (f.buffer_length - 4))
                ∷ [])
              c
            ≡ next c')
        × (c'.state ≡ running)
        × (stdout_total c' ≡ stdout_total c ++ bytes)
  output_delivered t r bytes g c hit idle serial_fits some_in short busy ready queue_ok =
      let (f, e, frame) = stdout_built x law bytes g.serial (omega arith) in
      let fits : HeaderFits (guest_header proc_stdout type_data g.serial) = record {
        proc_fits = omega arith;
        kind_fits = omega arith;
        status_fits = omega arith;
        serial_fits = serial_fits;
      } in
      let (c', run, state, total) =
        stdout_packet_delivered t x law frame fits refl refl c busy ready queue_ok in
      (
        f,
        serve_stdout-idle r bytes g hit idle
            ∙ chunk_read bytes g some_in short
            ∙ send_stdout-sent bytes g f e,
        c',
        run,
        state,
        total,
      )
