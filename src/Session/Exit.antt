-- ===== src/Session/Exit.antt =====
-- The exit status of the guest's command on its way to the host's "exited" signal.
use mathlib.Core.List.{append-nil}
use libvirt_sandbox.Base.{
  ℕ, ◌+◌, ◌-◌, ◌<◌, ◌≡◌, refl, arith, ◌∙◌, [], ◌∷◌, true, none, some, Bytes, ◌==◌, ◌&&◌, sub64,
  add64, u32_mod, Bool-cases, inl, inr, ◌⊎◌, length, ap,
}
use libvirt_sandbox.Buffer.{read_at}
use libvirt_sandbox.Protocol.{
  Header, HeaderFits, proc_exit, proc_quit, status_ok, type_message, payload_max,
}
use libvirt_sandbox.Protocol.Xdr.{Xdr, IsXdr}
use libvirt_sandbox.Result.{ok}
use libvirt_sandbox.Packet.{Packet, new, decode_payload_msg, inside, room}
use libvirt_sandbox.Packet.Encode.{IsFrame}
use libvirt_sandbox.Console.{Console, running, stopping, finished, exited}
use libvirt_sandbox.Console.Packets.{data_header}
use libvirt_sandbox.Console.Events.{set_state}
use libvirt_sandbox.Console.Terminal.{Terminal}
use libvirt_sandbox.Console.Receive.{dispatch_proc, dispatch_header, guest_exited, next_rx}
use libvirt_sandbox.Console.Io.{arrived, next, receive_loop}
use libvirt_sandbox.Console.Invariant.{quit_built}
use libvirt_sandbox.Console.Delivery.{all_in, header_step, payload_step, packet_arrives}
use libvirt_sandbox.Guest.Packets.{encode_exit, guest_header}
use libvirt_sandbox.Guest.Safety.Packets.{exit_built}

-- What the host has become once the command's exit is known.
pub record Exited (x : Xdr) (law : IsXdr x) (status : ℕ) (c c' : Console) : Type 0 where
  pub signalled : c'.signals ≡ exited status ∷ c.signals
  -- Finished with a QUIT packet to be sent, or stopping until what is queued is written.
  pub outcome :
      ((c.to_stdout.size ≡ 0)
        × (c.to_stderr.size ≡ 0)
        × (c'.state ≡ finished)
        × (q : Packet) × (c'.tx ≡ some q)
        × IsFrame x law (data_header proc_quit c.serial) [] q)
      ⊎ ((0 < c.to_stdout.size + c.to_stderr.size) × (c'.state ≡ stopping) × (c'.tx ≡ none))
  pub listens_no_more : c'.rx ≡ none

module _ (x : Xdr) (law : IsXdr x) where
  guest_exited-Exited :
      (status : ℕ) (c : Console)
      → c.state ≡ running
      → c.rx ≡ none
      → (c' : Console) × (guest_exited x status c ≡ ok c')
        × (next_rx c' ≡ c')
        × Exited x law status c c'
  unfolding guest_exited set_state next_rx
  guest_exited-Exited status c busy idle =
      let c1 = record c { state = finished; signals = exited status ∷ c.signals } in
      let (q, e, frame) = quit_built x law c1 in
      elim (Bool-cases (c.to_stdout.size == 0 && c.to_stderr.size == 0)) [
        | inl drained ↦ (
          record c1 { serial = add64 c.serial 1; tx = some q },
          ground (arith, drained, busy, e),
          refl,
          record {
            signalled = refl;
            outcome = inl (ground (arith, drained), ground (arith, drained), refl, q, refl, frame);
            listens_no_more = idle;
          },
        )
        | inr queued ↦ (
          record c { state = stopping; signals = exited status ∷ c.signals; tx = none },
          ground (arith, queued, busy),
          refl,
          record {
            signalled = refl;
            outcome = inr (ground (arith, queued), refl, refl);
            listens_no_more = idle;
          },
        )
      ]

  -- The EXIT message that has arrived is dispatched as the guest's exit with its status.
  exit_dispatched :
      (t : Terminal) {h : Header} {bs : Bytes} {f : Packet} (status : ℕ)
      (frame : IsFrame x law h bs f) (fits : HeaderFits h)
      → status < u32_mod
      → h.status ≡ status_ok
      → h.proc ≡ proc_exit
      → x.message_exit.encode payload_max status ≡ some bs
      → length bs ≡ 4
      → (c : Console) → dispatch_proc x (all_in t x law frame fits) c ≡ guest_exited x status c
  unfolding dispatch_proc decode_payload_msg
  exit_dispatched t {h} {bs} {f} status frame fits small is_ok is_exit enc four c =
      let p = record (all_in t x law frame fits) { buffer_offset = 20; header = h } in
      let back = law.message_exit_size.reads_back payload_max status bs [] small enc in
      let inner : inside 20 (room p) ≡ true = ground (arith, frame.length_eq, four) in
      let size : room p ≡ sub64 f.buffer_length 20 =
        omega (arith, frame.length_eq, frame.length_le) in
      let there : read_at p.buffer 20 (room p) ≡ bs =
        ap (read_at p.buffer 20) size ∙ payload_step t x law frame fits in
      let decoded : x.message_exit.decode (read_at p.buffer 20 (room p)) ≡ some (status, 4) =
        cc (there, back, append-nil bs) in
      let read : decode_payload_msg x.message_exit 0 p
          ≡ ok (record p { buffer_offset = add64 20 4 }, status) =
        rw (inner, decoded) refl in
      let hit : dispatch_header x p c ≡ guest_exited x status c = rw (is_ok, is_exit, read) refl in
      rw (header_step t x law frame fits) hit

  -- The exit status that the guest encodes arrives, in its two parts, at a host that runs and is
  -- ready for a packet: the host signals exactly this status, is finished with a QUIT packet to be
  -- sent if nothing is queued, stops with nothing to be sent otherwise, and receives no more.
  pub exit_status_delivered :
      (t : Terminal) (status serial : ℕ) (c : Console)
      → status < u32_mod
      → serial < u32_mod
      → c.state ≡ running
      → c.rx ≡ some (new true)
      → (f : Packet) × (encode_exit x status serial ≡ ok f)
        × (c' : Console) × (receive_loop t x
              (arrived (read_at f.buffer 0 4)
                ∷ arrived (read_at f.buffer 4 (f.buffer_length - 4))
                ∷ [])
              c
            ≡ next c')
        × Exited x law status c c'
  exit_status_delivered t status serial c small serial_fits busy ready =
      let (bs, enc, f, e, frame) = exit_built x law status serial in
      let fits : HeaderFits (guest_header proc_exit type_message serial) = record {
        proc_fits = omega arith;
        kind_fits = omega arith;
        status_fits = omega arith;
        serial_fits = serial_fits;
      } in
      let (bs', enc', four) = law.message_exit_size.encodes payload_max status (omega arith) in
      let n : length bs ≡ 4 = cc (enc, enc', four) in
      let c0 = record c { rx = none } in
      let (c', g, stay, done) = guest_exited-Exited status c0 busy refl in
      let d = exit_dispatched t status frame fits small refl refl enc n c0 in
      (
        f,
        e,
        c',
        packet_arrives t x law frame fits c busy ready ∙ rw (d, g, stay) refl,
        record {
          signalled = done.signalled;
          outcome = done.outcome;
          listens_no_more = done.listens_no_more;
        },
      )
