-- ===== src/Guest/Safety/Packets.antt =====
-- The packets that the guest sends.
use libvirt_sandbox.Base.{ℕ, ◌≤◌, ◌≡◌, refl, arith, true, false, Bool, some, Bytes, length}
use libvirt_sandbox.Protocol.{
  payload_max, proc_exit, proc_stdout, proc_stderr, type_data, type_message,
}
use libvirt_sandbox.Protocol.Xdr.{Xdr, IsXdr}
use libvirt_sandbox.Result.{ok}
use libvirt_sandbox.Packet.{Packet}
use libvirt_sandbox.Packet.Encode.{
  IsFrame, encode_header-IsHeaded, encode_payload_raw-IsFrame, encode_payload_msg-IsFrame,
}
use libvirt_sandbox.Packet.Safety.{IsValid}
use libvirt_sandbox.Guest.Host.{Spawn}
use libvirt_sandbox.Console.Packets.{headed}
use libvirt_sandbox.Console.Invariant.{IsFrame-IsValid}
use libvirt_sandbox.Guest.{Guest}
use libvirt_sandbox.Guest.Packets.{
  guest_header, encode_stdout, encode_stderr, encode_exit, send_exit, send_stdout, send_stderr,
  counted,
}
use libvirt_sandbox.Guest.App.{exit_if, chunk}
use libvirt_sandbox.Guest.Invariant.{Keeps, IsStable}

module _ (x : Xdr) (law : IsXdr x) where
  -- Each packet that the guest encodes is a frame.
  pub exit_built :
      (status serial : ℕ)
      → (bs : Bytes) × (x.message_exit.encode payload_max status ≡ some bs)
        × (f : Packet) × (encode_exit x status serial ≡ ok f)
        × IsFrame x law (guest_header proc_exit type_message serial) bs f
  unfolding encode_exit
  exit_built status serial =
      let (m, e, h) =
        encode_header-IsHeaded x law (headed (guest_header proc_exit type_message serial)) in
      let (bs, b, f, e', frame) =
        encode_payload_msg-IsFrame x law status law.message_exit_size (omega arith) h in
      (bs, b, f, rw e e', frame)

  pub stdout_built :
      (bytes : Bytes) (serial : ℕ)
      → length bytes ≤ payload_max
      → (f : Packet) × (encode_stdout x bytes serial ≡ ok f)
        × IsFrame x law (guest_header proc_stdout type_data serial) bytes f
  unfolding encode_stdout
  stdout_built bytes serial short =
      let (m, e, h) =
        encode_header-IsHeaded x law (headed (guest_header proc_stdout type_data serial)) in
      let (f, e', frame) = encode_payload_raw-IsFrame x law bytes h short in (f, rw e e', frame)

  pub stderr_built :
      (bytes : Bytes) (serial : ℕ)
      → length bytes ≤ payload_max
      → (f : Packet) × (encode_stderr x bytes serial ≡ ok f)
        × IsFrame x law (guest_header proc_stderr type_data serial) bytes f
  unfolding encode_stderr
  stderr_built bytes serial short =
      let (m, e, h) =
        encode_header-IsHeaded x law (headed (guest_header proc_stderr type_data serial)) in
      let (f, e', frame) = encode_payload_raw-IsFrame x law bytes h short in (f, rw e e', frame)

module _ (x : Xdr) (law : IsXdr x) (s : Spawn) (P : Guest → Type 0) (st : IsStable x s P) where
  sent : (g : Guest) (f : Packet) → IsValid f → P g → P (record (counted g) { tx = some f })
  sent g f valid v = st.sets (counted g) (some f) valid (st.beside g (counted g) refl v)

  pub send_exit_stable : (g : Guest) → P g → Keeps P (send_exit x g)
  unfolding send_exit
  send_exit_stable g v =
      let (_, _, f, e, frame) = exit_built x law g.exit_status g.serial in
      rw e (sent g f (IsFrame-IsValid x law frame) v)

  pub send_stdout_stable :
      (bytes : Bytes) (g : Guest) → length bytes ≤ chunk → P g → Keeps P (send_stdout x bytes g)
  unfolding send_stdout
  send_stdout_stable bytes g short v =
      let (f, e, frame) = stdout_built x law bytes g.serial (omega arith) in
      rw e (sent g f (IsFrame-IsValid x law frame) v)

  pub send_stderr_stable :
      (bytes : Bytes) (g : Guest) → length bytes ≤ chunk → P g → Keeps P (send_stderr x bytes g)
  unfolding send_stderr
  send_stderr_stable bytes g short v =
      let (f, e, frame) = stderr_built x law bytes g.serial (omega arith) in
      rw e (sent g f (IsFrame-IsValid x law frame) v)

  pub exit_if_stable : (b : Bool) (g : Guest) → P g → Keeps P (exit_if x b g)
  unfolding exit_if
  exit_if_stable true g v = send_exit_stable g v
  exit_if_stable false g v = v
