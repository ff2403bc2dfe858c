-- ===== src/Guest/Packets.antt =====
-- gvir_sandbox_encode_stdout, _stderr and _exit, and how eventloop stores what they return.
use libvirt_sandbox.Base.{ℕ, ◌+◌, ◌%◌, none, some, Bytes, u32_mod}
use libvirt_sandbox.Protocol.{
  Header, proc_stdout, proc_stderr, proc_exit, status_ok, type_data, type_message,
}
use libvirt_sandbox.Protocol.Xdr.{Xdr}
use libvirt_sandbox.Result.{Result, ok, err, fault, ◌>>=◌}
use libvirt_sandbox.Packet.{Packet, encode_header, encode_payload_msg, encode_payload_raw}
use libvirt_sandbox.Console.Packets.{headed}
use libvirt_sandbox.Guest.{Guest}

abbrev pub guest_header : ℕ → ℕ → ℕ → Header
guest_header p kind serial = record { proc = p; kind = kind; status = status_ok; serial = serial }

unfoldable pub encode_stdout : Xdr → Bytes → ℕ → Result Packet
encode_stdout x bytes serial = do
  m ← encode_header x (headed (guest_header proc_stdout type_data serial))
  encode_payload_raw x bytes m

unfoldable pub encode_stderr : Xdr → Bytes → ℕ → Result Packet
encode_stderr x bytes serial = do
  m ← encode_header x (headed (guest_header proc_stderr type_data serial))
  encode_payload_raw x bytes m

-- Without sync_data and umount_fs. The status is the word that waitpid stored.
unfoldable pub encode_exit : Xdr → ℕ → ℕ → Result Packet
encode_exit x status serial = do
  m ← encode_header x (headed (guest_header proc_exit type_message serial))
  encode_payload_msg x x.message_exit status m

-- `if (!(tx = ...)) goto cleanup;`
abbrev pub send : Result Packet → Guest → Result Guest
send (ok p) g = ok (record g { tx = some p })
send (err e p) g = err e (record g { tx = none })
send fault g = fault

-- `serial++`
abbrev pub counted : Guest → Guest
counted g = record g { serial = (g.serial + 1) % u32_mod }

unfoldable pub send_exit : Xdr → Guest → Result Guest
send_exit x g = send (encode_exit x g.exit_status g.serial) (counted g)

unfoldable pub send_stdout : Xdr → Bytes → Guest → Result Guest
send_stdout x bytes g = send (encode_stdout x bytes g.serial) (counted g)

unfoldable pub send_stderr : Xdr → Bytes → Guest → Result Guest
send_stderr x bytes g = send (encode_stderr x bytes g.serial) (counted g)
