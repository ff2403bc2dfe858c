-- ===== src/Console/Packets.antt =====
-- gvir_sandbox_console_rpc_build_*: the packets that the host sends.
use libvirt_sandbox.Base.{ℕ, ◌%◌, false, some, none, [], ◌∷◌, Bytes, u32_mod, add64}
use libvirt_sandbox.Buffer.{store}
use libvirt_sandbox.Protocol.{
  Header, handshake_wait, handshake_sync, proc_stdin, proc_quit, status_ok, type_data,
}
use libvirt_sandbox.Protocol.Xdr.{Xdr}
use libvirt_sandbox.Result.{Result, ok, err, fault, ◌>>=◌}
use libvirt_sandbox.Packet.{Packet, new, encode_header, encode_payload_empty, encode_payload_raw}
use libvirt_sandbox.Console.{Console}

-- A packet that is one byte.
abbrev one_byte : ℕ → Packet
one_byte b = record (new false) {
  buffer = store (new false).buffer 0 (b ∷ []);
  buffer_length = 1;
  buffer_offset = 0;
}

unfoldable pub build_handshake_wait : Packet
build_handshake_wait = one_byte handshake_wait

unfoldable pub build_handshake_sync : Packet
build_handshake_sync = one_byte handshake_sync

abbrev pub headed : Header → Packet
headed h = record (new false) { header = h }

-- The header of a packet of the host: `pkt->header.serial = priv->serial++`.
abbrev pub data_header : ℕ → ℕ → Header
data_header p serial = record {
  proc = p;
  kind = type_data;
  status = status_ok;
  serial = serial % u32_mod;
}

abbrev pub next_serial : Console → Console
next_serial c = record c { serial = add64 c.serial 1 }

unfoldable pub build_quit : Xdr → Console → Console × Result Packet
build_quit x c = (
  next_serial c,
  do m ← encode_header x (headed (data_header proc_quit c.serial)); encode_payload_empty x m,
)

unfoldable pub build_stdin : Xdr → Bytes → Console → Console × Result Packet
build_stdin x bytes c = (
  next_serial c,
  do m ← encode_header x (headed (data_header proc_stdin c.serial)); encode_payload_raw x bytes m,
)

-- `priv->tx = build...`, where NULL is the failure of the call.
unfoldable pub set_tx : Console × Result Packet → Result Console
set_tx (c, ok p) = ok (record c { tx = some p })
set_tx (c, err e _) = err e (record c { tx = none })
set_tx (c, fault) = fault
