-- ===== src/Guest/Stdin.antt =====
-- The stdin of the application: what the host sent is written to it, and then the next packet is
-- received.
use libvirt_sandbox.Base.{
  ℕ, ◌+◌, ◌==◌, leb, if◌then◌else◌, true, none, some, Bytes, length, take, drop, ◌++◌, sub64, add64,
}
use libvirt_sandbox.Result.{Result, ok, fault}
use libvirt_sandbox.Packet.{new}
use libvirt_sandbox.Guest.{Guest}
use libvirt_sandbox.Guest.Calls.{Taken, write_data}

-- `g_free(hostToStdin)` and the reset of its length and offset.
abbrev pub freed : Guest → Guest
freed g = record g { to_stdin = none; to_stdin_length = 0; to_stdin_offset = 0 }

unfoldable pub stdin_wrote : ℕ → Bytes → Guest → Guest
stdin_wrote n bytes g =
    let at = add64 g.to_stdin_offset n in
    let g' = record g {
      stdin_written = g.stdin_written ++ take n (drop g.to_stdin_offset bytes);
      to_stdin_offset = at;
    } in
    if at == g.to_stdin_length then record (freed g') { rx = some (new true) } else g'

unfoldable pub write_stdin : Taken → Guest → Result Guest
unfolding stdin_wrote
write_stdin t g = elim g.to_stdin [
  | none ↦ ok g
  | some bytes ↦
      let left = sub64 g.to_stdin_length g.to_stdin_offset in
      if leb (g.to_stdin_offset + left) (length bytes)
      then elim (write_data left t) [ none ↦ ok (freed g) | some n ↦ ok (stdin_wrote n bytes g) ]
      else fault
]
