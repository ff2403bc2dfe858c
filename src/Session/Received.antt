-- ===== src/Session/Received.antt =====
-- A STDIN packet of the host, received by the guest.
use libvirt_sandbox.Base.{
  ◌+◌, ◌-◌, ◌≤◌, ◌<◌, ◌≡◌, refl, arith, ◌∙◌, [], ◌∷◌, List, true, false, none, some, Option,
  if◌then◌else◌, Bytes, ◌==◌, take, take_all, sub64, add64, Bool-cases, inl, inr, ◌⊎◌, length, ap,
}
use libvirt_sandbox.Buffer.{read_at, length-read_at, store}
use libvirt_sandbox.Protocol.{Header, HeaderFits, proc_stdin, len_max, payload_max}
use libvirt_sandbox.Protocol.Xdr.{Xdr, IsXdr}
use libvirt_sandbox.Result.{Result, ok}
use libvirt_sandbox.Packet.{Packet, new, inside}
use libvirt_sandbox.Packet.Safety.{IsValid}
use libvirt_sandbox.Packet.Encode.{IsFrame}
use libvirt_sandbox.Packet.RoundTrip.{word_decoded, header_decoded, payload_received}
use libvirt_sandbox.Console.{Console}
use libvirt_sandbox.Console.Packets.{build_stdin, data_header, next_serial}
use libvirt_sandbox.Console.Invariant.{stdin_built}
use libvirt_sandbox.Console.Delivery.{filled}
use libvirt_sandbox.Guest.{Guest, running}
use libvirt_sandbox.Guest.Calls.{Answer, got, read_data}
use libvirt_sandbox.Guest.Host.{
  Spawn, process_host, process_running, host_bytes, read_more, read_host, dispatch_host,
  receive_stdin,
}

module _ (x : Xdr) (s : Spawn) where
  -- The guest with `p` being received, and with `p` received in full.
  abbrev go_on : Packet → Guest → List Answer → Result Guest
  go_on p g rest =
      if p.buffer_length == p.buffer_offset
      then process_host g.state x s p g (read_more x s rest)
      else ok (record g { rx = some p })

  read_more-got :
      (p : Packet) (bytes : Bytes) (rest : List Answer) (g : Guest)
      → IsValid p
      → 0 < length bytes
      → p.buffer_offset + length bytes ≤ p.buffer_length
      → read_more x s (got bytes ∷ rest) p g ≡ go_on (filled p bytes) g rest
  unfolding read_more host_bytes read_data
  read_more-got p [] rest g v some_in fits = absurd (omega arith)
  read_more-got p (b ∷ bytes) rest g v some_in fits =
      let free = sub64 p.buffer_length p.buffer_offset in
      let enough : inside p.buffer_offset free ≡ true = ground (arith, v) in
      let all : take free (b ∷ bytes) ≡ b ∷ bytes = take_all free (b ∷ bytes) (omega (arith, v)) in
      let at : add64 p.buffer_offset (length (b ∷ bytes)) ≡ p.buffer_offset + length (b ∷ bytes) =
        omega (arith, v) in
      rw (enough, all)
        (ap
          (λ k.
            go_on
              (record p { buffer = store p.buffer p.buffer_offset (b ∷ bytes); buffer_offset = k })
              g rest)
          at)

read_host-set :
    (x : Xdr) (s : Spawn) (p : Packet) (answers : List Answer) (g : Guest)
    → g.rx ≡ some p
    → read_host x s answers g ≡ read_more x s answers p g
unfolding read_host
read_host-set x s p answers g e =
    ap {A = Option Packet} {B = Result Guest}
      (λ r. elim r [ none ↦ ok g | some q ↦ read_more x s answers q g ]) e

-- What the guest has become once a STDIN packet with `bytes` is there.
pub record StdinReceived (bytes : Bytes) (g g' : Guest) : Type 0 where
  pub waits : g'.rx ≡ none
  -- The bytes are kept, or there are none and the application's stdin is closed.
  pub outcome :
      ((0 < length bytes)
        × (g'.to_stdin ≡ some bytes)
        × (g'.to_stdin_length ≡ length bytes)
        × (g'.to_stdin_offset ≡ 0)
        × (g'.app_in ≡ g.app_in))
      ⊎ ((length bytes ≡ 0) × (g'.app_in ≡ none) × (g'.to_stdin ≡ g.to_stdin))
  pub runs_on : (g'.state ≡ g.state) × (g'.quit ≡ g.quit) × (g'.tx ≡ g.tx)

receive_stdin-StdinReceived :
    (p : Packet) (bytes : Bytes) (g : Guest)
    → p.buffer_offset ≡ 20
    → p.buffer_length ≡ 20 + length bytes
    → length bytes ≤ payload_max
    → read_at p.buffer p.buffer_offset (sub64 p.buffer_length p.buffer_offset) ≡ bytes
    → (g' : Guest) × (receive_stdin p g ≡ ok g') × StdinReceived bytes g g'
unfolding receive_stdin
receive_stdin-StdinReceived p bytes g at size short there =
    let n = sub64 p.buffer_length p.buffer_offset in
    let len : n ≡ length bytes = omega arith in
    let inner : inside p.buffer_offset n ≡ true = ground arith in
    elim (Bool-cases (n == 0)) [
      | inl eof ↦ (
        record g { app_in = none; rx = none },
        rw eof refl,
        record {
          waits = refl;
          outcome = inr (ground (arith, eof), refl, refl);
          runs_on = (refl, refl, refl);
        },
      )
      | inr some_in ↦ (
        record g {
          to_stdin = some (read_at p.buffer p.buffer_offset n);
          to_stdin_length = n;
          to_stdin_offset = 0;
          rx = none;
        },
        rw (some_in, inner) refl,
        record {
          waits = refl;
          outcome = inl (ground (arith, some_in), ap some there, len, refl, refl);
          runs_on = (refl, refl, refl);
        },
      )
    ]

module _ (x : Xdr) (law : IsXdr x) (s : Spawn) where
  packet_received :
      {h : Header} {bytes : Bytes} {f : Packet} (frame : IsFrame x law h bytes f)
      (fits : HeaderFits h)
      → h.proc ≡ proc_stdin
      → length bytes ≤ payload_max
      → (g : Guest) → g.state ≡ running
      → g.rx ≡ some (new true)
      → (g' : Guest) × (read_host x s
            (got (read_at f.buffer 0 4) ∷ got (read_at f.buffer 4 (f.buffer_length - 4)) ∷ [])
            g
          ≡ ok g')
        × StdinReceived bytes g g'
  unfolding new process_host process_running dispatch_host
  packet_received {h} {bytes} {f} frame fits is_stdin short g busy ready =
      let first = read_at f.buffer 0 4 in
      let last = read_at f.buffer 4 (f.buffer_length - 4) in
      let n4 = length-read_at f.buffer 0 4 in
      let n = length-read_at f.buffer 4 (f.buffer_length - 4) in
      let word_in = filled (new true) first in
      let word_known = record word_in { buffer_length = f.buffer_length; buffer_offset = 4 } in
      let all_in = filled word_known last in
      let b = (new true).buffer in
      let e1 =
        read_more-got x s (new true) first (got last ∷ []) g (omega arith) (omega (arith, n4))
          (omega (arith, n4)) in
      let full1 : (word_in.buffer_length == word_in.buffer_offset) ≡ true = ground (arith, n4) in
      let d1 = word_decoded x law frame fits b word_in.buffer_offset in
      let s1 : go_on x s word_in g (got last ∷ []) ≡ read_more x s (got last ∷ []) word_known g =
        rw (full1, busy, d1) refl in
      let e2 =
        read_more-got x s word_known last [] g (omega (arith, frame.length_eq, frame.length_le))
          (omega (arith, n, frame.length_eq)) (omega (arith, n, frame.length_eq)) in
      let full2 : (all_in.buffer_length == all_in.buffer_offset) ≡ true =
        ground (arith, n, frame.length_eq) in
      let body : (f.buffer_length == len_max) ≡ false = ground (arith, frame.length_eq) in
      let d2 = header_decoded x law frame fits b all_in.buffer_offset in
      let p = record all_in { buffer_offset = 20; header = h } in
      let s2 : go_on x s all_in g [] ≡ receive_stdin p g =
        rw (full2, busy, body, d2, is_stdin) refl in
      let want : sub64 f.buffer_length 20 ≡ f.buffer_length - 20 =
        omega (arith, frame.length_eq, frame.length_le) in
      let there =
        ap (read_at p.buffer 20) want ∙ payload_received x law frame fits b all_in.buffer_offset in
      let (g', r, done) = receive_stdin-StdinReceived p bytes g refl frame.length_eq short there in
      (g', read_host-set x s (new true) _ g ready ∙ e1 ∙ s1 ∙ e2 ∙ s2 ∙ r, done)

  pub stdin_received :
      (bytes : Bytes) (c : Console) (g : Guest)
      → length bytes ≤ payload_max
      → g.state ≡ running
      → g.rx ≡ some (new true)
      → (f : Packet) × (build_stdin x bytes c ≡ (next_serial c, ok f))
        × (g' : Guest) × (read_host x s
              (got (read_at f.buffer 0 4) ∷ got (read_at f.buffer 4 (f.buffer_length - 4)) ∷ [])
              g
            ≡ ok g')
        × StdinReceived bytes g g'
  stdin_received bytes c g short busy ready =
      let (f, e, frame) = stdin_built x law bytes c short in
      let fits : HeaderFits (data_header proc_stdin c.serial) = record {
        proc_fits = omega arith;
        kind_fits = omega arith;
        status_fits = omega arith;
        serial_fits = omega arith;
      } in
      let (g', r, done) = packet_received frame fits refl short g busy ready in (f, e, g', r, done)
