-- ===== src/Session/Stdin.antt =====
-- The host's stdin on its way to the application's, and the packets behind it.
use libvirt_sandbox.Base.{
  ◌-◌, ◌≤◌, ◌≡◌, refl, subst, [], ◌∷◌, List, true, none, some, Option, Bytes, length, ap,
}
use libvirt_sandbox.Buffer.{read_at}
use libvirt_sandbox.Protocol.{payload_max}
use libvirt_sandbox.Protocol.Xdr.{Xdr, IsXdr}
use libvirt_sandbox.Result.{Result, ok}
use libvirt_sandbox.Packet.{Packet, new}
use libvirt_sandbox.Console.{Console}
use libvirt_sandbox.Console.Packets.{build_stdin, next_serial}
use libvirt_sandbox.Guest.{Guest, running}
use libvirt_sandbox.Guest.Calls.{Answer, got}
use libvirt_sandbox.Guest.Loop.{Setting, Report, eventloop}
use libvirt_sandbox.Guest.Invariant.{Inv, Alone, Keeps, Keeps-map}
use libvirt_sandbox.Guest.Safety.Host.{read_host-Inv}
use libvirt_sandbox.Guest.Safety.Runs.{eventloop-Inv}
use libvirt_sandbox.Guest.Host.{Spawn, read_more, read_host}
use libvirt_sandbox.Session.Received.{StdinReceived, stdin_received}

-- While bytes wait for the application, there is no packet to receive into, and the branch of the
-- host's channel reads nothing.
abbrev HeldBack : Xdr → Spawn → Guest → Option Bytes → Type 0
HeldBack x s h none = Unit
HeldBack x s h (some bytes) =
    (h.rx ≡ none) × ((answers : List Answer) → read_host x s answers h ≡ ok h)

abbrev pub HoldsBack : Xdr → Spawn → Guest → Type 0
HoldsBack x s h = HeldBack x s h h.to_stdin

read_host-unset :
    (x : Xdr) (s : Spawn) (answers : List Answer) (h : Guest)
    → h.rx ≡ none
    → read_host x s answers h ≡ ok h
unfolding read_host
read_host-unset x s answers h e =
    ap {A = Option Packet} {B = Result Guest}
      (λ r. elim r [ none ↦ ok h | some p ↦ read_more x s answers p h ]) e

Alone-unset : (rx : Option Packet) (bytes : Bytes) → Alone rx (some bytes) → rx ≡ none
Alone-unset none bytes a = refl
Alone-unset (some p) bytes a = absurd a

Inv-HeldBack :
    (x : Xdr) (s : Spawn) (h : Guest) (o : Option Bytes) → Alone h.rx o → HeldBack x s h o
Inv-HeldBack x s h none a = tt
Inv-HeldBack x s h (some bytes) a =
    let unset = Alone-unset h.rx bytes a in (unset, λ answers. read_host-unset x s answers h unset)

module _ (x : Xdr) (law : IsXdr x) where
  -- For a guest that satisfies its invariant, runs and is ready for a packet: what the host read
  -- from its stdin, at most 262128 bytes, and sent in a STDIN packet, which arrives in its two
  -- parts, length word and rest, is kept in the guest for the application, in full and in order;
  -- the packet of no bytes closes the application's stdin. From then on, as long as the loop
  -- goes on and whatever poll and the calls report, the guest has no packet to receive into, and
  -- a read of the host's channel takes nothing, while it keeps any bytes for the application.
  pub stdin_delivered :
      (setting : Setting) (bytes : Bytes) (c : Console) (g : Guest) (polls : List (List Report))
      → length bytes ≤ payload_max
      → Inv g
      → g.state ≡ running
      → g.rx ≡ some (new true)
      → (f : Packet) × (build_stdin x bytes c ≡ (next_serial c, ok f))
        × (g' : Guest) × (read_host x setting.spawn
              (got (read_at f.buffer 0 4) ∷ got (read_at f.buffer 4 (f.buffer_length - 4)) ∷ [])
              g
            ≡ ok g')
        × StdinReceived bytes g g'
        × Keeps (HoldsBack x setting.spawn) (eventloop x setting polls g')
  stdin_delivered setting bytes c g polls short v busy ready =
      let spawned = setting.spawn in
      let (f, e, g', r, done) = stdin_received x law spawned bytes c g short busy ready in
      let answers =
        got (read_at f.buffer 0 4) ∷ got (read_at f.buffer 4 (f.buffer_length - 4)) ∷ [] in
      let v' : Inv g' = subst (Keeps Inv) r (read_host-Inv x law spawned answers g v) in
      let held =
        Keeps-map Inv (HoldsBack x spawned) (eventloop x setting polls g')
          (eventloop-Inv x law setting polls g' v')
          (λ h w. Inv-HeldBack x spawned h h.to_stdin w.alone) in
      (f, e, g', r, done, held)
