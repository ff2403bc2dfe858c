-- ===== src/Session/Silence.antt =====
-- The end of the host's stdin, and what the guest makes of the packets behind it.
use libvirt_sandbox.Base.{◌-◌, ◌≡◌, ◌∙◌, subst, arith, false, true, some, List, [], ◌∷◌, inl, inr}
use libvirt_sandbox.Buffer.{read_at}
use libvirt_sandbox.Protocol.Xdr.{Xdr, IsXdr}
use libvirt_sandbox.Result.{ok}
use libvirt_sandbox.Packet.{Packet, new}
use libvirt_sandbox.Console.{Console}
use libvirt_sandbox.Console.Packets.{build_stdin, next_serial}
use libvirt_sandbox.Guest.{Guest, running}
use libvirt_sandbox.Guest.Calls.{got}
use libvirt_sandbox.Guest.Host.{read_host}
use libvirt_sandbox.Guest.Loop.{Setting, Report, eventloop, host_watch}
use libvirt_sandbox.Guest.Invariant.{Inv, Alone, Alone-some, Keeps}
use libvirt_sandbox.Guest.Safety.Host.{read_host-Inv}
use libvirt_sandbox.Guest.Deaf.{Deaf, eventloop-Deaf}
use libvirt_sandbox.Session.Received.{stdin_received}

module _ (x : Xdr) (law : IsXdr x) (s : Setting) where
  -- Once the empty STDIN packet, with which the host reports the end of its stdin, has arrived at
  -- a guest that runs and is ready for a packet, the guest never again polls the host's channel
  -- for reading, as long as its loop goes on and whatever poll reports, so that it does not read a
  -- QUIT packet.
  pub stdin_end_deafens :
      (c : Console) (g : Guest) (polls : List (List Report))
      → Inv g
      → g.state ≡ running
      → g.rx ≡ some (new true)
      → (f : Packet) × (build_stdin x [] c ≡ (next_serial c, ok f))
        × (g' : Guest) × (read_host x s.spawn
              (got (read_at f.buffer 0 4) ∷ got (read_at f.buffer 4 (f.buffer_length - 4)) ∷ [])
              g
            ≡ ok g')
        × Keeps (λ h. Deaf h × ((host_watch h.state h).readable ≡ false)) (eventloop x s polls g')
  stdin_end_deafens c g polls v busy ready =
      let (f, e, g', r, done) = stdin_received x law s.spawn [] c g (omega arith) busy ready in
      let answers =
        got (read_at f.buffer 0 4) ∷ got (read_at f.buffer 4 (f.buffer_length - 4)) ∷ [] in
      let v' : Inv g' = subst (Keeps Inv) r (read_host-Inv x law s.spawn answers g v) in
      let alone : Alone (some (new true)) g.to_stdin =
        subst (λ p. Alone p g.to_stdin) ready v.alone in
      let same : g'.to_stdin ≡ g.to_stdin = elim done.outcome [
        | inl (some_in, _, _, _, _) ↦ absurd (omega arith)
        | inr (_, _, e) ↦ e
      ] in
      let deaf : Deaf g' = record {
        inv = v';
        runs = done.runs_on.0 ∙ busy;
        no_rx = done.waits;
        no_bytes = same ∙ Alone-some (new true) g.to_stdin alone;
      } in
      (f, e, g', r, eventloop-Deaf x law s polls g' deaf)
