-- ===== src/Guest/Safety/Host.antt =====
-- The channel to the host.
use libvirt_sandbox.Base.{
  ℕ, ◌+◌, ◌-◌, ◌≤◌, ◌≡◌, refl, arith, true, Bool-cases, Option-cases, ◌==◌, none, some, List, [],
  ◌∷◌, Bytes, length, add64, sub64, inl, inr,
}
use native.Mathlib.Decide.{dec_lt}
use libvirt_sandbox.Buffer.{store}
use libvirt_sandbox.Protocol.{len_max}
use libvirt_sandbox.Protocol.Xdr.{Xdr, IsXdr}
use libvirt_sandbox.Result.{Result}
use libvirt_sandbox.Packet.{Packet, inside, capacity}
use libvirt_sandbox.Packet.Safety.{IsValid, decode_length_parts, decode_header_cases}
use libvirt_sandbox.Console.Invariant.{TxOk}
use libvirt_sandbox.Guest.{Guest, ConsoleState, waiting, syncing, running}
use libvirt_sandbox.Guest.Calls.{Answer, Taken}
use libvirt_sandbox.Guest.Host.{
  Spawn, process_running, process_host, host_bytes, read_more, read_host, host_wrote, write_host,
}
use libvirt_sandbox.Guest.Invariant.{
  Inv, RxOk, StdinOk, Alone, Keeps, IsStable, Alone-none, Alone-some,
}
use libvirt_sandbox.Guest.Safety.Stdin.{read_data_short, write_data_short}
use libvirt_sandbox.Guest.Safety.Dispatch.{
  process_waiting-Inv, process_syncing-Inv, dispatch_host-Inv,
}

RxOk-IsValid : (s : ConsoleState) (p : Packet) → RxOk s (some p) → IsValid p
RxOk-IsValid waiting p r = r
RxOk-IsValid syncing p r = r
RxOk-IsValid running p r = r.0

RxOk-moved :
    (s : ConsoleState) (p p' : Packet)
    → RxOk s (some p)
    → p'.buffer_length ≡ p.buffer_length
    → p'.buffer_offset ≤ p'.buffer_length
    → RxOk s (some p')
RxOk-moved waiting p p' r e h = omega (arith, r.length_le)
RxOk-moved syncing p p' r e h = omega (arith, r.length_le)
RxOk-moved running p p' r e h = omega (arith, r.0.length_le, r.1)

-- A packet is being received into `p`, so nothing waits for the application.
record Reading (p : Packet) (g : Guest) : Type 0 where
  rx_ok : RxOk g.state (some p)
  tx_ok : TxOk g.tx
  stdin_ok : StdinOk g.to_stdin g.to_stdin_length g.to_stdin_offset
  empty : g.to_stdin ≡ none

hung_up-Inv : (p : Packet) (g : Guest) → Reading p g → Inv (record g { rx = none; quit = true })
hung_up-Inv p g v = record {
  rx_ok = tt;
  tx_ok = v.tx_ok;
  stdin_ok = v.stdin_ok;
  alone = Alone-none g.to_stdin;
}

module _ (x : Xdr) (law : IsXdr x) where
  process_running-Inv :
      (p : Packet) (g : Guest) (again : Packet → Guest → Result Guest)
      → g.state ≡ running
      → Reading p g
      → ((p' : Packet) (g' : Guest) → Reading p' g' → Keeps Inv (again p' g'))
      → Keeps Inv (process_running x p g again)
  unfolding process_running
  process_running-Inv p g again st v keep =
      let r : RxOk running (some p) = rw st at v.rx_ok in
      elim (Bool-cases (p.buffer_length == len_max)) [
        | inl word ↦
            let (len, _, small, big, good) = decode_length_parts x law p (ground (arith, word)) in
            rw word (elim (dec_lt len len_max) [
              | yes lo ↦ rw (small lo) tt
              | no lo ↦ elim (dec_lt capacity len) [
                | yes hi ↦ rw (big hi) tt
                | no hi ↦ rw (good (omega arith) (omega arith)) (
                    keep _ g (record {
                      rx_ok = rw st (omega arith);
                      tx_ok = v.tx_ok;
                      stdin_ok = v.stdin_ok;
                      empty = v.empty;
                    }))
              ]
            ])
        | inr body ↦ rw body (elim (decode_header_cases x law p r.1 r.0.length_le) [
          | inl (_, e) ↦ rw e tt
          | inr (h, _, _, long, e) ↦ rw e (
              dispatch_host-Inv (record p { buffer_offset = 20; header = h }) g refl long
                r.0.length_le v.tx_ok v.stdin_ok)
        ])
      ]

  process_host-Inv :
      (st : ConsoleState) (s : Spawn) (p : Packet) (g : Guest)
      (again : Packet → Guest → Result Guest)
      → g.state ≡ st
      → Reading p g
      → ((p' : Packet) (g' : Guest) → Reading p' g' → Keeps Inv (again p' g'))
      → Keeps Inv (process_host st x s p g again)
  unfolding process_host
  process_host-Inv waiting s p g again e v keep = process_waiting-Inv p g v.stdin_ok v.empty
  process_host-Inv syncing s p g again e v keep =
      process_syncing-Inv s p g e v.tx_ok v.stdin_ok v.empty
  process_host-Inv running s p g again e v keep = process_running-Inv p g again e v keep

  host_bytes-Inv :
      (s : Spawn) (bytes : Bytes) (p : Packet) (g : Guest) (again : Packet → Guest → Result Guest)
      → Reading p g
      → p.buffer_offset + length bytes ≤ p.buffer_length
      → ((p' : Packet) (g' : Guest) → Reading p' g' → Keeps Inv (again p' g'))
      → Keeps Inv (host_bytes x s bytes p g again)
  unfolding host_bytes
  host_bytes-Inv s [] p g again v le keep = hung_up-Inv p g v
  host_bytes-Inv s (b ∷ bytes) p g again v le keep =
      let valid = RxOk-IsValid g.state p v.rx_ok in
      let p' = record p {
        buffer = store p.buffer p.buffer_offset (b ∷ bytes);
        buffer_offset = add64 p.buffer_offset (length (b ∷ bytes));
      } in
      let r = RxOk-moved g.state p p' v.rx_ok refl (omega (arith, valid.length_le)) in
      let v' : Reading p' g = record {
        rx_ok = r;
        tx_ok = v.tx_ok;
        stdin_ok = v.stdin_ok;
        empty = v.empty;
      } in
      elim (Bool-cases (p'.buffer_length == p'.buffer_offset)) [
        | inl full ↦ rw full (process_host-Inv g.state s p' g again refl v' keep)
        | inr part ↦
            rw part
              (record { rx_ok = r; tx_ok = v.tx_ok; stdin_ok = v.stdin_ok; alone = rw v.empty tt })
      ]

  read_more-Inv :
      (s : Spawn) (answers : List Answer) (p : Packet) (g : Guest)
      → Reading p g
      → Keeps Inv (read_more x s answers p g)
  unfolding read_more
  read_more-Inv s [] p g v = hung_up-Inv p g v
  read_more-Inv s (a ∷ answers) p g v =
      let keep = read_more-Inv s answers in
      let valid = RxOk-IsValid g.state p v.rx_ok in
      let free = sub64 p.buffer_length p.buffer_offset in
      let fits : inside p.buffer_offset free ≡ true = ground (arith, valid) in
      elim (read_data_short free a) [
        | inl e ↦ rw (fits, e) (hung_up-Inv p g v)
        | inr (bytes, e, le) ↦
            rw (fits, e)
              (host_bytes-Inv s bytes p g (read_more x s answers) v (omega (arith, valid)) keep)
      ]

  pub read_host-Inv :
      (s : Spawn) (answers : List Answer) (g : Guest) → Inv g → Keeps Inv (read_host x s answers g)
  unfolding read_host
  read_host-Inv s answers g v = elim (Option-cases g.rx) [
    | inl e ↦ rw (e, read_host) v
    | inr (p, e) ↦
        let alone : Alone (some p) g.to_stdin = rw e at v.alone in
        rw (e, read_host)
          (read_more-Inv s answers p g (record {
            rx_ok = rw e at v.rx_ok;
            tx_ok = v.tx_ok;
            stdin_ok = v.stdin_ok;
            empty = Alone-some p g.to_stdin alone;
          }))
  ]

module _ (x : Xdr) (s : Spawn) (P : Guest → Type 0) (st : IsStable x s P) where
  host_wrote_stable :
      (n : ℕ) (p : Packet) (g : Guest)
      → IsValid p
      → n ≤ p.buffer_length - p.buffer_offset
      → P g
      → P (host_wrote n p g)
  unfolding host_wrote
  host_wrote_stable n p g valid le v =
      let g' = record g { host_sent = _ } in
      let v' : P g' = st.beside g g' refl v in
      elim (Bool-cases (add64 p.buffer_offset n == p.buffer_length)) [
        | inl full ↦ rw full (st.sets g' none tt v')
        | inr part ↦ rw part (st.sets g' (some _) (omega (arith, valid)) v')
      ]

  pub write_host_stable : (t : Taken) (g : Guest) → P g → Keeps P (write_host t g)
  unfolding write_host
  write_host_stable t g v = elim (Option-cases g.tx) [
    | inl e ↦ rw (e, write_host) v
    | inr (p, e) ↦
        let valid : IsValid p = rw e at (st.valid g v) in
        let left = sub64 p.buffer_length p.buffer_offset in
        let fits : inside p.buffer_offset left ≡ true = ground (arith, valid) in
        elim (write_data_short left t) [
          | inl w ↦
              rw (e, write_host, fits, w)
                (st.sets (record g { quit = true }) none tt (st.beside g _ refl v))
          | inr (n, w, le) ↦
              rw (e, write_host, fits, w)
                (host_wrote_stable n p g valid (omega (arith, valid, le)) v)
        ]
  ]
