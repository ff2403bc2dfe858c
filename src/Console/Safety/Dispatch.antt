-- ===== src/Console/Safety/Dispatch.antt =====
-- Packets of the guest that are dispatched: what is queued, and the exit.
use libvirt_sandbox.Base.{
  ℕ, ◌+◌, ◌≤◌, ◌<◌, ◌≡◌, refl, arith, true, Bool-cases, ◌==◌, ◌&&◌, Option, none, some, [], ◌∷◌,
  Bytes, length, length-append, add64, sub64, ◌⊎◌, inl, inr,
}
use libvirt_sandbox.Buffer.{read_at, length-read_at}
use libvirt_sandbox.Protocol.{len_max, payload_max, status_ok, proc_stdout, proc_stderr, proc_exit}
use libvirt_sandbox.Protocol.Xdr.{Xdr, IsXdr, decode_cases}
use libvirt_sandbox.Result.{ok, err, Leaves, Error, decode_payload_failed}
use libvirt_sandbox.Packet.{Packet, capacity, decode_payload_msg, inside, room}
use libvirt_sandbox.Packet.Safety.{decode_header_cases}
use libvirt_sandbox.Console.{Console, running, exited, Queue, max_queued_data, enqueue, append}
use libvirt_sandbox.Console.Receive.{
  queue_payload, guest_exited, dispatch_header, dispatch_proc, set_stdout, set_stderr,
}
use libvirt_sandbox.Console.Invariant.{Inv, QueueOk}
use libvirt_sandbox.Console.Safety.States.{finished_entered, stopping_entered}
use libvirt_sandbox.Console.Safety.Terminal.{Same-Inv}

append-QueueOk :
    (q : Queue) (bytes : Bytes) (t : Option Bytes)
    → q.text ≡ t
    → QueueOk q
    → q.size < max_queued_data
    → length bytes ≤ payload_max
    → QueueOk (append q bytes t) × ((append q bytes t).size ≡ q.size + length bytes)
unfolding append
append-QueueOk q bytes (some old) e v lo hi =
    let n : length old ≡ q.size = rw e at v.size_eq in omega (arith, length-append old bytes, n)
append-QueueOk q [] none e v lo hi = let n : 0 ≡ q.size = rw e at v.size_eq in omega (arith, n)
append-QueueOk q (b ∷ bytes) none e v lo hi =
    let n : 0 ≡ q.size = rw e at v.size_eq in omega (arith, n)

append_start :
    (q : Queue) (bytes : Bytes) (t : Option Bytes) → q.offset ≡ 0 → (append q bytes t).offset ≡ 0
unfolding append
append_start q bytes (some old) h = h
append_start q [] none h = refl
append_start q (b ∷ bytes) none h = refl

enqueue_start : (q : Queue) (bytes : Bytes) → q.offset ≡ 0 → (enqueue q bytes).offset ≡ 0
unfolding enqueue
enqueue_start q bytes h = append_start q bytes q.text h

-- Bytes go behind those that are queued.
pub enqueue-QueueOk :
    (q : Queue) (bytes : Bytes)
    → QueueOk q
    → q.size < max_queued_data
    → length bytes ≤ payload_max
    → QueueOk (enqueue q bytes) × ((enqueue q bytes).size ≡ q.size + length bytes)
unfolding enqueue
enqueue-QueueOk q bytes v lo hi = append-QueueOk q bytes q.text refl v lo hi

-- A packet is being dispatched: the console runs and has taken it out of `rx`.
pub record Busy (c : Console) : Type 0 where
  pub inv : Inv c
  pub busy : c.state ≡ running
  pub idle : c.rx ≡ none
  pub stdout_low : c.to_stdout.size < max_queued_data
  pub stderr_low : c.to_stderr.size < max_queued_data

-- What dispatching leaves.
abbrev pub Dispatched : Console → Type 0
Dispatched c = Inv c × (c.rx ≡ none)

module _ (x : Xdr) (law : IsXdr x) where
  guest_exited-Dispatched :
      (status : ℕ) (c : Console) → Busy c → Leaves Dispatched (guest_exited x status c)
  unfolding guest_exited
  guest_exited-Dispatched status c b =
      let c1 = record c { signals = exited status ∷ c.signals } in
      let v1 = Same-Inv c c1 (refl, refl, refl, refl, refl, refl) b.inv in
      elim (Bool-cases (c.to_stdout.size == 0 && c.to_stderr.size == 0)) [
        | inl drained ↦
            let (c', e, _, r, v) =
              finished_entered x law c1 (rw b.busy (omega arith)) b.idle (ground (arith, drained))
                (ground (arith, drained)) v1 in
            rw (drained, e) (v, r)
        | inr queued ↦
            let (c', e, _, r, v) = stopping_entered x law c1 b.busy b.idle v1 in
            rw (queued, e) (v, r)
      ]

  queue_stdout-Dispatched :
      (p : Packet) (c : Console)
      → Busy c
      → p.buffer_offset ≡ 20
      → 20 ≤ p.buffer_length
      → p.buffer_length ≤ capacity
      → Leaves Dispatched (queue_payload p (set_stdout c) c.to_stdout)
  unfolding queue_payload
  queue_stdout-Dispatched p c b at lo hi =
      let want = sub64 p.buffer_length p.buffer_offset in
      let bytes = read_at p.buffer p.buffer_offset want in
      let short : length bytes ≤ payload_max =
        omega (arith, length-read_at p.buffer p.buffer_offset want) in
      let fits : inside p.buffer_offset want ≡ true = ground arith in
      let (queue_ok, _) = enqueue-QueueOk c.to_stdout bytes b.inv.stdout_ok b.stdout_low short in
      rw fits (
        record {
          rx_ok = b.inv.rx_ok;
          tx_ok = b.inv.tx_ok;
          stdout_ok = queue_ok;
          stderr_ok = b.inv.stderr_ok;
          flow_ok = rw (b.busy, b.idle) tt;
          stderr_start = b.inv.stderr_start;
          stderr_silent = b.inv.stderr_silent;
          drained_ok = rw b.busy tt;
        },
        b.idle,
      )

  queue_stderr-Dispatched :
      (p : Packet) (c : Console)
      → Busy c
      → p.buffer_offset ≡ 20
      → 20 ≤ p.buffer_length
      → p.buffer_length ≤ capacity
      → Leaves Dispatched (queue_payload p (set_stderr c) c.to_stderr)
  unfolding queue_payload
  queue_stderr-Dispatched p c b at lo hi =
      let want = sub64 p.buffer_length p.buffer_offset in
      let bytes = read_at p.buffer p.buffer_offset want in
      let short : length bytes ≤ payload_max =
        omega (arith, length-read_at p.buffer p.buffer_offset want) in
      let fits : inside p.buffer_offset want ≡ true = ground arith in
      let (queue_ok, _) = enqueue-QueueOk c.to_stderr bytes b.inv.stderr_ok b.stderr_low short in
      rw fits (
        record {
          rx_ok = b.inv.rx_ok;
          tx_ok = b.inv.tx_ok;
          stdout_ok = b.inv.stdout_ok;
          stderr_ok = queue_ok;
          flow_ok = rw (b.busy, b.idle) tt;
          stderr_start = enqueue_start c.to_stderr bytes b.inv.stderr_start;
          stderr_silent = b.inv.stderr_silent;
          drained_ok = rw b.busy tt;
        },
        b.idle,
      )

  -- The status of the EXIT message is read if four bytes of payload are there.
  payload_msg_cases :
      (p : Packet)
      → p.buffer_offset ≡ 20
      → 20 ≤ p.buffer_length
      → p.buffer_length ≤ capacity
      → ((m : Packet) × (status : ℕ) × (decode_payload_msg x.message_exit 0 p ≡ ok (m, status)))
        ⊎ ((e : Error) × (r : Packet × ℕ) × (decode_payload_msg x.message_exit 0 p ≡ err e r))
  unfolding decode_payload_msg
  payload_msg_cases p at lo hi =
      let bytes = read_at p.buffer p.buffer_offset (room p) in
      let fits : inside p.buffer_offset (room p) ≡ true = ground arith in
      elim (decode_cases law.message_exit_size bytes) [
        | inl (_, e) ↦ inr (decode_payload_failed, (p, 0), rw (fits, e))
        | inr (status, e, _, _) ↦
            inl (record p { buffer_offset = add64 p.buffer_offset 4 }, status, rw (fits, e))
      ]

  dispatch_header-Dispatched :
      (p : Packet) (c : Console)
      → Busy c
      → p.buffer_offset ≡ 20
      → 20 ≤ p.buffer_length
      → p.buffer_length ≤ capacity
      → Leaves Dispatched (dispatch_header x p c)
  unfolding dispatch_header
  dispatch_header-Dispatched p c b at lo hi =
      let stay : Dispatched c = (b.inv, b.idle) in
      let a = queue_stdout-Dispatched p c b at lo hi in
      let a' = queue_stderr-Dispatched p c b at lo hi in
      let h = p.header in
      elim (Bool-cases (h.status == status_ok)) [
        | inr bad ↦ rw bad stay
        | inl good ↦ rw good (elim (Bool-cases (h.proc == proc_stdout)) [
          | inl hit ↦ rw hit a
          | inr miss ↦ rw miss (elim (Bool-cases (h.proc == proc_stderr)) [
            | inl hit ↦ rw hit a'
            | inr miss' ↦ rw miss' (elim (Bool-cases (h.proc == proc_exit)) [
              | inr bad ↦ rw bad stay
              | inl hit ↦ rw hit (elim (payload_msg_cases p at lo hi) [
                | inl (m, status, e) ↦ rw e (guest_exited-Dispatched status c b)
                | inr (_, _, e) ↦ rw e stay
              ])
            ])
          ])
        ])
      ]

  pub dispatch_proc-Dispatched :
      (pkt : Packet) (c : Console)
      → Busy c
      → len_max ≤ pkt.buffer_length
      → pkt.buffer_length ≤ capacity
      → Leaves Dispatched (dispatch_proc x pkt c)
  unfolding dispatch_proc
  dispatch_proc-Dispatched pkt c b lo hi = elim (decode_header_cases x law pkt lo hi) [
    | inl (_, e) ↦ rw e (b.inv, b.idle)
    | inr (h, _, _, long, e) ↦ rw e (
        dispatch_header-Dispatched (record pkt { buffer_offset = 20; header = h }) c b refl long hi)
  ]
