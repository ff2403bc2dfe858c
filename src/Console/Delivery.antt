-- ===== src/Console/Delivery.antt =====
-- The bytes of the stream in do_console_rpc_stream_readwrite, and a packet that arrives in parts.
use mathlib.Core.List.{append_assoc}
use libvirt_sandbox.Base.{
  ◌+◌, ◌-◌, ◌≤◌, ◌<◌, ◌≡◌, refl, sym, arith, ap, ◌∙◌, [], ◌∷◌, ◌++◌, List, true, false, none, some,
  Bytes, length, take, ◌==◌, add64, sub64, take_all, length-append, if◌then◌else◌,
}
use libvirt_sandbox.Buffer.{read_at, length-read_at, store, store-append}
use libvirt_sandbox.Protocol.{Header, HeaderFits, status_ok, proc_stdout, len_max}
use libvirt_sandbox.Protocol.Xdr.{Xdr, IsXdr}
use libvirt_sandbox.Result.{ok, ◌>>=◌}
use libvirt_sandbox.Packet.{Packet, inside, new, decode_header}
use libvirt_sandbox.Packet.Safety.{IsValid}
use libvirt_sandbox.Packet.Encode.{IsFrame}
use libvirt_sandbox.Packet.RoundTrip.{word_decoded, header_decoded, payload_received}
use libvirt_sandbox.Console.{Console, running, enqueue}
use libvirt_sandbox.Console.Terminal.{Terminal}
use libvirt_sandbox.Console.Receive.{
  process_packet_rx, dispatch_proc, dispatch_header, set_stdout, next_rx,
}
use libvirt_sandbox.Console.Io.{
  Arrival, arrived, Flow, next, processed, received, receive_bytes, receive_loop,
}
use libvirt_sandbox.Console.Invariant.{QueueOk}
use libvirt_sandbox.Console.Stdout.{stdout_total, pending, pending-enqueue}

-- A packet with `bytes` more of it received.
abbrev pub filled : Packet → Bytes → Packet
filled p bytes = record p {
  buffer = store p.buffer p.buffer_offset bytes;
  buffer_offset = p.buffer_offset + length bytes;
}

filled_twice : (p : Packet) (a b : Bytes) → filled (filled p a) b ≡ filled p (a ++ b)
filled_twice p a b =
    let e : p.buffer_offset + length a + length b ≡ p.buffer_offset + length (a ++ b) =
      omega (arith, length-append a b) in
    let s = store-append p.buffer p.buffer_offset a b in
    λ i. record p { buffer = s i; buffer_offset = e i }

module _ (t : Terminal) (x : Xdr) where
  -- The console with `p` being received, and with `p` received in full.
  abbrev pub go_on : Packet → Console → (Console → Flow) → Flow
  go_on p c go =
      if p.buffer_offset == p.buffer_length
      then processed t (process_packet_rx x p (record c { rx = none })) go
      else go (record c { rx = some p })

  received_lem :
      (p : Packet) (bytes : Bytes) (c : Console) (go : Console → Flow)
      → IsValid p
      → 0 < length bytes
      → p.buffer_offset + length bytes ≤ p.buffer_length
      → received t x (arrived bytes) p c go ≡ go_on (filled p bytes) c go
  unfolding received receive_bytes
  received_lem p [] c go v some_in fits = absurd (omega arith)
  received_lem p (b ∷ bytes) c go v some_in fits =
      let free = sub64 p.buffer_length p.buffer_offset in
      let enough : inside p.buffer_offset free ≡ true = ground (arith, v) in
      let all : take free (b ∷ bytes) ≡ b ∷ bytes = take_all free (b ∷ bytes) (omega (arith, v)) in
      let at : add64 p.buffer_offset (length (b ∷ bytes)) ≡ p.buffer_offset + length (b ∷ bytes) =
        omega (arith, v) in
      rw (enough, all)
        (ap
          (λ k.
            go_on
              (record p { buffer = store p.buffer p.buffer_offset (b ∷ bytes); buffer_offset = k })
              c go)
          at)

  pub receive_loop-arrived :
      (p : Packet) (bytes : Bytes) (rest : List Arrival) (c : Console)
      → c.rx ≡ some p
      → IsValid p
      → 0 < length bytes
      → p.buffer_offset + length bytes ≤ p.buffer_length
      → receive_loop t x (arrived bytes ∷ rest) c ≡ go_on (filled p bytes) c (receive_loop t x rest)
  unfolding receive_loop
  receive_loop-arrived p bytes rest c e v some_in fits =
      rw (e, receive_loop) (received_lem p bytes c (receive_loop t x rest) v some_in fits)

  -- While a packet is received, a piece of the stream that arrives at once is handled as the same
  -- bytes in two pieces, whatever arrives behind it.
  pub receive_loop-append :
      (p : Packet) (a b : Bytes) (rest : List Arrival) (c : Console)
      → c.rx ≡ some p
      → IsValid p
      → 0 < length a
      → 0 < length b
      → p.buffer_offset + length a + length b ≤ p.buffer_length
      → receive_loop t x (arrived (a ++ b) ∷ rest) c
        ≡ receive_loop t x (arrived a ∷ arrived b ∷ rest) c
  receive_loop-append p a b rest c e v some_a some_b fits =
      let n = length-append a b in
      let whole =
        receive_loop-arrived p (a ++ b) rest c e v (omega (arith, n)) (omega (arith, n)) in
      let first = receive_loop-arrived p a (arrived b ∷ rest) c e v some_a (omega arith) in
      let part : (p.buffer_offset + length a == p.buffer_length) ≡ false = ground arith in
      let p' = filled p a in
      let c' = record c { rx = some p' } in
      let second = receive_loop-arrived p' b rest c' refl (omega (arith, v)) some_b fits in
      let same : go_on (filled p' b) c' (receive_loop t x rest)
          ≡ go_on (filled p (a ++ b)) c (receive_loop t x rest) =
        ap (λ q. go_on q c (receive_loop t x rest)) (filled_twice p a b) in
      let skip : go_on (filled p a) c (receive_loop t x (arrived b ∷ rest))
          ≡ receive_loop t x (arrived b ∷ rest) c' =
        rw part in
      whole ∙ sym same ∙ sym second ∙ sym skip ∙ sym first

-- A packet that arrives while the console is ready for one.
module _ (t : Terminal) (x : Xdr) (law : IsXdr x) {h : Header} {bytes : Bytes} {f : Packet} where
  module _ (frame : IsFrame x law h bytes f) (fits : HeaderFits h) where
    abbrev pub first_bytes : Bytes
    first_bytes = read_at f.buffer 0 4

    abbrev pub last_bytes : Bytes
    last_bytes = read_at f.buffer 4 (f.buffer_length - 4)

    -- Being received: the length word in full, the length word read, the rest in full.
    abbrev word_in : Packet
    word_in = filled (new true) first_bytes

    abbrev word_known : Packet
    word_known = record word_in { buffer_length = f.buffer_length; buffer_offset = 4 }

    abbrev pub all_in : Packet
    all_in = filled word_known last_bytes

    word_step :
        (c : Console) (go : Console → Flow)
        → c.state ≡ running
        → go_on t x word_in c go ≡ go (record c { rx = some word_known })
    unfolding process_packet_rx new
    word_step c go busy =
        let full : (word_in.buffer_offset == word_in.buffer_length) ≡ true =
          ground (arith, length-read_at f.buffer 0 4) in
        let e = word_decoded x law frame fits (new true).buffer word_in.buffer_offset in
        let step : process_packet_rx x word_in (record c { rx = none })
            ≡ ok (record c { rx = some word_known }) =
          ground (arith, busy, e) in
        rw (full, step)

    pub header_step : decode_header x all_in ≡ ok (record all_in { buffer_offset = 20; header = h })
    unfolding new
    header_step = header_decoded x law frame fits (new true).buffer all_in.buffer_offset

    -- The payload behind the header of the packet that was received.
    pub payload_step : read_at all_in.buffer 20 (sub64 f.buffer_length 20) ≡ bytes
    unfolding new
    payload_step =
        let want : sub64 f.buffer_length 20 ≡ f.buffer_length - 20 =
          omega (arith, frame.length_eq, frame.length_le) in
        ap (read_at all_in.buffer 20) want
        ∙ payload_received x law frame fits (new true).buffer all_in.buffer_offset

    all_step :
        (c : Console) (go : Console → Flow)
        → c.state ≡ running
        → go_on t x all_in c go
          ≡ processed t (dispatch_proc x all_in (record c { rx = none }) >>= λ d. ok (next_rx d)) go
    unfolding process_packet_rx
    all_step c go busy =
        let n = length-read_at f.buffer 4 (f.buffer_length - 4) in
        let full : (all_in.buffer_offset == all_in.buffer_length) ≡ true =
          ground (arith, n, frame.length_eq) in
        let body : (f.buffer_length == len_max) ≡ false = ground (arith, frame.length_eq) in
        rw (full, busy, body)

    -- The packet is dispatched once its two parts have arrived.
    pub packet_arrives :
        (c : Console)
        → c.state ≡ running
        → c.rx ≡ some (new true)
        → receive_loop t x (arrived first_bytes ∷ arrived last_bytes ∷ []) c
          ≡ processed t
              (dispatch_proc x all_in (record c { rx = none }) >>= λ d. ok (next_rx d))
              next
    unfolding new receive_loop
    packet_arrives c busy ready =
        let n4 = length-read_at f.buffer 0 4 in
        let n = length-read_at f.buffer 4 (f.buffer_length - 4) in
        let c1 = record c { rx = some word_known } in
        let first =
          receive_loop-arrived t x (new true) first_bytes (arrived last_bytes ∷ []) c ready
            (omega arith) (omega (arith, n4)) (omega (arith, n4)) in
        let second =
          receive_loop-arrived t x word_known last_bytes [] c1 refl
            (omega (arith, frame.length_eq, frame.length_le)) (omega (arith, n, frame.length_eq))
            (omega (arith, n, frame.length_eq)) in
        first ∙ word_step c _ busy ∙ second ∙ all_step c1 _ busy

    module _ (is_ok : h.status ≡ status_ok) (is_stdout : h.proc ≡ proc_stdout) where
      dispatched :
          (c : Console) → dispatch_proc x all_in c ≡ ok (set_stdout c (enqueue c.to_stdout bytes))
      unfolding dispatch_proc
      dispatched c =
          let p = record all_in { buffer_offset = 20; header = h } in
          let inner : inside 20 (sub64 f.buffer_length 20) ≡ true =
            ground (arith, frame.length_eq, frame.length_le) in
          let proc_hit : dispatch_header x p c ≡ ok (set_stdout c (enqueue c.to_stdout bytes)) =
            ground (arith, is_ok, is_stdout, payload_step, inner) in
          cc (header_step, proc_hit)

      -- The console behind the packet.
      abbrev delivered : Console → Console
      delivered c = next_rx (set_stdout (record c { rx = none }) (enqueue c.to_stdout bytes))

      delivered_total :
          (c : Console)
          → QueueOk c.to_stdout
          → ((delivered c).state ≡ c.state) × (stdout_total (delivered c) ≡ stdout_total c ++ bytes)
      unfolding next_rx
      delivered_total c v =
          let e = pending-enqueue c.to_stdout bytes v in
          let r : c.stdout_written ++ pending (enqueue c.to_stdout bytes)
              ≡ stdout_total c ++ bytes =
            ap (◌++◌ c.stdout_written) e ∙ sym (append_assoc c.stdout_written _ bytes) in
          ground (arith, r)

      -- A STDOUT packet that arrives while the console runs and is ready for a packet adds exactly
      -- its payload to the guest's output, behind what was sent before, and the console runs on.
      pub stdout_packet_delivered :
          (c : Console)
          → c.state ≡ running
          → c.rx ≡ some (new true)
          → QueueOk c.to_stdout
          → (c' : Console) × (receive_loop t x (arrived first_bytes ∷ arrived last_bytes ∷ []) c
              ≡ next c')
            × (c'.state ≡ running)
            × (stdout_total c' ≡ stdout_total c ++ bytes)
      stdout_packet_delivered c busy ready v =
          let (s, total) = delivered_total c v in
          let e = packet_arrives c busy ready in
          let d = dispatched (record c { rx = none }) in
          (delivered c, e ∙ rw d refl, s ∙ busy, total)
