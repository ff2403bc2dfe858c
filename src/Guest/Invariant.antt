-- ===== src/Guest/Invariant.antt =====
-- What holds of the guest's event loop between two callbacks.
use libvirt_sandbox.Base.{ℕ, ◌≤◌, ◌<◌, ◌≡◌, refl, arith, Option, none, some, List, Bytes, length}
use libvirt_sandbox.Protocol.{len_max, payload_max}
use libvirt_sandbox.Result.{Result, ok, err, fault, ◌>>=◌}
use libvirt_sandbox.Packet.{Packet, new}
use libvirt_sandbox.Packet.Safety.{IsValid}
use libvirt_sandbox.Console.Invariant.{TxOk}
use libvirt_sandbox.Guest.{Guest, ConsoleState, running, start}
use libvirt_sandbox.Guest.Calls.{Answer, Taken}
use libvirt_sandbox.Guest.Stdin.{write_stdin}
use libvirt_sandbox.Guest.Host.{Spawn, read_host}
use libvirt_sandbox.Protocol.Xdr.{Xdr}

-- While running, the length word of a packet comes first.
abbrev pub RxOk : ConsoleState → Option Packet → Type 0
RxOk s none = Unit {0}
RxOk running (some p) = IsValid p × (len_max ≤ p.buffer_length)
RxOk _ (some p) = IsValid p

-- What is kept for the application is the rest of one payload, which is not empty.
abbrev pub StdinOk : Option Bytes → ℕ → ℕ → Type 0
StdinOk none n at = (n ≡ 0) × (at ≡ 0)
StdinOk (some bytes) n at = (length bytes ≡ n) × (at < n) × (n ≤ payload_max)

-- No packet is received before the application has taken the last one.
abbrev pub Alone : Option Packet → Option Bytes → Type 0
Alone (some p) (some bytes) = ⊥
Alone _ _ = Unit {0}

pub record Ok (s : ConsoleState) (rx tx : Option Packet) (bytes : Option Bytes) (n at : ℕ)
    : Type 0 where
  pub rx_ok : RxOk s rx
  pub tx_ok : TxOk tx
  pub stdin_ok : StdinOk bytes n at
  pub alone : Alone rx bytes

abbrev pub Inv : Guest → Type 0
Inv g = Ok g.state g.rx g.tx g.to_stdin g.to_stdin_length g.to_stdin_offset

pub start-Inv : Inv start
unfolding new
start-Inv = record { rx_ok = omega arith; tx_ok = tt; stdin_ok = (refl, refl); alone = tt }

-- The result of a part of the loop's body: it goes on with `P`, or to `cleanup:`, which ends the
-- loop; it does not touch memory outside a packet's buffer or the stdin's memory.
abbrev pub Keeps : (Guest → Type 0) → Result Guest → Type 0
Keeps P (ok g) = P g
Keeps P (err e g) = Unit {0}
Keeps P fault = ⊥

pub Keeps->>= :
    (P Q : Guest → Type 0) (r : Result Guest) (f : Guest → Result Guest)
    → Keeps P r
    → ((g : Guest) → P g → Keeps Q (f g))
    → Keeps Q (r >>= f)
Keeps->>= P Q (ok g) f p go = go g p
Keeps->>= P Q (err e g) f p go = tt
Keeps->>= P Q fault f p go = p

-- No packet is left, so the application's bytes are alone whatever they are.
pub Alone-none : (bytes : Option Bytes) → Alone none bytes
Alone-none none = tt
Alone-none (some bytes) = tt

pub Alone-empty : (rx : Option Packet) → Alone rx none
Alone-empty none = tt
Alone-empty (some p) = tt

pub Alone-some : (p : Packet) (bytes : Option Bytes) → Alone (some p) bytes → bytes ≡ none
Alone-some p none a = refl
Alone-some p (some bytes) a = absurd a

-- What the invariant is about.
abbrev pub core : Guest → ConsoleState × Option Packet × Option Packet × Option Bytes × ℕ × ℕ
core g = (g.state, g.rx, g.tx, g.to_stdin, g.to_stdin_length, g.to_stdin_offset)

-- A property that the loop keeps once it survives what is read from the host and what is written to
-- the application.
pub record IsStable (x : Xdr) (s : Spawn) (P : Guest → Type 0) : Type 0 where
  pub beside : (g g' : Guest) → core g' ≡ core g → P g → P g'
  pub valid : (g : Guest) → P g → TxOk g.tx
  pub sets : (g : Guest) (t : Option Packet) → TxOk t → P g → P (record g { tx = t })
  pub writes : (t : Taken) (g : Guest) → P g → Keeps P (write_stdin t g)
  pub reads : (answers : List Answer) (g : Guest) → P g → Keeps P (read_host x s answers g)

pub Keeps-map :
    (P Q : Guest → Type 0) (r : Result Guest) → Keeps P r → ((g : Guest) → P g → Q g) → Keeps Q r
Keeps-map P Q (ok g) p f = f g p
Keeps-map P Q (err e g) p f = tt
Keeps-map P Q fault p f = p
