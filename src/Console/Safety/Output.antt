-- ===== src/Console/Safety/Output.antt =====
-- Writing what is queued to the local stdout and stderr.
use Prim.Native.Nat.{min}
use libvirt_sandbox.Base.{
  ℕ, ◌+◌, ◌≤◌, ◌≡◌, refl, ap, arith, true, Bool-cases, ◌==◌, [], ◌++◌, Bytes, take, add64, sub64,
  inl, inr,
}
use libvirt_sandbox.Protocol.Xdr.{Xdr, IsXdr}
use libvirt_sandbox.Result.{Leaves}
use libvirt_sandbox.Console.{Console, empty_queue}
use libvirt_sandbox.Console.Terminal.{Terminal}
use libvirt_sandbox.Console.Io.{Departure, taken}
use libvirt_sandbox.Console.Local.{
  clear_stdout, clear_stderr, stdout_taken, stdout_write, stderr_taken, stderr_write,
}
use libvirt_sandbox.Console.Invariant.{Inv}
use libvirt_sandbox.Console.Safety.Terminal.{close-Inv, empty_queue-QueueOk}
use libvirt_sandbox.Console.Safety.Local.{
  FlowOk-less, DrainedOk-less, queued-ok, finish_write-Inv, drained-Inv,
}

module _ (x : Xdr) (law : IsXdr x) (t : Terminal) where
  stdout_taken-Inv :
      (n : ℕ) (bytes : Bytes) (c : Console)
      → c.to_stdout.offset + n ≤ c.to_stdout.size
      → Inv c
      → Leaves Inv (stdout_taken t x n bytes c)
  unfolding stdout_taken
  stdout_taken-Inv n bytes c h v =
      let q = c.to_stdout in
      let o = v.stdout_ok in
      let c1 = record c { stdout_written = c.stdout_written ++ bytes } in
      let cleared : Inv (record c1 { to_stdout = empty_queue }) = record {
        rx_ok = v.rx_ok;
        tx_ok = v.tx_ok;
        stdout_ok = empty_queue-QueueOk;
        stderr_ok = v.stderr_ok;
        flow_ok = FlowOk-less c.state c.rx (omega arith) (omega arith) v.flow_ok;
        stderr_start = v.stderr_start;
        stderr_silent = v.stderr_silent;
        drained_ok = DrainedOk-less c.state (omega arith) (omega arith) v.drained_ok;
      } in
      let moved : Inv (record c1 { to_stdout = record q { offset = add64 q.offset n } }) = record {
        rx_ok = v.rx_ok;
        tx_ok = v.tx_ok;
        stdout_ok = record { size_eq = o.size_eq; offset_le = omega arith; bounded = o.bounded };
        stderr_ok = v.stderr_ok;
        flow_ok = v.flow_ok;
        stderr_start = v.stderr_start;
        stderr_silent = v.stderr_silent;
        drained_ok = v.drained_ok;
      } in
      finish_write-Inv x law t clear_stdout _ (λ c'. (refl, refl, refl, refl, refl, refl))
        (elim (Bool-cases (add64 q.offset n == q.size)) [
          | inl all ↦ rw all (
              drained-Inv x law t c.to_stderr.size _ (λ l. (omega arith, l)) (λ z. (refl, z))
                cleared)
          | inr part ↦ rw part moved
        ])

  pub stdout_write-Inv : (d : Departure) (c : Console) → Inv c → Leaves Inv (stdout_write t x d c)
  unfolding stdout_write
  stdout_write-Inv Departure.failed c v = close-Inv t true c v
  stdout_write-Inv (taken n) c v =
      let q = c.to_stdout in
      let left = sub64 q.size q.offset in
      let (bytes, e) = queued-ok q q.offset left v.stdout_ok (omega (arith, v.stdout_ok)) in
      rw (e, stdout_write) (stdout_taken-Inv (min n left) _ c (omega (arith, v.stdout_ok)) v)

  none_taken : (n at : ℕ) (bytes : Bytes) → at ≡ 0 → take (min n at) bytes ≡ []
  none_taken n at bytes h = let e : min n at ≡ 0 = omega arith in ap (λ k. take k bytes) e

  stderr_taken-Inv :
      (n : ℕ) (bytes : Bytes) (c : Console)
      → n ≤ c.to_stderr.offset
      → bytes ≡ []
      → Inv c
      → Leaves Inv (stderr_taken t x n bytes c)
  unfolding stderr_taken
  stderr_taken-Inv n bytes c h nothing v =
      let q = c.to_stderr in
      let start = v.stderr_start in
      let silent : c.stderr_written ++ bytes ≡ [] = rw (nothing, v.stderr_silent) in
      let c1 = record c { stderr_written = c.stderr_written ++ bytes } in
      let cleared : Inv (record c1 { to_stderr = empty_queue }) = record {
        rx_ok = v.rx_ok;
        tx_ok = v.tx_ok;
        stdout_ok = v.stdout_ok;
        stderr_ok = empty_queue-QueueOk;
        flow_ok = FlowOk-less c.state c.rx (omega arith) (omega arith) v.flow_ok;
        stderr_start = refl;
        stderr_silent = silent;
        drained_ok = DrainedOk-less c.state (omega arith) (omega arith) v.drained_ok;
      } in
      let moved : Inv (record c1 { to_stderr = record q { offset = add64 q.offset n } }) = record {
        rx_ok = v.rx_ok;
        tx_ok = v.tx_ok;
        stdout_ok = v.stdout_ok;
        stderr_ok = record {
          size_eq = v.stderr_ok.size_eq;
          offset_le = omega (arith, start);
          bounded = v.stderr_ok.bounded;
        };
        flow_ok = v.flow_ok;
        stderr_start = omega (arith, start);
        stderr_silent = silent;
        drained_ok = v.drained_ok;
      } in
      finish_write-Inv x law t clear_stderr _ (λ c'. (refl, refl, refl, refl, refl, refl))
        (elim (Bool-cases (add64 q.offset n == q.size)) [
          | inl all ↦ rw all (
              drained-Inv x law t c.to_stdout.size _ (λ l. (l, omega arith)) (λ z. (z, refl))
                cleared)
          | inr part ↦ rw part moved
        ])

  pub stderr_write-Inv : (d : Departure) (c : Console) → Inv c → Leaves Inv (stderr_write t x d c)
  unfolding stderr_write
  stderr_write-Inv Departure.failed c v = close-Inv t true c v
  stderr_write-Inv (taken n) c v =
      let q = c.to_stderr in
      let (bytes, e) = queued-ok q 0 q.offset v.stderr_ok (omega (arith, v.stderr_ok)) in
      rw (e, stderr_write)
        (stderr_taken-Inv (min n q.offset) _ c (omega arith)
          (none_taken n q.offset bytes v.stderr_start) v)
