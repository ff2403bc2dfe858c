-- ===== src/Guest/Calls.antt =====
-- read_data and write_data, over what the system calls answer.
use Prim.Native.Nat.{min}
use libvirt_sandbox.Base.{ℕ, Option, none, some, Bytes, [], take}

-- read(): bytes (none at the end of the file), EAGAIN, EINTR and the answer to the next try, or
-- another error.
pub data Answer : Type 0 where
  got : Bytes → Answer
  would_block failed : Answer
  interrupted : Answer → Answer

-- write(): a count of bytes, or the same errors.
pub data Taken : Type 0 where
  wrote : ℕ → Taken
  would_block failed : Taken
  interrupted : Taken → Taken

-- A result of -1 is `none`.
unfoldable pub read_data : ℕ → Answer → Option Bytes
read_data len (got bytes) = some (take len bytes)
read_data len would_block = some []
read_data len failed = none
read_data len (interrupted a) = read_data len a

unfoldable pub write_data : ℕ → Taken → Option ℕ
write_data len (wrote n) = some (min n len)
write_data len would_block = some 0
write_data len failed = none
write_data len (interrupted t) = write_data len t
