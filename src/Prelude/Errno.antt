-- ===== src/Prelude/Errno.antt =====
-- The error numbers that the code distinguishes; every other one is `other`.
use Prim.Native.Nat.{ℕ}

pub data Errno : Type 0 where
  eagain econnreset epipe eintr : Errno
  einprogress eisconn eaddrinuse eaddrnotavail econnrefused enetunreach : Errno
  enoent eexist : Errno
  other : ℕ → Errno
