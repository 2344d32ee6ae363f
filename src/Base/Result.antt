-- ===== src/Base/Result.antt =====
-- The `isize` that a handler returns: a count or value that is not negative, or minus an errno.
use Prim.Native.Nat.{ℕ}

pub data Errno : Type 0 where
  eperm esrch eintr enxio ebadf eagain ewouldblock eacces eexist enotdir eisdir einval espipe epipe
        enotsup enosys echild etimedout enoent enomem eloop efault enametoolong :
      Errno

pub data Ret : Type 0 where
  ok : ℕ → Ret
  err : Errno → Ret
