-- ===== src/Userland/Create.antt =====
-- The calls that make a pipe, an event counter or a memory file and open descriptors for it:
-- userland/pipe.cpp, userland/eventfd.cpp and userland/memfd.cpp. The numbers of new descriptions are given.
pub mod Tables
use saba_os.Base.{
  ℕ, ◌%◌, ◌^◌, Bool, true, false, if◌then◌else◌, List, Buffer, Option, none, some, Ret, ok, err,
  einval,
}
use saba_os.Fs.Description.{FileFlags, rdonly, wronly, rdwr}
use saba_os.Fs.Table.{Table, install}
use saba_os.Klib.Ring
use saba_os.Userland.Pipe.{Pipe, capacity, new_pipe, open_end}
use saba_os.Userland.EventFd.{EventFd, new_eventfd}
use saba_os.Userland.MemFd.{MemFd}

-- What `pipe_impl` makes: the table, the pipe, and the numbers of the two ends.
pub record NewPipe : Type 0 where
  pub table : Table
  pub pipe : Pipe
  pub read_end : ℕ
  pub write_end : ℕ

-- `reading` and `writing` are the new descriptions; `bad_flags` is the test for unsupported flags.
pub pipe_impl : ℕ → ℕ → Bool → Bool → Bool → Buffer ℕ → Table → Option NewPipe
pipe_impl reading writing bad_flags nonblock cloexec junk t =
    let (fd0, t0) = install reading cloexec t in
    let (fd1, t1) = install writing cloexec t0 in
    let opened =
      open_end (new_pipe junk) (record { mode = rdonly; nonblock = nonblock; append = false }) in
    if bad_flags
    then none
    else some (record {
      table = t1;
      pipe = open_end opened (record { mode = wronly; nonblock = nonblock; append = false });
      read_end = fd0;
      write_end = fd1;
    })

-- ioctl(FIONREAD) stores an `int`.
pub fionread : Pipe → ℕ
fionread p = Ring.data_count capacity p.ring_buffer % 2 ^ 32

-- The flags of the description are O_NONBLOCK alone, whatever is asked for: the conditional takes the
-- whole `O_RDWR | (flags & EFD_NONBLOCK)` as its condition, and O_NONBLOCK alone reads as O_RDONLY.
pub eventfd_flags : Bool → FileFlags
eventfd_flags nonblock = record { mode = rdonly; nonblock = true; append = false }

pub eventfd_impl :
    ℕ → ℕ → Bool → Bool → Bool → Bool → Table → Option (Table × EventFd × FileFlags × ℕ)
eventfd_impl description initval bad_flags nonblock cloexec semaphore t =
    let (efd, t') = install description cloexec t in
    if bad_flags
    then none
    else some (t', new_eventfd initval semaphore, eventfd_flags nonblock, efd)

-- `seal` is F_SEAL_SEAL, set without MFD_ALLOW_SEALING.
pub syscall_memfd_create : ℕ → Bool → Bool → Buffer ℕ → Table → Table × MemFd × Bool × ℕ
syscall_memfd_create description cloexec allow_sealing junk t =
    let (mfd, t') = install description cloexec t in
    (
      t',
      record { size = 0; capacity = 0; storage = junk },
      (if allow_sealing then false else true),
      mfd,
    )
