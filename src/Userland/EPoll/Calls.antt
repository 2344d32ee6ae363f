-- ===== src/Userland/EPoll/Calls.antt =====
-- userland/epoll.cpp: the making of a node, and the calls that hand over to `epoll_pwait2_impl` with a time in
-- milliseconds.
use saba_os.Base.{ℕ, ◌*◌, ◌/◌, ◌%◌, Bool, false, if◌then◌else◌, ◌==◌, List, Option, none, some}
use saba_os.Klib.TimeSpec.{TimeSpec}
use saba_os.Fs.Table.{Table, install}
use saba_os.Userland.EPoll.{EPoll, Poll, Turn, Outcome, new_epoll, epoll_pwait2_impl}

-- The table, the node and its number; none is EINVAL. `bad_flags` is `flags & ~EPOLL_CLOEXEC`, and
-- `description` the number of the new description.
pub epoll_create1_impl : ℕ → Bool → Bool → Table → Option (Table × EPoll × ℕ)
epoll_create1_impl description bad_flags cloexec t =
    let (epfd, t') = install description cloexec t in
    if bad_flags then none else some (t', new_epoll, epfd)

-- A `size` of 0 stands for one that is not positive.
pub syscall_epoll_create : ℕ → ℕ → Table → Option (Table × EPoll × ℕ)
syscall_epoll_create description size t =
    if size == 0 then none else epoll_create1_impl description false false t

pub from_milliseconds : ℕ → TimeSpec
from_milliseconds timeout = record {
  seconds = timeout / 1000;
  nanoseconds = timeout % 1000 * 1000000;
}

-- `syscall_epoll_pwait` from the node on; no timeout stands for one that is negative.
pub syscall_epoll_pwait : ℕ → Option ℕ → ℕ → Bool → Poll → List Turn → EPoll → Outcome
syscall_epoll_pwait maxevents timeout timer pending poll turns e =
    let time = elim timeout as (λ _. Option TimeSpec) [
      | none ↦ none
      | some ms ↦ some (from_milliseconds ms)
    ] in
    epoll_pwait2_impl maxevents time timer pending poll turns e

-- `syscall_epoll_wait` is the same with no mask.
pub syscall_epoll_wait : ℕ → Option ℕ → ℕ → Poll → List Turn → EPoll → Outcome
syscall_epoll_wait maxevents timeout timer poll turns e =
    syscall_epoll_pwait maxevents timeout timer false poll turns e
