-- ===== src/Userland/Signal.antt =====
-- userland/signal.hpp and userland/signal.cpp: the calls that send signals and set masks and actions, and
-- which signal a thread takes next. The frame that a handler gets on the user's stack is left out.
pub mod Sending
pub mod Masks
pub mod Dispatch
mod Tests
use saba_os.Base.{
  ℕ, zero, suc, ◌+◌, ◌-◌, ◌%◌, ◌^◌, Bool, true, false, ◌&&◌, ◌||◌, not, if◌then◌else◌, ltb, leb,
  ◌==◌, List, [], ◌∷◌, Option, none, some, Ret, ok, err, einval, esrch, update,
}
use saba_os.Sched.Thread.{
  Machine, Thread, State, SigSet, KernelSigaction, Process, get_from_tid, send_signal,
  group_send_signal, accepted, change_thread,
}

abbrev pub sigkill : ℕ
sigkill = 9

abbrev pub sigstop : ℕ
sigstop = 19

-- A C integer: `pos n` is n and `negsuc n` is minus n less one.
pub data ℤ : Type 0 where
  pos : ℕ → ℤ
  negsuc : ℕ → ℤ

-- `!thread || thread->state == ZOMBIE`
pub is_zombie : State → Bool
is_zombie State.zombie = true
is_zombie State.ready = false
is_zombie State.running = false
is_zombie State.blocked = false
is_zombie State.stopped = false

pub is_gone : Option Thread → Bool
is_gone none = true
is_gone (some t) = is_zombie t.state

-- What follows the check of the signal number in `syscall_kill`, when the target is found or not.
pub kill_found : ℕ → Bool → ℕ → Machine → Option Thread → Machine × Ret
kill_found target to_process_group signal m none = (m, err esrch)
kill_found target to_process_group signal m (some t) =
    let group = (m.processes t.process).group in
    if is_zombie t.state
    then (m, err esrch)
    else if to_process_group && not (group == t.process)
    then (m, err esrch)
    else if signal == 0
    then (m, ok 0)
    else if to_process_group
    then (group_send_signal group signal m, ok 0)
    else (send_signal target signal m, ok 0)

pub kill_target : ℕ → Bool → ℕ → Machine → Machine × Ret
kill_target target to_process_group signal m =
    kill_found target to_process_group signal m (get_from_tid target m)

-- `caller` is the pid of the calling thread's process.
pub kill_pid : ℕ → ℤ → ℕ → Machine → Machine × Ret
kill_pid caller (negsuc n) signal m = kill_target (n + 1) true signal m
kill_pid caller (pos zero) signal m = kill_target (m.processes caller).group true signal m
kill_pid caller (pos (suc n)) signal m = kill_target (suc n) false signal m

pub syscall_kill : ℕ → ℤ → ℤ → Machine → Machine × Ret
syscall_kill caller pid (negsuc n) m = (m, err einval)
syscall_kill caller pid (pos signal) m =
    if leb 64 signal then (m, err einval) else kill_pid caller pid signal m

pub tgkill_found : ℤ → ℕ → ℕ → Machine → Option Thread → Machine × Ret
tgkill_found pid tid signal m none = (m, err esrch)
tgkill_found (negsuc n) tid signal m (some t) = (m, err esrch)
tgkill_found (pos pid) tid signal m (some t) =
    if is_zombie t.state
    then (m, err esrch)
    else if not (t.process == pid)
    then (m, err esrch)
    else if signal == 0
    then (m, ok 0)
    else (send_signal tid signal m, ok 0)

-- A tid below 0 is in no table.
pub tgkill_tid : ℤ → ℤ → ℕ → Machine → Machine × Ret
tgkill_tid pid (negsuc n) signal m = (m, err esrch)
tgkill_tid pid (pos tid) signal m = tgkill_found pid tid signal m (get_from_tid tid m)

pub syscall_tgkill : ℤ → ℤ → ℤ → Machine → Machine × Ret
syscall_tgkill pid tid (negsuc n) m = (m, err einval)
syscall_tgkill pid tid (pos signal) m =
    if leb 64 signal then (m, err einval) else tgkill_tid pid tid signal m

pub data How : Type 0 where
  sig_block sig_unblock sig_setmask other : How

pub change_mask : How → SigSet → SigSet → SigSet × Ret
change_mask sig_block set mask = ((λ i. mask i || set i), ok 0)
change_mask sig_unblock set mask = ((λ i. mask i && not (set i)), ok 0)
change_mask sig_setmask set mask = (set, ok 0)
change_mask other set mask = (mask, err einval)

-- The new mask, what is stored at `retrieve` where that is no null pointer, and the result.
pub syscall_rt_sigprocmask : How → Option SigSet → SigSet → SigSet × SigSet × Ret
syscall_rt_sigprocmask how none mask = (mask, mask, ok 0)
syscall_rt_sigprocmask how (some set) mask =
    let (mask', r) = change_mask how set mask in (mask', mask, r)

pub set_action : ℕ → Option KernelSigaction → (ℕ → KernelSigaction) → ℕ → KernelSigaction
set_action signum none actions = actions
set_action signum (some act) actions =
    update actions signum (record act { flags = act.flags % 2 ^ 32 })

-- The new actions, what is stored at `oldact`, and the result.
pub syscall_rt_sigaction :
    ℤ
    → Option KernelSigaction
    → (ℕ → KernelSigaction)
    → (ℕ → KernelSigaction) × Option KernelSigaction × Ret
syscall_rt_sigaction (negsuc n) act actions = (actions, none, err einval)
syscall_rt_sigaction (pos signum) act actions =
    if (signum == 0) || leb 64 signum || (signum == sigkill) || (signum == sigstop)
    then (actions, none, err einval)
    else (set_action signum act actions, some (actions signum), ok 0)

-- The loop of `dispatch_pending_signal` over the bits from `i` on, `n` of them left.
pub lowest_bit : ℕ → ℕ → SigSet → Option ℕ
lowest_bit zero i s = none
lowest_bit (suc n) i s = let rest = lowest_bit n (i + 1) s in if s i then some (i + 1) else rest

-- `pending_signals &= ~get_signal_bit(signal)`
pub taken_signal : Thread → Option ℕ → Thread × Option ℕ
taken_signal t none = (t, none)
taken_signal t (some signal) = (
  record t { pending_signals = λ i. t.pending_signals i && not (i == (signal - 1)) },
  some signal,
)

-- The signal that is dispatched, and the thread with it cleared.
pub take_signal : Thread → Thread × Option ℕ
take_signal t =
    taken_signal (record t { enqueued_by_signal = none; entering_signal = false })
      (lowest_bit 64 0 (accepted t))
