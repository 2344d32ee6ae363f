-- ===== src/Sched/Thread.antt =====
-- sched/sched.hpp and sched/sched.cpp: the threads as the run queue and the signals see them. A thread is
-- named by its tid and a process by its pid, which is the tid of its main thread; a process group is
-- named by the pid of its leader. A u64 of signal bits is the function from bit numbers to bits.
use saba_os.Base.{
  ℕ, ◌-◌, Bool, true, false, ◌&&◌, ◌||◌, not, if◌then◌else◌, leb, ◌==◌, List, [], ◌∷◌, ◌++◌, Option,
  none, some,
}
use saba_os.Sched.Event.{Event, Listener, trigger, all_listeners}

pub data State : Type 0 where
  ready running blocked stopped zombie : State

abbrev pub SigSet : Type 0
SigSet = ℕ → Bool

pub record Thread : Type 0 where
  pub process : ℕ
  pub state : State
  pub which_event : ℕ
  pub signal_mask : SigSet
  pub pending_signals : SigSet
  -- the signal, or none for -1
  pub enqueued_by_signal : Option ℕ
  pub entering_signal : Bool
  pub signal_event : Event

-- `userland::KernelSigaction`, its pointers as addresses; SIG_DFL is 0 and SIG_IGN is 1.
pub record KernelSigaction : Type 0 where
  pub handler : ℕ
  pub flags : ℕ
  pub restorer : ℕ
  pub mask : SigSet

pub record Process : Type 0 where
  pub group : ℕ
  pub signal_actions : ℕ → KernelSigaction

-- `thread_table`, the run queue from its head on, and the lists that processes and groups keep.
pub record Machine : Type 0 where
  pub table_size : ℕ
  pub thread_table : ℕ → Option Thread
  pub processes : ℕ → Process
  pub process_list : ℕ → List ℕ
  pub sched_list : List ℕ

abbrev pub sigcont : ℕ
sigcont = 18

pub get_from_tid : ℕ → Machine → Option Thread
get_from_tid tid m = if tid == 0 || leb m.table_size tid then none else m.thread_table tid

-- Changes the thread of a tid, where there is one.
unfoldable pub change_entry : (Thread → Thread) → Option Thread → Option Thread
change_entry f none = none
change_entry f (some t) = some (f t)

abbrev pub at_tid : ℕ → (Thread → Thread) → (ℕ → Option Thread) → ℕ → Option Thread
at_tid tid f table i = if i == tid then change_entry f (table i) else table i

unfoldable pub change_thread : ℕ → (Thread → Thread) → Machine → Machine
change_thread tid f m = record m { thread_table = at_tid tid f m.thread_table }

-- `userland::get_signal_bit(signal)`, or-ed into a set
abbrev pub with_signal : ℕ → SigSet → SigSet
with_signal signal s i = s i || (i == (signal - 1))

-- `pending_signals & ~signal_mask`
abbrev pub accepted : Thread → SigSet
accepted t i = t.pending_signals i && not (t.signal_mask i)

-- The tests of `enqueue_thread` that let it go on.
pub may_enqueue : State → Option ℕ → Bool
may_enqueue blocked signal = true
may_enqueue stopped (some signal) = signal == sigcont
may_enqueue stopped none = false
may_enqueue ready signal = false
may_enqueue running signal = false
may_enqueue zombie signal = false

-- A stopped thread stays stopped until the scheduler comes to it.
pub enqueued_state : State → State
enqueued_state blocked = ready
enqueued_state stopped = stopped
enqueued_state ready = ready
enqueued_state running = running
enqueued_state zombie = zombie

-- `add_before` links the thread's own node at the end of the queue: the list stands for the queue as long as that
-- node is in no list, which the code does not test for a stopped thread.
pub enqueue_entry : ℕ → Option ℕ → Machine → Option Thread → Machine
enqueue_entry tid signal m none = m
enqueue_entry tid signal m (some t) =
    let queued =
      change_thread tid
        (λ u. record u { enqueued_by_signal = signal; state = enqueued_state u.state }) m in
    if may_enqueue t.state signal
    then record queued { sched_list = m.sched_list ++ (tid ∷ []) }
    else m

pub enqueue_thread : ℕ → Option ℕ → Machine → Machine
enqueue_thread tid signal m = enqueue_entry tid signal m (m.thread_table tid)

-- What `Event::trigger` does with the listeners that it wakes.
pub wake_all : List Listener → Machine → Machine
wake_all [] m = m
wake_all (l ∷ ls) m = wake_all ls (
    enqueue_thread l.thread none
      (change_thread l.thread (λ t. record t { which_event = l.which }) m))

pub trigger_signal_event : ℕ → Machine → Option Thread → Machine
trigger_signal_event tid m none = m
trigger_signal_event tid m (some t) =
    let (e, woke) = trigger false all_listeners t.signal_event in
    wake_all woke (change_thread tid (λ u. record u { signal_event = e }) m)

-- `Thread::send_signal`
pub send_signal : ℕ → ℕ → Machine → Machine
send_signal tid signal m =
    let pending =
      change_thread tid (λ t. record t { pending_signals = with_signal signal t.pending_signals })
        m in
    let queued = enqueue_thread tid (some signal) pending in
    trigger_signal_event tid queued (queued.thread_table tid)

-- `ProcessGroup::send_signal`: to the main thread of each process.
pub send_all : List ℕ → ℕ → Machine → Machine
send_all [] signal m = m
send_all (pid ∷ pids) signal m = send_all pids signal (send_signal pid signal m)

pub group_send_signal : ℕ → ℕ → Machine → Machine
group_send_signal group signal m = send_all (m.process_list group) signal m
