-- ===== src/Sched/Switch.antt =====
-- sched/sched.cpp: `allocate_tid`, and the switch of threads in `scheduler_isr`. Of what a switch saves and
-- loads, the register frame `gpr_state` is modelled, as one value; the extended state, the bases of fs and
-- gs, the two stacks, the page map and the words at set_child_tid are left out, and so is the ASSERT that
-- the chosen thread is neither blocked nor a zombie. `work` is what the scheduler does for signals once it has chosen a
-- thread: `dispatch_pending_signal` or `return_from_signal`.
pub mod Robin
pub mod Registers
mod Tests
use saba_os.Base.{
  ℕ, zero, suc, ◌+◌, Bool, true, false, ◌&&◌, if◌then◌else◌, ◌==◌, List, [], ◌∷◌, ◌++◌, length,
  drop, Option, none, some, update,
}
use saba_os.Sched.Thread.{
  Machine, Thread, State, ready, running, blocked, stopped, zombie, sigcont, change_thread,
}

-- The processor, with the registers that each thread has saved. `gpr_state` is the interrupted thread's.
pub record Cpu : Type 0 where
  pub gpr_state : ℕ
  pub running_thread : Option ℕ
  pub saved : ℕ → ℕ
  pub machine : Machine

pub state_of : Machine → ℕ → Option State
state_of m tid = elim (m.thread_table tid) [ none ↦ none | some t ↦ some t.state ]

abbrev pub set_state : State → Thread → Thread
set_state s t = record t { state = s }

abbrev pub first : List ℕ → Option ℕ
first [] = none
first (x ∷ xs) = some x

-- The next link of a thread in the run queue, if it has one that is not the head's.
pub successor : ℕ → List ℕ → Option ℕ
successor tid [] = none
successor tid (x ∷ xs) = let rest = successor tid xs in if x == tid then first xs else rest

pub head_or_idle : ℕ → List ℕ → ℕ
head_or_idle idle [] = idle
head_or_idle idle (x ∷ xs) = x

abbrev pub or_else : Option ℕ → ℕ → ℕ
or_else none d = d
or_else (some x) d = x

-- The thread to switch to.
pub pick : ℕ → Option ℕ → List ℕ → ℕ
pick idle none queue = head_or_idle idle queue
pick idle (some tid) queue = or_else (successor tid queue) (head_or_idle idle queue)

pub preempted : State → State
preempted running = ready
preempted ready = ready
preempted blocked = blocked
preempted stopped = stopped
preempted zombie = zombie

-- The registers are copied into the thread that the processor has as its current one.
pub save : Cpu → Option ℕ → Cpu
save c none = c
save c (some tid) = record c {
  saved = update c.saved tid c.gpr_state;
  machine = change_thread tid (λ t. record t { state = preempted t.state }) c.machine;
}

-- A stopped thread that SIGCONT put on the run queue goes on. What the parent is told of it is not kept here.
pub continued : Thread → Thread
continued t =
    let by_sigcont : Bool = elim t.enqueued_by_signal [ none ↦ false | some s ↦ s == sigcont ] in
    let state : State = elim t.state [ State.stopped ↦ ready | s ↦ s ] in
    if by_sigcont then set_state state t else t

-- Up to the signal work: the current thread is saved, and the next one chosen.
pub switch_to : ℕ → Cpu → Cpu
switch_to idle c =
    let kept = save c c.running_thread in
    let next = pick idle c.running_thread kept.machine.sched_list in
    record kept { running_thread = some next; machine = change_thread next continued kept.machine }

-- A thread that has become a zombie or has stopped is passed over.
pub passes : Option State → Bool
passes none = false
passes (some ready) = false
passes (some running) = false
passes (some blocked) = false
passes (some stopped) = true
passes (some zombie) = true

-- The end of a switch: the thread runs, and its registers are loaded.
pub load : Cpu → ℕ → Cpu
load c tid = record c {
  gpr_state = c.saved tid;
  machine = change_thread tid (set_state running) c.machine;
}

-- `scheduler_isr`, with at most `fuel` rounds of `retry`.
pub scheduler_isr : ℕ → (ℕ → Cpu → Cpu) → ℕ → Cpu → Option Cpu
scheduler_isr idle work zero c = none
scheduler_isr idle work (suc fuel) c =
    let next = pick idle c.running_thread (save c c.running_thread).machine.sched_list in
    let worked = work next (switch_to idle c) in
    let retry = scheduler_isr idle work fuel worked in
    if passes (state_of worked.machine next) then retry else some (load worked next)

-- The loop of `allocate_tid`, from the index `i` of the list's head on; an entry is in use or not.
pub find_tid : ℕ → List Bool → Option ℕ
find_tid i [] = none
find_tid i (used ∷ rest) = let later = find_tid (i + 1) rest in if used then later else some i

pub record Tids : Type 0 where
  pub thread_table : List Bool
  pub first_free_tid : ℕ
  pub num_threads : ℕ

abbrev pub with_first_two : Tids → Tids
with_first_two t = elim t.thread_table [
  | [] ↦ record t { thread_table = false ∷ false ∷ [] }
  | _ ∷ _ ↦ t
]

pub after_tid_scan : Tids → Option ℕ → ℕ × Tids
after_tid_scan t (some i) = (i, record t { first_free_tid = i + 1 })
after_tid_scan t none = (
  length t.thread_table,
  record t {
    first_free_tid = length t.thread_table + 1;
    thread_table = t.thread_table ++ (false ∷ []);
  },
)

pub allocate_tid : Tids → ℕ × Tids
allocate_tid t =
    let ready_table = with_first_two t in
    let counted = record ready_table { num_threads = ready_table.num_threads + 1 } in
    after_tid_scan counted
      (find_tid counted.first_free_tid (drop counted.first_free_tid counted.thread_table))
