-- ===== src/Userland/Signal/Tests.antt =====
-- A process of two threads, one running and one blocked, the latter with two signals pending.
use saba_os.Base.{
  ◌<◌, ◌⊎◌, ◌^◌, ℕ, zero, suc, ◌≡◌, ◌≤◌, Bool, true, false, ◌||◌, [], ◌∷◌, Option, none, some, err,
  einval, ◌==◌,
}
use saba_os.Sched.Event.{fresh_event}
use saba_os.Sched.Thread.{KernelSigaction, Machine, Thread, State, SigSet, running, blocked}
use saba_os.Userland.Signal.{pos, syscall_kill, take_signal}
use saba_os.Userland.Signal.Sending.{Names, Kills, syscall_kill_lem}
use saba_os.Userland.Signal.Masks.{Taking, take_signal_lem}

abbrev thread : State → Thread
thread s = record {
  process = 1;
  state = s;
  which_event = 0;
  signal_mask = λ i. i == 3;
  pending_signals = λ i. (i == 3) || (i == 14) || (i == 8);
  enqueued_by_signal = none;
  entering_signal = false;
  signal_event = fresh_event;
}

abbrev table : ℕ → Option Thread
table zero = none
table (suc zero) = some (thread running)
table (suc (suc zero)) = some (thread blocked)
table (suc (suc (suc n))) = none

abbrev machine : Machine
machine = record {
  table_size = 3;
  thread_table = table;
  processes = λ p. record {
    group = 1;
    signal_actions = λ i. record { handler = 0; flags = 0; restorer = 0; mask = λ j. false };
  };
  process_list = λ g. 1 ∷ [];
  sched_list = 1 ∷ [];
}

syscall_kill_example :
    ((64 ≤ 15) × (syscall_kill 1 (pos 2) (pos 15) machine ≡ (machine, err einval)))
    ⊎ ((15 < 64)
        × ((target : ℕ) × (g : Bool) × Names 1 machine (pos 2) target g
            × Kills 15 machine target g (syscall_kill 1 (pos 2) (pos 15) machine)))
syscall_kill_example = syscall_kill_lem 1 (pos 2) 15 machine

take_signal_example : Taking (thread blocked) (take_signal (thread blocked))
take_signal_example = take_signal_lem (thread blocked)

abbrev everything : SigSet
everything i = true

-- An action that blocks one more signal and is used once.
abbrev once : KernelSigaction
once = record { handler = 4096; flags = 2 ^ 31; restorer = 8192; mask = λ i. i == 1 }
