-- ===== src/Sched/Switch/Tests.antt =====
-- Three threads of which the second is stopped by the signal work of its switch.
use saba_os.Base.{
  ℕ, ◌+◌, ◌≡◌, refl, false, if◌then◌else◌, ◌==◌, [], ◌∷◌, ◌++◌, none, some, occurrences,
}
use saba_os.Sched.Event.{fresh_event}
use saba_os.Sched.Thread.{
  Machine, Thread, State, ready, running, stopped, change_thread, change_entry,
}
use saba_os.Sched.Switch.{
  Cpu, state_of, pick, successor, head_or_idle, save, preempted, switch_to, continued, passes, load,
  scheduler_isr, set_state,
}
use saba_os.Sched.Switch.Robin.{picks, picks_round}
use saba_os.Sched.Switch.Registers.{stop_takes_over}

picks_example : picks 0 (2 + 5) none (2 ∷ 3 ∷ []) ≡ (2 ∷ 3 ∷ []) ++ picks 0 5 none (2 ∷ 3 ∷ [])
unfolding occurrences
picks_example = picks_round 0 2 (3 ∷ []) 5 (refl, (refl, tt))

abbrev thread_in : State → Thread
thread_in s = record {
  process = 1;
  state = s;
  which_event = 0;
  signal_mask = λ i. false;
  pending_signals = λ i. false;
  enqueued_by_signal = none;
  entering_signal = false;
  signal_event = fresh_event;
}

abbrev machine : Machine
machine = record {
  table_size = 5;
  thread_table = λ i.
      if i == 2
      then some (thread_in running)
      else if i == 3
      then some (thread_in ready)
      else if i == 4
      then some (thread_in ready)
      else none;
  processes = λ p. record {
    group = 1;
    signal_actions = λ i. record { handler = 0; flags = 0; restorer = 0; mask = λ j. false };
  };
  process_list = λ g. [];
  sched_list = 2 ∷ 3 ∷ 4 ∷ [];
}

abbrev cpu : Cpu
cpu = record { gpr_state = 22; running_thread = some 2; saved = λ i. i + 100; machine = machine }

-- SIGSTOP is taken by the thread 3 as it is switched to: it stops and is off the run queue.
abbrev stops_third : ℕ → Cpu → Cpu
stops_third tid c = record c {
  machine =
      if tid == 3
      then record (change_thread 3 (set_state stopped) c.machine) { sched_list = 2 ∷ 4 ∷ [] }
      else c.machine;
}

stop_takes_over_example :
    let w = stops_third 3 (switch_to 0 cpu) in
    let d = stops_third 2 (switch_to 0 w) in
    (scheduler_isr 0 stops_third (2 + 3) cpu ≡ some (load d 2)) × ((load d 2).saved 3 ≡ 22)
unfolding switch_to save pick successor head_or_idle preempted continued passes state_of
    change_thread change_entry
stop_takes_over_example = stop_takes_over 0 stops_third 3 cpu 3 2 refl refl refl refl refl refl refl
