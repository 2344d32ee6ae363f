-- ===== src/Sched/Exit/Tests.antt =====
-- A process with two threads, one of them running, that is killed by signal 9.
use saba_os.Base.{
  ℕ, ◌+◌, ◌≡◌, refl, false, true, List, [], ◌∷◌, All, some, arith, if◌then◌else◌, ◌==◌,
}
use saba_os.Sched.Thread.{running, blocked}
use saba_os.Sched.Wait.{no_code}
use saba_os.Sched.Exit.{Process, World, is_dead, terminate_process}
use saba_os.Sched.Exit.Zombies.{IsChildOf, told, living}
use saba_os.Sched.Exit.Ends.{terminate_process_lem}

abbrev process : List ℕ → Process
process threads = record {
  parent = 2;
  group = 1;
  thread_list = threads;
  children_list = 6 ∷ [];
  num_living_threads = 2;
  is_zombie = false;
  wait_code = no_code;
  wait_status = 0;
}

abbrev world : World
world = record {
  states = λ t. if t == 4 then running else blocked;
  clear_child_tid = λ t. 0;
  sched_list = 4 ∷ [];
  processes = λ p. process (4 ∷ 5 ∷ []);
  init_process = 1;
  active_pagemap = 4;
  effects = [];
}

terminate_process_example :
    (w : World) × (terminate_process 4 (some 9) world ≡ some w)
    × All (λ u. is_dead (w.states u) ≡ true) (4 ∷ 5 ∷ [])
    × ((w.processes 4).num_living_threads ≡ 0)
    × ((w.processes 4).is_zombie ≡ true)
    × (told 2 w.effects ≡ told 2 [] + 1)
unfolding living is_dead IsChildOf
terminate_process_example =
    terminate_process_lem 4 2 (some 9) world (λ e. absurd (ground (arith, e))) refl
      (refl, ((λ e. absurd (ground (arith, e))), tt))
      (((λ e. absurd (ground (arith, e))), tt), (tt, tt)) refl (omega arith)
