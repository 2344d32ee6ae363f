-- ===== src/Sched/Exit.antt =====
-- sched/sched.cpp: the end of threads and processes: terminate_thread, terminate_process, zombify and
-- set_parent. A thread is named by its tid and a process by its pid. What these calls do outside of the
-- scheduler's own state is the list of their effects, in order. `none` is a panic.
pub mod Zombies
pub mod Ends
mod Tests
use saba_os.Base.{
  ℕ, zero, suc, ◌+◌, ◌-◌, Bool, true, false, if◌then◌else◌, ◌==◌, List, [], ◌∷◌, ◌++◌, Option, none,
  some,
}
use saba_os.Sched.Thread.{State, ready, running, blocked, stopped, zombie}
use saba_os.Sched.Wait.{WaitCode, killed}

pub record Process : Type 0 where
  pub parent : ℕ
  pub group : ℕ
  pub thread_list : List ℕ
  pub children_list : List ℕ
  pub num_living_threads : ℕ
  pub is_zombie : Bool
  pub wait_code : WaitCode
  pub wait_status : ℕ

-- The descriptors of a process are closed and its pagemap is deleted; its zombie event is triggered; a
-- process gets SIGCHLD; the word at a thread's clear_child_tid is cleared and one waiter on it is woken.
pub data Effect : Type 0 where
  frees : ℕ → Effect
  triggers : ℕ → Effect
  signals_child : ℕ → Effect
  clears : ℕ → Effect

pub record World : Type 0 where
  pub states : ℕ → State
  pub clear_child_tid : ℕ → ℕ
  pub sched_list : List ℕ
  pub processes : ℕ → Process
  pub init_process : ℕ
  -- the process whose page map is the active one
  pub active_pagemap : ℕ
  pub effects : List Effect

pub update_process : ℕ → (Process → Process) → World → World
update_process pid f w = record w {
  processes = λ i. if i == pid then f (w.processes i) else w.processes i;
}

-- The link of one node is taken out of a list.
pub remove_link : ℕ → List ℕ → List ℕ
remove_link tid [] = []
remove_link tid (x ∷ xs) = let rest = remove_link tid xs in if x == tid then xs else x ∷ rest

-- `child->set_parent(parent)`, where the child is on a list of children; it joins the parent's group.
pub set_parent : ℕ → ℕ → World → World
set_parent child parent w =
    let old = (w.processes child).parent in
    let group = (w.processes parent).group in
    update_process child (λ p. record p { parent = parent; group = group })
      (update_process parent (λ p. record p { children_list = p.children_list ++ (child ∷ []) })
        (update_process old (λ p. record p { children_list = remove_link child p.children_list })
          w))

pub give_all : List ℕ → ℕ → World → World
give_all [] parent w = w
give_all (c ∷ cs) parent w = give_all cs parent (set_parent c parent w)

-- `none` is a signal of -1.
pub mark_zombie : Option ℕ → Process → Process
mark_zombie none p = record p { is_zombie = true }
mark_zombie (some signal) p = record p {
  is_zombie = true;
  wait_status = signal;
  wait_code = killed;
}

pub zombified : ℕ → Option ℕ → World → World
zombified pid signal w =
    let marked = update_process pid (mark_zombie signal) w in
    let given = give_all (marked.processes pid).children_list w.init_process marked in
    record given {
      effects =
          given.effects
          ++ (frees pid ∷ triggers pid ∷ signals_child (given.processes pid).parent ∷ []);
    }

pub zombify : ℕ → Option ℕ → World → Option World
zombify pid signal w = if pid == w.init_process then none else some (zombified pid signal w)

pub unlink : State → ℕ → List ℕ → List ℕ
unlink ready tid queue = remove_link tid queue
unlink running tid queue = remove_link tid queue
unlink blocked tid queue = queue
unlink stopped tid queue = queue
unlink zombie tid queue = queue

unfoldable pub set_state : ℕ → State → (ℕ → State) → ℕ → State
set_state tid s states i = if i == tid then s else states i

-- The thread is off the run queue and dead, and counted out.
pub count_out : ℕ → ℕ → World → World
count_out pid tid w =
    update_process pid (λ p. record p { num_living_threads = p.num_living_threads - 1 })
      (record w {
        states = set_state tid zombie w.states;
        sched_list = unlink (w.states tid) tid w.sched_list;
      })

unfoldable pub is_dead : State → Bool
is_dead zombie = true
is_dead _ = false

pub terminate_thread : ℕ → Option ℕ → ℕ → World → Option World
terminate_thread pid signal tid w =
    let out = count_out pid tid w in
    if is_dead (w.states tid)
    then some w
    else if (out.processes pid).num_living_threads == 0
    then zombify pid signal out
    else if out.clear_child_tid tid == 0
    then some out
    else if out.active_pagemap == pid
    then some (record out { effects = out.effects ++ (clears tid ∷ []) })
    else none

pub and_then : (World → Option World) → Option World → Option World
and_then f none = none
and_then f (some w) = f w

pub terminate_all : ℕ → Option ℕ → List ℕ → World → Option World
terminate_all pid signal [] w = some w
terminate_all pid signal (t ∷ ts) w =
    and_then (λ w'. terminate_all pid signal ts w') (terminate_thread pid signal t w)

pub terminate_process : ℕ → Option ℕ → World → Option World
terminate_process pid signal w = terminate_all pid signal (w.processes pid).thread_list w
