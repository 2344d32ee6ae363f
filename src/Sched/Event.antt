-- ===== src/Sched/Event.antt =====
-- sched/event.hpp and sched/event.cpp: an event counts the triggers that found no listener, and keeps
-- the threads that wait for it. The counters do not reach the limits of `int`.
pub mod Laws
use saba_os.Base.{
  ℕ, zero, suc, ◌+◌, ◌-◌, Bool, true, false, if◌then◌else◌, ltb, leb, ◌==◌, List, [], ◌∷◌, ◌++◌,
}

pub record Listener : Type 0 where
  pub thread : ℕ
  pub which : ℕ

pub record Event : Type 0 where
  pub pending : ℕ
  pub num_listeners : ℕ
  pub listeners : List Listener

abbrev pub fresh_event : Event
fresh_event = record { pending = 0; num_listeners = 0; listeners = [] }

-- The listeners that the loop of `trigger` wakes: it counts after each, so that it wakes at least one.
unfoldable pub wake_loop : ℕ → ℕ → List Listener → List Listener
wake_loop max_to_wake num_woken_up [] = []
wake_loop max_to_wake num_woken_up (l ∷ ls) =
    let rest = wake_loop max_to_wake (num_woken_up + 1) ls in
    if leb max_to_wake (num_woken_up + 1) then l ∷ [] else l ∷ rest

-- `Event::trigger`: the event, and the listeners whose threads are put on the run queue.
unfoldable pub trigger : Bool → ℕ → Event → Event × List Listener
trigger drop max_to_wake e =
    if e.num_listeners == 0
    then ((if drop then e else record e { pending = e.pending + 1 }), [])
    else (e, wake_loop max_to_wake 0 e.listeners)

-- INT_MAX, the default of `max_to_wake`.
abbrev pub all_listeners : ℕ
all_listeners = 0x7fffffff

unfoldable pub add_listener : Listener → Event → Event
add_listener l e = record e {
  num_listeners = e.num_listeners + 1;
  listeners = e.listeners ++ (l ∷ []);
}

-- `Thread::clear_listeners` for one event of the thread.
unfoldable pub remove_listener : ℕ → List Listener → List Listener
remove_listener thread [] = []
remove_listener thread (l ∷ ls) = if l.thread == thread then ls else l ∷ remove_listener thread ls

unfoldable pub clear_listener : ℕ → Event → Event
unfolding remove_listener
clear_listener thread e = record e {
  num_listeners = e.num_listeners - 1;
  listeners = remove_listener thread e.listeners;
}

-- What the scheduler and the other threads do around one wait of a thread on an object of type `S`.
pub record Turn (S : Type 0) : Type 0 where
  pub thread : ℕ
  -- a signal is pending when the wait begins
  pub has_pending_signals : Bool
  -- what happens to the object until the thread runs again
  pub others : S → S
  -- the thread was put on the run queue by a signal
  pub by_signal : Bool

pub data Waited (S : Type 0) : Type 0 where
  eintr : S → Waited S
  woken : S → Waited S

-- `Event::wait` on the one event of an object.
unfoldable pub wait : {S : Type 0} → (S → Event) → (S → Event → S) → Turn S → S → Waited S
unfolding add_listener clear_listener
wait event with_event t s =
    let registered =
      with_event s (add_listener (record { thread = t.thread; which = 0 }) (event s)) in
    let back = t.others registered in
    let cleared = with_event back (clear_listener t.thread (event back)) in
    if t.has_pending_signals
    then eintr s
    else if ltb 0 (event s).pending
    then woken (with_event s (record (event s) { pending = (event s).pending - 1 }))
    else if t.by_signal
    then eintr cleared
    else woken cleared

-- A call either comes back, with the new state, its result and the threads that it woke, or still
-- waits when the turns given to it are used up.
pub data Outcome (S : Type 0) (A : Type 0) : Type 0 where
  returned : S → A → List Listener → Outcome S A
  blocked : S → Outcome S A
