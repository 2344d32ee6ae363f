-- ===== src/Userland/EventFd.antt =====
-- userland/eventfd.hpp and userland/eventfd.cpp: a 64-bit counter with an event.
pub mod Blocking
mod Tests
use saba_os.Base.{
  ℕ, ◌+◌, ◌-◌, ◌%◌, ◌^◌, Bool, true, false, ◌&&◌, if◌then◌else◌, ltb, ◌==◌, List, [], ◌∷◌, Option,
  none, some, Ret, ok, err, einval, ewouldblock, eintr, add64, sub64,
}
use saba_os.Fs.Description.{FileFlags}
use saba_os.Sched.Event
use saba_os.Sched.Event.{
  Event, Listener, Turn, Outcome, returned, blocked, Waited, fresh_event, trigger, all_listeners,
}

abbrev pub counter_max : ℕ
counter_max = 0xfffffffffffffffe

pub record EventFd : Type 0 where
  pub counter : ℕ
  pub is_semaphore : Bool
  pub eventfd_event : Event

abbrev pub with_event : EventFd → Event → EventFd
with_event f e = record f { eventfd_event = e }

-- `eventfd_event.trigger(true)`
abbrev pub triggered : EventFd → EventFd × List Listener
triggered f = let (e, woke) = trigger true all_listeners f.eventfd_event in (with_event f e, woke)

-- The result, and the word that is stored to the caller's buffer.
pub take_counter : EventFd → Outcome EventFd (Ret × Option ℕ)
take_counter f =
    let value = if f.is_semaphore then 1 else f.counter in
    let left = if f.is_semaphore then f.counter - 1 else 0 in
    let (f', woke) = triggered (record f { counter = left }) in returned f' (ok 8, some value) woke

-- One round of the loop of `EventFD::read`, after the check of `count`; `wait` is what the rest of the round comes to.
abbrev read_round :
    FileFlags → EventFd → Outcome EventFd (Ret × Option ℕ) → Outcome EventFd (Ret × Option ℕ)
read_round fd f wait =
    if f.counter == 0
    then (if fd.nonblock then returned f (err ewouldblock, none) [] else wait)
    else take_counter f

pub read_loop : FileFlags → List (Turn EventFd) → EventFd → Outcome EventFd (Ret × Option ℕ)
read_loop fd [] f = read_round fd f (blocked f)
read_loop fd (t ∷ ts) f = read_round fd f (elim (Event.wait (λ g. g.eventfd_event) with_event t f) [
  | Waited.eintr g ↦ returned g (err eintr, none) []
  | Waited.woken g ↦ read_loop fd ts g
])

pub read : FileFlags → ℕ → List (Turn EventFd) → EventFd → Outcome EventFd (Ret × Option ℕ)
read fd count ts f = if ltb count 8 then returned f (err einval, none) [] else read_loop fd ts f

pub add_counter : ℕ → EventFd → Outcome EventFd Ret
add_counter to_add f =
    let (f', woke) = triggered (record f { counter = add64 f.counter to_add }) in
    returned f' (ok 8) woke

abbrev write_round : FileFlags → ℕ → EventFd → Outcome EventFd Ret → Outcome EventFd Ret
write_round fd to_add f wait =
    if ltb (sub64 counter_max to_add) f.counter
    then (if fd.nonblock then returned f (err ewouldblock) [] else wait)
    else add_counter to_add f

pub write_loop : FileFlags → ℕ → List (Turn EventFd) → EventFd → Outcome EventFd Ret
write_loop fd to_add [] f = write_round fd to_add f (blocked f)
write_loop fd to_add (t ∷ ts) f =
    write_round fd to_add f (elim (Event.wait (λ g. g.eventfd_event) with_event t f) [
      | Waited.eintr g ↦ returned g (err eintr) []
      | Waited.woken g ↦ write_loop fd to_add ts g
    ])

-- `to_add` is the word at the caller's buffer.
pub write : FileFlags → ℕ → ℕ → List (Turn EventFd) → EventFd → Outcome EventFd Ret
write fd to_add count ts f =
    if ltb count 8
    then returned f (err einval) []
    else if to_add == 0xffffffffffffffff
    then returned f (err einval) []
    else write_loop fd to_add ts f

-- The two bits of `events` that an event counter looks at, and its answer.
pub record Ready : Type 0 where
  pub pollin : Bool
  pub pollout : Bool

pub poll : EventFd → Ready → Ready
poll f events = record {
  pollin = events.pollin && ltb 0 f.counter;
  pollout = events.pollout && ltb f.counter counter_max;
}

-- The part of `eventfd_impl` that makes the object; `initval` is 32 bits wide.
pub new_eventfd : ℕ → Bool → EventFd
new_eventfd initval semaphore = record {
  counter = initval;
  is_semaphore = semaphore;
  eventfd_event = fresh_event;
}
