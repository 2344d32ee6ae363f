-- ===== src/Userland/Pipe.antt =====
-- userland/pipe.hpp and userland/pipe.cpp: a pipe is a ring of 0x1000 bytes, the numbers of its open
-- ends, and an event.
pub mod Blocking
pub mod Fifo
mod Tests
use saba_os.Base.{
  ℕ, ◌+◌, ◌-◌, Bool, true, false, ◌&&◌, not, if◌then◌else◌, ◌==◌, List, [], ◌∷◌, Ret, ok, err,
  epipe, eintr, ewouldblock, add64, sub64, Buffer,
}
use saba_os.Klib.Ring.{Ring}
use saba_os.Klib.Ring
use saba_os.Fs.Description.{FileFlags, rdonly, wronly, can_read, can_write}
use saba_os.Sched.Event
use saba_os.Sched.Event.{
  Event, Listener, Turn, Outcome, returned, blocked, Waited, woken, fresh_event, trigger,
  all_listeners,
}

abbrev pub capacity : ℕ
capacity = 0x1000

pub record Pipe : Type 0 where
  pub readers : ℕ
  pub writers : ℕ
  pub pipe_event : Event
  pub ring_buffer : Ring ℕ

abbrev pub with_event : Pipe → Event → Pipe
with_event p e = record p { pipe_event = e }

-- `pipe_event.trigger()`
abbrev pub triggered : Pipe → Pipe × List Listener
triggered p = let (e, woke) = trigger false all_listeners p.pipe_event in (with_event p e, woke)

pub open_end : Pipe → FileFlags → Pipe
unfolding can_read can_write
open_end p fd = record p {
  readers = if can_read fd then add64 p.readers 1 else p.readers;
  writers = if can_write fd then add64 p.writers 1 else p.writers;
}

pub close_end : Pipe → FileFlags → Pipe × List Listener
unfolding can_read can_write
close_end p fd = triggered (record p {
  readers = if can_read fd then sub64 p.readers 1 else p.readers;
  writers = if can_write fd then sub64 p.writers 1 else p.writers;
})

-- The bytes leave through the caller's buffer.
pub read_ring : Pipe → Buffer ℕ → ℕ → Outcome Pipe (Ret × Buffer ℕ)
read_ring p buf count =
    let (ring, buf', n) = Ring.read capacity p.ring_buffer buf count in
    let (p', woke) = triggered (record p { ring_buffer = ring }) in returned p' (ok n, buf') woke

-- One round of the loop of `Pipe::read`; `wait` is what the rest of the round comes to.
abbrev read_round :
    FileFlags → Buffer ℕ → ℕ → Pipe → Outcome Pipe (Ret × Buffer ℕ) → Outcome Pipe (Ret × Buffer ℕ)
read_round fd buf count p wait =
    if Ring.is_empty capacity p.ring_buffer
    then if p.writers == 0
      then returned p (ok 0, buf) []
      else if fd.nonblock
      then returned p (err ewouldblock, buf) []
      else wait
    else read_ring p buf count

pub read : FileFlags → Buffer ℕ → ℕ → List (Turn Pipe) → Pipe → Outcome Pipe (Ret × Buffer ℕ)
read fd buf count [] p = read_round fd buf count p (blocked p)
read fd buf count (t ∷ ts) p =
    read_round fd buf count p (elim (Event.wait (λ q. q.pipe_event) with_event t p) [
      | Waited.eintr q ↦ returned q (err eintr, buf) []
      | Waited.woken q ↦ read fd buf count ts q
    ])

pub write_ring : Pipe → Buffer ℕ → ℕ → Outcome Pipe Ret
write_ring p buf count =
    let (ring, n) = Ring.write capacity p.ring_buffer buf count in
    let (p', woke) = triggered (record p { ring_buffer = ring }) in returned p' (ok n) woke

abbrev write_round : FileFlags → Buffer ℕ → ℕ → Pipe → Outcome Pipe Ret → Outcome Pipe Ret
write_round fd buf count p wait =
    if p.readers == 0
    then returned p (err epipe) []
    else if Ring.is_full capacity p.ring_buffer
    then (if fd.nonblock then returned p (err ewouldblock) [] else wait)
    else write_ring p buf count

pub write : FileFlags → Buffer ℕ → ℕ → List (Turn Pipe) → Pipe → Outcome Pipe Ret
write fd buf count [] p = write_round fd buf count p (blocked p)
write fd buf count (t ∷ ts) p =
    write_round fd buf count p (elim (Event.wait (λ q. q.pipe_event) with_event t p) [
      | Waited.eintr q ↦ returned q (err eintr) []
      | Waited.woken q ↦ write fd buf count ts q
    ])

-- The two bits of `events` that a pipe looks at, and the four that it may answer.
pub record Interest : Type 0 where
  pub pollin : Bool
  pub pollout : Bool

pub record Revents : Type 0 where
  pub pollin : Bool
  pub pollout : Bool
  pub pollhup : Bool
  pub pollerr : Bool

pub poll : Pipe → Interest → Revents
poll p events = record {
  pollin = events.pollin && not (p.writers == 0) && not (Ring.is_empty capacity p.ring_buffer);
  pollout = events.pollout && not (p.readers == 0) && not (Ring.is_full capacity p.ring_buffer);
  pollhup = events.pollin && (p.writers == 0);
  pollerr = events.pollout && (p.readers == 0);
}

-- `new Pipe()`: no open end, nothing stored. The bytes of the storage are whatever they are.
pub new_pipe : Buffer ℕ → Pipe
new_pipe junk = record {
  readers = 0;
  writers = 0;
  pipe_event = fresh_event;
  ring_buffer = record { read_index = 0; write_index = 0; store = junk };
}
