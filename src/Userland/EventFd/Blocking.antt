-- ===== src/Userland/EventFd/Blocking.antt =====
-- What an event counter does whatever other threads do while a call waits.
use saba_os.Base.{
  ℕ, ◌+◌, ◌-◌, ◌^◌, ◌≡◌, ◌<◌, ◌≤◌, ◌⊎◌, refl, true, false, if◌then◌else◌, Bool, Bool-cases, inl,
  inr, ltb, ◌==◌, List, [], ◌∷◌, Option, none, some, Ret, ok, err, einval, eintr, ewouldblock,
  sub64, add64, arith,
}
use saba_os.Fs.Description.{FileFlags}
use saba_os.Sched.Event
use saba_os.Sched.Event.{Outcome, returned, blocked, Listener, Turn, Waited}
use saba_os.Sched.Event.Laws.{Waited-cases}
use saba_os.Userland.EventFd.{
  EventFd, counter_max, with_event, take_counter, add_counter, read_loop, read, write_loop, write,
}

unfoldable pub IsInRange : EventFd → Type 0
IsInRange f = f.counter ≤ counter_max

-- The others keep the counter in range in a turn.
abbrev pub Keeps : Turn EventFd → Type 0
Keeps t = (f : EventFd) → IsInRange f → IsInRange (t.others f)

abbrev wait_on : Turn EventFd → EventFd → Waited EventFd
wait_on = Event.wait (λ g. g.eventfd_event) with_event

-- How the rounds of a read end, from the counter `f` on: each round but the last finds the counter 0.
pub data Reads (fd : FileFlags)
    : List (Turn EventFd) → EventFd → Outcome EventFd (Ret × Option ℕ) → Type 0 where
  took :
      {ts : List (Turn EventFd)} {f : EventFd} (f' : EventFd) (v : ℕ) (woke : List Listener)
      → 0 < f.counter
      → v ≡ (if f.is_semaphore then 1 else f.counter)
      → f.counter ≡ f'.counter + v
      → f'.is_semaphore ≡ f.is_semaphore
      → Reads fd ts f (returned f' (ok 8, some v) woke)
  would_block :
      {ts : List (Turn EventFd)} {f : EventFd}
      → f.counter ≡ 0
      → fd.nonblock ≡ true
      → Reads fd ts f (returned f (err ewouldblock, none) [])
  waits : {f : EventFd} → f.counter ≡ 0 → fd.nonblock ≡ false → Reads fd [] f (blocked f)
  interrupted :
      {t : Turn EventFd} {ts : List (Turn EventFd)} {f : EventFd} (g : EventFd)
      → f.counter ≡ 0
      → fd.nonblock ≡ false
      → wait_on t f ≡ Waited.eintr g
      → Reads fd (t ∷ ts) f (returned g (err eintr, none) [])
  goes_on :
      {t : Turn EventFd} {ts : List (Turn EventFd)} {f : EventFd}
      {o : Outcome EventFd (Ret × Option ℕ)} (g : EventFd)
      → f.counter ≡ 0
      → fd.nonblock ≡ false
      → wait_on t f ≡ Waited.woken g
      → Reads fd ts g o
      → Reads fd (t ∷ ts) f o

-- How the rounds of a write end: in each round but the last the sum would pass the limit.
pub data Writes (fd : FileFlags) (v : ℕ)
    : List (Turn EventFd) → EventFd → Outcome EventFd Ret → Type 0 where
  added :
      {ts : List (Turn EventFd)} {f : EventFd} (f' : EventFd) (woke : List Listener)
      → f'.counter ≡ f.counter + v
      → IsInRange f'
      → f'.is_semaphore ≡ f.is_semaphore
      → Writes fd v ts f (returned f' (ok 8) woke)
  would_block :
      {ts : List (Turn EventFd)} {f : EventFd}
      → counter_max < f.counter + v
      → fd.nonblock ≡ true
      → Writes fd v ts f (returned f (err ewouldblock) [])
  waits :
      {f : EventFd}
      → counter_max < f.counter + v
      → fd.nonblock ≡ false
      → Writes fd v [] f (blocked f)
  interrupted :
      {t : Turn EventFd} {ts : List (Turn EventFd)} {f : EventFd} (g : EventFd)
      → counter_max < f.counter + v
      → fd.nonblock ≡ false
      → wait_on t f ≡ Waited.eintr g
      → Writes fd v (t ∷ ts) f (returned g (err eintr) [])
  goes_on :
      {t : Turn EventFd} {ts : List (Turn EventFd)} {f : EventFd} {o : Outcome EventFd Ret}
      (g : EventFd)
      → counter_max < f.counter + v
      → fd.nonblock ≡ false
      → wait_on t f ≡ Waited.woken g
      → Writes fd v ts g o
      → Writes fd v (t ∷ ts) f o

take_counter-Reads :
    (fd : FileFlags) (ts : List (Turn EventFd)) (f : EventFd)
    → (f.counter == 0) ≡ false
    → Reads fd ts f (take_counter f)
unfolding take_counter
take_counter-Reads fd ts f something =
    let pos : 0 < f.counter = ground (arith, something) in
    took _ _ _ pos refl (balance f.is_semaphore f.counter pos) refl
  where
    balance : (s : Bool) (c : ℕ) → 0 < c → c ≡ (if s then c - 1 else 0) + (if s then 1 else c)
    balance s c pos = ground (arith, pos)

read_loop-Reads :
    (fd : FileFlags) (ts : List (Turn EventFd)) (f : EventFd) → Reads fd ts f (read_loop fd ts f)
unfolding read_loop
read_loop-Reads fd [] f = elim (Bool-cases (f.counter == 0)) [
  | inl nothing ↦ elim (Bool-cases fd.nonblock) [
    | inl now ↦ rw nothing simp now (would_block (ground (arith, nothing)) now)
    | inr later ↦ rw nothing simp later (waits (ground (arith, nothing)) later)
  ]
  | inr something ↦ rw something (take_counter-Reads fd [] f something)
]
read_loop-Reads fd (t ∷ ts) f = elim (Bool-cases (f.counter == 0)) [
  | inl nothing ↦ elim (Bool-cases fd.nonblock) [
    | inl now ↦ rw nothing simp now (would_block (ground (arith, nothing)) now)
    | inr later ↦ elim (Waited-cases (wait_on t f)) [
      | inl (g, e) ↦ rw nothing simp (later, e) (interrupted g (ground (arith, nothing)) later e)
      | inr (g, e) ↦
          rw nothing simp (later, e)
            (goes_on g (ground (arith, nothing)) later e (read_loop-Reads fd ts g))
    ]
  ]
  | inr something ↦ rw something (take_counter-Reads fd (t ∷ ts) f something)
]

-- A read with a buffer of fewer than 8 bytes fails with EINVAL and changes nothing. With a longer one, whatever
-- other threads do between its rounds, it ends in one of these ways, each with its reason: a round that finds
-- the counter above 0 takes 1 from it with EFD_SEMAPHORE, else all of it, and what is taken and what is left
-- make up the counter that it found; a round that finds 0 fails with EWOULDBLOCK where the call may not
-- block, is interrupted, waits, or goes on with the counter as it then is.
pub counter_read_ends :
    (fd : FileFlags) (count : ℕ) (ts : List (Turn EventFd)) (f : EventFd)
    → ((count < 8) × (read fd count ts f ≡ returned f (err einval, none) []))
      ⊎ ((8 ≤ count) × Reads fd ts f (read fd count ts f))
unfolding read
counter_read_ends fd count ts f = elim (Bool-cases (ltb count 8)) [
  | inl short ↦ rw short (inl (ground (arith, short), refl))
  | inr long ↦ rw long (inr (ground (arith, long), read_loop-Reads fd ts f))
]

module _ (fd : FileFlags) (v : ℕ) (small : v ≤ counter_max) where
  no_room : (f : EventFd) → ltb (sub64 counter_max v) f.counter ≡ true → counter_max < f.counter + v
  no_room f h =
      let exact : sub64 counter_max v ≡ counter_max - v = omega (arith, small) in
      let h' : ltb (counter_max - v) f.counter ≡ true = rw exact at h in ground (arith, h', small)

  add_counter-Writes :
      (ts : List (Turn EventFd)) (f : EventFd)
      → ltb (sub64 counter_max v) f.counter ≡ false
      → Writes fd v ts f (add_counter v f)
  unfolding add_counter IsInRange
  add_counter-Writes ts f h =
      let exact : sub64 counter_max v ≡ counter_max - v = omega (arith, small) in
      let h' : ltb (counter_max - v) f.counter ≡ false = rw exact at h in
      let fit : f.counter + v ≤ counter_max = ground (arith, h', small) in
      let sum : add64 f.counter v ≡ f.counter + v = omega (arith, fit) in
      rw sum (added _ _ refl fit refl)

  write_loop-Writes :
      (ts : List (Turn EventFd)) (f : EventFd) → Writes fd v ts f (write_loop fd v ts f)
  unfolding write_loop
  write_loop-Writes [] f = elim (Bool-cases (ltb (sub64 counter_max v) f.counter)) [
    | inl full ↦ elim (Bool-cases fd.nonblock) [
      | inl now ↦ rw full simp now (would_block (no_room f full) now)
      | inr later ↦ rw full simp later (waits (no_room f full) later)
    ]
    | inr fits ↦ rw fits (add_counter-Writes [] f fits)
  ]
  write_loop-Writes (t ∷ ts) f = elim (Bool-cases (ltb (sub64 counter_max v) f.counter)) [
    | inl full ↦ elim (Bool-cases fd.nonblock) [
      | inl now ↦ rw full simp now (would_block (no_room f full) now)
      | inr later ↦ elim (Waited-cases (wait_on t f)) [
        | inl (g, e) ↦ rw full simp (later, e) (interrupted g (no_room f full) later e)
        | inr (g, e) ↦
            rw full simp (later, e) (goes_on g (no_room f full) later e (write_loop-Writes ts g))
      ]
    ]
    | inr fits ↦ rw fits (add_counter-Writes (t ∷ ts) f fits)
  ]

-- A write of a 64-bit word fails with EINVAL and changes nothing where the buffer has fewer than 8 bytes or the
-- word is the largest one. Else, whatever other threads do between its rounds, it ends in one of these ways,
-- each with its reason: a round adds the word, with no wrap-around and within the limit; a round in which
-- the sum would pass the limit fails with EWOULDBLOCK where the call may not block, is interrupted,
-- waits, or goes on with the counter as it then is.
pub counter_write_ends :
    (fd : FileFlags) (v count : ℕ) (ts : List (Turn EventFd)) (f : EventFd)
    → v < 2 ^ 64
    → (((count < 8) ⊎ (v ≡ 0xffffffffffffffff))
        × (write fd v count ts f ≡ returned f (err einval) []))
      ⊎ ((8 ≤ count) × (v ≤ counter_max) × Writes fd v ts f (write fd v count ts f))
unfolding write
counter_write_ends fd v count ts f word = elim (Bool-cases (ltb count 8)) [
  | inl short ↦ rw short (inl (inl (ground (arith, short)), refl))
  | inr long ↦ elim (Bool-cases (v == 0xffffffffffffffff)) [
    | inl reserved ↦ rw (long, reserved) (inl (inr (ground (arith, reserved)), refl))
    | inr fine ↦
        let small : v ≤ counter_max = ground (arith, fine, word) in
        rw (long, fine) (inr (ground (arith, long), small, write_loop-Writes fd v small ts f))
  ]
]
