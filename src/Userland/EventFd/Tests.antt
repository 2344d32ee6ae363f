-- ===== src/Userland/EventFd/Tests.antt =====
-- A counter near its limit, with another thread that takes from it while a writer waits.
use saba_os.Base.{ℕ, ◌-◌, ◌≡◌, ◌≤◌, ◌<◌, ◌⊎◌, true, false, [], ◌∷◌, none, err, einval, arith}
use saba_os.Sched.Event.{Turn, fresh_event, returned}
use saba_os.Fs.Description.{FileFlags, rdwr}
use saba_os.Userland.EventFd.{EventFd, counter_max, read, write}
use saba_os.Userland.EventFd.Blocking.{Reads, Writes, counter_read_ends, counter_write_ends}

abbrev flags : FileFlags
flags = record { mode = rdwr; nonblock = false; append = false }

abbrev sample : EventFd
sample = record { counter = counter_max - 2; is_semaphore = true; eventfd_event = fresh_event }

abbrev empty : EventFd
empty = record sample { counter = 0 }

-- The others leave the counter at 7.
abbrev wakes : Turn EventFd
wakes = record {
  thread = 3;
  has_pending_signals = false;
  others = λ f. record f { counter = 7 };
  by_signal = false;
}

counter_read_ends_example :
    ((8 < 8) × (read flags 8 (wakes ∷ []) empty ≡ returned empty (err einval, none) []))
    ⊎ ((8 ≤ 8) × Reads flags (wakes ∷ []) empty (read flags 8 (wakes ∷ []) empty))
counter_read_ends_example = counter_read_ends flags 8 (wakes ∷ []) empty

abbrev five : ℕ
five = 5

counter_write_ends_example :
    (((8 < 8) ⊎ (five ≡ 0xffffffffffffffff))
      × (write flags five 8 (wakes ∷ []) sample ≡ returned sample (err einval) []))
    ⊎ ((8 ≤ 8)
        × (five ≤ counter_max)
        × Writes flags five (wakes ∷ []) sample (write flags five 8 (wakes ∷ []) sample))
counter_write_ends_example = counter_write_ends flags five 8 (wakes ∷ []) sample (omega arith)
