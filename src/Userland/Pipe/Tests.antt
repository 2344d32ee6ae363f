-- ===== src/Userland/Pipe/Tests.antt =====
-- A pipe with one reader and one writer, a call of `read` that waits until the writer has written, and a
-- short history.
use saba_os.Base.{ℕ, ◌+◌, ◌^◌, ◌∣◌, ◌≡◌, true, false, List, [], ◌∷◌, ◌++◌, Buffer, arith}
use saba_os.Sched.Event.{Turn, fresh_event}
use saba_os.Klib.Ring
use saba_os.Klib.Ring.{Ring}
use saba_os.Klib.Ring.Refine.{write_refines}
use saba_os.Fs.Description.{FileFlags, rdonly, wronly}
use saba_os.Userland.Pipe.{Pipe, capacity, read, write}
use saba_os.Userland.Pipe.Blocking.{
  IsSound, stored, Keeps, Found, Cut, ReadEnds, WriteEnds, read_ends, write_ends,
}
use saba_os.Userland.Pipe.Fifo.{Op, opens, closes, reads, writes, run, run-Conserves}

abbrev input : Buffer ℕ
input i = i + 65

abbrev reader : FileFlags
reader = record { mode = rdonly; nonblock = false; append = false }

abbrev writer : FileFlags
writer = record { mode = wronly; nonblock = true; append = false }

abbrev sample : Pipe
sample = record {
  readers = 1;
  writers = 1;
  pipe_event = fresh_event;
  ring_buffer = record { read_index = 0; write_index = 0; store = λ i. 0 };
}

sample-IsSound : IsSound sample
sample-IsSound = record {
  nonzero = omega arith;
  divides = ∣ (2 ^ 52, omega arith) ∣₁;
  small = omega arith;
  read_in = omega arith;
  write_in = omega arith;
  fits = omega arith;
}

-- While the reader waits, another thread puts three bytes into the ring.
abbrev wakes : Turn Pipe
wakes = record {
  thread = 3;
  has_pending_signals = false;
  others = λ p. record p { ring_buffer = (Ring.write capacity p.ring_buffer input 3).0 };
  by_signal = false;
}

wakes-Keeps : Keeps wakes
wakes-Keeps p v = (write_refines v input 3).0

read_ends_example :
    ReadEnds reader input 2
      (Found (wakes ∷ []) sample)
      (Cut (wakes ∷ []) sample)
      (read reader input 2 (wakes ∷ []) sample)
read_ends_example = read_ends reader input 2 (wakes ∷ []) sample (wakes-Keeps, tt) sample-IsSound

write_ends_example :
    WriteEnds writer input 9
      (Found (wakes ∷ []) sample)
      (Cut (wakes ∷ []) sample)
      (write writer input 9 (wakes ∷ []) sample)
write_ends_example = write_ends writer input 9 (wakes ∷ []) sample (wakes-Keeps, tt) sample-IsSound

abbrev calls : List Op
calls =
    writes writer input 5
    ∷ reads reader input 2
    ∷ opens reader
    ∷ writes writer input 4
    ∷ reads reader input 100
    ∷ closes writer
    ∷ []

run-Conserves_example :
    let h = run (record { pipe = sample; written = []; taken = [] }) calls in
    IsSound h.pipe × (stored sample ++ h.written ≡ h.taken ++ stored h.pipe)
run-Conserves_example = run-Conserves sample calls sample-IsSound
