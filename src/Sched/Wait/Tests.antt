-- ===== src/Sched/Wait/Tests.antt =====
-- A process with three children, of which one has stopped and one has ended.
use saba_os.Base.{ℕ, true, false, List, [], ◌∷◌, ◌*◌, ◌+◌}
use saba_os.Sched.Wait.{Child, no_code, exited, stopped, Options}

abbrev runs : Child
runs = record { pid = 7; rid = 1000; is_zombie = false; wait_code = no_code; wait_status = 0 }

abbrev rests : Child
rests = record { pid = 8; rid = 1000; is_zombie = false; wait_code = stopped; wait_status = 19 }

abbrev ended : Child
ended = record { pid = 9; rid = 1000; is_zombie = true; wait_code = exited; wait_status = 3 }

abbrev options : Options
options = record {
  wexited = true;
  wstopped = false;
  wcontinued = false;
  wnohang = false;
  wnowait = false;
}

abbrev ends : List Child → List Child
ends cs = ended ∷ []

abbrev exit_code : ℕ → ℕ → ℕ
exit_code ret signal = ret * 256 + signal

abbrev stop_code : ℕ → ℕ
stop_code signal = signal * 256 + 127
