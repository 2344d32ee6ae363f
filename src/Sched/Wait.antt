-- ===== src/Sched/Wait.antt =====
-- sched/sched.cpp: waitid_impl and wait4, over the children of the process that waits. A child is named by
-- its pid. `threads` is the thread table: it gives the pid of the process of a thread. A call that waits
-- takes a list of turns, one for each wait on the children's events; when they are used up it is `waiting`.
pub mod Consumed
pub mod Reap
mod Tests
use saba_os.Base.{
  ℕ, zero, suc, ◌+◌, ◌*◌, Bool, true, false, ◌||◌, not, if◌then◌else◌, ltb, leb, ◌==◌, List, [],
  ◌∷◌, ◌++◌, Option, none, some, Errno, einval, echild, eintr,
}

-- `wait_code`: 0, or one of the CLD_ constants
pub data WaitCode : Type 0 where
  no_code exited killed stopped continued : WaitCode

-- A child `Process`, with the real user id of its main thread.
pub record Child : Type 0 where
  pub pid : ℕ
  pub rid : ℕ
  pub is_zombie : Bool
  pub wait_code : WaitCode
  pub wait_status : ℕ

pub record Options : Type 0 where
  pub wexited : Bool
  pub wstopped : Bool
  pub wcontinued : Bool
  pub wnohang : Bool
  pub wnowait : Bool

pub data IdType : Type 0 where
  p_all p_pid p_pgid : IdType

-- The fields of `siginfo_t` that are set besides si_signo, which is SIGCHLD.
pub record Info : Type 0 where
  pub si_pid : ℕ
  pub si_uid : ℕ
  pub si_status : ℕ
  pub si_code : WaitCode

-- What the call ends with. `unsupported` is the result 0 that leaves *infop as it was.
pub data Outcome : Type 0 where
  fails : Errno → Outcome
  unsupported : Outcome
  nobody : Outcome
  reports : Info → Outcome
  waiting : Outcome

pub times : Bool → Child → List Child
times true c = c ∷ []
times false c = []

-- `add_child`, once for each kind of event that is asked for
pub add_child : Options → Child → List Child
add_child o c = times o.wexited c ++ times o.wstopped c ++ times o.wcontinued c

pub all_targets : Options → List Child → List Child
all_targets o [] = []
all_targets o (c ∷ cs) = add_child o c ++ all_targets o cs

pub find_child : ℕ → List Child → Option Child
find_child pid [] = none
find_child pid (c ∷ cs) = let rest = find_child pid cs in if c.pid == pid then some c else rest

-- What the loop looks at: an error, a result of 0, or the children that were pushed.
pub data Targets : Type 0 where
  refused : Errno → Targets
  ignored : Targets
  those : List Child → Targets

pub one_target : Options → Option Child → Targets
one_target o none = refused echild
one_target o (some c) = those (add_child o c)

pub of_thread : Options → List Child → Option ℕ → Targets
of_thread o children none = refused echild
of_thread o children (some pid) = one_target o (find_child pid children)

-- No children at all is an error; a table index past the end is one as well.
pub targets : (ℕ → Option ℕ) → Options → IdType → ℕ → List Child → Targets
targets threads o p_all id [] = refused echild
targets threads o p_all id (c ∷ cs) = those (all_targets o (c ∷ cs))
targets threads o p_pid id children = of_thread o children (threads id)
targets threads o p_pgid id children = ignored

unfoldable pub has_code : WaitCode → Bool
has_code no_code = false
has_code _ = true

-- The first child with a code.
pub ready_child : List Child → Option Child
ready_child [] = none
ready_child (c ∷ cs) = let rest = ready_child cs in if has_code c.wait_code then some c else rest

pub info_of : Child → Info
info_of c = record {
  si_pid = c.pid;
  si_uid = c.rid;
  si_status = c.wait_status;
  si_code = c.wait_code;
}

-- `delete target_child` takes it off the list of children.
pub remove_child : ℕ → List Child → List Child
remove_child pid [] = []
remove_child pid (c ∷ cs) =
    let rest = remove_child pid cs in if c.pid == pid then rest else c ∷ rest

pub clear_code : ℕ → List Child → List Child
clear_code pid [] = []
clear_code pid (c ∷ cs) =
    (if c.pid == pid then record c { wait_code = no_code } else c) ∷ clear_code pid cs

pub consume : Options → Child → List Child → List Child
consume o c children =
    if o.wnowait
    then children
    else if c.is_zombie
    then remove_child c.pid children
    else clear_code c.pid children

-- A wait on the events of the children: a signal ends it, or the children are as they then are. Nobody
-- else reaps a child meanwhile.
pub data Turn : Type 0 where
  interrupted : Turn
  woken : (List Child → List Child) → Turn

-- The children that the call pushed, as they are now.
pub append_found : Option Child → List Child → List Child
append_found none cs = cs
append_found (some c) cs = c ∷ cs

pub current : List Child → List Child → List Child
current children [] = []
current children (c ∷ cs) = append_found (find_child c.pid children) (current children cs)

pub report : Options → List Child → List Child × Outcome → Option Child → List Child × Outcome
report o children otherwise none = otherwise
report o children otherwise (some c) = (consume o c children, reports (info_of c))

-- `while (true)`
pub wait_loop : Options → List Child → List Child → List Turn → List Child × Outcome
wait_loop o pushed children [] =
    report o children (children, if o.wnohang then nobody else waiting)
      (ready_child (current children pushed))
wait_loop o pushed children (interrupted ∷ turns) =
    report o children (children, if o.wnohang then nobody else fails eintr)
      (ready_child (current children pushed))
wait_loop o pushed children (woken f ∷ turns) =
    let later = wait_loop o pushed (f children) turns in
    report o children (if o.wnohang then (children, nobody) else later)
      (ready_child (current children pushed))

pub wait_for : Options → List Child → List Turn → Targets → List Child × Outcome
wait_for o children turns (refused e) = (children, fails e)
wait_for o children turns ignored = (children, unsupported)
wait_for o children turns (those cs) = wait_loop o cs children turns

pub waitid_impl :
    (ℕ → Option ℕ) → IdType → ℕ → Options → List Child → List Turn → List Child × Outcome
waitid_impl threads idtype id o children turns =
    if o.wexited || o.wstopped || o.wcontinued
    then wait_for o children turns (targets threads o idtype id children)
    else (children, fails einval)

-- The pid of wait4: below -1, -1, 0, or a positive one.
pub data Whom : Type 0 where
  group_of : ℕ → Whom
  anybody : Whom
  own_group : Whom
  child : ℕ → Whom

-- The options of wait4; `known` is that no other bit is set.
pub record Options4 : Type 0 where
  pub known : Bool
  pub nohang : Bool
  pub untraced : Bool
  pub continues : Bool

pub options_of : Options4 → Options
options_of o = record {
  wexited = true;
  wstopped = o.untraced;
  wcontinued = o.continues;
  wnohang = o.nohang;
  wnowait = false;
}

-- What wait4 ends with; `stray` is a result and a status that are read from `info`, which nothing has set.
pub data Outcome4 : Type 0 where
  fails4 : Errno → Outcome4
  stray : Outcome4
  gives : ℕ → ℕ → Outcome4
  waiting4 : Outcome4

-- W_EXITCODE, __W_STOPCODE and __W_CONTINUED come from the C library's headers.
module _ (exit_code : ℕ → ℕ → ℕ) (stop_code : ℕ → ℕ) (w_continued : ℕ) where
  pub status_of : WaitCode → ℕ → ℕ
  status_of exited status = exit_code status 0
  status_of killed status = exit_code 0 status
  status_of stopped status = stop_code status
  status_of continued status = w_continued
  status_of no_code status = 0

  pub conclude4 : List Child × Outcome → List Child × Outcome4
  conclude4 (cs, fails e) = (cs, fails4 e)
  conclude4 (cs, unsupported) = (cs, stray)
  conclude4 (cs, nobody) = (cs, gives 0 0)
  conclude4 (cs, reports i) =
      (cs, gives i.si_pid (if i.si_pid == 0 then 0 else status_of i.si_code i.si_status))
  conclude4 (cs, waiting) = (cs, waiting4)

  pub wait4_on : (ℕ → Option ℕ) → ℕ → Whom → Options → List Child → List Turn → List Child × Outcome
  wait4_on threads own (group_of n) o children turns = waitid_impl threads p_pgid n o children turns
  wait4_on threads own anybody o children turns = waitid_impl threads p_all 0 o children turns
  wait4_on threads own own_group o children turns = waitid_impl threads p_pgid own o children turns
  wait4_on threads own (child n) o children turns = waitid_impl threads p_pid n o children turns

  -- `own` is the pid of the leader of the caller's group.
  pub syscall_wait4 :
      (ℕ → Option ℕ) → ℕ → Whom → Options4 → List Child → List Turn → List Child × Outcome4
  syscall_wait4 threads own whom o children turns =
      if o.known
      then conclude4 (wait4_on threads own whom (options_of o) children turns)
      else (children, fails4 einval)
