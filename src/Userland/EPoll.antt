-- ===== src/Userland/EPoll.antt =====
-- userland/epoll.hpp and userland/epoll.cpp: epoll. A file description is known by its address, and so is
-- an event. A `u32` of poll events is the function from bit numbers to bits.
pub mod Slots
pub mod Agree
pub mod Valid
pub mod Changes
pub mod Control
pub mod Reports
pub mod Scan
pub mod Calls
mod Tests
use saba_os.Base.{
  ℕ, zero, suc, ◌+◌, ◌-◌, Bool, true, false, ◌&&◌, ◌||◌, not, if◌then◌else◌, ltb, leb, ◌==◌, List,
  [], ◌∷◌, ◌++◌, length, get_or, set, drop, Option, none, some, Ret, ok, err, ebadf, einval, eintr,
  eexist, enoent,
}
use saba_os.Klib.Hash.{hash, hash_combine}
use saba_os.Klib.HashTable.{HashTable, lookup, emplace, remove, make}
use saba_os.Klib.TimeSpec.{TimeSpec, is_zero}
use saba_os.Fs.Table.{Table, get_file_description}

abbrev pub PollEvents : Type 0
PollEvents = ℕ → Bool

-- `epoll_event`
pub record UserEvent : Type 0 where
  pub events : PollEvents
  pub user_data : ℕ

pub record RegisteredEvent : Type 0 where
  pub description : Option ℕ
  pub old_revents : PollEvents
  pub user_events : UserEvent

abbrev pub no_events : PollEvents
no_events i = false

abbrev pub unregistered : RegisteredEvent
unregistered = record {
  description = none;
  old_revents = no_events;
  user_events = record { events = no_events; user_data = 0 };
}

pub record EPoll : Type 0 where
  pub key_to_events_index : HashTable ℕ
  pub events : List RegisteredEvent
  pub wait_events : List (Option ℕ)
  pub first_free_event : ℕ

abbrev pub new_epoll : EPoll
new_epoll = record {
  key_to_events_index = make 16;
  events = [];
  wait_events = none ∷ [];
  first_free_event = 0;
}

abbrev pub is_registered : RegisteredEvent → Bool
is_registered r = elim r.description [ none ↦ false | some _ ↦ true ]

-- The loop of `allocate_events_index`, from the index `i` of the list's head on.
pub find_free_event : ℕ → List RegisteredEvent → Option ℕ
find_free_event i [] = none
find_free_event i (r ∷ rs) =
    let rest = find_free_event (i + 1) rs in if is_registered r then rest else some i

pub after_scan : EPoll → Option ℕ → ℕ × EPoll
after_scan e (some i) = (i, record e { first_free_event = i + 1 })
after_scan e none = (
  length e.events,
  record e {
    first_free_event = length e.events;
    events = e.events ++ (unregistered ∷ []);
    wait_events = e.wait_events ++ (none ∷ []);
  },
)

pub allocate_events_index : EPoll → ℕ × EPoll
allocate_events_index e =
    after_scan e (find_free_event e.first_free_event (drop e.first_free_event e.events))

pub calculate_key : ℕ → ℕ → ℕ
calculate_key fd description = hash_combine (hash fd) (hash description)

abbrev pub ctl_add : ℕ
ctl_add = 1

abbrev pub ctl_del : ℕ
ctl_del = 2

abbrev pub ctl_mod : ℕ
ctl_mod = 3

-- The cases of the switch of `epoll_ctl`, by what the key is found to be. `event` is the vnode's event.
pub add_event : ℕ → ℕ → Option ℕ → UserEvent → EPoll → Option ℕ → EPoll × Ret
add_event key target event user e (some index) = (e, err eexist)
add_event key target event user e none =
    let (index, grown) = allocate_events_index e in
    (
      record grown {
        events =
            set grown.events index
              (record { description = some target; old_revents = no_events; user_events = user });
        wait_events = set grown.wait_events (index + 1) event;
        key_to_events_index = emplace hash key index grown.key_to_events_index;
      },
      ok 0,
    )

pub mod_event : UserEvent → EPoll → Option ℕ → EPoll × Ret
mod_event user e none = (e, err enoent)
mod_event user e (some index) = (
  record e {
    events =
        set e.events index (record (get_or e.events index unregistered) { user_events = user });
  },
  ok 0,
)

pub del_event : ℕ → EPoll → Option ℕ → EPoll × Ret
del_event key e none = (e, err enoent)
del_event key e (some index) = (
  record e {
    events = set e.events index unregistered;
    wait_events = set e.wait_events (index + 1) none;
    key_to_events_index = remove hash key e.key_to_events_index;
    first_free_event = if ltb index e.first_free_event then index else e.first_free_event;
  },
  ok 0,
)

pub control : ℕ → ℕ → ℕ → Option ℕ → UserEvent → EPoll → EPoll × Ret
control op key target event user e =
    let found = lookup hash e.key_to_events_index key in
    if op == ctl_add
    then add_event key target event user e found
    else if op == ctl_mod
    then mod_event user e found
    else if op == ctl_del
    then del_event key e found
    else (e, err einval)

-- `syscall_epoll_ctl`: `epolls` gives the epoll node behind a description, if its vnode is one, and `event`
-- the event of the vnode behind a description. Comes back with the node that is changed, and the result.
pub syscall_epoll_ctl :
    Table → (ℕ → Option EPoll) → (ℕ → Option ℕ) → ℕ → ℕ → ℕ → UserEvent → Option EPoll × Ret
syscall_epoll_ctl files epolls event epfd op fd user = elim (get_file_description files epfd) [
  | none ↦ (none, err ebadf)
  | some d ↦ elim (epolls d) [
    | none ↦ (none, err einval)
    | some e ↦ elim (get_file_description files fd) [
      | none ↦ (none, err ebadf)
      | some target ↦
          let (e', ret) = control op (calculate_key fd target) target (event target) user e in
          (some e', ret)
    ]
  ]
]

-- What the poll of a node says, of a description and the events asked for, while the scan runs.
abbrev pub Poll : Type 0
Poll = ℕ → PollEvents → PollEvents

-- An `epoll_event` that is stored for the caller.
pub record Report : Type 0 where
  pub revents : PollEvents
  pub user_data : ℕ

-- `if (revents)`: the answer of a node is an isize, of which the 32 bits of the events are modelled.
pub any_event : ℕ → PollEvents → Bool
any_event zero s = false
any_event (suc n) s = s n || any_event n s

-- What a turn of the scan makes of an element: the element with its new `old_revents`, and the events to
-- report. An element without a description is passed over. EPOLLET is the bit 31.
pub poll_element : Poll → RegisteredEvent → Option ℕ → RegisteredEvent × PollEvents
poll_element poll r none = (r, no_events)
poll_element poll r (some d) =
    let new_revents = poll d r.user_events.events in
    (
      record r { old_revents = new_revents },
      (if r.user_events.events 31
          then (λ i. new_revents i && not (r.old_revents i))
          else new_revents),
    )

abbrev pub poll_event : Poll → RegisteredEvent → RegisteredEvent × PollEvents
poll_event poll r = poll_element poll r r.description

-- The scan of `epoll_pwait2_impl`: the elements as it leaves them, and what it stores for the caller.
pub scan : Poll → ℕ → ℕ → List RegisteredEvent → List RegisteredEvent × List Report
scan poll maxevents num_ready [] = ([], [])
scan poll maxevents num_ready (r ∷ rs) =
    let (r', revents) = poll_event poll r in
    let ready = any_event 32 revents in
    let report : Report = record { revents = revents; user_data = r.user_events.user_data } in
    let (rs', reports) = scan poll maxevents (if ready then num_ready + 1 else num_ready) rs in
    if ready && leb maxevents (num_ready + 1)
    then (r' ∷ rs, report ∷ [])
    else (r' ∷ rs', (if ready then report ∷ reports else reports))

-- What happens between two scans: the wait is cut off by a signal or not, other threads change the
-- registrations, the timer fires or not, and the nodes are as the new poll says.
pub record Turn : Type 0 where
  pub interrupted : Bool
  pub others : EPoll → EPoll
  pub fired : Bool
  pub next_poll : Poll

pub data Outcome : Type 0 where
  returned : EPoll → Ret → List Report → Outcome
  waiting : EPoll → Outcome

-- One scan; `rest` is what waiting comes to, from the node after the scan on.
pub round : Poll → ℕ → Bool → EPoll → (EPoll → Outcome) → Outcome
round poll maxevents block e rest =
    let (events, reports) = scan poll maxevents 0 e.events in
    let scanned = record e { events = events } in
    if ltb 0 (length reports)
    then returned scanned (ok (length reports)) reports
    else if not block
    then returned scanned (ok 0) []
    else rest scanned

pub after_wait : Turn → (EPoll → Outcome) → EPoll → Outcome
after_wait t again e =
    if t.interrupted
    then returned (t.others e) (err eintr) []
    else if t.fired
    then returned (t.others e) (ok 0) []
    else again (t.others e)

-- The loop, for as many waits as there are turns.
pub pwait_loop : Poll → ℕ → Bool → List Turn → EPoll → Outcome
pwait_loop poll maxevents block [] e = round poll maxevents block e waiting
pwait_loop poll maxevents block (t ∷ ts) e =
    round poll maxevents block e (after_wait t (pwait_loop t.next_poll maxevents block ts))

-- `wait_events[0]`
abbrev pub with_timer : Option ℕ → EPoll → EPoll
with_timer timer e = record e { wait_events = set e.wait_events 0 timer }

-- `epoll_pwait2_impl` from the node on. A `maxevents` of 0 stands for one that is not positive, `timer` is
-- the event of the timer on the stack, and `pending` says that a mask is given under which a signal is
-- pending. The saving of the old mask is not modelled.
pub epoll_pwait2_impl : ℕ → Option TimeSpec → ℕ → Bool → Poll → List Turn → EPoll → Outcome
epoll_pwait2_impl maxevents timeout timer pending poll turns e =
    if maxevents == 0
    then returned e (err einval) []
    else if pending
    then returned e (err eintr) []
    else elim timeout [
      | none ↦ pwait_loop poll maxevents true turns (with_timer none e)
      | some t ↦
          if is_zero t
          then pwait_loop poll maxevents false turns (with_timer none e)
          else pwait_loop poll maxevents true turns (with_timer (some timer) e)
    ]
