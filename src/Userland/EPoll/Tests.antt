-- ===== src/Userland/EPoll/Tests.antt =====
-- A node with one description, registered with events that its poll has.
use saba_os.Base.{ℕ, ◌≡◌, true, false, ◌==◌, ◌||◌, ◌+◌, List, [], ◌∷◌, Option, some, arith}
use saba_os.Userland.EPoll.{
  EPoll, UserEvent, RegisteredEvent, Poll, Turn, new_epoll, no_events, control, calculate_key,
  ctl_add, ctl_del, pwait_loop,
}
use saba_os.Userland.EPoll.Valid.{IsValid, registration}
use saba_os.Userland.EPoll.Control.{ctl_spec, control_lem, new_epoll-IsValid}
use saba_os.Userland.EPoll.Scan.{Ends, pwait_loop-Ends}

-- POLLIN is the bit 0, and EPOLLET the bit 31.
abbrev edge_user : UserEvent
edge_user = record { events = λ i. (i == 0) || (i == 31); user_data = 9 }

abbrev vnode_event : ℕ → Option ℕ
vnode_event d = some (d + 100)

abbrev with_one : EPoll
with_one = (control ctl_add (calculate_key 4 7) 7 (vnode_event 7) edge_user new_epoll).0

control_example :
    let (e', ret) = control ctl_del (calculate_key 4 7) 7 (vnode_event 7) edge_user with_one in
    let (m, r) = ctl_spec ctl_del (calculate_key 4 7) 7 edge_user (registration with_one) in
    IsValid vnode_event e' × (ret ≡ r) × ((k : ℕ) → registration e' k ≡ m k)
control_example =
    control_lem with_one ctl_del (calculate_key 4 7) 7 edge_user
      (control_lem new_epoll ctl_add (calculate_key 4 7) 7 edge_user
        (new_epoll-IsValid vnode_event)).0

abbrev always : Poll
always d asked i = i == 0

abbrev registered : List RegisteredEvent
registered = record { description = some 7; old_revents = no_events; user_events = edge_user } ∷ []

abbrev turns : List Turn
turns = record { interrupted = false; others = λ e. e; fired = true; next_poll = always } ∷ []

abbrev node : EPoll
node = record new_epoll { events = registered }

pwait_loop_example : Ends 4 true always turns node (pwait_loop always 4 true turns node)
pwait_loop_example = pwait_loop-Ends always 4 true turns node (omega arith)
