-- ===== src/Userland/Futex.antt =====
-- userland/futex.cpp: the decoding of `futex_wake_op`, the change of the second word, and the comparison.
-- Words are 32 bits wide. Then waiting and waking; `get_physical_addr` names the futex of
-- an address.
pub mod Decode
pub mod Wake
pub mod Joined
pub mod Wait
mod Tests
use Prim.Native.Nat.{bit_and, bit_or, bit_xor}
use saba_os.Base.{
  ℕ, ◌+◌, ◌-◌, ◌*◌, ◌/◌, ◌%◌, ◌^◌, Bool, true, false, not, if◌then◌else◌, ltb, leb, ◌==◌, Option,
  none, some, List, [], ◌∷◌, ◌++◌, length, Ret, ok, err, eagain, efault, eintr, einval, etimedout,
  enosys, update,
}
use saba_os.Klib.Hash.{hash}
use saba_os.Klib.HashTable.{HashTable, lookup, emplace}
use saba_os.Mem.Access.{Pagemap, get_physical_addr}
use saba_os.Sched.Event.{Event, Listener, fresh_event, trigger, add_listener, clear_listener}

pub record WakeOp : Type 0 where
  pub op : ℕ
  pub op_arg : ℕ
  pub cmp : ℕ
  pub cmp_arg : ℕ

-- The four fields, before the shift of the argument.
pub decode : ℕ → WakeOp
decode op_encoded = record {
  op = op_encoded / 2 ^ 28 % 2 ^ 4;
  op_arg = op_encoded / 2 ^ 24 % 2 ^ 4;
  cmp = op_encoded / 2 ^ 12 % 2 ^ 12;
  cmp_arg = op_encoded % 2 ^ 12;
}

-- FUTEX_OP_OPARG_SHIFT is the value 8.
pub shifted : WakeOp → WakeOp
shifted w =
    if w.op / 8 % 2 == 1 then record w { op_arg = 2 ^ w.op_arg % 2 ^ 32; op = w.op - 8 } else w

-- The new second word; none is EINVAL.
pub apply_op : WakeOp → ℕ → Option ℕ
apply_op w old =
    if w.op == 0
    then some w.op_arg
    else if w.op == 1
    then some ((old + w.op_arg) % 2 ^ 32)
    else if w.op == 2
    then some (bit_or old w.op_arg)
    else if w.op == 3
    then some (2 ^ 32 - 1 - bit_and old w.op_arg)
    else if w.op == 4
    then some (bit_xor old w.op_arg)
    else none

-- The comparison of the old word; none is EINVAL.
pub compare_old : WakeOp → ℕ → Option Bool
compare_old w old_val =
    if w.cmp == 0
    then some (old_val == w.cmp_arg)
    else if w.cmp == 1
    then some (not (old_val == w.cmp_arg))
    else if w.cmp == 2
    then some (ltb old_val w.cmp_arg)
    else if w.cmp == 3
    then some (leb old_val w.cmp_arg)
    else if w.cmp == 4
    then some (ltb w.cmp_arg old_val)
    else if w.cmp == 5
    then some (leb w.cmp_arg old_val)
    else none

-- `futex_hash_table`, with the events that it holds by number.
pub record Futexes : Type 0 where
  pub futex_hash_table : HashTable ℕ
  pub events : ℕ → Event
  pub num_events : ℕ

pub find_event : Futexes → ℕ → Option ℕ
find_event f phy = lookup hash f.futex_hash_table phy

-- `if (!futex_event) futex_event = futex_hash_table.emplace(...)`
pub ensure_event : ℕ → Futexes → Option ℕ → ℕ × Futexes
ensure_event phy f (some id) = (id, f)
ensure_event phy f none = (
  f.num_events,
  record f {
    futex_hash_table = emplace hash phy f.num_events f.futex_hash_table;
    events = update f.events f.num_events fresh_event;
    num_events = f.num_events + 1;
  },
)

-- The wait comes back at once, or the thread sleeps on an event.
pub data Sleep : Type 0 where
  comes_back : Ret → Sleep
  sleeps : ℕ → Sleep

-- `Event::wait` up to the switch to another thread. The timer that is armed has not fired yet.
pub begin_wait : ℕ → Bool → ℕ → Futexes → Futexes × Sleep
begin_wait thread has_pending_signals id f =
    let e = f.events id in
    if has_pending_signals
    then (f, comes_back (err eintr))
    else if ltb 0 e.pending
    then (
      record f { events = update f.events id (record e { pending = e.pending - 1 }) },
      comes_back (ok 0),
    )
    else (
      record f {
        events = update f.events id (add_listener (record { thread = thread; which = 0 }) e);
      },
      sleeps id,
    )

pub wait_at : ℕ → Bool → Futexes → Option ℕ → Futexes × Sleep
wait_at thread has_pending_signals f none = (f, comes_back (err efault))
wait_at thread has_pending_signals f (some phy) =
    let (id, f') = ensure_event phy f (find_event f phy) in
    begin_wait thread has_pending_signals id f'

-- `futex_wait` up to the switch; `word` is what is loaded from `uaddr`.
pub futex_wait : Pagemap → ℕ → ℕ → ℕ → ℕ → Bool → Futexes → Futexes × Sleep
futex_wait p uaddr word expected thread has_pending_signals f =
    if word == expected
    then wait_at thread has_pending_signals f (get_physical_addr p uaddr)
    else (f, comes_back (err eagain))

-- The rest of `futex_wait`, once the thread runs again.
pub end_wait : ℕ → Bool → ℕ → ℕ → Futexes → Futexes × Ret
end_wait thread by_signal which_event id f = (
  record f { events = update f.events id (clear_listener thread (f.events id)) },
  (if by_signal then err eintr else if which_event == 1 then err etimedout else ok which_event),
)

-- The listeners that a wake puts on the run queue come with it.
pub wake_event : ℕ → Futexes → Option ℕ → Futexes × Ret × List Listener
wake_event max_to_wake f none = (f, ok 0, [])
wake_event max_to_wake f (some id) =
    let (e, woken) = trigger true max_to_wake (f.events id) in
    (record f { events = update f.events id e }, ok (length woken), woken)

pub wake_at : ℕ → Futexes → Option ℕ → Futexes × Ret × List Listener
wake_at max_to_wake f none = (f, err efault, [])
wake_at max_to_wake f (some phy) = wake_event max_to_wake f (find_event f phy)

pub futex_wake : Pagemap → ℕ → ℕ → Futexes → Futexes × Ret × List Listener
futex_wake p uaddr max_to_wake f = wake_at max_to_wake f (get_physical_addr p uaddr)

-- The second wake of `futex_wake_op`, for a first one that returned `ret1` and a comparison.
pub second_wake :
    Pagemap → ℕ → ℕ → Option Bool → Futexes → Ret → List Listener → Futexes × Ret × List Listener
second_wake p uaddr2 max_to_wake2 cmp_result f (err e) woken = (f, err e, woken)
second_wake p uaddr2 max_to_wake2 none f (ok n) woken = (f, err einval, woken)
second_wake p uaddr2 max_to_wake2 (some false) f (ok n) woken = (f, ok n, woken)
second_wake p uaddr2 max_to_wake2 (some true) f (ok n) woken =
    let (f', ret, more) = futex_wake p uaddr2 max_to_wake2 f in
    (f', elim ret [ err e ↦ err e | ok m ↦ ok (n + m) ], woken ++ more)

-- `futex_wake_op`, on the word `old` at `uaddr2`; the new word comes first.
pub futex_wake_op : Pagemap → ℕ → ℕ → ℕ → ℕ → ℕ → ℕ → Futexes → ℕ × Futexes × Ret × List Listener
futex_wake_op p uaddr1 max_to_wake1 uaddr2 max_to_wake2 op_encoded old f =
    let w = shifted (decode op_encoded) in
    elim (apply_op w old) [
      | none ↦ (old, f, err einval, [])
      | some new ↦
          let (f', ret1, woken) = futex_wake p uaddr1 max_to_wake1 f in
          let (f'', ret, all_woken) =
            second_wake p uaddr2 max_to_wake2 (compare_old w old) f' ret1 woken in
          (new, f'', ret, all_woken)
    ]

-- FUTEX_BITSET_MATCH_ANY
abbrev pub match_any : ℕ
match_any = 0xffffffff

pub futex_wake_bitset : Pagemap → ℕ → ℕ → ℕ → Futexes → Futexes × Ret × List Listener
futex_wake_bitset p uaddr max_to_wake mask f =
    if mask == match_any then futex_wake p uaddr max_to_wake f else (f, err enosys, [])
