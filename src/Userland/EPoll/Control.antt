-- ===== src/Userland/EPoll/Control.antt =====
-- userland/epoll.cpp: the node of epoll is a map from keys to registrations, and `epoll_ctl` changes it as
-- its operation says.
use saba_os.Base.{
  ℕ, ◌+◌, ◌≡◌, refl, sym, inl, inr, Bool-cases, [], ◌∷◌, Option, none, some, if◌then◌else◌, Ret, ok,
  err, einval, eexist, enoent, ◌==◌, arith, get_or_past,
}
use saba_os.Klib.Hash.{hash}
use saba_os.Klib.HashTable.{lookup}
use saba_os.Klib.HashTable.Lookup.{make-OneEach, lookup-make}
use saba_os.Userland.EPoll.{
  EPoll, RegisteredEvent, UserEvent, no_events, ctl_add, ctl_mod, ctl_del, add_event, mod_event,
  del_event, control, new_epoll,
}
use saba_os.Userland.EPoll.Slots.{listened, allocate-Allocated}
use saba_os.Userland.EPoll.Valid.{index_of, IsValid, registration, put, distinct_flags}
use saba_os.Userland.EPoll.Changes.{
  new_element, added, added-IsValid, added-registration, changed_element, changed, changed-IsValid,
  changed-registration, removed, removed-IsValid, removed-registration,
}

-- The specification, on a map from keys to registrations.
pub ctl_spec :
    ℕ → ℕ → ℕ → UserEvent → (ℕ → Option RegisteredEvent) → (ℕ → Option RegisteredEvent) × Ret
ctl_spec op key target user m =
    if op == ctl_add
    then elim (m key) [
      | some r ↦ (m, err eexist)
      | none ↦ (
        put key
            (some
              (record { description = some target; old_revents = no_events; user_events = user }))
            m,
        ok 0,
      )
    ]
    else if op == ctl_mod
    then elim (m key) [
      | none ↦ (m, err enoent)
      | some r ↦ (put key (some (record r { user_events = user })) m, ok 0)
    ]
    else if op == ctl_del
    then elim (m key) [ none ↦ (m, err enoent) | some r ↦ (put key none m, ok 0) ]
    else (m, err einval)

-- The node is well formed and its registrations are the map, and the results agree.
Implements : (ℕ → Option ℕ) → EPoll × Ret → (ℕ → Option RegisteredEvent) × Ret → Type 0
Implements event (e, ret) (m, r) = IsValid event e × (ret ≡ r) × ((k : ℕ) → registration e k ≡ m k)

module _ {event : ℕ → Option ℕ} (e : EPoll) (v : IsValid event e) (key target : ℕ)
    (user : UserEvent) where
  control_add :
      (o : Option ℕ)
      → index_of e key ≡ o
      → Implements event
          (add_event key target (event target) user e o)
          (ctl_spec ctl_add key target user (registration e))
  unfolding Implements add_event ctl_spec added new_element
  control_add (some i) here = rw here (v, refl, λ k. refl)
  control_add none absent =
      let a = allocate-Allocated e v.waits v.first v.below in
      rw absent (
        added-IsValid e v _ _ a key target user absent,
        refl,
        added-registration e v _ _ a key target user absent,
      )

  control_mod :
      (o : Option ℕ)
      → index_of e key ≡ o
      → Implements event (mod_event user e o) (ctl_spec ctl_mod key target user (registration e))
  unfolding Implements mod_event ctl_spec changed changed_element
  control_mod none absent = rw absent (v, refl, λ k. refl)
  control_mod (some i) here =
      rw here (changed-IsValid e v key i here user, refl, changed-registration e v key i here user)

  control_del :
      (o : Option ℕ)
      → index_of e key ≡ o
      → Implements event (del_event key e o) (ctl_spec ctl_del key target user (registration e))
  unfolding Implements del_event ctl_spec removed
  control_del none absent = rw absent (v, refl, λ k. refl)
  control_del (some i) here =
      rw here (removed-IsValid e v key i here, refl, removed-registration e v key i here)

  control-Implements :
      (op : ℕ)
      → Implements event
          (control op key target (event target) user e)
          (ctl_spec op key target user (registration e))
  unfolding control ctl_spec Implements
  control-Implements op = elim (Bool-cases (op == ctl_add)) [
    | inl add ↦ rw add (control_add _ refl)
    | inr not_add ↦ elim (Bool-cases (op == ctl_mod)) [
      | inl modify ↦ rw (not_add, modify) (control_mod _ refl)
      | inr not_mod ↦ elim (Bool-cases (op == ctl_del)) [
        | inl del ↦ rw (not_add, not_mod, del) (control_del _ refl)
        | inr not_del ↦ rw (not_add, not_mod, not_del) (v, refl, λ k. refl)
      ]
    ]
  ]

-- On a well-formed node, `epoll_ctl` gives the result that the map from keys to registrations gives, changes
-- the registrations as the map is changed, and leaves the node well formed: the indices and the list of
-- events that the wait listens to stay right.
pub control_lem :
    {event : ℕ → Option ℕ} (e : EPoll) (op key target : ℕ) (user : UserEvent)
    → IsValid event e
    → let (e', ret) = control op key target (event target) user e in
      let (m, r) = ctl_spec op key target user (registration e) in
      IsValid event e' × (ret ≡ r) × ((k : ℕ) → registration e' k ≡ m k)
unfolding Implements
control_lem e op key target user v = control-Implements e v key target user op

pub new_epoll-IsValid : (event : ℕ → Option ℕ) → IsValid event new_epoll
new_epoll-IsValid event = record {
  one_each = make-OneEach ℕ hash 16;
  waits = omega arith;
  first = omega arith;
  below = λ j lt. absurd (omega (arith, lt));
  agrees = record {
    in_use = λ key i e. absurd (empty key i e);
    apart = λ j k i e f. absurd (empty j i e);
    has_key = λ i e. absurd (distinct_flags (sym e));
    listens = λ i. none_listened i;
  };
}
  where
    empty : (key i : ℕ) → lookup hash new_epoll.key_to_events_index key ≡ some i → ⊥
    empty key i e = cc (lookup-make ℕ hash 16 key, e)

    none_listened : (i : ℕ) → listened new_epoll i ≡ none
    none_listened i = get_or_past (none ∷ []) (i + 1) none (omega arith)
