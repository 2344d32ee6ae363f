-- ===== src/Userland/EPoll/Changes.antt =====
-- userland/epoll.cpp: what the three changes of `epoll_ctl` make of a well-formed node and its registrations.
use saba_os.Base.{
  ℕ, ◌+◌, ◌≡◌, ◌≢◌, ◌<◌, refl, sym, ◌∙◌, ap, subst, inl, inr, true, false, Bool-cases, eq_or_ne,
  length, set, Option, none, some, if◌then◌else◌, ltb, ◌==◌, arith, length-set,
}
use saba_os.Klib.Hash.{hash}
use saba_os.Klib.HashTable.{lookup, emplace, remove}
use saba_os.Klib.HashTable.Lookup.{
  OneEach, lookup-emplace, lookup-remove, emplace-OneEach, remove-OneEach,
}
use saba_os.Userland.EPoll.{
  EPoll, RegisteredEvent, UserEvent, unregistered, no_events, is_registered,
}
use saba_os.Userland.EPoll.Slots.{slot, listened, Allocated}
use saba_os.Userland.EPoll.Agree.{add-Agrees, mod-Agrees, del-Agrees}
use saba_os.Userland.EPoll.Valid.{
  index_of, IsValid, element_at, registration, put, distinct_flags, registered-in_range, slot-set,
  listened-set, if_self, element-set,
}

module _ {event : ℕ → Option ℕ} (e : EPoll) (v : IsValid event e) where
  module _ (index : ℕ) (grown : EPoll) (a : Allocated e index grown) (key target : ℕ)
      (user : UserEvent) (absent : index_of e key ≡ none) where
    unfoldable pub new_element : RegisteredEvent
    new_element = record { description = some target; old_revents = no_events; user_events = user }

    unfoldable pub added : EPoll
    unfolding new_element
    added = record grown {
      events = set grown.events index new_element;
      wait_events = set grown.wait_events (index + 1) (event target);
      key_to_events_index = emplace hash key index grown.key_to_events_index;
    }

    added-slot : (j : ℕ) → slot added j ≡ (if index == j then new_element else slot e j)
    unfolding added
    added-slot j =
        slot-set grown index new_element a.in_range j
        ∙ ap (λ s. if index == j then new_element else s) (a.slots j)

    added-listened :
        (j : ℕ) → listened added j ≡ (if index == j then event target else listened e j)
    unfolding added
    added-listened j =
        listened-set grown index (event target) (omega (arith, a.in_range, a.waits)) j
        ∙ ap (λ s. if index == j then event target else s) (a.listeners j)

    added-index : (j : ℕ) → index_of added j ≡ (if key == j then some index else index_of e j)
    unfolding added
    added-index j =
        ap (λ t. lookup hash (emplace hash key index t) j) a.key_index
        ∙ lookup-emplace hash key index e.key_to_events_index j

    pub added-IsValid : IsValid event added
    unfolding added new_element
    added-IsValid = record {
      one_each =
          subst (λ t. OneEach hash (emplace hash key index t)) (sym a.key_index)
            (emplace-OneEach hash key index e.key_to_events_index v.one_each absent);
      waits = omega (
        arith,
        a.waits,
        length-set grown.events index new_element,
        length-set grown.wait_events (index + 1) (event target),
      );
      first = omega (arith, a.first, a.in_range, length-set grown.events index new_element);
      below = λ j lt. ap is_registered (added-slot j) ∙ elim (Bool-cases (index == j)) [
        | inl at ↦ rw at refl
        | inr ne ↦ rw ne (a.below j (ground (arith, ne, lt, a.first)))
      ];
      agrees =
          add-Agrees key index target new_element v.agrees absent a.is_free refl added-index
            added-slot added-listened;
    }

    pub added-registration :
        (k : ℕ) → registration added k ≡ put key (some new_element) (registration e) k
    added-registration k =
        element-set _ _ key index new_element (index_of e k) (index_of added k) k added-slot
          (added-index k)
          (λ j ne at same. distinct_flags (
            sym (v.agrees.in_use k j at)
            ∙ ap (λ i. is_registered (slot e i)) (sym same)
            ∙ a.is_free))

  module _ (key index : ℕ) (here : index_of e key ≡ some index) where
    in_range : index < length e.events
    in_range = registered-in_range e index (v.agrees.in_use key index here)

    -- Another key has another index.
    apart : (k j : ℕ) → key ≢ k → index_of e k ≡ some j → index ≢ j
    apart k j ne at same = ne (v.agrees.apart key k index here (at ∙ ap some (sym same)))

    module _ (user : UserEvent) where
      unfoldable pub changed_element : RegisteredEvent
      changed_element = record (slot e index) { user_events = user }

      unfoldable pub changed : EPoll
      unfolding changed_element
      changed = record e { events = set e.events index changed_element }

      changed-slot : (j : ℕ) → slot changed j ≡ (if index == j then changed_element else slot e j)
      unfolding changed
      changed-slot = slot-set e index changed_element in_range

      pub changed-IsValid : IsValid event changed
      unfolding changed changed_element
      changed-IsValid = record {
        one_each = v.one_each;
        waits = omega (arith, v.waits, length-set e.events index changed_element);
        first = omega (arith, v.first, length-set e.events index changed_element);
        below = λ j lt. ap is_registered (changed-slot j) ∙ elim (eq_or_ne index j) [
          | inl at ↦
              subst (λ x. is_registered (if index == x then changed_element else slot e x) ≡ true)
                at
                (ap is_registered (if_self index changed_element (slot e index))
                  ∙ v.agrees.in_use key index here)
          | inr ne ↦ let other : (index == j) ≡ false = grind (arith, ne) in rw other (v.below j lt)
        ];
        agrees = mod-Agrees index changed_element v.agrees refl changed-slot;
      }

      pub changed-registration :
          (k : ℕ) → registration changed k ≡ put key (some changed_element) (registration e) k
      unfolding changed
      changed-registration k =
          element-set _ _ key index changed_element (index_of e k) (index_of e k) k changed-slot
            same (apart k)
        where
          same : index_of e k ≡ (if key == k then some index else index_of e k)
          same = elim (Bool-cases (key == k)) [
            | inl at ↦
                let at' : key ≡ k = ground (arith, at) in
                rw at (subst (λ x. index_of e x ≡ some index) at' here)
            | inr ne ↦ rw ne refl
          ]

    unfoldable pub removed : EPoll
    removed = record e {
      events = set e.events index unregistered;
      wait_events = set e.wait_events (index + 1) none;
      key_to_events_index = remove hash key e.key_to_events_index;
      first_free_event = if ltb index e.first_free_event then index else e.first_free_event;
    }

    removed-slot : (j : ℕ) → slot removed j ≡ (if index == j then unregistered else slot e j)
    unfolding removed
    removed-slot = slot-set e index unregistered in_range

    removed-listened : (j : ℕ) → listened removed j ≡ (if index == j then none else listened e j)
    unfolding removed
    removed-listened = listened-set e index none (omega (arith, in_range, v.waits))

    removed-index : (j : ℕ) → index_of removed j ≡ (if key == j then none else index_of e j)
    unfolding removed
    removed-index j = lookup-remove hash key e.key_to_events_index j v.one_each

    pub removed-IsValid : IsValid event removed
    unfolding removed
    removed-IsValid = record {
      one_each = remove-OneEach hash key e.key_to_events_index v.one_each;
      waits = omega (
        arith,
        v.waits,
        length-set e.events index unregistered,
        length-set e.wait_events (index + 1) none,
      );
      first = ground (arith, v.first, length-set e.events index unregistered);
      below = λ j lt. ap is_registered (removed-slot j) ∙ elim (Bool-cases (index == j)) [
        | inl at ↦ absurd (ground (arith, at, lt))
        | inr ne ↦ rw ne (v.below j (ground (arith, ne, lt)))
      ];
      agrees = del-Agrees key index v.agrees here removed-index removed-slot removed-listened;
    }

    pub removed-registration : (k : ℕ) → registration removed k ≡ put key none (registration e) k
    removed-registration k = elim (Bool-cases (key == k)) [
      | inl at ↦ rw at (
          ap (element_at (slot removed))
            (removed-index k ∙ ap (λ b. if b then none else index_of e k) at))
      | inr ne ↦ rw ne (
          ap (element_at (slot removed))
            (removed-index k ∙ ap (λ b. if b then none else index_of e k) ne)
          ∙ others (index_of e k) (λ j. apart k j (ground (arith, ne))))
    ]
      where
        others :
            (o : Option ℕ)
            → ((j : ℕ) → o ≡ some j → index ≢ j)
            → element_at (slot removed) o ≡ element_at (slot e) o
        others none h = refl
        others (some j) h = ap some (
            removed-slot j
            ∙ ap (λ b. if b then unregistered else slot e j) {x = index == j} {y = false}
                (grind (arith, h j refl)))
