-- ===== src/Userland/EPoll/Slots.antt =====
-- userland/epoll.cpp: what `allocate_events_index` gives, and the registrations as the table sees them.
use saba_os.Base.{
  ℕ, zero, suc, ◌+◌, ◌≡◌, ◌<◌, ◌≤◌, refl, sym, ◌∙◌, ap, subst, inl, inr, true, false, Bool-cases,
  eq_or_ne, List, [], ◌∷◌, ◌++◌, length, get_or, set, drop, Option, none, some, if◌then◌else◌, ◌==◌,
  ◌-◌, ltb, ltb→lt, arith, length-append, get_or-set_self, get_or-set_ne, get_or_past,
}
use saba_os.Userland.EPoll.{
  EPoll, RegisteredEvent, unregistered, is_registered, find_free_event, after_scan,
  allocate_events_index,
}

-- `events[i]` and `wait_events[i + 1]`, with what an index out of range is taken to hold.
abbrev pub slot : EPoll → ℕ → RegisteredEvent
slot e i = get_or e.events i unregistered

abbrev pub listened : EPoll → ℕ → Option ℕ
listened e i = get_or e.wait_events (i + 1) none

pub get_or-grow :
    {A : Type 0} (xs : List A) (i : ℕ) (d : A) → get_or (xs ++ (d ∷ [])) i d ≡ get_or xs i d
get_or-grow [] zero d = refl
get_or-grow [] (suc i) d = refl
get_or-grow (x ∷ xs) zero d = refl
get_or-grow (x ∷ xs) (suc i) d = get_or-grow xs i d

pub get_or-set :
    {A : Type 0} (xs : List A) (i : ℕ) (v : A) (j : ℕ) (d : A)
    → i < length xs
    → get_or (set xs i v) j d ≡ (if i == j then v else get_or xs j d)
get_or-set xs i v j d lt = elim (eq_or_ne i j) [
  | inl e ↦
      let here : (i == j) ≡ true = ground (arith, e) in
      rw here (subst (λ k. get_or (set xs i v) k d ≡ v) e (get_or-set_self xs i v d lt))
  | inr ne ↦
      let other : (i == j) ≡ false = grind (arith, ne) in rw other (get_or-set_ne xs i j v d ne)
]

get_or-drop :
    {A : Type 0} (n : ℕ) (xs : List A) (i : ℕ) (d : A)
    → get_or (drop n xs) i d ≡ get_or xs (n + i) d
get_or-drop zero xs i d = ap (λ k. get_or xs k d) (omega arith)
get_or-drop (suc n) [] i d = refl
get_or-drop (suc n) (x ∷ xs) i d =
    let e : suc n + i ≡ suc (n + i) = omega arith in rw e (get_or-drop n xs i d)

length-drop :
    {A : Type 0} (n : ℕ) (xs : List A) → n ≤ length xs → n + length (drop n xs) ≡ length xs
length-drop zero xs le = omega arith
length-drop (suc n) [] le = absurd (omega arith)
length-drop (suc n) (x ∷ xs) le = omega (arith, length-drop n xs)

-- What the scan finds: the first element without a description, or none.
Found : ℕ → List RegisteredEvent → Option ℕ → Type 0
Found i rs none = (j : ℕ) → j < length rs → is_registered (get_or rs j unregistered) ≡ true
Found i rs (some k) =
    (n : ℕ) × (k ≡ i + n)
    × (n < length rs)
    × (is_registered (get_or rs n unregistered) ≡ false)
    × ((j : ℕ) → j < n → is_registered (get_or rs j unregistered) ≡ true)

find_free_event-Found : (i : ℕ) (rs : List RegisteredEvent) → Found i rs (find_free_event i rs)
unfolding find_free_event Found
find_free_event-Found i [] = λ j lt. absurd (omega (arith, lt))
find_free_event-Found i (r ∷ rs) = elim (Bool-cases (is_registered r)) [
  | inr free ↦ simp free (0, omega arith, omega arith, free, λ j lt. absurd (omega (arith, lt)))
  | inl used ↦
      simp used (later used (find_free_event (i + 1) rs) (find_free_event-Found (i + 1) rs))
]
  where
    first :
        (r : RegisteredEvent) (rs : List RegisteredEvent) (m : ℕ)
        → is_registered r ≡ true
        → ((j : ℕ) → j < m → is_registered (get_or rs j unregistered) ≡ true)
        → (j : ℕ) → j < suc m
        → is_registered (get_or (r ∷ rs) j unregistered) ≡ true
    first r rs m used h zero lt = used
    first r rs m used h (suc j) lt = h j (omega arith)

    later : is_registered r ≡ true → (o : Option ℕ) → Found (i + 1) rs o → Found i (r ∷ rs) o
    later used none h = first r rs (length rs) used h
    later used (some k) (n, e, lt, free, h) =
        (suc n, omega arith, omega arith, free, first r rs n used h)

-- What allocation gives: an index in range of an element without a description, with every element and
-- every listener as before.
pub record Allocated (e : EPoll) (index : ℕ) (grown : EPoll) : Type 0 where
  pub in_range : index < length grown.events
  pub is_free : is_registered (slot e index) ≡ false
  pub waits : length grown.wait_events ≡ length grown.events + 1
  pub slots : (j : ℕ) → slot grown j ≡ slot e j
  pub listeners : (j : ℕ) → listened grown j ≡ listened e j
  pub key_index : grown.key_to_events_index ≡ e.key_to_events_index
  pub first : grown.first_free_event ≤ index + 1
  pub below : (j : ℕ) → j < index → is_registered (slot e j) ≡ true

module _ (e : EPoll) (waits : length e.wait_events ≡ length e.events + 1)
    (first : e.first_free_event ≤ length e.events)
    (below : (j : ℕ) → j < e.first_free_event → is_registered (slot e j) ≡ true) where
  scanned :
      (n : ℕ)
      → ((j : ℕ)
          → j < n
          → is_registered (get_or (drop e.first_free_event e.events) j unregistered) ≡ true)
      → (j : ℕ) → j < e.first_free_event + n
      → is_registered (slot e j) ≡ true
  scanned n h j lt = elim (Bool-cases (ltb j e.first_free_event)) [
    | inl b ↦ below j (ltb→lt _ _ b)
    | inr b ↦
        let k : j ≡ e.first_free_event + (j - e.first_free_event) = ground (arith, b) in
        subst (λ i. is_registered (slot e i) ≡ true) (sym k)
          (ap is_registered (sym (get_or-drop e.first_free_event e.events _ unregistered))
            ∙ h (j - e.first_free_event) (ground (arith, b)))
  ]

  after_scan-Allocated :
      (o : Option ℕ)
      → Found e.first_free_event (drop e.first_free_event e.events) o
      → Allocated e (after_scan e o).0 (after_scan e o).1
  unfolding after_scan Found
  after_scan-Allocated none h = record {
    in_range = omega (arith, length-append e.events (unregistered ∷ []));
    is_free = ap is_registered (get_or_past e.events (length e.events) unregistered (omega arith));
    waits = omega (
      arith,
      waits,
      length-append e.events (unregistered ∷ []),
      length-append e.wait_events (none ∷ []),
    );
    slots = λ j. get_or-grow e.events j unregistered;
    listeners = λ j. get_or-grow e.wait_events (j + 1) none;
    key_index = refl;
    first = omega arith;
    below = λ j lt.
        scanned (length (drop e.first_free_event e.events)) h j
          (omega (arith, length-drop e.first_free_event e.events first, lt));
  }
  after_scan-Allocated (some i) (n, here, lt, free, h) = record {
    in_range = omega (arith, length-drop e.first_free_event e.events first);
    is_free =
        ap is_registered (
          ap (λ k. get_or e.events k unregistered) here
          ∙ sym (get_or-drop e.first_free_event e.events n unregistered))
        ∙ free;
    waits = waits;
    slots = λ j. refl;
    listeners = λ j. refl;
    key_index = refl;
    first = omega arith;
    below = λ j lt. scanned n h j (omega (arith, here, lt));
  }

  pub allocate-Allocated : Allocated e (allocate_events_index e).0 (allocate_events_index e).1
  unfolding allocate_events_index
  allocate-Allocated = after_scan-Allocated _ (find_free_event-Found _ _)
