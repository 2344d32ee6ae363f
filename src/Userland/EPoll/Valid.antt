-- ===== src/Userland/EPoll/Valid.antt =====
-- userland/epoll.cpp: when the node is well formed, the registration of a key, and elements that are set.
use saba_os.Base.{
  ℕ, ◌+◌, ◌≡◌, ◌≢◌, ◌<◌, ◌≤◌, refl, sym, ◌∙◌, ap, inl, inr, true, false, Bool-cases, length, set,
  get_or, Option, none, some, if◌then◌else◌, ltb, ◌==◌, ltb→lt, arith, get_or_past,
}
use saba_os.Klib.Hash.{hash}
use saba_os.Klib.HashTable.{lookup}
use saba_os.Klib.HashTable.Lookup.{OneEach}
use saba_os.Userland.EPoll.{EPoll, RegisteredEvent, unregistered, is_registered}
use saba_os.Userland.EPoll.Slots.{slot, listened, get_or-set}
use saba_os.Userland.EPoll.Agree.{Agrees}

-- The index that the table holds for a key.
abbrev pub index_of : EPoll → ℕ → Option ℕ
index_of e key = lookup hash e.key_to_events_index key

-- No key stands twice in the table, the table, the elements and the listeners agree, and all elements below
-- `first_free_event` are in use.
pub record IsValid (event : ℕ → Option ℕ) (e : EPoll) : Type 0 where
  pub one_each : OneEach hash e.key_to_events_index
  pub waits : length e.wait_events ≡ length e.events + 1
  pub first : e.first_free_event ≤ length e.events
  pub below : (j : ℕ) → j < e.first_free_event → is_registered (slot e j) ≡ true
  pub agrees : Agrees event (index_of e) (slot e) (listened e)

abbrev pub element_at : (ℕ → RegisteredEvent) → Option ℕ → Option RegisteredEvent
element_at f none = none
element_at f (some i) = some (f i)

-- The registration of a key.
abbrev pub registration : EPoll → ℕ → Option RegisteredEvent
registration e key = element_at (slot e) (index_of e key)

-- A map with one key set.
abbrev pub put :
    ℕ → Option RegisteredEvent → (ℕ → Option RegisteredEvent) → ℕ → Option RegisteredEvent
put key r m k = if key == k then r else m k

pub distinct_flags : true ≡ false → ⊥
distinct_flags e = cc

pub registered-in_range :
    (e : EPoll) (i : ℕ) → is_registered (slot e i) ≡ true → i < length e.events
registered-in_range e i used = elim (Bool-cases (ltb i (length e.events))) [
  | inl lt ↦ ltb→lt i _ lt
  | inr ge ↦ absurd (
      distinct_flags
        (sym used ∙ ap is_registered (get_or_past e.events i unregistered (ground (arith, ge)))))
]

pub slot-set :
    (e : EPoll) (i : ℕ) (r : RegisteredEvent)
    → i < length e.events
    → (j : ℕ) → get_or (set e.events i r) j unregistered ≡ (if i == j then r else slot e j)
slot-set e i r lt j = get_or-set e.events i r j unregistered lt

pub listened-set :
    (e : EPoll) (i : ℕ) (w : Option ℕ)
    → i + 1 < length e.wait_events
    → (j : ℕ)
    → get_or (set e.wait_events (i + 1) w) (j + 1) none ≡ (if i == j then w else listened e j)
listened-set e i w lt j =
    get_or-set e.wait_events (i + 1) w (j + 1) none lt
    ∙ ap (λ b. if b then w else listened e j) (ground arith)

pub if_self : {A : Type 0} (i : ℕ) (a b : A) → (if i == i then a else b) ≡ a
if_self i a b = ground arith

-- What the elements read through the table are after an index and its element are set.
pub element-set :
    (f g : ℕ → RegisteredEvent) (key i : ℕ) (r : RegisteredEvent) (o o' : Option ℕ) (k : ℕ)
    → ((j : ℕ) → g j ≡ (if i == j then r else f j))
    → (o' ≡ (if key == k then some i else o))
    → ((j : ℕ) → key ≢ k → o ≡ some j → i ≢ j)
    → element_at g o' ≡ (if key == k then some r else element_at f o)
element-set f g key i r o o' k fg oo apart = elim (Bool-cases (key == k)) [
  | inl at ↦ rw at (
      ap (element_at g) (oo ∙ ap (λ b. if b then some i else o) at)
      ∙ ap some (fg i ∙ if_self i r (f i)))
  | inr ne ↦ rw ne (
      ap (element_at g) (oo ∙ ap (λ b. if b then some i else o) ne)
      ∙ others o (λ j. apart j (ground (arith, ne))))
]
  where
    others : (o : Option ℕ) → ((j : ℕ) → o ≡ some j → i ≢ j) → element_at g o ≡ element_at f o
    others none h = refl
    others (some j) h =
        ap some
          (fg j ∙ ap (λ b. if b then r else f j) {x = i == j} {y = false} (grind (arith, h j refl)))
