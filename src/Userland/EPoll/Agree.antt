-- ===== src/Userland/EPoll/Agree.antt =====
-- userland/epoll.cpp: the table's indices, the elements and the listeners, seen as three functions, agree
-- after each of the changes that `epoll_ctl` makes.
use saba_os.Base.{
  ℕ, ◌≡◌, ◌≢◌, refl, sym, ◌∙◌, ap, subst, inl, inr, Bool, true, false, eq_or_ne, Option, none, some,
  if◌then◌else◌, ◌==◌, arith,
}
use saba_os.Userland.EPoll.{RegisteredEvent, unregistered, is_registered}

abbrev pub event_of : (ℕ → Option ℕ) → Option ℕ → Option ℕ
event_of event none = none
event_of event (some d) = event d

-- Each key has an element of its own that is in use, each element in use has a key, and the wait listens to
-- the event of each element's vnode. `event` gives the event of the vnode behind a description.
pub record Agrees (event : ℕ → Option ℕ) (index : ℕ → Option ℕ) (slot : ℕ → RegisteredEvent)
    (listened : ℕ → Option ℕ) : Type 0 where
  pub in_use : (key i : ℕ) → index key ≡ some i → is_registered (slot i) ≡ true
  pub apart : (j k i : ℕ) → index j ≡ some i → index k ≡ some i → j ≡ k
  pub has_key : (i : ℕ) → is_registered (slot i) ≡ true → (key : ℕ) × (index key ≡ some i)
  pub listens : (i : ℕ) → listened i ≡ event_of event (slot i).description

-- A function with its value at one place replaced.
abbrev pub Replaced {ℓ} : {A : Type ℓ} → (ℕ → A) → ℕ → A → (ℕ → A) → Type ℓ
Replaced f at v g = (j : ℕ) → g j ≡ (if at == j then v else f j)

some-inj : {i j : ℕ} → some i ≡ some j → i ≡ j
some-inj e = cc

distinct_options : {i : ℕ} → none ≡ some i → ⊥
distinct_options e = cc

distinct_flags : true ≡ false → ⊥
distinct_flags e = cc

value_inside : {A : Type 0} (f : ℕ → A) (at : ℕ) (v : A) (g : ℕ → A) → Replaced f at v g → g at ≡ v
value_inside f at v g h = let e : (at == at) ≡ true = ground arith in rw e at (h at)

value_outside :
    {A : Type 0} (f : ℕ → A) (at : ℕ) (v : A) (g : ℕ → A)
    → Replaced f at v g
    → (j : ℕ) → at ≢ j
    → g j ≡ f j
value_outside f at v g h j ne = let e : (at == j) ≡ false = grind (arith, ne) in rw e at (h j)

-- An element in use is changed, and keeps its description.
pub mod-Agrees :
    {event index : ℕ → Option ℕ} {slot slot' : ℕ → RegisteredEvent} {listened : ℕ → Option ℕ}
    (i : ℕ) (r : RegisteredEvent)
    → Agrees event index slot listened
    → r.description ≡ (slot i).description
    → Replaced slot i r slot'
    → Agrees event index slot' listened
mod-Agrees {event} {slot = slot} {slot' = slot'} i r v same new_slot = record {
  in_use = λ k j e. ap used (desc j) ∙ v.in_use k j e;
  apart = v.apart;
  has_key = λ j e. v.has_key j (sym (ap used (desc j)) ∙ e);
  listens = λ j. v.listens j ∙ ap (event_of event) (sym (desc j));
}
  where
    used : Option ℕ → Bool
    used o = elim o [ none ↦ false | some _ ↦ true ]

    desc : (j : ℕ) → (slot' j).description ≡ (slot j).description
    desc j = elim (eq_or_ne i j) [
      | inl at ↦
          subst (λ x. (slot' x).description ≡ (slot x).description) at
            (ap (λ (x : RegisteredEvent). x.description) (value_inside slot i r slot' new_slot)
              ∙ same)
      | inr ne ↦
          ap (λ (x : RegisteredEvent). x.description) (value_outside slot i r slot' new_slot j ne)
    ]

module _ {event index index' : ℕ → Option ℕ} {slot slot' : ℕ → RegisteredEvent}
    {listened listened' : ℕ → Option ℕ} where
  -- A free element is taken for a new key.
  pub add-Agrees :
      (key i d : ℕ) (r : RegisteredEvent)
      → Agrees event index slot listened
      → index key ≡ none
      → is_registered (slot i) ≡ false
      → r.description ≡ some d
      → Replaced index key (some i) index'
      → Replaced slot i r slot'
      → Replaced listened i (event d) listened'
      → Agrees event index' slot' listened'
  add-Agrees key i d r v absent free here new_index new_slot new_listened = record {
    in_use = λ k j e. elim (eq_or_ne i j) [
      | inl at ↦
          subst (λ x. is_registered (slot' x) ≡ true) at
            (ap is_registered (value_inside slot i r slot' new_slot) ∙ rw here refl)
      | inr ne ↦
          ap is_registered (value_outside slot i r slot' new_slot j ne)
          ∙ v.in_use k j (old k j e ne)
    ];
    apart = λ j k m e f. elim (eq_or_ne i m) [
      | inl at ↦
          sym (new_only j (subst (λ x. index' j ≡ some x) (sym at) e))
          ∙ new_only k (subst (λ x. index' k ≡ some x) (sym at) f)
      | inr ne ↦ v.apart j k m (old j m e ne) (old k m f ne)
    ];
    has_key = λ m used. elim (eq_or_ne i m) [
      | inl at ↦ (key, value_inside index key (some i) index' new_index ∙ ap some at)
      | inr ne ↦
          kept m (
            v.has_key m
              (ap is_registered (sym (value_outside slot i r slot' new_slot m ne)) ∙ used))
    ];
    listens = λ m. elim (eq_or_ne i m) [
      | inl at ↦
          subst (λ x. listened' x ≡ event_of event (slot' x).description) at
            (value_inside listened i (event d) listened' new_listened
              ∙ ap (event_of event) (
                  sym here
                  ∙ ap (λ (x : RegisteredEvent). x.description)
                      (sym (value_inside slot i r slot' new_slot))))
      | inr ne ↦
          value_outside listened i (event d) listened' new_listened m ne
          ∙ v.listens m
          ∙ ap (λ (x : RegisteredEvent). event_of event x.description)
              (sym (value_outside slot i r slot' new_slot m ne))
    ];
  }
    where
      old : (k j : ℕ) → index' k ≡ some j → i ≢ j → index k ≡ some j
      old k j e ne = elim (eq_or_ne key k) [
        | inl at ↦ absurd (
            ne (
              some-inj (
                sym (value_inside index key (some i) index' new_index)
                ∙ subst (λ x. index' x ≡ some j) (sym at) e)))
        | inr other ↦ sym (value_outside index key (some i) index' new_index k other) ∙ e
      ]

      new_only : (k : ℕ) → index' k ≡ some i → key ≡ k
      new_only k e = elim (eq_or_ne key k) [
        | inl at ↦ at
        | inr other ↦ absurd (
            distinct_flags (
              sym
                (v.in_use k i (sym (value_outside index key (some i) index' new_index k other) ∙ e))
              ∙ free))
      ]

      kept : (m : ℕ) → ((k : ℕ) × (index k ≡ some m)) → (k : ℕ) × (index' k ≡ some m)
      kept m (k, e) = elim (eq_or_ne key k) [
        | inl at ↦ absurd (distinct_options (sym (subst (λ x. index x ≡ none) at absent) ∙ e))
        | inr other ↦ (k, value_outside index key (some i) index' new_index k other ∙ e)
      ]

  -- The element of a key is given up, and the key with it.
  pub del-Agrees :
      (key i : ℕ)
      → Agrees event index slot listened
      → index key ≡ some i
      → Replaced index key none index'
      → Replaced slot i unregistered slot'
      → Replaced listened i none listened'
      → Agrees event index' slot' listened'
  del-Agrees key i v here new_index new_slot new_listened = record {
    in_use = λ k j e.
        ap is_registered (value_outside slot i unregistered slot' new_slot j (apart_from k j e))
        ∙ v.in_use k j (old k j e);
    apart = λ j k m e f. v.apart j k m (old j m e) (old k m f);
    has_key = λ m used. elim (eq_or_ne i m) [
      | inl at ↦ absurd (
          distinct_flags (
            sym used
            ∙ subst (λ x. is_registered (slot' x) ≡ false) at
                (ap is_registered (value_inside slot i unregistered slot' new_slot))))
      | inr ne ↦ kept m ne (
          v.has_key m
            (ap is_registered (sym (value_outside slot i unregistered slot' new_slot m ne)) ∙ used))
    ];
    listens = λ m. elim (eq_or_ne i m) [
      | inl at ↦
          subst (λ x. listened' x ≡ event_of event (slot' x).description) at
            (value_inside listened i none listened' new_listened
              ∙ ap (λ (x : RegisteredEvent). event_of event x.description)
                  (sym (value_inside slot i unregistered slot' new_slot)))
      | inr ne ↦
          value_outside listened i none listened' new_listened m ne
          ∙ v.listens m
          ∙ ap (λ (x : RegisteredEvent). event_of event x.description)
              (sym (value_outside slot i unregistered slot' new_slot m ne))
    ];
  }
    where
      not_key : (k j : ℕ) → index' k ≡ some j → key ≢ k
      not_key k j e at =
          distinct_options (
            sym (subst (λ x. index' x ≡ none) at (value_inside index key none index' new_index))
            ∙ e)

      old : (k j : ℕ) → index' k ≡ some j → index k ≡ some j
      old k j e = sym (value_outside index key none index' new_index k (not_key k j e)) ∙ e

      apart_from : (k j : ℕ) → index' k ≡ some j → i ≢ j
      apart_from k j e at =
          not_key k j e (v.apart key k i here (subst (λ x. index k ≡ some x) (sym at) (old k j e)))

      kept : (m : ℕ) → i ≢ m → ((k : ℕ) × (index k ≡ some m)) → (k : ℕ) × (index' k ≡ some m)
      kept m ne (k, e) = elim (eq_or_ne key k) [
        | inl at ↦ absurd (ne (some-inj (sym here ∙ subst (λ x. index x ≡ some m) (sym at) e)))
        | inr other ↦ (k, value_outside index key none index' new_index k other ∙ e)
      ]
