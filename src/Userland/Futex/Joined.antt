-- ===== src/Userland/Futex/Joined.antt =====
-- userland/futex.cpp: the listeners of each page, after a thread has joined those of one, and after a page has got
-- its event.
use saba_os.Base.{
  ℕ, ◌+◌, ◌≡◌, ◌≢◌, ◌<◌, refl, sym, ◌∙◌, ap, subst, inl, inr, ◌⊎◌, true, false, Bool-cases, ◌==◌,
  if◌then◌else◌, List, [], ◌∷◌, ◌++◌, length, length-append, Option, none, some, update,
  update_self, update_other, eq_or_ne, arith,
}
use saba_os.Klib.Hash.{hash}
use saba_os.Klib.HashTable.{emplace}
use saba_os.Klib.HashTable.Lookup.{lookup-emplace}
use saba_os.Sched.Event.{Event, Listener, fresh_event, add_listener}
use saba_os.Userland.Futex.{Futexes, find_event}
use saba_os.Userland.Futex.Wake.{listening}

-- Events count their listeners and have nothing pending, and each page that has an event has one of its own.
pub record IsValid (f : Futexes) : Type 0 where
  pub counts : (id : ℕ) → (f.events id).num_listeners ≡ length (f.events id).listeners
  pub idle : (id : ℕ) → (f.events id).pending ≡ 0
  pub made : (q id : ℕ) → find_event f q ≡ some id → id < f.num_events
  pub apart : (q r id : ℕ) → find_event f q ≡ some id → find_event f r ≡ some id → q ≡ r

some-inj : {i j : ℕ} → some i ≡ some j → i ≡ j
some-inj e = cc

distinct_options : {i : ℕ} → none ≡ some i → ⊥
distinct_options e = cc

-- What is said of the listeners of each page after an operation.
unfoldable pub Joins : Futexes → ℕ → List Listener → Futexes → Type 0
Joins f phy ls f' =
    (q : ℕ)
    → listening f' (find_event f' q)
      ≡ (if phy == q then listening f (find_event f q) ++ ls else listening f (find_event f q))

listening_all :
    (f : Futexes) (v : IsValid f) (id : ℕ) → listening f (some id) ≡ (f.events id).listeners
unfolding listening
listening_all f v id = empty (f.events id).num_listeners (f.events id).listeners (v.counts id)
  where
    empty : (n : ℕ) (ls : List Listener) → n ≡ length ls → (if n == 0 then [] else ls) ≡ ls
    empty n [] e = ground (arith, e)
    empty n (l ∷ ls) e = let more : (n == 0) ≡ false = ground (arith, e) in rw more refl

module _ (f : Futexes) (v : IsValid f) where
  module _ (phy id : ℕ) (here : find_event f phy ≡ some id) (l : Listener) where
    unfoldable pub joined : Futexes
    joined = record f { events = update f.events id (add_listener l (f.events id)) }

    joined_event :
        (j : ℕ) → (joined.events j ≡ (if id == j then add_listener l (f.events id) else f.events j))
    unfolding joined
    joined_event j = elim (eq_or_ne id j) [
      | inl e ↦
          let at : (id == j) ≡ true = ground (arith, e) in
          rw at (
            subst
              (λ k.
                update f.events id (add_listener l (f.events id)) k ≡ add_listener l (f.events id))
              e (update_self f.events id _))
      | inr ne ↦
          let other : (id == j) ≡ false = grind (arith, ne) in
          rw other (update_other f.events id _ j (λ e. ne (sym e)))
    ]

    pub joined-IsValid : IsValid joined
    unfolding find_event add_listener joined
    joined-IsValid = record {
      counts = λ j.
          subst (λ (e : Event). e.num_listeners ≡ length e.listeners) (sym (joined_event j))
            (elim (Bool-cases (id == j)) [
              | inl e ↦
                  rw e (omega (arith, v.counts id, length-append (f.events id).listeners (l ∷ [])))
              | inr e ↦ rw e (v.counts j)
            ]);
      idle = λ j.
          subst (λ (e : Event). e.pending ≡ 0) (sym (joined_event j))
            (elim (Bool-cases (id == j)) [ inl e ↦ rw e (v.idle id) | inr e ↦ rw e (v.idle j) ]);
      made = v.made;
      apart = v.apart;
    }

    pub joined-Joins : Joins f phy (l ∷ []) joined
    unfolding Joins find_event add_listener listening joined
    joined-Joins q = elim (eq_or_ne phy q) [
      | inl e ↦
          let at : (phy == q) ≡ true = ground (arith, e) in
          rw at (
            subst
              (λ k.
                listening joined (find_event joined k) ≡ listening f (find_event f k) ++ (l ∷ []))
              e
              (ap (listening joined) here_too
                ∙ listening_all joined joined-IsValid id
                ∙ ap (λ (x : Event). x.listeners) (joined_event id ∙ if_self)
                ∙ added
                ∙ sym (
                    ap (λ o. listening f o ++ (l ∷ [])) here
                    ∙ ap (λ ls. ls ++ (l ∷ [])) (listening_all f v id))))
      | inr ne ↦
          let other : (phy == q) ≡ false = grind (arith, ne) in
          rw other (elsewhere (find_event f q) refl ne)
    ]
      where
        here_too : find_event joined phy ≡ some id
        here_too = here

        if_self :
            (if id == id then add_listener l (f.events id) else f.events id)
            ≡ add_listener l (f.events id)
        if_self = ground arith

        added : (add_listener l (f.events id)).listeners ≡ (f.events id).listeners ++ (l ∷ [])
        added = refl

        apart_from : (j : ℕ) → id ≢ j → (id == j) ≡ false
        apart_from j n = grind (arith, n)

        elsewhere :
            (o : Option ℕ) → find_event f q ≡ o → phy ≢ q → listening joined o ≡ listening f o
        elsewhere none e ne = refl
        elsewhere (some j) e ne =
            listening_all joined joined-IsValid j
            ∙ ap (λ (x : Event). x.listeners)
                (joined_event j
                  ∙ ap (λ b. if b then add_listener l (f.events id) else f.events j) {x = id == j}
                      {y = false} (apart_from j (λ i. ne (v.apart phy q j (here ∙ ap some i) e))))
            ∙ sym (listening_all f v j)

  module _ (phy : ℕ) (absent : find_event f phy ≡ none) where
    unfoldable pub fresh : Futexes
    fresh = record f {
      futex_hash_table = emplace hash phy f.num_events f.futex_hash_table;
      events = update f.events f.num_events fresh_event;
      num_events = f.num_events + 1;
    }

    fresh-find :
        (q : ℕ) → find_event fresh q ≡ (if phy == q then some f.num_events else find_event f q)
    unfolding fresh find_event
    fresh-find q = lookup-emplace hash phy f.num_events f.futex_hash_table q

    pub fresh-here : find_event fresh phy ≡ some f.num_events
    fresh-here = let self : (phy == phy) ≡ true = ground arith in fresh-find phy ∙ rw self refl

    old_event : (j : ℕ) → j < f.num_events → fresh.events j ≡ f.events j
    unfolding fresh
    old_event j lt =
        update_other f.events f.num_events fresh_event j (λ e. absurd (omega (arith, e, lt)))

    only_new : fresh.events f.num_events ≡ fresh_event
    unfolding fresh
    only_new = update_self f.events f.num_events fresh_event

    events_like :
        (P : Event → Type 0)
        → P fresh_event
        → ((j : ℕ) → P (f.events j))
        → (j : ℕ) → P (fresh.events j)
    unfolding fresh
    events_like P new old j = elim (eq_or_ne j f.num_events) [
      | inl e ↦
          subst (λ k. P (update f.events f.num_events fresh_event k)) (sym e)
            (subst P (sym (update_self f.events f.num_events fresh_event)) new)
      | inr ne ↦ subst P (sym (update_other f.events f.num_events fresh_event j ne)) (old j)
    ]

    -- The page's own index is new, and every other one is an old one.
    fresh-cases :
        (q id : ℕ)
        → find_event fresh q ≡ some id
        → ((q ≡ phy) × (id ≡ f.num_events)) ⊎ ((find_event f q ≡ some id) × (id < f.num_events))
    fresh-cases q id e = elim (eq_or_ne phy q) [
      | inl at ↦ inl (
        sym at,
        some-inj (sym e ∙ subst (λ k. find_event fresh k ≡ some f.num_events) at fresh-here),
      )
      | inr ne ↦
          let other : (phy == q) ≡ false = grind (arith, ne) in
          let before : find_event f q ≡ some id =
            sym (fresh-find q ∙ ap (λ b. if b then some f.num_events else find_event f q) other)
            ∙ e in
          inr (before, v.made q id before)
    ]

    more : fresh.num_events ≡ f.num_events + 1
    unfolding fresh
    more = refl

    pub fresh-IsValid : IsValid fresh
    fresh-IsValid = record {
      counts = events_like (λ e. e.num_listeners ≡ length e.listeners) refl v.counts;
      idle = events_like (λ e. e.pending ≡ 0) refl v.idle;
      made = λ q id e. elim (fresh-cases q id e) [
        | inl (at, new) ↦ omega (arith, new, more)
        | inr (old, lt) ↦ omega (arith, lt, more)
      ];
      apart = λ q r id e g. elim (fresh-cases q id e) [
        | inl (at, new) ↦ elim (fresh-cases r id g) [
          | inl (at', new') ↦ at ∙ sym at'
          | inr (old', lt') ↦ absurd (omega (arith, new, lt'))
        ]
        | inr (old, lt) ↦ elim (fresh-cases r id g) [
          | inl (at', new') ↦ absurd (omega (arith, new', lt))
          | inr (old', lt') ↦ v.apart q r id old old'
        ]
      ];
    }

    pub fresh-listening :
        (q : ℕ) → listening fresh (find_event fresh q) ≡ listening f (find_event f q)
    unfolding listening
    fresh-listening q = elim (eq_or_ne phy q) [
      | inl at ↦
          subst (λ k. listening fresh (find_event fresh k) ≡ listening f (find_event f k)) at
            (ap (listening fresh) fresh-here
              ∙ listening_all fresh fresh-IsValid f.num_events
              ∙ ap (λ (x : Event). x.listeners) new_event
              ∙ sym (ap (listening f) absent))
      | inr ne ↦
          let other : (phy == q) ≡ false = grind (arith, ne) in
          ap (listening fresh)
            (fresh-find q ∙ ap (λ b. if b then some f.num_events else find_event f q) other)
          ∙ kept (find_event f q) refl
    ]
      where
        new_event : fresh.events f.num_events ≡ fresh_event
        new_event = only_new

        kept : (o : Option ℕ) → find_event f q ≡ o → listening fresh o ≡ listening f o
        kept none e = refl
        kept (some j) e =
            listening_all fresh fresh-IsValid j
            ∙ ap (λ (x : Event). x.listeners) (old_event j (v.made q j e))
            ∙ sym (listening_all f v j)
