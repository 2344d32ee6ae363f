-- ===== src/Userland/Futex/Wake.antt =====
-- userland/futex.cpp: which threads a wake reaches.
use saba_os.Base.{
  ℕ, zero, suc, ◌+◌, ◌-◌, ◌≡◌, refl, sym, ◌∙◌, ap, subst, inl, inr, true, Bool-cases, Option-cases,
  ◌==◌, leb, max, if◌then◌else◌, List, [], ◌∷◌, length, take, Option, none, some, Ret, ok, err,
  efault, update, update_self, update_other, eq_or_ne, fun_ext, arith,
}
use saba_os.Sched.Event.{Event, Listener, trigger, wake_loop}
use saba_os.Mem.Access.{Pagemap, get_physical_addr}
use saba_os.Userland.Futex.{Futexes, find_event, futex_wake, wake_at, wake_event}

-- The listeners of a physical page, where its event says that it has any.
unfoldable pub listening : Futexes → Option ℕ → List Listener
listening f none = []
listening f (some id) = if (f.events id).num_listeners == 0 then [] else (f.events id).listeners

take_none : {A : Type 0} (n : ℕ) → [] ≡ take {A = A} n []
take_none zero = refl
take_none (suc n) = refl

wake_loop-take : (m n : ℕ) (ls : List Listener) → wake_loop m n ls ≡ take (max (m - n) 1) ls
unfolding wake_loop
wake_loop-take m n [] = take_none (max (m - n) 1)
wake_loop-take m n (l ∷ ls) = elim (Bool-cases (leb m (n + 1))) [
  | inl full ↦ let one : max (m - n) 1 ≡ 1 = ground (arith, full) in rw (full, one) refl
  | inr more ↦
      let next : max (m - n) 1 ≡ suc (max (m - (n + 1)) 1) = ground (arith, more) in
      rw (more, next) (ap (λ rest. l ∷ rest) (wake_loop-take m (n + 1) ls))
]

-- A trigger that is dropped where nobody listens changes nothing, and wakes the first listeners, one at least.
pub trigger_drops :
    (max_to_wake : ℕ) (e : Event)
    → trigger true max_to_wake e
      ≡ (e, take (max max_to_wake 1) (if e.num_listeners == 0 then [] else e.listeners))
unfolding trigger
trigger_drops m e = elim (Bool-cases (e.num_listeners == 0)) [
  | inl h ↦ simp h (ap (λ (l : List Listener). (e, l)) (take_none (max m 1)))
  | inr h ↦ simp h (
      ap (λ (l : List Listener). (e, l))
        (wake_loop-take m 0 e.listeners
          ∙ ap (λ k. take (max k 1) e.listeners) {x = m - 0} {y = m} (omega arith)))
]

update_same : {A : Type 0} (f : ℕ → A) (at : ℕ) → update f at (f at) ≡ f
update_same f at = fun_ext (λ i. elim (eq_or_ne i at) [
  | inl e ↦ subst (λ k. update f at (f at) k ≡ f k) (sym e) (update_self f at (f at))
  | inr ne ↦ update_other f at (f at) i ne
])

wake_event-woken :
    (max_to_wake : ℕ) (f : Futexes) (o : Option ℕ)
    → wake_event max_to_wake f o ≡ (
      f,
      ok (length (take (max max_to_wake 1) (listening f o))),
      take (max max_to_wake 1) (listening f o),
    )
unfolding wake_event listening
wake_event-woken m f none = ap (λ (l : List Listener). (f, ok (length l), l)) (take_none (max m 1))
wake_event-woken m f (some id) =
    ap
      (λ (t : Event × List Listener).
        (record f { events = update f.events id t.0 }, ok (length t.1), t.1))
      (trigger_drops m (f.events id))
    ∙ ap
        (λ (events : ℕ → Event).
          let woken = take (max m 1) (listening f (some id)) in
          (record f { events = events }, ok (length woken), woken))
        (update_same f.events id)

-- What a wake at an address does, for a page that it is translated to.
unfoldable pub woken_at : ℕ → Futexes → Option ℕ → Futexes × Ret × List Listener
woken_at max_to_wake f none = (f, err efault, [])
woken_at max_to_wake f (some phy) =
    let woken = take (max max_to_wake 1) (listening f (find_event f phy)) in
    (f, ok (length woken), woken)

-- A wake of an address that is translated wakes the first `max_to_wake` listeners of its page, and one at
-- least, and returns their number; it changes no event, so that a second wake, before a woken thread has run
-- and taken its listener away, counts and wakes the same ones. Else it is EFAULT.
pub futex_wake_lem :
    (p : Pagemap) (uaddr max_to_wake : ℕ) (f : Futexes)
    → futex_wake p uaddr max_to_wake f ≡ woken_at max_to_wake f (get_physical_addr p uaddr)
unfolding futex_wake wake_at woken_at
futex_wake_lem p uaddr max_to_wake f = elim (Option-cases (get_physical_addr p uaddr)) [
  | inl e ↦ rw (e, wake_at, woken_at) refl
  | inr (phy, e) ↦ rw (e, wake_at, woken_at) (wake_event-woken max_to_wake f (find_event f phy))
]
