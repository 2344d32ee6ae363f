-- ===== src/Sched/Event/Laws.antt =====
-- What a wait does to an object whose invariant the other threads keep, and how many threads a trigger
-- wakes.
use saba_os.Base.{
  ℕ, ◌+◌, ◌-◌, ◌≡◌, ◌<◌, refl, ◌⊎◌, inl, inr, Bool-cases, ltb, min, List, [], ◌∷◌, length, arith,
  take,
}
use saba_os.Sched.Event.{Event, Listener, Turn, Waited, eintr, woken, wait, wake_loop}

pub Waited-cases :
    {S : Type 0} (w : Waited S) → ((s : S) × (w ≡ eintr s)) ⊎ ((s : S) × (w ≡ woken s))
Waited-cases (eintr s) = inl (s, refl)
Waited-cases (woken s) = inr (s, refl)

abbrev pub AfterWait : {S : Type 0} → (S → Type 0) → Waited S → Type 0
AfterWait P (eintr s) = P s
AfterWait P (woken s) = P s

-- An invariant that does not look at the event, and that the others keep, holds after the wait.
pub wait_keeps :
    {S : Type 0} (P : S → Type 0) (event : S → Event) (with_event : S → Event → S)
    → ((s : S) (e : Event) → P s → P (with_event s e))
    → (t : Turn S) → ((s : S) → P s → P (t.others s))
    → (s : S) → P s
    → AfterWait P (wait event with_event t s)
unfolding wait
wait_keeps P event with_event free t keeps s h = elim (Bool-cases t.has_pending_signals) [
  | inl e ↦ rw e h
  | inr e ↦ rw e (elim (Bool-cases (ltb 0 (event s).pending)) [
    | inl f ↦ rw f (free s _ h)
    | inr f ↦ rw f (elim (Bool-cases t.by_signal) [
      | inl g ↦ rw g (free _ _ (keeps _ (free s _ h)))
      | inr g ↦ rw g (free _ _ (keeps _ (free s _ h)))
    ])
  ])
]

wake_loop-length :
    (m n : ℕ) (ls : List Listener) → n < m → length (wake_loop m n ls) ≡ min (m - n) (length ls)
unfolding wake_loop
wake_loop-length m n [] lt = omega arith
wake_loop-length m n (l ∷ ls) lt = ground (arith, wake_loop-length m (n + 1) ls)

wake_loop-prefix :
    (m n : ℕ) (ls : List Listener) → wake_loop m n ls ≡ take (length (wake_loop m n ls)) ls
unfolding wake_loop
wake_loop-prefix m n [] = refl
wake_loop-prefix m n (l ∷ ls) = ground (arith, wake_loop-prefix m (n + 1) ls)
