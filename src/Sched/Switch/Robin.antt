-- ===== src/Sched/Switch/Robin.antt =====
-- sched/sched.cpp: the order in which the scheduler comes to the threads of the run queue.
use saba_os.Base.{
  ℕ, zero, suc, ◌+◌, ◌≡◌, refl, sym, ◌∙◌, ap, subst, inl, inr, true, Bool-cases, ◌==◌, List, [],
  ◌∷◌, ◌++◌, length, All, Option, none, some, occurrences, occurrences_self, occurrences-append,
  arith,
}
use mathlib.Core.List.{append_assoc}
use saba_os.Sched.Switch.{first, successor, head_or_idle, or_else, pick}

-- The threads of the next switches, while the run queue stays as it is.
pub picks : ℕ → ℕ → Option ℕ → List ℕ → List ℕ
picks idle zero current queue = []
picks idle (suc n) current queue =
    let next = pick idle current queue in next ∷ picks idle n (some next) queue

successor-append :
    (x : ℕ) (front behind : List ℕ)
    → occurrences x front ≡ 0
    → successor x (front ++ (x ∷ behind)) ≡ first behind
unfolding successor occurrences
successor-append x [] behind h = let self : (x == x) ≡ true = ground arith in rw self refl
successor-append x (y ∷ front) behind h = elim (Bool-cases (y == x)) [
  | inl e ↦ absurd (omega (arith, rw e at h))
  | inr e ↦ simp e (successor-append x front behind (omega (arith, rw e at h)))
]

module _ (idle : ℕ) (queue : List ℕ) where
  next_of :
      (front behind : List ℕ) (x : ℕ)
      → queue ≡ front ++ (x ∷ behind)
      → occurrences x queue ≡ 1
      → successor x queue ≡ first behind
  next_of front behind x split once =
      ap (successor x) split
      ∙ successor-append x front behind (
          omega (
            arith,
            once,
            ap (occurrences x) split,
            occurrences-append x front (x ∷ behind),
            occurrences_self x behind,
          ))

  -- From one thread of the queue on, those behind it come in order, and then the queue from its head on.
  picks_behind :
      (front behind : List ℕ) (x m : ℕ)
      → queue ≡ front ++ (x ∷ behind)
      → All (λ y. occurrences y queue ≡ 1) (x ∷ behind)
      → picks idle (length behind + m) (some x) queue ≡ behind ++ picks idle m none queue
  unfolding picks pick
  picks_behind front [] x m split (once, more) =
      subst (λ k. picks idle k (some x) queue ≡ picks idle m none queue) {x = m} {y = 0 + m}
        (omega arith) (wraps m)
    where
      wraps : (m : ℕ) → picks idle m (some x) queue ≡ picks idle m none queue
      wraps zero = refl
      wraps (suc m) =
          ap
            (λ o.
              or_else o (head_or_idle idle queue)
              ∷ picks idle m (some (or_else o (head_or_idle idle queue))) queue)
            (next_of front [] x split once)
  picks_behind front (y ∷ behind) x m split (once, more) =
      subst (λ k. picks idle k (some x) queue ≡ y ∷ (behind ++ picks idle m none queue))
        {x = suc (length behind + m)} {y = suc (length behind) + m} (omega arith)
        (ap
            (λ o.
              or_else o (head_or_idle idle queue)
              ∷ picks idle (length behind + m) (some (or_else o (head_or_idle idle queue))) queue)
            (next_of front (y ∷ behind) x split once)
          ∙ ap (λ l. y ∷ l)
              (picks_behind (front ++ (x ∷ [])) behind y m
                (split ∙ sym (append_assoc front (x ∷ []) (y ∷ behind))) more))

-- When each thread stands in the run queue once, and the queue stays as it is, the scheduler comes to all of them in
-- the order of the queue, and then begins again at its head: no thread is left out, and none comes twice before
-- all others have come.
pub picks_round :
    (idle x : ℕ) (xs : List ℕ) (m : ℕ)
    → All (λ y. occurrences y (x ∷ xs) ≡ 1) (x ∷ xs)
    → picks idle (suc (length xs) + m) none (x ∷ xs) ≡ (x ∷ xs) ++ picks idle m none (x ∷ xs)
unfolding picks pick head_or_idle
picks_round idle x xs m each =
    subst (λ k. picks idle k none (x ∷ xs) ≡ x ∷ (xs ++ picks idle m none (x ∷ xs)))
      {x = suc (length xs + m)} {y = suc (length xs) + m} (omega arith)
      (ap (λ l. x ∷ l) (picks_behind idle (x ∷ xs) [] xs x m refl each))
