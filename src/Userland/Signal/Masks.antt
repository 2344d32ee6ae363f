-- ===== src/Userland/Signal/Masks.antt =====
-- Which signal a thread takes.
use saba_os.Base.{
  ℕ, zero, suc, ◌+◌, ◌-◌, ◌≡◌, ◌≢◌, ◌<◌, ◌≤◌, refl, subst, Bool, true, false, ◌&&◌, ◌||◌, not,
  Bool-cases, inl, inr, ◌==◌, Option, none, some, eq_or_ne, arith,
}
use saba_os.Sched.Thread.{Thread, SigSet, accepted}
use saba_os.Userland.Signal.{
  lowest_bit, take_signal, taken_signal, sig_block, change_mask, syscall_rt_sigprocmask,
}

-- What the search of `n` bits from `i` on finds.
data Lowest (s : SigSet) (i n : ℕ) : Option ℕ → Type 0 where
  clear : ((j : ℕ) → i ≤ j → j < i + n → s j ≡ false) → Lowest s i n none
  lowest :
      (j : ℕ)
      → i ≤ j
      → j < i + n
      → s j ≡ true
      → ((k : ℕ) → i ≤ k → k < j → s k ≡ false)
      → Lowest s i n (some (j + 1))

lowest_bit-Lowest : (n i : ℕ) (s : SigSet) → Lowest s i n (lowest_bit n i s)
unfolding lowest_bit
lowest_bit-Lowest zero i s = clear (λ j l u. absurd (omega (arith, l, u)))
lowest_bit-Lowest (suc n) i s = elim (Bool-cases (s i)) [
  | inl set ↦
      rw set (lowest i (omega arith) (omega arith) set (λ k l u. absurd (omega (arith, l, u))))
  | inr unset ↦ rw unset (later unset (lowest_bit-Lowest n (i + 1) s))
]
  where
    later : s i ≡ false → {o : Option ℕ} → Lowest s (i + 1) n o → Lowest s i (suc n) o
    later unset (clear f) = clear (λ j l u. elim (eq_or_ne j i) [
      | inl same ↦ rw same unset
      | inr ne ↦ f j (omega (arith, l, ne)) (omega (arith, u))
    ])
    later unset (lowest j l u set f) =
        lowest j (omega (arith, l)) (omega (arith, u)) set (λ k l' u'. elim (eq_or_ne k i) [
          | inl same ↦ rw same unset
          | inr ne ↦ f k (omega (arith, l', ne)) u'
        ])

-- What the first part of `dispatch_pending_signal` comes to.
pub data Taking (t : Thread) : Thread × Option ℕ → Type 0 where
  idle :
      (t' : Thread)
      → ((j : ℕ) → j < 64 → accepted t j ≡ false)
      → ((j : ℕ) → t'.pending_signals j ≡ t.pending_signals j)
      → Taking t (t', none)
  takes :
      (t' : Thread) (j : ℕ)
      → j < 64
      → accepted t j ≡ true
      → ((k : ℕ) → k < j → accepted t k ≡ false)
      → t'.pending_signals j ≡ false
      → ((k : ℕ) → k ≢ j → t'.pending_signals k ≡ t.pending_signals k)
      → Taking t (t', some (j + 1))

cleared : (b c : Bool) → c ≡ true → (b && not c) ≡ false
cleared b c h = ground (arith, h)

kept : (b c : Bool) → c ≡ false → (b && not c) ≡ b
kept b c h = ground (arith, h)

-- The dispatch takes the lowest signal that is pending and not masked, clears exactly its pending bit,
-- and takes none only when none of the 64 is pending and not masked; then all pending bits stay.
pub take_signal_lem : (t : Thread) → Taking t (take_signal t)
unfolding take_signal taken_signal
take_signal_lem t = chosen (lowest_bit-Lowest 64 0 (accepted t))
  where
    chosen :
        {o : Option ℕ}
        → Lowest (accepted t) 0 64 o
        → Taking t
            (taken_signal (record t { enqueued_by_signal = none; entering_signal = false }) o)
    chosen (clear f) = idle _ (λ j u. f j (omega arith) (omega (arith, u))) (λ j. refl)
    chosen (lowest j l u set f) =
        takes _ j (omega (arith, u)) set (λ k u'. f k (omega arith) u')
          (let e : j + 1 - 1 ≡ j = omega arith in
            let self : (j == j) ≡ true = ground arith in cleared _ _ (rw (e, self) refl))
          (λ k ne.
            let e : j + 1 - 1 ≡ j = omega arith in
            let other : (k == j) ≡ false = grind (arith, ne) in kept _ _ (rw (e, other) refl))

-- A signal that SIG_BLOCK adds to a thread's mask is not taken, whichever signal it is: SIGKILL and
-- SIGSTOP are no exceptions.
pub blocked_stays :
    (t : Thread) (set : SigSet) (j : ℕ)
    → set j ≡ true
    → let mask = (syscall_rt_sigprocmask sig_block (some set) t.signal_mask).0 in
      (take_signal (record t { signal_mask = mask })).1 ≢ some (j + 1)
unfolding syscall_rt_sigprocmask change_mask
blocked_stays t set j blocks = never (take_signal_lem _)
  where
    mask : SigSet
    mask i = t.signal_mask i || set i

    never :
        {r : Thread × Option ℕ} → Taking (record t { signal_mask = mask }) r → r.1 ≢ some (j + 1)
    never (idle t' f g) e = ground (arith, e)
    never (takes t' k u ok f g h) e =
        let same : k ≡ j = ground (arith, e) in
        let masked : mask j ≡ true = or_true (t.signal_mask j) (set j) blocks in
        ground (
          arith,
          refuses (t.pending_signals j) (mask j) masked
              (subst (λ i. accepted (record t { signal_mask = mask }) i ≡ true) same ok),
        )
      where
        or_true : (a b : Bool) → b ≡ true → (a || b) ≡ true
        or_true a b h = ground (arith, h)

        refuses : (a b : Bool) → b ≡ true → (a && not b) ≡ true → ⊥
        refuses a b h h' = ground (arith, h, h')
