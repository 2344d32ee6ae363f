-- ===== src/Sched/Switch/Registers.antt =====
-- sched/sched.cpp: what a switch does to the registers of the threads.
use saba_os.Base.{ℕ, suc, ◌≡◌, refl, ◌∙◌, ap, subst, true, false, some, update, update_self}
use saba_os.Sched.Switch.{Cpu, state_of, pick, save, switch_to, passes, load, scheduler_isr}

-- The thread that a switch chooses first.
abbrev pub chosen : ℕ → Cpu → ℕ
chosen idle c = pick idle c.running_thread (save c c.running_thread).machine.sched_list

module _ (idle : ℕ) (work : ℕ → Cpu → Cpu) (c : Cpu) where
  isr_goes :
      (fuel : ℕ)
      → passes (state_of (work (chosen idle c) (switch_to idle c)).machine (chosen idle c)) ≡ false
      → scheduler_isr idle work (suc fuel) c
        ≡ some (load (work (chosen idle c) (switch_to idle c)) (chosen idle c))
  unfolding scheduler_isr
  isr_goes fuel h = rw h refl

  isr_retries :
      (fuel : ℕ)
      → passes (state_of (work (chosen idle c) (switch_to idle c)).machine (chosen idle c)) ≡ true
      → scheduler_isr idle work (suc fuel) c
        ≡ scheduler_isr idle work fuel (work (chosen idle c) (switch_to idle c))
  unfolding scheduler_isr
  isr_retries fuel h = rw h refl

switch_to-saved :
    (idle : ℕ) (c : Cpu) (a : ℕ)
    → c.running_thread ≡ some a
    → (switch_to idle c).saved ≡ update c.saved a c.gpr_state
unfolding switch_to save
switch_to-saved idle c a on = rw (on, save) refl

-- When the signal work stops the thread `a` that was chosen first, and the scheduler goes on to another, `b`, for which
-- the signal work does nothing to the registers of `a`, then `a` is left with the registers of the interrupted thread
-- in place of its own: the retry copies them into the thread that the processor has as its current one.
pub stop_takes_over :
    (idle : ℕ) (work : ℕ → Cpu → Cpu) (fuel : ℕ) (c : Cpu) (a b : ℕ)
    → chosen idle c ≡ a
    → let w = work a (switch_to idle c) in
      w.gpr_state ≡ c.gpr_state
      → w.running_thread ≡ some a
      → passes (state_of w.machine a) ≡ true
      → chosen idle w ≡ b
      → let d = work b (switch_to idle w) in
        d.saved a ≡ (switch_to idle w).saved a
        → passes (state_of d.machine b) ≡ false
        → (scheduler_isr idle work (suc (suc fuel)) c ≡ some (load d b))
          × ((load d b).saved a ≡ c.gpr_state)
unfolding load
stop_takes_over idle work fuel c a b to_a frame on_a stops to_b apart goes = (
  subst
        (λ x.
          passes (state_of (work x (switch_to idle c)).machine x) ≡ true
          → scheduler_isr idle work (suc (suc fuel)) c
            ≡ scheduler_isr idle work (suc fuel) (work x (switch_to idle c)))
        to_a (isr_retries idle work c (suc fuel)) stops
      ∙ subst
          (λ x.
            passes (state_of (work x (switch_to idle w)).machine x) ≡ false
            → scheduler_isr idle work (suc fuel) w ≡ some (load (work x (switch_to idle w)) x))
          to_b (isr_goes idle work w fuel) goes,
  apart
      ∙ ap (λ (s : ℕ → ℕ). s a) (switch_to-saved idle w a on_a)
      ∙ update_self w.saved a w.gpr_state
      ∙ frame,
)
  where
    w : Cpu
    w = work a (switch_to idle c)
