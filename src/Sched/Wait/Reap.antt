-- ===== src/Sched/Wait/Reap.antt =====
-- sched/sched.cpp: which child waitid reports, and what becomes of it.
use saba_os.Base.{
  ℕ, ◌≡◌, ◌≢◌, refl, subst, sym, ◌∙◌, ap, true, false, ◌==◌, List, [], ◌∷◌, Option, none, some,
  arith, eintr,
}
use saba_os.Sched.Wait.{
  Options4, Child, Options, Outcome, fails, nobody, reports, waiting, syscall_wait4, wait4_on,
  waitid_impl, wait_for, targets, all_targets, add_child, times, options_of, conclude4, status_of,
  gives, anybody, find_child, has_code, ready_child, info_of, Turn, interrupted, woken,
  append_found, current, report, wait_loop,
}
use saba_os.Sched.Wait.Consumed.{Becomes}

-- What the loop has done when it has reported the child `c`: it is the first with a code of those
-- that the call pushed, it is a child of the process, and only of it something becomes.
pub record Reported (o : Options) (pushed children : List Child) (c : Child)
    (r : List Child × Outcome) : Type 0 where
  pub first : ready_child (current children pushed) ≡ some c
  pub found : find_child c.pid children ≡ some c
  pub code : has_code c.wait_code ≡ true
  pub answer :
      r.1
      ≡ reports (record {
        si_pid = c.pid;
        si_uid = c.rid;
        si_status = c.wait_status;
        si_code = c.wait_code;
      })
  pub others : (q : ℕ) → q ≢ c.pid → find_child q r.0 ≡ find_child q children
  pub becomes : Becomes o children c r.0

-- Every way in which the loop ends.
pub data Waits (o : Options) (pushed : List Child)
    : List Child → List Turn → List Child × Outcome → Type 0 where
  reported :
      {children : List Child} {turns : List Turn} {r : List Child × Outcome} (c : Child)
      → Reported o pushed children c r
      → Waits o pushed children turns r
  at_once :
      {children : List Child} {turns : List Turn}
      → ready_child (current children pushed) ≡ none
      → o.wnohang ≡ true
      → Waits o pushed children turns (children, nobody)
  ended :
      {children : List Child} {turns : List Turn}
      → ready_child (current children pushed) ≡ none
      → o.wnohang ≡ false
      → Waits o pushed children (interrupted ∷ turns) (children, fails eintr)
  waits :
      {children : List Child}
      → ready_child (current children pushed) ≡ none
      → o.wnohang ≡ false
      → Waits o pushed children [] (children, waiting)
  later :
      {children : List Child} {f : List Child → List Child} {turns : List Turn}
      {r : List Child × Outcome}
      → ready_child (current children pushed) ≡ none
      → o.wnohang ≡ false
      → Waits o pushed (f children) turns r
      → Waits o pushed children (woken f ∷ turns) r

-- The options 0 of wait4.
abbrev pub plain : Options4
plain = record { known = true; nohang = false; untraced = false; continues = false }

only_ready :
    (c : Child) → has_code c.wait_code ≡ true → ready_child (current (c ∷ []) (c ∷ [])) ≡ some c
unfolding ready_child current append_found find_child
only_ready c h =
    let self : (c.pid == c.pid) ≡ true = ground arith in
    let found : find_child c.pid (c ∷ []) ≡ some c = simp self refl in
    ap (λ o. ready_child (append_found o [])) found ∙ simp h refl

one_round :
    (o : Options) (c : Child) (turns : List Turn)
    → has_code c.wait_code ≡ true
    → (wait_loop o (c ∷ []) (c ∷ []) turns).1 ≡ reports (info_of c)
unfolding wait_loop report
one_round o c [] h = simp (only_ready c h) refl
one_round o c (interrupted ∷ turns) h = simp (only_ready c h) refl
one_round o c (woken f ∷ turns) h = simp (only_ready c h) refl

module _ (exit_code : ℕ → ℕ → ℕ) (stop_code : ℕ → ℕ) (w_continued : ℕ) where
  reported4 :
      (c : Child) (r : List Child × Outcome)
      → c.pid ≢ 0
      → r.1 ≡ reports (info_of c)
      → (conclude4 exit_code stop_code w_continued r).1
        ≡ gives c.pid (status_of exit_code stop_code w_continued c.wait_code c.wait_status)
  unfolding conclude4 info_of
  reported4 c (cs, out) ne e =
      let some_pid : (c.pid == 0) ≡ false = ground (arith, ne) in
      subst
        (λ x.
          (conclude4 exit_code stop_code w_continued (cs, x)).1
          ≡ gives c.pid (status_of exit_code stop_code w_continued c.wait_code c.wait_status))
        (sym e) (simp some_pid refl)

  -- wait4 with the options 0, by a process with one child, of a pid that is not 0, reports the child as soon
  -- as it has a code, also where the code says that it has stopped or continued.
  pub wait4_reports_any :
      (own : ℕ) (threads : ℕ → Option ℕ) (c : Child) (turns : List Turn)
      → has_code c.wait_code ≡ true
      → c.pid ≢ 0
      → (syscall_wait4 exit_code stop_code w_continued threads own anybody plain (c ∷ []) turns).1
        ≡ gives c.pid (status_of exit_code stop_code w_continued c.wait_code c.wait_status)
  unfolding syscall_wait4 wait4_on waitid_impl wait_for targets all_targets add_child times
      options_of
  wait4_reports_any own threads c turns h ne =
      reported4 c _ ne (one_round (options_of plain) c turns h)
