-- ===== src/Sched/Exit/Ends.antt =====
-- sched/sched.cpp: a process that is terminated has no living thread left, and becomes a zombie once.
use saba_os.Base.{
  ℕ, ◌+◌, ◌-◌, ◌≡◌, ◌≢◌, ◌≤◌, ◌⊎◌, inl, inr, refl, ◌∙◌, ap, Bool, true, false, ◌==◌, List, [], ◌∷◌,
  ◌++◌, All, Option, some, Bool-cases, arith,
}
use saba_os.Sched.Thread.{State, zombie}
use saba_os.Sched.Exit.Zombies.{
  IsChildOf, living, told, told-append, IsDistinct, living-set_state, zombified_lem,
}
use saba_os.Sched.Exit.{
  World, clears, update_process, zombified, zombify, set_state, count_out, is_dead,
  terminate_thread, and_then, terminate_all, terminate_process,
}

-- Before a thread is ended, and after.
record Ended (pid p t : ℕ) (ts : List ℕ) (w w' : World) : Type 0 where
  init : w'.init_process ≡ w.init_process
  active : w'.active_pagemap ≡ w.active_pagemap
  keeps : (living w'.states ts ≡ 0) ⊎ (IsChildOf pid p w → IsChildOf pid p w')
  dead : is_dead (w'.states t) ≡ true
  stays : (u : ℕ) → (is_dead (w.states u) ≡ false) ⊎ (is_dead (w'.states u) ≡ true)
  others : living w'.states ts ≡ living w.states ts
  count : (w'.processes pid).num_living_threads ≡ living w'.states (t ∷ ts)
  once :
      (living w.states (t ∷ ts) ≡ living w.states ts)
        × (told p w'.effects ≡ told p w.effects)
        × ((w'.processes pid).is_zombie ≡ (w.processes pid).is_zombie)
      ⊎ (living w.states (t ∷ ts) ≡ 1 + living w.states ts)
        × (living w.states ts ≡ 0)
        × (told p w'.effects ≡ told p w.effects + 1)
        × ((w'.processes pid).is_zombie ≡ true)
      ⊎ (2 ≤ living w.states (t ∷ ts))
        × (told p w'.effects ≡ told p w.effects)
        × ((w'.processes pid).is_zombie ≡ (w.processes pid).is_zombie)

dead_or_not : (b : Bool) → (b ≡ false) ⊎ (b ≡ true)
dead_or_not true = inr refl
dead_or_not false = inl refl

-- A thread is counted out.
record CountedOut (pid t : ℕ) (w w' : World) : Type 0 where
  states : w'.states ≡ set_state t zombie w.states
  effects : w'.effects ≡ w.effects
  init : w'.init_process ≡ w.init_process
  active : w'.active_pagemap ≡ w.active_pagemap
  family : (p : ℕ) → IsChildOf pid p w → IsChildOf pid p w'
  count : (w'.processes pid).num_living_threads ≡ (w.processes pid).num_living_threads - 1
  mark : (w'.processes pid).is_zombie ≡ (w.processes pid).is_zombie

count_out_lem : (pid t : ℕ) (w : World) → CountedOut pid t w (count_out pid t w)
unfolding count_out update_process IsChildOf
count_out_lem pid t w =
    let self : (pid == pid) ≡ true = ground arith in
    record {
      states = refl;
      effects = refl;
      init = refl;
      active = refl;
      family = λ p h. simp self h;
      count = simp self refl;
      mark = simp self refl;
    }

set_state-dead :
    (states : ℕ → State) (t u : ℕ)
    → (is_dead (states u) ≡ false) ⊎ (is_dead (set_state t zombie states u) ≡ true)
unfolding set_state is_dead
set_state-dead states t u = elim (Bool-cases (u == t)) [
  | inl e ↦ inr (rw e refl)
  | inr e ↦ elim (Bool-cases (is_dead (states u))) [ inl d ↦ inr (rw e d) | inr d ↦ inl d ]
]

set_state_self : (states : ℕ → State) (t : ℕ) → is_dead (set_state t zombie states t) ≡ true
unfolding set_state is_dead
set_state_self states t = let self : (t == t) ≡ true = ground arith in rw self refl

-- What counting a living thread out leaves, whatever else changes besides the threads.
out-Ended :
    (pid p t : ℕ) (ts : List ℕ) (w w' : World)
    → All (λ u. u ≢ t) ts
    → w'.states ≡ set_state t zombie w.states
    → w'.init_process ≡ w.init_process
    → w'.active_pagemap ≡ w.active_pagemap
    → ((living w.states ts ≡ 0) ⊎ (IsChildOf pid p w → IsChildOf pid p w'))
    → (w.processes pid).num_living_threads ≡ living w.states (t ∷ ts)
    → (w'.processes pid).num_living_threads ≡ (w.processes pid).num_living_threads - 1
    → is_dead (w.states t) ≡ false
    → (living w.states (t ∷ ts) ≡ 1 + living w.states ts)
        × (living w.states ts ≡ 0)
        × (told p w'.effects ≡ told p w.effects + 1)
        × ((w'.processes pid).is_zombie ≡ true)
      ⊎ (2 ≤ living w.states (t ∷ ts))
        × (told p w'.effects ≡ told p w.effects)
        × ((w'.processes pid).is_zombie ≡ (w.processes pid).is_zombie)
    → Ended pid p t ts w w'
unfolding living
out-Ended pid p t ts w w' d st init active keeps n n' alive how =
    let same = living-set_state w.states t ts d in
    let dead : is_dead (w'.states t) ≡ true = rw st (set_state_self w.states t) in
    let others : living w'.states ts ≡ living w.states ts = rw st same in
    record {
      init = init;
      active = active;
      keeps = elim keeps [ inl z ↦ inl (others ∙ z) | inr k ↦ inr k ];
      dead = dead;
      stays = λ u. rw st (set_state-dead w.states t u);
      others = others;
      count = rw (dead, others, n', n, alive) (omega arith);
      once = inr how;
    }

terminate_thread_lem :
    (pid p : ℕ) (signal : Option ℕ) (t : ℕ) (ts : List ℕ) (w : World)
    → pid ≢ w.init_process
    → w.active_pagemap ≡ pid
    → ((living w.states (t ∷ ts) ≡ 0) ⊎ IsChildOf pid p w)
    → All (λ u. u ≢ t) ts
    → (w.processes pid).num_living_threads ≡ living w.states (t ∷ ts)
    → (w' : World) × (terminate_thread pid signal t w ≡ some w') × Ended pid p t ts w w'
unfolding terminate_thread zombify living told IsChildOf
terminate_thread_lem pid p signal t ts w ne on fam d n =
    let out = count_out pid t w in
    let c = count_out_lem pid t w in
    elim (Bool-cases (is_dead (w.states t))) [
      | inl e ↦ (
        w,
        rw e refl,
        record {
          init = refl;
          active = refl;
          keeps = inr (λ h. h);
          dead = e;
          stays = λ u. dead_or_not (is_dead (w.states u));
          others = refl;
          count = n;
          once = inl (rw e (omega arith), refl, refl);
        },
      )
      | inr e ↦ elim (Bool-cases ((out.processes pid).num_living_threads == 0)) [
        | inl last ↦
            let z = zombified_lem pid signal out in
            let not_init : (pid == out.init_process) ≡ false = ground (arith, ne, c.init) in
            let child : IsChildOf pid p out = elim fam [
              | inl z ↦ absurd (ground (arith, z, e))
              | inr h ↦ c.family p h
            ] in
            (
              zombified pid signal out,
              rw (e, last, not_init) refl,
              out-Ended pid p t ts w _ d (z.states ∙ c.states) (z.init ∙ c.init)
                  (z.active ∙ c.active) (inl (ground (arith, last, c.count, n, e))) n
                  (z.count ∙ c.count) e
                  (inl (
                    ground (arith, e),
                    ground (arith, last, c.count, n, e),
                    z.tells p child ∙ ap (λ es. told p es + 1) c.effects,
                    z.marked,
                  )),
            )
        | inr more ↦ elim (Bool-cases (out.clear_child_tid t == 0)) [
          | inl nothing ↦ (
            out,
            rw (e, more, nothing) refl,
            out-Ended pid p t ts w out d c.states c.init c.active (inr (c.family p)) n c.count e
                (inr (ground (arith, more, c.count, n, e), ap (told p) c.effects, c.mark)),
          )
          | inr something ↦
              let here : (out.active_pagemap == pid) ≡ true = ground (arith, c.active, on) in
              (
                record out { effects = out.effects ++ (clears t ∷ []) },
                rw (e, more, something, here) refl,
                out-Ended pid p t ts w (record out { effects = out.effects ++ (clears t ∷ []) }) d
                    c.states c.init c.active (inr (c.family p)) n c.count e
                    (inr (
                      ground (arith, more, c.count, n, e),
                      told-append p out.effects (clears t ∷ [])
                          ∙ omega (arith, ap (told p) c.effects),
                      c.mark,
                    )),
              )
        ]
      ]
    ]

-- The rest of the threads, one after the other.
Final : ℕ → ℕ → List ℕ → World → World → Type 0
Final pid p ts w w' =
    All (λ u. is_dead (w'.states u) ≡ true) ts
    × ((u : ℕ) → (is_dead (w.states u) ≡ false) ⊎ (is_dead (w'.states u) ≡ true))
    × ((w'.processes pid).num_living_threads ≡ 0)
    × ((living w.states ts ≡ 0)
          × (told p w'.effects ≡ told p w.effects)
          × ((w'.processes pid).is_zombie ≡ (w.processes pid).is_zombie)
        ⊎ (1 ≤ living w.states ts)
          × (told p w'.effects ≡ told p w.effects + 1)
          × ((w'.processes pid).is_zombie ≡ true))

Final-step :
    (pid p t : ℕ) (ts : List ℕ) (w w1 w' : World)
    → Ended pid p t ts w w1
    → Final pid p ts w1 w'
    → Final pid p (t ∷ ts) w w'
unfolding Final living
Final-step pid p t ts w w1 w' h (dead, stays, none_left, how) = (
  (ground (arith, h.dead, stays t), dead),
  λ u. ground (arith, h.stays u, stays u),
  none_left,
  ground (arith, h.once, how, h.others),
)

Ended-count :
    (pid p t : ℕ) (ts : List ℕ) (w w1 : World)
    → Ended pid p t ts w w1
    → (w1.processes pid).num_living_threads ≡ living w1.states ts
unfolding living
Ended-count pid p t ts w w1 h = ground (arith, h.count, h.dead)

terminate_all_lem :
    (pid p : ℕ) (signal : Option ℕ) (ts : List ℕ) (w : World)
    → pid ≢ w.init_process
    → w.active_pagemap ≡ pid
    → ((living w.states ts ≡ 0) ⊎ IsChildOf pid p w)
    → IsDistinct ts
    → (w.processes pid).num_living_threads ≡ living w.states ts
    → (w' : World) × (terminate_all pid signal ts w ≡ some w') × Final pid p ts w w'
unfolding terminate_all and_then Final living
terminate_all_lem pid p signal [] w ne on fam d n =
    (w, refl, (tt, λ u. dead_or_not (is_dead (w.states u)), n, inl (refl, refl, refl)))
terminate_all_lem pid p signal (t ∷ ts) w ne on fam d n =
    let (w1, e1, h1) = terminate_thread_lem pid p signal t ts w ne on fam d.0 n in
    let fam1 : (living w1.states ts ≡ 0) ⊎ IsChildOf pid p w1 = elim h1.keeps [
      | inl z ↦ inl z
      | inr k ↦ elim fam [ inl z ↦ inl (h1.others ∙ ground (arith, z)) | inr h ↦ inr (k h) ]
    ] in
    let (w', e2, final) =
      terminate_all_lem pid p signal ts w1 (λ e. ne (e ∙ h1.init)) (h1.active ∙ on) fam1 d.1
        (Ended-count pid p t ts w w1 h1) in
    (w', rw e1 e2, Final-step pid p t ts w w1 w' h1 final)

-- Ending a process that is not init and not a child of its own, while its page map is the active one, and
-- that has a living thread, no thread twice in its list and as many living threads as it counts, does not
-- panic; afterwards each of its threads is dead, it counts no living one, it is a zombie, and the process
-- that was its parent has been told once more.
pub terminate_process_lem :
    (pid p : ℕ) (signal : Option ℕ) (w : World)
    → pid ≢ w.init_process
    → w.active_pagemap ≡ pid
    → IsChildOf pid p w
    → IsDistinct (w.processes pid).thread_list
    → (w.processes pid).num_living_threads ≡ living w.states (w.processes pid).thread_list
    → 1 ≤ (w.processes pid).num_living_threads
    → (w' : World) × (terminate_process pid signal w ≡ some w')
      × All (λ u. is_dead (w'.states u) ≡ true) (w.processes pid).thread_list
      × ((w'.processes pid).num_living_threads ≡ 0)
      × ((w'.processes pid).is_zombie ≡ true)
      × (told p w'.effects ≡ told p w.effects + 1)
unfolding terminate_process Final
terminate_process_lem pid p signal w ne on fam d n pos =
    let (w', e, (dead, _, none_left, how)) =
      terminate_all_lem pid p signal (w.processes pid).thread_list w ne on (inr fam) d n in
    (w', e, dead, none_left, ground (arith, how, n, pos), ground (arith, how, n, pos))
