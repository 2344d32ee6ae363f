-- ===== src/Sched/Exit/Zombies.antt =====
-- sched/sched.cpp: what the end of a process does to its record and to its children's, and how threads are counted.
use saba_os.Base.{
  ℕ, ◌+◌, ◌≡◌, ◌≢◌, refl, sym, subst, ◌∙◌, ap, Bool, true, false, not, if◌then◌else◌, ◌==◌, List,
  [], ◌∷◌, ◌++◌, All, Option, none, some, bit, arith,
}
use saba_os.Sched.Thread.{State, zombie}
use saba_os.Sched.Exit.{
  Process, World, Effect, frees, triggers, signals_child, clears, update_process, set_parent,
  give_all, remove_link, mark_zombie, zombified, set_state, is_dead,
}

-- How many of the threads are alive.
unfoldable pub living : (ℕ → State) → List ℕ → ℕ
living states [] = 0
living states (t ∷ ts) = bit (not (is_dead (states t))) + living states ts

-- How often the process is told that a child of it has ended.
unfoldable pub told : ℕ → List Effect → ℕ
told p [] = 0
told p (signals_child q ∷ es) = bit (q == p) + told p es
told p (frees q ∷ es) = told p es
told p (triggers q ∷ es) = told p es
told p (clears t ∷ es) = told p es

pub told-append : (p : ℕ) (xs ys : List Effect) → told p (xs ++ ys) ≡ told p xs + told p ys
unfolding told
told-append p [] ys = omega arith
told-append p (signals_child q ∷ es) ys = omega (arith, told-append p es ys)
told-append p (frees q ∷ es) ys = told-append p es ys
told-append p (triggers q ∷ es) ys = told-append p es ys
told-append p (clears t ∷ es) ys = told-append p es ys

-- No thread stands twice in the list.
abbrev pub IsDistinct : List ℕ → Type 0
IsDistinct [] = Unit {0}
IsDistinct (t ∷ ts) = All (λ u. u ≢ t) ts × IsDistinct ts

pub living-set_state :
    (states : ℕ → State) (t : ℕ) (ts : List ℕ)
    → All (λ u. u ≢ t) ts
    → living (set_state t zombie states) ts ≡ living states ts
unfolding living set_state
living-set_state states t [] h = refl
living-set_state states t (u ∷ us) h =
    let other : (u == t) ≡ false = ground (arith, h.0) in
    rw other (omega (arith, living-set_state states t us h.1))

-- Giving children away changes no thread, no count and no mark of a process.
record Alike (w w' : World) : Type 0 where
  states : w'.states ≡ w.states
  active : w'.active_pagemap ≡ w.active_pagemap
  effects : w'.effects ≡ w.effects
  init : w'.init_process ≡ w.init_process
  count : (i : ℕ) → (w'.processes i).num_living_threads ≡ (w.processes i).num_living_threads
  mark : (i : ℕ) → (w'.processes i).is_zombie ≡ (w.processes i).is_zombie

chosen :
    {A : Type 0} (b : Bool) (field : Process → A) (f : Process → Process) (p : Process)
    → field (f p) ≡ field p
    → field (if b then f p else p) ≡ field p
chosen true field f p h = h
chosen false field f p h = refl

Alike-then : {u v w : World} → Alike u v → Alike v w → Alike u w
Alike-then a b = record {
  states = b.states ∙ a.states;
  active = b.active ∙ a.active;
  effects = b.effects ∙ a.effects;
  init = b.init ∙ a.init;
  count = λ i. b.count i ∙ a.count i;
  mark = λ i. b.mark i ∙ a.mark i;
}

update_process-Alike :
    (pid : ℕ) (f : Process → Process) (w : World)
    → ((p : Process) → (f p).num_living_threads ≡ p.num_living_threads)
    → ((p : Process) → (f p).is_zombie ≡ p.is_zombie)
    → Alike w (update_process pid f w)
unfolding update_process
update_process-Alike pid f w n z = record {
  states = refl;
  active = refl;
  effects = refl;
  init = refl;
  count = λ i. chosen _ (λ p. p.num_living_threads) f (w.processes i) (n (w.processes i));
  mark = λ i. chosen _ (λ p. p.is_zombie) f (w.processes i) (z (w.processes i));
}

set_parent-Alike : (c p : ℕ) (w : World) → Alike w (set_parent c p w)
unfolding set_parent
set_parent-Alike c p w =
    Alike-then
      (Alike-then (update_process-Alike _ _ w (λ q. refl) (λ q. refl))
        (update_process-Alike _ _ _ (λ q. refl) (λ q. refl)))
      (update_process-Alike _ _ _ (λ q. refl) (λ q. refl))

give_all-Alike : (cs : List ℕ) (p : ℕ) (w : World) → Alike w (give_all cs p w)
unfolding give_all
give_all-Alike [] p w = record {
  states = refl;
  active = refl;
  effects = refl;
  init = refl;
  count = λ i. refl;
  mark = λ i. refl;
}
give_all-Alike (c ∷ cs) p w =
    Alike-then (set_parent-Alike c p w) (give_all-Alike cs p (set_parent c p w))

set_parent-parent :
    (c p i : ℕ) (w : World)
    → c ≢ i
    → ((set_parent c p w).processes i).parent ≡ (w.processes i).parent
unfolding set_parent update_process
set_parent-parent c p i w ne =
    let other : (i == c) ≡ false = ground (arith, ne) in
    simp other (
      chosen (i == p) (λ q. q.parent)
        (λ q. record q { children_list = q.children_list ++ (c ∷ []) }) _ refl
      ∙ chosen (i == (w.processes c).parent) (λ q. q.parent)
          (λ q. record q { children_list = remove_link c q.children_list }) (w.processes i) refl)

give_all-parent :
    (cs : List ℕ) (p i : ℕ) (w : World)
    → All (λ c. c ≢ i) cs
    → ((give_all cs p w).processes i).parent ≡ (w.processes i).parent
unfolding give_all
give_all-parent [] p i w h = refl
give_all-parent (c ∷ cs) p i w h =
    give_all-parent cs p i (set_parent c p w) h.1 ∙ set_parent-parent c p i w h.0

-- The process is not a child of its own, and `p` is its parent.
unfoldable pub IsChildOf : ℕ → ℕ → World → Type 0
IsChildOf pid p w =
    ((w.processes pid).parent ≡ p) × All (λ c. c ≢ pid) (w.processes pid).children_list

-- What zombify leaves: the process is a zombie and its parent is told once more.
pub record Zombified (pid : ℕ) (w w' : World) : Type 0 where
  pub states : w'.states ≡ w.states
  pub init : w'.init_process ≡ w.init_process
  pub marked : (w'.processes pid).is_zombie ≡ true
  pub count : (w'.processes pid).num_living_threads ≡ (w.processes pid).num_living_threads
  pub active : w'.active_pagemap ≡ w.active_pagemap
  pub tells : (p : ℕ) → IsChildOf pid p w → told p w'.effects ≡ told p w.effects + 1

mark-zombie : (signal : Option ℕ) (p : Process) → (mark_zombie signal p).is_zombie ≡ true
unfolding mark_zombie
mark-zombie none p = refl
mark-zombie (some s) p = refl

mark-count :
    (signal : Option ℕ) (p : Process)
    → (mark_zombie signal p).num_living_threads ≡ p.num_living_threads
unfolding mark_zombie
mark-count none p = refl
mark-count (some s) p = refl

mark-family :
    (signal : Option ℕ) (p : Process)
    → ((mark_zombie signal p).parent ≡ p.parent)
      × ((mark_zombie signal p).children_list ≡ p.children_list)
unfolding mark_zombie
mark-family none p = (refl, refl)
mark-family (some s) p = (refl, refl)

pub zombified_lem :
    (pid : ℕ) (signal : Option ℕ) (w : World) → Zombified pid w (zombified pid signal w)
unfolding zombified told update_process IsChildOf
zombified_lem pid signal w =
    let marked = update_process pid (mark_zombie signal) w in
    let a = give_all-Alike (marked.processes pid).children_list w.init_process marked in
    let self : (pid == pid) ≡ true = ground arith in
    record {
      states = a.states;
      init = a.init;
      active = a.active;
      marked = a.mark pid ∙ simp self (mark-zombie signal (w.processes pid));
      count = a.count pid ∙ simp self (mark-count signal (w.processes pid));
      tells = λ p (parent, others).
          let given = give_all (marked.processes pid).children_list w.init_process marked in
          let as_marked : marked.processes pid ≡ mark_zombie signal (w.processes pid) =
            simp self refl in
          let family = mark-family signal (w.processes pid) in
          let children = ap (λ r. r.children_list) as_marked ∙ family.1 in
          let kept : (given.processes pid).parent ≡ p =
            give_all-parent (marked.processes pid).children_list w.init_process pid marked
              (subst (All (λ c. c ≢ pid)) (sym children) others)
            ∙ ap (λ r. r.parent) as_marked
            ∙ family.0
            ∙ parent in
          let hit : ((given.processes pid).parent == p) ≡ true = ground (arith, kept) in
          told-append p given.effects
            (frees pid ∷ triggers pid ∷ signals_child (given.processes pid).parent ∷ [])
          ∙ rw hit (ap (λ es. told p es + 1) a.effects);
    }
