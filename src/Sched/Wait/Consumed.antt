-- ===== src/Sched/Wait/Consumed.antt =====
-- sched/sched.cpp: what waitid leaves of the children when it has reported one.
use saba_os.Base.{
  ℕ, ◌≡◌, ◌≢◌, ◌⊎◌, inl, inr, refl, ◌∙◌, ap, true, false, ◌==◌, List, [], ◌∷◌, Option, none, some,
  Bool-cases, arith,
}
use saba_os.Sched.Wait.{Child, Options, find_child, remove_child, clear_code, no_code, consume}

-- What becomes of a child that is reported: with WNOWAIT nothing, else a zombie is gone and another child
-- is left without its code.
pub Becomes : Options → List Child → Child → List Child → Type 0
Becomes o children c left =
    ((o.wnowait ≡ true) × (left ≡ children))
    ⊎ ((o.wnowait ≡ false) × (c.is_zombie ≡ true) × (find_child c.pid left ≡ none))
    ⊎ ((o.wnowait ≡ false)
        × (c.is_zombie ≡ false)
        × (find_child c.pid left ≡ some (record c { wait_code = no_code })))

find-remove_other :
    (p q : ℕ) (cs : List Child) → q ≢ p → find_child q (remove_child p cs) ≡ find_child q cs
unfolding find_child remove_child
find-remove_other p q [] ne = refl
find-remove_other p q (c ∷ cs) ne = elim (Bool-cases (c.pid == p)) [
  | inl e ↦
      let other : (c.pid == q) ≡ false = ground (arith, e, ne) in
      simp (e, other) (find-remove_other p q cs ne)
  | inr e ↦ simp (e, find-remove_other p q cs ne) refl
]

find-remove : (p : ℕ) (cs : List Child) → find_child p (remove_child p cs) ≡ none
unfolding find_child remove_child
find-remove p [] = refl
find-remove p (c ∷ cs) = elim (Bool-cases (c.pid == p)) [
  | inl e ↦ simp e (find-remove p cs)
  | inr e ↦ simp e (find-remove p cs)
]

find-clear_other :
    (p q : ℕ) (cs : List Child) → q ≢ p → find_child q (clear_code p cs) ≡ find_child q cs
unfolding find_child clear_code
find-clear_other p q [] ne = refl
find-clear_other p q (c ∷ cs) ne = elim (Bool-cases (c.pid == p)) [
  | inl e ↦
      let other : (c.pid == q) ≡ false = ground (arith, e, ne) in
      simp (e, other) (find-clear_other p q cs ne)
  | inr e ↦ simp (e, find-clear_other p q cs ne) refl
]

find-clear :
    (p : ℕ) (cs : List Child) (c : Child)
    → find_child p cs ≡ some c
    → find_child p (clear_code p cs) ≡ some (record c { wait_code = no_code })
unfolding find_child clear_code
find-clear p [] c h = absurd (ground (arith, h))
find-clear p (x ∷ cs) c h = elim (Bool-cases (x.pid == p)) [
  | inl e ↦
      let first : some x ≡ some c = rw e at h in
      simp e (
        ap
          (λ o. elim o as (λ _. Option Child) [
            | none ↦ none
            | some y ↦ some (record y { wait_code = no_code })
          ])
          first)
  | inr e ↦ simp e (find-clear p cs c (rw e at h))
]

pub consume-others :
    (o : Options) (c : Child) (children : List Child) (q : ℕ)
    → q ≢ c.pid
    → find_child q (consume o c children) ≡ find_child q children
unfolding consume
consume-others o c children q ne = elim (Bool-cases o.wnowait) [
  | inl w ↦ simp w refl
  | inr w ↦ elim (Bool-cases c.is_zombie) [
    | inl z ↦ simp (w, z) (find-remove_other c.pid q children ne)
    | inr z ↦ simp (w, z) (find-clear_other c.pid q children ne)
  ]
]

pub consume-Becomes :
    (o : Options) (c : Child) (children : List Child)
    → find_child c.pid children ≡ some c
    → Becomes o children c (consume o c children)
unfolding consume Becomes
consume-Becomes o c children h = elim (Bool-cases o.wnowait) [
  | inl w ↦ inl (w, simp w refl)
  | inr w ↦ elim (Bool-cases c.is_zombie) [
    | inl z ↦ inr (inl (w, z, simp (w, z) (find-remove c.pid children)))
    | inr z ↦
        let cleared : consume o c children ≡ clear_code c.pid children = simp (w, z) refl in
        inr (inr (w, z, ap (find_child c.pid) cleared ∙ find-clear c.pid children c h))
  ]
]
