-- ===== src/Userland/Futex/Wait.antt =====
-- userland/futex.cpp: a wait puts the thread behind the listeners of its page, whatever word of the page it
-- waits for.
use saba_os.Base.{
  ℕ, ◌/◌, ◌%◌, ◌^◌, ◌≡◌, refl, sym, ◌∙◌, ap, subst, inl, inr, true, false, Option-cases, ◌==◌, ltb,
  if◌then◌else◌, List, [], ◌∷◌, ◌++◌, some, ok, arith,
}
use saba_os.Sched.Event.{Listener}
use saba_os.Mem.Access.{Pagemap, entry_of, is_present, get_physical_addr}
use saba_os.Userland.Futex.{
  Futexes, Sleep, sleeps, find_event, ensure_event, begin_wait, wait_at, futex_wait, futex_wake,
}
use saba_os.Userland.Futex.Wake.{listening, woken_at, futex_wake_lem}
use saba_os.Userland.Futex.Joined.{
  IsValid, Joins, joined, joined-IsValid, joined-Joins, fresh, fresh-IsValid, fresh-here,
  fresh-listening,
}

-- A thread that sleeps on a page's event has joined the listeners of the page, as the last one.
Sleeping : Futexes → ℕ → ℕ → Futexes × Sleep → Type 0
Sleeping f phy thread (f', s) =
    IsValid f'
    × ((id : ℕ) × (s ≡ sleeps id))
    × Joins f phy (record { thread = thread; which = 0 } ∷ []) f'

begin_wait-Sleeping :
    (f : Futexes) (v : IsValid f) (phy id thread : ℕ)
    → find_event f phy ≡ some id
    → Sleeping f phy thread (begin_wait thread false id f)
unfolding begin_wait Sleeping joined
begin_wait-Sleeping f v phy id thread here =
    let l : Listener = record { thread = thread; which = 0 } in
    let idle : ltb 0 (f.events id).pending ≡ false = ground (arith, v.idle id) in
    simp idle (joined-IsValid f v phy id here l, (id, refl), joined-Joins f v phy id here l)

wait_at-Sleeping :
    (f : Futexes) (v : IsValid f) (phy thread : ℕ)
    → Sleeping f phy thread (wait_at thread false f (some phy))
unfolding wait_at ensure_event Sleeping fresh Joins
wait_at-Sleeping f v phy thread = elim (Option-cases (find_event f phy)) [
  | inr (id, here) ↦ rw (here, ensure_event) (begin_wait-Sleeping f v phy id thread here)
  | inl absent ↦
      rw (absent, ensure_event)
        (let r =
            begin_wait-Sleeping (fresh f v phy absent) (fresh-IsValid f v phy absent) phy
              f.num_events thread (fresh-here f v phy absent) in
          (
            r.0,
            r.1,
            λ q.
                r.2 q
                ∙ ap
                    (λ ls.
                      if phy == q then ls ++ (record { thread = thread; which = 0 } ∷ []) else ls)
                    (fresh-listening f v phy absent q),
          ))
]

-- A wait for an expected word, at an address that is translated and with no signal pending, sleeps; the thread
-- is behind the listeners of the page that were there, and the listeners of the other pages are as before.
pub futex_wait_lem :
    (p : Pagemap) (uaddr phy word thread : ℕ) (f : Futexes)
    → IsValid f
    → get_physical_addr p uaddr ≡ some phy
    → let (f', s) = futex_wait p uaddr word word thread false f in
      IsValid f'
      × ((id : ℕ) × (s ≡ sleeps id))
      × Joins f phy (record { thread = thread; which = 0 } ∷ []) f'
unfolding futex_wait Sleeping
futex_wait_lem p uaddr phy word thread f v here =
    let self : (word == word) ≡ true = ground arith in
    simp self (
      subst (λ o. Sleeping f phy thread (wait_at thread false f o)) (sym here)
        (wait_at-Sleeping f v phy thread))

-- Addresses of one page are translated to one physical address.
one_page :
    (p : Pagemap) (u1 u2 : ℕ)
    → is_present (entry_of p u1) ≡ true
    → u1 / 2 ^ 12 % 2 ^ 36 ≡ u2 / 2 ^ 12 % 2 ^ 36
    → get_physical_addr p u2 ≡ get_physical_addr p u1
unfolding get_physical_addr
one_page p u1 u2 present same =
    let e : entry_of p u2 ≡ entry_of p u1 = ap p.page_table_entry (sym same) in rw (e, present) refl

joined_self :
    (f f' : Futexes) (phy : ℕ) (ls : List Listener)
    → Joins f phy ls f'
    → listening f' (find_event f' phy) ≡ listening f (find_event f phy) ++ ls
unfolding Joins
joined_self f f' phy ls j = let self : (phy == phy) ≡ true = ground arith in rw self at (j phy)

-- Two threads wait for words of one page that is present, and nobody else waits there: a wake of one thread at
-- the second word wakes the thread that waits for the first, and the one that waits for the second sleeps on.
pub wakes_other_word :
    (p : Pagemap) (u1 u2 word1 word2 thread1 thread2 phy : ℕ) (f : Futexes)
    → IsValid f
    → is_present (entry_of p u1) ≡ true
    → get_physical_addr p u1 ≡ some phy
    → u1 / 2 ^ 12 % 2 ^ 36 ≡ u2 / 2 ^ 12 % 2 ^ 36
    → listening f (find_event f phy) ≡ []
    → let (f1, s1) = futex_wait p u1 word1 word1 thread1 false f in
      let (f2, s2) = futex_wait p u2 word2 word2 thread2 false f1 in
      let (f3, ret, woken) = futex_wake p u2 1 f2 in
      (ret ≡ ok 1) × (woken ≡ record { thread = thread1; which = 0 } ∷ [])
unfolding woken_at
wakes_other_word p u1 u2 word1 word2 thread1 thread2 phy f v present here same alone =
    let here2 = one_page p u1 u2 present same ∙ here in
    let first = futex_wait_lem p u1 phy word1 thread1 f v here in
    let second = futex_wait_lem p u2 phy word2 thread2 _ first.0 here2 in
    reached _
      (joined_self _ _ phy _ second.2
        ∙ ap (λ ls. ls ++ (record { thread = thread2; which = 0 } ∷ []))
            (joined_self f _ phy _ first.2
              ∙ ap (λ ls. ls ++ (record { thread = thread1; which = 0 } ∷ [])) alone))
      here2
  where
    reached :
        (g : Futexes)
        → listening g (find_event g phy)
          ≡ record { thread = thread1; which = 0 } ∷ record { thread = thread2; which = 0 } ∷ []
        → get_physical_addr p u2 ≡ some phy
        → let (f3, ret, woken) = futex_wake p u2 1 g in
          (ret ≡ ok 1) × (woken ≡ record { thread = thread1; which = 0 } ∷ [])
    reached g both here2 =
        let e = futex_wake_lem p u2 1 g ∙ ap (woken_at 1 g) here2 in rw (e, both) (refl, refl)
