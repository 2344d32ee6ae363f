-- ===== src/Userland/EPoll/Scan.antt =====
-- userland/epoll.cpp: how the wait of `epoll_pwait2_impl` ends.
use saba_os.Base.{
  ℕ, zero, suc, ◌-◌, ◌≡◌, ◌<◌, ltb→lt, refl, sym, ◌∙◌, ap, subst, inl, inr, Bool, true, false,
  Bool-cases, List, [], ◌∷◌, length, take, ltb, ok, err, eintr, arith,
}
use saba_os.Userland.EPoll.{
  EPoll, Poll, scan, Turn, Outcome, returned, waiting, round, after_wait, pwait_loop,
}
use saba_os.Userland.EPoll.Reports.{reports_of, scanned, scan-reports, scan-scanned}

-- The first `maxevents` reports, and their number.
pub reporting : Poll → ℕ → EPoll → Outcome
reporting poll maxevents e =
    let found = take maxevents (reports_of poll e.events) in
    returned (scanned poll maxevents e) (ok (length found)) found

-- The ways in which the wait ends. Each scan but the last finds nothing to report.
pub data Ends (maxevents : ℕ) (block : Bool) : Poll → List Turn → EPoll → Outcome → Type 0 where
  reports :
      (poll : Poll) (ts : List Turn) (e : EPoll) (o : Outcome)
      → 0 < length (reports_of poll e.events)
      → o ≡ reporting poll maxevents e
      → Ends maxevents block poll ts e o
  nothing :
      (poll : Poll) (ts : List Turn) (e : EPoll) (o : Outcome)
      → reports_of poll e.events ≡ []
      → block ≡ false
      → o ≡ returned (scanned poll maxevents e) (ok 0) []
      → Ends maxevents block poll ts e o
  interrupted :
      (poll : Poll) (t : Turn) (ts : List Turn) (e : EPoll) (o : Outcome)
      → reports_of poll e.events ≡ []
      → block ≡ true
      → t.interrupted ≡ true
      → o ≡ returned (t.others (scanned poll maxevents e)) (err eintr) []
      → Ends maxevents block poll (t ∷ ts) e o
  expired :
      (poll : Poll) (t : Turn) (ts : List Turn) (e : EPoll) (o : Outcome)
      → reports_of poll e.events ≡ []
      → block ≡ true
      → t.interrupted ≡ false
      → t.fired ≡ true
      → o ≡ returned (t.others (scanned poll maxevents e)) (ok 0) []
      → Ends maxevents block poll (t ∷ ts) e o
  goes_on :
      (poll : Poll) (t : Turn) (ts : List Turn) (e : EPoll) (o : Outcome)
      → reports_of poll e.events ≡ []
      → block ≡ true
      → t.interrupted ≡ false
      → t.fired ≡ false
      → Ends maxevents block t.next_poll ts (t.others (scanned poll maxevents e)) o
      → Ends maxevents block poll (t ∷ ts) e o
  waits :
      (poll : Poll) (e : EPoll) (o : Outcome)
      → reports_of poll e.events ≡ []
      → block ≡ true
      → o ≡ waiting (scanned poll maxevents e)
      → Ends maxevents block poll [] e o

-- One scan of the loop, and what is then left.
data Rounds (poll : Poll) (maxevents : ℕ) (block : Bool) (e : EPoll) (rest : EPoll → Outcome)
    : Type 0 where
  found :
      0 < length (reports_of poll e.events)
      → round poll maxevents block e rest ≡ reporting poll maxevents e
      → Rounds poll maxevents block e rest
  polled :
      reports_of poll e.events ≡ []
      → block ≡ false
      → round poll maxevents block e rest ≡ returned (scanned poll maxevents e) (ok 0) []
      → Rounds poll maxevents block e rest
  rests :
      reports_of poll e.events ≡ []
      → block ≡ true
      → round poll maxevents block e rest ≡ rest (scanned poll maxevents e)
      → Rounds poll maxevents block e rest

length-take_pos :
    {A : Type 0} (n : ℕ) (xs : List A) → 0 < n → ltb 0 (length (take n xs)) ≡ ltb 0 (length xs)
length-take_pos zero xs lt = absurd (omega arith)
length-take_pos (suc n) [] lt = refl
length-take_pos (suc n) (x ∷ xs) lt = ground arith

empty : {A : Type 0} (xs : List A) → ltb 0 (length xs) ≡ false → xs ≡ []
empty [] h = refl
empty (x ∷ xs) h = absurd (ground (arith, h))

round-Rounds :
    (poll : Poll) (maxevents : ℕ) (block : Bool) (e : EPoll) (rest : EPoll → Outcome)
    → 0 < maxevents
    → Rounds poll maxevents block e rest
unfolding round reporting
round-Rounds poll m block e rest pos =
    let now = scan-scanned poll m e pos in
    let same : (scan poll m 0 e.events).1 ≡ take m (reports_of poll e.events) =
      scan-reports poll m 0 e.events pos
      ∙ ap (λ k. take k (reports_of poll e.events)) {x = m - 0} {y = m} (omega arith) in
    let length_same : length (scan poll m 0 e.events).1
        ≡ length (take m (reports_of poll e.events)) =
      ap length same in
    let some_left = ap (ltb 0) length_same ∙ length-take_pos m (reports_of poll e.events) pos in
    elim (Bool-cases (ltb 0 (length (reports_of poll e.events)))) [
      | inl many ↦ found (ltb→lt 0 _ many) (
          simp (some_left ∙ many) (
            ap (λ x. returned x (ok (length (scan poll m 0 e.events).1)) (scan poll m 0 e.events).1)
              now
            ∙ ap (λ l. returned (scanned poll m e) (ok (length l)) l) same))
      | inr few ↦ elim (Bool-cases block) [
        | inl b ↦ rests (empty _ few) b (simp (some_left ∙ few, b) (ap rest now))
        | inr b ↦
            polled (empty _ few) b (simp (some_left ∙ few, b) (ap (λ x. returned x (ok 0) []) now))
      ]
    ]

-- With a positive `maxevents`, the wait ends in one of these ways. As soon as a scan finds an element that has
-- one of its 32 bits to report, which is a bit that its description answers to the events that it asks for and,
-- with EPOLLET, that the last scan has not seen, the wait reports the first `maxevents` of them, in order. It
-- reports nothing when it may not block, is interrupted, or its timer fires; or it still waits when its
-- turns are used up. Each scan leaves with each element what its description answered, up to the element
-- with the last report that there is room for.
pub pwait_loop-Ends :
    (poll : Poll) (maxevents : ℕ) (block : Bool) (turns : List Turn) (e : EPoll)
    → 0 < maxevents
    → Ends maxevents block poll turns e (pwait_loop poll maxevents block turns e)
unfolding pwait_loop after_wait
pwait_loop-Ends poll m block [] e pos = elim (round-Rounds poll m block e waiting pos) [
  | found many h ↦ reports poll [] e _ many h
  | polled few b h ↦ nothing poll [] e _ few b h
  | rests few b h ↦ waits poll e _ few b h
]
pwait_loop-Ends poll m block (t ∷ ts) e pos =
    elim (round-Rounds poll m block e (after_wait t (pwait_loop t.next_poll m block ts)) pos) [
      | found many h ↦ reports poll (t ∷ ts) e _ many h
      | polled few b h ↦ nothing poll (t ∷ ts) e _ few b h
      | rests few b h ↦ elim (Bool-cases t.interrupted) [
        | inl cut ↦ interrupted poll t ts e _ few b cut (h ∙ simp cut refl)
        | inr whole ↦ elim (Bool-cases t.fired) [
          | inl late ↦ expired poll t ts e _ few b whole late (h ∙ simp (whole, late) refl)
          | inr early ↦ goes_on poll t ts e _ few b whole early (
              subst (Ends m block t.next_poll ts (t.others (scanned poll m e)))
                (sym (h ∙ simp (whole, early) refl))
                (pwait_loop-Ends t.next_poll m block ts (t.others (scanned poll m e)) pos))
        ]
      ]
    ]
