-- ===== src/Userland/EPoll/Reports.antt =====
-- userland/epoll.cpp: what one scan of `epoll_pwait2_impl` stores for the caller and leaves with the elements.
use saba_os.Base.{
  ℕ, zero, suc, ◌+◌, ◌-◌, ◌≡◌, ◌<◌, refl, sym, ◌∙◌, ap, inl, inr, Bool, true, false, Bool-cases,
  ◌&&◌, ◌||◌, not, fun_ext, Option, none, some, List, [], ◌∷◌, take, if◌then◌else◌, leb, arith,
}
use saba_os.Userland.EPoll.{
  EPoll, RegisteredEvent, Poll, PollEvents, Report, poll_element, any_event, poll_event, scan,
}

-- The bits that an element has to report: those that its description answers to the events it asks for, less,
-- with EPOLLET, those that the last scan has seen.
unfoldable pub news_of : Poll → RegisteredEvent → Option ℕ → PollEvents
news_of poll r none i = false
news_of poll r (some d) i =
    poll d r.user_events.events i && not (r.user_events.events 31 && r.old_revents i)

abbrev pub news : Poll → RegisteredEvent → PollEvents
news poll r = news_of poll r r.description

-- Whether one of the bits below `n` is set.
unfoldable pub any_below : PollEvents → ℕ → Bool
any_below s zero = false
any_below s (suc n) = any_below s n || s n

-- The reports: one for each element, in order, that has one of the 32 bits to report.
unfoldable pub reports_of : Poll → List RegisteredEvent → List Report
reports_of poll [] = []
reports_of poll (r ∷ rs) =
    let rest = reports_of poll rs in
    if any_below (news poll r) 32
    then record { revents = news poll r; user_data = r.user_events.user_data } ∷ rest
    else rest

-- An element after a scan has seen it.
unfoldable pub seen_of : Poll → RegisteredEvent → Option ℕ → RegisteredEvent
seen_of poll r none = r
seen_of poll r (some d) = record r { old_revents = poll d r.user_events.events }

abbrev pub seen : Poll → RegisteredEvent → RegisteredEvent
seen poll r = seen_of poll r r.description

-- The elements after a scan with room for `n` reports: it sees those up to the one with the last report.
unfoldable pub seen_up_to : Poll → ℕ → List RegisteredEvent → List RegisteredEvent
seen_up_to poll n [] = []
seen_up_to poll zero (r ∷ rs) = r ∷ rs
seen_up_to poll (suc n) (r ∷ rs) =
    seen poll r ∷ seen_up_to poll (if any_below (news poll r) 32 then n else suc n) rs

seen_up_to-zero : (poll : Poll) (rs : List RegisteredEvent) → seen_up_to poll 0 rs ≡ rs
unfolding seen_up_to
seen_up_to-zero poll [] = refl
seen_up_to-zero poll (r ∷ rs) = refl

any_event-below : (n : ℕ) (s : PollEvents) → any_event n s ≡ any_below s n
unfolding any_event any_below
any_event-below zero s = refl
any_event-below (suc n) s = rw (any_event-below n s) (swaps (s n) (any_below s n))
  where
    swaps : (a b : Bool) → (a || b) ≡ (b || a)
    swaps a b = ground arith

edge_bits :
    (edge : Bool) (new old : PollEvents)
    → (if edge then (λ i. new i && not (old i)) else new)
      ≡ (λ (i : ℕ). new i && not (edge && old i))
edge_bits true new old = refl
edge_bits false new old = fun_ext (λ i. all (new i))
  where
    all : (b : Bool) → b ≡ (b && not (false && false))
    all b = ground arith

poll_element_lem :
    (poll : Poll) (r : RegisteredEvent) (o : Option ℕ)
    → (((poll_element poll r o).0 ≡ seen_of poll r o)
        × ((poll_element poll r o).1 ≡ news_of poll r o))
unfolding poll_element seen_of news_of
poll_element_lem poll r none = (refl, refl)
poll_element_lem poll r (some d) = (refl, edge_bits (r.user_events.events 31) _ r.old_revents)

any_event-news :
    (poll : Poll) (r : RegisteredEvent)
    → any_event 32 (poll_event poll r).1 ≡ any_below (news poll r) 32
any_event-news poll r =
    any_event-below 32 (poll_event poll r).1
    ∙ ap (λ s. any_below s 32) (poll_element_lem poll r r.description).1

take-nil : {A : Type 0} (n : ℕ) → take {A = A} n [] ≡ []
take-nil zero = refl
take-nil (suc n) = refl

take-suc :
    {A : Type 0} (n m : ℕ) (x : A) (xs : List A) → n ≡ suc m → take n (x ∷ xs) ≡ x ∷ take m xs
take-suc n m x xs e = rw e refl

seen_suc :
    (poll : Poll) (n : ℕ) (r : RegisteredEvent) (rs : List RegisteredEvent)
    → 0 < n
    → any_below (news poll r) 32 ≡ false
    → seen_up_to poll n (r ∷ rs) ≡ seen poll r ∷ seen_up_to poll n rs
unfolding seen_up_to
seen_suc poll zero r rs lt quiet = absurd (omega (arith, lt))
seen_suc poll (suc n) r rs lt quiet = rw quiet refl

seen_last :
    (poll : Poll) (n k : ℕ) (r : RegisteredEvent) (rs : List RegisteredEvent)
    → n ≡ suc k
    → any_below (news poll r) 32 ≡ true
    → seen_up_to poll n (r ∷ rs) ≡ seen poll r ∷ seen_up_to poll k rs
unfolding seen_up_to
seen_last poll n k r rs e ready = rw (e, seen_up_to) rw ready refl

abbrev report_of : RegisteredEvent → PollEvents → Report
report_of r s = record { revents = s; user_data = r.user_events.user_data }

scan_lem :
    (poll : Poll) (m n : ℕ) (rs : List RegisteredEvent)
    → n < m
    → ((scan poll m n rs).1 ≡ take (m - n) (reports_of poll rs))
      × ((scan poll m n rs).0 ≡ seen_up_to poll (m - n) rs)
unfolding scan reports_of seen_up_to
scan_lem poll m n [] lt = (sym (take-nil (m - n)), refl)
scan_lem poll m n (r ∷ rs) lt =
    let any = any_event-news poll r in
    let (now, said) = poll_element_lem poll r r.description in
    elim (Bool-cases (any_below (news poll r) 32)) [
      | inr quiet ↦
          let (some_rest, rest) = scan_lem poll m n rs lt in
          (
            simp (any ∙ quiet, quiet) some_rest,
            simp (any ∙ quiet) (
                ap (λ x. x ∷ (scan poll m n rs).0) now
                ∙ ap (λ xs. seen poll r ∷ xs) rest
                ∙ sym (seen_suc poll (m - n) r rs (omega (arith, lt)) quiet)),
          )
      | inl ready ↦ elim (Bool-cases (leb m (n + 1))) [
        | inl full ↦ (
          simp (any ∙ ready, ready, full)
              (ap (λ s. report_of r s ∷ []) said
                ∙ sym (take-suc (m - n) 0 _ _ (ground (arith, full, lt)))),
          simp (any ∙ ready, full)
              (ap (λ x. x ∷ rs) now
                ∙ sym (
                    seen_last poll (m - n) 0 r rs (ground (arith, full, lt)) ready
                    ∙ ap (λ xs. seen poll r ∷ xs) (seen_up_to-zero poll rs))),
        )
        | inr more ↦
            let (some_rest, rest) = scan_lem poll m (n + 1) rs (ground (arith, more)) in
            (
              simp (any ∙ ready, ready, more)
                  (ap (λ s. report_of r s ∷ (scan poll m (n + 1) rs).1) said
                    ∙ ap (λ xs. report_of r (news poll r) ∷ xs) some_rest
                    ∙ sym (take-suc (m - n) (m - (n + 1)) _ _ (ground (arith, more)))),
              simp (any ∙ ready, more)
                  (ap (λ x. x ∷ (scan poll m (n + 1) rs).0) now
                    ∙ ap (λ xs. seen poll r ∷ xs) rest
                    ∙ sym (seen_last poll (m - n) (m - (n + 1)) r rs (ground (arith, more)) ready)),
            )
      ]
    ]

pub scan-reports :
    (poll : Poll) (m n : ℕ) (rs : List RegisteredEvent)
    → n < m
    → (scan poll m n rs).1 ≡ take (m - n) (reports_of poll rs)
scan-reports poll m n rs lt = (scan_lem poll m n rs lt).0

-- The node after a scan.
pub scanned : Poll → ℕ → EPoll → EPoll
scanned poll maxevents e = record e { events = seen_up_to poll maxevents e.events }

pub scan-scanned :
    (poll : Poll) (m : ℕ) (e : EPoll)
    → 0 < m
    → record e { events = (scan poll m 0 e.events).0 } ≡ scanned poll m e
unfolding scanned
scan-scanned poll m e pos =
    ap (λ es. record e { events = es })
      ((scan_lem poll m 0 e.events pos).1
        ∙ ap (λ k. seen_up_to poll k e.events) {x = m - 0} {y = m} (omega arith))
