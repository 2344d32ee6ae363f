-- ===== src/Userland/Pipe/Blocking.antt =====
-- What a pipe does whatever other threads do while a call waits.
use saba_os.Base.{
  ℕ, ◌≡◌, ◌≢◌, ◌≤◌, ◌<◌, true, false, inl, inr, List, [], ◌∷◌, ◌++◌, Ret, ok, err, eintr, epipe,
  ewouldblock, Buffer, All, arith, cells, min, refl, subst, ◌==◌, ==_iff, Bool-cases,
}
use saba_os.Sched.Event
use saba_os.Sched.Event.{Listener, Turn, Outcome, returned, blocked, Waited}
use saba_os.Sched.Event.Laws.{AfterWait, Waited-cases, wait_keeps}
use saba_os.Klib.Ring.{is_empty, is_full, data_count, free_count}
use saba_os.Klib.Ring.Inv.{IsValid, data-add-free}
use saba_os.Klib.Ring.Refine.{contents, read_refines, write_refines}
use saba_os.Fs.Description.{FileFlags}
use saba_os.Userland.Pipe.{
  Pipe, capacity, with_event, read, write, read_ring, write_ring, read_round, write_round,
}

abbrev pub IsSound : Pipe → Type 0
IsSound p = IsValid capacity p.ring_buffer

abbrev pub stored : Pipe → List ℕ
stored p = contents capacity p.ring_buffer

-- The others keep the pipe sound in a turn.
abbrev pub Keeps : Turn Pipe → Type 0
Keeps t = (p : Pipe) → IsSound p → IsSound (t.others p)

abbrev wait_on : Turn Pipe → Pipe → Waited Pipe
wait_on = Event.wait (λ r. r.pipe_event) with_event

-- `Found ts p q`: a call that begins on `p` looks at `q` in one of its rounds.
pub data Found : List (Turn Pipe) → Pipe → Pipe → Type 0 where
  at_once : {ts : List (Turn Pipe)} {p : Pipe} → Found ts p p
  after_wait :
      {t : Turn Pipe} {ts : List (Turn Pipe)} {p p' q : Pipe}
      → wait_on t p ≡ Waited.woken p'
      → Found ts p' q
      → Found (t ∷ ts) p q

-- `Cut ts p q`: a wait of a call that begins on `p` is interrupted, and leaves `q`.
pub data Cut : List (Turn Pipe) → Pipe → Pipe → Type 0 where
  at_wait :
      {t : Turn Pipe} {ts : List (Turn Pipe)} {p q : Pipe}
      → wait_on t p ≡ Waited.eintr q
      → Cut (t ∷ ts) p q
  at_later_wait :
      {t : Turn Pipe} {ts : List (Turn Pipe)} {p p' q : Pipe}
      → wait_on t p ≡ Waited.woken p'
      → Cut ts p' q
      → Cut (t ∷ ts) p q

-- How a `read` may end: it took the oldest bytes of the pipe `q` that it looked at, it found the
-- end of the file, it would have waited, a wait was interrupted, or it waits.
pub data ReadEnds (fd : FileFlags) (buf : Buffer ℕ) (count : ℕ) (At Stop : Pipe → Type 0)
    : Outcome Pipe (Ret × Buffer ℕ) → Type 0 where
  took :
      (q q' : Pipe) (n : ℕ) (buf' : Buffer ℕ) (woke : List Listener)
      → At q
      → IsSound q
      → IsSound q'
      → 0 < data_count capacity q.ring_buffer
      → n ≡ min count (data_count capacity q.ring_buffer)
      → stored q ≡ cells buf' 0 n ++ stored q'
      → ((i : ℕ) → n ≤ i → buf' i ≡ buf i)
      → (q'.readers ≡ q.readers) × (q'.writers ≡ q.writers)
      → ReadEnds fd buf count At Stop (returned q' (ok n, buf') woke)
  end_of_file :
      (q : Pipe)
      → At q
      → IsSound q
      → data_count capacity q.ring_buffer ≡ 0
      → q.writers ≡ 0
      → ReadEnds fd buf count At Stop (returned q (ok 0, buf) [])
  would_block :
      (q : Pipe)
      → At q
      → IsSound q
      → data_count capacity q.ring_buffer ≡ 0
      → fd.nonblock ≡ true
      → ReadEnds fd buf count At Stop (returned q (err ewouldblock, buf) [])
  interrupted :
      (q : Pipe)
      → Stop q
      → IsSound q
      → fd.nonblock ≡ false
      → ReadEnds fd buf count At Stop (returned q (err eintr, buf) [])
  waits :
      (q : Pipe)
      → At q
      → IsSound q
      → data_count capacity q.ring_buffer ≡ 0
      → fd.nonblock ≡ false
      → ReadEnds fd buf count At Stop (blocked q)

round_waits : (t : Turn Pipe) (p : Pipe) → Keeps t → IsSound p → AfterWait IsSound (wait_on t p)
round_waits t p keeps v = wait_keeps IsSound (λ r. r.pipe_event) with_event (λ s e h. h) t keeps p v

module _ (fd : FileFlags) (buf : Buffer ℕ) (count : ℕ) (At Stop : Pipe → Type 0) where
  read_ring_took :
      (p : Pipe)
      → At p
      → IsSound p
      → 0 < data_count capacity p.ring_buffer
      → ReadEnds fd buf count At Stop (read_ring p buf count)
  unfolding read_ring
  read_ring_took p here v some_data =
      let (valid, front, n, rest) = read_refines v buf count in
      took p _ _ _ _ here v valid some_data n front rest (refl, refl)

  read_round_ends :
      (p : Pipe) (wait : Outcome Pipe (Ret × Buffer ℕ))
      → At p
      → IsSound p
      → (data_count capacity p.ring_buffer ≡ 0
          → fd.nonblock ≡ false
          → ReadEnds fd buf count At Stop wait)
      → ReadEnds fd buf count At Stop (read_round fd buf count p wait)
  unfolding is_empty
  read_round_ends p wait here v later = elim (Bool-cases (data_count capacity p.ring_buffer == 0)) [
    | inl empty ↦ rw empty (elim (Bool-cases (p.writers == 0)) [
      | inl none_left ↦
          rw none_left (end_of_file p here v ((==_iff _ _).0 empty) ((==_iff _ _).0 none_left))
      | inr open_ends ↦ rw open_ends (elim (Bool-cases fd.nonblock) [
        | inl nb ↦ simp nb (would_block p here v ((==_iff _ _).0 empty) nb)
        | inr bl ↦ simp bl (later ((==_iff _ _).0 empty) bl)
      ])
    ])
    | inr stocked ↦ rw stocked (read_ring_took p here v (ground arith))
  ]

  pub read_loop_ends :
      (ts : List (Turn Pipe)) (p : Pipe)
      → ((q : Pipe) → Found ts p q → At q)
      → ((q : Pipe) → Cut ts p q → Stop q)
      → All Keeps ts
      → IsSound p
      → ReadEnds fd buf count At Stop (read fd buf count ts p)
  unfolding read
  read_loop_ends [] p found cut keeps v =
      read_round_ends p (blocked p) (found p at_once) v (λ e b. waits p (found p at_once) v e b)
  read_loop_ends (t ∷ ts) p found cut keeps v = read_round_ends p _ (found p at_once) v λ e b.
      elim (Waited-cases (wait_on t p)) [
        | inl (q, w) ↦ rw w (
            interrupted q (cut q (at_wait w))
              (subst (AfterWait IsSound) w (round_waits t p keeps.0 v)) b)
        | inr (q, w) ↦ rw w (
            read_loop_ends ts q (λ r f. found r (after_wait w f)) (λ r f. cut r (at_later_wait w f))
              keeps.1 (subst (AfterWait IsSound) w (round_waits t p keeps.0 v)))
      ]

-- Whatever the other threads do between the rounds, as long as they keep the pipe sound, a `read` of a
-- sound pipe ends in one of the ways of `ReadEnds`, on a pipe that it looked at in one of its rounds,
-- and leaves a sound pipe.
pub read_ends :
    (fd : FileFlags) (buf : Buffer ℕ) (count : ℕ) (ts : List (Turn Pipe)) (p : Pipe)
    → All Keeps ts
    → IsSound p
    → ReadEnds fd buf count (Found ts p) (Cut ts p) (read fd buf count ts p)
read_ends fd buf count ts p keeps v =
    read_loop_ends fd buf count (Found ts p) (Cut ts p) ts p (λ q f. f) (λ q f. f) keeps v

-- How a `write` may end: the pipe `q` that it found took the first bytes, no reader was left, it would
-- have waited, it was interrupted, or it waits.
pub data WriteEnds (fd : FileFlags) (buf : Buffer ℕ) (count : ℕ) (At Stop : Pipe → Type 0)
    : Outcome Pipe Ret → Type 0 where
  gave :
      (q q' : Pipe) (n : ℕ) (woke : List Listener)
      → At q
      → IsSound q
      → IsSound q'
      → q.readers ≢ 0
      → 0 < free_count capacity q.ring_buffer
      → n ≡ min count (free_count capacity q.ring_buffer)
      → stored q' ≡ stored q ++ cells buf 0 n
      → (q'.readers ≡ q.readers) × (q'.writers ≡ q.writers)
      → WriteEnds fd buf count At Stop (returned q' (ok n) woke)
  broken :
      (q : Pipe)
      → At q
      → IsSound q
      → q.readers ≡ 0
      → WriteEnds fd buf count At Stop (returned q (err epipe) [])
  full :
      (q : Pipe)
      → At q
      → IsSound q
      → free_count capacity q.ring_buffer ≡ 0
      → fd.nonblock ≡ true
      → WriteEnds fd buf count At Stop (returned q (err ewouldblock) [])
  signalled :
      (q : Pipe)
      → Stop q
      → IsSound q
      → fd.nonblock ≡ false
      → WriteEnds fd buf count At Stop (returned q (err eintr) [])
  sleeps :
      (q : Pipe)
      → At q
      → IsSound q
      → free_count capacity q.ring_buffer ≡ 0
      → fd.nonblock ≡ false
      → WriteEnds fd buf count At Stop (blocked q)

full_iff :
    (p : Pipe)
    → IsSound p
    → is_full capacity p.ring_buffer ≡ (free_count capacity p.ring_buffer == 0)
unfolding is_full
full_iff p v = ground (arith, data-add-free v)

module _ (fd : FileFlags) (buf : Buffer ℕ) (count : ℕ) (At Stop : Pipe → Type 0) where
  write_ring_gave :
      (p : Pipe)
      → At p
      → IsSound p
      → p.readers ≢ 0
      → 0 < free_count capacity p.ring_buffer
      → WriteEnds fd buf count At Stop (write_ring p buf count)
  unfolding write_ring
  write_ring_gave p here v live room =
      let (valid, back, n) = write_refines v buf count in
      gave p _ _ _ here v valid live room n back (refl, refl)

  write_round_ends :
      (p : Pipe) (wait : Outcome Pipe Ret)
      → At p
      → IsSound p
      → (free_count capacity p.ring_buffer ≡ 0
          → fd.nonblock ≡ false
          → WriteEnds fd buf count At Stop wait)
      → WriteEnds fd buf count At Stop (write_round fd buf count p wait)
  write_round_ends p wait here v later = elim (Bool-cases (p.readers == 0)) [
    | inl alone ↦ rw alone (broken p here v ((==_iff _ _).0 alone))
    | inr live ↦
        rw (live, full_iff p v)
          (elim (Bool-cases (free_count capacity p.ring_buffer == 0)) [
            | inl stuck ↦ rw stuck (elim (Bool-cases fd.nonblock) [
              | inl nb ↦ simp nb (full p here v ((==_iff _ _).0 stuck) nb)
              | inr bl ↦ simp bl (later ((==_iff _ _).0 stuck) bl)
            ])
            | inr roomy ↦ rw roomy (write_ring_gave p here v (ground arith) (ground arith))
          ])
  ]

  pub write_loop_ends :
      (ts : List (Turn Pipe)) (p : Pipe)
      → ((q : Pipe) → Found ts p q → At q)
      → ((q : Pipe) → Cut ts p q → Stop q)
      → All Keeps ts
      → IsSound p
      → WriteEnds fd buf count At Stop (write fd buf count ts p)
  unfolding write
  write_loop_ends [] p found cut keeps v =
      write_round_ends p (blocked p) (found p at_once) v (λ e b. sleeps p (found p at_once) v e b)
  write_loop_ends (t ∷ ts) p found cut keeps v = write_round_ends p _ (found p at_once) v λ e b.
      elim (Waited-cases (wait_on t p)) [
        | inl (q, w) ↦ rw w (
            signalled q (cut q (at_wait w))
              (subst (AfterWait IsSound) w (round_waits t p keeps.0 v)) b)
        | inr (q, w) ↦ rw w (
            write_loop_ends ts q (λ r f. found r (after_wait w f))
              (λ r f. cut r (at_later_wait w f)) keeps.1
              (subst (AfterWait IsSound) w (round_waits t p keeps.0 v)))
      ]

-- Whatever the other threads do between the rounds, as long as they keep the pipe sound, a `write` to a
-- sound pipe ends in one of the ways of `WriteEnds`, on a pipe that it looked at in one of its rounds,
-- and leaves a sound pipe.
pub write_ends :
    (fd : FileFlags) (buf : Buffer ℕ) (count : ℕ) (ts : List (Turn Pipe)) (p : Pipe)
    → All Keeps ts
    → IsSound p
    → WriteEnds fd buf count (Found ts p) (Cut ts p) (write fd buf count ts p)
write_ends fd buf count ts p keeps v =
    write_loop_ends fd buf count (Found ts p) (Cut ts p) ts p (λ q f. f) (λ q f. f) keeps v
