-- ===== src/Userland/Signal/Sending.antt =====
-- What `kill` sends to a process or to a process group.
use saba_os.Base.{
  ◌⊎◌, ℕ, zero, suc, ◌+◌, ◌≡◌, ◌≢◌, ◌<◌, ◌≤◌, refl, sym, subst, if◌then◌else◌, inl, inr, Bool, true,
  false, ◌&&◌, not, Bool-cases, leb, ◌==◌, Option, none, some, Ret, ok, err, einval, esrch, arith,
}
use saba_os.Sched.Thread.{Machine, Thread, get_from_tid, send_signal, group_send_signal}
use saba_os.Userland.Signal.{
  ℤ, pos, negsuc, is_zombie, kill_found, kill_target, kill_pid, syscall_kill,
}

-- The number in the thread table that `pid` stands for, and whether it stands for a process group: a
-- positive pid for itself, 0 for the group of the caller's process, a negative one for the group -pid.
pub data Names (caller : ℕ) (m : Machine) : ℤ → ℕ → Bool → Type 0 where
  process : (n : ℕ) → Names caller m (pos (suc n)) (suc n) false
  own_group : Names caller m (pos zero) (m.processes caller).group true
  group : (n : ℕ) → Names caller m (negsuc n) (n + 1) true

-- A live thread that the call reaches: for a group one of the process that leads it.
pub record Reaches (m : Machine) (target : ℕ) (to_group : Bool) (t : Thread) : Type 0 where
  pub found : get_from_tid target m ≡ some t
  pub alive : is_zombie t.state ≡ false
  pub leads : to_group ≡ true → (m.processes t.process).group ≡ t.process

-- What the call comes to for the thread number it stands for.
pub data Kills (signal : ℕ) (m : Machine) (target : ℕ) : Bool → Machine × Ret → Type 0 where
  missing : {g : Bool} → get_from_tid target m ≡ none → Kills signal m target g (m, err esrch)
  dead :
      {g : Bool} (t : Thread)
      → get_from_tid target m ≡ some t
      → is_zombie t.state ≡ true
      → Kills signal m target g (m, err esrch)
  stray :
      (t : Thread)
      → get_from_tid target m ≡ some t
      → (m.processes t.process).group ≢ t.process
      → Kills signal m target true (m, err esrch)
  probed :
      {g : Bool} (t : Thread)
      → Reaches m target g t
      → signal ≡ 0
      → Kills signal m target g (m, ok 0)
  to_thread :
      (t : Thread)
      → Reaches m target false t
      → 0 < signal
      → Kills signal m target false (send_signal target signal m, ok 0)
  to_group :
      (t : Thread)
      → Reaches m target true t
      → 0 < signal
      → Kills signal m target true (group_send_signal t.process signal m, ok 0)

leader : (a b : ℕ) → not (a == b) ≡ false → a ≡ b
leader a b h = ground (arith, h)

strays : (a b : ℕ) → not (a == b) ≡ true → a ≢ b
strays a b h e = ground (arith, h, e)

nobody_leads : {A : Type 0} → false ≡ true → A
nobody_leads e = absurd (ground (arith, e))

kill_found-Kills :
    (target : ℕ) (g : Bool) (signal : ℕ) (m : Machine) (o : Option Thread)
    → get_from_tid target m ≡ o
    → Kills signal m target g (kill_found target g signal m o)
unfolding kill_found
kill_found-Kills target g signal m none e = missing e
kill_found-Kills target g signal m (some t) e = elim (Bool-cases (is_zombie t.state)) [
  | inl gone ↦ rw gone (dead t e gone)
  | inr alive ↦ rw alive (reached alive g)
]
  where
    reached :
        is_zombie t.state ≡ false
        → (g : Bool)
        → let pgid = (m.processes t.process).group in
          Kills signal m target g (
            if g && not (pgid == t.process)
            then (m, err esrch)
            else if signal == 0
            then (m, ok 0)
            else if g
            then (group_send_signal pgid signal m, ok 0)
            else (send_signal target signal m, ok 0))
    reached alive false =
        let live : Reaches m target false t = record {
          found = e;
          alive = alive;
          leads = nobody_leads;
        } in
        elim (Bool-cases (signal == 0)) [
          | inl probe ↦ rw probe (probed t live (ground (arith, probe)))
          | inr real ↦ rw real (to_thread t live (ground (arith, real)))
        ]
    reached alive true = elim (Bool-cases (not ((m.processes t.process).group == t.process))) [
      | inl member ↦ rw member (stray t e (strays _ _ member))
      | inr leads ↦
          let lead = leader (m.processes t.process).group t.process leads in
          let live : Reaches m target true t = record {
            found = e;
            alive = alive;
            leads = λ _. lead;
          } in
          elim (Bool-cases (signal == 0)) [
            | inl probe ↦ rw (leads, probe) (probed t live (ground (arith, probe)))
            | inr real ↦
                rw (leads, real)
                  (subst (λ p. Kills signal m target true (group_send_signal p signal m, ok 0))
                    (sym lead) (to_group t live (ground (arith, real))))
          ]
    ]

kill_pid-Kills :
    (caller : ℕ) (pid : ℤ) (signal : ℕ) (m : Machine)
    → (target : ℕ) × (g : Bool) × Names caller m pid target g
      × Kills signal m target g (kill_pid caller pid signal m)
unfolding kill_pid kill_target
kill_pid-Kills caller (negsuc n) signal m =
    (n + 1, true, group n, kill_found-Kills (n + 1) true signal m _ refl)
kill_pid-Kills caller (pos zero) signal m =
    (_, true, own_group, kill_found-Kills (m.processes caller).group true signal m _ refl)
kill_pid-Kills caller (pos (suc n)) signal m =
    (suc n, false, process n, kill_found-Kills (suc n) false signal m _ refl)

-- `kill` with a signal from 64 on fails with EINVAL and changes nothing. With a lower one, take the number
-- that the pid stands for, its own for a positive pid and that of a group else: it fails with ESRCH and
-- changes nothing just where the table has no thread of that number, a zombie, or, for a group, a thread
-- of a process that does not lead its group; else signal 0 does nothing, and another signal is sent to
-- that thread, or to the group.
pub syscall_kill_lem :
    (caller : ℕ) (pid : ℤ) (signal : ℕ) (m : Machine)
    → ((64 ≤ signal) × (syscall_kill caller pid (pos signal) m ≡ (m, err einval)))
      ⊎ ((signal < 64)
          × ((target : ℕ) × (g : Bool) × Names caller m pid target g
              × Kills signal m target g (syscall_kill caller pid (pos signal) m)))
unfolding syscall_kill
syscall_kill_lem caller pid signal m = elim (Bool-cases (leb 64 signal)) [
  | inl high ↦ rw high (inl (ground (arith, high), refl))
  | inr low ↦ rw low (inr (ground (arith, low), kill_pid-Kills caller pid signal m))
]
