-- ===== src/Userland/Pipe/Fifo.antt =====
-- The history of a pipe: calls in order, the bytes that writes took and the bytes that reads gave. A
-- call that would wait leaves no trace here; what it does when it goes on is in `Pipe.Blocking`.
use mathlib.Core.List.{append_assoc, append-nil}
use saba_os.Base.{ℕ, ◌≡◌, ◌∙◌, sym, ap, refl, List, [], ◌∷◌, ◌++◌, Ret, ok, err, Buffer, cells}
use saba_os.Sched.Event.{Outcome, returned, blocked}
use saba_os.Fs.Description.{FileFlags}
use saba_os.Userland.Pipe.{Pipe, open_end, close_end, read, write}
use saba_os.Userland.Pipe.Blocking.{
  IsSound, stored, Found, at_once, ReadEnds, took, end_of_file, would_block, interrupted, waits,
  WriteEnds, gave, broken, full, signalled, sleeps, Cut, read_loop_ends, write_loop_ends,
}

pub data Op : Type 0 where
  opens closes : FileFlags → Op
  reads writes : FileFlags → Buffer ℕ → ℕ → Op

pub record History : Type 0 where
  pub pipe : Pipe
  pub written : List ℕ
  pub taken : List ℕ

after_read : History → Outcome Pipe (Ret × Buffer ℕ) → History
after_read h (returned p (ok n, b) woke) = record h { pipe = p; taken = h.taken ++ cells b 0 n }
after_read h (returned p (err e, b) woke) = record h { pipe = p }
after_read h (blocked p) = record h { pipe = p }

after_write : History → Buffer ℕ → Outcome Pipe Ret → History
after_write h b (returned p (ok n) woke) = record h { pipe = p; written = h.written ++ cells b 0 n }
after_write h b (returned p (err e) woke) = record h { pipe = p }
after_write h b (blocked p) = record h { pipe = p }

pub step : History → Op → History
unfolding after_read after_write
step h (opens fd) = record h { pipe = open_end h.pipe fd }
step h (closes fd) = record h { pipe = (close_end h.pipe fd).0 }
step h (reads fd b n) = after_read h (read fd b n [] h.pipe)
step h (writes fd b n) = after_write h b (write fd b n [] h.pipe)

pub run : History → List Op → History
run h [] = h
run h (op ∷ ops) = run (step h op) ops

-- The pipe is sound, and what went in is what came out followed by what it holds.
pub record Conserves (start : List ℕ) (h : History) : Type 0 where
  pub sound : IsSound h.pipe
  pub balance : start ++ h.written ≡ h.taken ++ stored h.pipe

Found-nil : (p q : Pipe) → Found [] p q → q ≡ p
Found-nil p q at_once = refl

Cut-nil : (p q : Pipe) → Cut [] p q → ⊥
Cut-nil p q c = elim c [ ]

module _ (start : List ℕ) (h : History) (fd : FileFlags) (b : Buffer ℕ) (n : ℕ) where
  after_read-Conserves :
      (o : Outcome Pipe (Ret × Buffer ℕ))
      → ReadEnds fd b n (λ q. q ≡ h.pipe) (λ q. ⊥) o
      → Conserves start h
      → Conserves start (after_read h o)
  unfolding after_read cells
  after_read-Conserves _ (took q q' k b' woke here v v' some_data count front rest ends) c =
      record {
        sound = v';
        balance =
            c.balance
            ∙ ap (λ r. h.taken ++ stored r) (sym here)
            ∙ ap (λ l. h.taken ++ l) front
            ∙ sym (append_assoc h.taken (cells b' 0 k) (stored q'));
      }
  after_read-Conserves _ (end_of_file q here v e w) c = record {
    sound = v;
    balance = rw (here, append-nil h.taken) c.balance;
  }
  after_read-Conserves _ (would_block q here v e w) c = record {
    sound = v;
    balance = rw here c.balance;
  }
  after_read-Conserves _ (interrupted q stop v nb) c = absurd stop
  after_read-Conserves _ (waits q here v e w) c = record { sound = v; balance = rw here c.balance }

  after_write-Conserves :
      (o : Outcome Pipe Ret)
      → WriteEnds fd b n (λ q. q ≡ h.pipe) (λ q. ⊥) o
      → Conserves start h
      → Conserves start (after_write h b o)
  unfolding after_write
  after_write-Conserves _ (gave q q' k woke here v v' live room count back ends) c = record {
    sound = v';
    balance =
        sym (append_assoc start h.written (cells b 0 k))
        ∙ ap (λ l. l ++ cells b 0 k) c.balance
        ∙ append_assoc h.taken (stored h.pipe) (cells b 0 k)
        ∙ ap (λ r. h.taken ++ (stored r ++ cells b 0 k)) (sym here)
        ∙ ap (λ l. h.taken ++ l) (sym back);
  }
  after_write-Conserves _ (broken q here v e) c = record { sound = v; balance = rw here c.balance }
  after_write-Conserves _ (full q here v e w) c = record { sound = v; balance = rw here c.balance }
  after_write-Conserves _ (signalled q stop v nb) c = absurd stop
  after_write-Conserves _ (sleeps q here v e w) c = record {
    sound = v;
    balance = rw here c.balance;
  }

-- One call keeps the balance.
pub step-Conserves :
    (start : List ℕ) (h : History) (op : Op) → Conserves start h → Conserves start (step h op)
unfolding step
step-Conserves start h (opens fd) c =
    unfold open_end in record { sound = c.sound; balance = c.balance }
step-Conserves start h (closes fd) c =
    unfold close_end in record { sound = c.sound; balance = c.balance }
step-Conserves start h (reads fd b n) c =
    after_read-Conserves start h fd b n _
      (read_loop_ends fd b n (λ q. q ≡ h.pipe) (λ q. ⊥) [] h.pipe (Found-nil h.pipe)
        (Cut-nil h.pipe) tt c.sound)
      c
step-Conserves start h (writes fd b n) c =
    after_write-Conserves start h fd b n _
      (write_loop_ends fd b n (λ q. q ≡ h.pipe) (λ q. ⊥) [] h.pipe (Found-nil h.pipe)
        (Cut-nil h.pipe) tt c.sound)
      c

run-keeps :
    (start : List ℕ) (h : History) (ops : List Op) → Conserves start h → Conserves start (run h ops)
unfolding run
run-keeps start h [] c = c
run-keeps start h (op ∷ ops) c = run-keeps start (step h op) ops (step-Conserves start h op c)

-- After any calls on a sound pipe, the bytes that it held followed by those that writes took are the
-- bytes that reads gave followed by those that it holds: nothing is lost, doubled or reordered.
pub run-Conserves :
    (p : Pipe) (ops : List Op)
    → IsSound p
    → let h = run (record { pipe = p; written = []; taken = [] }) ops in
      IsSound h.pipe × (stored p ++ h.written ≡ h.taken ++ stored h.pipe)
run-Conserves p ops v =
    let c = run-keeps (stored p) _ ops (record { sound = v; balance = append-nil (stored p) }) in
    (c.sound, c.balance)
