-- ===== src/Userland/Signal/Dispatch.antt =====
-- The part of `dispatch_pending_signal` behind the choice of the signal: what becomes of it, and the mask
-- while its handler runs. `terminates` and `stops` stand for the calls of `terminate_process` and
-- `dequeue_thread`. The restart of a system call, which only moves registers, and the frame are left out.
use saba_os.Base.{
  ℕ, ◌-◌, ◌/◌, ◌%◌, ◌^◌, ◌≡◌, ◌≤◌, ◌<◌, ◌⊎◌, Bool, true, false, ◌&&◌, ◌||◌, not, if◌then◌else◌,
  ◌==◌, List, [], ◌∷◌, Option, none, some,
}
use saba_os.Sched.Thread.{Thread, SigSet, KernelSigaction}
use saba_os.Userland.Signal.{take_signal}

pub data SignalDefault : Type 0 where
  ignore terminate core continue stop : SignalDefault

-- Whether a signal stands in a list.
pub is_one_of : List ℕ → ℕ → Bool
is_one_of [] signal = false
is_one_of (s ∷ ss) signal = (s == signal) || is_one_of ss signal

-- SIGCHLD, SIGURG, SIGWINCH; SIGCONT; SIGSTOP, SIGTSTP, SIGTTIN, SIGTTOU; then SIGHUP, SIGINT, SIGKILL,
-- SIGUSR1, SIGUSR2, SIGPIPE, SIGALRM, SIGTERM, SIGSTKFLT, SIGVTALRM, SIGPROF, SIGIO and SIGPWR.
pub signal_default_action : ℕ → SignalDefault
signal_default_action signal =
    if is_one_of (17 ∷ 23 ∷ 28 ∷ []) signal
    then ignore
    else if signal == 18
    then continue
    else if is_one_of (19 ∷ 20 ∷ 21 ∷ 22 ∷ []) signal
    then stop
    else if is_one_of (1 ∷ 2 ∷ 9 ∷ 10 ∷ 12 ∷ 13 ∷ 14 ∷ 15 ∷ 16 ∷ 26 ∷ 27 ∷ 29 ∷ 30 ∷ []) signal
    then terminate
    else core

-- What becomes of the thread: nothing more, the end of its process by the signal, a stop by the signal,
-- or the run of a handler, with the thread and the action after the dispatch.
pub data Dispatched : Type 0 where
  returns : Thread → Dispatched
  terminates stops : ℕ → Thread → Dispatched
  handles : ℕ → Thread → KernelSigaction → Dispatched

pub by_default : ℕ → Thread → SignalDefault → Dispatched
by_default signal t ignore = returns t
by_default signal t terminate = terminates signal t
by_default signal t core = terminates signal t
by_default signal t continue = returns t
by_default signal t stop = stops signal t

-- SA_NODEFER and SA_RESETHAND are the bits 30 and 31.
pub has_flag : ℕ → KernelSigaction → Bool
has_flag bit a = a.flags / 2 ^ bit % 2 == 1

-- `signal_mask |= action->mask`, and the signal's own bit without SA_NODEFER
pub handler_mask : ℕ → KernelSigaction → SigSet → SigSet
handler_mask signal a mask i = mask i || a.mask i || (not (has_flag 30 a) && (i == (signal - 1)))

pub run_handler : ℕ → KernelSigaction → Thread → Dispatched
run_handler signal a t =
    handles signal (record t { signal_mask = handler_mask signal a t.signal_mask })
      (if has_flag 31 a then record a { handler = 0 } else a)

-- By the handler: SIG_DFL is 0 and SIG_IGN is 1.
pub act_on : ℕ → KernelSigaction → Thread → Dispatched
act_on signal a t =
    if a.handler == 1
    then returns t
    else if a.handler == 0
    then by_default signal t (signal_default_action signal)
    else if a.restorer == 0
    then terminates signal t
    else run_handler signal a t

pub dispatch_taken : (ℕ → KernelSigaction) → Thread × Option ℕ → Dispatched
dispatch_taken actions (t, none) = returns t
dispatch_taken actions (t, some signal) = act_on signal (actions signal) t

pub dispatch_pending_signal : (ℕ → KernelSigaction) → Thread → Dispatched
dispatch_pending_signal actions t = dispatch_taken actions (take_signal t)

-- SIGCHLD, SIGCONT, SIGURG and SIGWINCH do nothing by default; SIGSTOP, SIGTSTP, SIGTTIN and SIGTTOU stop.
pub IsQuiet : ℕ → Type 0
IsQuiet signal = (signal ≡ 17) ⊎ (signal ≡ 18) ⊎ (signal ≡ 23) ⊎ (signal ≡ 28)

pub IsStopping : ℕ → Type 0
IsStopping signal = (19 ≤ signal) × (signal ≤ 22)

-- The signals that are masked while the handler runs: those that were, those of the action, and the signal
-- itself, unless the action has SA_NODEFER.
pub IsMasked : ℕ → KernelSigaction → Thread → ℕ → Type 0
IsMasked signal a t i =
    (t.signal_mask i ≡ true) ⊎ (a.mask i ≡ true) ⊎ ((has_flag 30 a ≡ false) × (i ≡ signal - 1))

-- What a dispatch comes to for the signal that was taken.
pub data Action (signal : ℕ) (a : KernelSigaction) (t : Thread) : Dispatched → Type 0 where
  ignored : a.handler ≡ 1 → Action signal a t (returns t)
  quiet : a.handler ≡ 0 → IsQuiet signal → Action signal a t (returns t)
  stopped : a.handler ≡ 0 → IsStopping signal → Action signal a t (stops signal t)
  killed :
      a.handler ≡ 0
      → ¬ IsQuiet signal
      → ¬ IsStopping signal
      → Action signal a t (terminates signal t)
  stranded : 2 ≤ a.handler → a.restorer ≡ 0 → Action signal a t (terminates signal t)
  handled :
      (t' : Thread) (a' : KernelSigaction)
      → 2 ≤ a.handler
      → 0 < a.restorer
      → t' ≡ record t { signal_mask = t'.signal_mask }
      → ((i : ℕ) → t'.signal_mask i ≡ true → IsMasked signal a t i)
      → ((i : ℕ) → IsMasked signal a t i → t'.signal_mask i ≡ true)
      → (has_flag 31 a ≡ true → a' ≡ record a { handler = 0 })
      → (has_flag 31 a ≡ false → a' ≡ a)
      → Action signal a t (handles signal t' a')
