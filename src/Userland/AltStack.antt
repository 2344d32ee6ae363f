-- ===== src/Userland/AltStack.antt =====
-- userland/signal.cpp: `sigaltstack`. The flag word of the new stack is kept decoded.
use saba_os.Base.{ℕ, Option, none, some, Ret, ok, err, einval}

pub record SignalStack : Type 0 where
  pub ss_sp : ℕ
  pub ss_size : ℕ
  pub ss_flags : ℕ

abbrev pub ss_disable : ℕ
ss_disable = 2

-- The flags of a new stack: the bit 31, SS_DISABLE alone, none, or others.
pub data NewFlags : Type 0 where
  autodisarm disable none_set others : NewFlags

pub replace_stack : NewFlags → SignalStack → SignalStack → SignalStack × Ret
replace_stack autodisarm new old = (old, err einval)
replace_stack disable new old = (record { ss_sp = 0; ss_size = 0; ss_flags = ss_disable }, ok 0)
replace_stack none_set new old = (record new { ss_flags = 0 }, ok 0)
replace_stack others new old = (old, err einval)

-- The stack, and what is stored at `old_signal_stack`.
pub syscall_sigaltstack :
    Option (NewFlags × SignalStack) → SignalStack → SignalStack × SignalStack × Ret
syscall_sigaltstack none old = (old, old, ok 0)
syscall_sigaltstack (some (flags, new)) old =
    let (stack, r) = replace_stack flags new old in (stack, old, r)
