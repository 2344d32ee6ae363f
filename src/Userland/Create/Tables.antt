-- ===== src/Userland/Create/Tables.antt =====
-- The descriptor table after the calls that create objects.
use saba_os.Base.{ℕ, ◌≡◌, refl, Bool, false, Buffer, some}
use saba_os.Fs.Table.{Table, install}
use saba_os.Fs.Table.Refs.{IsValid}
use saba_os.Fs.Table.Calls.{install-IsValid}
use saba_os.Userland.Create.{pipe_impl, NewPipe}

-- A pipe with supported flags, made of two descriptions that nobody holds, keeps the table well formed.
pub pipe_impl-IsValid :
    (outside : ℕ → ℕ) (reading writing : ℕ) (nonblock cloexec : Bool) (junk : Buffer ℕ) (t : Table)
    → IsValid outside t
    → t.ref_count reading ≡ 0
    → (install reading cloexec t).1.ref_count writing ≡ 0
    → (p : NewPipe) × (pipe_impl reading writing false nonblock cloexec junk t ≡ some p)
      × IsValid outside p.table
unfolding pipe_impl
pipe_impl-IsValid outside reading writing nonblock cloexec junk t v fresh fresh' = (
  _,
  refl,
  install-IsValid outside (install reading cloexec t).1 writing cloexec
      (install-IsValid outside t reading cloexec v fresh) fresh',
)
