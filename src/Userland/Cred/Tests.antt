-- ===== src/Userland/Cred/Tests.antt =====
-- A thread of an ordinary user with a saved group id, and one of the superuser.
use saba_os.Base.{◌≡◌, refl, true, List, [], ◌∷◌, arith}
use saba_os.Userland.Cred.{
  Cred, Call, setuid, setgid, setresuid, setregid, setfsuid, call, calls, has_capability,
}
use saba_os.Userland.Cred.Rights.{IsRootless, Stays, calls-Stays}
use saba_os.Userland.Cred.Effects.{IsInStep, Effect, call-Effect}

abbrev user : Cred
user = record {
  uids = record { rid = 1000; eid = 1000; fsid = 1000; sid = 1001 };
  gids = record { rid = 100; eid = 100; fsid = 100; sid = 20 };
  groups = 20 ∷ 100 ∷ [];
  dumpable = true;
}

abbrev root : Cred
root = record user { uids = record { rid = 0; eid = 0; fsid = 0; sid = 0 } }

abbrev attempts : List Call
attempts =
    setuid 1001 ∷ setuid 0 ∷ setregid 20 5 ∷ setresuid 1000 0 1000 ∷ setgid 20 ∷ setfsuid 0 ∷ []

user-IsRootless : IsRootless user
unfolding IsRootless
user-IsRootless = (omega arith, omega arith, omega arith)

calls-Stays_example : IsRootless (calls attempts user) × Stays (calls attempts user) user
calls-Stays_example = calls-Stays attempts user user-IsRootless

root_can : has_capability root ≡ true
unfolding has_capability
root_can = refl

user-IsInStep : IsInStep user
user-IsInStep = record { uids = refl; gids = refl }

call-Effect_example : Effect user (call (setuid 1001) user)
call-Effect_example = call-Effect (setuid 1001) user user-IsInStep
