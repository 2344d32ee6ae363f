-- ===== src/Userland/Cred.antt =====
-- userland/cred.hpp and userland/cred.cpp: the ids of a thread, and the calls that change them. An id is
-- 32 bits wide. What only logs is left out.
pub mod Rights
pub mod Effects
mod Tests
use saba_os.Base.{
  ℕ, ◌+◌, ◌-◌, ◌^◌, Bool, true, false, ◌&&◌, ◌||◌, not, if◌then◌else◌, ltb, ◌==◌, List, [], ◌∷◌,
  Ret, ok, err, eperm, einval, enosys, length,
}

pub record IdSet : Type 0 where
  pub rid : ℕ
  pub eid : ℕ
  pub fsid : ℕ
  pub sid : ℕ

-- The credentials of the thread, and `dumpable` of its process.
pub record Cred : Type 0 where
  pub uids : IdSet
  pub gids : IdSet
  pub groups : List ℕ
  pub dumpable : Bool

-- (uint)-1, which leaves an id as it is
abbrev pub unchanged : ℕ
unchanged = 0xffffffff

pub contains : IdSet → ℕ → Bool
contains ids id = (ids.rid == id) || (ids.eid == id) || (ids.sid == id)

-- Every capability is the effective user id 0.
pub has_capability : Cred → Bool
has_capability c = c.uids.eid == 0

-- `is_gid ? thread->cred.gids : thread->cred.uids`
pub id_set : Bool → Cred → IdSet
id_set true c = c.gids
id_set false c = c.uids

pub with_id_set : Bool → IdSet → Cred → Cred
with_id_set true ids c = record c { gids = ids }
with_id_set false ids c = record c { uids = ids }

-- `thread->process->dumpable = false`, when the ids differ.
pub clear_dumpable : Bool → Cred → Cred
clear_dumpable differ c = record c { dumpable = c.dumpable && not differ }

pub setid : Bool → ℕ → Cred → Cred × Ret
setid is_gid id c =
    let ids = id_set is_gid c in
    let marked = clear_dumpable (not (id == ids.eid)) c in
    if has_capability c
    then (with_id_set is_gid (record { rid = id; eid = id; fsid = id; sid = id }) marked, ok 0)
    else if contains ids id
    then (with_id_set is_gid (record ids { eid = id; fsid = id }) marked, ok 0)
    else (c, err eperm)

-- `id != (uint)-1 && !ids.contains(id)`: the id may not be set.
pub is_refused : IdSet → ℕ → Bool
is_refused ids id = not (id == unchanged) && not (contains ids id)

-- `if (id != (uint)-1) new_id = id`
pub chosen : ℕ → ℕ → ℕ
chosen id old = if id == unchanged then old else id

pub new_ids : IdSet → ℕ → ℕ → ℕ → IdSet
new_ids ids rid eid sid = record {
  rid = chosen rid ids.rid;
  eid = chosen eid ids.eid;
  fsid = chosen eid ids.eid;
  sid = chosen sid ids.sid;
}

pub setresid : Bool → ℕ → ℕ → ℕ → Cred → Cred × Ret
setresid is_gid rid eid sid c =
    let ids = id_set is_gid c in
    let next = new_ids ids rid eid sid in
    let refused = is_refused ids eid || is_refused ids rid || is_refused ids sid in
    if not (has_capability c) && refused then (c, err eperm) else (
      with_id_set is_gid next
          (clear_dumpable (not (next.eid == ids.eid) || not (next.fsid == ids.fsid)) c),
      ok 0,
    )

pub syscall_getuid : Cred → ℕ
syscall_getuid c = c.uids.rid

pub syscall_geteuid : Cred → ℕ
syscall_geteuid c = c.uids.eid

pub syscall_getgid : Cred → ℕ
syscall_getgid c = c.gids.rid

pub syscall_getegid : Cred → ℕ
syscall_getegid c = c.gids.eid

pub syscall_getresuid : Cred → ℕ × ℕ × ℕ
syscall_getresuid c = (c.uids.rid, c.uids.eid, c.uids.sid)

pub syscall_getresgid : Cred → ℕ × ℕ × ℕ
syscall_getresgid c = (c.gids.rid, c.gids.eid, c.gids.sid)

pub syscall_setuid : ℕ → Cred → Cred × Ret
syscall_setuid uid c = setid false uid c

pub syscall_setgid : ℕ → Cred → Cred × Ret
syscall_setgid gid c = setid true gid c

pub syscall_setreuid : ℕ → ℕ → Cred → Cred × Ret
syscall_setreuid ruid euid c = setresid false ruid euid unchanged c

pub syscall_setregid : ℕ → ℕ → Cred → Cred × Ret
syscall_setregid rgid egid c = setresid true rgid egid unchanged c

pub syscall_setresuid : ℕ → ℕ → ℕ → Cred → Cred × Ret
syscall_setresuid ruid euid suid c = setresid false ruid euid suid c

pub syscall_setresgid : ℕ → ℕ → ℕ → Cred → Cred × Ret
syscall_setresgid rgid egid sgid c = setresid true rgid egid sgid c

pub syscall_setfsuid : ℕ → Cred → Cred × Ret
syscall_setfsuid fsuid c = (c, err enosys)

pub syscall_setfsgid : ℕ → Cred → Cred × Ret
syscall_setfsgid fsgid c = (c, err enosys)

-- `size` is not negative here: a negative one is below every number of groups, but not 0.
pub syscall_getgroups : ℕ → Cred → Ret × List ℕ
syscall_getgroups size c =
    if size == 0
    then (ok (length c.groups), [])
    else if ltb size (length c.groups)
    then (err einval, [])
    else (ok (length c.groups), c.groups)

-- The eight calls that set user and group ids; setgroups is not among them, and not modelled.
pub data Call : Type 0 where
  setuid setgid : ℕ → Call
  setreuid setregid : ℕ → ℕ → Call
  setresuid setresgid : ℕ → ℕ → ℕ → Call
  setfsuid setfsgid : ℕ → Call

pub call : Call → Cred → Cred × Ret
call (setuid uid) c = syscall_setuid uid c
call (setgid gid) c = syscall_setgid gid c
call (setreuid ruid euid) c = syscall_setreuid ruid euid c
call (setregid rgid egid) c = syscall_setregid rgid egid c
call (setresuid ruid euid suid) c = syscall_setresuid ruid euid suid c
call (setresgid rgid egid sgid) c = syscall_setresgid rgid egid sgid c
call (setfsuid fsuid) c = syscall_setfsuid fsuid c
call (setfsgid fsgid) c = syscall_setfsgid fsgid c

-- The credentials after calls in order.
pub calls : List Call → Cred → Cred
calls [] c = c
calls (x ∷ xs) c = calls xs (call x c).0
