-- ===== src/Userland/Cred/Effects.antt =====
-- What an id call leaves when it fails, and what it does to `dumpable` when it succeeds.
use saba_os.Base.{
  ℕ, ◌≡◌, ◌≢◌, refl, inl, inr, Bool, true, false, ◌||◌, ◌&&◌, not, Bool-cases, ◌==◌, Ret, ok, err,
  Errno, arith,
}
use saba_os.Userland.Cred.{
  IdSet, Cred, unchanged, contains, has_capability, id_set, with_id_set, clear_dumpable, setid,
  is_refused, new_ids, setresid, Call, setuid, setgid, setreuid, setregid, setresuid, setresgid,
  setfsuid, setfsgid, call, syscall_setuid, syscall_setgid, syscall_setreuid, syscall_setregid,
  syscall_setresuid, syscall_setresgid, syscall_setfsuid, syscall_setfsgid,
}

-- In both sets the file-system id is the effective one.
pub record IsInStep (c : Cred) : Type 0 where
  pub uids : c.uids.fsid ≡ c.uids.eid
  pub gids : c.gids.fsid ≡ c.gids.eid

-- What a call comes to: nothing at all with an error, or success with `dumpable` lost when an effective
-- id differs from before.
pub data Effect (c : Cred) : Cred × Ret → Type 0 where
  failed : (e : Errno) → Effect c (c, err e)
  done :
      (c' : Cred)
      → IsInStep c'
      → (c'.uids.eid ≢ c.uids.eid → c'.dumpable ≡ false)
      → (c'.gids.eid ≢ c.gids.eid → c'.dumpable ≡ false)
      → (c'.dumpable ≡ true → c.dumpable ≡ true)
      → Effect c (c', ok 0)

marked : (differ : Bool) (b : Bool) → differ ≡ true → (b && not differ) ≡ false
marked differ b h = ground (arith, h)

kept : (differ : Bool) (b : Bool) → (b && not differ) ≡ true → b ≡ true
kept differ b h = ground (arith, h)

with_id_set-Effect :
    (is_gid : Bool) (ids : IdSet) (differ : Bool) (c : Cred)
    → IsInStep c
    → ids.fsid ≡ ids.eid
    → (ids.eid ≢ (id_set is_gid c).eid → differ ≡ true)
    → Effect c (with_id_set is_gid ids (clear_dumpable differ c), ok 0)
unfolding id_set with_id_set clear_dumpable
with_id_set-Effect true ids differ c v f d =
    done _ (record { uids = v.uids; gids = f }) (λ ne. absurd (ne refl))
      (λ ne. marked differ c.dumpable (d ne)) (kept differ c.dumpable)
with_id_set-Effect false ids differ c v f d =
    done _ (record { uids = f; gids = v.gids }) (λ ne. marked differ c.dumpable (d ne))
      (λ ne. absurd (ne refl)) (kept differ c.dumpable)

differs : (a b : ℕ) → a ≢ b → not (a == b) ≡ true
differs a b ne = grind (arith, ne)

either : (a b : Bool) → a ≡ true → (a || b) ≡ true
either a b h = ground (arith, h)

setid-Effect : (is_gid : Bool) (id : ℕ) (c : Cred) → IsInStep c → Effect c (setid is_gid id c)
unfolding setid
setid-Effect is_gid id c v = elim (Bool-cases (has_capability c)) [
  | inl can ↦ rw can (with_id_set-Effect is_gid _ _ c v refl (differs id (id_set is_gid c).eid))
  | inr bare ↦ elim (Bool-cases (contains (id_set is_gid c) id)) [
    | inl own ↦
        rw (bare, own) (with_id_set-Effect is_gid _ _ c v refl (differs id (id_set is_gid c).eid))
    | inr foreign ↦ rw (bare, foreign) (failed Errno.eperm)
  ]
]

setresid-Effect :
    (is_gid : Bool) (rid eid sid : ℕ) (c : Cred)
    → IsInStep c
    → Effect c (setresid is_gid rid eid sid c)
unfolding setresid new_ids
setresid-Effect is_gid rid eid sid c v =
    elim (Bool-cases (
      not (has_capability c)
      && (is_refused (id_set is_gid c) eid
          || is_refused (id_set is_gid c) rid
          || is_refused (id_set is_gid c) sid))) [
            | inl bad ↦ rw bad (failed Errno.eperm)
            | inr fine ↦ rw fine (
                with_id_set-Effect is_gid _ _ c v refl
                  (λ ne. either _ _ (differs _ (id_set is_gid c).eid ne)))
          ]

-- A call on a thread whose file-system ids are its effective ids either fails and changes nothing, or
-- succeeds, keeps that, makes the process not dumpable when an effective id differs from before, and
-- never makes it dumpable.
pub call-Effect : (x : Call) (c : Cred) → IsInStep c → Effect c (call x c)
unfolding call syscall_setuid syscall_setgid syscall_setreuid syscall_setregid syscall_setresuid
    syscall_setresgid syscall_setfsuid syscall_setfsgid
call-Effect (setuid uid) c v = setid-Effect false uid c v
call-Effect (setgid gid) c v = setid-Effect true gid c v
call-Effect (setreuid ruid euid) c v = setresid-Effect false ruid euid unchanged c v
call-Effect (setregid rgid egid) c v = setresid-Effect true rgid egid unchanged c v
call-Effect (setresuid ruid euid suid) c v = setresid-Effect false ruid euid suid c v
call-Effect (setresgid rgid egid sgid) c v = setresid-Effect true rgid egid sgid c v
call-Effect (setfsuid fsuid) c v = failed Errno.enosys
call-Effect (setfsgid fsgid) c v = failed Errno.enosys
