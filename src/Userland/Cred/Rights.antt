-- ===== src/Userland/Cred/Rights.antt =====
-- What a thread without the capability can make of its ids.
use saba_os.Base.{
  ℕ, ◌≡◌, ◌<◌, ◌⊎◌, inl, inr, refl, sym, ◌∙◌, subst, Bool, true, false, ◌&&◌, not, Bool-cases, ◌==◌,
  ok, arith, List, [], ◌∷◌,
}
use saba_os.Userland.Cred.{
  IdSet, Cred, unchanged, contains, has_capability, id_set, with_id_set, clear_dumpable, setid,
  is_refused, chosen, new_ids, setresid, Call, setuid, setgid, setreuid, setregid, setresuid,
  setresgid, setfsuid, setfsgid, call, calls, syscall_setuid, syscall_setgid, syscall_setreuid,
  syscall_setregid, syscall_setresuid, syscall_setresgid, syscall_setfsuid, syscall_setfsgid,
}

-- One of the three ids that the thread may take.
pub Owns : IdSet → ℕ → Type 0
Owns ids id = (ids.rid ≡ id) ⊎ (ids.eid ≡ id) ⊎ (ids.sid ≡ id)

-- The real, effective and saved ids of `new` are among those of `old`, and its file system id is one of
-- them, or as it was.
pub record IsWithin (new old : IdSet) : Type 0 where
  pub rid : Owns old new.rid
  pub eid : Owns old new.eid
  pub sid : Owns old new.sid
  pub fsid : Owns old new.fsid ⊎ (new.fsid ≡ old.fsid)

contains→Owns : (ids : IdSet) (id : ℕ) → contains ids id ≡ true → Owns ids id
unfolding contains Owns
contains→Owns ids id h = ground arith

Owns-trans : (a b : IdSet) (id : ℕ) → IsWithin a b → Owns a id → Owns b id
unfolding Owns
Owns-trans a b id w o = elim o [
  | inl e ↦ subst (λ i. Owns b i) e w.rid
  | inr (inl e) ↦ subst (λ i. Owns b i) e w.eid
  | inr (inr e) ↦ subst (λ i. Owns b i) e w.sid
]

IsWithin-refl : (a : IdSet) → IsWithin a a
unfolding Owns
IsWithin-refl a = record {
  rid = inl refl;
  eid = inr (inl refl);
  sid = inr (inr refl);
  fsid = inr refl;
}

IsWithin-trans : (a b c : IdSet) → IsWithin a b → IsWithin b c → IsWithin a c
IsWithin-trans a b c v w = record {
  rid = Owns-trans b c a.rid w v.rid;
  eid = Owns-trans b c a.eid w v.eid;
  sid = Owns-trans b c a.sid w v.sid;
  fsid = elim v.fsid [
    | inl o ↦ inl (Owns-trans b c a.fsid w o)
    | inr e ↦ elim w.fsid [ inl o ↦ inl (subst (λ i. Owns c i) (sym e) o) | inr e' ↦ inr (e ∙ e') ]
  ];
}

-- What `new` may have become from `old`: ids among those that `old` had, the same groups.
pub record Stays (new old : Cred) : Type 0 where
  pub uids : IsWithin new.uids old.uids
  pub gids : IsWithin new.gids old.gids
  pub groups : new.groups ≡ old.groups

Stays-refl : (c : Cred) → Stays c c
Stays-refl c = record { uids = IsWithin-refl c.uids; gids = IsWithin-refl c.gids; groups = refl }

Stays-trans : (a b c : Cred) → Stays a b → Stays b c → Stays a c
Stays-trans a b c s t = record {
  uids = IsWithin-trans a.uids b.uids c.uids s.uids t.uids;
  gids = IsWithin-trans a.gids b.gids c.gids s.gids t.gids;
  groups = s.groups ∙ t.groups;
}

-- Storing ids among the old ones.
with_id_set-Stays :
    (is_gid : Bool) (ids : IdSet) (differ : Bool) (c : Cred)
    → IsWithin ids (id_set is_gid c)
    → Stays (with_id_set is_gid ids (clear_dumpable differ c)) c
unfolding id_set with_id_set clear_dumpable
with_id_set-Stays true ids differ c w = record {
  uids = IsWithin-refl c.uids;
  gids = w;
  groups = refl;
}
with_id_set-Stays false ids differ c w = record {
  uids = w;
  gids = IsWithin-refl c.gids;
  groups = refl;
}

setid-Stays :
    (is_gid : Bool) (id : ℕ) (c : Cred) → has_capability c ≡ false → Stays (setid is_gid id c).0 c
unfolding setid Owns
setid-Stays is_gid id c bare = elim (Bool-cases (contains (id_set is_gid c) id)) [
  | inl own ↦
      let o = contains→Owns (id_set is_gid c) id own in
      rw (bare, own)
        (with_id_set-Stays is_gid _ _ c
          (record { rid = inl refl; eid = o; sid = inr (inr refl); fsid = inl o }))
  | inr foreign ↦ rw (bare, foreign) (Stays-refl c)
]

leaves_only : (b c : Bool) → b ≡ false → (not b && not c) ≡ false → c ≡ true
leaves_only b c h h' = ground (arith, h, h')

-- An id that is not refused is either left alone or one of the thread's.
chosen-Owns :
    (ids : IdSet) (id old : ℕ) → is_refused ids id ≡ false → Owns ids old → Owns ids (chosen id old)
unfolding chosen is_refused
chosen-Owns ids id old fine o = elim (Bool-cases (id == unchanged)) [
  | inl keep ↦ rw keep o
  | inr sets ↦
      rw sets (contains→Owns ids id (leaves_only (id == unchanged) (contains ids id) sets fine))
]

new_ids-IsWithin :
    (ids : IdSet) (rid eid sid : ℕ)
    → is_refused ids eid ≡ false
    → is_refused ids rid ≡ false
    → is_refused ids sid ≡ false
    → IsWithin (new_ids ids rid eid sid) ids
unfolding new_ids Owns
new_ids-IsWithin ids rid eid sid e r s = record {
  rid = chosen-Owns ids rid ids.rid r (inl refl);
  eid = chosen-Owns ids eid ids.eid e (inr (inl refl));
  sid = chosen-Owns ids sid ids.sid s (inr (inr refl));
  fsid = inl (chosen-Owns ids eid ids.eid e (inr (inl refl)));
}

setresid-Stays :
    (is_gid : Bool) (rid eid sid : ℕ) (c : Cred)
    → has_capability c ≡ false
    → Stays (setresid is_gid rid eid sid c).0 c
unfolding setresid
setresid-Stays is_gid rid eid sid c bare = elim (Bool-cases (is_refused (id_set is_gid c) eid)) [
  | inl bad ↦ rw (bare, bad) (Stays-refl c)
  | inr e ↦ elim (Bool-cases (is_refused (id_set is_gid c) rid)) [
    | inl bad ↦ rw (bare, e, bad) (Stays-refl c)
    | inr r ↦ elim (Bool-cases (is_refused (id_set is_gid c) sid)) [
      | inl bad ↦ rw (bare, e, r, bad) (Stays-refl c)
      | inr s ↦
          rw (bare, e, r, s)
            (with_id_set-Stays is_gid _ _ c (new_ids-IsWithin (id_set is_gid c) rid eid sid e r s))
    ]
  ]
]

call-Stays : (x : Call) (c : Cred) → has_capability c ≡ false → Stays (call x c).0 c
unfolding call syscall_setuid syscall_setgid syscall_setreuid syscall_setregid syscall_setresuid
    syscall_setresgid syscall_setfsuid syscall_setfsgid
call-Stays (setuid uid) c bare = setid-Stays false uid c bare
call-Stays (setgid gid) c bare = setid-Stays true gid c bare
call-Stays (setreuid ruid euid) c bare = setresid-Stays false ruid euid unchanged c bare
call-Stays (setregid rgid egid) c bare = setresid-Stays true rgid egid unchanged c bare
call-Stays (setresuid ruid euid suid) c bare = setresid-Stays false ruid euid suid c bare
call-Stays (setresgid rgid egid sgid) c bare = setresid-Stays true rgid egid sgid c bare
call-Stays (setfsuid fsuid) c bare = Stays-refl c
call-Stays (setfsgid fsgid) c bare = Stays-refl c

-- None of the three user ids is the one that has every capability.
unfoldable pub IsRootless : Cred → Type 0
IsRootless c = (0 < c.uids.rid) × (0 < c.uids.eid) × (0 < c.uids.sid)

IsRootless-bare : (c : Cred) → IsRootless c → has_capability c ≡ false
unfolding IsRootless has_capability
IsRootless-bare c (r, e, s) = ground arith

Owns-positive :
    (ids : IdSet) (id : ℕ) → 0 < ids.rid → 0 < ids.eid → 0 < ids.sid → Owns ids id → 0 < id
unfolding Owns
Owns-positive ids id r e s o = elim o [
  | inl p ↦ omega arith
  | inr (inl p) ↦ omega arith
  | inr (inr p) ↦ omega arith
]

Stays-IsRootless : (new old : Cred) → Stays new old → IsRootless old → IsRootless new
unfolding IsRootless
Stays-IsRootless new old w (r, e, s) = (
  Owns-positive old.uids new.uids.rid r e s w.uids.rid,
  Owns-positive old.uids new.uids.eid r e s w.uids.eid,
  Owns-positive old.uids new.uids.sid r e s w.uids.sid,
)

-- A thread none of whose real, effective and saved user ids is 0 stays so through any calls of setuid,
-- setgid, setreuid, setregid, setresuid, setresgid, setfsuid and setfsgid: its real, effective and saved
-- ids remain among those of the same kind that it had, its file system ids too, or they are as they were,
-- and these calls leave its groups.
pub calls-Stays :
    (xs : List Call) (c : Cred) → IsRootless c → IsRootless (calls xs c) × Stays (calls xs c) c
unfolding calls
calls-Stays [] c r = (r, Stays-refl c)
calls-Stays (x ∷ xs) c r =
    let one = call-Stays x c (IsRootless-bare c r) in
    let rest = calls-Stays xs (call x c).0 (Stays-IsRootless (call x c).0 c one r) in
    (rest.0, Stays-trans (calls xs (call x c).0) (call x c).0 c rest.1 one)

-- A thread with the effective user id 0 that calls `setuid` with another id succeeds and loses the
-- capabilities: no later id calls bring them back.
pub setuid_drops :
    (id : ℕ) (xs : List Call) (c : Cred)
    → has_capability c ≡ true
    → 0 < id
    → ((syscall_setuid id c).1 ≡ ok 0) × (has_capability (calls xs (syscall_setuid id c).0) ≡ false)
unfolding syscall_setuid setid with_id_set
setuid_drops id xs c can pos =
    rw can (refl, unfold IsRootless in IsRootless-bare _ (calls-Stays xs _ (pos, pos, pos)).0)
