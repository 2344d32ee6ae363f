-- ===== src/Mem/Ranges/Calls/Protect.antt =====
-- mem/vmm.cpp: mprotect, mincore and madvise.
use saba_os.Base.{
  ℕ, zero, suc, ◌+◌, ◌/◌, ◌%◌, true, if◌then◌else◌, ltb, ◌==◌, List, [], ◌∷◌, ◌++◌, Option, none,
  some, add64, sub64, page_size, Ret, ok, err, enomem, einval, Buffer, update,
}
use saba_os.Mem.Ranges.{MappedRange, Request, invalidate, end}
use saba_os.Mem.Ranges.Calls.{
  Space, Prot, mmap_prot_to_page_flags, page_up, addr_to_range, call_add_range,
}

-- The request for the part of the range from `current` on, up to the end of the call's interval.
unfoldable pub part_of : MappedRange → ℕ → ℕ → Prot → Request
part_of r current last prot =
    let rest = sub64 (end r) current in
    record {
      base = current;
      length = if ltb last (add64 current rest) then sub64 last current else rest;
      page_flags = mmap_prot_to_page_flags prot;
      type = some r.kind;
      phy_base = if r.phy_base == 0 then 0 else add64 r.phy_base (sub64 current r.base);
      file = r.file;
      file_offset = add64 r.file_offset (sub64 current r.base);
    }

unfoldable pub protect_more : (Space → Option (Space × Ret)) → Option Space → Option (Space × Ret)
protect_more continue none = none
protect_more continue (some s) = continue s

-- One round of the loop, with the rounds after it.
unfoldable pub protect_found :
    (ℕ → Space → Option (Space × Ret))
    → ℕ
    → ℕ
    → Prot
    → Space × Option MappedRange
    → Option (Space × Ret)
protect_found continue current last prot (s, none) = some (s, err enomem)
protect_found continue current last prot (s, some r) =
    let q = part_of r current last prot in
    protect_more (continue (add64 current q.length)) (call_add_range q true true s)

module _ (kernel : List MappedRange) where
  -- `while (current < end)`; each round goes forward, so that the length is enough fuel.
  unfoldable pub protect_loop : ℕ → ℕ → Prot → ℕ → Space → Option (Space × Ret)
  protect_loop zero last prot current s = if ltb current last then none else some (s, ok 0)
  protect_loop (suc fuel) last prot current s =
      if ltb current last
      then protect_found (λ c t. protect_loop fuel last prot c t) current last prot
          (addr_to_range kernel s current)
      else some (s, ok 0)

  unfoldable pub syscall_mprotect : ℕ → ℕ → Prot → Space → Option (Space × Ret)
  syscall_mprotect addr length prot s =
      let aligned = page_up length in
      if addr % page_size == 0
      then protect_loop aligned (add64 addr aligned) prot addr s
      else some (s, err einval)

  -- `vec[i] = 1` for each page, up to the first that no range holds
  pub residency : ℕ → ℕ → ℕ → Buffer ℕ → Space → Space × Ret × Buffer ℕ
  residency zero i page vec s = (s, ok 0, vec)
  residency (suc n) i page vec s =
      let (t, found) = addr_to_range kernel s page in
      elim found [
        | none ↦ (t, err enomem, vec)
        | some r ↦ residency n (i + 1) (add64 page page_size) (update vec i 1) t
      ]

  pub syscall_mincore : ℕ → ℕ → Buffer ℕ → Space → Space × Ret × Buffer ℕ
  syscall_mincore addr length vec s =
      if addr % page_size == 0
      then residency (page_up length / page_size) 0 addr vec s
      else (s, err einval, vec)

pub data Advice : Type 0 where
  ignored drops unsupported : Advice

-- `invalidate_page(page, nullptr)` for each page
pub drop_pages : ℕ → ℕ → Space → Space
drop_pages zero page s = s
drop_pages (suc n) page s =
    drop_pages n (add64 page page_size)
      (record s { effects = s.effects ++ (invalidate page page_size none ∷ []) })

pub advise : Advice → ℕ → ℕ → Space → Space × Ret
advise ignored addr length s = (s, ok 0)
advise drops addr length s = (drop_pages (page_up length / page_size) addr s, ok 0)
advise unsupported addr length s = (s, err einval)

pub syscall_madvise : ℕ → ℕ → Advice → Space → Space × Ret
syscall_madvise addr length advice s =
    if addr % page_size == 0 then advise advice addr length s else (s, err einval)
