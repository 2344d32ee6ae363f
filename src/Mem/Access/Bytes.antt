-- ===== src/Mem/Access/Bytes.antt =====
-- mem/vmm.cpp: the page-wise copy is a copy byte by byte, up to the first page that is not there.
use saba_os.Base.{
  ℕ, zero, suc, ◌+◌, ◌-◌, ◌*◌, ◌%◌, ◌^◌, ◌≡◌, ◌<◌, ◌≤◌, refl, sym, ◌∙◌, ap, subst, inl, inr, ◌⊎◌,
  false, Bool-cases, Option-cases, ltb, ltb→lt, ◌==◌, max, min, Option, none, some, Ret, ok, Buffer,
  memcpy, memcpy_inside, memcpy_outside, page_size, arith,
}
use saba_os.Mem.Access.{
  Pagemap, get_physical_addr, page_of, offset_in, bytes_in_page, stopped_at, copy_page, read_pages,
  access_memory,
}

-- The physical address of a byte.
pub byte_addr : Pagemap → ℕ → Option ℕ
byte_addr p v = elim (get_physical_addr p (page_of v)) [
  | none ↦ none
  | some phy ↦ some (phy + v % page_size)
]

-- The bytes from `from` up to `until` of the interval were copied, and nothing else was changed.
pub record Copied (p : Pagemap) (memory : Buffer ℕ) (start : ℕ) (from until : ℕ)
    (before after : Buffer ℕ) : Type 0 where
  pub inside :
      (i : ℕ)
      → from ≤ i
      → i < until
      → (a : ℕ) × (byte_addr p (start + i) ≡ some a) × (after i ≡ memory a)
  pub outside : (i : ℕ) → (i < from) ⊎ (until ≤ i) → after i ≡ before i

bytes_lem :
    (start end page : ℕ)
    → page ≤ end
    → start ≤ end
    → start < page + page_size
    → end < 2 ^ 63
    → bytes_in_page start end page ≡ min end (page + page_size) - max start page
unfolding bytes_in_page offset_in
bytes_lem start end page a b c d = ground (arith, a, b, c, d)

offset_lem : (start page : ℕ) → page + offset_in start page ≡ max start page
unfolding offset_in
offset_lem start page = ground arith

-- Where the loop stands: the pages left are those up to the end's, and what is copied ends where this page
-- begins, or at the end.
record Stands (start end pages page transferred : ℕ) : Type 0 where
  aligned : page % page_size ≡ 0
  begun : start + transferred ≡ min end (max start page)
  left : page + pages * page_size ≡ page_of end + page_size
  first : start < page + page_size

page_of_inside :
    (page v : ℕ) → page % page_size ≡ 0 → page ≤ v → v < page + page_size → page_of v ≡ page
page_of_inside page v a b c = omega (arith, a, b, c)

rest_inside :
    (page v d : ℕ) → page % page_size ≡ 0 → v ≡ page + d → d < page_size → v % page_size ≡ d
rest_inside page v d a b c = omega (arith, a, b, c)

no_bytes :
    (p : Pagemap) (memory : Buffer ℕ) (start n : ℕ) (target : Buffer ℕ)
    → Copied p memory start n n target target
no_bytes p memory start n target = record {
  inside = λ i le lt. absurd (omega (arith, le, lt));
  outside = λ i h. refl;
}

-- A page's bytes, and then those of a copy that goes on behind them.
page_then_rest :
    (p : Pagemap) (memory : Buffer ℕ) (start from bytes n phy offset page : ℕ)
    (target after : Buffer ℕ)
    → page % page_size ≡ 0
    → get_physical_addr p page ≡ some phy
    → start + from ≡ page + offset
    → offset + bytes ≤ page_size
    → from + bytes ≤ n
    → Copied p memory start (from + bytes) n (memcpy target from memory (phy + offset) bytes) after
    → Copied p memory start from n target after
unfolding byte_addr
page_then_rest p memory start from bytes n phy offset page target after aligned here place room le
      c =
    record {
      inside = λ i ge lt. elim (Bool-cases (ltb i (from + bytes))) [
        | inl b ↦
            let in_page : page_of (start + i) ≡ page =
              page_of_inside page (start + i) aligned (omega (arith, place, ge))
                (omega (arith, place, ge, room, ltb→lt _ _ b)) in
            let rest : (start + i) % page_size ≡ offset + (i - from) =
              rest_inside page (start + i) (offset + (i - from)) aligned (omega (arith, place, ge))
                (omega (arith, ge, room, ltb→lt _ _ b)) in
            (
              phy + offset + (i - from),
              rw (in_page, here, rest, byte_addr) (ap some (omega arith)),
              c.outside i (inl (ltb→lt _ _ b))
                  ∙ subst
                      (λ k.
                        memcpy target from memory (phy + offset) bytes k
                        ≡ memory (phy + offset + (i - from)))
                      {x = from + (i - from)} {y = i} (omega (arith, ge))
                      (memcpy_inside target memory from (phy + offset) bytes (i - from)
                        (omega (arith, ge, ltb→lt _ _ b))),
            )
        | inr b ↦ c.inside i (ground (arith, b)) lt
      ];
      outside = λ i h. elim h [
        | inl before ↦
            c.outside i (inl (omega (arith, before)))
            ∙ memcpy_outside target memory from (phy + offset) bytes i (inl before)
        | inr behind ↦
            c.outside i (inr behind)
            ∙ memcpy_outside target memory from (phy + offset) bytes i
                (inr (omega (arith, behind, le)))
      ];
    }

-- How a copy from a place on ends: after some bytes that are all the rest, or at a page that is not there.
Ends : Pagemap → Buffer ℕ → ℕ → ℕ → ℕ → Buffer ℕ → Buffer ℕ × Ret → Type 0
Ends p memory start count from before (after, ret) =
    (n : ℕ) × (from ≤ n)
    × (n ≤ count)
    × Copied p memory start from n before after
    × (((n ≡ count) × (ret ≡ ok count))
        ⊎ ((n < count) × (byte_addr p (start + n) ≡ none) × (ret ≡ stopped_at n)))

module _ (p : Pagemap) (memory : Buffer ℕ) (start count : ℕ) (small : start + count < 2 ^ 63) where
  pages_lem :
      (pages page transferred : ℕ) (target : Buffer ℕ)
      → Stands start (start + count) pages page transferred
      → Ends p memory start count transferred target
          (read_pages p memory start (start + count) pages page transferred target)
  unfolding read_pages Ends copy_page byte_addr
  pages_lem zero page transferred target s =
      let all : transferred ≡ count = omega (arith, s.begun, s.left) in
      (
        transferred,
        omega arith,
        omega (arith, all),
        no_bytes p memory start transferred target,
        inl (all, ap ok all),
      )
  pages_lem (suc pages) page transferred target s =
      elim (Bool-cases (bytes_in_page start (start + count) page == 0)) [
        | inl nothing ↦
            let all : transferred ≡ count =
              ground (arith, bytes, nothing, begun, in_end, s.first) in
            simp nothing (
              transferred,
              omega arith,
              omega (arith, all),
              no_bytes p memory start transferred target,
              inl (all, ap ok all),
            )
        | inr some_bytes ↦
            let short = some_left some_bytes in
            simp some_bytes (elim (Option-cases (get_physical_addr p page)) [
              | inl absent ↦
                  rw (absent, copy_page)
                    (
                      transferred,
                      omega arith,
                      omega (arith, short),
                      no_bytes p memory start transferred target,
                      inr (short, rw (page_here, absent, byte_addr) refl, refl),
                    )
              | inr (phy, here) ↦
                  rw (here, copy_page)
                    (extend phy here _ _ (
                      pages_lem pages (page + page_size)
                        (transferred + bytes_in_page start (start + count) page) _ next))
            ])
      ]
    where
      in_end : page ≤ start + count
      in_end = omega (arith, s.left)

      begun : start + transferred ≡ max start page
      begun = omega (arith, s.begun, in_end)

      bytes :
          bytes_in_page start (start + count) page
          ≡ min (start + count) (page + page_size) - max start page
      bytes = bytes_lem start (start + count) page in_end (omega arith) s.first small

      some_left : (bytes_in_page start (start + count) page == 0) ≡ false → transferred < count
      some_left h = ground (arith, bytes, h, begun, s.first)

      page_here : page_of (start + transferred) ≡ page
      page_here =
          page_of_inside page (start + transferred) s.aligned (omega (arith, begun))
            (omega (arith, begun, s.first))

      next :
          Stands start
            (start + count)
            pages
            (page + page_size)
            (transferred + bytes_in_page start (start + count) page)
      next = record {
        aligned = omega (arith, s.aligned);
        begun = omega (arith, begun, bytes, s.first, in_end);
        left = omega (arith, s.left);
        first = omega (arith, s.first);
      }

      extend :
          (phy : ℕ)
          → get_physical_addr p page ≡ some phy
          → (after : Buffer ℕ) (ret : Ret)
          → Ends p memory start count
              (transferred + bytes_in_page start (start + count) page)
              (memcpy target transferred memory
                (phy + offset_in start page)
                (bytes_in_page start (start + count) page))
              (after, ret)
          → Ends p memory start count transferred target (after, ret)
      extend phy here after ret (n, ge, le, c, how) = (
        n,
        omega (arith, ge),
        le,
        page_then_rest p memory start transferred _ n phy (offset_in start page) page target after
            s.aligned here (begun ∙ sym (offset_lem start page))
            (omega (arith, bytes, offset_lem start page, s.first)) ge c,
        how,
      )

-- A read of memory copies the bytes of the interval, each from the physical address that its page is translated to,
-- up to the first byte whose page is not there, and leaves the rest of the target as it was. It returns the number of bytes, or
-- EFAULT where the first one's page is not there. The interval ends below 2 ^ 63.
pub access_memory_lem :
    (p : Pagemap) (memory : Buffer ℕ) (virt : ℕ) (target : Buffer ℕ) (count : ℕ)
    → virt + count < 2 ^ 63
    → let (after, ret) = access_memory p memory virt target count in
      (n : ℕ) × (n ≤ count)
      × Copied p memory virt 0 n target after
      × (((n ≡ count) × (ret ≡ ok count))
          ⊎ ((n < count) × (byte_addr p (virt + n) ≡ none) × (ret ≡ stopped_at n)))
unfolding access_memory Ends
access_memory_lem p memory virt target count small =
    let (n, ge, le, c, how) =
      pages_lem p memory virt count small _ (page_of virt) 0 target (record {
        aligned = omega arith;
        begun = omega arith;
        left = omega arith;
        first = omega arith;
      }) in
    (n, le, c, how)
