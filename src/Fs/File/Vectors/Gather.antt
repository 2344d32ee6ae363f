-- ===== src/Fs/File/Vectors/Gather.antt =====
-- A vectored write to a file of tmpfs is one write of all the bytes in a row.
use saba_os.Base.{
  ℕ, zero, suc, ◌+◌, ◌-◌, ◌^◌, ◌≤◌, ◌<◌, ◌≡◌, ◌⊎◌, refl, subst, sym, ◌∙◌, ap, ap₂, inl, inr, false,
  ◌&&◌, ltb, leb, ◌==◌, List, [], ◌∷◌, ◌++◌, if◌then◌else◌, max, ok, err, Ret, Buffer, cells,
  cells_ext, cells-add, add64, get_or, Bool-cases, arith,
}
use saba_os.Fs.Tmpfs.{Node, write}
use saba_os.Fs.Tmpfs.Content.{IsValid, Written, write_lem}
use saba_os.Fs.File.{tmpfs}
use saba_os.Fs.File.Stream.{content}
use saba_os.Fs.File.Vectors.{Iovec, after_write, writev_loop, writev}

-- The bytes of the vectors in a row, and how many they are.
unfoldable pub gathered : List Iovec → List ℕ
gathered [] = []
gathered (v ∷ vs) = cells v.iov_base 0 v.iov_len ++ gathered vs

unfoldable pub total : List Iovec → ℕ
total [] = 0
total (v ∷ vs) = v.iov_len + total vs

-- `n'` is `n` with the bytes of the vectors from `offset` on.
pub record Wrote (n : Node) (vs : List Iovec) (offset : ℕ) (n' : Node) : Type 0 where
  pub valid : IsValid n'
  pub size : n'.size ≡ (if total vs == 0 then n.size else max n.size (offset + total vs))
  pub holds : cells n'.storage offset (total vs) ≡ gathered vs
  pub kept :
      (i : ℕ) → i < n.size → (i < offset) ⊎ (offset + total vs ≤ i) → n'.storage i ≡ n.storage i

module _ (junk : Buffer ℕ) where
  -- A first write and the writes of the other vectors behind it.
  Wrote-after :
      (n n1 n' : Node) (v : Iovec) (vs : List Iovec) (offset : ℕ)
      → 0 < v.iov_len
      → Written n v.iov_base v.iov_len offset n1
      → Wrote n1 vs (offset + v.iov_len) n'
      → Wrote n (v ∷ vs) offset n'
  unfolding total gathered
  Wrote-after n n1 n' v vs offset pos w r = record {
    valid = r.valid;
    size = ground (arith, w.size, r.size, pos);
    holds =
        cells-add n'.storage offset v.iov_len (total vs)
        ∙ ap₂ ◌++◌
            (cells_ext n'.storage v.iov_base offset 0 v.iov_len λ i lt.
              let z : 0 + i ≡ i = omega arith in
              rw z (
                r.kept (offset + i) (omega (arith, w.size, lt)) (inl (omega (arith, lt)))
                ∙ w.holds i lt))
            r.holds;
    kept = λ i lt out. elim out [
      | inl low ↦
          r.kept i (omega (arith, w.size, lt)) (inl (omega (arith, low))) ∙ w.kept i lt (inl low)
      | inr high ↦
          r.kept i (omega (arith, w.size, lt)) (inr (omega (arith, high)))
          ∙ w.kept i lt (inr (omega (arith, high)))
    ];
  }

  -- An empty vector writes nothing.
  Wrote-empty :
      (n n' : Node) (v : Iovec) (vs : List Iovec) (offset : ℕ)
      → v.iov_len ≡ 0
      → Wrote n vs offset n'
      → Wrote n (v ∷ vs) offset n'
  unfolding total gathered cells
  Wrote-empty n n' v vs offset e r =
      let none_more : v.iov_len + total vs ≡ total vs = omega (arith, e) in
      record {
        valid = r.valid;
        size = simp none_more r.size;
        holds = simp none_more (r.holds ∙ ap (λ k. cells v.iov_base 0 k ++ gathered vs) (sym e));
        kept = λ i lt out. r.kept i lt (ground (arith, out, e));
      }

  run_write :
      (continue : Node → ℕ → ℕ → Node × Ret) (v : Iovec) (offset transferred : ℕ)
      (done : Node × Ret)
      → done.1 ≡ ok v.iov_len
      → after_write (tmpfs junk) continue v offset transferred done
        ≡ continue done.0 (add64 offset v.iov_len) (add64 transferred v.iov_len)
  unfolding after_write
  run_write continue v offset transferred (n, ok k) e =
      let same : k ≡ v.iov_len = ap (λ r. elim r as (λ _. ℕ) [ ok m ↦ m | err x ↦ 0 ]) e in
      let whole : ltb k v.iov_len ≡ false = ground (arith, same) in
      rw whole (ap (λ m. continue n (add64 offset m) (add64 transferred m)) same)
  run_write continue v offset transferred (n, err x) e = absurd (ground (arith, e))

  writev_loop_lem :
      (n : Node) (vs : List Iovec) (offset transferred : ℕ)
      → IsValid n
      → offset + total vs ≤ 2 ^ 62
      → transferred + total vs < 2 ^ 64
      → let (n', r) = writev_loop (tmpfs junk) vs n offset transferred in
        (r ≡ ok (transferred + total vs)) × Wrote n vs offset n'
  unfolding writev_loop tmpfs total gathered cells
  writev_loop_lem n [] offset transferred v small few = (
    ap ok (omega arith),
    record { valid = v; size = refl; holds = refl; kept = λ i lt out. refl },
  )
  writev_loop_lem n (x ∷ xs) offset transferred v small few = elim (Bool-cases (x.iov_len == 0)) [
    | inl e ↦
        let nothing : x.iov_len ≡ 0 = ground (arith, e) in
        let (r, w) =
          writev_loop_lem n xs offset transferred v (omega (arith, small)) (omega (arith, few)) in
        simp e (r ∙ ap ok (omega (arith, nothing)), Wrote-empty n _ x xs offset nothing w)
    | inr e ↦
        let pos : 0 < x.iov_len = ground (arith, e) in
        let (wrote, w) =
          write_lem junk n x.iov_base x.iov_len offset v pos (omega (arith, small)) in
        let n1 = (write junk n x.iov_base x.iov_len offset).0 in
        let at : add64 offset x.iov_len ≡ offset + x.iov_len = omega (arith, small) in
        let more : add64 transferred x.iov_len ≡ transferred + x.iov_len = omega (arith, few) in
        let (r, rest) =
          writev_loop_lem n1 xs (offset + x.iov_len) (transferred + x.iov_len) w.valid
            (omega (arith, small)) (omega (arith, few)) in
        let run =
          run_write (λ s o m. writev_loop (tmpfs junk) xs s o m) x offset transferred
            (write junk n x.iov_base x.iov_len offset) wrote in
        let both = run ∙ ap₂ (λ o m. writev_loop (tmpfs junk) xs n1 o m) at more in
        simp e (
          subst
            (λ d. (d.1 ≡ ok (transferred + (x.iov_len + total xs))) × Wrote n (x ∷ xs) offset d.0)
            (sym both) (r ∙ ap ok (omega arith), Wrote-after n n1 _ x xs offset pos w rest))
  ]

get_or-cells : (b : Buffer ℕ) (at n j : ℕ) → j < n → get_or (cells b at n) j 0 ≡ b (at + j)
unfolding cells
get_or-cells b at zero j h = absurd (omega (arith, h))
get_or-cells b at (suc n) zero h = ap b (omega arith)
get_or-cells b at (suc n) (suc j) h =
    get_or-cells b (at + 1) n j (omega (arith, h)) ∙ ap b (omega arith)

-- The vectors' bytes as one buffer.
abbrev pub joined : List Iovec → Buffer ℕ
joined vs i = get_or (gathered vs) i 0

-- What the two writes leave at one index.
same_byte :
    (n n1 n2 : Node) (vs : List Iovec) (offset i : ℕ)
    → offset ≤ n.size
    → Wrote n vs offset n1
    → Written n (joined vs) (total vs) offset n2
    → i < max n.size (offset + total vs)
    → n1.storage i ≡ n2.storage i
same_byte n n1 n2 vs offset i low w1 w2 lt =
    elim (Bool-cases (leb offset i && ltb i (offset + total vs))) [
      | inl e ↦
          let j : offset + (i - offset) ≡ i = ground (arith, e) in
          let few : i - offset < total vs = ground (arith, e) in
          let one =
            sym (get_or-cells n1.storage offset (total vs) (i - offset) few)
            ∙ ap (λ xs. get_or xs (i - offset) 0) w1.holds in
          ap n1.storage (sym j) ∙ one ∙ sym (w2.holds (i - offset) few) ∙ ap n2.storage j
      | inr e ↦
          let old : i < n.size = ground (arith, e, lt, low) in
          let out : (i < offset) ⊎ (offset + total vs ≤ i) = ground (arith, e) in
          w1.kept i old out ∙ sym (w2.kept i old out)
    ]

-- A vectored write of at least one byte to a valid file of tmpfs, from a place in the file or at its end on,
-- that ends at or before 2 ^ 62, gives the same result and leaves the same content as one write of the
-- bytes of all vectors in a row.
pub writev_equals_write :
    (junk : Buffer ℕ) (n : Node) (vs : List Iovec) (offset : ℕ)
    → IsValid n
    → offset ≤ n.size
    → 0 < total vs
    → offset + total vs ≤ 2 ^ 62
    → let (n1, r1) = writev (tmpfs junk) n vs offset in
      let (n2, r2) = write junk n (joined vs) (total vs) offset in
      (r1 ≡ r2) × (content n1 ≡ content n2)
unfolding writev content
writev_equals_write junk n vs offset v low pos small =
    let (r1, w1) = writev_loop_lem junk n vs offset 0 v small (omega (arith, small)) in
    let (r2, w2) = write_lem junk n (joined vs) (total vs) offset v pos small in
    let n1 = (writev_loop (tmpfs junk) vs n offset 0).0 in
    let n2 = (write junk n (joined vs) (total vs) offset).0 in
    let size : n1.size ≡ n2.size = ground (arith, w1.size, w2.size, pos) in
    let byte : (i : ℕ) → i < n1.size → n1.storage (0 + i) ≡ n2.storage (0 + i) = λ i lt.
      let z : 0 + i ≡ i = omega arith in
      rw z (same_byte n n1 n2 vs offset i low w1 w2 (ground (arith, w1.size, pos, lt))) in
    (
      r1 ∙ ap ok (omega arith) ∙ sym r2,
      cells_ext n1.storage n2.storage 0 0 n1.size byte ∙ ap (λ k. cells n2.storage 0 k) size,
    )
