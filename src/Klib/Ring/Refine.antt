-- ===== src/Klib/Ring/Refine.antt =====
-- A valid ring holds a bounded queue: what each operation does to the cells in order.
use native.Mathlib.Nat.{mod-lt}
use saba_os.Base.{
  ℕ, ◌+◌, ◌%◌, ◌≤◌, ◌<◌, ◌≡◌, ◌∙◌, sym, ap, ap₂, refl, min, ltb, if◌then◌else◌, List, Bool-cases,
  inl, inr, ltb→lt, ◌++◌, arith, add64, sub64, Buffer, cells, cells_ext, cells-add,
}
use saba_os.Klib.Ring.{Ring, data_count, free_count, read, write, truncate, write_truncate}
use saba_os.Klib.Ring.Inv.{IsValid, place, place-add64, data-add-free}

module _ {T : Type 0} (size : ℕ) where
  -- The cell that is `i` places behind the oldest one.
  pub elem : Ring T → ℕ → T
  elem r i = r.store ((r.read_index + i) % size)

  -- The cells held, oldest first.
  pub contents : Ring T → List T
  contents r = cells (elem r) 0 (data_count size r)

-- Cells leave at the front.
contents-advance :
    {T : Type 0} {size : ℕ} {r : Ring T} (n : ℕ)
    → IsValid size r
    → n ≤ data_count size r
    → let r' = record r { read_index = add64 r.read_index n } in
      IsValid size r' × (contents size r ≡ cells (elem size r) 0 n ++ contents size r')
unfolding contents data_count elem
contents-advance {size = size} {r = r} n v le = (
  record {
    nonzero = v.nonzero;
    divides = v.divides;
    small = v.small;
    read_in = omega arith;
    write_in = v.write_in;
    fits = omega (arith, v.fits, v.read_in, v.write_in);
  },
  rw counts (cells-add (elem size r) 0 n left ∙ ap (λ l. cells (elem size r) 0 n ++ l) moved),
)
  where
    left : ℕ
    left = sub64 r.write_index (add64 r.read_index n)

    counts : sub64 r.write_index r.read_index ≡ n + left
    counts = omega (arith, v.read_in, v.write_in)

    moved :
        cells (elem size r) (0 + n) left
        ≡ cells (elem size (record r { read_index = add64 r.read_index n })) 0 left
    moved = cells_ext _ _ (0 + n) 0 left λ i lt. ap r.store (
        ap (λ k. (r.read_index + k) % size) (omega arith)
        ∙ sym (place-add64 size r.read_index n (0 + i) v.divides))

-- The write index stands behind the cells held.
write_place :
    {T : Type 0} {size : ℕ} {r : Ring T}
    → IsValid size r
    → r.write_index % size ≡ (r.read_index + data_count size r) % size
unfolding data_count
write_place {size = size} {r = r} v =
    ap (λ k. k % size) (omega (arith, v.read_in, v.write_in))
    ∙ place-add64 size r.read_index (sub64 r.write_index r.read_index) 0 v.divides
    ∙ ap (λ k. k % size) (omega arith)

module _ {T : Type 0} {size : ℕ} {r : Ring T} (v : IsValid size r) (b : Buffer T) (n : ℕ) where
  read_count : (read size r b n).2 ≡ min n (data_count size r)
  unfolding read
  read_count = ground arith

  read_cell : (i : ℕ) → i < (read size r b n).2 → (read size r b n).1 i ≡ elem size r i
  unfolding read elem
  read_cell i lt =
      ground (arith, place size r.read_index i v.nonzero, mod-lt r.read_index v.nonzero, v.fits)

  write_count : (write size r b n).1 ≡ min n (free_count size r)
  unfolding write
  write_count = ground arith

  read_rest : (i : ℕ) → (read size r b n).2 ≤ i → (read size r b n).1 i ≡ b i
  unfolding read
  read_rest i le = ground arith

  read_state :
      (read size r b n).0 ≡ record r { read_index = add64 r.read_index (read size r b n).2 }
  unfolding read
  read_state = ground (arith, v.read_in)

  -- A cell held keeps its place in a write.
  write_old : (i : ℕ) → i < data_count size r → elem size (write size r b n).0 i ≡ elem size r i
  unfolding write elem
  write_old i lt = ground (
    arith,
    place size r.read_index i v.nonzero,
    place size r.read_index (data_count size r) v.nonzero,
    write_place v,
    mod-lt r.read_index v.nonzero,
    data-add-free v,
  )

  write_new :
      (i : ℕ)
      → i < (write size r b n).1
      → elem size (write size r b n).0 (data_count size r + i) ≡ b i
  unfolding write elem
  write_new i lt = ground (
    arith,
    place size r.read_index (data_count size r + i) v.nonzero,
    place size r.read_index (data_count size r) v.nonzero,
    write_place v,
    mod-lt r.read_index v.nonzero,
    data-add-free v,
  )

  write_state :
      ((write size r b n).0.read_index ≡ r.read_index)
      × ((write size r b n).0.write_index ≡ add64 r.write_index (write size r b n).1)
  unfolding write
  write_state = (ground arith, ground arith)

  write_grown : data_count size (write size r b n).0 ≡ data_count size r + (write size r b n).1
  unfolding data_count
  write_grown = omega (
    arith,
    write_state.0,
    write_state.1,
    write_count,
    data-add-free v,
    v.read_in,
    v.write_in,
    v.small,
  )

-- `read` takes the oldest cells, as many as are asked for and held, into the buffer, in order, leaves
-- the buffer alone behind them, and leaves a valid ring with the rest.
pub read_refines :
    {T : Type 0} {size : ℕ} {r : Ring T} (v : IsValid size r) (b : Buffer T) (n : ℕ)
    → let (r', b', k) = read size r b n in
      IsValid size r'
      × (contents size r ≡ cells b' 0 k ++ contents size r')
      × (k ≡ min n (data_count size r))
      × ((i : ℕ) → k ≤ i → b' i ≡ b i)
read_refines {size = size} {r = r} v b n =
    let k = (read size r b n).2 in
    let (valid, split) = contents-advance k v (omega (arith, read_count v b n)) in
    let same = read_state v b n in
    let got : cells (elem size r) 0 k ≡ cells (read size r b n).1 0 k =
      cells_ext _ _ 0 0 k (λ i lt. sym (read_cell v b n (0 + i) (omega arith))) in
    (
      rw same valid,
      rw same (
          split
          ∙ ap (λ l. l ++ contents size (record r { read_index = add64 r.read_index k })) got),
      read_count v b n,
      read_rest v b n,
    )

-- `write` appends the first cells of the buffer, as many as are given and have room, and keeps the
-- invariant.
pub write_refines :
    {T : Type 0} {size : ℕ} {r : Ring T} (v : IsValid size r) (b : Buffer T) (n : ℕ)
    → let (r', k) = write size r b n in
      IsValid size r'
      × (contents size r' ≡ contents size r ++ cells b 0 k)
      × (k ≡ min n (free_count size r))
unfolding contents
write_refines {T} {size = size} {r = r} v b n = (
  record {
    nonzero = v.nonzero;
    divides = v.divides;
    small = v.small;
    read_in = omega (arith, state.0, v.read_in);
    write_in = omega (arith, state.1);
    fits = unfold data_count in omega (arith, grown, room);
  },
  rw grown (cells-add (elem size r') 0 held k ∙ ap₂ ◌++◌ old new),
  write_count v b n,
)
  where
    r' : Ring T
    r' = (write size r b n).0

    k : ℕ
    k = (write size r b n).1

    held : ℕ
    held = data_count size r

    state : (r'.read_index ≡ r.read_index) × (r'.write_index ≡ add64 r.write_index k)
    state = write_state v b n

    room : held + k ≤ size
    room = omega (arith, write_count v b n, data-add-free v)

    grown : data_count size r' ≡ held + k
    grown = write_grown v b n

    old : cells (elem size r') 0 held ≡ cells (elem size r) 0 held
    old = cells_ext _ _ 0 0 held (λ i lt. write_old v b n (0 + i) (omega arith))

    new : cells (elem size r') (0 + held) k ≡ cells b 0 k
    new =
        cells_ext _ _ (0 + held) 0 k
          λ i lt. ap (elem size r') (omega arith) ∙ write_new v b n i lt ∙ ap b (omega arith)

pub truncate_refines :
    {T : Type 0} {size : ℕ} {r : Ring T} (v : IsValid size r) (n : ℕ)
    → let (r', k) = truncate size r n in
      IsValid size r'
      × (contents size r ≡ cells (elem size r) 0 k ++ contents size r')
      × (k ≡ min n (data_count size r))
unfolding truncate
truncate_refines {size = size} {r = r} v n =
    let (valid, split) = contents-advance (min n (data_count size r)) v (omega arith) in
    (valid, split, refl)

truncate_count :
    {T : Type 0} {size : ℕ} {r : Ring T} (v : IsValid size r) (n : ℕ)
    → data_count size (truncate size r n).0 + (truncate size r n).1 ≡ data_count size r
unfolding truncate data_count
truncate_count v n = omega (arith, v.read_in, v.write_in)

-- `write_truncate` of no more than the capacity takes every cell that it is given; where there is too
-- little room it first drops as many of the oldest cells as it is given.
pub write_truncate_refines :
    {T : Type 0} {size : ℕ} {r : Ring T} (v : IsValid size r) (b : Buffer T) (n : ℕ)
    → n ≤ size
    → let (r', k) = write_truncate size r b n in
      IsValid size r'
      × (k ≡ n)
      × ((kept : List T) × (contents size r
            ≡ cells
                (elem size r)
                0
                (if ltb (free_count size r) n then min n (data_count size r) else 0)
              ++ kept)
          × (contents size r' ≡ kept ++ cells b 0 n))
unfolding write_truncate
write_truncate_refines {size = size} {r = r} v b n le =
    elim (Bool-cases (ltb (free_count size r) n)) [
      | inl short ↦
          let t = (truncate size r n).0 in
          let (tv, split, dropped) = truncate_refines v n in
          let (wv, grown, wrote) = write_refines tv b n in
          let all : (write size t b n).1 ≡ n = omega (
            arith,
            wrote,
            dropped,
            ltb→lt _ _ short,
            data-add-free v,
            data-add-free tv,
            truncate_count v n,
          ) in
          rw short (
            wv,
            all,
            (
              contents size t,
              split ∙ ap (λ d. cells (elem size r) 0 d ++ contents size t) dropped,
              grown ∙ ap (λ m. contents size t ++ cells b 0 m) all,
            ),
          )
      | inr roomy ↦
          let (wv, grown, wrote) = write_refines v b n in
          let all : (write size r b n).1 ≡ n = ground (arith, wrote) in
          rw roomy (
            wv,
            all,
            (
              contents size r,
              unfold cells in refl,
              grown ∙ ap (λ m. contents size r ++ cells b 0 m) all,
            ),
          )
    ]
