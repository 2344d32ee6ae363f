-- ===== src/Fs/File/Stream.antt =====
-- What writing with O_APPEND and reading through a description do to a file of tmpfs.
use saba_os.Base.{
  ℕ, ◌+◌, ◌-◌, ◌^◌, ◌≡◌, ◌≤◌, ◌<◌, refl, ◌∙◌, ap₂, inl, inr, true, ltb, List, ◌++◌, ok, Buffer,
  cells, cells_ext, cells-add, add64, min, leb, leb→le, Bool-cases, arith,
}
use saba_os.Fs.Tmpfs.{Node, seek}
use saba_os.Fs.Tmpfs.Content.{IsValid, Written, write_lem, read_lem, read_past}
use saba_os.Fs.File.{File, tmpfs, advance, move_to, seek_to_end_if_append, write_file, read_file}

-- The bytes of a file.
unfoldable pub content : Node → List ℕ
content n = cells n.storage 0 n.size

-- A write at the end of a file appends.
Written-content :
    (n : Node) (buf : Buffer ℕ) (count : ℕ) (n' : Node)
    → Written n buf count n.size n'
    → content n' ≡ content n ++ cells buf 0 count
unfolding content
Written-content n buf count n' w =
    let size : n'.size ≡ n.size + count = omega (arith, w.size) in
    rw size (
      cells-add n'.storage 0 n.size count
      ∙ ap₂ ◌++◌
          (cells_ext n'.storage n.storage 0 0 n.size
            (λ i lt. let z : 0 + i ≡ i = omega arith in rw z (w.kept i lt (inl lt))))
          (cells_ext n'.storage buf (0 + n.size) 0 count (λ i lt.
            let z : 0 + i ≡ i = omega arith in
            let z' : 0 + n.size + i ≡ n.size + i = omega arith in rw (z, z') (w.holds i lt))))

-- A write of at least one byte through a description with O_APPEND, to a file that ends at or before
-- 2 ^ 62 afterwards, takes all bytes and puts them after the old content, wherever the cursor was; the
-- cursor is then at the new end.
pub write_file_appends :
    (junk : Buffer ℕ) (d : File Node) (buf : Buffer ℕ) (count : ℕ)
    → IsValid d.vnode
    → d.flags.append ≡ true
    → 0 < count
    → d.vnode.size + count ≤ 2 ^ 62
    → let (d', r) = write_file (tmpfs junk) d buf count in
      (r ≡ ok count)
      × (content d'.vnode ≡ content d.vnode ++ cells buf 0 count)
      × (d'.cursor ≡ d'.vnode.size)
      × IsValid d'.vnode
unfolding write_file seek_to_end_if_append tmpfs move_to advance seek
write_file_appends junk d buf count v append pos small =
    let w = write_lem junk d.vnode buf count d.vnode.size v pos small in
    let end : add64 d.vnode.size 0 ≡ d.vnode.size = omega arith in
    let near : ltb d.vnode.size (2 ^ 63) ≡ true = ground (arith, v.small) in
    simp (append, end, near) simp (w.0)
      (refl, Written-content d.vnode buf count _ w.1, omega (arith, w.1.size), w.1.valid)

-- A read of less than 2 ^ 62 bytes of a file of at most that size, through a description with its cursor
-- below 2 ^ 63, takes the bytes of the file from the cursor on,
-- as many as asked for or as there are, moves the cursor past exactly these and leaves the file alone;
-- with the cursor at the end or past it, it takes none.
pub read_file_lem :
    (junk : Buffer ℕ) (d : File Node) (buf : Buffer ℕ) (count : ℕ)
    → IsValid d.vnode
    → count < 2 ^ 62
    → d.cursor < 2 ^ 63
    → let (d', r, buf') = read_file (tmpfs junk) d buf count in
      let k = min count (d.vnode.size - d.cursor) in
      (r ≡ ok k)
      × (cells buf' 0 k ≡ cells d.vnode.storage d.cursor k)
      × (d'.cursor ≡ d.cursor + k)
      × (d'.vnode ≡ d.vnode)
unfolding read_file tmpfs advance cells
read_file_lem junk d buf count v few low = elim (Bool-cases (leb d.vnode.size d.cursor)) [
  | inl past ↦
      let none : min count (d.vnode.size - d.cursor) ≡ 0 = ground (arith, past) in
      rw none simp (read_past d.vnode buf count d.cursor v (leb→le d.vnode.size d.cursor past))
        (refl, refl, omega (arith, low), refl)
  | inr inside ↦
      let w = read_lem d.vnode buf count d.cursor v few (ground (arith, inside)) in
      (w.0, w.1, rw w.0 (omega (arith, low, v.small)), rw w.0 refl)
]
