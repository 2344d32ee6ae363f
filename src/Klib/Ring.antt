-- ===== src/Klib/Ring.antt =====
-- klib/ring_buffer.hpp: `RingBuffer<T, size>`. The two indices count cells ever read and written and
-- run on modulo 2 ^ 64; only `index % size` is used to reach the storage.
pub mod Inv
pub mod Refine
use saba_os.Base.{
  ℕ, ◌+◌, ◌-◌, ◌%◌, ◌≡◌, Bool, min, ltb, ◌==◌, if◌then◌else◌, add64, sub64, Buffer, memcpy,
}

pub record Ring {ℓ} (T : Type ℓ) : Type ℓ where
  pub read_index : ℕ
  pub write_index : ℕ
  pub store : Buffer T

module _ {ℓ} {T : Type ℓ} (size : ℕ) where
  unfoldable pub data_count : Ring T → ℕ
  data_count r = sub64 r.write_index r.read_index

  unfoldable pub free_count : Ring T → ℕ
  unfolding data_count
  free_count r = sub64 size (data_count r)

  unfoldable pub is_empty : Ring T → Bool
  unfolding data_count
  is_empty r = data_count r == 0

  unfoldable pub is_full : Ring T → Bool
  unfolding data_count
  is_full r = data_count r == size

  -- The new ring, the caller's buffer after the copies, and the count returned.
  unfoldable pub read : Ring T → Buffer T → ℕ → Ring T × Buffer T × ℕ
  unfolding data_count
  read r buffer asked =
      let count = min asked (data_count r) in
      let first_pass_offset = r.read_index % size in
      let first_pass_remaining = size - first_pass_offset in
      let first_pass_count = min count first_pass_remaining in
      let buffer' = memcpy buffer 0 r.store first_pass_offset first_pass_count in
      let buffer'' =
        if ltb first_pass_count count
        then memcpy buffer' first_pass_count r.store 0 (count - first_pass_count)
        else buffer' in
      if count == 0
      then (r, buffer, 0)
      else (record r { read_index = add64 r.read_index count }, buffer'', count)

  unfoldable pub write : Ring T → Buffer T → ℕ → Ring T × ℕ
  unfolding free_count
  write r buffer asked =
      let count = min asked (free_count r) in
      let first_pass_offset = r.write_index % size in
      let first_pass_remaining = size - first_pass_offset in
      let first_pass_count = min count first_pass_remaining in
      let store' = memcpy r.store first_pass_offset buffer 0 first_pass_count in
      let store'' =
        if ltb first_pass_count count
        then memcpy store' 0 buffer first_pass_count (count - first_pass_count)
        else store' in
      (record r { write_index = add64 r.write_index count; store = store'' }, count)

  unfoldable pub truncate : Ring T → ℕ → Ring T × ℕ
  unfolding data_count
  truncate r asked =
      let count = min asked (data_count r) in
      (record r { read_index = add64 r.read_index count }, count)

  unfoldable pub write_truncate : Ring T → Buffer T → ℕ → Ring T × ℕ
  write_truncate r buffer count =
      if ltb (free_count r) count
      then write (truncate r count).0 buffer count
      else write r buffer count

  unfoldable pub peek : Ring T → Buffer T → Buffer T × ℕ
  unfolding is_empty
  peek r buffer =
      if is_empty r then (buffer, 0) else (memcpy buffer 0 r.store (r.read_index % size) 1, 1)
