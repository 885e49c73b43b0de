-- ===== src/Alloc/Align.antt =====
-- `size_align` and the frame size of `kumalloc`.
use comp304_assignments.Prelude.{ℕ, ◌+◌, ◌%◌, ◌^◌, ◌≤◌, ◌<◌, ◌≡◌, arith}
use comp304_assignments.Alloc.Fields.{size_align}
use comp304_assignments.Alloc.Malloc.{frame_capacity}

-- `size_align` rounds up to the next multiple of 8, where adding 7 does not wrap.
pub size_align_bounds :
    (n : ℕ) → n + 7 < 2 ^ 64 → (n ≤ size_align n) × (size_align n < n + 8) × (size_align n % 8 ≡ 0)
unfolding size_align
size_align_bounds n h = omega arith

-- A frame is a positive multiple of 8192 bytes, holds the block, and exceeds it by 8192 bytes at
-- most, for blocks below 2^64 - 8192 bytes.
pub frame_capacity_bounds :
    (n : ℕ)
    → n + 8192 < 2 ^ 64
    → (n ≤ frame_capacity n)
      × (0 < frame_capacity n)
      × (frame_capacity n ≤ n + 8192)
      × (frame_capacity n % 8192 ≡ 0)
unfolding frame_capacity
frame_capacity_bounds n h = ground arith
