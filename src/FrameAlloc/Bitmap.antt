-- ===== src/FrameAlloc/Bitmap.antt =====
-- The bitmaps of kernel/src/mm/frame_alloc.c: a bit for each pair of buddies, eight to a byte.
pub mod Laws
use munk_os.Prelude.{ℕ, ◌/◌, ◌%◌, ◌^◌, bit_and, bit_xor, update}

-- `_bitmap_flip`
unfoldable pub bitmap_flip : ℕ → (ℕ → ℕ) → ℕ → ℕ
bitmap_flip n bitmap = update bitmap (n / 8) (bit_xor (bitmap (n / 8)) (2 ^ (n % 8)) % 2 ^ 8)

-- `_bitmap_status`
unfoldable pub bitmap_status : ℕ → (ℕ → ℕ) → ℕ
bitmap_status n bitmap = bit_and (bitmap (n / 8)) (2 ^ (n % 8)) / 2 ^ (n % 8)
