-- ===== src/Bits.antt =====
-- Single bits of numbers: `^` and `&` with a power of two, at every position, as the bitmaps and the
-- buddy addresses of kernel/src/mm/frame_alloc.c use them.
mod Digit
mod Xor
mod And
pub use Digit.{digit, digit-eq}
pub use Xor.{flip, bit_xor-block, digit-bit_xor}
pub use And.{bit_and-digit}
