-- ===== src/FrameAlloc/Bitmap/Laws.antt =====
-- What `_bitmap_flip` does to what `_bitmap_status` reads.
use munk_os.Bits.{digit, digit-eq, bit_and-digit, digit-bit_xor}
use munk_os.Prelude.{
  ℕ, zero, suc, ◌-◌, ◌/◌, ◌%◌, ◌^◌, ◌<◌, ◌≡◌, inl, inr, arith, bit_xor, ◌==◌, ==_iff, Bool-cases,
  if◌then◌else◌, ◌∙◌,
}
use munk_os.FrameAlloc.Bitmap.{bitmap_flip, bitmap_status}

pub status-digit :
    (n : ℕ) (bitmap : ℕ → ℕ) → bitmap_status n bitmap ≡ digit (n % 8) (bitmap (n / 8))
unfolding bitmap_status
status-digit n bitmap = bit_and-digit (n % 8) (bitmap (n / 8))

-- Storing a byte keeps its eight digits.
digit-byte : (j x : ℕ) → j < 8 → digit j (x % 2 ^ 8) ≡ digit j x
digit-byte zero x h = omega arith
digit-byte (suc zero) x h = omega arith
digit-byte (suc (suc zero)) x h = omega arith
digit-byte (suc (suc (suc zero))) x h = omega arith
digit-byte (suc (suc (suc (suc zero)))) x h = omega arith
digit-byte (suc (suc (suc (suc (suc zero))))) x h = omega arith
digit-byte (suc (suc (suc (suc (suc (suc zero)))))) x h = omega arith
digit-byte (suc (suc (suc (suc (suc (suc (suc zero))))))) x h = omega arith
digit-byte (suc (suc (suc (suc (suc (suc (suc (suc j)))))))) x h = absurd (omega arith)

same_byte :
    (m n x : ℕ)
    → m / 8 ≡ n / 8
    → digit (m % 8) (bit_xor x (2 ^ (n % 8)) % 2 ^ 8)
      ≡ (if m == n then 1 - digit (m % 8) x else digit (m % 8) x)
same_byte m n x e =
    digit-byte (m % 8) (bit_xor x (2 ^ (n % 8))) (omega arith)
    ∙ ground (arith, digit-bit_xor (n % 8) (m % 8) x)

-- Flipping bit `n` of a bitmap inverts that bit and no other.
pub bitmap_status-bitmap_flip :
    (m n : ℕ) (bitmap : ℕ → ℕ)
    → bitmap_status m (bitmap_flip n bitmap)
      ≡ (if m == n then 1 - bitmap_status m bitmap else bitmap_status m bitmap)
unfolding bitmap_flip
bitmap_status-bitmap_flip m n bitmap = elim (Bool-cases (m / 8 == n / 8)) [
  | inl e ↦
      let h = (==_iff (m / 8) (n / 8)).0 e in
      rw (status-digit m (bitmap_flip n bitmap), e, status-digit m bitmap, h)
        (same_byte m n (bitmap (n / 8)) h)
  | inr e ↦ rw (status-digit m (bitmap_flip n bitmap), e) (ground (arith, status-digit m bitmap))
]

pub bitmap_status-lt : (n : ℕ) (bitmap : ℕ → ℕ) → bitmap_status n bitmap < 2
bitmap_status-lt n bitmap = rw (status-digit n bitmap, digit-eq) (omega arith)
