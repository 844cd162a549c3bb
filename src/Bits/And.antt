-- ===== src/Bits/And.antt =====
-- `x & (1 << k)` as arithmetic.
use Prim.Native.Nat.{min, bit_and-bitwise}
use native.Mathlib.Nat.{pow-suc, mul-div_cancel, one-le-pow}
use munk_os.Bits.Digit.{digit}
use munk_os.Bits.Xor.{digits-fuel}
use munk_os.Prelude.{ℕ, zero, suc, ◌+◌, ◌*◌, ◌/◌, ◌%◌, ◌^◌, ◌≤◌, ◌≡◌, refl, bit_and, arith, ap}

and_step : (a b : ℕ) → bit_and a b ≡ bit_and (a / 2) (b / 2) * 2 + min (a % 2) (b % 2)
and_step zero b = omega (arith, bit_and-bitwise 0 b, bit_and-bitwise 0 (b / 2))
and_step (suc a) b = omega (
  arith,
  bit_and-bitwise (suc a) b,
  bit_and-bitwise (suc a / 2) (b / 2),
  digits-fuel (λ y. 0) min a (suc a / 2) (b / 2) (suc a / 2) (omega arith) (omega arith),
)

and-zero : (n a : ℕ) → a ≤ n → bit_and a 0 ≡ 0
and-zero n zero h = refl
and-zero zero (suc a) h = absurd (omega arith)
and-zero (suc n) (suc a) h = omega (arith, and_step (suc a) 0, and-zero n (suc a / 2) (omega arith))

and_step_pow : (k a : ℕ) → bit_and a (2 ^ suc k) ≡ bit_and (a / 2) (2 ^ k) * 2
and_step_pow k a =
    let h : 2 ^ k * 2 / 2 ≡ 2 ^ k = omega arith in
    let e : bit_and a (2 ^ k * 2) ≡ bit_and (a / 2) (2 ^ k) * 2 + min (a % 2) (2 ^ k * 2 % 2) =
      rw h at (and_step a (2 ^ k * 2)) in
    rw (pow-suc 2 k) (omega (arith, e))

-- `x & (1 << k)` keeps digit `k` in its place.
bit_and-pow : (k a : ℕ) → bit_and a (2 ^ k) ≡ digit k a * 2 ^ k
bit_and-pow zero a = omega (arith, and_step a 1, and-zero (a / 2) (a / 2) (omega arith))
bit_and-pow (suc k) a = omega (
  arith,
  and_step_pow k a,
  bit_and-pow k (a / 2),
  ap (λ (t : ℕ). digit k (a / 2) * t) (pow-suc 2 k),
)

-- `(x & (1 << k)) >> k` is digit `k`.
pub bit_and-digit : (k a : ℕ) → bit_and a (2 ^ k) / 2 ^ k ≡ digit k a
bit_and-digit k a = rw (bit_and-pow k a) (mul-div_cancel (digit k a) (one-le-pow k 2 (omega arith)))
