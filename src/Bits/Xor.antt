-- ===== src/Bits/Xor.antt =====
-- `x ^ (1 << k)` as arithmetic.
use Prim.Native.Nat.{digits, differ, bit_xor-bitwise}
use native.Mathlib.Nat.{pow-suc, mul-one}
use munk_os.Bits.Digit.{digit}
use munk_os.Prelude.{
  ℕ, zero, suc, ◌+◌, ◌-◌, ◌*◌, ◌/◌, ◌%◌, ◌^◌, ◌≤◌, ◌<◌, ◌≡◌, refl, bit_xor, arith, ◌==◌,
  if◌then◌else◌, ap, sym, ◌∙◌,
}

-- What the native operations stand for: `f` on the digits, lowest first, and `z` of what is left
-- of the second number once the first has run out. Any fuel that is at least the first number gives
-- the same result.
module _ (z : ℕ → ℕ) (f : ℕ → ℕ → ℕ) where
  digits-zero : (n b : ℕ) → digits z f n 0 b ≡ z b
  digits-zero zero b = refl
  digits-zero (suc n) b = refl

  pub digits-fuel : (n a b m : ℕ) → a ≤ n → a ≤ m → digits z f n a b ≡ digits z f m a b
  digits-fuel n zero b m p q = digits-zero n b ∙ sym (digits-zero m b)
  digits-fuel zero (suc a) b m p q = absurd (omega arith)
  digits-fuel (suc n) (suc a) b zero p q = absurd (omega arith)
  digits-fuel (suc n) (suc a) b (suc m) p q =
      let half = digits-fuel n (suc a / 2) (b / 2) m (omega arith) (omega arith) in
      omega (arith, half)

-- One binary digit at a time.
xor_step : (a b : ℕ) → bit_xor a b ≡ bit_xor (a / 2) (b / 2) * 2 + differ (a % 2) (b % 2)
xor_step zero b = omega (arith, bit_xor-bitwise 0 b, bit_xor-bitwise 0 (b / 2))
xor_step (suc a) b = omega (
  arith,
  bit_xor-bitwise (suc a) b,
  bit_xor-bitwise (suc a / 2) (b / 2),
  digits-fuel (λ y. y) differ a (suc a / 2) (b / 2) (suc a / 2) (omega arith) (omega arith),
)

differ-zero : (x : ℕ) → differ x 0 ≡ x
differ-zero zero = refl
differ-zero (suc x) = refl

differ-one : (x : ℕ) → x < 2 → differ x 1 ≡ 1 - x
differ-one zero h = refl
differ-one (suc zero) h = refl
differ-one (suc (suc x)) h = absurd (omega arith)

xor-zero : (n a : ℕ) → a ≤ n → bit_xor a 0 ≡ a
xor-zero n zero h = refl
xor-zero zero (suc a) h = absurd (omega arith)
xor-zero (suc n) (suc a) h =
    omega (arith, xor_step (suc a) 0, differ-zero (suc a % 2), xor-zero n (suc a / 2) (omega arith))

-- The number with bit `k` flipped, by the number of that bit's block.
abbrev pub flip : ℕ → ℕ
flip q = if q % 2 == 0 then q + 1 else q - 1

xor-one : (a : ℕ) → bit_xor a 1 ≡ flip a
xor-one a = ground (arith, xor_step a 1, differ-one (a % 2), xor-zero a (a / 2))

xor_step_pow : (k a : ℕ) → bit_xor a (2 ^ suc k) ≡ bit_xor (a / 2) (2 ^ k) * 2 + a % 2
xor_step_pow k a =
    let h : 2 ^ k * 2 / 2 ≡ 2 ^ k = omega arith in
    let r : 2 ^ k * 2 % 2 ≡ 0 = omega arith in
    rw (pow-suc 2 k) (rw (h, r, differ-zero) at (xor_step a (2 ^ k * 2)))

-- `x ^ (1 << k)` for a multiple of `1 << k` goes to the neighbouring multiple.
pub bit_xor-block : (k q : ℕ) → bit_xor (q * 2 ^ k) (2 ^ k) ≡ flip q * 2 ^ k
bit_xor-block zero q = simp mul-one (xor-one q)
bit_xor-block (suc k) q =
    let e : q * 2 ^ suc k ≡ q * 2 ^ k * 2 = omega (arith, ap (λ (t : ℕ). q * t) (pow-suc 2 k)) in
    let h : q * 2 ^ suc k / 2 ≡ q * 2 ^ k = omega (arith, e) in
    xor_step_pow k (q * 2 ^ suc k)
    ∙ rw h (omega (arith, e, bit_xor-block k q, ap (λ (t : ℕ). flip q * t) (pow-suc 2 k)))

pub digit-bit_xor :
    (k j a : ℕ) → digit j (bit_xor a (2 ^ k)) ≡ (if j == k then 1 - digit j a else digit j a)
digit-bit_xor zero zero a = ground (arith, xor-one a)
digit-bit_xor zero (suc j) a =
    let e : bit_xor a 1 / 2 ≡ a / 2 = ground (arith, xor-one a) in rw e (ground arith)
digit-bit_xor (suc k) zero a = ground (arith, xor_step_pow k a)
digit-bit_xor (suc k) (suc j) a =
    let e : bit_xor a (2 ^ suc k) / 2 ≡ bit_xor (a / 2) (2 ^ k) = omega (arith, xor_step_pow k a) in
    rw e (ground (arith, digit-bit_xor k j (a / 2)))
