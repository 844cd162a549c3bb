-- ===== src/Bits/Digit.antt =====
-- The binary digits of a number.
use native.Mathlib.Nat.{pow-succ', div-div-eq-div-mul}
use munk_os.Prelude.{ℕ, zero, suc, ◌/◌, ◌%◌, ◌^◌, ◌≡◌, arith, ◌∙◌}

-- Digit `k`.
abbrev pub digit : ℕ → ℕ → ℕ
digit zero a = a % 2
digit (suc k) a = digit k (a / 2)

pub digit-eq : (k a : ℕ) → digit k a ≡ a / 2 ^ k % 2
digit-eq zero a = omega arith
digit-eq (suc k) a = digit-eq k (a / 2) ∙ rw (div-div-eq-div-mul, pow-succ')
