-- ===== src/FrameAlloc/Orders.antt =====
-- `size2order` and `psize2order` of kernel/include/frame_alloc.h, whose loops run on fuel for the 64
-- bits of a size.
use native.Mathlib.Nat.{div-div-eq-div-mul, le-div_iff_mul-le, div-lt_iff_lt-mul}
use munk_os.Prelude.{
  ℕ, zero, suc, ◌+◌, ◌-◌, ◌/◌, ◌^◌, ◌<◌, ◌≤◌, ◌≡◌, ap, sym, ◌∙◌, arith, false, ltb, Bool-cases, inl,
  inr, if◌then◌else◌, Outcome, ok, out_of_fuel,
}
use munk_os.FrameAlloc.Blocks.{double, pow_pos}

-- The loop halves the size until it is at most `limit`.
unfoldable pub halving : ℕ → ℕ → ℕ → ℕ → Outcome ℕ
halving zero limit order size = out_of_fuel
halving (suc fuel) limit order size =
    let rest = halving fuel limit (order + 1) (size / 2) in
    if ltb limit size then rest else ok order

unfoldable pub size2order : ℕ → Outcome ℕ
size2order size = halving 65 1 0 size

unfoldable pub psize2order : ℕ → Outcome ℕ
psize2order size = halving 65 4096 0 size

halve : (k a : ℕ) → a / 2 / 2 ^ k ≡ a / 2 ^ suc k
halve k a = div-div-eq-div-mul a 2 (2 ^ k) ∙ ap (λ (t : ℕ). a / t) (sym (double k))

last_half :
    (limit size k : ℕ)
    → limit < size
    → (0 < k → limit < size / 2 / 2 ^ (k - 1))
    → limit < size / 2 ^ (suc k - 1)
last_half limit size zero e down =
    let same : size / 2 ^ (suc 0 - 1) ≡ size = omega arith in rw same e
last_half limit size (suc k) e down =
    let same : suc (suc k) - 1 ≡ suc k = omega arith in
    let before : suc k - 1 ≡ k = omega arith in
    let d : limit < size / 2 / 2 ^ (suc k - 1) = down (omega arith) in
    let e' : size / 2 ^ (suc (suc k) - 1) ≡ size / 2 / 2 ^ k =
      ap (λ (t : ℕ). size / 2 ^ t) same ∙ sym (halve k size) in
    rw e' (rw before at d)

halving-runs :
    (fuel limit order size : ℕ)
    → 0 < limit
    → size < 2 ^ fuel
    → (k : ℕ) × (halving (suc fuel) limit order size ≡ ok (order + k))
      × (size / 2 ^ k ≤ limit)
      × (0 < k → limit < size / 2 ^ (k - 1))
unfolding halving
halving-runs zero limit order size l h =
    let small : ltb limit size ≡ false = ground (arith, l, h) in
    (0, rw small (ap ok (omega arith)), omega (arith, l, h), λ p. absurd (omega arith))
halving-runs (suc fuel) limit order size l h = elim (Bool-cases (ltb limit size)) [
  | inr e ↦ (0, rw e (ap ok (omega arith)), ground (arith, e), λ p. absurd (omega arith))
  | inl e ↦
      let (k, runs, up, down) =
        halving-runs fuel limit (order + 1) (size / 2) l (omega (arith, h, double fuel)) in
      (
        suc k,
        rw e (runs ∙ ap ok (omega arith)),
        rw (← halve k size) up,
        λ p. last_half limit size k (ground (arith, e)) down,
      )
]

-- `psize2order` returns for every 64-bit size the least order such that the size, halved that often
-- and rounded down each time, is at most a page.
pub psize2order-halves :
    (size : ℕ)
    → size < 2 ^ 64
    → (k : ℕ) × (psize2order size ≡ ok k)
      × (size / 2 ^ k ≤ 4096)
      × (0 < k → 4096 < size / 2 ^ (k - 1))
unfolding psize2order
psize2order-halves size h =
    let (k, runs, up, down) = halving-runs 64 4096 0 size (omega arith) h in
    (k, runs ∙ ap ok (omega arith), up, down)

at_least : (k size : ℕ) → 0 < size → (0 < k → 1 < size / 2 ^ (k - 1)) → 2 ^ k ≤ size
at_least zero size pos down = omega (arith, pos)
at_least (suc k) size pos down =
    let before : suc k - 1 ≡ k = omega arith in
    let d : 1 < size / 2 ^ (suc k - 1) = down (omega arith) in
    let two : 2 ≤ size / 2 ^ k = rw before at d in
    omega (arith, double k, (le-div_iff_mul-le (pow_pos k)).0 two)

below_next : (k size : ℕ) → size / 2 ^ k ≤ 1 → size < 2 ^ suc k
below_next k size up =
    let two : size / 2 ^ k < 2 = omega (arith, up) in
    omega (arith, double k, (div-lt_iff_lt-mul (pow_pos k)).0 two)

-- `size2order` returns for every 64-bit size from 1 on the order of the largest power of
-- two that is not above it.
pub size2order-floor :
    (size : ℕ)
    → 0 < size
    → size < 2 ^ 64
    → (k : ℕ) × (size2order size ≡ ok k) × (2 ^ k ≤ size) × (size < 2 ^ suc k)
unfolding size2order
size2order-floor size pos h =
    let (k, runs, up, down) = halving-runs 64 1 0 size (omega arith) h in
    (k, runs ∙ ap ok (omega arith), at_least k size pos down, below_next k size up)
