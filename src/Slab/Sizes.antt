-- ===== src/Slab/Sizes.antt =====
-- `_size2block` of kernel/src/mm/slab.c, and the cache that `kmalloc` takes an object from.
use munk_os.Prelude.{
  ℕ, zero, suc, ◌+◌, ◌-◌, ◌*◌, ◌/◌, ◌^◌, ◌<◌, ◌≤◌, ◌≡◌, ap, ◌∙◌, arith, true, false, Bool-cases,
  inl, inr, Outcome, ok, ◌==◌,
}
use munk_os.FrameAlloc.Blocks.{double, pow_pos}
use munk_os.Slab.Caches.{blocks, size2block}

-- The loop stops at the position of the highest bit.
record Highest (order s : ℕ) (r : Outcome ℕ) : Type 0 where
  k : ℕ
  runs : r ≡ ok (order + k)
  below : s < 2 ^ suc k
  least : 0 < k → 2 ^ k ≤ s

blocks_stop : (fuel order s : ℕ) → (s / 2 == 0) ≡ true → blocks (suc fuel) order s ≡ ok order
unfolding blocks
blocks_stop fuel order s e = rw e

blocks_go :
    (fuel order s : ℕ)
    → (s / 2 == 0) ≡ false
    → blocks (suc fuel) order s ≡ blocks fuel (order + 1) (s / 2)
unfolding blocks
blocks_go fuel order s e = rw e

blocks-Highest : (fuel order s : ℕ) → s < 2 ^ fuel → Highest order s (blocks (suc fuel) order s)
blocks-Highest zero order s h = record {
  k = 0;
  runs = blocks_stop 0 order s (ground (arith, h)) ∙ ap ok (omega arith);
  below = omega (arith, h);
  least = λ p. absurd (omega arith);
}
blocks-Highest (suc fuel) order s h = elim (Bool-cases (s / 2 == 0)) [
  | inl e ↦ record {
    k = 0;
    runs = blocks_stop (suc fuel) order s e ∙ ap ok (omega arith);
    below = ground (arith, e);
    least = λ p. absurd (omega arith);
  }
  | inr e ↦
      let r = blocks-Highest fuel (order + 1) (s / 2) (omega (arith, h, double fuel)) in
      let big : 0 < s / 2 = ground (arith, e) in
      record {
        k = suc r.k;
        runs = blocks_go (suc fuel) order s e ∙ r.runs ∙ ap ok (omega arith);
        below = omega (arith, r.below, double (suc r.k));
        least = λ p. next_least r.k s big r.least;
      }
]
  where
    next_least : (k s : ℕ) → 0 < s / 2 → (0 < k → 2 ^ k ≤ s / 2) → 2 ^ suc k ≤ s
    next_least zero s b h = omega arith
    next_least (suc k) s b h = omega (arith, double (suc k), h (omega arith))

-- The smallest of the sizes 16, 32, 64, ... that holds `size` bytes.
pub record Fits (size : ℕ) (r : Outcome ℕ) : Type 0 where
  pub index : ℕ
  pub runs : r ≡ ok index
  pub holds : size ≤ 16 * 2 ^ index
  pub smallest : 0 < index → 16 * 2 ^ (index - 1) < size

-- For every size of 64 bits but 0, `_size2block` returns the index of the smallest block that holds
-- the size, where block `i` has 16 * 2 ^ i bytes.
pub size2block-Fits : (size : ℕ) → 0 < size → size < 2 ^ 64 → Fits size (size2block size)
unfolding size2block
size2block-Fits size pos h =
    let s = (size - 1) / 2 ^ 3 in
    let r = blocks-Highest 64 0 s (omega arith) in
    let some_bytes : (size == 0) ≡ false = ground (arith, pos) in
    record {
      index = r.k;
      runs = rw some_bytes (r.runs ∙ ap ok (omega arith));
      holds = omega (arith, r.below, double r.k);
      smallest = λ p. smallest_block r.k size p (r.least p);
    }
  where
    smallest_block : (k size : ℕ) → 0 < k → 2 ^ k ≤ (size - 1) / 2 ^ 3 → 16 * 2 ^ (k - 1) < size
    smallest_block zero size p l = absurd (omega arith)
    smallest_block (suc k) size p l =
        let e : suc k - 1 ≡ k = omega arith in rw e (omega (arith, l, double k, pow_pos k))
