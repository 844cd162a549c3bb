-- ===== src/FrameAlloc/Blocks.antt =====
-- Blocks of pages: block `q` of order `o` is the 2 ^ o pages from page q * 2 ^ o on. What the
-- freelists hold is a list of first pages for each order.
use native.Mathlib.Nat.{pow-suc, one-le-pow, eq_of_mul-eq-mul_right, mul-div-mul_left, mul_comm}
use native.Mathlib.Numerals.{add-one}
use munk_os.Prelude.{
  ℕ, suc, ◌+◌, ◌-◌, ◌*◌, ◌/◌, ◌^◌, ◌≤◌, ◌<◌, ◌≡◌, ◌⊎◌, inl, inr, arith, Bool, true, false, ◌||◌,
  List, mem, ◌==◌, ==_iff, Bool-cases, if◌then◌else◌,
}

-- The pages from `u` on, `w` of them, are in no free block.
abbrev pub Apart : (ℕ → List ℕ) → ℕ → ℕ → Type 0
Apart c u w = (p y : ℕ) → mem y (c p) ≡ true → (u + w ≤ y) ⊎ (y + 2 ^ p ≤ u)

-- `x` is the first page of block `q` of order `o` in a table of `count` pages.
pub record IsBlock (count o x : ℕ) : Type 0 where
  pub number : ℕ
  pub starts : x ≡ number * 2 ^ o
  pub fits : x + 2 ^ o ≤ count

pub pow_pos : (o : ℕ) → 0 < 2 ^ o
pow_pos o = one-le-pow o 2 (omega arith)

pub double : (o : ℕ) → 2 ^ suc o ≡ 2 * 2 ^ o
double o = omega (arith, pow-suc 2 o)

-- The pair of a block: `(q << o) >> (o + 1)`.
pub pair_of : (o q : ℕ) → q * 2 ^ o / 2 ^ (o + 1) ≡ q / 2
pair_of o q = rw (add-one, pow-suc, mul_comm q (2 ^ o)) (mul-div-mul_left q 2 (pow_pos o))

pub ==-mul : (z a b : ℕ) → 0 < z → (a * z == b * z) ≡ (a == b)
==-mul z a b h = elim (Bool-cases (a == b)) [
  | inl e ↦ rw ((==_iff a b).0 e) (ground arith)
  | inr e ↦ ground (arith, eq_of_mul-eq-mul_right z h a b)
]

abbrev pub parity : Bool → Bool → ℕ
parity a b = if a then (if b then 0 else 1) else if b then 1 else 0

-- Whether exactly one block of pair `n` is in a list.
abbrev pub pair_bit : ℕ → ℕ → List ℕ → ℕ
pair_bit z n xs = parity (mem (n * 2 * z) xs) (mem ((n * 2 + 1) * z) xs)

-- `big` holds what `small` holds, and `x` besides.
pub record OneMore (x : ℕ) (small big : List ℕ) : Type 0 where
  pub more : (a : ℕ) → mem a big ≡ ((a == x) || mem a small)
  pub new : mem x small ≡ false

gone :
    (z q k : ℕ) (small : List ℕ)
    → mem (q * z) small ≡ false
    → (k == q) ≡ true
    → mem (k * z) small ≡ false
gone z q k small new e = rw ((==_iff k q).0 e) new

-- One block more or less turns the bit of its pair, and no other.
pub pair_bit-OneMore :
    (z q n : ℕ) (small big : List ℕ)
    → 0 < z
    → OneMore (q * z) small big
    → pair_bit z n big ≡ (if n == q / 2 then 1 - pair_bit z n small else pair_bit z n small)
pair_bit-OneMore z q n small big h m =
    rw
      (m.more (n * 2 * z), m.more ((n * 2 + 1) * z), ==-mul z (n * 2) q h, ==-mul z (n * 2 + 1) q h)
      (ground (arith, gone z q (n * 2) small m.new, gone z q (n * 2 + 1) small m.new))
