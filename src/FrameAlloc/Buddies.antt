-- ===== src/FrameAlloc/Buddies.antt =====
-- Pairs of buddies: what `get_buddy` and the bit of a pair say about a taken block, and the block
-- that the two make together.
use munk_os.Bits.{flip, bit_xor-block}
use munk_os.Prelude.{
  ℕ, suc, ◌+◌, ◌-◌, ◌*◌, ◌/◌, ◌%◌, ◌^◌, ◌≤◌, ◌<◌, ◌≡◌, ◌⊎◌, inl, inr, refl, ap, ◌∙◌, arith, true,
  false, Bool-cases, List, mem, ◌==◌, ltb, if◌then◌else◌, ok, bit_xor,
}
use munk_os.Links.Edits
use munk_os.FrameAlloc.{Buddy, get_buddy, order_status_at, order_flip_at}
use munk_os.FrameAlloc.Bitmap.Laws.{bitmap_status-bitmap_flip}
use munk_os.FrameAlloc.Blocks.{IsBlock, pow_pos, double, pair_of, pair_bit}
use munk_os.FrameAlloc.Invariant.{IsValid, IsTaken, IsTaken-nowhere}
use munk_os.FrameAlloc.Splitting.{page2idx-IsBlock}

-- The buddy of block `q`.
abbrev pub buddy_of : ℕ → ℕ → ℕ
buddy_of o q = flip q * 2 ^ o

pub flip_pair : (q : ℕ) → flip q / 2 ≡ q / 2
flip_pair q = ground arith

pub get_buddy-IsBlock :
    (b : Buddy) (o x : ℕ) (t : IsBlock b.pages_count o x)
    → get_buddy b x o ≡ ok (buddy_of o t.number)
unfolding get_buddy
get_buddy-IsBlock b o x t =
    rw (page2idx-IsBlock b o x t)
      (ap ok (ap (λ y. bit_xor y (2 ^ o)) t.starts ∙ bit_xor-block o t.number))

-- The first block of pair `m` and the second, in either order.
pub data Pair (o m x y : ℕ) : Type 0 where
  first : x ≡ m * 2 * 2 ^ o → y ≡ (m * 2 + 1) * 2 ^ o → Pair o m x y
  second : x ≡ (m * 2 + 1) * 2 ^ o → y ≡ m * 2 * 2 ^ o → Pair o m x y

pub Pair-buddy : (o q x : ℕ) → x ≡ q * 2 ^ o → Pair o (q / 2) x (buddy_of o q)
Pair-buddy o q x e = elim (Bool-cases (q % 2 == 0)) [
  | inl h ↦
      let even : q ≡ q / 2 * 2 = ground (arith, h) in
      first (e ∙ ap (λ k. k * 2 ^ o) even) (rw h (ap (λ k. (k + 1) * 2 ^ o) even))
  | inr h ↦
      let odd : q ≡ q / 2 * 2 + 1 = ground (arith, h) in
      let less : q - 1 ≡ q / 2 * 2 = omega (arith, odd) in
      second (e ∙ ap (λ k. k * 2 ^ o) odd) (rw h (ap (λ k. k * 2 ^ o) less))
]

-- If one block of a pair is not free, the bit says whether the other is.
pair_bit-Pair :
    (o m x y : ℕ) (xs : List ℕ)
    → Pair o m x y
    → mem x xs ≡ false
    → pair_bit (2 ^ o) m xs ≡ (if mem y xs then 1 else 0)
pair_bit-Pair o m x y xs (first e f) out = rw (f, ← e, out) refl
pair_bit-Pair o m x y xs (second e f) out = rw (f, ← e, out) refl

-- After the flip at a taken block, its bit is clear just when its buddy is free.
pub flipped_status :
    (b : Buddy) (c : ℕ → List ℕ) (o x : ℕ)
    → o < 10
    → IsValid b c
    → (t : IsTaken b.pages_count c o x)
    → order_status_at (order_flip_at b x o) x o
      ≡ (if mem (buddy_of o t.block.number) (c o) then 0 else 1)
unfolding order_status_at order_flip_at
flipped_status b c o x low v t =
    let q = t.block.number in
    let i : x / 2 ^ (o + 1) ≡ q / 2 = ap (λ y. y / 2 ^ (o + 1)) t.block.starts ∙ pair_of o q in
    let p =
      pair_bit-Pair o (q / 2) x (buddy_of o q) (c o) (Pair-buddy o q x t.block.starts)
        (IsTaken-nowhere b.pages_count c o x t o) in
    rw
      (
        i,
        Edits.==_refl o,
        bitmap_status-bitmap_flip,
        Edits.==_refl (q / 2),
        v.bits o (q / 2) low,
        p,
      )
      (ground arith)

together :
    (count : ℕ) (c : ℕ → List ℕ) (o m x : ℕ)
    → x ≡ m * 2 * 2 ^ o
    → IsTaken count c o x
    → IsTaken count c o (x + 2 ^ o)
    → IsTaken count c (suc o) x
together count c o m x e s t = record {
  block = record {
    number = m;
    starts = omega (arith, e, ap (λ (k : ℕ). m * k) (double o));
    fits = omega (arith, t.block.fits, double o);
  };
  apart = λ p z i. ground (arith, s.apart p z i, t.apart p z i, double o, pow_pos p, pow_pos o);
}

-- Two buddies without a free page make a taken block of the next order.
pub IsTaken-Pair :
    (count : ℕ) (c : ℕ → List ℕ) (o m x y : ℕ)
    → Pair o m x y
    → IsTaken count c o x
    → IsTaken count c o y
    → IsTaken count c (suc o) (if ltb x y then x else y)
IsTaken-Pair count c o m x y (first e f) s t =
    let next : y ≡ x + 2 ^ o = omega (arith, e, f) in
    let less : ltb x y ≡ true = ground (arith, next, pow_pos o) in
    rw less (together count c o m x e s (rw (← next) t))
IsTaken-Pair count c o m x y (second e f) s t =
    let next : x ≡ y + 2 ^ o = omega (arith, e, f) in
    let more : ltb x y ≡ false = ground (arith, next, pow_pos o) in
    rw more (together count c o m y f t (rw (← next) s))

-- Pages apart from both buddies are apart from the two together.
pub apart-Pair :
    (o m x y u w : ℕ)
    → Pair o m x y
    → 0 < w
    → (u + w ≤ x) ⊎ (x + 2 ^ o ≤ u)
    → (u + w ≤ y) ⊎ (y + 2 ^ o ≤ u)
    → (u + w ≤ (if ltb x y then x else y)) ⊎ ((if ltb x y then x else y) + 2 ^ suc o ≤ u)
apart-Pair o m x y u w (first e f) h i j =
    let next : y ≡ x + 2 ^ o = omega (arith, e, f) in
    ground (arith, next, double o, i, j, h, pow_pos o)
apart-Pair o m x y u w (second e f) h i j =
    let next : x ≡ y + 2 ^ o = omega (arith, e, f) in
    ground (arith, next, double o, i, j, h, pow_pos o)
