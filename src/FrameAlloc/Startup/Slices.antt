-- ===== src/FrameAlloc/Startup/Slices.antt =====
-- `_slice_range` gives the order of a block that starts at the low end and fits.
use native.Mathlib.Nat.{pow-le-pow_right, mul_assoc}
use munk_os.Prelude.{
  ℕ, zero, suc, ◌+◌, ◌-◌, ◌*◌, ◌/◌, ◌%◌, ◌^◌, ◌≤◌, ◌<◌, ◌≡◌, ap, sym, ◌∙◌, arith, ltb, leb, leb→le,
  ◌==◌, inl, inr, Bool-cases, ==_iff,
}
use mathlib.Core.Path.{subst}
use munk_os.FrameAlloc.Blocks.{pow_pos, double}
use munk_os.FrameAlloc.Startup.{alignment_loop, get_alignment_order, slice_loop, slice_range, min}

-- What the alignment loop finds: from order `o` on, `a` is a multiple of the power it adds.
alignment_loop-divides :
    (n o a : ℕ) → (k : ℕ) × (q : ℕ) × (alignment_loop n o a ≡ o + k) × (a ≡ q * 2 ^ k) × (k ≤ n)
unfolding alignment_loop
alignment_loop-divides zero o a = (0, a, omega arith, omega arith, omega arith)
alignment_loop-divides (suc n) o a = elim (Bool-cases (a % 2 == 0)) [
  | inr e ↦ (0, a, rw e (omega arith), omega arith, omega arith)
  | inl e ↦
      let (k, q, r, d, l) = alignment_loop-divides n (o + 1) (a / 2) in
      (
        suc k,
        q,
        rw e (omega (arith, r)),
        omega (arith, (==_iff (a % 2) 0).0 e, d, ap (λ (t : ℕ). q * t) (double k)),
        omega (arith, l),
      )
]

-- What the size loop finds: the power it adds is at most the size.
slice_loop-fits : (n o s : ℕ) → 0 < s → (k : ℕ) × (slice_loop n o s ≡ o + k) × (2 ^ k ≤ s) × (k ≤ n)
unfolding slice_loop
slice_loop-fits zero o s h = (0, omega arith, omega arith, omega arith)
slice_loop-fits (suc n) o s h = elim (Bool-cases (s / 2 == 0)) [
  | inl e ↦ (0, rw e (omega arith), omega arith, omega arith)
  | inr e ↦
      let (k, r, f, l) = slice_loop-fits n (o + 1) (s / 2) (ground (arith, e)) in
      (suc k, rw e (omega (arith, r)), omega (arith, f, double k), omega (arith, l))
]

-- The order of a slice: the block starts at the low page, and ends by the high one.
pub record IsSlice (p e o : ℕ) : Type 0 where
  pub small : o ≤ 10
  pub number : ℕ
  pub starts : p ≡ number * 2 ^ o
  pub fits : p + 2 ^ o ≤ e

power-le : (k a : ℕ) → 2 ^ k ≤ 2 ^ a → k ≤ a
power-le k a h = elim (Bool-cases (leb k a)) [
  | inl e ↦ leb→le k a e
  | inr e ↦
      let above : suc a ≤ k = ground (arith, e) in
      let more : 2 ^ suc a ≤ 2 ^ k = pow-le-pow_right (omega arith) above in
      absurd (omega (arith, more, double a, pow_pos a, h))
]

pow-add : (d k : ℕ) → 2 ^ (d + k) ≡ 2 ^ d * 2 ^ k
pow-add d zero = let e : d + 0 ≡ d = omega arith in rw e (omega arith)
pow-add d (suc k) =
    let e : d + suc k ≡ suc (d + k) = omega arith in
    rw e (omega (arith, double (d + k), ap (λ (t : ℕ). 2 ^ d * t) (double k), pow-add d k))

split_power : (q k a p : ℕ) → k ≤ a → p ≡ q * 2 ^ a → p ≡ q * 2 ^ (a - k) * 2 ^ k
split_power q k a p l e =
    let i : a ≡ a - k + k = omega (arith, l) in
    e
    ∙ ap (λ (t : ℕ). q * t) (ap (λ (t : ℕ). 2 ^ t) i ∙ pow-add (a - k) k)
    ∙ sym (mul_assoc q (2 ^ (a - k)) (2 ^ k))

none_before : (k : ℕ) → 0 + k ≡ k
none_before k = omega arith

slice_size :
    (p e w : ℕ)
    → p < e
    → e * 4096 < 2 ^ 63
    → 0 < w
    → w ≤ 1024
    → (s : ℕ) × ((min (e * 4096) ((p * 4096 + w * 4096) % 2 ^ 64) + 2 ^ 64 - p * 4096)
          % 2 ^ 64
          / 4096
        ≡ s)
      × (0 < s)
      × (s ≤ w)
      × (p + s ≤ e)
slice_size p e w l h pos small =
    let limit : (p * 4096 + w * 4096) % 2 ^ 64 ≡ (p + w) * 4096 = omega arith in
    elim (Bool-cases (ltb (e * 4096) ((p + w) * 4096))) [
      | inl b ↦ (
        e - p,
        rw (limit, b) (omega (arith, l, h)),
        omega (arith, l),
        ground (arith, b),
        omega (arith, l),
      )
      | inr b ↦ (w, rw (limit, b) (omega (arith, small, h, l)), pos, omega arith, ground (arith, b))
    ]

pub slice_range-IsSlice :
    (p e : ℕ) → p < e → e * 4096 < 2 ^ 63 → IsSlice p e (slice_range (p * 4096) (e * 4096))
unfolding slice_range get_alignment_order
slice_range-IsSlice p e l h =
    let page : p * 4096 / 4096 ≡ p = omega arith in
    let (a, q, al, d, la) = alignment_loop-divides 10 0 p in
    let width : 2 ^ a ≤ 1024 = pow-le-pow_right {n = 2} (omega arith) la in
    let (s, si, pos, sw, se) = slice_size p e (2 ^ a) l h (pow_pos a) width in
    let (k, ki, kf, kl) = slice_loop-fits 10 0 s pos in
    let ka = power-le k a (omega (arith, kf, sw)) in
    let low : alignment_loop 10 0 (p * 4096 / 4096) ≡ a =
      ap (alignment_loop 10 0) page ∙ al ∙ none_before a in
    let order =
      ap
        (λ w. slice_loop 10 0 (
          (min (e * 4096) ((p * 4096 + 2 ^ w * 4096) % 2 ^ 64) + 2 ^ 64 - p * 4096)
          % 2 ^ 64
          / 4096))
        low
      ∙ ap (slice_loop 10 0) si
      ∙ ki
      ∙ none_before k in
    subst (IsSlice p e) (sym order) (record {
      small = kl;
      number = q * 2 ^ (a - k);
      starts = split_power q k a p ka d;
      fits = omega (arith, kf, se);
    })
