-- ===== src/FrameAlloc/Splitting.antt =====
-- The split loop of `buddy_alloc`: it gives the upper halves of a block back, down to the order
-- asked for.
use munk_os.Bits.{flip, bit_xor-block}
use native.Mathlib.Nat.{mul_comm}
use munk_os.Prelude.{
  ℕ, zero, suc, ◌+◌, ◌*◌, ◌/◌, ◌^◌, ◌≤◌, ◌<◌, ◌≡◌, ◌⊎◌, inl, refl, ap, ◌∙◌, arith, false, List, ◌∷◌,
  mem, update, ok, Outcome,
}
use mathlib.Core.Path.{subst}
use munk_os.Links.{node}
use munk_os.FrameAlloc.{
  Buddy, page2idx, get_buddy, order_status_at, order_flip_at, link_at, split_once, split_down,
}
use munk_os.FrameAlloc.Bitmap.{bitmap_flip}
use munk_os.FrameAlloc.Blocks.{Apart, IsBlock, pow_pos, double, pair_of}
use munk_os.FrameAlloc.Invariant.{IsValid, IsTaken, flip_one, Flipped, IsTaken-nowhere}
use munk_os.FrameAlloc.Totals.{total, total-update}
use munk_os.FrameAlloc.Changes.{Apart-more, Added-taken}

pub page2idx-IsBlock : (b : Buddy) (o x : ℕ) → IsBlock b.pages_count o x → page2idx b x ≡ ok x
unfolding page2idx
page2idx-IsBlock b o x t = ground (arith, t.fits, pow_pos o)

-- The two halves of a taken block.
abbrev pub lower_half :
    (count : ℕ) (c : ℕ → List ℕ) (o x : ℕ) → IsTaken count c (suc o) x → IsTaken count c o x
lower_half count c o x t = record {
  block = record {
    number = 2 * t.block.number;
    starts = omega (arith, t.block.starts, ap (λ (k : ℕ). t.block.number * k) (double o));
    fits = omega (arith, t.block.fits, double o);
  };
  apart = λ p y i. ground (arith, t.apart p y i, double o);
}

abbrev pub upper_half :
    (count : ℕ) (c : ℕ → List ℕ) (o x : ℕ)
    → IsTaken count c (suc o) x
    → IsTaken count c o (x + 2 ^ o)
upper_half count c o x t = record {
  block = record {
    number = 2 * t.block.number + 1;
    starts = omega (arith, t.block.starts, ap (λ (k : ℕ). t.block.number * k) (double o));
    fits = omega (arith, t.block.fits, double o);
  };
  apart = λ p y i. ground (arith, t.apart p y i, double o);
}

pub get_buddy-upper :
    (b : Buddy) (c : ℕ → List ℕ) (o x : ℕ)
    → IsTaken b.pages_count c (suc o) x
    → get_buddy b x o ≡ ok (x + 2 ^ o)
unfolding get_buddy
get_buddy-upper b c o x t =
    let s = lower_half b.pages_count c o x t in
    let u = upper_half b.pages_count c o x t in
    let n = t.block.number in
    let even : flip (2 * n) ≡ 2 * n + 1 = ground arith in
    rw (page2idx-IsBlock b o x s.block, s.block.starts, bit_xor-block, even)
      (ap ok (omega (arith, s.block.starts, u.block.starts)))

-- Counters that the moves of blocks between lists leave alone.
abbrev pub SameCounters : Buddy → Buddy → Type 0
SameCounters b b' =
    (b'.pages_count ≡ b.pages_count)
    × (b'.free ≡ b.free)
    × (b'.allocation_count ≡ b.allocation_count)
    × (b'.deallocation_count ≡ b.deallocation_count)

-- Both halves of a taken block are taken: their bit is not set.
split_status :
    (b : Buddy) (c : ℕ → List ℕ) (o x : ℕ)
    → o < 10
    → IsValid b c
    → IsTaken b.pages_count c (suc o) x
    → order_status_at b (x + 2 ^ o) o ≡ 0
unfolding order_status_at
split_status b c o x low v t =
    let s = lower_half b.pages_count c o x t in
    let u = upper_half b.pages_count c o x t in
    let n = t.block.number in
    let half : (2 * n + 1) / 2 ≡ n = omega arith in
    let out_lo : mem (n * 2 * 2 ^ o) (c o) ≡ false =
      rw (mul_comm n 2, ← s.block.starts) (IsTaken-nowhere b.pages_count c o x s o) in
    let out_hi : mem ((n * 2 + 1) * 2 ^ o) (c o) ≡ false =
      rw (mul_comm n 2, ← u.block.starts) (IsTaken-nowhere b.pages_count c o (x + 2 ^ o) u o) in
    rw (u.block.starts, pair_of o, half, v.bits o n low, out_lo, out_hi) refl

pub split_once-IsValid :
    (b : Buddy) (c : ℕ → List ℕ) (o x : ℕ)
    → o < 10
    → IsValid b c
    → IsTaken b.pages_count c (suc o) x
    → (b' : Buddy) × (split_once b x o ≡ ok b')
      × SameCounters b b'
      × IsValid b' (update c o ((x + 2 ^ o) ∷ c o))
      × IsTaken b.pages_count (update c o ((x + 2 ^ o) ∷ c o)) o x
unfolding split_once link_at order_flip_at
split_once-IsValid b c o x low v t =
    let s = lower_half b.pages_count c o x t in
    let u = upper_half b.pages_count c o x t in
    let e : x / 2 ^ (o + 1) ≡ u.block.number / 2 = rw (s.block.starts, pair_of o) (omega arith) in
    let bm = update b.bitmap o (bitmap_flip (x / 2 ^ (o + 1)) (b.bitmap o)) in
    let f : Flipped o u.block.number b.bitmap bm = rw e (flip_one b.bitmap o u.block.number) in
    let a = Added-taken b bm c o (x + 2 ^ o) v u f in
    (
      record b { links = a.links; list = update b.list o (node (x + 2 ^ o)); bitmap = bm },
      rw
          (
            get_buddy-upper b c o x t,
            page2idx-IsBlock b o (x + 2 ^ o) u.block,
            split_status b c o x low v t,
            a.runs,
            page2idx-IsBlock b o x s.block,
          )
          refl,
      (refl, refl, refl, refl),
      a.valid,
      record {
        block = s.block;
        apart = Apart-more c x (2 ^ o) o (x + 2 ^ o) s.apart (inl (omega arith));
      },
    )

-- The outcome of the split loop, from a block of order `high` at `x` to one of order `order`: the
-- halves given back are free, the others' pages stay as they were, and no page is lost.
pub record Splits (b : Buddy) (c : ℕ → List ℕ) (order high x : ℕ) (r : Outcome Buddy) : Type 0 where
  pub result : Buddy
  pub free : ℕ → List ℕ
  pub runs : r ≡ ok result
  pub counters : SameCounters b result
  pub valid : IsValid result free
  pub taken : IsTaken b.pages_count free order x
  pub spares : (u w : ℕ) → Apart c u w → (u + w ≤ x) ⊎ (x + 2 ^ high ≤ u) → Apart free u w
  pub conserves : total 11 free + 2 ^ order ≡ total 11 c + 2 ^ high

pub split_down-Splits :
    (n order high x : ℕ) (b : Buddy) (c : ℕ → List ℕ)
    → high ≡ order + n
    → high ≤ 10
    → IsValid b c
    → IsTaken b.pages_count c high x
    → Splits b c order high x (split_down n order x b)
unfolding split_down
split_down-Splits zero order high x b c e low v t =
    let i : order ≡ high = omega (arith, e) in
    record {
      result = b;
      free = c;
      runs = refl;
      counters = (refl, refl, refl, refl);
      valid = v;
      taken = rw i t;
      spares = λ u w a s. a;
      conserves = rw i refl;
    }
split_down-Splits (suc n) order high x b c e low v t =
    let o = order + n in
    let i : high ≡ suc o = omega (arith, e) in
    let r = split_once-IsValid b c o x (omega (arith, i)) v (rw (← i) t) in
    let c1 = update c o ((x + 2 ^ o) ∷ c o) in
    let t1 : IsTaken r.0.pages_count c1 o x = rw r.2.0 r.4 in
    let s = split_down-Splits n order o x r.0 c1 refl (omega (arith, i)) r.3 t1 in
    let size : 2 ^ high ≡ 2 * 2 ^ o = rw i (double o) in
    record {
      result = s.result;
      free = s.free;
      runs = rw r.1 s.runs;
      counters =
          (s.counters.0 ∙ r.2.0, s.counters.1 ∙ r.2.1, s.counters.2 ∙ r.2.2, s.counters.3 ∙ r.2.3);
      valid = s.valid;
      taken = subst (λ m. IsTaken m s.free order x) r.2.0 s.taken;
      spares = λ u w a h.
          s.spares u w (Apart-more c u w o (x + 2 ^ o) a (ground (arith, h, size)))
            (ground (arith, h, size));
      conserves =
          omega
            (arith, s.conserves, total-update 11 c o ((x + 2 ^ o) ∷ c o) (omega (arith, i)), size);
    }
