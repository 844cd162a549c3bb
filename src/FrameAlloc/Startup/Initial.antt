-- ===== src/FrameAlloc/Startup/Initial.antt =====
-- `buddy_init` makes a valid state of the usable memory.
use native.Mathlib.Nat.{le-mul_of_pos_right, mul_comm}
use munk_os.Prelude.{
  ℕ, zero, suc, ◌+◌, ◌*◌, ◌/◌, ◌^◌, ◌≤◌, ◌<◌, ◌≡◌, refl, ap, ◌∙◌, arith, Bool, false, ltb,
  if◌then◌else◌, inl, inr, List, [], ◌∷◌, Outcome, ok, mem, ◌==◌, ==_iff, Bool-cases, length,
}
use munk_os.Links.{null}
use munk_os.FrameAlloc.{Buddy}
use munk_os.FrameAlloc.Bitmap.{bitmap_status}
use munk_os.FrameAlloc.Blocks.{Apart, pow_pos}
use munk_os.FrameAlloc.Totals.{total}
use munk_os.FrameAlloc.Invariant.{IsValid, AreBits}
use munk_os.FrameAlloc.Splitting.{SameCounters}
use munk_os.FrameAlloc.Startup.{Region, buddy_init}
use munk_os.FrameAlloc.Startup.Memory.{
  AreRegions, no_more, usable, skipped, usable_pages, Outside, free_regions-Filled,
}
use munk_os.FrameAlloc.Startup.Bits.{IsDone, flip_orders-Walked}

-- Cleared bitmaps and empty lists.
pub record IsCleared (b : Buddy) : Type 0 where
  pub no_block : (o : ℕ) → b.list o ≡ null
  pub no_bit : (o n : ℕ) → bitmap_status n (b.bitmap o) ≡ 0

length-le-total : (n : ℕ) (c : ℕ → List ℕ) (o : ℕ) → o < n → length (c o) ≤ total n c
length-le-total zero c o l = absurd (omega arith)
length-le-total (suc n) c o l = elim (Bool-cases (o == n)) [
  | inl e ↦
      let i = (==_iff o n).0 e in
      rw i (
        omega
          (arith, mul_comm (length (c n)) (2 ^ n), le-mul_of_pos_right (length (c n)) (pow_pos n)))
  | inr e ↦ omega (arith, length-le-total n c o (ground (arith, e)))
]

usable_pages-le :
    (count f : ℕ) (regions : List Region)
    → AreRegions count f regions
    → f ≤ count
    → usable_pages regions + f ≤ count
usable_pages-le count f [] no_more h = omega arith
usable_pages-le count f (r ∷ regions) (skipped unused a) h =
    omega (
      arith,
      usable_pages-le count f regions a h,
      ap (λ k. if k then r.length / 4096 else 0) unused,
    )
usable_pages-le count f (r ∷ regions) (usable p e here s l fp pe ec low a) h = omega (
  arith,
  usable_pages-le count e regions a ec,
  ap (λ k. if k then r.length / 4096 else 0) here,
  s,
  l,
  fp,
  pe,
)

empty-IsValid : (b : Buddy) → IsCleared b → IsValid b (λ o. [])
empty-IsValid b v = record {
  lists = record {
    tail = λ o. null;
    each = λ o. (v.no_block o, refl);
    disjoint = λ o p ne a i. ground arith;
  };
  inside = λ o x i. absurd (ground arith);
  separate = λ o p x y i j. absurd (ground arith);
  bits = λ o n l. v.no_bit o n;
}

in_range : (o : ℕ) (x : Bool) → o < 10 → (if ltb o 11 then x else false) ≡ x
in_range o x l = ground arith

AreBits-IsDone : (bm : ℕ → ℕ → ℕ) (c d : ℕ → List ℕ) → IsDone 11 c d → AreBits bm d → AreBits bm c
AreBits-IsDone bm c d s a o n l =
    let low = s o (n * 2 * 2 ^ o) ∙ in_range (o) (mem (n * 2 * 2 ^ o) (c o)) l in
    let high = s o ((n * 2 + 1) * 2 ^ o) ∙ in_range o (mem ((n * 2 + 1) * 2 ^ o) (c o)) l in
    a o n l ∙ rw (low, high) refl

-- The outcome of `buddy_init`.
pub record Initialised (b : Buddy) (regions : List Region) (r : Outcome Buddy) : Type 0 where
  pub result : Buddy
  pub free : ℕ → List ℕ
  pub runs : r ≡ ok result
  pub valid : IsValid result free
  pub counters : SameCounters b result
  pub spares : (u w : ℕ) → Outside u w regions → Apart free u w
  pub conserves : total 11 free ≡ usable_pages regions

-- Started with cleared bitmaps and empty lists, on a memory map whose usable entries are whole pages
-- of the table in ascending order, and end below 2 ^ 63 bytes, `buddy_init` (with fuel for the pages) neither panics nor faults.
-- The state is valid, exactly as many pages are free as the usable entries have, and no page outside
-- them is in a free block.
pub buddy_init-Initialised :
    (fuel : ℕ) (regions : List Region) (b : Buddy)
    → b.pages_count < fuel
    → AreRegions b.pages_count 0 regions
    → IsCleared b
    → Initialised b regions (buddy_init fuel regions b)
unfolding buddy_init
buddy_init-Initialised fuel regions b f a v =
    let m =
      free_regions-Filled fuel 0 regions b b.bitmap (λ o. []) f a (empty-IsValid b v)
        (λ u w l p y i. absurd (ground arith)) in
    let none_lost : total 11 m.free ≡ usable_pages regions = omega (arith, m.conserves) in
    let short : (o : ℕ) → o < 11 → length (m.free o) < fuel = λ o l. omega (
      arith,
      length-le-total 11 m.free o l,
      none_lost,
      usable_pages-le b.pages_count 0 regions a (omega arith),
      f,
    ) in
    let (d, w, s) =
      flip_orders-Walked fuel 11 0 m.result m.free (λ o. []) m.valid.lists m.valid.inside short
        (λ p y. ground arith) (λ o n l. ap (λ g. bitmap_status n (g o)) m.kept ∙ v.no_bit o n) in
    record {
      result = record m.result { bitmap = w.bits };
      free = m.free;
      runs = rw m.runs w.runs;
      valid = record {
        lists = m.valid.lists;
        inside = m.valid.inside;
        separate = m.valid.separate;
        bits = AreBits-IsDone w.bits m.free d s w.agree;
      };
      counters = m.counters;
      spares = λ u w' o. m.spares u w' (λ p y i. absurd (ground arith)) o;
      conserves = none_lost;
    }
