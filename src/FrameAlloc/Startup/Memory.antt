-- ===== src/FrameAlloc/Startup/Memory.antt =====
-- The loop of `buddy_init` over the memory map.
use munk_os.Prelude.{
  ℕ, ◌+◌, ◌-◌, ◌*◌, ◌/◌, ◌%◌, ◌^◌, ◌≤◌, ◌<◌, ◌≡◌, ◌⊎◌, refl, ap, sym, ◌∙◌, arith, true, false,
  if◌then◌else◌, inr, List, [], ◌∷◌, Outcome, ok,
}
use mathlib.Core.Path.{subst}
use munk_os.FrameAlloc.{Buddy}
use munk_os.FrameAlloc.Blocks.{Apart}
use munk_os.FrameAlloc.Totals.{total}
use munk_os.FrameAlloc.Invariant.{IsValid}
use munk_os.FrameAlloc.Splitting.{SameCounters}
use munk_os.FrameAlloc.Startup.{Region, free_range, free_regions}
use munk_os.FrameAlloc.Startup.Regions.{free_range-Ranged}

-- The usable entries of a memory map are whole pages of the table `pages`, in ascending order from
-- page `f` on, and do not overlap.
pub data AreRegions (count : ℕ) : ℕ → List Region → Type 0 where
  no_more : {f : ℕ} → AreRegions count f []
  usable :
      {f : ℕ} {r : Region} {regions : List Region} (p e : ℕ)
      → r.usable ≡ true
      → r.start ≡ p * 4096
      → r.start + r.length ≡ e * 4096
      → f ≤ p
      → p ≤ e
      → e ≤ count
      → e * 4096 < 2 ^ 63
      → AreRegions count e regions
      → AreRegions count f (r ∷ regions)
  skipped :
      {f : ℕ} {r : Region} {regions : List Region}
      → r.usable ≡ false
      → AreRegions count f regions
      → AreRegions count f (r ∷ regions)

-- The pages of the usable entries.
abbrev pub usable_pages : List Region → ℕ
usable_pages [] = 0
usable_pages (r ∷ regions) = (if r.usable then r.length / 4096 else 0) + usable_pages regions

-- The pages from `u` on, `w` of them, are in no usable entry.
abbrev pub Outside : ℕ → ℕ → List Region → Type 0
Outside u w [] = w ≡ w
Outside u w (r ∷ regions) =
    (r.usable ≡ true → ((u + w) * 4096 ≤ r.start) ⊎ (r.start + r.length ≤ u * 4096))
    × Outside u w regions

-- The outcome of the loop.
pub record Filled (b : Buddy) (c : ℕ → List ℕ) (regions : List Region) (r : Outcome Buddy)
    : Type 0 where
  pub result : Buddy
  pub free : ℕ → List ℕ
  pub bits : ℕ → ℕ → ℕ
  pub runs : r ≡ ok result
  pub kept : result.bitmap ≡ b.bitmap
  pub counters : SameCounters b result
  pub valid : IsValid (record result { bitmap = bits }) free
  pub spares : (u w : ℕ) → Apart c u w → Outside u w regions → Apart free u w
  pub conserves : total 11 free ≡ total 11 c + usable_pages regions

region_runs :
    (fuel p e : ℕ) (r : Region) (regions : List Region) (b b' : Buddy)
    → r.usable ≡ true
    → r.start ≡ p * 4096
    → (r.start + r.length) % 2 ^ 64 ≡ e * 4096
    → free_range fuel (p * 4096) (e * 4096) b ≡ ok b'
    → free_regions fuel (r ∷ regions) b ≡ free_regions fuel regions b'
unfolding free_regions
region_runs fuel p e r regions b b' u s l runs = rw (u, l, s, runs) refl

pub free_regions-Filled :
    (fuel f : ℕ) (regions : List Region) (b : Buddy) (bm : ℕ → ℕ → ℕ) (c : ℕ → List ℕ)
    → b.pages_count < fuel
    → AreRegions b.pages_count f regions
    → IsValid (record b { bitmap = bm }) c
    → ((u w : ℕ) → f ≤ u → Apart c u w)
    → Filled b c regions (free_regions fuel regions b)
unfolding free_regions
free_regions-Filled fuel f [] b bm c e no_more v above = record {
  result = b;
  free = c;
  bits = bm;
  runs = refl;
  kept = refl;
  counters = (refl, refl, refl, refl);
  valid = v;
  spares = λ u w a o. a;
  conserves = omega arith;
}
free_regions-Filled fuel f (r ∷ regions) b bm c e (skipped unused a) v above =
    let rest = free_regions-Filled fuel f regions b bm c e a v above in
    record {
      result = rest.result;
      free = rest.free;
      bits = rest.bits;
      runs = rw unused rest.runs;
      kept = rest.kept;
      counters = rest.counters;
      valid = rest.valid;
      spares = λ u w i o. rest.spares u w i o.1;
      conserves = rw unused (omega (arith, rest.conserves));
    }
free_regions-Filled fuel f (r ∷ regions) b bm c e (usable p q here s l fp pq qc low a) v above =
    let g =
      free_range-Ranged fuel p q b bm c (omega (arith, e, qc)) pq low qc v (above p (q - p) fp) in
    let rest =
      free_regions-Filled fuel q regions g.result g.bits g.free (omega (arith, e, g.counters.0))
        (subst (λ n. AreRegions n q regions) (sym g.counters.0) a) g.valid
        (λ u w h. g.spares u w (above u w (omega (arith, h, fp, pq))) (inr h)) in
    let end : (r.start + r.length) % 2 ^ 64 ≡ q * 4096 = omega (arith, l, low) in
    let size : r.length / 4096 ≡ q - p = omega (arith, s, l, pq) in
    record {
      result = rest.result;
      free = rest.free;
      bits = rest.bits;
      runs = region_runs fuel p q r regions b g.result here s end g.runs ∙ rest.runs;
      kept = rest.kept ∙ g.kept;
      counters = (
        rest.counters.0 ∙ g.counters.0,
        rest.counters.1 ∙ g.counters.1,
        rest.counters.2 ∙ g.counters.2,
        rest.counters.3 ∙ g.counters.3,
      );
      valid = rest.valid;
      spares = λ u w i o. rest.spares u w (g.spares u w i (ground (arith, o.0 here, s, l))) o.1;
      conserves = omega (
        arith,
        rest.conserves,
        g.conserves,
        size,
        pq,
        ap (λ k. if k then r.length / 4096 else 0) here,
      );
    }
