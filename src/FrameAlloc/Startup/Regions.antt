-- ===== src/FrameAlloc/Startup/Regions.antt =====
-- The loops of `buddy_init` over the usable memory: they put every page of it on the lists, in
-- blocks that do not overlap. The bitmaps are filled in afterwards; until then the state is valid
-- with the bitmap `bits` that it will have.
use munk_os.Prelude.{
  ℕ, zero, suc, ◌+◌, ◌-◌, ◌*◌, ◌/◌, ◌%◌, ◌^◌, ◌≤◌, ◌<◌, ◌≡◌, ◌⊎◌, refl, ◌∙◌, arith, true, false,
  ltb, ◌==◌, inl, inr, Bool-cases, ==_iff, List, ◌∷◌, update, Outcome, ok,
}
use munk_os.Links.{Links, node}
use munk_os.FrameAlloc.Freelist.{list_link}
use munk_os.FrameAlloc.{Buddy, link_at}
use munk_os.FrameAlloc.Bitmap.{bitmap_flip}
use munk_os.FrameAlloc.Blocks.{Apart, pow_pos}
use munk_os.FrameAlloc.Totals.{total, total-update}
use munk_os.FrameAlloc.Invariant.{IsValid, IsTaken, flip_one}
use munk_os.FrameAlloc.Changes.{Added-taken, Apart-more}
use munk_os.FrameAlloc.Splitting.{SameCounters}
use munk_os.FrameAlloc.Startup.{slice_range, free_range}
use munk_os.FrameAlloc.Startup.Slices.{IsSlice, slice_range-IsSlice}

-- The outcome of freeing the pages from `p` up to `e`.
pub record Ranged (b : Buddy) (c : ℕ → List ℕ) (p e : ℕ) (r : Outcome Buddy) : Type 0 where
  pub result : Buddy
  pub free : ℕ → List ℕ
  pub bits : ℕ → ℕ → ℕ
  pub runs : r ≡ ok result
  pub kept : result.bitmap ≡ b.bitmap
  pub counters : SameCounters b result
  pub valid : IsValid (record result { bitmap = bits }) free
  pub spares : (u w : ℕ) → Apart c u w → (u + w ≤ p) ⊎ (e ≤ u) → Apart free u w
  pub conserves : total 11 free + p ≡ total 11 c + e

range_done :
    (fuel p e : ℕ) (b : Buddy) (bm : ℕ → ℕ → ℕ) (c : ℕ → List ℕ)
    → p ≡ e
    → IsValid (record b { bitmap = bm }) c
    → Ranged b c p e (free_range (suc fuel) (p * 4096) (e * 4096) b)
unfolding free_range
range_done fuel p e b bm c s v =
    let last : ltb (p * 4096) (e * 4096) ≡ false = ground (arith, s) in
    record {
      result = b;
      free = c;
      bits = bm;
      runs = rw last refl;
      kept = refl;
      counters = (refl, refl, refl, refl);
      valid = v;
      spares = λ u w a h. a;
      conserves = omega (arith, s);
    }

slice_IsTaken :
    (count p e o : ℕ) (c : ℕ → List ℕ)
    → IsSlice p e o
    → e ≤ count
    → Apart c p (e - p)
    → IsTaken count c o p
slice_IsTaken count p e o c s h a = record {
  block = record { number = s.number; starts = s.starts; fits = omega (arith, s.fits, h) };
  apart = λ q y i. ground (arith, a q y i, s.fits);
}

link_runs :
    (b : Buddy) (k : Links) (o p : ℕ)
    → list_link b.links p (b.list o) ≡ ok (k, node p)
    → link_at b p o ≡ ok (record b { links = k; list = update b.list o (node p) })
unfolding link_at
link_runs b k o p h = rw h refl

later_pages :
    (c : ℕ → List ℕ) (p w e : ℕ) → p + w ≤ e → Apart c p (e - p) → Apart c (p + w) (e - (p + w))
later_pages c p w e l a q y i = ground (arith, a q y i)

range_step :
    (fuel p e o : ℕ) (b b' : Buddy)
    → slice_range (p * 4096) (e * 4096) ≡ o
    → p < e
    → p + 2 ^ o ≤ e
    → e * 4096 < 2 ^ 63
    → link_at b p o ≡ ok b'
    → free_range (suc fuel) (p * 4096) (e * 4096) b
      ≡ free_range fuel ((p + 2 ^ o) * 4096) (e * 4096) b'
unfolding free_range
range_step fuel p e o b b' s l f h runs =
    let more : ltb (p * 4096) (e * 4096) ≡ true = ground arith in
    let page : p * 4096 / 4096 ≡ p = omega arith in
    let next : (p * 4096 + 2 ^ o * 4096) % 2 ^ 64 ≡ (p + 2 ^ o) * 4096 = omega arith in
    rw (more, s, page, runs, next) refl

pub free_range-Ranged :
    (fuel p e : ℕ) (b : Buddy) (bm : ℕ → ℕ → ℕ) (c : ℕ → List ℕ)
    → e < p + fuel
    → p ≤ e
    → e * 4096 < 2 ^ 63
    → e ≤ b.pages_count
    → IsValid (record b { bitmap = bm }) c
    → Apart c p (e - p)
    → Ranged b c p e (free_range fuel (p * 4096) (e * 4096) b)
free_range-Ranged zero p e b bm c f l h n v a = absurd (omega arith)
free_range-Ranged (suc fuel) p e b bm c f l h n v a = elim (Bool-cases (p == e)) [
  | inl s ↦ range_done fuel p e b bm c ((==_iff p e).0 s) v
  | inr s ↦
      let less : p < e = ground (arith, s, l) in
      let o = slice_range (p * 4096) (e * 4096) in
      let sl = slice_range-IsSlice p e less h in
      let t = slice_IsTaken b.pages_count p e o c sl n a in
      let bm' = update bm o (bitmap_flip (t.block.number / 2) (bm o)) in
      let ad =
        Added-taken (record b { bitmap = bm }) bm' c o p v t (flip_one bm o t.block.number) in
      let b' = record b { links = ad.links; list = update b.list o (node p) } in
      let runs : link_at b p o ≡ ok b' = link_runs b ad.links o p ad.runs in
      let c' = update c o (p ∷ c o) in
      let rest =
        free_range-Ranged fuel (p + 2 ^ o) e b' bm' c' (omega (arith, f, pow_pos o)) sl.fits h n
          ad.valid
          (Apart-more c (p + 2 ^ o) (e - (p + 2 ^ o)) o p (later_pages c p (2 ^ o) e sl.fits a)
            (inr (omega arith))) in
      record {
        result = rest.result;
        free = rest.free;
        bits = rest.bits;
        runs = range_step fuel p e o b b' refl less sl.fits h runs ∙ rest.runs;
        kept = rest.kept;
        counters = rest.counters;
        valid = rest.valid;
        spares = λ u w i g.
            rest.spares u w (Apart-more c u w o p i (ground (arith, g, sl.fits)))
              (ground (arith, g));
        conserves =
            omega (arith, rest.conserves, total-update 11 c o (p ∷ c o) (omega (arith, sl.small)));
      }
]
