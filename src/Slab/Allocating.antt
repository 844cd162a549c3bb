-- ===== src/Slab/Allocating.antt =====
-- `cache_alloc` of kernel/src/mm/slab.c on a cache that has a slab with free objects.
use munk_os.Prelude.{
  ℕ, ◌≡◌, ap, sym, ◌∙◌, arith, true, false, List, [], ◌∷◌, mem, length, ◌==◌, inl, inr, Outcome,
  List-cases,
}
use mathlib.Core.Path.{subst}
use munk_os.Links.{null, node}
use munk_os.Links.Segments.{Chain}
use munk_os.Slab.Caches.{Heap, Fill, full, partial}
use munk_os.Slab.{from_partial, from_full, got_full, cache_alloc}
use munk_os.Slab.Invariant.{Slabs, AreObjects, IsValid}
use munk_os.Slab.Serving.{Given, from_partial-Given, from_full-Given}

-- The next slab to allocate from, of a cache with a slab that has free objects.
pub data Next (slabs : Slabs) (c s : ℕ) (zs : List ℕ) : Type 0 where
  in_use : slabs c partial ≡ s ∷ zs → Next slabs c s zs
  unused : slabs c partial ≡ [] → slabs c full ≡ s ∷ zs → Next slabs c s zs

-- The list that the slab is in.
abbrev pub fill_of : {slabs : Slabs} {c s : ℕ} {zs : List ℕ} → Next slabs c s zs → Fill
fill_of (in_use top) = partial
fill_of (unused none_used top) = full

partial_runs :
    (h : Heap) (c s : ℕ)
    → (h.caches c).partial_slabs ≡ node s
    → cache_alloc h c ≡ from_partial h c s
unfolding cache_alloc
partial_runs h c s e = cc

unused_runs :
    (h : Heap) (c s : ℕ)
    → (h.caches c).partial_slabs ≡ null
    → (h.caches c).full_slabs ≡ node s
    → cache_alloc h c ≡ from_full h c s
unfolding cache_alloc got_full
unused_runs h c s e f = cc

Given-same :
    (h : Heap) (slabs : Slabs) (free : ℕ → List ℕ) (c : ℕ) (f : Fill) (s : ℕ) (zs : List ℕ)
    (r q : Outcome (ℕ × Heap))
    → q ≡ r
    → Given h slabs free c f s zs r
    → Given h slabs free c f s zs q
Given-same h slabs free c f s zs r q e = subst (Given h slabs free c f s zs) (sym e)

-- A slab that is not empty has a free object.
some_free :
    (h : Heap) (slabs : Slabs) (free : ℕ → List ℕ) (c s : ℕ) (f : Fill)
    → AreObjects h slabs free
    → mem s (slabs c f) ≡ true
    → (h.used_objs s == h.slab_objs s) ≡ false
    → (a : ℕ) × (rest : List ℕ) × (free s ≡ a ∷ rest)
some_free h slabs free c s f v i less = elim (List-cases (free s)) [
  | inl e ↦ absurd (ground (arith, v.count s (c, f, i), ap length e, less))
  | inr r ↦ r
]

-- A cache with a partly used slab, or else with one full of free objects, gives an object without
-- asking for pages, and never fails: the first free object of the first slab of that list. Exactly
-- this object is no longer free, so it is not given out again before it is freed. The slab moves to
-- the front of the list of partly used slabs if it was full of free objects, to that of the empty
-- slabs if it was partly used and this was its last object, and no other slab changes lists. The
-- slabs, the free objects and the counts of used objects agree again, and no word of memory is
-- written.
pub cache_alloc-Given :
    (h : Heap) (slabs : Slabs) (free : ℕ → List ℕ) (c s : ℕ) (zs : List ℕ)
    → IsValid h slabs free
    → (next : Next slabs c s zs) → Given h slabs free c (fill_of next) s zs (cache_alloc h c)
cache_alloc-Given h slabs free c s zs v (in_use top) =
    let i : mem s (slabs c partial) ≡ true = ap (mem s) top ∙ ground arith in
    let (a, rest, here) =
      some_free h slabs free c s partial v.objects i
        (ground (arith, v.objects.uses c s partial i)) in
    let (tail, g) = v.linked.each c partial in
    let g' = subst (λ xs. Chain h.links (h.caches c).partial_slabs xs tail) top g in
    Given-same h slabs free c partial s zs (from_partial h c s) (cache_alloc h c)
      (partial_runs h c s g'.0) (from_partial-Given h slabs free v c s zs top a rest here)
cache_alloc-Given h slabs free c s zs v (unused none_used top) =
    let i : mem s (slabs c full) ≡ true = ap (mem s) top ∙ ground arith in
    let (a, rest, here) =
      some_free h slabs free c s full v.objects i (ground (arith, v.objects.uses c s full i)) in
    let (tail, g) = v.linked.each c full in
    let g' = subst (λ xs. Chain h.links (h.caches c).full_slabs xs tail) top g in
    let (end, p) = v.linked.each c partial in
    let p' = subst (λ xs. Chain h.links (h.caches c).partial_slabs xs end) none_used p in
    Given-same h slabs free c full s zs (from_full h c s) (cache_alloc h c)
      (unused_runs h c s p'.0 g'.0) (from_full-Given h slabs free v c s zs top a rest here)
