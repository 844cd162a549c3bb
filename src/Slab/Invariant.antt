-- ===== src/Slab/Invariant.antt =====
-- When the lists of slabs, the free objects and the counts of kernel/src/mm/slab.c agree.
use munk_os.Prelude.{
  ℕ, ◌+◌, ◌^◌, ◌≡◌, ◌<◌, arith, Bool, true, false, ◌&&◌, List, [], ◌∷◌, mem, ◌==◌, length,
}
use munk_os.Links.{Ptr, Links}
use munk_os.Links.Segments.{Chain, Disjoint}
use munk_os.Slab.Caches.{SlabCache, Heap, Fill, full, partial, empty, slabs_of}

abbrev pub same_fill : Fill → Fill → Bool
same_fill full full = true
same_fill partial partial = true
same_fill empty empty = true
same_fill _ _ = false

-- From the address `p` on, the first words of the distinct objects `xs` lead to NULL.
abbrev pub Objs : (ℕ → ℕ) → ℕ → List ℕ → Type 0
Objs w p [] = p ≡ 0
Objs w p (x ∷ xs) = (p ≡ x) × (0 < x) × (mem x xs ≡ false) × Objs w (w x) xs

pub frame-Objs :
    (w u : ℕ → ℕ) (p : ℕ) (xs : List ℕ)
    → ((a : ℕ) → mem a xs ≡ true → u a ≡ w a)
    → Objs w p xs
    → Objs u p xs
frame-Objs w u p [] same o = o
frame-Objs w u p (x ∷ xs) same o =
    ground (arith, same x, frame-Objs w u (w x) xs (λ a i. same a (ground arith)))

-- The slabs of each list of each cache.
abbrev pub Slabs : Type 0
Slabs = ℕ → Fill → List ℕ

abbrev pub Listed : Slabs → ℕ → Type 0
Listed slabs s = (c : ℕ) × (f : Fill) × (mem s (slabs c f) ≡ true)

-- The pointers lead through the slabs, and no slab is in two lists.
pub record AreLinked (l : Links) (caches : ℕ → SlabCache) (slabs : Slabs) : Type 0 where
  pub each : (c : ℕ) (f : Fill) → (tail : Ptr) × Chain l (slabs_of (caches c) f) (slabs c f) tail
  pub apart :
      (c d : ℕ) (f g : Fill) → (c == d && same_fill f g) ≡ false → Disjoint (slabs c f) (slabs d g)

-- How many objects of a slab may be in use in each list.
abbrev pub Uses : Fill → ℕ → ℕ → Type 0
Uses full used total = (used ≡ 0) × (1 < total)
Uses partial used total = (0 < used) × (used < total)
Uses empty used total = (used ≡ total) × (1 < total)

-- Slab `s` has the free objects `free s`.
pub record AreObjects (h : Heap) (slabs : Slabs) (free : ℕ → List ℕ) : Type 0 where
  pub owner : (c s : ℕ) (f : Fill) → mem s (slabs c f) ≡ true → h.this_cache s ≡ c
  pub uses :
      (c s : ℕ) (f : Fill) → mem s (slabs c f) ≡ true → Uses f (h.used_objs s) (h.slab_objs s)
  pub chain : (s : ℕ) → Listed slabs s → Objs h.word (h.freelist s) (free s)
  pub count : (s : ℕ) → Listed slabs s → h.used_objs s + length (free s) ≡ h.slab_objs s
  pub small : (s : ℕ) → Listed slabs s → h.slab_objs s < 2 ^ 16
  pub apart :
      (s t : ℕ) → Listed slabs s → Listed slabs t → (s == t) ≡ false → Disjoint (free s) (free t)

pub record IsValid (h : Heap) (slabs : Slabs) (free : ℕ → List ℕ) : Type 0 where
  pub linked : AreLinked h.links h.caches slabs
  pub objects : AreObjects h slabs free
