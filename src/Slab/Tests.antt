-- ===== src/Slab/Tests.antt =====
-- Cache 1 with one slab of three objects on page 5: the first is in use.
use munk_os.Prelude.{
  ℕ, ◌*◌, ◌^◌, ◌<◌, ◌≡◌, ◌∙◌, refl, ap, arith, true, false, List, [], ◌∷◌, ◌==◌, if◌then◌else◌, ok,
  mem, ◌&&◌, sym,
}
use munk_os.Links.{Ptr, null, node}
use munk_os.Links.Segments.{Chain, Disjoint}
use munk_os.Scheduler.Tests.{no_links}
use munk_os.Slab.Caches.{
  SlabCache, Heap, Fill, full, partial, empty, size2block, blocks, slabs_of, slab_init,
}
use munk_os.Slab.{cache_alloc, kfree}
use munk_os.Slab.Invariant.{same_fill, Slabs, AreLinked, IsValid}
use munk_os.Slab.Kmalloc.{AreFresh, sizes_in, slab_init-sized, Served, kmalloc-fits}
use munk_os.Slab.Serving.{Given}
use munk_os.Slab.Allocating.{in_use, cache_alloc-Given}
use munk_os.Slab.Giving.{InUse}
use munk_os.Slab.Releasing.{Released, refilled, in_head, kfree-Released}

abbrev cache : ℕ → SlabCache
cache c = record {
  named = true;
  pages_per_slab = 1;
  obj_size = 32;
  obj_md_size = 32;
  total_objs = 3;
  total_objs_allocated = 1;
  full_slab_count = 0;
  partial_slab_count = 1;
  empty_slab_count = 0;
  full_slabs = null;
  partial_slabs = if c == 1 then node 5 else null;
  empty_slabs = null;
}

abbrev heap : Heap
heap = record {
  links = no_links;
  this_cache = λ s. 1;
  freelist = λ s. 20512;
  used_objs = λ s. 1;
  slab_objs = λ s. 3;
  composite_tail = λ p. false;
  composite_head = λ p. p == 5;
  kmalloc_buddy = λ p. false;
  comp_head = λ p. 0;
  order = λ p. 0;
  word = λ a. if a == 20512 then 20544 else 0;
  caches = cache;
  slab_initialized = true;
  hhdm_offset = 0;
  buddy = record {
    links = no_links;
    list = λ o. null;
    bitmap = λ o n. 0;
    pages_count = 64;
    free = 0;
    allocation_count = 0;
    deallocation_count = 0;
  };
}

abbrev slabs : Slabs
slabs c full = []
slabs c partial = if c == 1 then 5 ∷ [] else []
slabs c empty = []

abbrev free : ℕ → List ℕ
free s = 20512 ∷ 20544 ∷ []

heap-AreLinked : AreLinked heap.links heap.caches slabs
heap-AreLinked = record { each = each; apart = apart }
  where
    each :
        (c : ℕ) (f : Fill) → (tail : Ptr) × Chain no_links (slabs_of (cache c) f) (slabs c f) tail
    each c full = (null, (refl, refl))
    each c partial = (if c == 1 then node 5 else null, ground arith)
    each c empty = (null, (refl, refl))

    apart :
        (c d : ℕ) (f g : Fill)
        → (c == d && same_fill f g) ≡ false
        → Disjoint (slabs c f) (slabs d g)
    apart c d full g e a i = cc
    apart c d empty g e a i = cc
    apart c d partial full e a i = refl
    apart c d partial empty e a i = refl
    apart c d partial partial e a i = ground arith

listed_five : (c s : ℕ) (f : Fill) → mem s (slabs c f) ≡ true → (c ≡ 1) × (s ≡ 5) × (f ≡ partial)
listed_five c s full i = cc
listed_five c s empty i = cc
listed_five c s partial i = (ground arith, ground arith, refl)

heap-IsValid : IsValid heap slabs free
heap-IsValid = record {
  linked = heap-AreLinked;
  objects = record {
    owner = λ c s f i. sym (listed_five c s f i).0;
    uses = λ c s f i. rw (listed_five c s f i).2 (ground arith);
    chain = λ s l. (refl, omega arith, refl, (refl, omega arith, refl, refl));
    count = λ s l. refl;
    small = λ s l. omega arith;
    apart = λ s t l m ne.
        absurd (ground (arith, ne, (listed_five l.0 s l.1 l.2).1, (listed_five m.0 t m.1 m.2).1));
  };
}

size2block-33 : size2block 33 ≡ ok 2
unfolding size2block blocks
size2block-33 = refl

-- A heap before `slab_init`, and one later, which has the caches in their sizes.
abbrev fresh : Heap
fresh = record heap { caches = λ c. record (cache c) { named = false }; slab_initialized = false }

abbrev started : Heap
started = record heap { caches = λ c. record (cache c) { obj_size = 16 * 2 ^ c } }

fresh-AreFresh : AreFresh fresh
fresh-AreFresh c l = refl

started-sizes : (c : ℕ) → c < 10 → (started.caches c).obj_size ≡ sizes_in (slab_init fresh) c
started-sizes c l =
    let (start, runs, on, sized) = slab_init-sized fresh fresh-AreFresh in
    sym (ap (λ r. sizes_in r c) runs ∙ sized c l)

kmalloc-fits_example :
    (start : Heap) × (slab_init fresh ≡ ok start)
    × (start.slab_initialized ≡ true)
    × Served started 33
kmalloc-fits_example =
    kmalloc-fits fresh started 33 fresh-AreFresh refl started-sizes (omega arith) (omega arith)

cache_alloc-Given_example : Given heap slabs free 1 partial 5 [] (cache_alloc heap 1)
cache_alloc-Given_example = cache_alloc-Given heap slabs free 1 5 [] heap-IsValid (in_use refl)

first-InUse : InUse heap slabs free 5 20480
first-InUse = record { not_null = omega arith; used = omega arith; taken = λ t l. refl }

size2block-32 : size2block 32 ≡ ok 1
unfolding size2block blocks
size2block-32 = refl

kfree-Released_example :
    Released heap free (refilled heap slabs 1 partial [] 5 []) 5 20480 (kfree heap 20480)
kfree-Released_example =
    kfree-Released heap slabs free 1 5 20480 partial [] [] heap-IsValid refl first-InUse refl
      (in_head refl refl) (λ only. (1, size2block-32, omega arith))
