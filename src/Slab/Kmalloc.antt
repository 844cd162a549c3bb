-- ===== src/Slab/Kmalloc.antt =====
-- `slab_init` of kernel/src/mm/slab.c, and the cache that `kmalloc` takes an object from.
use munk_os.Prelude.{
  ℕ, zero, suc, ◌+◌, ◌-◌, ◌*◌, ◌^◌, ◌<◌, ◌≤◌, ◌≡◌, refl, ap, ◌∙◌, arith, true, false, Bool-cases,
  inl, inr, ltb, ok, Outcome, ◌==◌, ==_iff,
}
use native.Mathlib.Nat.{pow-le-pow_right}
use munk_os.FrameAlloc.Orders.{size2order, halving}
use munk_os.Slab.Caches.{
  SlabCache, Heap, size2block, with_cache, init_slab_cache, init_caches, slab_init,
  kmalloc_pps_mappings,
}
use munk_os.Links.{null}
use munk_os.Slab.{kmalloc, cache_alloc}
use munk_os.Slab.Sizes.{size2block-Fits}

below_ten : (index size : ℕ) → size ≤ 8192 → (0 < index → 16 * 2 ^ (index - 1) < size) → index < 10
below_ten index size l h = elim (Bool-cases (ltb index 10)) [
  | inl e ↦ ground (arith, e)
  | inr e ↦
      let many : 10 ≤ index = ground (arith, e) in
      let low : 9 ≤ index - 1 = omega (arith, many) in
      let big : 2 ^ 9 ≤ 2 ^ (index - 1) = pow-le-pow_right (omega arith) low in
      absurd (omega (arith, big, h (omega (arith, many)), l))
]

kmalloc_runs :
    (h : Heap) (size i : ℕ)
    → ltb 8192 size ≡ false
    → (size == 0) ≡ false
    → h.slab_initialized ≡ true
    → size2block size ≡ ok i
    → ltb i 10 ≡ true
    → kmalloc h size ≡ cache_alloc h i
unfolding kmalloc
kmalloc_runs h size i a b d e f = ground (arith, a, b, d, e, f)

-- Cache `i` as `slab_init` leaves it.
abbrev new_cache : ℕ → SlabCache
new_cache i = record {
  named = true;
  pages_per_slab = kmalloc_pps_mappings (i - 1);
  obj_size = 16 * 2 ^ i;
  obj_md_size = 16 * 2 ^ i;
  total_objs = 0;
  total_objs_allocated = 0;
  full_slab_count = 0;
  partial_slab_count = 0;
  empty_slab_count = 0;
  full_slabs = null;
  partial_slabs = null;
  empty_slabs = null;
}

-- `init_slab_cache` as `slab_init` calls it for cache `i`.
init_one :
    (i : ℕ) (h : Heap)
    → i < 10
    → (h.caches i).named ≡ false
    → (k : SlabCache) × (init_slab_cache h i (2 ^ (i + 4)) ≡ ok (with_cache h i k))
      × (k.obj_size ≡ 16 * 2 ^ i)
unfolding init_slab_cache size2order halving
init_one zero h l e = (new_cache 0, rw e refl, refl)
init_one (suc zero) h l e = (new_cache 1, rw e refl, refl)
init_one (suc (suc zero)) h l e = (new_cache 2, rw e refl, refl)
init_one (suc (suc (suc zero))) h l e = (new_cache 3, rw e refl, refl)
init_one (suc (suc (suc (suc zero)))) h l e = (new_cache 4, rw e refl, refl)
init_one (suc (suc (suc (suc (suc zero))))) h l e = (new_cache 5, rw e refl, refl)
init_one (suc (suc (suc (suc (suc (suc zero)))))) h l e = (new_cache 6, rw e refl, refl)
init_one (suc (suc (suc (suc (suc (suc (suc zero))))))) h l e = (new_cache 7, rw e refl, refl)
init_one (suc (suc (suc (suc (suc (suc (suc (suc zero)))))))) h l e = (new_cache 8, rw e refl, refl)
init_one (suc (suc (suc (suc (suc (suc (suc (suc (suc zero))))))))) h l e =
    (new_cache 9, rw e refl, refl)
init_one (suc (suc (suc (suc (suc (suc (suc (suc (suc (suc i)))))))))) h l e = absurd (omega arith)

-- The caches that `slab_init` sets up have objects of 16 * 2 ^ i bytes.
init_caches-sized :
    (n i : ℕ) (h : Heap)
    → i + n ≡ 10
    → ((c : ℕ) → i ≤ c → c < 10 → (h.caches c).named ≡ false)
    → ((c : ℕ) → c < i → (h.caches c).obj_size ≡ 16 * 2 ^ c)
    → (h' : Heap) × (init_caches n i h ≡ ok h')
      × ((c : ℕ) → c < 10 → (h'.caches c).obj_size ≡ 16 * 2 ^ c)
unfolding init_caches
init_caches-sized zero i h all fresh sized = (h, refl, λ c l. sized c (omega (arith, l, all)))
init_caches-sized (suc n) i h all fresh sized =
    let (k, runs, size) =
      init_one i h (omega (arith, all)) (fresh i (omega arith) (omega (arith, all))) in
    let r =
      init_caches-sized n (i + 1) (with_cache h i k) (omega (arith, all))
        (λ c low l.
          let other : (c == i) ≡ false = ground (arith, low) in
          rw other (fresh c (omega (arith, low)) l))
        (λ c l. elim (Bool-cases (c == i)) [
          | inl e ↦ rw (e, (==_iff c i).0 e) size
          | inr e ↦ rw e (sized c (ground (arith, l, e)))
        ]) in
    (r.0, rw runs r.1, r.2)

-- No cache has been set up yet.
abbrev pub AreFresh : Heap → Type 0
AreFresh h = (c : ℕ) → c < 10 → (h.caches c).named ≡ false

pub slab_init-sized :
    (h : Heap)
    → AreFresh h
    → (h' : Heap) × (slab_init h ≡ ok h')
      × (h'.slab_initialized ≡ true)
      × ((c : ℕ) → c < 10 → (h'.caches c).obj_size ≡ 16 * 2 ^ c)
unfolding slab_init
slab_init-sized h fresh =
    let (h', runs, sized) =
      init_caches-sized 10 0 h refl (λ c low. fresh c) (λ c l. absurd (omega (arith, l))) in
    (record h' { slab_initialized = true }, rw runs refl, refl, sized)

-- The size of the objects of a cache in a result.
abbrev pub sizes_in : Outcome Heap → ℕ → ℕ
sizes_in (ok h) c = (h.caches c).obj_size
sizes_in _ c = 0

-- The request is served by the first of the ten caches whose objects hold it.
pub record Served (h : Heap) (size : ℕ) : Type 0 where
  pub index : ℕ
  pub serves : kmalloc h size ≡ cache_alloc h index
  pub is_cache : index < 10
  pub holds : size ≤ (h.caches index).obj_size
  pub smallest : (j : ℕ) → j < index → (h.caches j).obj_size < size

-- `slab_init` returns where no cache has been set up, and then, as long as the caches keep the sizes
-- of objects that it gave them, a request for 1 to 8192 bytes is served by one of the ten caches:
-- the first whose objects hold the request.
pub kmalloc-fits :
    (h h' : Heap) (size : ℕ)
    → AreFresh h
    → h'.slab_initialized ≡ true
    → ((c : ℕ) → c < 10 → (h'.caches c).obj_size ≡ sizes_in (slab_init h) c)
    → 0 < size
    → size ≤ 8192
    → (start : Heap) × (slab_init h ≡ ok start) × (start.slab_initialized ≡ true) × Served h' size
kmalloc-fits h h' size fresh set kept pos l =
    let (start, runs, on, sized) = slab_init-sized h fresh in
    let objects : (c : ℕ) → c < 10 → (h'.caches c).obj_size ≡ 16 * 2 ^ c =
      λ c low. kept c low ∙ ap (λ r. sizes_in r c) runs ∙ sized c low in
    let r = size2block-Fits size pos (omega (arith, l)) in
    let low = below_ten r.index size l r.smallest in
    (
      start,
      runs,
      on,
      record {
        index = r.index;
        serves =
            kmalloc_runs h' size r.index (ground (arith, l)) (ground (arith, pos)) set r.runs
              (ground (arith, low));
        is_cache = low;
        holds = omega (arith, r.holds, objects r.index low);
        smallest = λ j m.
            let down : 2 ^ j ≤ 2 ^ (r.index - 1) =
              pow-le-pow_right (omega arith) (omega (arith, m)) in
            omega (arith, objects j (omega (arith, m, low)), down, r.smallest (omega (arith, m)));
      },
    )
