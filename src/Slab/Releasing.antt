-- ===== src/Slab/Releasing.antt =====
-- `kfree` of kernel/src/mm/slab.c on an object of a slab, as long as no slab is given up.
use munk_os.Prelude.{
  ℕ, ◌+◌, ◌-◌, ◌%◌, ◌^◌, ◌≡◌, ◌≤◌, refl, ap, sym, ◌∙◌, arith, true, false, ◌&&◌, List, ◌∷◌, mem,
  ◌==◌, Bool-cases, inl, inr, update, Outcome, ok, ltb, ==_iff, ◌++◌, mem-append, if◌then◌else◌,
}
use mathlib.Core.Path.{subst}
use munk_os.Links.{Ptr, Links}
use munk_os.Links.Edits
use munk_os.FrameAlloc.{inc_size, dec_size}
use munk_os.Slab.Caches.{
  SlabCache, Heap, Fill, full, partial, empty, with_cache, move_slab, size2block,
}
use munk_os.Slab.{
  give_back, settle, free_object, attempt_free_full, kfree, page_at, find_corresponding_slab,
}
use munk_os.Slab.Invariant.{same_fill, Slabs, Listed, Uses, AreLinked, IsValid}
use munk_os.Slab.Lists.{
  moved, moved_cache, move_slab-Relinked, mem-moved, mem-moved_same, AreLinked-counter, same-split,
}
use munk_os.Slab.Giving.{no_wrap, given-AreObjects, InUse}

-- The lists of slabs once an object has been given back to slab `s`, which stood in list `f` between
-- `ys` and `zs`: it had none left and now has one, or it may now have all of them.
abbrev pub refilled : Heap → Slabs → ℕ → Fill → List ℕ → ℕ → List ℕ → Slabs
refilled h slabs c full ys s zs = slabs
refilled h slabs c empty ys s zs = moved slabs c empty partial ys s zs
refilled h slabs c partial ys s zs =
    if h.used_objs s == 1 then moved slabs c partial full ys s zs else slabs

-- The outcome of giving the object `addr` back to slab `s`, with the lists `expected` then.
pub record Released (h : Heap) (free : ℕ → List ℕ) (expected : Slabs) (s addr : ℕ)
    (r : Outcome Heap) : Type 0 where
  pub result : Heap
  pub lists : Slabs
  pub runs : r ≡ ok result
  pub lists_are : lists ≡ expected
  pub valid : IsValid result lists (update free s (addr ∷ free s))
  pub listed : Listed lists s
  pub same_buddy : result.buddy ≡ h.buddy
  pub one_less : result.used_objs s ≡ h.used_objs s - 1

-- The heap behind the migration, with the counts of the slab and of its cache.
less_used : Heap → ℕ → ℕ → Heap
less_used h c s =
    with_cache
      (record h { used_objs = update h.used_objs s ((h.used_objs s + 2 ^ 16 - 1) % 2 ^ 16) }) c
      (record (h.caches c) { total_objs_allocated = dec_size (h.caches c).total_objs_allocated 1 })

free_runs :
    (h h' : Heap) (c s addr : ℕ)
    → h.this_cache s ≡ c
    → settle (give_back h s addr) c s ≡ ok h'
    → free_object h s addr ≡ ok (less_used h' c s)
unfolding free_object less_used
free_runs h h' c s addr e a = cc

-- Only pointers and caches differ from the heap that the object was given back to.
settled : Heap → ℕ → ℕ → Links → (ℕ → SlabCache) → Heap
settled h s addr links caches = record (give_back h s addr) { links = links; caches = caches }

stay_runs :
    (h : Heap) (c s : ℕ)
    → (h.used_objs s == h.slab_objs s) ≡ false
    → (h.used_objs s == 1) ≡ false
    → settle h c s ≡ ok h
unfolding settle
stay_runs h c s a b = rw (a, b)

refill_runs :
    (h h' : Heap) (c s : ℕ)
    → (h.used_objs s == h.slab_objs s) ≡ true
    → move_slab h c empty partial s ≡ ok h'
    → settle h c s ≡ ok h'
unfolding settle
refill_runs h h' c s a b = ground (arith, a, b)

unused_runs :
    (h h' : Heap) (c s : ℕ)
    → (h.used_objs s == h.slab_objs s) ≡ false
    → (h.used_objs s == 1) ≡ true
    → move_slab h c partial full s ≡ ok h'
    → attempt_free_full h' c ≡ ok h'
    → settle h c s ≡ ok h'
unfolding settle
unused_runs h h' c s a b d e = ground (arith, a, b, d, e)

-- Cache `c` may keep one more slab that is full of free objects.
abbrev pub Spare : SlabCache → Type 0
Spare k =
    (kept : ℕ) × (size2block k.obj_md_size ≡ ok kept) × (inc_size k.full_slab_count 1 ≤ kept + 1)

kept_runs :
    (h : Heap) (c kept : ℕ)
    → size2block (h.caches c).obj_md_size ≡ ok kept
    → (h.caches c).full_slab_count ≤ kept + 1
    → attempt_free_full h c ≡ ok h
unfolding attempt_free_full
kept_runs h c kept a b =
    let small : ltb (kept + 1) (h.caches c).full_slab_count ≡ false = ground (arith, b) in
    rw (a, small)

less_linked :
    (h : Heap) (c s : ℕ) (slabs : Slabs)
    → AreLinked h.links h.caches slabs
    → AreLinked (less_used h c s).links (less_used h c s).caches slabs
unfolding less_used
less_linked h c s slabs =
    AreLinked-counter h.links h.caches slabs c (dec_size (h.caches c).total_objs_allocated 1)

mem-front :
    (slabs : Slabs) (c : ℕ) (f g : Fill) (ys : List ℕ) (s : ℕ) (zs : List ℕ)
    → mem s (moved slabs c f g ys s zs c g) ≡ true
mem-front slabs c f full ys s zs = rw (Edits.==_refl c, Edits.==_refl s)
mem-front slabs c f partial ys s zs = rw (Edits.==_refl c, Edits.==_refl s)
mem-front slabs c f empty ys s zs = rw (Edits.==_refl c, Edits.==_refl s)

module _ (h : Heap) (slabs : Slabs) (free : ℕ → List ℕ) (v : IsValid h slabs free) (c s addr : ℕ)
    (u : InUse h slabs free s addr) where
  found_in : (f : Fill) (ys zs : List ℕ) → slabs c f ≡ ys ++ s ∷ zs → mem s (slabs c f) ≡ true
  found_in f ys zs here = ap (mem s) here ∙ ground (arith, mem-append s ys (s ∷ zs))

  -- The slab ends up in list `g`.
  Released-in :
      (f g : Fill) (slabs' : Slabs) (links : Links) (caches : ℕ → SlabCache)
      → mem s (slabs c f) ≡ true
      → Uses g (h.used_objs s - 1) (h.slab_objs s)
      → settle (give_back h s addr) c s ≡ ok (settled h s addr links caches)
      → AreLinked links caches slabs'
      → ((d : ℕ) (g : Fill) (t : ℕ)
          → (t == s) ≡ false
          → mem t (slabs' d g) ≡ true
          → mem t (slabs d g) ≡ true)
      → ((d : ℕ) (e : Fill) → mem s (slabs' d e) ≡ true → (d ≡ c) × (e ≡ g))
      → mem s (slabs' c g) ≡ true
      → (expected : Slabs) → slabs' ≡ expected
      → Released h free expected s addr (free_object h s addr)
  unfolding less_used settled
  Released-in f g slabs' links caches i uses runs linked kept at in_g expected same =
      let o = v.objects in
      record {
        result = less_used (settled h s addr links caches) c s;
        lists = slabs';
        lists_are = same;
        runs = free_runs h (settled h s addr links caches) c s addr (o.owner c s f i) runs;
        valid = record {
          linked = less_linked (settled h s addr links caches) c s slabs' linked;
          objects =
              given-AreObjects h slabs free o c s f i addr u slabs' links _
                (λ d t e n m. kept d e t n m) (λ d e m. let (p, q) = at d e m in (p, rw q uses));
        };
        listed = (c, g, in_g);
        same_buddy = refl;
        one_less = rw (Edits.==_refl s) (no_wrap h slabs free o c s f i addr u);
      }

  -- The slab goes from list `f` to list `g`.
  Released-moved :
      (f g : Fill)
      → same_fill f g ≡ false
      → (ys zs : List ℕ) → slabs c f ≡ ys ++ s ∷ zs
      → Uses g (h.used_objs s - 1) (h.slab_objs s)
      → (expected : Slabs) → moved slabs c f g ys s zs ≡ expected
      → ((links : Links) (caches : ℕ → SlabCache) (p q : Ptr)
          → move_slab (give_back h s addr) c f g s ≡ ok (settled h s addr links caches)
          → caches c ≡ moved_cache (h.caches c) f g p q
          → settle (give_back h s addr) c s ≡ ok (settled h s addr links caches))
      → Released h free expected s addr (free_object h s addr)
  unfolding settled
  Released-moved f g ne ys zs here uses expected same runs =
      let i = found_in f ys zs here in
      let m = move_slab-Relinked (give_back h s addr) v.linked c f g ne ys s zs here in
      Released-in f g (moved slabs c f g ys s zs) m.links m.caches i uses
        (runs m.links m.caches m.old_head m.new_head m.runs m.cache) m.linked
        (λ d e t n j.
          sym (mem-moved (give_back h s addr) v.linked c f g ne ys s zs here d e t n) ∙ j)
        (mem-moved_same (give_back h s addr) v.linked c f g ne ys s zs here)
        (mem-front slabs c f g ys s zs) expected same

  -- An object that is in use can be given back to its slab; if it is the only one, the cache must
  -- have room for one more slab that is full of free objects. Nothing fails: the object is the first
  -- free object of the slab, nothing else becomes free, the slab goes to the list that its used
  -- objects ask for, and the slabs, the free objects and the counts of used objects agree again.
  pub free_object-Released :
      (f : Fill) (ys zs : List ℕ)
      → slabs c f ≡ ys ++ s ∷ zs
      → (h.used_objs s ≡ 1 → Spare (h.caches c))
      → Released h free (refilled h slabs c f ys s zs) s addr (free_object h s addr)
  unfolding settled
  free_object-Released full ys zs here spare =
      absurd (omega (arith, u.used, v.objects.uses c s full (found_in full ys zs here)))
  free_object-Released empty ys zs here spare =
      let w = v.objects.uses c s empty (found_in empty ys zs here) in
      Released-moved empty partial refl ys zs here (omega (arith, w), omega (arith, w)) _ refl
        (λ links caches p q runs e.
          refill_runs (give_back h s addr) (settled h s addr links caches) c s (ground (arith, w))
            runs)
  free_object-Released partial ys zs here spare_if =
      let i = found_in partial ys zs here in
      let w = v.objects.uses c s partial i in
      elim (Bool-cases (h.used_objs s == 1)) [
        | inl e ↦
            let spare = spare_if ((==_iff (h.used_objs s) 1).0 e) in
            Released-moved partial full refl ys zs here (ground (arith, e, w), ground (arith, e, w))
              (refilled h slabs c partial ys s zs) (rw e refl)
              (λ links caches p q runs k.
                unused_runs (give_back h s addr) (settled h s addr links caches) c s
                  (ground (arith, w)) e runs
                  (kept_runs (settled h s addr links caches) c spare.0
                    (ap (λ k. size2block k.obj_md_size) k ∙ spare.1)
                    (omega (arith, ap (λ k. k.full_slab_count) k, spare.2))))
        | inr e ↦
            Released-in partial partial slabs h.links h.caches i
              (ground (arith, e, w), ground (arith, w))
              (stay_runs (give_back h s addr) c s (ground (arith, w)) e) v.linked (λ d g t n m. m)
              (λ d g m. elim (Bool-cases (d == c && same_fill g partial)) [
                | inl x ↦ same-split c d partial g x
                | inr x ↦ cc (v.linked.apart d c g partial x s m, i)
              ])
              i (refilled h slabs c partial ys s zs) (rw e refl)
      ]

-- The page of the address heads slab `s`, or is part of its tail.
pub data Inside (h : Heap) (s addr : ℕ) : Type 0 where
  in_head : h.composite_head (page_at h addr) ≡ true → page_at h addr ≡ s → Inside h s addr
  in_tail :
      h.composite_head (page_at h addr) ≡ false
      → h.composite_tail (page_at h addr) ≡ true
      → h.comp_head (page_at h addr) ≡ s
      → Inside h s addr

found_slab : (h : Heap) (s addr : ℕ) → Inside h s addr → find_corresponding_slab h addr ≡ ok s
unfolding find_corresponding_slab
found_slab h s addr (in_head a b) = rw a (ap ok b)
found_slab h s addr (in_tail a b e) = rw (a, b) (ap ok e)

kfree_runs :
    (h : Heap) (s addr : ℕ)
    → (addr == 0) ≡ false
    → h.kmalloc_buddy (page_at h addr) ≡ false
    → find_corresponding_slab h addr ≡ ok s
    → kfree h addr ≡ free_object h s addr
unfolding kfree
kfree_runs h s addr a b e = rw (a, b, e)

-- `kfree` on an object in use of a slab, whose page carries the marks of the slab, finds the slab and
-- gives the object back; if the slab has no other object in use, its cache must have room for one
-- more slab that is full of free objects. Nothing fails: the object is the first free object of the
-- slab, and nothing else becomes free. The slab moves to the front of the list of partly used slabs
-- if it was empty, to that of the slabs full of free objects if it was partly used and this was its
-- only object in use, and no other slab changes lists. The slabs, the free objects and the counts of
-- used objects agree again, and no page goes back.
pub kfree-Released :
    (h : Heap) (slabs : Slabs) (free : ℕ → List ℕ) (c s addr : ℕ) (f : Fill) (ys zs : List ℕ)
    → IsValid h slabs free
    → slabs c f ≡ ys ++ s ∷ zs
    → InUse h slabs free s addr
    → h.kmalloc_buddy (page_at h addr) ≡ false
    → Inside h s addr
    → (h.used_objs s ≡ 1 → Spare (h.caches c))
    → Released h free (refilled h slabs c f ys s zs) s addr (kfree h addr)
kfree-Released h slabs free c s addr f ys zs v here u small inside spare =
    subst (Released h free (refilled h slabs c f ys s zs) s addr)
      (sym (kfree_runs h s addr (ground (arith, u.not_null)) small (found_slab h s addr inside)))
      (free_object-Released h slabs free v c s addr u f ys zs here spare)
