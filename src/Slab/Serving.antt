-- ===== src/Slab/Serving.antt =====
-- How `cache_alloc` of kernel/src/mm/slab.c takes an object from a slab.
use munk_os.Prelude.{
  ℕ, ◌+◌, ◌%◌, ◌^◌, ◌≡◌, ◌<◌, refl, ap, sym, ◌∙◌, arith, true, false, ◌&&◌, List, [], ◌∷◌, mem,
  length, ◌==◌, ==_iff, if◌then◌else◌, Bool-cases, inl, inr, update, Outcome, ok,
}
use mathlib.Core.Path.{subst}
use munk_os.FrameAlloc.{inc_size}
use munk_os.Slab.Caches.{SlabCache, Heap, Fill, full, partial, empty, move_slab}
use munk_os.Slab.{take_object, from_partial, from_full}
use munk_os.Slab.Invariant.{same_fill, Objs, Slabs, Listed, AreLinked, AreObjects, IsValid}
use munk_os.Slab.Lists.{
  moved, move_slab-Relinked, mem-moved, mem-moved_same, AreLinked-counter, same-split,
}
use munk_os.Slab.Taking.{taken, room, no_wrap, objs, taken-AreObjects}

-- The lists of slabs once slab `s`, which was first in list `f` in front of `zs`, has given an object:
-- it was full of free objects and is partly used, or it may have given its last one.
abbrev pub served : Heap → Slabs → ℕ → Fill → ℕ → List ℕ → Slabs
served h slabs c full s zs = moved slabs c full partial [] s zs
served h slabs c partial s zs =
    if h.used_objs s + 1 == h.slab_objs s then moved slabs c partial empty [] s zs else slabs
served h slabs c empty s zs = slabs

-- The outcome of an allocation from slab `s`, which is first in list `f` of cache `c`.
pub record Given (h : Heap) (slabs : Slabs) (free : ℕ → List ℕ) (c : ℕ) (f : Fill) (s : ℕ)
    (zs : List ℕ) (r : Outcome (ℕ × Heap)) : Type 0 where
  pub object : ℕ
  pub rest : List ℕ
  pub result : Heap
  pub lists : Slabs
  pub runs : r ≡ ok (object, result)
  pub lists_are : lists ≡ served h slabs c f s zs
  pub owner : h.this_cache s ≡ c
  pub first : free s ≡ object ∷ rest
  pub not_null : 0 < object
  pub valid : IsValid result lists (update free s rest)
  pub listed : Listed lists s
  pub gone : (t : ℕ) → Listed lists t → mem object (update free s rest t) ≡ false
  pub same_buddy : result.buddy ≡ h.buddy
  pub same_words : result.word ≡ h.word

counted : Heap → ℕ → ℕ → SlabCache
counted h s c = record (h.caches c) {
  total_objs_allocated = inc_size (h.caches c).total_objs_allocated 1;
}

abbrev after_take : Heap → ℕ → Heap
after_take h s = taken h s h.links (update h.caches (h.this_cache s) (counted h s (h.this_cache s)))

take_object_lem : (h : Heap) (s : ℕ) → take_object h s ≡ (h.freelist s, after_take h s)
unfolding take_object counted
take_object_lem h s = refl

-- The object that slab `s` has given is in no list of free objects.
taken_gone :
    (h : Heap) (slabs : Slabs) (free : ℕ → List ℕ) (v : AreObjects h slabs free) (c s : ℕ)
    (f : Fill) (i : mem s (slabs c f) ≡ true) (a : ℕ) (rest : List ℕ) (here : free s ≡ a ∷ rest)
    (t : ℕ)
    → Listed slabs t
    → mem a (update free s rest t) ≡ false
taken_gone h slabs free v c s f i a rest here t l = elim (Bool-cases (t == s)) [
  | inl e ↦ rw e (objs h slabs free v c s f i a rest here).2
  | inr e ↦ rw e (v.apart s t (c, f, i) l (ground (arith, e)) a (ap (mem a) here ∙ ground arith))
]

still_runs :
    (h : Heap) (c s : ℕ)
    → (h.freelist s == 0) ≡ false
    → ((h.used_objs s + 1) % 2 ^ 16 == h.slab_objs s) ≡ false
    → from_partial h c s ≡ ok (h.freelist s, after_take h s)
unfolding from_partial take_object counted
still_runs h c s a b = ground (arith, a, b)

last_runs :
    (h h' : Heap) (c s : ℕ)
    → (h.freelist s == 0) ≡ false
    → ((h.used_objs s + 1) % 2 ^ 16 == h.slab_objs s) ≡ true
    → h.word (h.freelist s) ≡ 0
    → move_slab (after_take h s) c partial empty s ≡ ok h'
    → from_partial h c s ≡ ok (h.freelist s, h')
unfolding from_partial take_object counted
last_runs h h' c s a b d e = ground (arith, a, b, d, e)

counter_linked :
    (h : Heap) (s : ℕ) (slabs : Slabs)
    → AreLinked h.links h.caches slabs
    → AreLinked h.links (update h.caches (h.this_cache s) (counted h s (h.this_cache s))) slabs
unfolding counted
counter_linked h s slabs =
    AreLinked-counter h.links h.caches slabs (h.this_cache s)
      (inc_size (h.caches (h.this_cache s)).total_objs_allocated 1)

full_runs :
    (h h1 : Heap) (c s : ℕ)
    → move_slab h c full partial s ≡ ok h1
    → (h1.freelist s == 0) ≡ false
    → from_full h c s ≡ ok (h1.freelist s, after_take h1 s)
unfolding from_full take_object counted
full_runs h h1 c s a b = ground (arith, a, b)

no_objects : (xs : List ℕ) → length xs ≡ 0 → xs ≡ []
no_objects [] e = refl
no_objects (x ∷ xs) e = absurd (omega (arith, e))

-- The first slab of a list of cache `c`, and its first free object.
module _ (h : Heap) (slabs : Slabs) (free : ℕ → List ℕ) (v : IsValid h slabs free) (c s : ℕ)
    (zs : List ℕ) where
  counted_linked :
      AreLinked h.links (update h.caches (h.this_cache s) (counted h s (h.this_cache s))) slabs
  counted_linked = counter_linked h s slabs v.linked

  -- A slab that is listed afterwards was listed before.
  before :
      (slabs' : Slabs)
      → ((d t : ℕ) (g : Fill)
          → (t == s) ≡ false
          → mem t (slabs' d g) ≡ true
          → mem t (slabs d g) ≡ true)
      → (f : Fill) → mem s (slabs c f) ≡ true
      → (t : ℕ) → Listed slabs' t
      → Listed slabs t
  before slabs' kept f i t l = elim (Bool-cases (t == s)) [
    | inl e ↦ (c, f, ap (λ x. mem x (slabs c f)) ((==_iff t s).0 e) ∙ i)
    | inr e ↦ (l.0, l.1, kept l.0 t l.1 e l.2)
  ]

  pub from_partial-Given :
      slabs c partial ≡ s ∷ zs
      → (a : ℕ) (rest : List ℕ) → free s ≡ a ∷ rest
      → Given h slabs free c partial s zs (from_partial h c s)
  from_partial-Given top a rest here =
      let o = v.objects in
      let i : mem s (slabs c partial) ≡ true = ap (mem s) top ∙ ground arith in
      let q = objs h slabs free o c s partial i a rest here in
      let fit = room h slabs free o c s partial i a rest here in
      let exact = no_wrap h slabs free o c s partial i a rest here in
      let some_object : (h.freelist s == 0) ≡ false = ground (arith, q.0, q.1) in
      elim (Bool-cases ((h.used_objs s + 1) % 2 ^ 16 == h.slab_objs s)) [
        | inr e ↦ record {
          object = h.freelist s;
          rest = rest;
          result = after_take h s;
          lists = slabs;
          lists_are = rw (ap (λ k. k == h.slab_objs s) (sym exact) ∙ e) refl;
          runs = still_runs h c s some_object e;
          owner = o.owner c s partial i;
          first = here ∙ ap (λ x. x ∷ rest) (sym q.0);
          not_null = omega (arith, q.0, q.1);
          valid = record {
            linked = counted_linked;
            objects =
                taken-AreObjects h slabs free o c s partial i a rest here slabs h.links _
                  (λ d t g n m. m)
                  (λ d g m. elim (Bool-cases (d == c && same_fill g partial)) [
                    | inl w ↦
                        let (p, r) = same-split c d partial g w in
                        (p, rw r (omega arith, ground (arith, e, exact, o.uses c s partial i)))
                    | inr w ↦ cc (v.linked.apart d c g partial w s m, i)
                  ]);
          };
          listed = (c, partial, i);
          gone =
              subst (λ x. (t : ℕ) → Listed slabs t → mem x (update free s rest t) ≡ false) (sym q.0)
                (taken_gone h slabs free o c s partial i a rest here);
          same_buddy = refl;
          same_words = refl;
        }
        | inl e ↦
            let last : rest ≡ [] = no_objects rest (ground (arith, e, exact, fit)) in
            let null_left : h.word (h.freelist s) ≡ 0 =
              ap h.word q.0 ∙ subst (Objs h.word (h.word a)) last q.3 in
            let m =
              move_slab-Relinked (after_take h s) counted_linked c partial empty refl [] s zs top in
            let to_empty = moved slabs c partial empty [] s zs in
            let at : (d : ℕ) (g : Fill) → mem s (to_empty d g) ≡ true → (d ≡ c) × (g ≡ empty) =
              mem-moved_same (after_take h s) counted_linked c partial empty refl [] s zs top in
            let kept = mem-moved (after_take h s) counted_linked c partial empty refl [] s zs top in
            record {
              object = h.freelist s;
              rest = rest;
              result = taken h s m.links m.caches;
              lists = to_empty;
              lists_are = rw (ap (λ k. k == h.slab_objs s) (sym exact) ∙ e) refl;
              runs = last_runs h (taken h s m.links m.caches) c s some_object e null_left m.runs;
              owner = o.owner c s partial i;
              first = here ∙ ap (λ x. x ∷ rest) (sym q.0);
              not_null = omega (arith, q.0, q.1);
              valid = record {
                linked = m.linked;
                objects =
                    taken-AreObjects h slabs free o c s partial i a rest here to_empty m.links
                      m.caches (λ d t g n j. sym (kept d g t n) ∙ j)
                      (λ d g j.
                        let (p, r) = at d g j in
                        (p, rw r (ground (arith, e, exact, o.uses c s partial i))));
              };
              listed = (c, empty, ground arith);
              gone = λ t l.
                  ap (λ x. mem x (update free s rest t)) q.0
                  ∙ taken_gone h slabs free o c s partial i a rest here t
                      (before to_empty (λ d t g n j. sym (kept d g t n) ∙ j) partial i t l);
              same_buddy = refl;
              same_words = refl;
            }
      ]

  pub from_full-Given :
      slabs c full ≡ s ∷ zs
      → (a : ℕ) (rest : List ℕ) → free s ≡ a ∷ rest
      → Given h slabs free c full s zs (from_full h c s)
  from_full-Given top a rest here =
      let o = v.objects in
      let i : mem s (slabs c full) ≡ true = ap (mem s) top ∙ ground arith in
      let q = objs h slabs free o c s full i a rest here in
      let exact = no_wrap h slabs free o c s full i a rest here in
      let some_object : (h.freelist s == 0) ≡ false = ground (arith, q.0, q.1) in
      let m = move_slab-Relinked h v.linked c full partial refl [] s zs top in
      let to_partial = moved slabs c full partial [] s zs in
      let at : (d : ℕ) (g : Fill) → mem s (to_partial d g) ≡ true → (d ≡ c) × (g ≡ partial) =
        mem-moved_same h v.linked c full partial refl [] s zs top in
      let kept = mem-moved h v.linked c full partial refl [] s zs top in
      let h1 = record h { links = m.links; caches = m.caches } in
      record {
        object = h.freelist s;
        rest = rest;
        result = after_take h1 s;
        lists = to_partial;
        lists_are = refl;
        runs = full_runs h h1 c s m.runs some_object;
        owner = o.owner c s full i;
        first = here ∙ ap (λ x. x ∷ rest) (sym q.0);
        not_null = omega (arith, q.0, q.1);
        valid = record {
          linked = counter_linked h1 s to_partial m.linked;
          objects =
              taken-AreObjects h slabs free o c s full i a rest here to_partial m.links _
                (λ d t g n j. sym (kept d g t n) ∙ j)
                (λ d g j.
                  let (p, r) = at d g j in
                  (p, rw r (let u = o.uses c s full i in (omega arith, omega (arith, u)))));
        };
        listed = (c, partial, ground arith);
        gone = λ t l.
            ap (λ x. mem x (update free s rest t)) q.0
            ∙ taken_gone h slabs free o c s full i a rest here t
                (before to_partial (λ d t g n j. sym (kept d g t n) ∙ j) full i t l);
        same_buddy = refl;
        same_words = refl;
      }
