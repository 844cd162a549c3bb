-- ===== src/Slab/Lists.antt =====
-- Moving a slab from one list of its cache to another, as kernel/src/mm/slab.c does when the slab
-- becomes partly used, runs out of free objects, or gets its objects back.
use munk_os.Prelude.{
  ℕ, ◌≡◌, refl, ap, ◌∙◌, arith, true, false, ◌&&◌, List, ◌∷◌, ◌++◌, mem, mem-append, ◌==◌, ==_iff,
  Bool-cases, inl, inr, update, Outcome, ok, if◌then◌else◌,
}
use mathlib.Core.Path.{subst}
use munk_os.Links.{Ptr, null, node, Links}
use munk_os.Links.Segments
use munk_os.Links.Segments.{Chain, SameOff, Disjoint}
use munk_os.Links.Edits
use munk_os.FrameAlloc.{inc_size, dec_size}
use munk_os.FrameAlloc.Freelist.{list_link, list_unlink}
use munk_os.FrameAlloc.Freelist.Laws.{list_link-cons, list_unlink-append}
use munk_os.Slab.Caches.{
  SlabCache, Heap, Fill, full, partial, empty, slabs_of, count_of, set_slabs, with_cache, move_slab,
}
use munk_os.Slab.Invariant.{same_fill, Slabs, AreLinked}

-- The slabs when list `f` of cache `c` is `xs`.
abbrev pub put : Slabs → ℕ → Fill → List ℕ → Slabs
put slabs c f xs d g = if d == c && same_fill g f then xs else slabs d g

pub same_fill→eq : (f g : Fill) → same_fill f g ≡ true → f ≡ g
same_fill→eq full full e = refl
same_fill→eq partial partial e = refl
same_fill→eq empty empty e = refl
same_fill→eq full partial e = cc
same_fill→eq full empty e = cc
same_fill→eq partial full e = cc
same_fill→eq partial empty e = cc
same_fill→eq empty full e = cc
same_fill→eq empty partial e = cc

slabs_of-set :
    (k : SlabCache) (f g : Fill) (p : Ptr) (n : ℕ)
    → slabs_of (set_slabs k f p n) g ≡ (if same_fill g f then p else slabs_of k g)
slabs_of-set k full full p n = refl
slabs_of-set k full partial p n = refl
slabs_of-set k full empty p n = refl
slabs_of-set k partial full p n = refl
slabs_of-set k partial partial p n = refl
slabs_of-set k partial empty p n = refl
slabs_of-set k empty full p n = refl
slabs_of-set k empty partial p n = refl
slabs_of-set k empty empty p n = refl

pub same-split : (c d : ℕ) (f g : Fill) → (d == c && same_fill g f) ≡ true → (d ≡ c) × (g ≡ f)
same-split c d f g e = (ground (arith, e), same_fill→eq g f (ground (arith, e)))

AreLinked-update :
    (l k : Links) (caches : ℕ → SlabCache) (slabs : Slabs) (c : ℕ) (f : Fill) (head tail : Ptr)
    (n : ℕ) (xs touched : List ℕ)
    → ((d : ℕ) (g : Fill)
        → (d == c && same_fill g f) ≡ false
        → Disjoint (slabs d g) touched × Disjoint (slabs d g) xs)
    → SameOff touched l k
    → Chain k head xs tail
    → AreLinked l caches slabs
    → AreLinked k (update caches c (set_slabs (caches c) f head n)) (put slabs c f xs)
AreLinked-update l k caches slabs c f head tail n xs touched spared same s v = record {
  each = λ d g. elim (Bool-cases (d == c && same_fill g f)) [
    | inl e ↦
        let (p, q) = same-split c d f g e in
        let h : slabs_of (update caches c (set_slabs (caches c) f head n) d) g ≡ head =
          ground (arith, e, slabs_of-set (caches c) f g head n) in
        rw (e, h) (tail, s)
    | inr e ↦
        let (end, t) = v.each d g in
        let h : slabs_of (update caches c (set_slabs (caches c) f head n) d) g
            ≡ slabs_of (caches d) g =
          other d g e in
        rw (e, h)
          (
            end,
            Segments.frame l k null (slabs_of (caches d) g) (slabs d g) end null
                (λ a i. same a ((spared d g e).0 a i)) t,
          )
  ];
  apart = λ d d' g g' ne a at_d. ground (
    arith,
    v.apart d d' g g' ne a,
    λ (h : (d == c && same_fill g f) ≡ false) (p : mem a xs ≡ true).
        Edits.not-mem_of_Disjoint (slabs d g) xs a (spared d g h).1 p,
    λ (h : (d' == c && same_fill g' f) ≡ false). (spared d' g' h).1 a,
  );
}
  where
    other :
        (d : ℕ) (g : Fill)
        → (d == c && same_fill g f) ≡ false
        → slabs_of (update caches c (set_slabs (caches c) f head n) d) g ≡ slabs_of (caches d) g
    other d g e = elim (Bool-cases (d == c)) [
      | inl h ↦
          let q = (==_iff d c).0 h in
          rw (h, q) (slabs_of-set (caches c) f g head n ∙ ground (arith, e, h))
      | inr h ↦ rw h
    ]

-- The slabs when `s` has gone from between `ys` and `zs` in list `from` to the front of list `to`.
abbrev pub moved : Slabs → ℕ → Fill → Fill → List ℕ → ℕ → List ℕ → Slabs
moved slabs c from to ys s zs =
    put (put slabs c from (ys ++ zs)) c to (s ∷ put slabs c from (ys ++ zs) c to)

-- A cache with one slab less in list `from`, whose head is `p`, and one more in list `to`.
abbrev pub moved_cache : SlabCache → Fill → Fill → Ptr → Ptr → SlabCache
moved_cache k from to p q =
    let k' = set_slabs k from p (dec_size (count_of k from) 1) in
    set_slabs k' to q (inc_size (count_of k' to) 1)

-- The call returns; only pointers of slabs and the heads and counts of the two lists have changed.
pub record Relinked (h : Heap) (c : ℕ) (from to : Fill) (slabs : Slabs) (r : Outcome Heap)
    : Type 0 where
  pub old_head : Ptr
  pub new_head : Ptr
  pub links : Links
  pub caches : ℕ → SlabCache
  pub runs : r ≡ ok (record h { links = links; caches = caches })
  pub linked : AreLinked links caches slabs
  pub cache : caches c ≡ moved_cache (h.caches c) from to old_head new_head

relink : Heap → ℕ → Fill → Links → Ptr → ℕ → Heap
relink h c f l head n = with_cache (record h { links = l }) c (set_slabs (h.caches c) f head n)

unlinked : Heap → ℕ → Fill → Links → Ptr → Heap
unlinked h c f l p = relink h c f l p (dec_size (count_of (h.caches c) f) 1)

move_runs :
    (h : Heap) (c : ℕ) (from to : Fill) (s : ℕ) (l k : Links) (p q : Ptr)
    → list_unlink h.links s (slabs_of (h.caches c) from) ≡ ok (l, p)
    → list_link l s (slabs_of ((unlinked h c from l p).caches c) to) ≡ ok (k, q)
    → move_slab h c from to s
      ≡ ok (
          relink
            (unlinked h c from l p)
            c
            to
            k
            q
            (inc_size (count_of ((unlinked h c from l p).caches c) to) 1))
unfolding move_slab relink unlinked
move_runs h c from to s l k p q a b = rw (a, b)

module _ (h : Heap) {slabs : Slabs} (v : AreLinked h.links h.caches slabs) (c : ℕ) (from to : Fill)
    (ne : same_fill from to ≡ false) (ys : List ℕ) (s : ℕ) (zs : List ℕ)
    (here : slabs c from ≡ ys ++ s ∷ zs) where
  all_apart :
      (d : ℕ) (g : Fill)
      → (d == c && same_fill g from) ≡ false
      → Disjoint (slabs d g) (ys ++ s ∷ zs)
  all_apart d g e a i = ground (arith, v.apart d c g from e a i, ap (mem a) here)

  rest_apart :
      (d : ℕ) (g : Fill) → (d == c && same_fill g from) ≡ false → Disjoint (slabs d g) (ys ++ zs)
  rest_apart d g e a i =
      ground (arith, all_apart d g e a i, mem-append a ys zs, mem-append a ys (s ∷ zs))

  -- `s` is in no list once it has been taken out.
  away : (d : ℕ) (g : Fill) → mem s (put slabs c from (ys ++ zs) d g) ≡ false
  away d g = elim (Bool-cases (d == c && same_fill g from)) [
    | inl e ↦
        let (tail, t) = v.each c from in
        rw e (
          Edits.once h.links (slabs_of (h.caches c) from) ys s zs tail
            (subst (λ xs. Chain h.links (slabs_of (h.caches c) from) xs tail) here t))
    | inr e ↦ rw e (
        Edits.not-mem_of_Disjoint (slabs d g) (ys ++ s ∷ zs) s (all_apart d g e)
          (ground (arith, mem-append s ys (s ∷ zs))))
  ]

  -- Afterwards `s` is in list `to` only, and all others are where they were.
  pub mem-moved_same :
      (d : ℕ) (g : Fill) → mem s (moved slabs c from to ys s zs d g) ≡ true → (d ≡ c) × (g ≡ to)
  mem-moved_same d g i = elim (Bool-cases (d == c && same_fill g to)) [
    | inl e ↦ same-split c d to g e
    | inr e ↦ cc (away d g, rw e at i)
  ]

  pub mem-moved :
      (d : ℕ) (g : Fill) (t : ℕ)
      → (t == s) ≡ false
      → mem t (moved slabs c from to ys s zs d g) ≡ mem t (slabs d g)
  mem-moved d g t n =
      let shorter : (d : ℕ) (g : Fill)
          → mem t (put slabs c from (ys ++ zs) d g) ≡ mem t (slabs d g) =
        λ d g. elim (Bool-cases (d == c && same_fill g from)) [
          | inl e ↦
              let (p, q) = same-split c d from g e in
              rw (e, p, q)
                (ground (arith, ap (mem t) here, mem-append t ys zs, mem-append t ys (s ∷ zs)))
          | inr e ↦ rw e
        ] in
      elim (Bool-cases (d == c && same_fill g to)) [
        | inl e ↦ let (p, q) = same-split c d to g e in rw (e, p, q, n) (shorter c to)
        | inr e ↦ rw e (shorter d g)
      ]

  pub move_slab-Relinked :
      Relinked h c from to (moved slabs c from to ys s zs) (move_slab h c from to s)
  unfolding relink unlinked
  move_slab-Relinked =
      let (tail, g) = v.each c from in
      let g' = subst (λ xs. Chain h.links (slabs_of (h.caches c) from) xs tail) here g in
      let (l, p, unlinks, took) =
        list_unlink-append h.links (slabs_of (h.caches c) from) ys s zs tail g' in
      let n = dec_size (count_of (h.caches c) from) 1 in
      let h1 = relink h c from l p n in
      let slabs1 = put slabs c from (ys ++ zs) in
      let v1 : AreLinked l h1.caches slabs1 =
        AreLinked-update h.links l h.caches slabs c from p took.tail n (ys ++ zs) (ys ++ s ∷ zs)
          (λ d g e. (all_apart d g e, rest_apart d g e)) took.same took.chain v in
      let (tail1, g1) = v1.each c to in
      let (k, t, links, chain, same) =
        list_link-cons l (slabs_of (h1.caches c) to) (slabs1 c to) tail1 s (away c to) g1 in
      let m = inc_size (count_of (h1.caches c) to) 1 in
      let apart : (d : ℕ) (g : Fill)
          → (d == c && same_fill g to) ≡ false
          → Disjoint (slabs1 d g) (s ∷ slabs1 c to) =
        λ d g e a i.
          ground (arith, v1.apart d c g to e a i, Edits.not_same a s (slabs1 d g) i (away d g)) in
      record {
        old_head = p;
        new_head = node s;
        cache = rw (Edits.==_refl c) refl;
        links = k;
        caches = update h1.caches c (set_slabs (h1.caches c) to (node s) m);
        runs = move_runs h c from to s l k p (node s) unlinks links;
        linked =
            AreLinked-update l k h1.caches slabs1 c to (node s) t m (s ∷ slabs1 c to)
              (s ∷ slabs1 c to) (λ d g e. (apart d g e, apart d g e)) same chain v1;
      }

-- The counters of a cache are not about its lists.
pub AreLinked-counter :
    (l : Links) (caches : ℕ → SlabCache) (slabs : Slabs) (c n : ℕ)
    → AreLinked l caches slabs
    → AreLinked l (update caches c (record (caches c) { total_objs_allocated = n })) slabs
AreLinked-counter l caches slabs c n v = record {
  each = λ d g. subst (λ p. (tail : Ptr) × Chain l p (slabs d g) tail) (same d g) (v.each d g);
  apart = v.apart;
}
  where
    at_c :
        (g : Fill)
        → slabs_of (caches c) g ≡ slabs_of (record (caches c) { total_objs_allocated = n }) g
    at_c full = refl
    at_c partial = refl
    at_c empty = refl

    same :
        (d : ℕ) (g : Fill)
        → slabs_of (caches d) g
          ≡ slabs_of (update caches c (record (caches c) { total_objs_allocated = n }) d) g
    same d g = elim (Bool-cases (d == c)) [
      | inl e ↦ let q = (==_iff d c).0 e in rw (e, q) (at_c g)
      | inr e ↦ rw e
    ]
