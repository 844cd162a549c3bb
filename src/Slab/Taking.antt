-- ===== src/Slab/Taking.antt =====
-- What taking the first free object of a slab does to the slabs of kernel/src/mm/slab.c.
use munk_os.Prelude.{
  ℕ, ◌+◌, ◌%◌, ◌^◌, ◌≡◌, ◌<◌, ap, sym, ◌∙◌, arith, true, false, List, ◌∷◌, mem, length, ◌==◌,
  ==_iff, Bool-cases, inl, inr, update,
}
use mathlib.Core.Path.{subst}
use munk_os.Links.{Links}
use munk_os.Slab.Caches.{SlabCache, Heap, Fill}
use munk_os.Slab.Invariant.{Objs, Slabs, Listed, Uses, AreObjects}

-- The heap when slab `s` has given its first free object, with other pointers and caches.
abbrev pub taken : Heap → ℕ → Links → (ℕ → SlabCache) → Heap
taken h s links caches = record h {
  links = links;
  caches = caches;
  freelist = update h.freelist s (h.word (h.freelist s));
  used_objs = update h.used_objs s ((h.used_objs s + 1) % 2 ^ 16);
}

module _ (h : Heap) (slabs : Slabs) (free : ℕ → List ℕ) (v : AreObjects h slabs free) (c s : ℕ)
    (f : Fill) (in_list : mem s (slabs c f) ≡ true) (a : ℕ) (rest : List ℕ)
    (here : free s ≡ a ∷ rest) where
  listed : Listed slabs s
  listed = (c, f, in_list)

  pub room : h.used_objs s + 1 + length rest ≡ h.slab_objs s
  room = omega (arith, v.count s listed, ap length here)

  pub no_wrap : (h.used_objs s + 1) % 2 ^ 16 ≡ h.used_objs s + 1
  no_wrap = omega (arith, room, v.small s listed)

  pub objs : Objs h.word (h.freelist s) (a ∷ rest)
  objs = subst (Objs h.word (h.freelist s)) here (v.chain s listed)

  -- Of the slabs that are listed afterwards, only `s` may stand elsewhere.
  pub taken-AreObjects :
      (slabs' : Slabs) (links : Links) (caches : ℕ → SlabCache)
      → ((d t : ℕ) (g : Fill)
          → (t == s) ≡ false
          → mem t (slabs' d g) ≡ true
          → mem t (slabs d g) ≡ true)
      → ((d : ℕ) (g : Fill)
          → mem s (slabs' d g) ≡ true
          → (d ≡ c) × Uses g (h.used_objs s + 1) (h.slab_objs s))
      → AreObjects (taken h s links caches) slabs' (update free s rest)
  taken-AreObjects slabs' links caches kept at = record {
    owner = λ d t g i. elim (Bool-cases (t == s)) [
      | inl e ↦
          let q = (==_iff t s).0 e in
          let (p, _) = at d g (ap (λ x. mem x (slabs' d g)) (sym q) ∙ i) in
          ap h.this_cache q ∙ v.owner c s f in_list ∙ sym p
      | inr e ↦ v.owner d t g (kept d t g e i)
    ];
    uses = λ d t g i. elim (Bool-cases (t == s)) [
      | inl e ↦
          let q = (==_iff t s).0 e in
          let (_, u) = at d g (ap (λ x. mem x (slabs' d g)) (sym q) ∙ i) in
          rw (e, no_wrap) (subst (λ x. Uses g (h.used_objs s + 1) (h.slab_objs x)) (sym q) u)
      | inr e ↦ rw e (v.uses d t g (kept d t g e i))
    ];
    chain = λ t (d, g, i). elim (Bool-cases (t == s)) [
      | inl e ↦ rw e (subst (λ x. Objs h.word (h.word x) rest) (sym objs.0) objs.3)
      | inr e ↦ rw e (v.chain t (d, g, kept d t g e i))
    ];
    count = λ t (d, g, i). elim (Bool-cases (t == s)) [
      | inl e ↦ rw (e, no_wrap) (room ∙ ap h.slab_objs (sym ((==_iff t s).0 e)))
      | inr e ↦ rw e (v.count t (d, g, kept d t g e i))
    ];
    small = λ t l. elim (Bool-cases (t == s)) [
      | inl e ↦ subst (λ x. h.slab_objs x < 2 ^ 16) (sym ((==_iff t s).0 e)) (v.small s listed)
      | inr e ↦ v.small t (l.0, l.1, kept l.0 t l.1 e l.2)
    ];
    apart = λ t u l m ne x i. elim (Bool-cases (t == s)) [
      | inl e ↦
          let o : (u == s) ≡ false = ground (arith, e, ne) in
          let j : mem x rest ≡ true = rw e at i in
          rw o (
            v.apart s u listed (m.0, m.1, kept m.0 u m.1 o m.2) (ground (arith, o)) x
              (ap (mem x) here ∙ ground (arith, j)))
      | inr e ↦ elim (Bool-cases (u == s)) [
        | inl o ↦
            let j : mem x (free t) ≡ true = rw e at i in
            let out = v.apart t s (l.0, l.1, kept l.0 t l.1 e l.2) listed e x j in
            rw o (ground (arith, out, ap (mem x) here))
        | inr o ↦
            let j : mem x (free t) ≡ true = rw e at i in
            rw o
              (v.apart t u (l.0, l.1, kept l.0 t l.1 e l.2) (m.0, m.1, kept m.0 u m.1 o m.2) ne x j)
      ]
    ];
  }
