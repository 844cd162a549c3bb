-- ===== src/Slab/Giving.antt =====
-- What giving an object back to its slab does to the slabs of kernel/src/mm/slab.c.
use munk_os.Prelude.{
  ℕ, ◌+◌, ◌-◌, ◌%◌, ◌^◌, ◌≡◌, ◌<◌, refl, ap, sym, ◌∙◌, arith, true, false, List, ◌∷◌, mem, length,
  ◌==◌, ==_iff, Bool-cases, inl, inr, update,
}
use mathlib.Core.Path.{subst}
use munk_os.Links.{Links}
use munk_os.Links.Edits
use munk_os.Slab.Caches.{SlabCache, Heap, Fill}
use munk_os.Slab.Invariant.{Objs, frame-Objs, Slabs, Listed, Uses, AreObjects}

-- The heap when slab `s` has got the object `addr` back, with other pointers and caches.
abbrev pub given : Heap → ℕ → ℕ → Links → (ℕ → SlabCache) → Heap
given h s addr links caches = record h {
  links = links;
  caches = caches;
  word = update h.word addr (h.freelist s);
  freelist = update h.freelist s addr;
  used_objs = update h.used_objs s ((h.used_objs s + 2 ^ 16 - 1) % 2 ^ 16);
}

-- `addr` is an object of slab `s` that is in use.
pub record InUse (h : Heap) (slabs : Slabs) (free : ℕ → List ℕ) (s addr : ℕ) : Type 0 where
  pub not_null : 0 < addr
  pub used : 0 < h.used_objs s
  pub taken : (t : ℕ) → Listed slabs t → mem addr (free t) ≡ false

module _ (h : Heap) (slabs : Slabs) (free : ℕ → List ℕ) (v : AreObjects h slabs free) (c s : ℕ)
    (f : Fill) (in_list : mem s (slabs c f) ≡ true) (addr : ℕ) (u : InUse h slabs free s addr) where
  listed : Listed slabs s
  listed = (c, f, in_list)

  room : h.used_objs s + length (free s) ≡ h.slab_objs s
  room = v.count s listed

  pub no_wrap : (h.used_objs s + 2 ^ 16 - 1) % 2 ^ 16 ≡ h.used_objs s - 1
  no_wrap = omega (arith, room, v.small s listed, u.used)

  given_chain :
      (t : ℕ) → Listed slabs t → Objs (update h.word addr (h.freelist s)) (h.freelist t) (free t)
  given_chain t l =
      frame-Objs h.word (update h.word addr (h.freelist s)) (h.freelist t) (free t)
        (λ a i. ground (arith, Edits.not_same a addr (free t) i (u.taken t l))) (v.chain t l)

  pub given-AreObjects :
      (slabs' : Slabs) (links : Links) (caches : ℕ → SlabCache)
      → ((d t : ℕ) (g : Fill)
          → (t == s) ≡ false
          → mem t (slabs' d g) ≡ true
          → mem t (slabs d g) ≡ true)
      → ((d : ℕ) (g : Fill)
          → mem s (slabs' d g) ≡ true
          → (d ≡ c) × Uses g (h.used_objs s - 1) (h.slab_objs s))
      → AreObjects (given h s addr links caches) slabs' (update free s (addr ∷ free s))
  given-AreObjects slabs' links caches kept at = record {
    owner = λ d t g i. elim (Bool-cases (t == s)) [
      | inl e ↦
          let q = (==_iff t s).0 e in
          let (p, _) = at d g (ap (λ x. mem x (slabs' d g)) (sym q) ∙ i) in
          ap h.this_cache q ∙ v.owner c s f in_list ∙ sym p
      | inr e ↦ v.owner d t g (kept d t g e i)
    ];
    uses = λ d t g i. elim (Bool-cases (t == s)) [
      | inl e ↦
          let q = (==_iff t s).0 e in
          let (_, w) = at d g (ap (λ x. mem x (slabs' d g)) (sym q) ∙ i) in
          rw (e, no_wrap) (subst (λ x. Uses g (h.used_objs s - 1) (h.slab_objs x)) (sym q) w)
      | inr e ↦ rw e (v.uses d t g (kept d t g e i))
    ];
    chain = λ t (d, g, i). elim (Bool-cases (t == s)) [
      | inl e ↦
          rw (e, Edits.==_refl addr) (refl, u.not_null, u.taken s listed, given_chain s listed)
      | inr e ↦ rw e (given_chain t (d, g, kept d t g e i))
    ];
    count = λ t (d, g, i). elim (Bool-cases (t == s)) [
      | inl e ↦
          rw (e, no_wrap) (omega (arith, room, u.used) ∙ ap h.slab_objs (sym ((==_iff t s).0 e)))
      | inr e ↦ rw e (v.count t (d, g, kept d t g e i))
    ];
    small = λ t l. elim (Bool-cases (t == s)) [
      | inl e ↦ subst (λ x. h.slab_objs x < 2 ^ 16) (sym ((==_iff t s).0 e)) (v.small s listed)
      | inr e ↦ v.small t (l.0, l.1, kept l.0 t l.1 e l.2)
    ];
    apart = λ t r l m ne x i. elim (Bool-cases (t == s)) [
      | inl e ↦
          let o : (r == s) ≡ false = ground (arith, e, ne) in
          let j : mem x (addr ∷ free s) ≡ true = rw e at i in
          let lr : Listed slabs r = (m.0, m.1, kept m.0 r m.1 o m.2) in rw o (at_front r lr o x j)
      | inr e ↦ elim (Bool-cases (r == s)) [
        | inl o ↦
            let j : mem x (free t) ≡ true = rw e at i in
            let lt : Listed slabs t = (l.0, l.1, kept l.0 t l.1 e l.2) in
            let out = v.apart t s lt listed e x j in
            rw o (ground (arith, out, Edits.not_same x addr (free t) j (u.taken t lt)))
        | inr o ↦
            let j : mem x (free t) ≡ true = rw e at i in
            rw o
              (v.apart t r (l.0, l.1, kept l.0 t l.1 e l.2) (m.0, m.1, kept m.0 r m.1 o m.2) ne x j)
      ]
    ];
  }
    where
      at_front :
          (r : ℕ)
          → Listed slabs r
          → (r == s) ≡ false
          → (x : ℕ) → mem x (addr ∷ free s) ≡ true
          → mem x (free r) ≡ false
      at_front r lr o x j = elim (Bool-cases (x == addr)) [
        | inl p ↦ ap (λ y. mem y (free r)) ((==_iff x addr).0 p) ∙ u.taken r lr
        | inr p ↦ v.apart s r listed lr (ground (arith, o)) x (ground (arith, j, p))
      ]
