-- ===== src/Tasks/Family.antt =====
-- The lists of children that `sibling_next` and `sibling_prev` make in kernel/src/proc/scheduler.c.
use munk_os.Prelude.{
  ℕ, ◌≡◌, refl, arith, true, false, List, [], ◌∷◌, mem, update, ok, ◌==◌, ==_iff, Bool-cases, inl,
  inr,
}
use munk_os.Links.{Ptr, null, node, Links, attach_front}
use munk_os.Links.Segments
use munk_os.Links.Segments.{Chain, Seg, SameOff, Disjoint}
use munk_os.Links.Edits

-- Task `p` has the children `kids p`, and no task is a child twice.
pub record AreChildren (l : Links) (first : ℕ → Ptr) (kids : ℕ → List ℕ) : Type 0 where
  pub each : (p : ℕ) → (tail : Ptr) × Chain l (first p) (kids p) tail
  pub apart : (p q : ℕ) → (p == q) ≡ false → Disjoint (kids p) (kids q)

abbrev pub NoChild : ℕ → (ℕ → List ℕ) → Type 0
NoChild t kids = (p : ℕ) → mem t (kids p) ≡ false

-- The list of `p` changes by writes that spare the other lists.
pub update-AreChildren :
    (l k : Links) (first : ℕ → Ptr) (kids : ℕ → List ℕ) (p : ℕ) (head tail : Ptr)
    (ys touched : List ℕ)
    → ((q : ℕ) → (q == p) ≡ false → Disjoint (kids q) touched)
    → ((q : ℕ) → (q == p) ≡ false → Disjoint (kids q) ys)
    → SameOff touched l k
    → Chain k head ys tail
    → AreChildren l first kids
    → AreChildren k (update first p head) (update kids p ys)
update-AreChildren l k first kids p head tail ys touched spared out same g v = record {
  each = λ q. elim (Bool-cases (q == p)) [
    | inl e ↦ (tail, rw e g)
    | inr e ↦
        let (end, h) = v.each q in
        (
          end,
          rw e (
              Segments.frame l k null (first q) (kids q) end null (λ a i. same a (spared q e a i))
                h),
        )
  ];
  apart = λ q r ne a at_q. ground (
    arith,
    v.apart q r ne a,
    λ (h : (q == p) ≡ false). out q h a,
    λ (h : (r == p) ≡ false) (i : mem a ys ≡ true).
        Edits.not-mem_of_Disjoint (kids r) ys a (out r h) i,
  );
}

-- A new child in front.
pub attach-AreChildren :
    {l : Links} {first : ℕ → Ptr} {kids : ℕ → List ℕ} (p t : ℕ)
    → AreChildren l first kids
    → NoChild t kids
    → (k : Links) × (attach_front l t (first p) ≡ ok k)
      × AreChildren k (update first p (node t)) (update kids p (t ∷ kids p))
attach-AreChildren {l} {first} {kids} p t v out =
    let (tail, g) = v.each p in
    let (k, runs, h, same) = Edits.attach_front-cons l (first p) (kids p) tail t (out p) g in
    let spared : (q : ℕ) → (q == p) ≡ false → Disjoint (kids q) (t ∷ kids p) =
      λ q e a i. ground (arith, v.apart q p e a i, Edits.not_same a t (kids q) i (out q)) in
    (
      k,
      runs,
      update-AreChildren l k first kids p (node t) _ (t ∷ kids p) (t ∷ kids p) spared spared same h
          v,
    )

-- A child's own list is empty as long as it has none.
pub no-AreChildren :
    {l : Links} {first : ℕ → Ptr} {kids : ℕ → List ℕ} (t : ℕ)
    → kids t ≡ []
    → AreChildren l first kids
    → AreChildren l (update first t null) kids
no-AreChildren {l} {first} {kids} t e v = record {
  each = λ p. elim (Bool-cases (p == t)) [
    | inl h ↦ (null, rw (h, (==_iff p t).0 h, e) (refl, refl))
    | inr h ↦ rw h (v.each p)
  ];
  apart = v.apart;
}

-- Writes to a task that is no child.
pub frame-AreChildren :
    {l : Links} {first : ℕ → Ptr} {kids : ℕ → List ℕ} (k : Links) (t : ℕ)
    → NoChild t kids
    → SameOff (t ∷ []) l k
    → AreChildren l first kids
    → AreChildren k first kids
frame-AreChildren {l} {first} {kids} k t out same v = record {
  each = λ p.
      let (tail, g) = v.each p in
      (
        tail,
        Segments.frame l k null (first p) (kids p) tail null
            (λ a i. same a (ground (arith, Edits.not_same a t (kids p) i (out p)))) g,
      );
  apart = v.apart;
}
