-- ===== src/FrameAlloc/Changes.antt =====
-- Freelists of the buddy allocator with one block more or one block less.
use munk_os.Prelude.{
  ℕ, ◌+◌, ◌*◌, ◌^◌, ◌≤◌, ◌≡◌, ◌⊎◌, inl, inr, refl, sym, ◌∙◌, arith, true, false, ◌&&◌, List, ◌∷◌,
  ◌++◌, mem, mem-append, update, ◌==◌, ==_iff, Bool-cases, ok,
}
use munk_os.Links.{Ptr, Links, node}
use munk_os.Links.Segments.{Disjoint}
use munk_os.Links.Edits
use munk_os.FrameAlloc.{Buddy}
use munk_os.FrameAlloc.Freelist.{list_link}
use munk_os.FrameAlloc.Freelist.Laws.{list_link-cons, Took}
use munk_os.FrameAlloc.Bitmap.{bitmap_status}
use munk_os.FrameAlloc.Blocks.{Apart, IsBlock, pow_pos, pair_bit, OneMore, pair_bit-OneMore}
use munk_os.FrameAlloc.Invariant.{
  Separate, AreBits, IsValid, IsTaken, AreFreelists-update, Flipped, IsTaken-nowhere,
}

pub OneMore-cons : (x : ℕ) (xs : List ℕ) → mem x xs ≡ false → OneMore x xs (x ∷ xs)
OneMore-cons x xs h = record { more = λ a. refl; new = h }

pub OneMore-append :
    (x : ℕ) (ys zs : List ℕ) → mem x (ys ++ zs) ≡ false → OneMore x (ys ++ zs) (ys ++ x ∷ zs)
OneMore-append x ys zs h = record {
  more = λ a. ground (arith, mem-append a ys (x ∷ zs), mem-append a ys zs);
  new = h;
}

-- The bitmaps agree again when one block comes or goes and the bit of its pair is flipped.
pub AreBits-more :
    (bm bm' : ℕ → ℕ → ℕ) (c : ℕ → List ℕ) (o q : ℕ) (ys : List ℕ)
    → AreBits bm c
    → Flipped o q bm bm'
    → OneMore (q * 2 ^ o) (c o) ys
    → AreBits bm' (update c o ys)
AreBits-more bm bm' c o q ys bits flip m p n low = elim (Bool-cases (p == o)) [
  | inl e ↦
      let h = (==_iff p o).0 e in
      let old : bitmap_status n (bm o) ≡ pair_bit (2 ^ o) n (c o) = bits o n (omega arith) in
      let new = pair_bit-OneMore (2 ^ o) q n (c o) ys (pow_pos o) m in
      rw (flip p n low, e, h, old) (sym new)
  | inr e ↦ rw (flip p n low, e, bits p n low) refl
]

pub AreBits-less :
    (bm bm' : ℕ → ℕ → ℕ) (c : ℕ → List ℕ) (o q : ℕ) (ys : List ℕ)
    → AreBits bm c
    → Flipped o q bm bm'
    → OneMore (q * 2 ^ o) ys (c o)
    → AreBits bm' (update c o ys)
AreBits-less bm bm' c o q ys bits flip m p n low = elim (Bool-cases (p == o)) [
  | inl e ↦
      let h = (==_iff p o).0 e in
      let old : bitmap_status n (bm o) ≡ pair_bit (2 ^ o) n (c o) = bits o n (omega arith) in
      let new = pair_bit-OneMore (2 ^ o) q n ys (c o) (pow_pos o) m in
      rw (flip p n low, e, h, old, new) (ground arith)
  | inr e ↦ rw (flip p n low, e, bits p n low) refl
]

-- What is on the lists after a block is put in front of one, and after one is taken off.
more_cases :
    (c : ℕ → List ℕ) (o x : ℕ) (p y : ℕ)
    → mem y (update c o (x ∷ c o) p) ≡ true
    → ((p ≡ o) × (y ≡ x)) ⊎ (mem y (c p) ≡ true)
more_cases c o x p y i = elim (Bool-cases (p == o)) [
  | inl e ↦ ground (arith, (==_iff p o).0 e)
  | inr e ↦ inr (ground arith)
]

pub less_cases :
    (c : ℕ → List ℕ) (o x : ℕ) (ys : List ℕ) (p y : ℕ)
    → OneMore x ys (c o)
    → mem y (update c o ys p) ≡ true
    → (mem y (c p) ≡ true) × (((p == o) && (y == x)) ≡ false)
less_cases c o x ys p y m i = elim (Bool-cases (p == o)) [
  | inl e ↦
      let h = (==_iff p o).0 e in
      let j : mem y ys ≡ true = ground arith in
      let ne = Edits.not_same y x ys j m.new in rw h (rw (m.more y, ne) (ground arith))
  | inr e ↦ (ground arith, ground arith)
]

not_on_more :
    (c : ℕ → List ℕ) (o x : ℕ)
    → ((p r : ℕ) → (p == r) ≡ false → Disjoint (c p) (c r))
    → ((p : ℕ) → mem x (c p) ≡ false)
    → (p : ℕ) → (p == o) ≡ false
    → Disjoint (c p) (x ∷ c o)
not_on_more c o x apart out p ne a i =
    rw (apart p o ne a i, Edits.not_same a x (c p) i (out p)) refl

not_on_less :
    (c : ℕ → List ℕ) (o x : ℕ) (ys : List ℕ)
    → ((p r : ℕ) → (p == r) ≡ false → Disjoint (c p) (c r))
    → OneMore x ys (c o)
    → (p : ℕ) → (p == o) ≡ false
    → Disjoint (c p) ys
not_on_less c o x ys apart m p ne a i = ground (arith, m.more a, apart p o ne a i)

-- The outcome of putting a block on a list: the call runs, and the allocator is valid.
pub record Added (b : Buddy) (bm' : ℕ → ℕ → ℕ) (c : ℕ → List ℕ) (o x : ℕ) : Type 0 where
  pub links : Links
  pub runs : list_link b.links x (b.list o) ≡ ok (links, node x)
  pub valid :
      IsValid
        (record b { links = links; list = update b.list o (node x); bitmap = bm' })
        (update c o (x ∷ c o))

Separate-more :
    (count : ℕ) (c : ℕ → List ℕ) (o x : ℕ)
    → Separate c
    → IsTaken count c o x
    → Separate (update c o (x ∷ c o))
Separate-more count c o x s t p r y z i j = elim (more_cases c o x p y i) [
  | inl a ↦ elim (more_cases c o x r z j) [
    | inl d ↦ inl (a.0 ∙ sym d.0, a.1 ∙ sym d.1)
    | inr d ↦ inr (rw (a.0, a.1) (t.apart r z d))
  ]
  | inr a ↦ elim (more_cases c o x r z j) [
    | inl d ↦ inr (rw (d.0, d.1) (ground (arith, t.apart p y a)))
    | inr d ↦ s p r y z a d
  ]
]

-- A taken block can be put on its freelist.
pub Added-taken :
    (b : Buddy) (bm' : ℕ → ℕ → ℕ) (c : ℕ → List ℕ) (o x : ℕ)
    → IsValid b c
    → (t : IsTaken b.pages_count c o x) → Flipped o t.block.number b.bitmap bm'
    → Added b bm' c o x
Added-taken b bm' c o x v t flip =
    let out = IsTaken-nowhere b.pages_count c o x t in
    let (k, tail, runs, chain, same) =
      list_link-cons b.links (b.list o) (c o) (v.lists.tail o) x (out o) (v.lists.each o) in
    record {
      links = k;
      runs = runs;
      valid = record {
        lists =
            AreFreelists-update b.links k b.list c o (node x) tail (x ∷ c o) (x ∷ c o)
              (not_on_more c o x v.lists.disjoint out) (not_on_more c o x v.lists.disjoint out) same
              chain v.lists;
        inside = λ p y i. elim (more_cases c o x p y i) [
          | inl a ↦ rw (a.0, a.1) t.block
          | inr h ↦ v.inside p y h
        ];
        separate = Separate-more b.pages_count c o x v.separate t;
        bits =
            AreBits-more b.bitmap bm' c o t.block.number (x ∷ c o) v.bits flip
              (rw (← t.block.starts) (OneMore-cons x (c o) (out o)));
      };
    }

-- A block taken off its freelist is taken.
pub IsTaken-less :
    (count : ℕ) (c : ℕ → List ℕ) (o x : ℕ) (ys : List ℕ)
    → Separate c
    → IsBlock count o x
    → OneMore x ys (c o)
    → IsTaken count (update c o ys) o x
IsTaken-less count c o x ys s b m = record {
  block = b;
  apart = λ p y i.
      let (j, ne) = less_cases c o x ys p y m i in
      let here : mem x (c o) ≡ true = rw (m.more x, Edits.==_refl x) refl in
      elim (s o p x y here j) [ inl e ↦ absurd (ground (arith, e.0, e.1, ne)) | inr h ↦ h ];
}

-- Taking a block off its freelist, and flipping its bit, keeps the allocator valid.
pub IsValid-less :
    (b : Buddy) (bm' : ℕ → ℕ → ℕ) (c : ℕ → List ℕ) (o x : ℕ) (ys : List ℕ) (k : Links) (h : Ptr)
    → IsValid b c
    → (t : IsBlock b.pages_count o x) → OneMore x ys (c o)
    → Flipped o t.number b.bitmap bm'
    → Took b.links (c o) ys k h
    → IsValid (record b { links = k; list = update b.list o h; bitmap = bm' }) (update c o ys)
IsValid-less b bm' c o x ys k h v t m flip took = record {
  lists =
      AreFreelists-update b.links k b.list c o h took.tail ys (c o)
        (λ p ne. v.lists.disjoint p o ne) (not_on_less c o x ys v.lists.disjoint m) took.same
        took.chain v.lists;
  inside = λ p y i. v.inside p y (less_cases c o x ys p y m i).0;
  separate = λ p r y z i j.
      v.separate p r y z (less_cases c o x ys p y m i).0 (less_cases c o x ys r z m j).0;
  bits = AreBits-less b.bitmap bm' c o t.number ys v.bits flip (rw (← t.starts) m);
}

-- Pages keep apart from the free blocks when a block elsewhere is freed, or any block is taken.
pub Apart-more :
    (c : ℕ → List ℕ) (u w o x : ℕ)
    → Apart c u w
    → (u + w ≤ x) ⊎ (x + 2 ^ o ≤ u)
    → Apart (update c o (x ∷ c o)) u w
Apart-more c u w o x a e p y i = elim (more_cases c o x p y i) [
  | inl h ↦ rw (h.0, h.1) e
  | inr h ↦ a p y h
]

pub Apart-less :
    (c : ℕ → List ℕ) (u w o x : ℕ) (ys : List ℕ)
    → OneMore x ys (c o)
    → Apart c u w
    → Apart (update c o ys) u w
Apart-less c u w o x ys m a p y i = a p y (less_cases c o x ys p y m i).0
