-- ===== src/Links/Segments.antt =====
-- List segments: the nodes that the pointers of a store lead through, and how writes change them.
use munk_os.Prelude.{ℕ, ◌≡◌, refl, true, false, List, [], ◌∷◌, ◌++◌, arith, mem, mem-append}
use munk_os.Links.{Ptr, null, node, Links, set_next}

-- From `p`, whose back pointer is `back`, the `next` pointers lead through the distinct nodes `xs`
-- to `stop`, and the `prev` pointers lead back. `last` is the node before `stop`.
abbrev pub Seg : Links → Ptr → Ptr → List ℕ → Ptr → Ptr → Type 0
Seg l back p [] last stop = (p ≡ stop) × (back ≡ last)
Seg l back p (x ∷ xs) last stop =
    (p ≡ node x) × (l.prev x ≡ back) × (mem x xs ≡ false) × Seg l (node x) (l.next x) xs last stop

-- A whole list: `head` and `tail` are its ends.
abbrev pub Chain : Links → Ptr → List ℕ → Ptr → Type 0
Chain l head xs tail = Seg l null head xs tail null

-- Two stores have the same pointers at the nodes of `xs`.
abbrev pub SameOn : List ℕ → Links → Links → Type 0
SameOn xs l k = (a : ℕ) → mem a xs ≡ true → (k.next a ≡ l.next a) × (k.prev a ≡ l.prev a)

-- Two stores have the same pointers at all nodes outside `xs`.
abbrev pub SameOff : List ℕ → Links → Links → Type 0
SameOff xs l k = (a : ℕ) → mem a xs ≡ false → (k.next a ≡ l.next a) × (k.prev a ≡ l.prev a)

abbrev pub Disjoint : List ℕ → List ℕ → Type 0
Disjoint xs ys = (a : ℕ) → mem a xs ≡ true → mem a ys ≡ false

pub frame :
    (l k : Links) (back p : Ptr) (xs : List ℕ) (last stop : Ptr)
    → SameOn xs l k
    → Seg l back p xs last stop
    → Seg k back p xs last stop
frame l k back p [] last stop same s = s
frame l k back p (x ∷ xs) last stop same s =
    ground
      (arith, same x, frame l k (node x) (l.next x) xs last stop (λ a i. same a (ground arith)))

pub append :
    (l : Links) (back p : Ptr) (xs : List ℕ) (mid q : Ptr) (ys : List ℕ) (last stop : Ptr)
    → Disjoint xs ys
    → Seg l back p xs mid q
    → Seg l mid q ys last stop
    → Seg l back p (xs ++ ys) last stop
append l back p [] mid q ys last stop apart s t = ground arith
append l back p (x ∷ xs) mid q ys last stop apart s t = ground (
  arith,
  mem-append x xs ys,
  apart x,
  append l (node x) (l.next x) xs mid q ys last stop (λ a i. apart a (ground arith)),
)

-- A segment splits wherever its list does.
pub record Split (l : Links) (back p : Ptr) (xs ys : List ℕ) (last stop : Ptr) : Type 0 where
  pub mid : Ptr
  pub next : Ptr
  pub front : Seg l back p xs mid next
  pub rest : Seg l mid next ys last stop
  pub apart : Disjoint xs ys

pub split :
    (l : Links) (back p : Ptr) (xs ys : List ℕ) (last stop : Ptr)
    → Seg l back p (xs ++ ys) last stop
    → Split l back p xs ys last stop
split l back p [] ys last stop s = record {
  mid = back;
  next = p;
  front = (refl, refl);
  rest = s;
  apart = λ a i. cc;
}
split l back p (x ∷ xs) ys last stop s =
    let r = split l (node x) (l.next x) xs ys last stop s.3 in
    record {
      mid = r.mid;
      next = r.next;
      front = (s.0, s.1, ground (arith, mem-append x xs ys), r.front);
      rest = r.rest;
      apart = λ a i. ground (arith, mem-append x xs ys, r.apart a);
    }

-- The last pointer of a segment that is not empty is one of its nodes.
pub last_node :
    (l : Links) (back p : Ptr) (x : ℕ) (xs : List ℕ) (last stop : Ptr)
    → Seg l back p (x ∷ xs) last stop
    → (z : ℕ) × (last ≡ node z) × (mem z (x ∷ xs) ≡ true)
last_node l back p x [] last stop s = (x, ground arith, ground arith)
last_node l back p x (y ∷ xs) last stop s =
    let r = last_node l (node x) (l.next x) y xs last stop s.3 in (r.0, r.1, ground arith)

-- Writing the `next` pointer of the last node moves where a segment stops.
pub redirect :
    (l : Links) (back p : Ptr) (xs : List ℕ) (z : ℕ) (stop q : Ptr)
    → mem z xs ≡ true
    → Seg l back p xs (node z) stop
    → Seg (set_next l z q) back p xs (node z) q
redirect l back p [] z stop q i s = cc
redirect l back p (x ∷ []) z stop q i s = ground arith
redirect l back p (x ∷ y ∷ xs) z stop q i s =
    let r = last_node l (node x) (l.next x) y xs (node z) stop s.3 in
    let found : mem z (y ∷ xs) ≡ true = ground arith in
    let later = redirect l (node x) (l.next x) (y ∷ xs) z stop q found s.3 in ground arith
