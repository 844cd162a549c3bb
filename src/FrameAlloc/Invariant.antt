-- ===== src/FrameAlloc/Invariant.antt =====
-- The invariant of the buddy allocator, and what putting a block on a freelist or taking one off
-- does to it.
use munk_os.Prelude.{
  ℕ, ◌+◌, ◌-◌, ◌/◌, ◌^◌, ◌≤◌, ◌<◌, ◌≡◌, ◌⊎◌, inl, inr, arith, true, false, ◌&&◌, List, mem, update,
  ◌==◌, ==_iff, Bool-cases, if◌then◌else◌,
}
use munk_os.Links.{Ptr, Links}
use munk_os.Links.Segments
use munk_os.Links.Segments.{Chain, SameOff, Disjoint}
use munk_os.Links.Edits
use munk_os.FrameAlloc.{Buddy}
use munk_os.FrameAlloc.Bitmap.{bitmap_flip, bitmap_status}
use munk_os.FrameAlloc.Bitmap.Laws.{bitmap_status-bitmap_flip}
use munk_os.FrameAlloc.Blocks.{Apart, IsBlock, pow_pos, pair_bit}

-- The freelists hold the blocks `c`.
pub record AreFreelists (l : Links) (list : ℕ → Ptr) (c : ℕ → List ℕ) : Type 0 where
  pub tail : ℕ → Ptr
  pub each : (o : ℕ) → Chain l (list o) (c o) (tail o)
  pub disjoint : (o p : ℕ) → (o == p) ≡ false → Disjoint (c o) (c p)

-- Two free blocks are the same or have no page in common.
abbrev pub Separate : (ℕ → List ℕ) → Type 0
Separate c =
    (o p x y : ℕ)
    → mem x (c o) ≡ true
    → mem y (c p) ≡ true
    → ((o ≡ p) × (x ≡ y)) ⊎ ((x + 2 ^ o ≤ y) ⊎ (y + 2 ^ p ≤ x))

-- Bit `n` of an order below the highest says whether exactly one block of pair `n` is free.
abbrev pub AreBits : (ℕ → ℕ → ℕ) → (ℕ → List ℕ) → Type 0
AreBits bm c = (o n : ℕ) → o < 10 → bitmap_status n (bm o) ≡ pair_bit (2 ^ o) n (c o)

-- The freelists hold `c`: blocks in range, no two of which overlap, and the bitmaps agree.
pub record IsValid (b : Buddy) (c : ℕ → List ℕ) : Type 0 where
  pub lists : AreFreelists b.links b.list c
  pub inside : (o x : ℕ) → mem x (c o) ≡ true → IsBlock b.pages_count o x
  pub separate : Separate c
  pub bits : AreBits b.bitmap c

-- A block that is in range and has no page in common with a free block.
pub record IsTaken (count : ℕ) (c : ℕ → List ℕ) (o x : ℕ) : Type 0 where
  pub block : IsBlock count o x
  pub apart : Apart c x (2 ^ o)

pub AreFreelists-update :
    (l k : Links) (list : ℕ → Ptr) (c : ℕ → List ℕ) (o : ℕ) (head tail : Ptr) (ys touched : List ℕ)
    → ((p : ℕ) → (p == o) ≡ false → Disjoint (c p) touched)
    → ((p : ℕ) → (p == o) ≡ false → Disjoint (c p) ys)
    → SameOff touched l k
    → Chain k head ys tail
    → AreFreelists l list c
    → AreFreelists k (update list o head) (update c o ys)
AreFreelists-update l k list c o head tail ys touched spared out same s w = record {
  tail = update w.tail o tail;
  each = λ p. elim (Bool-cases (p == o)) [
    | inl e ↦ rw e s
    | inr e ↦ rw e (
        Segments.frame l k _ (list p) (c p) (w.tail p) _ (λ a i. same a (spared p e a i))
          (w.each p))
  ];
  disjoint = λ p r ne a at_p. ground (
    arith,
    w.disjoint p r ne a,
    λ (h : (p == o) ≡ false). out p h a,
    λ (h : (r == o) ≡ false) (i : mem a ys ≡ true).
        Edits.not-mem_of_Disjoint (c r) ys a (out r h) i,
  );
}

-- A flip of the bit of block `q` of order `o`, and no other below the highest order.
abbrev pub Flipped : ℕ → ℕ → (ℕ → ℕ → ℕ) → (ℕ → ℕ → ℕ) → Type 0
Flipped o q bm bm' =
    (p n : ℕ)
    → p < 10
    → bitmap_status n (bm' p)
      ≡ (if (p == o) && (n == q / 2) then 1 - bitmap_status n (bm p) else bitmap_status n (bm p))

pub flip_one :
    (bm : ℕ → ℕ → ℕ) (o q : ℕ) → Flipped o q bm (update bm o (bitmap_flip (q / 2) (bm o)))
flip_one bm o q p n low = elim (Bool-cases (p == o)) [
  | inl e ↦ rw (e, ← (==_iff p o).0 e) (bitmap_status-bitmap_flip n (q / 2) (bm p))
  | inr e ↦ rw e
]

-- At the highest order no bit counts.
pub flip_none : (bm : ℕ → ℕ → ℕ) (q : ℕ) → Flipped 10 q bm bm
flip_none bm q p n low = ground arith

-- A taken block is on no freelist.
pub IsTaken-nowhere :
    (count : ℕ) (c : ℕ → List ℕ) (o x : ℕ) → IsTaken count c o x → (p : ℕ) → mem x (c p) ≡ false
IsTaken-nowhere count c o x t p = elim (Bool-cases (mem x (c p))) [
  | inl i ↦ absurd (ground (arith, t.apart p x i, pow_pos o, pow_pos p))
  | inr i ↦ i
]
