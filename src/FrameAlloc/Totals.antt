-- ===== src/FrameAlloc/Totals.antt =====
-- The number of pages on the freelists of the buddy allocator.
use munk_os.Prelude.{
  ℕ, zero, suc, ◌+◌, ◌*◌, ◌^◌, ◌<◌, ◌≡◌, refl, arith, List, length, update, ◌==◌, ==_iff,
  Bool-cases, inl, inr,
}

-- The pages in the blocks of the orders below `n`.
abbrev pub total : ℕ → (ℕ → List ℕ) → ℕ
total zero c = 0
total (suc n) c = total n c + 2 ^ n * length (c n)

total_above :
    (n : ℕ) (c : ℕ → List ℕ) (o : ℕ) (ys : List ℕ)
    → (n < suc o)
    → total n (update c o ys) ≡ total n c
total_above zero c o ys h = refl
total_above (suc n) c o ys h = ground (arith, total_above n c o ys (omega arith))

pub total-update :
    (n : ℕ) (c : ℕ → List ℕ) (o : ℕ) (ys : List ℕ)
    → o < n
    → total n (update c o ys) + 2 ^ o * length (c o) ≡ total n c + 2 ^ o * length ys
total-update zero c o ys h = absurd (omega arith)
total-update (suc n) c o ys h = elim (Bool-cases (n == o)) [
  | inl e ↦ let i = (==_iff n o).0 e in rw (e, i, total_above o c o ys (omega arith)) (omega arith)
  | inr e ↦ rw e (omega (arith, total-update n c o ys (ground arith)))
]
