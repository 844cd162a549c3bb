-- ===== src/Strings/Blocks.antt =====
-- What the functions of kernel/src/std/memory.c leave in the memory.
use munk_os.Prelude.{
  ℕ, zero, suc, ◌+◌, ◌-◌, ◌%◌, ◌^◌, ◌<◌, ◌≤◌, ◌≡◌, ◌⊎◌, inl, inr, refl, ap, ◌∙◌, arith, ◌&&◌,
  Bool-cases, ==_iff, update, ltb, leb, ◌==◌, if◌then◌else◌,
}
use mathlib.Core.Path.{subst}
use munk_os.Strings.{copy_up, copy_down, memcpy, memmove, memset, Sign, below, same, above, memcmp}

-- The memory after `n` bytes at `src` have gone to `dest` all at once.
abbrev pub moved : ℕ → ℕ → ℕ → (ℕ → ℕ) → ℕ → ℕ
moved dest src n m a = if leb dest a && ltb a (dest + n) then m (src + (a - dest)) else m a

pub moved_step :
    (n dest src : ℕ) (m : ℕ → ℕ) (a : ℕ)
    → (dest ≤ src) ⊎ (src + suc n ≤ dest)
    → moved (dest + 1) (src + 1) n (update m dest (m src)) a ≡ moved dest src (suc n) m a
moved_step n dest src m a h = grind (arith, h)

copy_up-moved :
    (n dest src : ℕ) (m : ℕ → ℕ) (a : ℕ)
    → (dest ≤ src) ⊎ (src + n ≤ dest)
    → copy_up n dest src m a ≡ moved dest src n m a
unfolding copy_up
copy_up-moved zero dest src m a h = ground arith
copy_up-moved (suc n) dest src m a h =
    copy_up-moved n (dest + 1) (src + 1) (update m dest (m src)) a (ground (arith, h))
    ∙ moved_step n dest src m a h

copy_down-moved :
    (n dest src : ℕ) (m : ℕ → ℕ) (a : ℕ)
    → src ≤ dest
    → copy_down n dest src m a ≡ moved dest src n m a
unfolding copy_down
copy_down-moved zero dest src m a h = ground arith
copy_down-moved (suc n) dest src m a h =
    copy_down-moved n dest src (update m (dest + n) (m (src + n))) a h ∙ grind (arith, h)

-- `memmove` copies as if all at once, however the two ranges overlap.
pub memmove-moved :
    (n dest src : ℕ) (m : ℕ → ℕ) (a : ℕ) → memmove dest src n m a ≡ moved dest src n m a
unfolding memmove
memmove-moved n dest src m a = elim (Bool-cases (ltb dest src)) [
  | inl e ↦ rw e (copy_up-moved n dest src m a (inl (ground (arith, e))))
  | inr e ↦ elim (Bool-cases (ltb src dest)) [
    | inl f ↦ rw (e, f) (copy_down-moved n dest src m a (ground (arith, f)))
    | inr f ↦
        let same_place : src ≡ dest = ground (arith, e, f) in rw (e, f) (grind (arith, same_place))
  ]
]

-- `memcpy` copies when the ranges do not overlap, or the target comes first.
pub memcpy-moved :
    (n dest src : ℕ) (m : ℕ → ℕ) (a : ℕ)
    → (dest ≤ src) ⊎ (src + n ≤ dest)
    → memcpy dest src n m a ≡ moved dest src n m a
unfolding memcpy
memcpy-moved n dest src m a h = copy_up-moved n dest src m a h

-- `memset` stores the byte in its range, and nothing elsewhere.
pub memset-range :
    (n s c : ℕ) (m : ℕ → ℕ) (a : ℕ)
    → memset s c n m a ≡ (if leb s a && ltb a (s + n) then c % 2 ^ 8 else m a)
unfolding memset
memset-range zero s c m a = ground arith
memset-range (suc n) s c m a = memset-range n (s + 1) c (update m s (c % 2 ^ 8)) a ∙ ground arith

at_start : (m : ℕ → ℕ) (s : ℕ) → m (s + 0) ≡ m s
at_start m s = ap m (omega arith)

-- The outcome of `memcmp`: the ranges agree, or differ first after `i` bytes, in that order.
pub data Compared (s1 s2 n : ℕ) (m : ℕ → ℕ) (r : Sign) : Type 0 where
  agree : r ≡ same → ((j : ℕ) → j < n → m (s1 + j) ≡ m (s2 + j)) → Compared s1 s2 n m r
  less :
      (i : ℕ)
      → r ≡ below
      → i < n
      → ((j : ℕ) → j < i → m (s1 + j) ≡ m (s2 + j))
      → m (s1 + i) < m (s2 + i)
      → Compared s1 s2 n m r
  greater :
      (i : ℕ)
      → r ≡ above
      → i < n
      → ((j : ℕ) → j < i → m (s1 + j) ≡ m (s2 + j))
      → m (s2 + i) < m (s1 + i)
      → Compared s1 s2 n m r

shifted :
    (m : ℕ → ℕ) (s1 s2 k : ℕ)
    → m s1 ≡ m s2
    → ((j : ℕ) → j < k → m (s1 + 1 + j) ≡ m (s2 + 1 + j))
    → (j : ℕ) → j < suc k
    → m (s1 + j) ≡ m (s2 + j)
shifted m s1 s2 k e h zero l =
    let a : s1 + 0 ≡ s1 = omega arith in let b : s2 + 0 ≡ s2 = omega arith in rw (a, b) e
shifted m s1 s2 k e h (suc j) l =
    let a : s1 + suc j ≡ s1 + 1 + j = omega arith in
    let b : s2 + suc j ≡ s2 + 1 + j = omega arith in rw (a, b) (h j (omega (arith, l)))

further :
    (s1 s2 n : ℕ) (m : ℕ → ℕ) (r : Sign)
    → m s1 ≡ m s2
    → Compared (s1 + 1) (s2 + 1) n m r
    → Compared s1 s2 (suc n) m r
further s1 s2 n m r e (agree q h) = agree q (shifted m s1 s2 n e h)
further s1 s2 n m r e (less i q l h d) =
    let a : s1 + 1 + i ≡ s1 + suc i = omega arith in
    let b : s2 + 1 + i ≡ s2 + suc i = omega arith in
    less (suc i) q (omega (arith, l)) (shifted m s1 s2 i e h) (omega (arith, d, ap m a, ap m b))
further s1 s2 n m r e (greater i q l h d) =
    let a : s1 + 1 + i ≡ s1 + suc i = omega arith in
    let b : s2 + 1 + i ≡ s2 + suc i = omega arith in
    greater (suc i) q (omega (arith, l)) (shifted m s1 s2 i e h) (omega (arith, d, ap m a, ap m b))

-- `memcmp` compares two ranges by their first difference.
pub memcmp-Compared : (n s1 s2 : ℕ) (m : ℕ → ℕ) → Compared s1 s2 n m (memcmp s1 s2 n m)
unfolding memcmp
memcmp-Compared zero s1 s2 m = agree refl (λ j l. absurd (omega arith))
memcmp-Compared (suc n) s1 s2 m = elim (Bool-cases (m s1 == m s2)) [
  | inl e ↦ subst (Compared s1 s2 (suc n) m) (rw e refl) (
      further s1 s2 n m (memcmp (s1 + 1) (s2 + 1) n m) ((==_iff (m s1) (m s2)).0 e)
        (memcmp-Compared n (s1 + 1) (s2 + 1) m))
  | inr e ↦ elim (Bool-cases (ltb (m s1) (m s2))) [
    | inl f ↦
        less 0 (rw (e, f) refl) (omega arith) (λ j l. absurd (omega arith))
          (rw (at_start m s1, at_start m s2) (ground (arith, f)))
    | inr f ↦
        greater 0 (rw (e, f) refl) (omega arith) (λ j l. absurd (omega arith))
          (rw (at_start m s1, at_start m s2) (ground (arith, e, f)))
  ]
]
