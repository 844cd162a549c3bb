-- ===== src/Prelude/Lists.antt =====
-- Lists measured and indexed by native numbers, under the library's names; arrays and maps as
-- functions.
use Prim.Native.Nat.{ℕ, zero, suc, ◌+◌}
use mathlib.Core.Path.{ap, sym, fun_ext, ◌≡◌, refl}
use mathlib.Core.Logic.{◌⊎◌, inl, inr}
use mathlib.Core.Bool.{Bool, true, false, ◌||◌, or_assoc}
use mathlib.Core.List.{List, [], ◌∷◌, ◌++◌}
use mathlib.Core.Option.{Option, none, some}
use native.Mathlib.Omega.{arith}
use munk_os.Prelude.Tests.{Bool-cases, ==_iff, ◌==◌, if◌then◌else◌}

module _ {ℓ} {A : Type ℓ} where
  abbrev pub length : List A → ℕ
  length [] = 0
  length (_ ∷ xs) = suc (length xs)

  abbrev pub get_elem? : List A → ℕ → Option A
  get_elem? [] _ = none
  get_elem? (x ∷ _) zero = some x
  get_elem? (_ ∷ xs) (suc i) = get_elem? xs i

  abbrev pub get_or : List A → ℕ → A → A
  get_or [] _ d = d
  get_or (x ∷ _) zero _ = x
  get_or (_ ∷ xs) (suc i) d = get_or xs i d

  abbrev pub take : ℕ → List A → List A
  take zero _ = []
  take (suc n) [] = []
  take (suc n) (x ∷ xs) = x ∷ take n xs

  abbrev pub drop : ℕ → List A → List A
  drop zero xs = xs
  drop (suc n) [] = []
  drop (suc n) (_ ∷ xs) = drop n xs

  -- A map, or an unbounded array, with one entry replaced.
  abbrev pub update : (ℕ → A) → ℕ → A → ℕ → A
  update f k v n = if n == k then v else f n

  pub length-append : (xs ys : List A) → length (xs ++ ys) ≡ length xs + length ys
  length-append [] ys = omega arith
  length-append (x ∷ xs) ys = omega (arith, length-append xs ys)

-- Boolean membership, which the tactics decide.
abbrev pub mem : ℕ → List ℕ → Bool
mem a [] = false
mem a (x ∷ xs) = (a == x) || mem a xs

pub mem-append : (a : ℕ) (xs ys : List ℕ) → mem a (xs ++ ys) ≡ (mem a xs || mem a ys)
mem-append a [] ys = refl
mem-append a (x ∷ xs) ys = rw (mem-append a xs ys, or_assoc)

-- To split on a computed list and keep the equation.
pub List-cases {ℓ} :
    {A : Type ℓ} (xs : List A) → (xs ≡ []) ⊎ ((x : A) × (ys : List A) × (xs ≡ x ∷ ys))
List-cases [] = inl refl
List-cases (x ∷ xs) = inr (x, xs, refl)

pub update_same {ℓ} : {A : Type ℓ} (f : ℕ → A) (k : ℕ) → update f k (f k) ≡ f
update_same f k =
    fun_ext λ n. elim (Bool-cases (n == k)) [
      | inl e ↦ rw e (ap f (sym ((==_iff n k).0 e)))
      | inr e ↦ rw e
    ]

-- A list splits at each of its members.
pub mem_split : (t : ℕ) (xs : List ℕ) → mem t xs ≡ true → (ys zs : List ℕ) × (xs ≡ ys ++ t ∷ zs)
mem_split t [] i = cc
mem_split t (x ∷ xs) i = elim (Bool-cases (t == x)) [
  | inl e ↦ ([], xs, ground arith)
  | inr e ↦ let r = mem_split t xs (ground arith) in (x ∷ r.0, r.1, ap (λ zs. x ∷ zs) r.2)
]
