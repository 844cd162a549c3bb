-- ===== src/Strings/Text.antt =====
-- What the functions of kernel/src/std/string.c do to zero-terminated strings.
use munk_os.Prelude.{
  ℕ, zero, suc, ◌+◌, ◌-◌, ◌<◌, ◌≤◌, ◌≡◌, ◌⊎◌, inl, inr, refl, sym, ap, ◌∙◌, arith, false, ◌&&◌,
  Bool-cases, ==_iff, update, ltb, leb, ◌==◌, if◌then◌else◌, List, [], ◌∷◌, length, Option, none,
  some, Outcome, ok, mem,
}
use mathlib.Core.Path.{subst}
use munk_os.Strings.{strlen, strcpy, strncpy, strcat, strchr, strcmp}
use munk_os.Strings.Blocks.{moved, moved_step, memset-range}

-- The string at `s` is `xs`: its characters, none of which is zero, and then a zero.
abbrev pub IsText : (ℕ → ℕ) → ℕ → List ℕ → Type 0
IsText m s [] = m s ≡ 0
IsText m s (x ∷ xs) = (m s ≡ x) × ((x == 0) ≡ false) × IsText m (s + 1) xs

-- With fuel for the string and its end, `strlen` returns its length.
pub strlen-length :
    (fuel s : ℕ) (m : ℕ → ℕ) (xs : List ℕ)
    → length xs < fuel
    → IsText m s xs
    → strlen fuel s m ≡ ok (length xs)
unfolding strlen
strlen-length zero s m xs f t = absurd (omega arith)
strlen-length (suc fuel) s m [] f t = rw t refl
strlen-length (suc fuel) s m (x ∷ xs) f t =
    rw (t.0, t.1, strlen-length fuel (s + 1) m xs (omega (arith, f)) t.2) (ap ok (omega arith))

-- A string that is written before, or behind, stays.
IsText-update :
    (m : ℕ → ℕ) (s d v : ℕ) (xs : List ℕ)
    → (d < s) ⊎ (s + length xs < d)
    → IsText m s xs
    → IsText (update m d v) s xs
IsText-update m s d v [] o t = ground (arith, o, t)
IsText-update m s d v (x ∷ xs) o t =
    (ground (arith, o, t.0), t.1, IsText-update m (s + 1) d v xs (ground (arith, o)) t.2)

-- Copying to a place that the string does not reach, `strcpy` returns with the string and its zero
-- at the new place, and all else as before.
pub strcpy-moved :
    (fuel dest src : ℕ) (m : ℕ → ℕ) (xs : List ℕ)
    → length xs < fuel
    → IsText m src xs
    → (dest < src) ⊎ (src + length xs < dest)
    → (k : ℕ → ℕ) × (strcpy fuel dest src m ≡ ok k)
      × ((a : ℕ) → k a ≡ moved dest src (suc (length xs)) m a)
unfolding strcpy
strcpy-moved zero dest src m xs f t o = absurd (omega arith)
strcpy-moved (suc fuel) dest src m [] f t o = (update m dest 0, rw t refl, λ a. grind (arith, t))
strcpy-moved (suc fuel) dest src m (x ∷ xs) f t o =
    let m1 = update m dest (m src) in
    let later = IsText-update m (src + 1) dest (m src) xs (ground (arith, o)) t.2 in
    let r =
      strcpy-moved fuel (dest + 1) (src + 1) m1 xs (omega (arith, f)) later (ground (arith, o)) in
    let z : (m src == 0) ≡ false = ap (λ k. k == 0) t.0 ∙ t.1 in
    (r.0, rw z r.1, λ a. r.2 a ∙ moved_step (suc (length xs)) dest src m a (ground (arith, o)))

-- The outcome of `strchr`: the first place of the character, which may be the terminating zero.
pub data Searched (m : ℕ → ℕ) (s c : ℕ) (xs : List ℕ) (r : Outcome (Option ℕ)) : Type 0 where
  nowhere : r ≡ ok none → (c == 0) ≡ false → mem c xs ≡ false → Searched m s c xs r
  found :
      (i : ℕ)
      → r ≡ ok (some (s + i))
      → i ≤ length xs
      → m (s + i) ≡ c
      → ((j : ℕ) → j < i → (m (s + j) == c) ≡ false)
      → Searched m s c xs r

start : (s : ℕ) → s ≡ s + 0
start s = omega arith

search_before :
    (m : ℕ → ℕ) (s c i : ℕ)
    → (m s == c) ≡ false
    → ((j : ℕ) → j < i → (m (s + 1 + j) == c) ≡ false)
    → (j : ℕ) → j < suc i
    → (m (s + j) == c) ≡ false
search_before m s c i e h zero l = ap (λ k. m k == c) (sym (start s)) ∙ e
search_before m s c i e h (suc j) l =
    let shift : s + suc j ≡ s + 1 + j = omega arith in
    ap (λ k. m k == c) shift ∙ h j (omega (arith, l))

search_further :
    (m : ℕ → ℕ) (s c x : ℕ) (xs : List ℕ) (r : Outcome (Option ℕ))
    → m s ≡ x
    → (x == c) ≡ false
    → Searched m (s + 1) c xs r
    → Searched m s c (x ∷ xs) r
search_further m s c x xs r e ne (nowhere q z out) = nowhere q z (ground (arith, ne, out))
search_further m s c x xs r e ne (found i q l h first) =
    let shift : s + 1 + i ≡ s + suc i = omega arith in
    found (suc i) (q ∙ ap (λ k. ok (some k)) shift) (omega (arith, l)) (sym (ap m shift) ∙ h)
      (search_before m s c i (ap (λ k. k == c) e ∙ ne) first)

-- `strchr` on a string, with fuel for it and its end, returns: NULL only if the character is not
-- zero and not in the string, and else a pointer to its first occurrence.
pub strchr-Searched :
    (fuel s c : ℕ) (m : ℕ → ℕ) (xs : List ℕ)
    → length xs < fuel
    → IsText m s xs
    → Searched m s c xs (strchr fuel s c m)
unfolding strchr
strchr-Searched zero s c m xs f t = absurd (omega arith)
strchr-Searched (suc fuel) s c m [] f t = elim (Bool-cases (c == 0)) [
  | inl z ↦
      found 0 (rw (t, z) (ap (λ k. ok (some k)) (start s))) (omega arith)
        (ap m (sym (start s)) ∙ t ∙ sym ((==_iff c 0).0 z)) (λ j l. absurd (omega arith))
  | inr z ↦ nowhere (rw (t, z) refl) z refl
]
strchr-Searched (suc fuel) s c m (x ∷ xs) f t = elim (Bool-cases (x == c)) [
  | inl e ↦
      found 0 (rw (t.0, t.1, e) (ap (λ k. ok (some k)) (start s))) (omega arith)
        (ap m (sym (start s)) ∙ t.0 ∙ (==_iff x c).0 e) (λ j l. absurd (omega arith))
  | inr e ↦ subst (Searched m s c (x ∷ xs)) (rw (t.0, t.1, e) refl) (
      search_further m s c x xs (strchr fuel (s + 1) c m) t.0 e
        (strchr-Searched fuel (s + 1) c m xs (omega (arith, f)) t.2))
]

-- The memory after the first `l` of `n` bytes have been copied and the rest filled with zeros.
abbrev pub padded : ℕ → ℕ → ℕ → ℕ → (ℕ → ℕ) → ℕ → ℕ
padded dest src l n m a =
    if leb dest a && ltb a (dest + n)
    then (if ltb a (dest + l) then m (src + (a - dest)) else 0)
    else m a

padded_step :
    (dest src l n : ℕ) (m : ℕ → ℕ) (a : ℕ)
    → (dest < src) ⊎ (src + suc l < dest)
    → padded (dest + 1) (src + 1) l n (update m dest (m src)) a
      ≡ padded dest src (suc l) (suc n) m a
padded_step dest src l n m a h = grind (arith, h)

-- Copying to a place that the string does not reach, `strncpy` stores exactly `n` bytes: the string
-- as far as they go, and zeros behind it.
pub strncpy-padded :
    (n dest src : ℕ) (m : ℕ → ℕ) (xs : List ℕ) (a : ℕ)
    → IsText m src xs
    → (dest < src) ⊎ (src + length xs < dest)
    → strncpy dest src n m a ≡ padded dest src (length xs) n m a
unfolding strncpy
strncpy-padded zero dest src m xs a t o = ground arith
strncpy-padded (suc n) dest src m [] a t o = rw t (memset-range (suc n) dest 0 m a ∙ ground arith)
strncpy-padded (suc n) dest src m (x ∷ xs) a t o =
    let m1 = update m dest (m src) in
    let later = IsText-update m (src + 1) dest (m src) xs (ground (arith, o)) t.2 in
    let z : (m src == 0) ≡ false = ap (λ k. k == 0) t.0 ∙ t.1 in
    rw z (
      strncpy-padded n (dest + 1) (src + 1) m1 xs a later (ground (arith, o))
      ∙ padded_step dest src (length xs) n m a o)

-- Two strings are equal, or this is their first difference, at which one of them may end.
pub data Difference : List ℕ → List ℕ → ℕ → ℕ → Type 0 where
  equal : (xs : List ℕ) → Difference xs xs 0 0
  longer : (x : ℕ) (xs : List ℕ) → (x == 0) ≡ false → Difference (x ∷ xs) [] x 0
  shorter : (y : ℕ) (ys : List ℕ) → (y == 0) ≡ false → Difference [] (y ∷ ys) 0 y
  differ : (x y : ℕ) (xs ys : List ℕ) → (x == y) ≡ false → Difference (x ∷ xs) (y ∷ ys) x y
  after :
      (x : ℕ) (xs ys : List ℕ) (a b : ℕ) → Difference xs ys a b → Difference (x ∷ xs) (x ∷ ys) a b

-- `strcmp` on two strings, with fuel for the first and its end, returns the characters at their first
-- difference, whose difference is then the result, or two zeros if the strings are equal.
pub strcmp-Difference :
    (fuel s1 s2 : ℕ) (m : ℕ → ℕ) (xs ys : List ℕ)
    → length xs < fuel
    → IsText m s1 xs
    → IsText m s2 ys
    → (a : ℕ) × (b : ℕ) × (strcmp fuel s1 s2 m ≡ ok (a, b)) × Difference xs ys a b
unfolding strcmp
strcmp-Difference zero s1 s2 m xs ys f t u = absurd (omega arith)
strcmp-Difference (suc fuel) s1 s2 m [] [] f t u = (0, 0, rw (t, u) refl, equal [])
strcmp-Difference (suc fuel) s1 s2 m [] (y ∷ ys) f t u = (0, y, rw (t, u.0) refl, shorter y ys u.1)
strcmp-Difference (suc fuel) s1 s2 m (x ∷ xs) [] f t u =
    (x, 0, rw (t.0, u, t.1) refl, longer x xs t.1)
strcmp-Difference (suc fuel) s1 s2 m (x ∷ xs) (y ∷ ys) f t u = elim (Bool-cases (x == y)) [
  | inr e ↦ (x, y, rw (t.0, u.0, t.1, e) refl, differ x y xs ys e)
  | inl e ↦
      let r = strcmp-Difference fuel (s1 + 1) (s2 + 1) m xs ys (omega (arith, f)) t.2 u.2 in
      let i = (==_iff x y).0 e in
      (
        r.0,
        r.1,
        rw (t.0, u.0, t.1, e) r.2,
        subst (λ z. Difference (x ∷ xs) (z ∷ ys) r.0 r.1) i (after x xs ys r.0 r.1 r.3),
      )
]

-- `strcat` puts the second string in place of the zero of the first, if that place lies before the
-- second string or behind it.
pub strcat-moved :
    (fuel dest src : ℕ) (m : ℕ → ℕ) (xs ys : List ℕ)
    → length xs < fuel
    → length ys < fuel
    → IsText m dest xs
    → IsText m src ys
    → (dest + length xs < src) ⊎ (src + length ys < dest + length xs)
    → (k : ℕ → ℕ) × (strcat fuel dest src m ≡ ok k)
      × ((a : ℕ) → k a ≡ moved (dest + length xs) src (suc (length ys)) m a)
unfolding strcat
strcat-moved fuel dest src m xs ys f g t u o =
    let r = strcpy-moved fuel (dest + length xs) src m ys g u o in
    (r.0, rw (strlen-length fuel dest m xs f t) r.1, r.2)
