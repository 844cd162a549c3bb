-- ===== src/FrameAlloc/Startup/Bits.antt =====
-- The walks of `buddy_init` along the freelists, which fill in the bitmaps.
use munk_os.Prelude.{
  ℕ, zero, suc, ◌+◌, ◌/◌, ◌^◌, ◌<◌, ◌≡◌, refl, ap, ◌∙◌, arith, true, false, ◌||◌, if◌then◌else◌,
  inl, inr, List, [], ◌∷◌, Outcome, ok, mem, update, ◌==◌, ==_iff, Bool-cases, length, ltb,
}
use mathlib.Core.Path.{subst}
use munk_os.Links.{Ptr, null, node}
use munk_os.Links.Edits
use munk_os.Links.Segments.{Seg}
use munk_os.FrameAlloc.{Buddy, page2idx, order_flip_at}
use munk_os.FrameAlloc.Bitmap.{bitmap_flip}
use munk_os.FrameAlloc.Blocks.{IsBlock, pair_of, OneMore}
use munk_os.FrameAlloc.Invariant.{AreFreelists, AreBits, flip_one, Flipped}
use munk_os.FrameAlloc.Changes.{OneMore-cons, AreBits-more}
use munk_os.FrameAlloc.Splitting.{page2idx-IsBlock}
use munk_os.FrameAlloc.Startup.{flip_list, flip_orders}

-- The outcome of walking along lists: the bitmaps agree with the blocks `done`, and nothing else
-- has changed.
pub record Walked (b : Buddy) (done : ℕ → List ℕ) (r : Outcome Buddy) : Type 0 where
  pub bits : ℕ → ℕ → ℕ
  pub runs : r ≡ ok (record b { bitmap = bits })
  pub agree : AreBits bits done

-- One more block at order `o` in front of what is done.
abbrev pub onto : ℕ → List ℕ → (ℕ → List ℕ) → ℕ → List ℕ
onto o [] c = c
onto o (x ∷ xs) c = onto o xs (update c o (x ∷ c o))

flip_step :
    (fuel o x : ℕ) (b : Buddy)
    → page2idx b x ≡ ok x
    → flip_list (suc fuel) (node x) o b ≡ flip_list fuel (b.links.next x) o (order_flip_at b x o)
unfolding flip_list
flip_step fuel o x b i = rw i refl

flip_end : (fuel o : ℕ) (b : Buddy) → flip_list (suc fuel) null o b ≡ ok b
unfolding flip_list
flip_end fuel o b = refl

walked_new :
    (c : ℕ → List ℕ) (o x y : ℕ) (xs : List ℕ)
    → mem y xs ≡ true
    → mem x xs ≡ false
    → mem y (c o) ≡ false
    → mem y (update c o (x ∷ c o) o) ≡ false
walked_new c o x y xs i out n =
    rw (Edits.==_refl o) (ground (arith, n, Edits.not_same y x xs i out))

-- The walk along one list, from blocks `c` done, with fuel for the list and its end.
flip_list-Walked :
    (fuel o : ℕ) (back p tail : Ptr) (xs : List ℕ) (b : Buddy) (c : ℕ → List ℕ)
    → length xs < fuel
    → Seg b.links back p xs tail null
    → ((x : ℕ) → mem x xs ≡ true → IsBlock b.pages_count o x)
    → ((x : ℕ) → mem x xs ≡ true → mem x (c o) ≡ false)
    → AreBits b.bitmap c
    → Walked b (onto o xs c) (flip_list fuel p o b)
unfolding order_flip_at
flip_list-Walked zero o back p tail xs b c f s h n a = absurd (omega arith)
flip_list-Walked (suc fuel) o back p tail [] b c f s h n a = record {
  bits = b.bitmap;
  runs = ap (λ q. flip_list (suc fuel) q o b) s.0 ∙ flip_end fuel o b;
  agree = a;
}
flip_list-Walked (suc fuel) o back p tail (x ∷ xs) b c f s h n a =
    let here : mem x (x ∷ xs) ≡ true = ground arith in
    let t = h x here in
    let bm = update b.bitmap o (bitmap_flip (x / 2 ^ (o + 1)) (b.bitmap o)) in
    let i : x / 2 ^ (o + 1) ≡ t.number / 2 =
      ap (λ y. y / 2 ^ (o + 1)) t.starts ∙ pair_of o t.number in
    let fl : Flipped o t.number b.bitmap bm = rw i (flip_one b.bitmap o t.number) in
    let c1 = update c o (x ∷ c o) in
    let a1 : AreBits bm c1 =
      AreBits-more b.bitmap bm c o t.number (x ∷ c o) a fl
        (subst (λ y. OneMore y (c o) (x ∷ c o)) t.starts (OneMore-cons x (c o) (n x here))) in
    let r =
      flip_list-Walked fuel o (node x) (b.links.next x) tail xs (record b { bitmap = bm }) c1
        (omega (arith, f)) s.3 (λ y j. h y (ground (arith, j)))
        (λ y j. walked_new c o x y xs j s.2 (n y (ground (arith, j)))) a1 in
    record {
      bits = r.bits;
      runs =
          ap (λ q. flip_list (suc fuel) q o b) s.0
          ∙ flip_step fuel o x b (page2idx-IsBlock b o x t)
          ∙ r.runs;
      agree = r.agree;
    }

mem-onto :
    (o : ℕ) (xs : List ℕ) (c : ℕ → List ℕ) (p y : ℕ)
    → mem y (onto o xs c p) ≡ (if p == o then mem y xs || mem y (c p) else mem y (c p))
mem-onto o [] c p y = ground arith
mem-onto o (x ∷ xs) c p y = elim (Bool-cases (p == o)) [
  | inl e ↦
      let i = (==_iff p o).0 e in
      mem-onto o xs (update c o (x ∷ c o)) p y ∙ rw (e, i) (ground arith)
  | inr e ↦ mem-onto o xs (update c o (x ∷ c o)) p y ∙ rw e refl
]

-- The lists of the orders below `i` are done.
abbrev pub IsDone : ℕ → (ℕ → List ℕ) → (ℕ → List ℕ) → Type 0
IsDone i c done = (p y : ℕ) → mem y (done p) ≡ (if ltb p i then mem y (c p) else false)

IsDone-onto : (i : ℕ) (c done : ℕ → List ℕ) → IsDone i c done → IsDone (i + 1) c (onto i (c i) done)
IsDone-onto i c done h p y = mem-onto i (c i) done p y ∙ elim (Bool-cases (p == i)) [
  | inl e ↦ let j = (==_iff p i).0 e in rw (h p y, e, j) (ground arith)
  | inr e ↦ rw (h p y) (ground (arith, e))
]

flip_orders-runs :
    (fuel n i : ℕ) (b b' : Buddy)
    → flip_list fuel (b.list i) i b ≡ ok b'
    → flip_orders fuel (suc n) i b ≡ flip_orders fuel n (i + 1) b'
unfolding flip_orders
flip_orders-runs fuel n i b b' h = rw h refl

-- The walks over the lists that are left.
pub flip_orders-Walked :
    (fuel n i : ℕ) (b : Buddy) (c done : ℕ → List ℕ)
    → AreFreelists b.links b.list c
    → ((o x : ℕ) → mem x (c o) ≡ true → IsBlock b.pages_count o x)
    → ((o : ℕ) → o < i + n → length (c o) < fuel)
    → IsDone i c done
    → AreBits b.bitmap done
    → (d : ℕ → List ℕ) × Walked b d (flip_orders fuel n i b) × IsDone (i + n) c d
unfolding flip_orders
flip_orders-Walked fuel zero i b c done w h f s a =
    let e : i ≡ i + 0 = omega arith in
    (done, record { bits = b.bitmap; runs = refl; agree = a }, subst (λ k. IsDone k c done) e s)
flip_orders-Walked fuel (suc n) i b c done w h f s a =
    let r =
      flip_list-Walked fuel i null (b.list i) (w.tail i) (c i) b done (f i (omega arith)) (w.each i)
        (h i) (λ x j. s i x ∙ ground arith) a in
    let b' = record b { bitmap = r.bits } in
    let (d, q, t) =
      flip_orders-Walked fuel n (i + 1) b' c (onto i (c i) done) w h (λ o l. f o (omega (arith, l)))
        (IsDone-onto i c done s) r.agree in
    let e : i + 1 + n ≡ i + suc n = omega arith in
    (
      d,
      record {
        bits = q.bits;
        runs = flip_orders-runs fuel n i b b' r.runs ∙ q.runs;
        agree = q.agree;
      },
      subst (λ k. IsDone k c d) e t,
    )
