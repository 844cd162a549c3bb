-- ===== src/FrameAlloc/Merging.antt =====
-- The merge loop of `buddy_free` in kernel/src/mm/frame_alloc.c: it takes the free buddies of a block
-- off their lists and puts the merged block on its own.
use munk_os.Prelude.{
  ℕ, zero, suc, ◌+◌, ◌*◌, ◌/◌, ◌^◌, ◌≤◌, ◌<◌, ◌≡◌, ◌⊎◌, inl, inr, refl, ap, sym, ◌∙◌, arith, true,
  false, List, ◌∷◌, ◌++◌, mem, update, ltb, if◌then◌else◌, ok, Outcome, length, length-append,
  Bool-cases, mem_split,
}
use mathlib.Core.Path.{subst}
use native.Mathlib.Numerals.{add-one}
use munk_os.Bits.{flip}
use munk_os.Links.{node}
use munk_os.Links.Edits
use munk_os.Links.Segments.{Chain}
use munk_os.FrameAlloc.{
  Buddy, merge_up, page2idx, get_buddy, order_status_at, order_flip_at, link_at, unlink_at,
}
use munk_os.FrameAlloc.Freelist.Laws.{list_unlink-append, Took}
use munk_os.FrameAlloc.Bitmap.{bitmap_flip}
use munk_os.FrameAlloc.Blocks.{Apart, IsBlock, double, pair_of, OneMore}
use munk_os.FrameAlloc.Totals.{total, total-update}
use munk_os.FrameAlloc.Invariant.{IsValid, IsTaken, flip_one, flip_none, Flipped}
use munk_os.FrameAlloc.Changes.{
  Added-taken, OneMore-append, IsValid-less, IsTaken-less, Apart-less, Apart-more,
}
use munk_os.FrameAlloc.Splitting.{SameCounters, page2idx-IsBlock}
use munk_os.FrameAlloc.Buddies.{
  buddy_of, flip_pair, Pair, get_buddy-IsBlock, Pair-buddy, flipped_status, IsTaken-Pair,
  apart-Pair,
}

-- The outcome of putting back a block of order `order` at `x`: its pages are free, all others stay
-- as they were.
pub record Merged (b : Buddy) (c : ℕ → List ℕ) (order x : ℕ) (r : Outcome Buddy) : Type 0 where
  pub result : Buddy
  pub free : ℕ → List ℕ
  pub runs : r ≡ ok result
  pub counters : SameCounters b result
  pub valid : IsValid result free
  pub spares : (u w : ℕ) → 0 < w → Apart c u w → (u + w ≤ x) ⊎ (x + 2 ^ order ≤ u) → Apart free u w
  pub conserves : total 11 free ≡ total 11 c + 2 ^ order

-- The block goes on its own list.
link_at-Merged :
    (b : Buddy) (bm : ℕ → ℕ → ℕ) (c : ℕ → List ℕ) (o x : ℕ)
    → o ≤ 10
    → IsValid b c
    → (t : IsTaken b.pages_count c o x) → Flipped o t.block.number b.bitmap bm
    → Merged b c o x (link_at (record b { bitmap = bm }) x o)
unfolding link_at
link_at-Merged b bm c o x low v t f =
    let a = Added-taken b bm c o x v t f in
    record {
      result = record b { links = a.links; list = update b.list o (node x); bitmap = bm };
      free = update c o (x ∷ c o);
      runs = rw a.runs refl;
      counters = (refl, refl, refl, refl);
      valid = a.valid;
      spares = λ u w h i s. Apart-more c u w o x i s;
      conserves = omega (arith, total-update 11 c o (x ∷ c o) (omega arith));
    }

-- The outcome of taking a free buddy off its list.
record Unlinked (b : Buddy) (bm : ℕ → ℕ → ℕ) (c : ℕ → List ℕ) (o y : ℕ) : Type 0 where
  result : Buddy
  rest : List ℕ
  runs : unlink_at (record b { bitmap = bm }) y o ≡ ok result
  counters : SameCounters b result
  one : OneMore y rest (c o)
  count : length (c o) ≡ suc (length rest)
  valid : IsValid result (update c o rest)

unlink_at-Unlinked :
    (b : Buddy) (bm : ℕ → ℕ → ℕ) (c : ℕ → List ℕ) (o y q : ℕ)
    → IsValid b c
    → mem y (c o) ≡ true
    → y ≡ q * 2 ^ o
    → Flipped o q b.bitmap bm
    → Unlinked b bm c o y
unfolding unlink_at
unlink_at-Unlinked b bm c o y q v i e f =
    let (ys, zs, s) = mem_split y (c o) i in
    let chain = subst (λ xs. Chain b.links (b.list o) xs (v.lists.tail o)) s (v.lists.each o) in
    let (k, h, runs, took) = list_unlink-append b.links (b.list o) ys y zs (v.lists.tail o) chain in
    let new = Edits.once b.links (b.list o) ys y zs (v.lists.tail o) chain in
    let one = subst (OneMore y (ys ++ zs)) (sym s) (OneMore-append y ys zs new) in
    let block : IsBlock b.pages_count o y = record {
      number = q;
      starts = e;
      fits = (v.inside o y i).fits;
    } in
    record {
      result = record b { links = k; list = update b.list o h; bitmap = bm };
      rest = ys ++ zs;
      runs = rw runs refl;
      counters = (refl, refl, refl, refl);
      one = one;
      count = omega (arith, ap length s, length-append ys (y ∷ zs), length-append ys zs);
      valid =
          IsValid-less b bm c o y (ys ++ zs) k h v block one f
            (subst (λ xs. Took b.links xs (ys ++ zs) k h) (sym s) took);
    }

-- One round of the merge loop whose buddy is free, when the later rounds do what they should.
merge_round :
    (b r : Buddy) (c : ℕ → List ℕ) (o x y : ℕ) (rest : List ℕ) (out : Outcome Buddy)
    → o < 10
    → IsValid b c
    → (t : IsTaken b.pages_count c o x) → y ≡ buddy_of o t.block.number
    → mem y (c o) ≡ true
    → SameCounters b r
    → OneMore y rest (c o)
    → length (c o) ≡ suc (length rest)
    → Merged r (update c o rest) (suc o) (if ltb x y then x else y) out
    → Merged b c o x out
merge_round b r c o x y rest out low v t e i same one count m =
    let pair =
      subst (Pair o (t.block.number / 2) x) (sym e)
        (Pair-buddy o t.block.number x t.block.starts) in
    record {
      result = m.result;
      free = m.free;
      runs = m.runs;
      counters = (
        m.counters.0 ∙ same.0,
        m.counters.1 ∙ same.1,
        m.counters.2 ∙ same.2,
        m.counters.3 ∙ same.3,
      );
      valid = m.valid;
      spares = λ u w h a s.
          m.spares u w h (Apart-less c u w o y rest one a)
            (apart-Pair o (t.block.number / 2) x y u w pair h s (a o y i));
      conserves = omega (
        arith,
        m.conserves,
        double o,
        subst (λ l. total 11 (update c o rest) + 2 ^ o * l ≡ total 11 c + 2 ^ o * length rest) count
            (total-update 11 c o rest (omega arith)),
      );
    }

merged_taken :
    (b : Buddy) (c : ℕ → List ℕ) (o x : ℕ) (rest : List ℕ)
    → IsValid b c
    → (t : IsTaken b.pages_count c o x) → mem (buddy_of o t.block.number) (c o) ≡ true
    → OneMore (buddy_of o t.block.number) rest (c o)
    → IsTaken b.pages_count
        (update c o rest)
        (suc o)
        (if ltb x (buddy_of o t.block.number) then x else buddy_of o t.block.number)
merged_taken b c o x rest v t found one =
    let y = buddy_of o t.block.number in
    let s : IsTaken b.pages_count (update c o rest) o x = record {
      block = t.block;
      apart = Apart-less c x (2 ^ o) o y rest one t.apart;
    } in
    IsTaken-Pair b.pages_count (update c o rest) o (t.block.number / 2) x y
      (Pair-buddy o t.block.number x t.block.starts) s
      (IsTaken-less b.pages_count c o y rest v.separate (v.inside o y found) one)

merge_stops :
    (n o x : ℕ) (b : Buddy)
    → page2idx b x ≡ ok x
    → order_status_at (order_flip_at b x o) x o ≡ 1
    → merge_up (suc n) o x b ≡ link_at (order_flip_at b x o) x o
unfolding merge_up
merge_stops n o x b i s = cc

merge_goes_on :
    (n o x y : ℕ) (b r : Buddy)
    → page2idx b x ≡ ok x
    → order_status_at (order_flip_at b x o) x o ≡ 0
    → get_buddy (order_flip_at b x o) x o ≡ ok y
    → unlink_at (order_flip_at b x o) y o ≡ ok r
    → merge_up (suc n) o x b ≡ merge_up n (o + 1) (if ltb x y then x else y) r
unfolding merge_up
merge_goes_on n o x y b r i s g u = cc

pub merge_up-Merged :
    (n o x : ℕ) (b : Buddy) (c : ℕ → List ℕ)
    → o + n ≡ 10
    → IsValid b c
    → IsTaken b.pages_count c o x
    → Merged b c o x (merge_up n o x b)
unfolding merge_up order_flip_at
merge_up-Merged zero o x b c e v t =
    let top : 10 ≡ o = omega (arith, e) in
    let f : Flipped o t.block.number b.bitmap b.bitmap =
      subst (λ m. Flipped m t.block.number b.bitmap b.bitmap) top
        (flip_none b.bitmap t.block.number) in
    let in_range : ltb 10 o ≡ false = ground (arith, top) in
    rw in_range (link_at-Merged b b.bitmap c o x (omega (arith, e)) v t f)
merge_up-Merged (suc n) o x b c e v t =
    let q = t.block.number in
    let low : o < 10 = omega (arith, e) in
    let y = buddy_of o q in
    let bm = update b.bitmap o (bitmap_flip (x / 2 ^ (o + 1)) (b.bitmap o)) in
    let same_pair : x / 2 ^ (o + 1) ≡ q / 2 =
      ap (λ k. k / 2 ^ (o + 1)) t.block.starts ∙ pair_of o q in
    let f : Flipped o q b.bitmap bm = rw same_pair (flip_one b.bitmap o q) in
    let i = page2idx-IsBlock b o x t.block in
    let status = flipped_status b c o x low v t in
    elim (Bool-cases (mem y (c o))) [
      | inr out ↦
          subst (Merged b c o x)
            (sym (merge_stops n o x b i (status ∙ ap (λ k. if k then 0 else 1) out)))
            (link_at-Merged b bm c o x (omega (arith, low)) v t f)
      | inl found ↦
          let u = unlink_at-Unlinked b bm c o y (flip q) v found refl (rw (flip_pair q) f) in
          let g = get_buddy-IsBlock (order_flip_at b x o) o x t.block in
          let z = if ltb x y then x else y in
          let later =
            merge_up-Merged n (suc o) z u.result (update c o u.rest) (omega (arith, low, e)) u.valid
              (subst (λ m. IsTaken m (update c o u.rest) (suc o) z) (sym u.counters.0)
                (merged_taken b c o x u.rest v t found u.one)) in
          let runs =
            merge_goes_on n o x y b u.result i (status ∙ ap (λ k. if k then 0 else 1) found) g
              u.runs in
          let step : merge_up (suc n) o x b ≡ merge_up n (suc o) z u.result =
            runs ∙ ap (λ k. merge_up n k z u.result) (add-one o) in
          subst (Merged b c o x) (sym step) (
            merge_round b u.result c o x y u.rest (merge_up n (suc o) z u.result) low v t refl found
              u.counters u.one u.count later)
    ]
