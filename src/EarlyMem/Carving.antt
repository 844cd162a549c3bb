-- ===== src/EarlyMem/Carving.antt =====
-- `early_mem_alloc` of kernel/src/mm/mem_init.c: what it cuts out of the memory map.
use munk_os.Prelude.{
  ℕ, ◌+◌, ◌-◌, ◌*◌, ◌%◌, ◌^◌, ◌≤◌, ◌<◌, ◌≡◌, refl, ap, ◌∙◌, arith, true, false, ◌&&◌, not, List, [],
  ◌∷◌, ◌++◌, Option, none, some, Outcome, ok, panic, Bool-cases, inl, inr, ◌⊎◌, leb, ltb, update,
}
use munk_os.FrameAlloc.Startup.{Region}
use munk_os.EarlyMem.{
  EarlyMem, first_fit, with_first, cut_front, record_mapping, early_mem_alloc, usable_bytes,
}

-- The usable entries end at page boundaries below `count` pages, are in ascending order from page
-- `f` on, and do not overlap.
pub data AreCarved (count : ℕ) : ℕ → List Region → Type 0 where
  no_more : {f : ℕ} → AreCarved count f []
  usable :
      {f : ℕ} {r : Region} {regions : List Region} (e : ℕ)
      → r.usable ≡ true
      → f * 4096 ≤ r.start
      → r.start + r.length ≡ e * 4096
      → e ≤ count
      → e * 4096 < 2 ^ 63
      → AreCarved count e regions
      → AreCarved count f (r ∷ regions)
  skipped :
      {f : ℕ} {r : Region} {regions : List Region}
      → r.usable ≡ false
      → AreCarved count f regions
      → AreCarved count f (r ∷ regions)

-- No byte from `a` on, of `n` bytes, is in a usable entry.
abbrev pub Clear : ℕ → ℕ → List Region → Type 0
Clear a n [] = Unit {0}
Clear a n (r ∷ regions) =
    (r.usable ≡ true → (a + n ≤ r.start) ⊎ (r.start + r.length ≤ a)) × Clear a n regions

-- No usable entry has `size` bytes.
abbrev pub NoneFits : ℕ → List Region → Type 0
NoneFits size [] = Unit {0}
NoneFits size (r ∷ regions) = (r.usable && leb size r.length ≡ false) × NoneFits size regions

-- Bytes below the first entry are in none.
Clear-below :
    (count f a n : ℕ) (regions : List Region)
    → AreCarved count f regions
    → a + n ≤ f * 4096
    → Clear a n regions
Clear-below count f a n [] no_more l = tt
Clear-below count f a n (r ∷ regions) (usable e u s t c b v) l =
    (λ w. inl (omega (arith, l, s)), Clear-below count e a n regions v (omega (arith, l, s, t)))
Clear-below count f a n (r ∷ regions) (skipped u v) l =
    (λ w. cc, Clear-below count f a n regions v l)

-- What the search cuts out, of `size` bytes at `start`: the front of the first entry that has them.
pub record Cut (count f size : ℕ) (regions : List Region) (start : ℕ) (rest : List Region)
    : Type 0 where
  pub before : List Region
  pub entry : Region
  pub behind : List Region
  pub entries : regions ≡ before ++ entry ∷ behind
  pub first : NoneFits size before
  pub fits : (entry.usable && leb size entry.length) ≡ true
  pub front : start ≡ entry.start
  pub left : rest ≡ before ++ cut_front entry size ∷ behind
  pub carved : AreCarved count f rest
  pub clear : Clear start size rest
  pub inside :
      (u n : ℕ) → Clear u n regions → (0 < n) → 0 < size → (u + n ≤ start) ⊎ (start + size ≤ u)
  pub spares : (u n : ℕ) → Clear u n regions → Clear u n rest
  pub conserves : usable_bytes regions ≡ usable_bytes rest + size
  pub from : f * 4096 ≤ start
  pub up_to : start + size ≤ count * 4096

pub data Search (count f size : ℕ) (regions : List Region) (r : Option (ℕ × List Region))
    : Type 0 where
  found :
      (start : ℕ) (rest : List Region)
      → r ≡ some (start, rest)
      → Cut count f size regions start rest
      → Search count f size regions r
  nothing : r ≡ none → NoneFits size regions → Search count f size regions r

fits_first :
    (size : ℕ) (r : Region) (regions : List Region)
    → (r.usable && leb size r.length) ≡ true
    → first_fit size (r ∷ regions) ≡ some (r.start, cut_front r size ∷ regions)
unfolding first_fit
fits_first size r regions e = rw e

fits_later :
    (size : ℕ) (r : Region) (regions : List Region)
    → (r.usable && leb size r.length) ≡ false
    → first_fit size (r ∷ regions) ≡ with_first r (first_fit size regions)
unfolding first_fit
fits_later size r regions e = rw e

sided :
    (r : Region) (size x n : ℕ)
    → size ≤ r.length
    → (x + n ≤ r.start) ⊎ (r.start + r.length ≤ x)
    → (x + n ≤ r.start) ⊎ (r.start + size ≤ x)
sided r size x n l (inl h) = inl h
sided r size x n l (inr h) = inr (omega (arith, l, h))

shorter :
    (r : Region) (size x n : ℕ)
    → (r.start + size) % 2 ^ 64 ≡ r.start + size
    → size ≤ r.length
    → (x + n ≤ r.start) ⊎ (r.start + r.length ≤ x)
    → (x + n ≤ (r.start + size) % 2 ^ 64) ⊎ ((r.start + size) % 2 ^ 64 + (r.length - size) ≤ x)
shorter r size x n w l (inl h) = inl (omega (arith, w, h))
shorter r size x n w l (inr h) = inr (omega (arith, w, l, h))

-- An entry that does not fit is passed over.
fits-Search :
    (count f f' size : ℕ) (r : Region) (regions : List Region)
    → (r.usable && leb size r.length) ≡ false
    → f * 4096 ≤ f' * 4096
    → ((rest : List Region) → AreCarved count f' rest → AreCarved count f (r ∷ rest))
    → ((start : ℕ)
        → f' * 4096 ≤ start
        → r.usable ≡ true
        → (start + size ≤ r.start) ⊎ (r.start + r.length ≤ start))
    → Search count f' size regions (first_fit size regions)
    → Search count f size (r ∷ regions) (first_fit size (r ∷ regions))
unfolding usable_bytes
fits-Search count f f' size r regions miss low wrap apart (nothing e none_fits) =
    nothing (fits_later size r regions miss ∙ ap (with_first r) e) (miss, none_fits)
fits-Search count f f' size r regions miss low wrap apart (found start rest e k) =
    found start (r ∷ rest) (fits_later size r regions miss ∙ ap (with_first r) e) (record {
      before = r ∷ k.before;
      entry = k.entry;
      behind = k.behind;
      entries = ap (λ xs. r ∷ xs) k.entries;
      first = (miss, k.first);
      fits = k.fits;
      front = k.front;
      left = ap (λ xs. r ∷ xs) k.left;
      carved = wrap rest k.carved;
      clear = (apart start k.from, k.clear);
      inside = λ u n c p q. k.inside u n c.1 p q;
      spares = λ u n c. (c.0, k.spares u n c.1);
      conserves = omega (arith, k.conserves);
      from = omega (arith, low, k.from);
      up_to = k.up_to;
    })

first_fit-Search :
    (count f size : ℕ) (regions : List Region)
    → AreCarved count f regions
    → Search count f size regions (first_fit size regions)
unfolding first_fit usable_bytes
first_fit-Search count f size [] no_more = nothing refl tt
first_fit-Search count f size (r ∷ regions) (usable e u s t c b v) =
    elim (Bool-cases (r.usable && leb size r.length)) [
      | inl fit ↦
          let l : size ≤ r.length = ground (arith, fit) in
          let w : (r.start + size) % 2 ^ 64 ≡ r.start + size = omega (arith, l, t, b) in
          found r.start (cut_front r size ∷ regions) (fits_first size r regions fit) (record {
            before = [];
            entry = r;
            behind = regions;
            entries = refl;
            first = tt;
            fits = fit;
            front = refl;
            left = refl;
            carved = usable e u (omega (arith, w, s)) (omega (arith, w, l, t)) c b v;
            clear = (
              λ h. inl (omega (arith, w)),
              Clear-below count e r.start size regions v (omega (arith, l, t)),
            );
            inside = λ x n k p q. sided r size x n l (k.0 u);
            spares = λ x n k. (λ h. shorter r size x n w l (k.0 u), k.1);
            conserves = ground (arith, u, l);
            from = s;
            up_to = omega (arith, l, t, c);
          })
      | inr fit ↦
          fits-Search count f e size r regions fit (omega (arith, s, t))
            (λ rest k. usable e u s t c b k) (λ start low. λ h. inr (omega (arith, t, low)))
            (first_fit-Search count e size regions v)
    ]
first_fit-Search count f size (r ∷ regions) (skipped u v) =
    fits-Search count f f size r regions (ground (arith, u)) (omega arith) (λ rest k. skipped u k)
      (λ start low h. cc) (first_fit-Search count f size regions v)

-- The map is in order, and what has been cut out and what is left make whole pages.
pub record IsValid (m : EarlyMem) : Type 0 where
  pub set_up : m.is_initialized ≡ true
  pub carved : AreCarved m.total_pages 0 m.memmap
  pub pages : (m.bytes_allocated + usable_bytes m.memmap) % 4096 ≡ 0
  pub bounded : m.bytes_allocated + usable_bytes m.memmap < 2 ^ 64

-- The outcome of an allocation of `size` bytes.
pub data Allocated (m : EarlyMem) (size : ℕ) (r : Outcome (ℕ × EarlyMem)) : Type 0 where
  allocated :
      (start : ℕ) (result : EarlyMem)
      → r ≡ ok ((start + m.hhdm_offset) % 2 ^ 64, result)
      → Cut m.total_pages 0 size m.memmap start result.memmap
      → IsValid result
      → result.mappings ≡ update m.mappings m.allocations (start, size)
      → result.allocations ≡ m.allocations + 1
      → result.bytes_allocated ≡ m.bytes_allocated + size
      → Allocated m size r
  refused : r ≡ panic → NoneFits size m.memmap → Allocated m size r

alloc_runs :
    (m : EarlyMem) (size : ℕ) (f : Option (ℕ × List Region))
    → m.is_initialized ≡ true
    → m.allocations < 256
    → first_fit size m.memmap ≡ f
    → early_mem_alloc m size ≡ record_mapping m size f
unfolding early_mem_alloc
alloc_runs m size f a b e =
    let few : ltb 256 m.allocations ≡ false = ground (arith, b) in
    let set : not m.is_initialized ≡ false = ap not a in
    rw (set, few) (ap (record_mapping m size) e)

early_mem_alloc-Search :
    (m : EarlyMem) (size : ℕ)
    → IsValid m
    → m.allocations < 256
    → Search m.total_pages 0 size m.memmap (first_fit size m.memmap)
    → Allocated m size (early_mem_alloc m size)
early_mem_alloc-Search m size v few (nothing e none_fits) =
    refused (alloc_runs m size none v.set_up few e) none_fits
early_mem_alloc-Search m size v few (found start rest e k) =
    let bytes : (m.bytes_allocated + size) % 2 ^ 64 ≡ m.bytes_allocated + size =
      omega (arith, v.bounded, k.conserves) in
    let room : leb 256 m.allocations ≡ false = ground (arith, few) in
    let m' = record m {
      mappings = update m.mappings m.allocations (start, size);
      allocations = m.allocations + 1;
      memmap = rest;
      bytes_allocated = (m.bytes_allocated + size) % 2 ^ 64;
    } in
    allocated start m' (alloc_runs m size (some (start, rest)) v.set_up few e ∙ rw room refl) k
      (record {
        set_up = v.set_up;
        carved = k.carved;
        pages = rw bytes (ap (λ (t : ℕ). t % 4096) (omega (arith, k.conserves)) ∙ v.pages);
        bounded = rw bytes (omega (arith, v.bounded, k.conserves));
      })
      refl refl bytes

-- Before 256 allocations, `early_mem_alloc` cuts the bytes from the front of the first usable entry
-- that has them, leaves all other entries as they were, below the highest page, and records them; it panics only if no usable entry has
-- as many. The bytes are in no usable entry afterwards, nor among bytes that were in none before,
-- which still are in none; the usable bytes are fewer by exactly these, and the map stays in order.
pub early_mem_alloc-Allocated :
    (m : EarlyMem) (size : ℕ)
    → IsValid m
    → m.allocations < 256
    → Allocated m size (early_mem_alloc m size)
early_mem_alloc-Allocated m size v few =
    early_mem_alloc-Search m size v few (first_fit-Search m.total_pages 0 size m.memmap v.carved)
