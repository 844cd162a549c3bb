-- ===== src/Events/Lists.antt =====
-- The subscriber lists and the pool of kernel/src/misc/kevent.c as lists of subscribers.
use munk_os.Prelude.{
  ℕ, zero, suc, ◌+◌, ◌≡◌, ◌<◌, refl, ap, ◌∙◌, arith, true, false, List, [], ◌∷◌, mem, ◌==◌, update,
  Outcome, ok, inl, inr, Bool-cases, length,
}
use munk_os.Links.{Ptr, null, node, Links, set_next}
use munk_os.Links.Segments
use munk_os.Links.Segments.{Chain, SameOff, Disjoint}
use munk_os.Links.Edits
use munk_os.Events.{
  Kevents, refill, refill_once, refill_amount, subscriber_pool_alloc, subscriber_pool_free,
  take_subscriber,
}

-- From `p` on, the `next` pointers lead through the distinct nodes `xs` to NULL.
abbrev pub Stack : Links → Ptr → List ℕ → Type 0
Stack l p [] = p ≡ null
Stack l p (x ∷ xs) = (p ≡ node x) × (mem x xs ≡ false) × Stack l (l.next x) xs

pub frame-Stack :
    (l k : Links) (p : Ptr) (xs : List ℕ)
    → ((a : ℕ) → mem a xs ≡ true → k.next a ≡ l.next a)
    → Stack l p xs
    → Stack k p xs
frame-Stack l k p [] same s = s
frame-Stack l k p (x ∷ xs) same s =
    ground (arith, same x, frame-Stack l k (l.next x) xs (λ a i. same a (ground arith)))

-- Event `ev` has the subscribers `c ev`, and `pool` are those in the pool.
pub record AreLists (k : Kevents) (c : ℕ → List ℕ) (pool : List ℕ) : Type 0 where
  pub each : (ev : ℕ) → (tail : Ptr) × Chain k.links (k.subscribers ev) (c ev) tail
  pub apart : (i j : ℕ) → (i == j) ≡ false → Disjoint (c i) (c j)
  pub stack : Stack k.links k.subscriber_pool pool
  pub idle : (ev : ℕ) → Disjoint pool (c ev)
  pub made_pool : (a : ℕ) → mem a pool ≡ true → a < k.allocated
  pub made : (ev a : ℕ) → mem a (c ev) ≡ true → a < k.allocated

-- A node that is made later is in no list.
later : (n : ℕ) (xs : List ℕ) → ((a : ℕ) → mem a xs ≡ true → a < n) → mem n xs ≡ false
later n xs below = elim (Bool-cases (mem n xs)) [
  | inl h ↦ absurd (omega (arith, below n h))
  | inr h ↦ h
]

-- A subscriber that is in no list is put on the pool.
pub subscriber_pool_free-AreLists :
    (k : Kevents) (c : ℕ → List ℕ) (pool : List ℕ) (e : ℕ)
    → AreLists k c pool
    → mem e pool ≡ false
    → ((ev : ℕ) → mem e (c ev) ≡ false)
    → e < k.allocated
    → AreLists (subscriber_pool_free k e) c (e ∷ pool)
unfolding subscriber_pool_free
subscriber_pool_free-AreLists k c pool e v out unlisted low =
    let l = set_next k.links e k.subscriber_pool in
    record {
      each = λ ev.
          let (tail, s) = v.each ev in
          (
            tail,
            Edits.frame-set_next k.links null (k.subscribers ev) (c ev) tail null e
                k.subscriber_pool (unlisted ev) s,
          );
      apart = v.apart;
      stack = (
        refl,
        out,
        rw (Edits.==_refl e) (
            frame-Stack k.links l k.subscriber_pool pool
              (λ a i. ground (arith, Edits.not_same a e pool i out)) v.stack),
      );
      idle = λ ev a i. ground (arith, v.idle ev a, unlisted ev);
      made_pool = λ a i. ground (arith, v.made_pool a);
      made = v.made;
    }

made_later-AreLists :
    (k : Kevents) (c : ℕ → List ℕ) (pool : List ℕ)
    → AreLists k c pool
    → AreLists (record k { allocated = k.allocated + 1 }) c pool
made_later-AreLists k c pool v = record {
  each = v.each;
  apart = v.apart;
  stack = v.stack;
  idle = v.idle;
  made_pool = λ a i. omega (arith, v.made_pool a i);
  made = λ ev a i. omega (arith, v.made ev a i);
}

refill_once-AreLists :
    (k : Kevents) (c : ℕ → List ℕ) (pool : List ℕ)
    → AreLists k c pool
    → AreLists (refill_once k) c (k.allocated ∷ pool)
unfolding subscriber_pool_free
refill_once-AreLists k c pool v =
    subscriber_pool_free-AreLists (record k { allocated = k.allocated + 1 }) c pool k.allocated
      (made_later-AreLists k c pool v) (later k.allocated pool v.made_pool)
      (λ ev. later k.allocated (c ev) (v.made ev)) (omega arith)

-- The pool after `n` rounds of the refill.
abbrev pub refilled : ℕ → ℕ → List ℕ → List ℕ
refilled zero next xs = xs
refilled (suc n) next xs = refilled n (next + 1) (next ∷ xs)

-- Same subscribers of every event, with the same threads.
pub record Keeps (k k' : Kevents) : Type 0 where
  pub threads : k'.subscribed_thread ≡ k.subscribed_thread
  pub counts : k'.unprocessed ≡ k.unprocessed
  pub heads : k'.subscribers ≡ k.subscribers

refill-AreLists :
    (n : ℕ) (k : Kevents) (c : ℕ → List ℕ) (pool : List ℕ)
    → AreLists k c pool
    → AreLists (refill n k) c (refilled n k.allocated pool) × Keeps k (refill n k)
unfolding refill
refill-AreLists zero k c pool v = (v, record { threads = refl; counts = refl; heads = refl })
refill-AreLists (suc n) k c pool v =
    let (w, same) =
      refill-AreLists n (refill_once k) c (k.allocated ∷ pool) (refill_once-AreLists k c pool v) in
    (w, record { threads = same.threads; counts = same.counts; heads = same.heads })

refilled-cons :
    (n next x : ℕ) (xs : List ℕ) → (y : ℕ) × (ys : List ℕ) × (refilled n next (x ∷ xs) ≡ y ∷ ys)
refilled-cons zero next x xs = (x, xs, refl)
refilled-cons (suc n) next x xs = refilled-cons n (next + 1) next (x ∷ xs)

-- A subscriber that is in no list has been taken from the pool.
pub record Taken (k : Kevents) (c : ℕ → List ℕ) (r : Outcome (ℕ × Kevents)) : Type 0 where
  pub new : ℕ
  pub result : Kevents
  pub rest : List ℕ
  pub runs : r ≡ ok (new, result)
  pub valid : AreLists result c rest
  pub unused : mem new rest ≡ false
  pub unlisted : (ev : ℕ) → mem new (c ev) ≡ false
  pub in_range : new < result.allocated
  pub keeps : Keeps k result

take-Taken :
    (k k' : Kevents) (c : ℕ → List ℕ) (x : ℕ) (xs : List ℕ)
    → Keeps k k'
    → AreLists k' c (x ∷ xs)
    → Taken k c (take_subscriber k' k'.subscriber_pool)
unfolding take_subscriber
take-Taken k k' c x xs same v = record {
  new = x;
  result = record k' { subscriber_pool = k'.links.next x };
  rest = xs;
  runs = ap (take_subscriber k') v.stack.0;
  valid = record {
    each = v.each;
    apart = v.apart;
    stack = v.stack.2;
    idle = λ ev a i. v.idle ev a (ground arith);
    made_pool = λ a i. v.made_pool a (ground arith);
    made = v.made;
  };
  unused = v.stack.1;
  unlisted = λ ev. v.idle ev x (ground arith);
  in_range = v.made_pool x (ground arith);
  keeps = record { threads = same.threads; counts = same.counts; heads = same.heads };
}

alloc_from :
    (k : Kevents) (x : ℕ)
    → k.subscriber_pool ≡ node x
    → subscriber_pool_alloc k ≡ take_subscriber k k.subscriber_pool
unfolding subscriber_pool_alloc
alloc_from k x e = cc

alloc_after_refill :
    (k : Kevents)
    → k.subscriber_pool ≡ null
    → subscriber_pool_alloc k
      ≡ take_subscriber (refill refill_amount k) (refill refill_amount k).subscriber_pool
unfolding subscriber_pool_alloc
alloc_after_refill k e = cc

moved_Taken :
    (k : Kevents) (c : ℕ → List ℕ) (r q : Outcome (ℕ × Kevents)) → q ≡ r → Taken k c r → Taken k c q
moved_Taken k c r q e t = record {
  new = t.new;
  result = t.result;
  rest = t.rest;
  runs = e ∙ t.runs;
  valid = t.valid;
  unused = t.unused;
  unlisted = t.unlisted;
  in_range = t.in_range;
  keeps = t.keeps;
}

-- `_subscriber_pool_alloc` always returns a subscriber that is in no list.
pub subscriber_pool_alloc-Taken :
    (k : Kevents) (c : ℕ → List ℕ) (pool : List ℕ)
    → AreLists k c pool
    → Taken k c (subscriber_pool_alloc k)
subscriber_pool_alloc-Taken k c (x ∷ xs) v =
    moved_Taken k c (take_subscriber k k.subscriber_pool) (subscriber_pool_alloc k)
      (alloc_from k x v.stack.0)
      (take-Taken k k c x xs (record { threads = refl; counts = refl; heads = refl }) v)
subscriber_pool_alloc-Taken k c [] v =
    let k' = refill refill_amount k in
    let (w, same) = refill-AreLists refill_amount k c [] v in
    let (y, ys, e) = refilled-cons 127 (k.allocated + 1) k.allocated [] in
    moved_Taken k c (take_subscriber k' k'.subscriber_pool) (subscriber_pool_alloc k)
      (alloc_after_refill k v.stack) (take-Taken k k' c y ys same (rw (← e) w))

-- The subscribers of one event become `xs`, by writes that spare those of the others and the pool.
pub AreLists-edit :
    (k : Kevents) (c : ℕ → List ℕ) (pool : List ℕ) (ev : ℕ) (xs touched : List ℕ) (l : Links)
    (head tail : Ptr) (event thread : ℕ → ℕ)
    → ((j : ℕ) → (j == ev) ≡ false → Disjoint (c j) touched × Disjoint (c j) xs)
    → Disjoint pool touched × Disjoint pool xs
    → ((a : ℕ) → mem a xs ≡ true → a < k.allocated)
    → SameOff touched k.links l
    → Chain l head xs tail
    → AreLists k c pool
    → AreLists
        (record k {
          links = l;
          event = event;
          subscribed_thread = thread;
          subscribers = update k.subscribers ev head;
        })
        (update c ev xs)
        pool
AreLists-edit k c pool ev xs touched l head tail event thread spared out low same new v = record {
  each = λ j. elim (Bool-cases (j == ev)) [
    | inl e ↦ rw e (tail, new)
    | inr e ↦
        let (end, s) = v.each j in
        rw e (
          end,
          Segments.frame k.links l null (k.subscribers j) (c j) end null
              (λ a i. same a ((spared j e).0 a i)) s,
        )
  ];
  apart = λ i j ne a at_j. ground (
    arith,
    v.apart i j ne a,
    λ (h : (i == ev) ≡ false) (p : mem a xs ≡ true).
        Edits.not-mem_of_Disjoint (c i) xs a (spared i h).1 p,
    λ (h : (j == ev) ≡ false). (spared j h).1 a,
  );
  stack = frame-Stack k.links l k.subscriber_pool pool (λ a i. (same a (out.0 a i)).0) v.stack;
  idle = λ j a i. ground (arith, v.idle j a i, out.1 a i);
  made_pool = v.made_pool;
  made = λ j a i. ground (arith, v.made j a, low a);
}

-- The threads of a list of subscribers.
abbrev pub threads : (ℕ → ℕ) → List ℕ → List ℕ
threads th [] = []
threads th (x ∷ xs) = th x ∷ threads th xs

pub threads-update :
    (th : ℕ → ℕ) (n t : ℕ) (xs : List ℕ)
    → mem n xs ≡ false
    → threads (update th n t) xs ≡ threads th xs
threads-update th n t [] out = refl
threads-update th n t (x ∷ xs) out = ground (arith, threads-update th n t xs (ground arith))

pub length-threads : (th : ℕ → ℕ) (xs : List ℕ) → length (threads th xs) ≡ length xs
length-threads th [] = refl
length-threads th (x ∷ xs) = ap suc (length-threads th xs)
