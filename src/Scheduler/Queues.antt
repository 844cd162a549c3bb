-- ===== src/Scheduler/Queues.antt =====
-- All run queues of kernel/src/proc/scheduler.c side by side: they share the `rr_next` and
-- `rr_prev` fields of the tasks, so what is done to one of them must spare the others.
use munk_os.Prelude.{
  ℕ, ◌≡◌, true, false, Bool-cases, inl, inr, List, [], ◌∷◌, ◌++◌, arith, update, ◌==◌, mem,
  mem-append, none, some, Outcome, ok,
}
use munk_os.Links.{Links, null}
use munk_os.Links.Segments
use munk_os.Links.Segments.{SameOff, Disjoint}
use munk_os.Links.Edits
use munk_os.Scheduler.Runqueue.{
  RunQueue, runqueue_pop_front, runqueue_insert_front, runqueue_insert_back, runqueue_remove,
}
use munk_os.Scheduler.Runqueue.Refinement.{
  IsQueue, insert_front-cons, insert_back-append, pop_front-cons, pop_front-nil, remove-append,
  IsQueue-once, Unqueued,
}

-- Queue `i` holds the tasks `c i`, and no task is in two queues.
pub record AreQueues (l : Links) (qs : ℕ → RunQueue) (c : ℕ → List ℕ) : Type 0 where
  pub each : (i : ℕ) → IsQueue l (qs i) (c i)
  pub apart : (i j : ℕ) → (i == j) ≡ false → Disjoint (c i) (c j)

abbrev pub Nowhere : ℕ → (ℕ → List ℕ) → Type 0
Nowhere t c = (i : ℕ) → mem t (c i) ≡ false

IsQueue-frame :
    (l k : Links) (rq : RunQueue) (xs touched : List ℕ)
    → Disjoint xs touched
    → SameOff touched l k
    → IsQueue l rq xs
    → IsQueue k rq xs
IsQueue-frame l k rq xs touched apart same v = record {
  chain = Segments.frame l k null rq.head xs rq.tail null (λ a i. same a (apart a i)) v.chain;
  count = v.count;
}

-- Writes to the links of tasks that are in no queue leave the queues alone.
pub AreQueues-frame :
    (l k : Links) (qs : ℕ → RunQueue) (c : ℕ → List ℕ) (touched : List ℕ)
    → ((i : ℕ) → Disjoint (c i) touched)
    → SameOff touched l k
    → AreQueues l qs c
    → AreQueues k qs c
AreQueues-frame l k qs c touched apart same w = record {
  each = λ i. IsQueue-frame l k (qs i) (c i) touched (apart i) same (w.each i);
  apart = w.apart;
}

-- One queue changes, by writes that spare the tasks of the others.
AreQueues-update :
    (l k : Links) (qs : ℕ → RunQueue) (c : ℕ → List ℕ) (i : ℕ) (q : RunQueue) (ys touched : List ℕ)
    → ((j : ℕ) → (j == i) ≡ false → Disjoint (c j) touched)
    → ((j : ℕ) → (j == i) ≡ false → Disjoint (c j) ys)
    → SameOff touched l k
    → IsQueue k q ys
    → AreQueues l qs c
    → AreQueues k (update qs i q) (update c i ys)
AreQueues-update l k qs c i q ys touched spared out same v w = record {
  each = λ j. elim (Bool-cases (j == i)) [
    | inl e ↦ rw e v
    | inr e ↦ rw e (IsQueue-frame l k (qs j) (c j) touched (spared j e) same (w.each j))
  ];
  apart = λ j m ne a at_j. ground (
    arith,
    w.apart j m ne a,
    λ (h : (j == i) ≡ false). out j h a,
    λ (h : (m == i) ≡ false) (p : mem a ys ≡ true).
        Edits.not-mem_of_Disjoint (c m) ys a (out m h) p,
  );
}

-- Two stores have the same pointers at the tasks that are in none of the queues `c`.
abbrev pub SameOutside : (ℕ → List ℕ) → Links → Links → Type 0
SameOutside c l k = (a : ℕ) → Nowhere a c → (k.next a ≡ l.next a) × (k.prev a ≡ l.prev a)

-- The call returns; afterwards the queues hold `c`.
pub record Moved (l : Links) (qs : ℕ → RunQueue) (i : ℕ) (c : ℕ → List ℕ)
    (r : Outcome (Links × RunQueue)) : Type 0 where
  pub links : Links
  pub rq : RunQueue
  pub runs : r ≡ ok (links, rq)
  pub valid : AreQueues links (update qs i rq) c
  pub same : SameOutside c l links

-- A list that holds only `t` and tasks of queue `i` is apart from the other queues.
module _ {l : Links} {qs : ℕ → RunQueue} {c : ℕ → List ℕ} (w : AreQueues l qs c) (t : ℕ)
    (out : Nowhere t c) (i : ℕ) where
  cons-apart : (j : ℕ) → (j == i) ≡ false → Disjoint (c j) (t ∷ c i)
  cons-apart j e a at_j = ground (arith, w.apart j i e a, Edits.not_same a t (c j) at_j (out j))

  append-apart : (j : ℕ) → (j == i) ≡ false → Disjoint (c j) (c i ++ t ∷ [])
  append-apart j e a at_j =
      ground
        (arith, mem-append a (c i) (t ∷ []), w.apart j i e a, Edits.not_same a t (c j) at_j (out j))

  -- A task that is in no queue can be put in front of any.
  pub insert_front-Moved : Moved l qs i (update c i (t ∷ c i)) (runqueue_insert_front l (qs i) t)
  insert_front-Moved =
      let q = qs i in
      let r = insert_front-cons l q.num_tasks q.head q.tail (c i) t (out i) (w.each i) in
      record {
        links = r.links;
        rq = r.rq;
        runs = r.runs;
        valid =
            AreQueues-update l r.links qs c i r.rq (t ∷ c i) (t ∷ c i) cons-apart cons-apart r.same
              r.valid w;
        same = λ a off. r.same a (rw Edits.==_refl at (off i));
      }

  -- A task that is in no queue can be put behind all others of any queue.
  pub insert_back-Moved :
      Moved l qs i (update c i (c i ++ t ∷ [])) (runqueue_insert_back l (qs i) t)
  insert_back-Moved =
      let q = qs i in
      let r = insert_back-append l q.num_tasks q.head q.tail (c i) t (out i) (w.each i) in
      record {
        links = r.links;
        rq = r.rq;
        runs = r.runs;
        valid =
            AreQueues-update l r.links qs c i r.rq (c i ++ t ∷ []) (c i ++ t ∷ []) append-apart
              append-apart r.same r.valid w;
        same = λ a off. r.same a (rw Edits.==_refl at (off i));
      }

-- The call returns; afterwards the queues hold `c`, and the removed task `t` stands alone.
pub record Freed (l : Links) (qs : ℕ → RunQueue) (i t : ℕ) (c : ℕ → List ℕ)
    (r : Outcome (Links × RunQueue)) : Type 0 where
  pub links : Links
  pub rq : RunQueue
  pub runs : r ≡ ok (links, rq)
  pub valid : AreQueues links (update qs i rq) c
  pub unlinked : (links.next t ≡ null) × (links.prev t ≡ null)
  pub nowhere : Nowhere t c
  pub same :
      (a : ℕ)
      → (a == t) ≡ false
      → Nowhere a c
      → (links.next a ≡ l.next a) × (links.prev a ≡ l.prev a)

-- `t` stands between `ys` and `zs` in queue `i`.
module _ {l : Links} {qs : ℕ → RunQueue} {c : ℕ → List ℕ} (w : AreQueues l qs c) (i : ℕ)
    (ys : List ℕ) (t : ℕ) (zs : List ℕ) (here : c i ≡ ys ++ t ∷ zs) where
  all-apart : (j : ℕ) → (j == i) ≡ false → Disjoint (c j) (ys ++ t ∷ zs)
  all-apart j e a at_j = rw (← here) (w.apart j i e a at_j)

  rest-apart : (j : ℕ) → (j == i) ≡ false → Disjoint (c j) (ys ++ zs)
  rest-apart j e a at_j =
      ground (arith, all-apart j e a at_j, mem-append a ys zs, mem-append a ys (t ∷ zs))

  -- It is in no other place.
  once : Nowhere t (update c i (ys ++ zs))
  once j = elim (Bool-cases (j == i)) [
    | inl e ↦ rw e (IsQueue-once l (qs i) ys t zs (rw (← here) (w.each i)))
    | inr e ↦ rw e (
        Edits.not-mem_of_Disjoint (c j) (ys ++ t ∷ zs) t (all-apart j e)
          (ground (arith, mem-append t ys (t ∷ zs))))
  ]

  spared_node : (a : ℕ) → (a == t) ≡ false → mem a (ys ++ zs) ≡ false → mem a (ys ++ t ∷ zs) ≡ false
  spared_node a ne off = ground (arith, mem-append a ys zs, mem-append a ys (t ∷ zs))

  freed :
      (r : Outcome (Links × RunQueue))
      → Unqueued l (ys ++ t ∷ zs) (ys ++ zs) t r
      → Freed l qs i t (update c i (ys ++ zs)) r
  freed r u = record {
    links = u.links;
    rq = u.rq;
    runs = u.runs;
    valid =
        AreQueues-update l u.links qs c i u.rq (ys ++ zs) (ys ++ t ∷ zs) all-apart rest-apart u.same
          u.valid w;
    unlinked = u.unlinked;
    nowhere = once;
    same = λ a ne off. u.same a (spared_node a ne (rw Edits.==_refl at (off i)));
  }

  -- Removal takes a task out of its queue and leaves all others where they are.
  pub remove-Freed : Freed l qs i t (update c i (ys ++ zs)) (runqueue_remove l (qs i) t)
  remove-Freed =
      let q = qs i in
      freed _ (remove-append l q.num_tasks q.head q.tail ys t zs (rw (← here) (w.each i)))

popped_pair :
    (l : Links) (rq : RunQueue) (t : ℕ) (k : Links) (q : RunQueue) (k' : Links) (q' : RunQueue)
    → runqueue_pop_front l rq ≡ ok (some t, k, q)
    → ◌≡◌ {A = Outcome (Links × RunQueue)} (ok (k, q)) (ok (k', q'))
    → runqueue_pop_front l rq ≡ ok (some t, k', q')
popped_pair l rq t k q k' q' p e = ground arith

-- The outcome of popping the first task `t` of queue `i`.
pub record Popped (l : Links) (qs : ℕ → RunQueue) (i t : ℕ) (c : ℕ → List ℕ) : Type 0 where
  pub links : Links
  pub rq : RunQueue
  pub runs : runqueue_pop_front l (qs i) ≡ ok (some t, links, rq)
  pub valid : AreQueues links (update qs i rq) c
  pub unlinked : (links.next t ≡ null) × (links.prev t ≡ null)
  pub nowhere : Nowhere t c

-- Popping takes the first task of a queue out of it.
pub pop_front-Popped :
    (l : Links) (qs : ℕ → RunQueue) (c : ℕ → List ℕ)
    → AreQueues l qs c
    → (i t : ℕ) (xs : List ℕ) → c i ≡ t ∷ xs
    → Popped l qs i t (update c i xs)
pop_front-Popped l qs c w i t xs here =
    let q = qs i in
    let p = pop_front-cons l q.num_tasks q.head q.tail t xs (rw (← here) (w.each i)) in
    let f = freed w i [] t xs here (ok p.0) p.2 in
    record {
      links = f.links;
      rq = f.rq;
      runs = popped_pair l q t p.0.0 p.0.1 f.links f.rq p.1 f.runs;
      valid = f.valid;
      unlinked = f.unlinked;
      nowhere = f.nowhere;
    }

-- Popping an empty queue changes nothing.
pub pop_front-none :
    (l : Links) (rq : RunQueue) → IsQueue l rq [] → runqueue_pop_front l rq ≡ ok (none, l, rq)
pop_front-none l rq v = pop_front-nil l rq.num_tasks rq.head rq.tail v
