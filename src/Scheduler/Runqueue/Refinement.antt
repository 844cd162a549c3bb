-- ===== src/Scheduler/Runqueue/Refinement.antt =====
-- A run queue stands for the list of its tasks, front first: insertion, removal and popping do to
-- the pointers what they should do to that list, and touch no task outside the queue.
use munk_os.Prelude.{
  ℕ, ◌%◌, ◌^◌, ◌≡◌, refl, false, none, some, List, [], ◌∷◌, ◌++◌, arith, length, mem, mem-append,
  Outcome, ok, if◌then◌else◌, length-append,
}
use munk_os.Links.{
  Ptr, null, node, ptr_is, Links, set_next, set_prev, attach_front, attach_back, detach,
}
use munk_os.Links.Segments
use munk_os.Links.Segments.{Seg, Chain, SameOff, Disjoint}
use munk_os.Links.Edits
use munk_os.Scheduler.Runqueue.{
  RunQueue, inc_int, dec_int, clear_links, runqueue_pop_front, runqueue_insert_front,
  runqueue_insert_back, runqueue_remove, drop_end,
}

-- `num_tasks` counts modulo 2 ^ 32, so that no bound on the number of tasks is needed.
pub record IsQueue (l : Links) (rq : RunQueue) (xs : List ℕ) : Type 0 where
  pub chain : Chain l rq.head xs rq.tail
  pub count : rq.num_tasks ≡ length xs % 2 ^ 32

-- The call returns, the queue then holds `ys`, and no node outside `touched` has changed.
pub record Queued (l : Links) (touched ys : List ℕ) (r : Outcome (Links × RunQueue)) : Type 0 where
  pub links : Links
  pub rq : RunQueue
  pub runs : r ≡ ok (links, rq)
  pub valid : IsQueue links rq ys
  pub same : SameOff touched l links

abbrev pub queue : ℕ → Ptr → Ptr → RunQueue
queue n h t = record { num_tasks = n; head = h; tail = t }

insert_front_runs :
    (l k : Links) (n : ℕ) (head tail : Ptr) (t x : ℕ)
    → head ≡ node x
    → attach_front l t head ≡ ok k
    → runqueue_insert_front l (queue n head tail) t ≡ ok (k, queue (inc_int n) (node t) tail)
unfolding runqueue_insert_front
insert_front_runs l k n head tail t x h e = rw h (ground arith)

insert_back_runs :
    (l k : Links) (n : ℕ) (head tail : Ptr) (t x : ℕ)
    → tail ≡ node x
    → attach_back l t tail ≡ ok k
    → runqueue_insert_back l (queue n head tail) t ≡ ok (k, queue (inc_int n) head (node t))
unfolding runqueue_insert_back
insert_back_runs l k n head tail t x h e = rw h (ground arith)

-- Insertion in front puts the task before all others.
pub insert_front-cons :
    (l : Links) (n : ℕ) (head tail : Ptr) (xs : List ℕ) (t : ℕ)
    → mem t xs ≡ false
    → IsQueue l (queue n head tail) xs
    → Queued l (t ∷ xs) (t ∷ xs) (runqueue_insert_front l (queue n head tail) t)
unfolding runqueue_insert_front
insert_front-cons l n head tail [] t out v = record {
  links = set_prev (set_next l t null) t null;
  rq = queue (inc_int n) (node t) (node t);
  runs = ground arith;
  valid = ground arith;
  same = λ a i. ground arith;
}
insert_front-cons l n head tail (x ∷ xs) t out v =
    let r = Edits.attach_front-cons l head (x ∷ xs) tail t out v.chain in
    record {
      links = r.0;
      rq = queue (inc_int n) (node t) tail;
      runs = insert_front_runs l r.0 n head tail t x v.chain.0 r.1;
      valid = record { chain = r.2; count = ground arith };
      same = r.3;
    }

-- Insertion at the back puts the task behind all others.
pub insert_back-append :
    (l : Links) (n : ℕ) (head tail : Ptr) (xs : List ℕ) (t : ℕ)
    → mem t xs ≡ false
    → IsQueue l (queue n head tail) xs
    → Queued l (xs ++ t ∷ []) (xs ++ t ∷ []) (runqueue_insert_back l (queue n head tail) t)
unfolding runqueue_insert_back
insert_back-append l n head tail [] t out v = record {
  links = set_prev (set_next l t null) t null;
  rq = queue (inc_int n) (node t) (node t);
  runs = rw (← v.chain.1);
  valid = ground arith;
  same = λ a i. ground arith;
}
insert_back-append l n head tail (x ∷ xs) t out v =
    let r = Edits.attach_back-append l head x xs tail t out v.chain in
    let z = Segments.last_node l null head x xs tail null v.chain in
    record {
      links = r.0;
      rq = queue (inc_int n) head (node t);
      runs = insert_back_runs l r.0 n head tail t z.0 z.1 r.1;
      valid = record {
        chain = r.2;
        count = omega (arith, length-append (x ∷ xs) (t ∷ []), v.count);
      };
      same = r.3;
    }

-- The call returns, the queue then holds `ys`, no node outside `touched` has changed, and the
-- removed task `t` is no longer linked.
pub record Unqueued (l : Links) (touched ys : List ℕ) (t : ℕ) (r : Outcome (Links × RunQueue))
    : Type 0 where
  pub links : Links
  pub rq : RunQueue
  pub runs : r ≡ ok (links, rq)
  pub valid : IsQueue links rq ys
  pub same : SameOff touched l links
  pub unlinked : (links.next t ≡ null) × (links.prev t ≡ null)

pop_last :
    (l : Links) (n : ℕ) (head tail : Ptr) (t : ℕ)
    → IsQueue l (queue n head tail) (t ∷ [])
    → runqueue_pop_front l (queue n head tail)
      ≡ ok (some t, clear_links l t, queue (dec_int n) null null)
unfolding runqueue_pop_front
pop_last l n head tail t v = rw (v.chain.0, ← v.chain.3.1, Edits.==_refl)

-- Popping a queue takes its first task, which is no longer linked then.
pub pop_front-cons :
    (l : Links) (n : ℕ) (head tail : Ptr) (t : ℕ) (xs : List ℕ)
    → IsQueue l (queue n head tail) (t ∷ xs)
    → (r : Links × RunQueue) × (runqueue_pop_front l (queue n head tail) ≡ ok (some t, r.0, r.1))
      × Unqueued l (t ∷ xs) xs t (ok r)
unfolding runqueue_pop_front
pop_front-cons l n head tail t [] v = (
  (clear_links l t, queue (dec_int n) null null),
  pop_last l n head tail t v,
  record {
    links = clear_links l t;
    rq = queue (dec_int n) null null;
    runs = refl;
    valid = ground arith;
    same = λ a i. ground arith;
    unlinked = ground arith;
  },
)
pop_front-cons l n head tail t (x ∷ xs) v =
    let j = set_prev l x null in
    let k = clear_links j t in
    let e = v.chain.3.0 in
    let z = Segments.last_node l (node t) (l.next t) x xs tail null v.chain.3 in
    let nt = Edits.not_tail tail z.0 t (x ∷ xs) z.1 z.2 v.chain.2 in
    let rest =
      Edits.rebase l (node t) x xs tail null null (refl, v.chain.3.1, v.chain.3.2, v.chain.3.3) in
    (
      (k, queue (dec_int n) (node x) tail),
      rw (v.chain.0, nt, e),
      record {
        links = k;
        rq = queue (dec_int n) (node x) tail;
        runs = refl;
        valid = record {
          chain =
              Segments.frame j k null (node x) (x ∷ xs) tail null
                (λ a i. ground (arith, Edits.not_same a t (x ∷ xs) i v.chain.2)) rest;
          count = omega (arith, v.count);
        };
        same = λ a i. ground arith;
        unlinked = ground arith;
      },
    )

-- An empty queue gives no task and stays as it is.
pub pop_front-nil :
    (l : Links) (n : ℕ) (head tail : Ptr)
    → IsQueue l (queue n head tail) []
    → runqueue_pop_front l (queue n head tail) ≡ ok (none, l, queue n head tail)
unfolding runqueue_pop_front
pop_front-nil l n head tail v = ground arith

-- The ends that a removal leaves.
drop_ends :
    (l : Links) (n : ℕ) (head tail : Ptr) (t : ℕ)
    → Edits.End (l.next t) tail t
    → Edits.End (l.prev t) head t
    → (drop_end l (queue n head tail) t).num_tasks ≡ n
      × ((drop_end l (queue n head tail) t).head ≡ (if ptr_is head t then l.next t else head))
      × ((drop_end l (queue n head tail) t).tail ≡ (if ptr_is tail t then l.prev t else tail))
drop_ends l n head tail t (Edits.at_end p q) (Edits.at_end r s) = ground arith
drop_ends l n head tail t (Edits.at_end p q) (Edits.inside z r s) = ground arith
drop_ends l n head tail t (Edits.inside y p q) (Edits.at_end r s) = ground arith
drop_ends l n head tail t (Edits.inside y p q) (Edits.inside z r s) = ground arith

remove_runs :
    (l k : Links) (n : ℕ) (head tail : Ptr) (t : ℕ)
    → detach l t ≡ ok k
    → (drop_end l (queue n head tail) t).num_tasks ≡ n
    → runqueue_remove l (queue n head tail) t
      ≡ ok (clear_links k t, record (drop_end l (queue n head tail) t) { num_tasks = dec_int n })
unfolding runqueue_remove
remove_runs l k n head tail t e h = rw (e, h)

-- Removing a task from the middle, the front or the back of a queue leaves the others in order.
pub remove-append :
    (l : Links) (n : ℕ) (head tail : Ptr) (ys : List ℕ) (t : ℕ) (zs : List ℕ)
    → IsQueue l (queue n head tail) (ys ++ t ∷ zs)
    → Unqueued l (ys ++ t ∷ zs) (ys ++ zs) t (runqueue_remove l (queue n head tail) t)
unfolding runqueue_remove
remove-append l n head tail ys t zs v =
    let d = Edits.detach-append l head ys t zs tail v.chain in
    let h = drop_ends l n head tail t d.after d.before in
    let away = Edits.once l head ys t zs tail v.chain in
    let k = clear_links d.links t in
    record {
      links = k;
      rq = record (drop_end l (queue n head tail) t) { num_tasks = dec_int n };
      runs = remove_runs l d.links n head tail t d.runs h.0;
      valid = record {
        chain =
            rw (h.1, h.2)
              (Segments.frame d.links k null _ (ys ++ zs) _ null
                (λ a i. ground (arith, Edits.not_same a t (ys ++ zs) i away)) d.chain);
        count = omega (arith, v.count, length-append ys (t ∷ zs), length-append ys zs);
      };
      same = λ a i. ground (arith, mem-append a ys (t ∷ zs), mem-append a ys zs, d.same a);
      unlinked = ground arith;
    }

-- A task stands in its queue once.
pub IsQueue-once :
    (l : Links) (rq : RunQueue) (ys : List ℕ) (t : ℕ) (zs : List ℕ)
    → IsQueue l rq (ys ++ t ∷ zs)
    → mem t (ys ++ zs) ≡ false
IsQueue-once l rq ys t zs v = Edits.once l rq.head ys t zs rq.tail v.chain
