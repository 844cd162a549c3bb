-- ===== src/Scheduler/Selection.antt =====
-- `find_task_to_run`: which task runs next.
use munk_os.Prelude.{
  ℕ, zero, suc, ◌+◌, ◌≤◌, ◌≡◌, ◌<◌, refl, ap, true, Option, none, some, List, [], ◌∷◌, mem, inl,
  inr, ◌==◌, ==_iff, ◌∙◌, arith, update, Outcome, ok, Bool-cases, List-cases, update_same,
}
use munk_os.Links.{Links, null}
use munk_os.Scheduler.Runqueue.{RunQueue, runqueue_pop_front}
use munk_os.Scheduler.{Sched, ready, max_priorities, with_queue, find_from, find_task_to_run}
use munk_os.Scheduler.Queues
use munk_os.Scheduler.Queues.{AreQueues, Nowhere}
use munk_os.Scheduler.Invariant.{IsValid}

-- The first task of the first queue that is not empty, among `n` queues from `i` on, and what the
-- queues hold without it.
unfoldable pub choose : ℕ → ℕ → (ℕ → List ℕ) → Option ℕ × (ℕ → List ℕ)
choose zero i c = (none, c)
choose (suc n) i c = elim (c i) [ [] ↦ choose n (i + 1) c | t ∷ xs ↦ (some t, update c i xs) ]

-- Popping an empty queue leaves the scheduler as it is.
pub with_queue_same : (s : Sched) (i : ℕ) → with_queue s i (s.rr, s.queues i) ≡ s
with_queue_same s i = ap (λ q. record s { queues = q }) (update_same s.queues i)

pub find_from-empty :
    (n i : ℕ) (s : Sched)
    → runqueue_pop_front s.rr (s.queues i) ≡ ok (none, s.rr, s.queues i)
    → find_from (suc n) i s ≡ find_from n (i + 1) s
unfolding find_from
find_from-empty n i s e = rw (e, with_queue_same)

find_from-found :
    (n i : ℕ) (s : Sched) (t : ℕ) (k : Links) (q : RunQueue)
    → runqueue_pop_front s.rr (s.queues i) ≡ ok (some t, k, q)
    → s.state t ≡ ready
    → find_from (suc n) i s ≡ ok (some t, with_queue s i (k, q))
unfolding find_from
find_from-found n i s t k q e h = rw (e, h)

-- The task that was found: ready, in no queue, and unlinked.
pub record IsFound (s : Sched) (c : ℕ → List ℕ) (t : ℕ) : Type 0 where
  pub state : s.state t ≡ ready
  pub nowhere : Nowhere t c
  pub unlinked : (s.rr.next t ≡ null) × (s.rr.prev t ≡ null)

-- `s'` is `s` but for the queues and links.
pub record SameTasks (s s' : Sched) : Type 0 where
  pub state : s'.state ≡ s.state
  pub prio : s'.prio ≡ s.prio
  pub curr_thread : s'.curr_thread ≡ s.curr_thread
  pub idle_thread : s'.idle_thread ≡ s.idle_thread
  pub preempt : s'.preempt ≡ s.preempt

-- The outcome of a search that found `o` and left `c` in the queues.
pub record Searched (s : Sched) (o : Option ℕ) (c : ℕ → List ℕ) (r : Outcome (Option ℕ × Sched))
    : Type 0 where
  pub after : Sched
  pub runs : r ≡ ok (o, after)
  pub valid : IsValid after c
  pub found : (t : ℕ) → o ≡ some t → IsFound after c t
  pub missed : o ≡ none → after ≡ s
  pub same : SameTasks s after

choose-empty : (n i : ℕ) (c : ℕ → List ℕ) → c i ≡ [] → choose (suc n) i c ≡ choose n (i + 1) c
unfolding choose
choose-empty n i c e = rw (e, choose)

choose-found :
    (n i : ℕ) (c : ℕ → List ℕ) (t : ℕ) (xs : List ℕ)
    → c i ≡ t ∷ xs
    → choose (suc n) i c ≡ (some t, update c i xs)
unfolding choose
choose-found n i c t xs e = rw (e, choose)

mem_first : (t : ℕ) (xs ys : List ℕ) → ys ≡ t ∷ xs → mem t ys ≡ true
mem_first t xs ys e = rw e (ground arith)

-- A queue without its first task holds no other tasks than before.
mem-rest : (a t : ℕ) (xs ys : List ℕ) → ys ≡ t ∷ xs → mem a xs ≡ true → mem a ys ≡ true
mem-rest a t xs ys e h = rw e (ground arith)

popped :
    (s : Sched) (c : ℕ → List ℕ) (n i t : ℕ) (xs : List ℕ)
    → i < max_priorities
    → IsValid s c
    → c i ≡ t ∷ xs
    → Searched s (some t) (update c i xs) (find_from (suc n) i s)
popped s c n i t xs low v e =
    let r = Queues.pop_front-Popped s.rr s.queues c v.queues i t xs e in
    let first = v.runnable i t low (mem_first t xs (c i) e) in
    record {
      after = with_queue s i (r.links, r.rq);
      runs = find_from-found n i s t r.links r.rq r.runs first.0;
      valid = record {
        queues = r.valid;
        runnable = λ p a h m. ground (arith, v.runnable p a h, mem-rest a t xs (c i) e);
        asleep = λ a m. ground (arith, v.asleep a);
        sleepers = λ a h. ground (arith, v.sleepers a);
        dead = λ a m. ground (arith, v.dead a);
        prio_in = v.prio_in;
      };
      found = λ u h.
          let e' : t ≡ u = cc in
          rw (← e') (record { state = first.0; nowhere = r.nowhere; unlinked = r.unlinked });
      missed = λ h. cc;
      same = ground arith;
    }

find_from-Searched :
    (n i : ℕ) (s : Sched) (c : ℕ → List ℕ)
    → i + n ≤ max_priorities
    → IsValid s c
    → Searched s (choose n i c).0 (choose n i c).1 (find_from n i s)
find_from-Searched zero i s c low v =
    unfold choose find_from in
    record {
      after = s;
      runs = refl;
      valid = v;
      found = λ t e. cc;
      missed = λ e. refl;
      same = ground arith;
    }
find_from-Searched (suc n) i s c low v = elim (List-cases (c i)) [
  | inl e ↦
      let empty = Queues.pop_front-none s.rr (s.queues i) (rw (← e) (v.queues.each i)) in
      rw (choose-empty n i c e, find_from-empty n i s empty)
        (find_from-Searched n (i + 1) s c (omega arith) v)
  | inr (t, xs, e) ↦ rw (choose-found n i c t xs e) (popped s c n i t xs (omega arith) v e)
]

-- What a search by priority among the queues `i` to `i + n - 1` may give: nothing, if all are empty,
-- or the first task of the first queue that is not.
pub data Chosen (n i : ℕ) (c : ℕ → List ℕ) : Option ℕ → (ℕ → List ℕ) → Type 0 where
  nothing :
      {o : Option ℕ} {d : ℕ → List ℕ}
      → o ≡ none
      → d ≡ c
      → ((j : ℕ) → i ≤ j → j < i + n → c j ≡ [])
      → Chosen n i c o d
  first :
      {o : Option ℕ} {d : ℕ → List ℕ} (j t : ℕ) (xs : List ℕ)
      → o ≡ some t
      → d ≡ update c j xs
      → i ≤ j
      → j < i + n
      → c j ≡ t ∷ xs
      → ((m : ℕ) → i ≤ m → m < j → c m ≡ [])
      → Chosen n i c o d

-- An empty queue in front may be skipped.
below-step :
    (i j m : ℕ) (c : ℕ → List ℕ)
    → c i ≡ []
    → ((m : ℕ) → i + 1 ≤ m → m < j → c m ≡ [])
    → i ≤ m
    → m < j
    → c m ≡ []
below-step i j m c h rest lo hi = elim (Bool-cases (m == i)) [
  | inl e ↦ ap c ((==_iff m i).0 e) ∙ h
  | inr e ↦ rest m (ground arith) hi
]

skip :
    (n i : ℕ) (c : ℕ → List ℕ) (o : Option ℕ) (d : ℕ → List ℕ)
    → c i ≡ []
    → Chosen n (i + 1) c o d
    → Chosen (suc n) i c o d
skip n i c o d h (nothing e f all) =
    nothing e f (λ j lo hi. below-step i (i + suc n) j c h (λ m p q. all m p (omega arith)) lo hi)
skip n i c o d h (first j t xs e f lo hi here below) =
    first j t xs e f (omega arith) (omega arith) here (λ m p q. below-step i j m c h below p q)

choose-Chosen : (n i : ℕ) (c : ℕ → List ℕ) → Chosen n i c (choose n i c).0 (choose n i c).1
choose-Chosen zero i c = unfold choose in nothing refl refl (λ j lo hi. absurd (omega arith))
choose-Chosen (suc n) i c = elim (List-cases (c i)) [
  | inl h ↦ rw (choose-empty n i c h) (skip n i c _ _ h (choose-Chosen n (i + 1) c))
  | inr (t, xs, h) ↦
      rw (choose-found n i c t xs h)
        (first i t xs refl refl (omega arith) (omega arith) h (λ m p q. absurd (omega arith)))
]

-- The search of the run queues never panics on valid queues. It takes the first task of the queue of
-- the highest priority that holds one, which is then ready, in no queue and unlinked; it finds none
-- only if all five queues are empty. The queues stay in agreement with the states.
pub find_task_to_run-Chosen :
    {s : Sched} {c : ℕ → List ℕ}
    → IsValid s c
    → (o : Option ℕ) × (d : ℕ → List ℕ) × Searched s o d (find_task_to_run s)
      × Chosen max_priorities 0 c o d
unfolding find_task_to_run
find_task_to_run-Chosen {s} {c} v = (
  (choose 5 0 c).0,
  (choose 5 0 c).1,
  find_from-Searched 5 0 s c (omega arith) v,
  choose-Chosen 5 0 c,
)
