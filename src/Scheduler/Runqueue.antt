-- ===== src/Scheduler/Runqueue.antt =====
-- The run queues of kernel/src/proc/scheduler.c: lists with a head and a tail through the `rr_next`
-- and `rr_prev` fields of the tasks. The spinlock of a queue is taken and released inside each
-- function, so it does not show in the state between two calls.
pub mod Refinement
use munk_os.Prelude.{
  ℕ, ◌+◌, ◌-◌, ◌%◌, ◌^◌, Option, none, some, Outcome, ok, fault, ◌>>=◌, if◌then◌else◌,
}
use munk_os.Links.{
  Ptr, null, node, poison, ptr_is, Links, set_next, set_prev, set_prev_at, detach, attach_front,
  attach_back,
}

-- `num_tasks` is an `int`, kept as its bit pattern.
pub record RunQueue : Type 0 where
  pub num_tasks : ℕ
  pub head : Ptr
  pub tail : Ptr

abbrev pub inc_int : ℕ → ℕ
inc_int n = (n + 1) % 2 ^ 32

abbrev pub dec_int : ℕ → ℕ
dec_int n = (n + 2 ^ 32 - 1) % 2 ^ 32

-- `task->rr_next = task->rr_prev = NULL`
abbrev pub clear_links : Links → ℕ → Links
clear_links l t = set_next (set_prev l t null) t null

-- `rq->head = rq->head->rr_next; rq->head->rr_prev = NULL;`
abbrev pub advance_head : Links → RunQueue → Ptr → Outcome (Links × RunQueue)
advance_head l rq null = fault
advance_head l rq (node n) = ok (set_prev l n null, record rq { head = node n })
advance_head l rq poison = fault

pop_at : Links → RunQueue → Ptr → Outcome (Option ℕ × Links × RunQueue)
pop_at l rq null = ok (none, l, rq)
pop_at l rq (node ret) = do
  (k, q) ←
      if ptr_is rq.tail ret
      then ok (l, record rq { head = null; tail = null })
      else advance_head l rq (l.next ret)
  ok (some ret, clear_links k ret, record q { num_tasks = dec_int q.num_tasks })
pop_at l rq poison = fault

-- `none` is NULL.
unfoldable pub runqueue_pop_front : Links → RunQueue → Outcome (Option ℕ × Links × RunQueue)
unfolding pop_at
runqueue_pop_front l rq = pop_at l rq rq.head

insert_front_at : Links → RunQueue → ℕ → Ptr → Outcome (Links × RunQueue)
insert_front_at l rq task null = ok (
  set_prev (set_next l task null) task null,
  record rq { head = node task; tail = node task; num_tasks = inc_int rq.num_tasks },
)
insert_front_at l rq task head = do
  k ← attach_front l task head
  ok (k, record rq { head = node task; num_tasks = inc_int rq.num_tasks })

-- The panic on `task == NULL` cannot arise: a task is a node.
unfoldable pub runqueue_insert_front : Links → RunQueue → ℕ → Outcome (Links × RunQueue)
unfolding insert_front_at
runqueue_insert_front l rq task = insert_front_at l rq task rq.head

insert_back_at : Links → RunQueue → ℕ → Ptr → Outcome (Links × RunQueue)
insert_back_at l rq task null = ok (
  set_prev (set_next l task null) task null,
  record rq { head = node task; tail = node task; num_tasks = inc_int rq.num_tasks },
)
insert_back_at l rq task tail = do
  k ← attach_back l task tail
  ok (k, record rq { tail = node task; num_tasks = inc_int rq.num_tasks })

unfoldable pub runqueue_insert_back : Links → RunQueue → ℕ → Outcome (Links × RunQueue)
unfolding insert_back_at
runqueue_insert_back l rq task = insert_back_at l rq task rq.tail

-- `p` as the new value of one end; the other end is cleared with it.
abbrev pub new_head : RunQueue → Ptr → RunQueue
new_head rq null = record rq { head = null; tail = null }
new_head rq p = record rq { head = p }

abbrev pub new_tail : RunQueue → Ptr → RunQueue
new_tail rq null = record rq { tail = null; head = null }
new_tail rq p = record rq { tail = p }

abbrev pub drop_end : Links → RunQueue → ℕ → RunQueue
drop_end l rq task =
    if ptr_is rq.head task
    then new_head rq (l.next task)
    else if ptr_is rq.tail task
    then new_tail rq (l.prev task)
    else rq

unfoldable pub runqueue_remove : Links → RunQueue → ℕ → Outcome (Links × RunQueue)
runqueue_remove l rq task = do
  let q = drop_end l rq task
  k ← detach l task
  ok (clear_links k task, record q { num_tasks = dec_int q.num_tasks })
