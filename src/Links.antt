-- ===== src/Links.antt =====
-- Doubly linked lists in a store of nodes, the shape that the page freelists, the run queues, the
-- event subscribers and the directory entries of the kernel share. A node is a number; a pointer
-- is NULL, a node, or the value 0xDEADBEEF that unlinked nodes are poisoned with.
pub mod Segments
pub mod Edits
use munk_os.Prelude.{ℕ, Bool, false, Outcome, ok, fault, ◌>>=◌, update, ◌==◌}

pub data Ptr : Type 0 where
  null : Ptr
  node : ℕ → Ptr
  poison : Ptr

abbrev pub ptr_is : Ptr → ℕ → Bool
ptr_is null n = false
ptr_is (node m) n = m == n
ptr_is poison n = false

pub record Links : Type 0 where
  pub next : ℕ → Ptr
  pub prev : ℕ → Ptr

abbrev pub set_next : Links → ℕ → Ptr → Links
set_next l n p = record l { next = update l.next n p }

abbrev pub set_prev : Links → ℕ → Ptr → Links
set_prev l n p = record l { prev = update l.prev n p }

-- `if (p) p->next = q;`
abbrev pub set_next_at : Links → Ptr → Ptr → Outcome Links
set_next_at l null q = ok l
set_next_at l (node n) q = ok (set_next l n q)
set_next_at l poison q = fault

-- `if (p) p->prev = q;`
abbrev pub set_prev_at : Links → Ptr → Ptr → Outcome Links
set_prev_at l null q = ok l
set_prev_at l (node n) q = ok (set_prev l n q)
set_prev_at l poison q = fault

-- `e->prev` and `e->next` are made to skip `e`:
-- `if (e->prev) e->prev->next = e->next; if (e->next) e->next->prev = e->prev;`
abbrev pub detach : Links → ℕ → Outcome Links
detach l e = do k ← set_next_at l (l.prev e) (l.next e); set_prev_at k (k.next e) (k.prev e)

-- `e` is put before `head`:
-- `e->prev = NULL; e->next = head; if (head) head->prev = e;`
abbrev pub attach_front : Links → ℕ → Ptr → Outcome Links
attach_front l e head = set_prev_at (set_next (set_prev l e null) e head) head (node e)

-- `e` is put behind `tail`, which is not NULL:
-- `e->next = NULL; tail->next = e; e->prev = tail;`
abbrev pub attach_back : Links → ℕ → Ptr → Outcome Links
attach_back l e null = fault
attach_back l e (node t) = ok (set_prev (set_next (set_next l e null) t (node e)) e (node t))
attach_back l e poison = fault
