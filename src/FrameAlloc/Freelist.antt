-- ===== src/FrameAlloc/Freelist.antt =====
-- The freelists of kernel/src/mm/frame_alloc.c: doubly linked lists with a head, through the
-- `next` and `prev` fields of the pages.
pub mod Laws
use munk_os.Prelude.{ℕ, Option, none, some, Outcome, ok, panic, fault, ◌>>=◌, if◌then◌else◌}
use munk_os.Links.{
  Ptr, null, node, poison, ptr_is, Links, set_next, set_prev, set_prev_at, detach, attach_front,
}

-- `_list_link`, which returns the new head.
unfoldable pub list_link : Links → ℕ → Ptr → Outcome (Links × Ptr)
list_link l new head = do k ← attach_front l new head; ok (k, node new)

-- `entry->prev = entry->next = 0xDEADBEEF`
abbrev pub poison_links : Links → ℕ → Links
poison_links l e = set_next (set_prev l e poison) e poison

unlink_from : Links → ℕ → Ptr → Outcome (Links × Ptr)
unlink_from l entry head = do
  let head' = if ptr_is head entry then l.next entry else head
  k ← detach l entry
  ok (poison_links k entry, head')

-- `_list_unlink`, which returns the new head.
unfoldable pub list_unlink : Links → ℕ → Ptr → Outcome (Links × Ptr)
unfolding unlink_from
list_unlink l entry null = panic
list_unlink l entry head = unlink_from l entry head

-- `_list_get`, which returns the page it took, if any, and the new head.
unfoldable pub list_get : Links → Ptr → Outcome (Option ℕ × Links × Ptr)
list_get l null = ok (none, l, null)
list_get l (node ret) = do
  k ← set_prev_at l (l.next ret) null
  ok (some ret, poison_links k ret, l.next ret)
list_get l poison = fault
