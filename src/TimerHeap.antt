-- ===== src/TimerHeap.antt =====
-- The heap of system timers of kernel/src/misc/time.c. A timer is its 64-bit address; `heap` is the
-- array `heap_array`, whose entries from `size` on hold leftovers. `krealloc` of
-- kernel/src/mm/slab.c copies bytes of the old block into a new one; what the new block holds before
-- that is the parameter `kmalloc`, from the size of the block. Where the blocks are, and what `kfree`
-- does with the old one, is modelled in Slab and writes no timer. The array is locked, or interrupts
-- are off, throughout each operation. A loop runs on fuel.
pub mod Contents
pub mod Order
pub mod Climbing
pub mod Sinking
pub mod Laws
pub mod Dispatch
pub mod Losing
mod Tests
use munk_os.Prelude.{
  ℕ, zero, suc, ◌+◌, ◌-◌, ◌*◌, ◌/◌, ◌%◌, ◌^◌, Bool, true, false, ◌&&◌, not, List, [], ◌∷◌, Option,
  none, some, Outcome, ok, panic, fault, out_of_fuel, ◌>>=◌, update, ltb, leb, ◌==◌, if◌then◌else◌,
}
use munk_os.FrameAlloc.Orders.{psize2order}
use munk_os.FrameAlloc.Startup.{min}
use munk_os.Slab.Caches.{kmalloc_max_cache_size, size2block}

pub record Timers : Type 0 where
  pub heap : ℕ → ℕ
  pub size : ℕ
  pub capacity : ℕ
  pub expiration_time : ℕ → ℕ

abbrev pub swap : ℕ → ℕ → (ℕ → ℕ) → ℕ → ℕ
swap i j h = update (update h i (h j)) j (h i)

abbrev pub get_child : ℕ → ℕ → ℕ
get_child index dir = index * 2 + dir

abbrev pub get_parent : ℕ → ℕ
get_parent index = (index - 1) / 2

-- The child if it is in the heap and expires before `best`, else `best`.
abbrev pub sooner : (ℕ → ℕ) → ℕ → (ℕ → ℕ) → ℕ → ℕ → ℕ
sooner e size h child best =
    if ltb child size && ltb (e (h child)) (e (h best)) then child else best

-- The position that `min_heapify` swaps with.
abbrev pub least_of : (ℕ → ℕ) → ℕ → (ℕ → ℕ) → ℕ → ℕ
least_of e size h idx =
    let right_idx = sooner e size h (get_child idx 1) idx in
    sooner e size h (get_child idx 2) right_idx

unfoldable pub min_heapify : ℕ → (ℕ → ℕ) → ℕ → ℕ → (ℕ → ℕ) → Outcome (ℕ → ℕ)
min_heapify zero e size idx h = out_of_fuel
min_heapify (suc fuel) e size idx h =
    let right_idx = least_of e size h idx in
    let rest = min_heapify fuel e size right_idx (swap idx right_idx h) in
    if right_idx == idx then ok h else rest

-- The loop of `timer_insert`.
unfoldable pub bubble_up : ℕ → (ℕ → ℕ) → ℕ → (ℕ → ℕ) → Outcome (ℕ → ℕ)
bubble_up zero e idx h = out_of_fuel
bubble_up (suc fuel) e idx h =
    let rest = bubble_up fuel e (get_parent idx) (swap idx (get_parent idx) h) in
    if not (idx == 0) && ltb (e (h idx)) (e (h (get_parent idx))) then rest else ok h

-- The `copy_size` of `krealloc`, from the size of the old block: for a block of the buddy allocator
-- it is the order of the block.
unfoldable pub copy_size : ℕ → ℕ → Outcome ℕ
copy_size old size =
    if ltb kmalloc_max_cache_size old
    then (do order ← psize2order old; ok (min order size))
    else (do i ← size2block old; ok (min (2 ^ (i + 4)) size))

-- The words of `new` once its first `n` bytes are those of `addr`; a word has its low byte first.
abbrev pub copied : ℕ → (ℕ → ℕ) → (ℕ → ℕ) → ℕ → ℕ
copied n addr new i =
    let low = 2 ^ (8 * (n - 8 * i)) in
    if leb 8 (n - 8 * i) then addr i else addr i % low + new i / low * low

module _ (kmalloc : ℕ → Outcome (ℕ → ℕ)) where
  -- `addr` is a block of `old` bytes, or NULL if `old` is 0.
  unfoldable pub krealloc : (ℕ → ℕ) → ℕ → ℕ → Outcome (ℕ → ℕ)
  krealloc addr old size = do
    new ← kmalloc size
    if old == 0 then ok new else do n ← copy_size old size; ok (copied n addr new)

  -- `heap_array` in a block for `capacity` timers.
  unfoldable pub resize : Timers → ℕ → Outcome Timers
  resize t capacity = do
    h ← krealloc t.heap (t.capacity * 8) (capacity * 8)
    ok (record t { heap = h; capacity = capacity })

  -- Room for one more timer. Doubling an `int` of 2 ^ 30 or more overflows.
  unfoldable pub grow : Timers → Outcome Timers
  grow t =
      if t.size == t.capacity
      then if t.capacity == 0
        then resize t 3000
        else if ltb t.capacity (2 ^ 30)
        then resize t (t.capacity * 2)
        else fault
      else ok t

  unfoldable pub timer_insert : Timers → ℕ → Outcome Timers
  timer_insert t timer = do
    t' ← grow t
    let idx = t'.size
    h ← bubble_up (suc idx) t'.expiration_time idx (update t'.heap idx timer)
    ok (record t' { heap = h; size = idx + 1 })

unfoldable pub timer_peek : Timers → Option ℕ
timer_peek t = if t.size == 0 then none else some (t.heap 0)

module _ (kmalloc : ℕ → Outcome (ℕ → ℕ)) where
  unfoldable pub shrink : Timers → Outcome Timers
  shrink t =
      if ltb 64 t.size && ltb (t.size * 4) t.capacity
      then resize kmalloc t (t.capacity / 2)
      else ok t

  unfoldable pub timer_pop : Timers → Outcome (ℕ × Timers)
  timer_pop t =
      if t.size == 0
      then panic
      else if t.size == 1
      then ok (t.heap 0, record t { size = 0 })
      else do
        let root = t.heap 0
        t' ← shrink (record t { heap = update t.heap 0 (t.heap (t.size - 1)); size = t.size - 1 })
        h ← min_heapify t'.size t'.expiration_time t'.size 0 t'.heap
        ok (root, record t' { heap = h })

module _ {ℓ} {S : Type ℓ} (kmalloc : ℕ → Outcome (ℕ → ℕ)) (launch : ℕ → S → Outcome S) where
  -- The loop of `system_timer_handler`, where `launch` is `kevent_launch` on a timer's event. It also
  -- returns the timers dispatched, in order.
  unfoldable pub dispatch : ℕ → ℕ → Timers → S → Outcome (List ℕ × Timers × S)
  dispatch zero ticks t s = out_of_fuel
  dispatch (suc fuel) ticks t s = elim (timer_peek t) [
    | none ↦ ok ([], t, s)
    | some timer ↦ if ltb ticks (t.expiration_time timer) then ok ([], t, s) else do
      (popped, t') ← timer_pop kmalloc t
      s' ← launch popped s
      (rest, t'', s'') ← dispatch fuel ticks t' s'
      ok (popped ∷ rest, t'', s'')
  ]
