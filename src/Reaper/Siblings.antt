-- ===== src/Reaper/Siblings.antt =====
-- A task leaves its siblings, in kernel/src/proc/scheduler.c.
use munk_os.Prelude.{
  ℕ, ◌≡◌, refl, ap, ◌∙◌, arith, false, List, [], ◌∷◌, ◌++◌, mem, mem-append, update, ok, ◌==◌,
  if◌then◌else◌,
}
use munk_os.Links.{Ptr, null, node, poison, ptr_is, Links, detach}
use munk_os.Links.Segments
use munk_os.Links.Segments.{Chain, Seg, SameOff, Disjoint}
use munk_os.Links.Edits
use munk_os.Reaper.{leave_siblings}
use munk_os.Tasks.Family.{AreChildren, update-AreChildren}

leave_at :
    (l : Links) (t : ℕ) (p q : Ptr)
    → l.next t ≡ p
    → l.prev t ≡ q
    → ptr_is p t ≡ false
    → ptr_is q t ≡ false
    → leave_siblings l t ≡ detach l t
leave_at l t null null e f g h = ground arith
leave_at l t null (node b) e f g h = ground arith
leave_at l t null poison e f g h = ground arith
leave_at l t (node a) null e f g h = ground arith
leave_at l t (node a) (node b) e f g h = ground arith
leave_at l t (node a) poison e f g h = ground arith
leave_at l t poison null e f g h = ground arith
leave_at l t poison (node b) e f g h = ground arith
leave_at l t poison poison e f g h = ground arith

-- No task of a list is its own neighbour.
next_other :
    (l : Links) (mid p : Ptr) (t : ℕ) (zs : List ℕ) (tail : Ptr)
    → Seg l mid p (t ∷ zs) tail null
    → ptr_is (l.next t) t ≡ false
next_other l mid p t [] tail g = rw g.3.0
next_other l mid p t (z ∷ zs) tail g = ground arith

mid_other :
    (l : Links) (p : Ptr) (t : ℕ) (ys zs : List ℕ) (mid next : Ptr)
    → Seg l null p ys mid next
    → Disjoint ys (t ∷ zs)
    → ptr_is mid t ≡ false
mid_other l p t [] zs mid next g apart = rw (← g.1)
mid_other l p t (y ∷ ys) zs mid next g apart =
    let (z, e, i) = Segments.last_node l null p y ys mid next g in ground (arith, apart z i)

-- The order of the two writes does not matter to a task of a list.
leave_siblings-detach :
    (l : Links) (head : Ptr) (ys : List ℕ) (t : ℕ) (zs : List ℕ) (tail : Ptr)
    → Chain l head (ys ++ t ∷ zs) tail
    → leave_siblings l t ≡ detach l t
leave_siblings-detach l head ys t zs tail g =
    let r = Segments.split l null head ys (t ∷ zs) tail null g in
    leave_at l t (l.next t) (l.prev t) refl refl (next_other l r.mid r.next t zs tail r.rest)
      (rw r.rest.1 (mid_other l head t ys zs r.mid r.next r.front r.apart))

-- A child leaves from between `ys` and `zs`.
pub leave-AreChildren :
    {l : Links} {first : ℕ → Ptr} {kids : ℕ → List ℕ} (p t : ℕ) (ys zs : List ℕ)
    → AreChildren l first kids
    → kids p ≡ ys ++ t ∷ zs
    → (k : Links) × (leave_siblings l t ≡ ok k)
      × AreChildren k
          (update first p (if ptr_is (first p) t then l.next t else first p))
          (update kids p (ys ++ zs))
leave-AreChildren {l} {first} {kids} p t ys zs v here =
    let (tail, g0) = v.each p in
    let g : Chain l (first p) (ys ++ t ∷ zs) tail = rw (← here) g0 in
    let d = Edits.detach-append l (first p) ys t zs tail g in
    let all : (q : ℕ) → (q == p) ≡ false → Disjoint (kids q) (ys ++ zs) = λ q e a i.
      ground
        (arith, v.apart q p e a i, ap (mem a) here, mem-append a ys zs, mem-append a ys (t ∷ zs)) in
    (
      d.links,
      leave_siblings-detach l (first p) ys t zs tail g ∙ d.runs,
      update-AreChildren l d.links first kids p _ _ (ys ++ zs) (ys ++ zs) all all d.same d.chain v,
    )
