-- ===== src/FrameAlloc/Freelist/Laws.antt =====
-- What the freelist operations do to the list that the pointers stand for.
use munk_os.Prelude.{
  ℕ, ◌≡◌, refl, ap, sym, ◌∙◌, false, some, List, [], ◌∷◌, ◌++◌, arith, mem, mem-append, ok,
  if◌then◌else◌,
}
use munk_os.Links.{Ptr, null, node, ptr_is, Links, set_prev, detach}
use munk_os.Links.Segments
use munk_os.Links.Segments.{Seg, Chain, SameOff, Disjoint}
use munk_os.Links.Edits
use munk_os.FrameAlloc.Freelist.{list_link, list_unlink, unlink_from, list_get, poison_links}

-- `_list_link` puts a page in front.
pub list_link-cons :
    (l : Links) (head : Ptr) (xs : List ℕ) (tail : Ptr) (e : ℕ)
    → mem e xs ≡ false
    → Chain l head xs tail
    → (k : Links) × (t : Ptr) × (list_link l e head ≡ ok (k, node e))
      × Chain k (node e) (e ∷ xs) t
      × SameOff (e ∷ xs) l k
unfolding list_link
list_link-cons l head xs tail e out s =
    let r = Edits.attach_front-cons l head xs tail e out s in
    (r.0, Edits.tail_after xs e tail, rw r.1, r.2, r.3)

-- The call returns, the list is then `ys`, and no page outside `touched` has changed.
pub record Took (l : Links) (touched ys : List ℕ) (links : Links) (head : Ptr) : Type 0 where
  pub tail : Ptr
  pub chain : Chain links head ys tail
  pub same : SameOff touched l links

unlink_from-runs :
    (l k : Links) (e : ℕ) (head : Ptr)
    → detach l e ≡ ok k
    → unlink_from l e head ≡ ok (poison_links k e, if ptr_is head e then l.next e else head)
unfolding unlink_from
unlink_from-runs l k e head h = rw h

unlink_from-Took :
    (l : Links) (head : Ptr) (ys : List ℕ) (e : ℕ) (zs : List ℕ) (tail : Ptr)
    → Chain l head (ys ++ e ∷ zs) tail
    → (k : Links) × (h : Ptr) × (unlink_from l e head ≡ ok (k, h))
      × Took l (ys ++ e ∷ zs) (ys ++ zs) k h
unlink_from-Took l head ys e zs tail s =
    let d = Edits.detach-append l head ys e zs tail s in
    let away = Edits.once l head ys e zs tail s in
    let k = poison_links d.links e in
    (
      k,
      if ptr_is head e then l.next e else head,
      unlink_from-runs l d.links e head d.runs,
      record {
        tail = if ptr_is tail e then l.prev e else tail;
        chain =
            Segments.frame d.links k null _ (ys ++ zs) _ null
              (λ a i. ground (arith, Edits.not_same a e (ys ++ zs) i away)) d.chain;
        same = λ a i. ground (arith, mem-append a ys (e ∷ zs), mem-append a ys zs, d.same a);
      },
    )

not_empty :
    (l : Links) (e : ℕ) (head : Ptr) (y : ℕ)
    → head ≡ node y
    → list_unlink l e head ≡ unlink_from l e head
unfolding list_unlink
not_empty l e head y h = ap (list_unlink l e) h ∙ sym (ap (unlink_from l e) h)

-- `_list_unlink` takes a page out from any position.
pub list_unlink-append :
    (l : Links) (head : Ptr) (ys : List ℕ) (e : ℕ) (zs : List ℕ) (tail : Ptr)
    → Chain l head (ys ++ e ∷ zs) tail
    → (k : Links) × (h : Ptr) × (list_unlink l e head ≡ ok (k, h))
      × Took l (ys ++ e ∷ zs) (ys ++ zs) k h
list_unlink-append l head [] e zs tail s =
    let (k, h, runs, took) = unlink_from-Took l head [] e zs tail s in
    (k, h, not_empty l e head e s.0 ∙ runs, took)
list_unlink-append l head (y ∷ ys) e zs tail s =
    let (k, h, runs, took) = unlink_from-Took l head (y ∷ ys) e zs tail s in
    (k, h, not_empty l e head y s.0 ∙ runs, took)

-- `_list_get` takes the first page.
pub list_get-cons :
    (l : Links) (head : Ptr) (t : ℕ) (xs : List ℕ) (tail : Ptr)
    → Chain l head (t ∷ xs) tail
    → (k : Links) × (h : Ptr) × (list_get l head ≡ ok (some t, k, h)) × Took l (t ∷ xs) xs k h
unfolding list_get
list_get-cons l head t [] tail s = (
  poison_links l t,
  null,
  rw (s.0, s.3.0),
  record { tail = null; chain = (refl, refl); same = λ a i. ground arith },
)
list_get-cons l head t (x ∷ xs) tail s =
    let j = set_prev l x null in
    let k = poison_links j t in
    let rest = Edits.rebase l (node t) x xs tail null null (refl, s.3.1, s.3.2, s.3.3) in
    (
      k,
      node x,
      rw (s.0, s.3.0),
      record {
        tail = tail;
        chain =
            Segments.frame j k null (node x) (x ∷ xs) tail null
              (λ a i. ground (arith, Edits.not_same a t (x ∷ xs) i s.2)) rest;
        same = λ a i. ground arith;
      },
    )
