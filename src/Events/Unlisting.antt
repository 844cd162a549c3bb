-- ===== src/Events/Unlisting.antt =====
-- `_subscriber_list_unlink` of kernel/src/misc/kevent.c: what it finds, and what it does to the
-- threads that wait for an event.
use munk_os.Prelude.{
  ℕ, zero, suc, ◌≡◌, ◌≤◌, refl, ap, ◌∙◌, arith, true, false, List, [], ◌∷◌, ◌++◌, mem, ◌==◌, update,
  Outcome, ok, panic, inl, inr, Bool-cases, mem-append, if◌then◌else◌, length, none, some, Option,
}
use mathlib.Core.Path.{subst}
use munk_os.Links.{Ptr, null, node, Links, ptr_is, detach}
use munk_os.Links.Segments.{Seg, Chain, Disjoint}
use munk_os.Links.Edits
use munk_os.Events.{Kevents, subscriber_pool_free, find_subscriber, subscriber_list_unlink}
use munk_os.Events.Lists.{threads, length-threads, subscriber_pool_free-AreLists, AreLists-edit}
use munk_os.Events.Subscribers.{IsValid, Returned}

-- `t` stops waiting once.
abbrev pub remove_first : ℕ → List ℕ → List ℕ
remove_first t [] = []
remove_first t (x ∷ xs) = if x == t then xs else x ∷ remove_first t xs

abbrev pub delist : ℕ → ℕ → (ℕ → List ℕ) → ℕ → List ℕ
delist ev t w = update w ev (remove_first t (w ev))

-- The first subscriber of a list that stands for thread `t`.
record Found (th : ℕ → ℕ) (t : ℕ) (xs : List ℕ) (r : Outcome (Option ℕ)) : Type 0 where
  before : List ℕ
  curr : ℕ
  after : List ℕ
  here : xs ≡ before ++ curr ∷ after
  runs : r ≡ ok (some curr)
  left : threads th (before ++ after) ≡ remove_first t (threads th xs)

find_here :
    (fuel : ℕ) (k : Kevents) (t x : ℕ) (p : Ptr)
    → p ≡ node x
    → (k.subscribed_thread x == t) ≡ true
    → find_subscriber (suc fuel) k t p ≡ ok (some x)
unfolding find_subscriber
find_here fuel k t x p e h = cc

find_next :
    (fuel : ℕ) (k : Kevents) (t x : ℕ) (p : Ptr)
    → p ≡ node x
    → (k.subscribed_thread x == t) ≡ false
    → find_subscriber (suc fuel) k t p ≡ find_subscriber fuel k t (k.links.next x)
unfolding find_subscriber
find_next fuel k t x p e h = cc

find_subscriber-Found :
    (fuel : ℕ) (k : Kevents) (t : ℕ) (back p : Ptr) (xs : List ℕ) (tail : Ptr)
    → length xs ≤ fuel
    → Seg k.links back p xs tail null
    → mem t (threads k.subscribed_thread xs) ≡ true
    → Found k.subscribed_thread t xs (find_subscriber fuel k t p)
find_subscriber-Found fuel k t back p [] tail f s i = cc
find_subscriber-Found zero k t back p (x ∷ xs) tail f s i = absurd (omega arith)
find_subscriber-Found (suc fuel) k t back p (x ∷ xs) tail f s i =
    let th = k.subscribed_thread in
    elim (Bool-cases (th x == t)) [
      | inl e ↦ record {
        before = [];
        curr = x;
        after = xs;
        here = refl;
        runs = find_here fuel k t x p s.0 e;
        left = rw e;
      }
      | inr e ↦
          let r =
            find_subscriber-Found fuel k t (node x) (k.links.next x) xs tail (omega arith) s.3
              (ground arith) in
          record {
            before = x ∷ r.before;
            curr = r.curr;
            after = r.after;
            here = ap (λ ys. x ∷ ys) r.here;
            runs = find_next fuel k t x p s.0 e ∙ r.runs;
            left = rw e (ap (λ ys. th x ∷ ys) r.left);
          }
    ]

pub find_subscriber-none :
    (fuel : ℕ) (k : Kevents) (t : ℕ) (back p : Ptr) (xs : List ℕ) (tail : Ptr)
    → length xs ≤ fuel
    → Seg k.links back p xs tail null
    → mem t (threads k.subscribed_thread xs) ≡ false
    → find_subscriber fuel k t p ≡ ok none
unfolding find_subscriber
find_subscriber-none fuel k t back p [] tail f s i = rw s.0
find_subscriber-none zero k t back p (x ∷ xs) tail f s i = absurd (omega arith)
find_subscriber-none (suc fuel) k t back p (x ∷ xs) tail f s i =
    find_next fuel k t x p s.0 (ground arith)
    ∙ find_subscriber-none fuel k t (node x) (k.links.next x) xs tail (omega arith) s.3
        (ground arith)

-- The store after `curr` has been taken out of the subscribers of `ev`.
cut : Kevents → ℕ → ℕ → Links → Kevents
cut k ev curr l = record k {
  links = l;
  subscribers =
      update k.subscribers ev
        (if ptr_is (k.subscribers ev) curr then k.links.next curr else k.subscribers ev);
}

unlink_runs :
    (fuel : ℕ) (k : Kevents) (ev t curr : ℕ) (l : Links)
    → find_subscriber fuel k t (k.subscribers ev) ≡ ok (some curr)
    → detach k.links curr ≡ ok l
    → subscriber_list_unlink fuel k ev t ≡ ok (subscriber_pool_free (cut k ev curr l) curr)
unfolding subscriber_list_unlink cut
unlink_runs fuel k ev t curr l a b = rw (a, b)

-- With as much fuel as subscribers, `_subscriber_list_unlink` takes a waiting thread out once, and
-- no other.
pub subscriber_list_unlink-Returned :
    (fuel : ℕ) (k : Kevents) (w : ℕ → List ℕ)
    → IsValid k w
    → (ev t : ℕ) → length (w ev) ≤ fuel
    → mem t (w ev) ≡ true
    → Returned k (delist ev t w) (subscriber_list_unlink fuel k ev t)
unfolding cut subscriber_pool_free
subscriber_list_unlink-Returned fuel k w v ev t f i =
    let c = v.lists in
    let th = k.subscribed_thread in
    let (tail, s) = v.linked.each ev in
    let r =
      find_subscriber-Found fuel k t null (k.subscribers ev) (c ev) tail
        (omega (arith, f, length-threads th (c ev), ap length (v.waiting ev))) s
        (ap (mem t) (v.waiting ev) ∙ i) in
    let ys = r.before in
    let zs = r.after in
    let s' = subst (λ xs. Chain k.links (k.subscribers ev) xs tail) r.here s in
    let d = Edits.detach-append k.links (k.subscribers ev) ys r.curr zs tail s' in
    let away = Edits.once k.links (k.subscribers ev) ys r.curr zs tail s' in
    let in_list : mem r.curr (c ev) ≡ true =
      ground (arith, ap (mem r.curr) r.here, mem-append r.curr ys (r.curr ∷ zs)) in
    let part : (a : ℕ) → mem a (ys ++ zs) ≡ true → mem a (c ev) ≡ true =
      λ a i. ground (arith, ap (mem a) r.here, mem-append a ys (r.curr ∷ zs), mem-append a ys zs) in
    let spared : (xs : List ℕ) → Disjoint xs (c ev) → Disjoint xs (ys ++ zs) = λ xs apart a i.
      elim (Bool-cases (mem a (ys ++ zs))) [ inl h ↦ cc (apart a i, part a h) | inr h ↦ h ] in
    let k' = cut k ev r.curr d.links in
    let v' =
      AreLists-edit k c v.pool ev (ys ++ zs) (ys ++ zs) d.links _ _ k.event th
        (λ j e. let q = spared (c j) (v.linked.apart j ev e) in (q, q))
        (let q = spared v.pool (v.linked.idle ev) in (q, q)) (λ a i. v.linked.made ev a (part a i))
        d.same d.chain v.linked in
    record {
      result = subscriber_pool_free k' r.curr;
      runs = unlink_runs fuel k ev t r.curr d.links r.runs d.runs;
      valid = record {
        lists = update c ev (ys ++ zs);
        pool = r.curr ∷ v.pool;
        linked =
            subscriber_pool_free-AreLists k' (update c ev (ys ++ zs)) v.pool r.curr v'
              (Edits.not-mem_of_Disjoint v.pool (c ev) r.curr (v.linked.idle ev) in_list)
              (λ j. elim (Bool-cases (j == ev)) [
                | inl e ↦ rw e away
                | inr e ↦
                    rw e (
                      Edits.not-mem_of_Disjoint (c j) (c ev) r.curr (v.linked.apart j ev e) in_list)
              ])
              (v.linked.made ev r.curr in_list);
        waiting = λ j. elim (Bool-cases (j == ev)) [
          | inl e ↦ rw e (r.left ∙ ap (remove_first t) (v.waiting ev))
          | inr e ↦ rw e (v.waiting j)
        ];
      };
      counts = refl;
    }

-- Unlinking a thread that does not wait for the event panics.
pub subscriber_list_unlink-panic :
    (fuel : ℕ) (k : Kevents) (w : ℕ → List ℕ)
    → IsValid k w
    → (ev t : ℕ) → length (w ev) ≤ fuel
    → mem t (w ev) ≡ false
    → subscriber_list_unlink fuel k ev t ≡ panic
unfolding subscriber_list_unlink
subscriber_list_unlink-panic fuel k w v ev t f i =
    let th = k.subscribed_thread in
    let (tail, s) = v.linked.each ev in
    rw (
      find_subscriber-none fuel k t null (k.subscribers ev) (v.lists ev) tail
        (omega (arith, f, length-threads th (v.lists ev), ap length (v.waiting ev))) s
        (ap (mem t) (v.waiting ev) ∙ i))
