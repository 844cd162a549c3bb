-- ===== src/Links/Edits.antt =====
-- What the edits of the kernel do to a doubly linked list: insertion in front and removal from any
-- position.
use munk_os.Prelude.{
  ℕ, ◌≡◌, refl, true, false, List, [], ◌∷◌, ◌++◌, arith, mem, mem-append, ok, if◌then◌else◌, ◌==◌,
  ==_iff, Bool-cases, inl, inr, ap, sym, ◌∙◌,
}
use mathlib.Core.List.{append-nil}
use munk_os.Links.{
  Ptr, null, node, ptr_is, Links, set_next, set_prev, detach, attach_front, attach_back,
}
use munk_os.Links.Segments
use munk_os.Links.Segments.{Seg, Chain, SameOn, SameOff, Disjoint, Split}

-- Writes at nodes outside a segment keep it.
pub frame-set_next :
    (l : Links) (back p : Ptr) (xs : List ℕ) (last stop : Ptr) (a : ℕ) (q : Ptr)
    → mem a xs ≡ false
    → Seg l back p xs last stop
    → Seg (set_next l a q) back p xs last stop
frame-set_next l back p xs last stop a q out s =
    Segments.frame l (set_next l a q) back p xs last stop (λ b i. ground arith) s

-- Writing the `prev` pointer of the first node moves what a segment leads back to.
pub rebase :
    (l : Links) (back : Ptr) (x : ℕ) (xs : List ℕ) (last stop b : Ptr)
    → Seg l back (node x) (x ∷ xs) last stop
    → Seg (set_prev l x b) b (node x) (x ∷ xs) last stop
rebase l back x xs last stop b s =
    let rest =
      Segments.frame l (set_prev l x b) (node x) (l.next x) xs last stop (λ a i. ground arith)
        s.3 in
    (refl, ground arith, s.2, rest)

-- The last node after an insertion in front.
abbrev pub tail_after : List ℕ → ℕ → Ptr → Ptr
tail_after [] e tail = node e
tail_after (x ∷ xs) e tail = tail

-- Insertion in front of a list never faults, and gives the list with the new node first.
pub attach_front-cons :
    (l : Links) (head : Ptr) (xs : List ℕ) (tail : Ptr) (e : ℕ)
    → mem e xs ≡ false
    → Chain l head xs tail
    → (k : Links) × (attach_front l e head ≡ ok k)
      × Chain k (node e) (e ∷ xs) (tail_after xs e tail)
      × SameOff (e ∷ xs) l k
attach_front-cons l head [] tail e out s =
    (set_next (set_prev l e null) e null, ground arith, ground arith, λ a i. ground arith)
attach_front-cons l head (x ∷ xs) tail e out s =
    let k = set_prev (set_next (set_prev l e null) e head) x (node e) in
    let rest = Segments.frame l k (node x) (l.next x) xs tail null (λ a i. ground arith) s.3 in
    (k, ground arith, (refl, ground arith, out, ground arith), λ a i. ground arith)

-- `p` leads from `e` towards an end of the list: it is NULL if `e` is that end, and else a node.
pub data End (p end : Ptr) (e : ℕ) : Type 0 where
  at_end : p ≡ null → ptr_is end e ≡ true → End p end e
  inside : (z : ℕ) → p ≡ node z → ptr_is end e ≡ false → End p end e

-- The outcome of taking `e` out from between `ys` and `zs`.
pub record Detached (l : Links) (head : Ptr) (ys : List ℕ) (e : ℕ) (zs : List ℕ) (tail : Ptr)
    : Type 0 where
  pub links : Links
  pub runs : detach l e ≡ ok links
  pub chain :
      Chain links
        (if ptr_is head e then l.next e else head)
        (ys ++ zs)
        (if ptr_is tail e then l.prev e else tail)
  pub same : SameOff (ys ++ zs) l links
  pub after : End (l.next e) tail e
  pub before : End (l.prev e) head e

pub ==_refl : (n : ℕ) → (n == n) ≡ true
==_refl n = ground arith

pub not-mem_of_Disjoint :
    (xs ys : List ℕ) (e : ℕ) → Disjoint xs ys → mem e ys ≡ true → mem e xs ≡ false
not-mem_of_Disjoint xs ys e apart i = elim (Bool-cases (mem e xs)) [
  | inl h ↦ cc (apart e h)
  | inr h ↦ h
]

pub not_same : (a e : ℕ) (xs : List ℕ) → mem a xs ≡ true → mem e xs ≡ false → (a == e) ≡ false
not_same a e xs i o = elim (Bool-cases (a == e)) [
  | inl p ↦ cc (ap (λ n. mem n xs) ((==_iff a e).0 p))
  | inr p ↦ p
]

pub not_tail :
    (tail : Ptr) (t e : ℕ) (zs : List ℕ)
    → tail ≡ node t
    → mem t zs ≡ true
    → mem e zs ≡ false
    → ptr_is tail e ≡ false
not_tail tail t e zs h i o = elim (Bool-cases (t == e)) [
  | inl p ↦ cc (ap (λ n. mem n zs) ((==_iff t e).0 p))
  | inr p ↦ rw (h, p)
]

-- `e` is the last node, and `m` the one before it.
detach_last :
    (l : Links) (head : Ptr) (ys : List ℕ) (m e : ℕ) (tail : Ptr)
    → Seg l null head ys (node m) (node e)
    → mem m ys ≡ true
    → mem e ys ≡ false
    → ptr_is head e ≡ false
    → l.prev e ≡ node m
    → l.next e ≡ null
    → tail ≡ node e
    → Detached l head ys e [] tail
detach_last l head ys m e tail s i out h p n t =
    let short = Segments.redirect l null head ys m (node e) null i s in
    record {
      links = set_next l m null;
      runs = ground arith;
      chain = rw (append-nil, h, t, ==_refl, p) short;
      same = λ a o. ground (arith, append-nil ys);
      after = at_end n (rw t (==_refl e));
      before = inside m p h;
    }

-- `e` stands between `m` and `z`.
detach_between :
    (l : Links) (head : Ptr) (ys : List ℕ) (m e z : ℕ) (zs : List ℕ) (tail : Ptr)
    → Disjoint ys (e ∷ z ∷ zs)
    → Seg l null head ys (node m) (node e)
    → mem m ys ≡ true
    → l.prev e ≡ node m
    → mem e (z ∷ zs) ≡ false
    → Seg l (node e) (l.next e) (z ∷ zs) tail null
    → ptr_is head e ≡ false
    → ptr_is tail e ≡ false
    → Detached l head ys e (z ∷ zs) tail
detach_between l head ys m e z zs tail apart s i p out t h nt =
    let k = set_next l m (node z) in
    let j = set_prev k z (node m) in
    let short = Segments.redirect l null head ys m (node e) (node z) i s in
    let front : Seg j null head ys (node m) (node z) =
      Segments.frame k j null head ys (node m) (node z) (λ a o. ground (arith, apart a)) short in
    let back : Seg k (node e) (node z) (z ∷ zs) tail null =
      frame-set_next l (node e) (node z) (z ∷ zs) tail null m (node z) (ground (arith, apart m))
        (ground arith) in
    let rest = rebase k (node e) z zs tail null (node m) back in
    record {
      links = j;
      runs = ground (arith, apart m);
      chain =
          rw (h, nt)
            (Segments.append j null head ys (node m) (node z) (z ∷ zs) tail null
              (λ a o. ground (arith, apart a)) front rest);
      same = λ a o. ground (arith, mem-append a ys (z ∷ zs));
      after = inside z t.0 nt;
      before = inside m p h;
    }

pub detach-append :
    (l : Links) (head : Ptr) (ys : List ℕ) (e : ℕ) (zs : List ℕ) (tail : Ptr)
    → Chain l head (ys ++ e ∷ zs) tail
    → Detached l head ys e zs tail
detach-append l head [] e [] tail s = record {
  links = l;
  runs = ground arith;
  chain = ground arith;
  same = λ a i. (refl, refl);
  after = at_end (ground arith) (ground arith);
  before = at_end (ground arith) (ground arith);
}
detach-append l head [] e (z ∷ zs) tail s =
    let t = Segments.last_node l (node e) (l.next e) z zs tail null s.3 in
    let rest = rebase l (node e) z zs tail null null (ground arith) in
    record {
      links = set_prev l z null;
      runs = ground arith;
      chain = ground arith;
      same = λ a i. ground arith;
      after = inside z s.3.0 (ground arith);
      before = at_end (ground arith) (ground arith);
    }
detach-append l head (y ∷ ys) e [] tail s =
    let sp = Segments.split l null head (y ∷ ys) (e ∷ []) tail null s in
    let m = Segments.last_node l null head y ys sp.mid sp.next sp.front in
    let front : Seg l null head (y ∷ ys) (node m.0) (node e) = rw (← m.1, ← sp.rest.0) sp.front in
    let out : mem e (y ∷ ys) ≡ false =
      not-mem_of_Disjoint (y ∷ ys) (e ∷ []) e sp.apart (ground arith) in
    detach_last l head (y ∷ ys) m.0 e tail front m.2 out (ground arith) (sp.rest.1 ∙ m.1)
      sp.rest.3.0 (sym sp.rest.3.1)
detach-append l head (y ∷ ys) e (z ∷ zs) tail s =
    let sp = Segments.split l null head (y ∷ ys) (e ∷ z ∷ zs) tail null s in
    let m = Segments.last_node l null head y ys sp.mid sp.next sp.front in
    let t = Segments.last_node l (node e) (l.next e) z zs tail null sp.rest.3 in
    let front : Seg l null head (y ∷ ys) (node m.0) (node e) = rw (← m.1, ← sp.rest.0) sp.front in
    let out : mem e (y ∷ ys) ≡ false =
      not-mem_of_Disjoint (y ∷ ys) (e ∷ z ∷ zs) e sp.apart (ground arith) in
    detach_between l head (y ∷ ys) m.0 e z zs tail sp.apart front m.2 (sp.rest.1 ∙ m.1) sp.rest.2
      sp.rest.3 (ground arith) (not_tail tail t.0 e (z ∷ zs) t.1 t.2 sp.rest.2)

attach_back_at :
    (l : Links) (head : Ptr) (x : ℕ) (xs : List ℕ) (z e : ℕ)
    → mem e (x ∷ xs) ≡ false
    → mem z (x ∷ xs) ≡ true
    → (z == e) ≡ false
    → Chain l head (x ∷ xs) (node z)
    → (k : Links) × (attach_back l e (node z) ≡ ok k)
      × Chain k head ((x ∷ xs) ++ e ∷ []) (node e)
      × SameOff ((x ∷ xs) ++ e ∷ []) l k
attach_back_at l head x xs z e out found apart s =
    let j = set_next l e null in
    let k = set_next j z (node e) in
    let i = set_prev k e (node z) in
    let s' = frame-set_next l null head (x ∷ xs) (node z) null e null out s in
    let long = Segments.redirect j null head (x ∷ xs) z null (node e) found s' in
    let front =
      Segments.frame k i null head (x ∷ xs) (node z) (node e)
        (λ a i. ground (arith, not_same a e (x ∷ xs) i out)) long in
    let all =
      Segments.append i null head (x ∷ xs) (node z) (node e) (e ∷ []) (node e) null
        (λ a i. ground (arith, not_same a e (x ∷ xs) i out)) front (ground arith) in
    (
      i,
      refl,
      all,
      λ a o. ground (arith, mem-append a (x ∷ xs) (e ∷ []), not_same z a (x ∷ xs) found),
    )

-- Insertion behind a list that is not empty never faults, and gives the list with the new node
-- last.
pub attach_back-append :
    (l : Links) (head : Ptr) (x : ℕ) (xs : List ℕ) (tail : Ptr) (e : ℕ)
    → mem e (x ∷ xs) ≡ false
    → Chain l head (x ∷ xs) tail
    → (k : Links) × (attach_back l e tail ≡ ok k)
      × Chain k head ((x ∷ xs) ++ e ∷ []) (node e)
      × SameOff ((x ∷ xs) ++ e ∷ []) l k
attach_back-append l head x xs tail e out s =
    let t = Segments.last_node l null head x xs tail null s in
    let apart = not_tail (node t.0) t.0 e (x ∷ xs) refl t.2 out in
    rw t.1 (attach_back_at l head x xs t.0 e out t.2 apart (rw (← t.1) s))

-- A node stands in its list once.
pub once :
    (l : Links) (head : Ptr) (ys : List ℕ) (e : ℕ) (zs : List ℕ) (tail : Ptr)
    → Chain l head (ys ++ e ∷ zs) tail
    → mem e (ys ++ zs) ≡ false
once l head ys e zs tail s =
    let sp = Segments.split l null head ys (e ∷ zs) tail null s in
    let out = not-mem_of_Disjoint ys (e ∷ zs) e sp.apart (ground arith) in
    rw (mem-append, out, sp.rest.2)
