-- ===== src/Events/Subscribers.antt =====
-- Subscribing to events and unsubscribing from them: what `_subscriber_list_link` and
-- `_subscriber_list_unlink` of kernel/src/misc/kevent.c do to the threads that wait for an event.
use munk_os.Prelude.{ℕ, ◌≡◌, refl, ap, ◌∙◌, arith, List, [], ◌∷◌, update, Outcome, ok}
use munk_os.Links.{node, Links, attach_front}
use munk_os.Links.Segments.{Disjoint}
use munk_os.Links.Edits
use munk_os.Events.{Kevents, subscriber_pool_alloc, subscriber_list_link, kevent_subscribe}
use munk_os.Events.Lists.{
  AreLists, threads, threads-update, subscriber_pool_alloc-Taken, AreLists-edit,
}

-- The threads `w ev` wait for event `ev`, the last to subscribe first.
pub record IsValid (k : Kevents) (w : ℕ → List ℕ) : Type 0 where
  pub lists : ℕ → List ℕ
  pub pool : List ℕ
  pub linked : AreLists k lists pool
  pub waiting : (ev : ℕ) → threads k.subscribed_thread (lists ev) ≡ w ev

-- `t` waits for `ev` too.
abbrev pub enlist : ℕ → ℕ → (ℕ → List ℕ) → ℕ → List ℕ
enlist ev t w = update w ev (t ∷ w ev)

linked : (k k' : Kevents) (ev new t : ℕ) (l : Links) → Kevents
linked k k' ev new t l = record k' {
  links = l;
  event = update k'.event new ev;
  subscribed_thread = update k'.subscribed_thread new t;
  subscribers = update k'.subscribers ev (node new);
}

-- The call returns; the threads `w` wait, and no event count has changed.
pub record Returned (k : Kevents) (w : ℕ → List ℕ) (r : Outcome Kevents) : Type 0 where
  pub result : Kevents
  pub runs : r ≡ ok result
  pub valid : IsValid result w
  pub counts : result.unprocessed ≡ k.unprocessed

link_runs :
    (k k' : Kevents) (ev new t : ℕ) (l : Links)
    → subscriber_pool_alloc k ≡ ok (new, k')
    → attach_front k'.links new (k'.subscribers ev) ≡ ok l
    → subscriber_list_link k ev t ≡ ok (linked k k' ev new t l)
unfolding subscriber_list_link linked
link_runs k k' ev new t l a b = rw (a, b)

-- `_subscriber_list_link` makes a thread wait for an event, in front of those that do already.
pub subscriber_list_link-Returned :
    (k : Kevents) (w : ℕ → List ℕ)
    → IsValid k w
    → (ev t : ℕ) → Returned k (enlist ev t w) (subscriber_list_link k ev t)
unfolding linked
subscriber_list_link-Returned k w v ev t =
    let c = v.lists in
    let n = subscriber_pool_alloc-Taken k c v.pool v.linked in
    let k' = n.result in
    let (tail, s) = n.valid.each ev in
    let a =
      Edits.attach_front-cons k'.links (k'.subscribers ev) (c ev) tail n.new (n.unlisted ev) s in
    let th = update k'.subscribed_thread n.new t in
    record {
      result = linked k k' ev n.new t a.0;
      runs = link_runs k k' ev n.new t a.0 n.runs a.1;
      valid = record {
        lists = update c ev (n.new ∷ c ev);
        pool = n.rest;
        linked =
            AreLists-edit k' c n.rest ev (n.new ∷ c ev) (n.new ∷ c ev) a.0 (node n.new)
              (Edits.tail_after (c ev) n.new tail) (update k'.event n.new ev) th
              (λ j e.
                let d : Disjoint (c j) (n.new ∷ c ev) = λ b i.
                  ground (
                    arith,
                    n.valid.apart j ev e b,
                    Edits.not_same b n.new (c j) i (n.unlisted j),
                  ) in
                (d, d))
              (let d : Disjoint n.rest (n.new ∷ c ev) = λ b i.
                  ground (arith, n.valid.idle ev b, Edits.not_same b n.new n.rest i n.unused) in
                (d, d))
              (λ b i. ground (arith, n.valid.made ev b, n.in_range)) a.3 a.2 n.valid;
        waiting = λ j. ground (
          arith,
          v.waiting j,
          ap (λ f. threads f (c j)) n.keeps.threads,
          threads-update k'.subscribed_thread n.new t (c j) (n.unlisted j),
        );
      };
      counts = n.keeps.counts;
    }

abbrev pub enlist_all : List ℕ → ℕ → (ℕ → List ℕ) → ℕ → List ℕ
enlist_all [] t w = w
enlist_all (ev ∷ events) t w = enlist_all events t (enlist ev t w)

subscribe_runs :
    (k k' k'' : Kevents) (ev : ℕ) (events : List ℕ) (t : ℕ)
    → subscriber_list_link k ev t ≡ ok k'
    → kevent_subscribe events t k' ≡ ok k''
    → kevent_subscribe (ev ∷ events) t k ≡ ok k''
unfolding kevent_subscribe
subscribe_runs k k' k'' ev events t a b = rw a b

-- `kevent_subscribe` makes a thread wait for every event of the list, and never fails.
pub kevent_subscribe-Returned :
    (events : List ℕ) (t : ℕ) (k : Kevents) (w : ℕ → List ℕ)
    → IsValid k w
    → Returned k (enlist_all events t w) (kevent_subscribe events t k)
unfolding kevent_subscribe
kevent_subscribe-Returned [] t k w v = record { result = k; runs = refl; valid = v; counts = refl }
kevent_subscribe-Returned (ev ∷ events) t k w v =
    let r = subscriber_list_link-Returned k w v ev t in
    let q = kevent_subscribe-Returned events t r.result (enlist ev t w) r.valid in
    record {
      result = q.result;
      runs = subscribe_runs k r.result q.result ev events t r.runs q.runs;
      valid = q.valid;
      counts = q.counts ∙ r.counts;
    }
