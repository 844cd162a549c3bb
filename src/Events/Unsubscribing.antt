-- ===== src/Events/Unsubscribing.antt =====
-- Unsubscribing from a list of events in kernel/src/misc/kevent.c.
use munk_os.Prelude.{
  ℕ, ◌+◌, ◌≡◌, ◌≤◌, refl, ap, ◌∙◌, arith, List, [], ◌∷◌, ◌==◌, ok, inl, inr, Bool-cases,
  if◌then◌else◌, length, ◌>>=◌, ==_iff,
}
use munk_os.Links.Edits
use munk_os.Events.{Kevents, subscriber_list_unlink, kevent_subscribe, kevent_unsubscribe}
use munk_os.Events.Subscribers.{IsValid, Returned, enlist, enlist_all, kevent_subscribe-Returned}
use munk_os.Events.Unlisting.{delist, subscriber_list_unlink-Returned}

-- Waiting threads, as lists of their own.
pub IsValid-same :
    (k : Kevents) (w u : ℕ → List ℕ) → ((j : ℕ) → w j ≡ u j) → IsValid k w → IsValid k u
IsValid-same k w u same v = record {
  lists = v.lists;
  pool = v.pool;
  linked = v.linked;
  waiting = λ j. v.waiting j ∙ same j;
}

-- `t` in front of a list, once for each time that `ev` is among the events.
abbrev pub ahead : ℕ → List ℕ → ℕ → List ℕ → List ℕ
ahead t [] ev xs = xs
ahead t (e ∷ events) ev xs = if ev == e then t ∷ ahead t events ev xs else ahead t events ev xs

ahead-cons :
    (t : ℕ) (events : List ℕ) (ev : ℕ) (xs : List ℕ)
    → ahead t events ev (t ∷ xs) ≡ t ∷ ahead t events ev xs
ahead-cons t [] ev xs = refl
ahead-cons t (e ∷ events) ev xs = ground (arith, ahead-cons t events ev xs)

pub enlist_all-ahead :
    (events : List ℕ) (t : ℕ) (w : ℕ → List ℕ) (j : ℕ)
    → enlist_all events t w j ≡ ahead t events j (w j)
enlist_all-ahead [] t w j = refl
enlist_all-ahead (ev ∷ events) t w j =
    enlist_all-ahead events t (enlist ev t w) j ∙ elim (Bool-cases (j == ev)) [
      | inl e ↦ rw (e, (==_iff j ev).0 e) (ahead-cons t events ev (w ev))
      | inr e ↦ rw e
    ]

unsubscribe_runs :
    (fuel : ℕ) (k k' k'' : Kevents) (ev : ℕ) (events : List ℕ) (t : ℕ)
    → subscriber_list_unlink fuel k ev t ≡ ok k'
    → kevent_unsubscribe fuel events t k' ≡ ok k''
    → kevent_unsubscribe fuel (ev ∷ events) t k ≡ ok k''
unfolding kevent_unsubscribe
unsubscribe_runs fuel k k' k'' ev events t a b = rw a b

-- `kevent_unsubscribe` undoes what subscribing to the same events has done, with as much fuel as
-- an event has waiting threads.
pub kevent_unsubscribe-Returned :
    (fuel : ℕ) (events : List ℕ) (t : ℕ) (k : Kevents) (w u : ℕ → List ℕ)
    → IsValid k w
    → ((j : ℕ) → w j ≡ ahead t events j (u j))
    → ((j : ℕ) → length (w j) ≤ fuel)
    → Returned k u (kevent_unsubscribe fuel events t k)
unfolding kevent_unsubscribe
kevent_unsubscribe-Returned fuel [] t k w u v e f = record {
  result = k;
  runs = refl;
  valid = IsValid-same k w u e v;
  counts = refl;
}
kevent_unsubscribe-Returned fuel (ev ∷ events) t k w u v e f =
    let at_ev : w ev ≡ t ∷ ahead t events ev (u ev) = ground (arith, e ev) in
    let r = subscriber_list_unlink-Returned fuel k w v ev t (f ev) (ground (arith, at_ev)) in
    let q =
      kevent_unsubscribe-Returned fuel events t r.result (delist ev t w) u r.valid
        (λ j. elim (Bool-cases (j == ev)) [
          | inl h ↦ rw (h, at_ev, Edits.==_refl t, (==_iff j ev).0 h)
          | inr h ↦ ground (arith, e j)
        ])
        (λ j. elim (Bool-cases (j == ev)) [
          | inl h ↦ rw (h, at_ev, Edits.==_refl t) (omega (arith, f ev, ap length at_ev))
          | inr h ↦ rw h (f j)
        ]) in
    record {
      result = q.result;
      runs = unsubscribe_runs fuel k r.result q.result ev events t r.runs q.runs;
      valid = q.valid;
      counts = q.counts ∙ r.counts;
    }

length-ahead :
    (t : ℕ) (events : List ℕ) (ev : ℕ) (xs : List ℕ)
    → length (ahead t events ev xs) ≤ length xs + length events
length-ahead t [] ev xs = omega arith
length-ahead t (e ∷ events) ev xs = ground (arith, length-ahead t events ev xs)

-- A thread that subscribes to a list of events, which may name an event twice, and unsubscribes
-- from the same list leaves the threads that wait for each event, in their order, and the event
-- counts as they were; neither call fails. The fuel is the number of threads waiting for an event
-- and of the events of the list.
pub kevent_unsubscribe-subscribe :
    (fuel : ℕ) (events : List ℕ) (t : ℕ) (k : Kevents) (w : ℕ → List ℕ)
    → IsValid k w
    → ((j : ℕ) → length (w j) + length events ≤ fuel)
    → Returned k w (kevent_subscribe events t k >>= kevent_unsubscribe fuel events t)
kevent_unsubscribe-subscribe fuel events t k w v f =
    let r = kevent_subscribe-Returned events t k w v in
    let q =
      kevent_unsubscribe-Returned fuel events t r.result (enlist_all events t w) w r.valid
        (enlist_all-ahead events t w)
        (λ j.
          omega (
            arith,
            f j,
            length-ahead t events j (w j),
            ap length (enlist_all-ahead events t w j),
          )) in
    record {
      result = q.result;
      runs = rw r.runs q.runs;
      valid = q.valid;
      counts = q.counts ∙ r.counts;
    }
