-- ===== src/TimerHeap/Dispatch.antt =====
-- The loop of `system_timer_handler`: the timers that are due, and only they, in order.
use munk_os.Prelude.{
  ℕ, zero, suc, ◌+◌, ◌<◌, ◌≤◌, ◌≡◌, refl, ap, arith, ◌==◌, Bool, true, false, ◌&&◌, ltb, ltb→lt,
  leb, Bool-cases, ==_iff, inl, inr, ok, Outcome, ◌∙◌, ◌>>=◌, List, [], ◌∷◌, none, some,
}
use mathlib.Core.Path.{subst}
use munk_os.TimerHeap.{Timers, timer_peek, timer_pop, dispatch}
use munk_os.TimerHeap.Contents.{is, count}
use munk_os.TimerHeap.Laws.{IsValid, timers, Popped, timer_pop-Popped}

-- No timer of a list expires before `from` or before the one in front of it.
abbrev pub ascending : (ℕ → ℕ) → ℕ → List ℕ → Bool
ascending e from [] = true
ascending e from (x ∷ xs) = leb from (e x) && ascending e (e x) xs

-- No timer of a list expires after `ticks`.
abbrev pub due : (ℕ → ℕ) → ℕ → List ℕ → Bool
due e ticks [] = true
due e ticks (x ∷ xs) = leb (e x) ticks && due e ticks xs

abbrev pub occurrences : List ℕ → ℕ → ℕ
occurrences [] x = 0
occurrences (y ∷ ys) x = is y x + occurrences ys x

module _ {ℓ} {S : Type ℓ} (launch : ℕ → S → Outcome S) where
  -- The events of a list of timers launched one after the other.
  abbrev pub launch_all : List ℕ → S → Outcome S
  launch_all [] s = ok s
  launch_all (x ∷ xs) s = do s' ← launch x s; launch_all xs s'

  -- The outcome of the loop, with the times `e`.
  pub record Dispatched (e : ℕ → ℕ) (ticks : ℕ) (t : Timers) (s : S)
      (r : Outcome (List ℕ × Timers × S)) : Type ℓ where
    pub fired : List ℕ
    pub result : Timers
    pub state : S
    pub runs : r ≡ ok (fired, result, state)
    pub launched : launch_all fired s ≡ ok state
    pub valid : IsValid result
    pub same_times : result.expiration_time ≡ e
    pub holds : (x : ℕ) → timers t x ≡ timers result x + occurrences fired x
    pub all_due : due e ticks fired ≡ true
    pub none_due : (x : ℕ) → 0 < timers result x → ticks < e x
    pub in_order :
        (from : ℕ) → ((x : ℕ) → 0 < timers t x → from ≤ e x) → ascending e from fired ≡ true

  stops :
      (e : ℕ → ℕ) (ticks : ℕ) (t : Timers) (s : S) (r : Outcome (List ℕ × Timers × S))
      → IsValid t
      → t.expiration_time ≡ e
      → ((x : ℕ) → 0 < timers t x → ticks < e x)
      → r ≡ ok ([], t, s)
      → Dispatched e ticks t s r
  stops e ticks t s r v same later runs = record {
    fired = [];
    result = t;
    state = s;
    runs = runs;
    launched = refl;
    valid = v;
    same_times = same;
    holds = λ x. omega arith;
    all_due = refl;
    none_due = later;
    in_order = λ from l. refl;
  }

  goes_on :
      (e : ℕ → ℕ) (ticks : ℕ) (t t' : Timers) (root : ℕ) (s s' : S)
      (r q : Outcome (List ℕ × Timers × S))
      → e root ≤ ticks
      → ((x : ℕ) → timers t x ≡ timers t' x + is root x)
      → ((x : ℕ) → 0 < timers t x → e root ≤ e x)
      → launch root s ≡ ok s'
      → (d : Dispatched e ticks t' s' q) → r ≡ ok (root ∷ d.fired, d.result, d.state)
      → Dispatched e ticks t s r
  goes_on e ticks t t' root s s' r q l holds least runs d out =
      let here : is root root ≡ 1 = ground arith in
      record {
        fired = root ∷ d.fired;
        result = d.result;
        state = d.state;
        runs = out;
        launched = rw runs d.launched;
        valid = d.valid;
        same_times = d.same_times;
        holds = λ x. omega (arith, holds x, d.holds x);
        all_due = ground (arith, l, d.all_due);
        none_due = d.none_due;
        in_order = λ from low.
            let first = low root (omega (arith, holds root, here)) in
            let later = d.in_order (e root) (λ x c. least x (omega (arith, holds x, c))) in
            ground (arith, first, later);
      }

module _ {ℓ} {S : Type ℓ} (kmalloc : ℕ → Outcome (ℕ → ℕ)) (launch : ℕ → S → Outcome S) where
  dispatch_empty :
      (fuel ticks : ℕ) (t : Timers) (s : S)
      → timer_peek t ≡ none
      → dispatch kmalloc launch (suc fuel) ticks t s ≡ ok ([], t, s)
  unfolding dispatch
  dispatch_empty fuel ticks t s a = cc

  dispatch_later :
      (fuel ticks x : ℕ) (t : Timers) (s : S)
      → timer_peek t ≡ some x
      → ltb ticks (t.expiration_time x) ≡ true
      → dispatch kmalloc launch (suc fuel) ticks t s ≡ ok ([], t, s)
  unfolding dispatch
  dispatch_later fuel ticks x t s a b = cc

  dispatch_one :
      (fuel ticks x : ℕ) (t t' t'' : Timers) (s s' s'' : S) (rest : List ℕ)
      → timer_peek t ≡ some x
      → ltb ticks (t.expiration_time x) ≡ false
      → timer_pop kmalloc t ≡ ok (x, t')
      → launch x s ≡ ok s'
      → dispatch kmalloc launch fuel ticks t' s' ≡ ok (rest, t'', s'')
      → dispatch kmalloc launch (suc fuel) ticks t s ≡ ok (x ∷ rest, t'', s'')
  unfolding dispatch
  dispatch_one fuel ticks x t t' t'' s s' s'' rest a b c d f = cc

  empty_peek : (t : Timers) → (t.size == 0) ≡ true → timer_peek t ≡ none
  unfolding timer_peek
  empty_peek t z = rw z refl

  nothing : (t : Timers) (x : ℕ) → (t.size == 0) ≡ true → timers t x ≡ 0
  nothing t x z = ap (λ n. count n t.heap x) ((==_iff t.size 0).0 z)

  module _ (Ready : ℕ → Type 0) (Inv : S → Type ℓ)
      (launches : (x : ℕ) (u : S) → Ready x → Inv u → (v : S) × (launch x u ≡ ok v) × Inv v) where
    due_or_later :
        (e : ℕ → ℕ) (fuel ticks : ℕ) (t : Timers) (s : S)
        → ((t' : Timers) (s' : S)
            → t.size ≡ t'.size + 1
            → IsValid t'
            → t'.expiration_time ≡ e
            → ((x : ℕ) → 0 < timers t' x → Ready x)
            → Inv s'
            → Dispatched launch e ticks t' s' (dispatch kmalloc launch fuel ticks t' s'))
        → IsValid t
        → t.expiration_time ≡ e
        → ((x : ℕ) → 0 < timers t x → Ready x)
        → Inv s
        → Popped t (timer_pop kmalloc t)
        → Dispatched launch e ticks t s (dispatch kmalloc launch (suc fuel) ticks t s)
    due_or_later e fuel ticks t s rest v same set inv o =
        let least = subst (λ (f : ℕ → ℕ). (x : ℕ) → 0 < timers t x → f o.root ≤ f x) same o.least in
        let exp : t.expiration_time o.root ≡ e o.root = ap (λ f. f o.root) same in
        elim (Bool-cases (ltb ticks (e o.root))) [
          | inl h ↦
              stops launch e ticks t s (dispatch kmalloc launch (suc fuel) ticks t s) v same
                (λ x c. omega (arith, least x c, ltb→lt ticks (e o.root) h))
                (dispatch_later fuel ticks o.root t s o.peeked (ap (ltb ticks) exp ∙ h))
          | inr h ↦
              let here : is o.root o.root ≡ 1 = ground arith in
              let (s', runs, inv') =
                launches o.root s (set o.root (omega (arith, o.holds o.root, here))) inv in
              let d =
                rest o.result s' o.one_less o.valid (o.same_times ∙ same)
                  (λ x c. set x (omega (arith, o.holds x, c))) inv' in
              goes_on launch e ticks t o.result o.root s s'
                (dispatch kmalloc launch (suc fuel) ticks t s)
                (dispatch kmalloc launch fuel ticks o.result s') (ground (arith, h)) o.holds least
                runs d
                (dispatch_one fuel ticks o.root t o.result d.result s s' d.state d.fired o.peeked
                  (ap (ltb ticks) exp ∙ h) o.runs runs d.runs)
        ]

    -- With at most 65 timers, so that the array does not shrink, and more fuel than timers, where the events of all timers in the heap can be launched, the
    -- loop of the timer handler returns. It dispatches exactly the timers due by `ticks`, each as
    -- often as it was in the heap, in the order of their times (from any bound on all of them), and
    -- launches their events in that order; every timer left expires after `ticks`, and the heap is
    -- valid. Which events can be launched may depend on an invariant that launching keeps.
    pub dispatch-Dispatched :
        (fuel : ℕ) (e : ℕ → ℕ) (ticks : ℕ) (t : Timers) (s : S)
        → t.size < fuel
        → t.size ≤ 65
        → IsValid t
        → t.expiration_time ≡ e
        → ((x : ℕ) → 0 < timers t x → Ready x)
        → Inv s
        → Dispatched launch e ticks t s (dispatch kmalloc launch fuel ticks t s)
    dispatch-Dispatched zero e ticks t s f few v same set inv = absurd (omega arith)
    dispatch-Dispatched (suc fuel) e ticks t s f few v same set inv =
        elim (Bool-cases (t.size == 0)) [
          | inl z ↦
              stops launch e ticks t s (dispatch kmalloc launch (suc fuel) ticks t s) v same
                (λ x c. absurd (omega (arith, c, nothing t x z)))
                (dispatch_empty fuel ticks t s (empty_peek t z))
          | inr z ↦
              due_or_later e fuel ticks t s
                (λ t' s' less v' same'.
                  dispatch-Dispatched fuel e ticks t' s' (omega (arith, f, less))
                    (omega (arith, few, less)) v' same')
                v same set inv (timer_pop-Popped kmalloc t v (inl few) (ground (arith, z)))
        ]
