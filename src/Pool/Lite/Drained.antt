-- ===== src/Pool/Lite/Drained.antt =====
-- A stopped thread_pool_lite runs what is left in its queue, and then all its workers leave.
use mathlib.Core.List.{Perm}
use cmdr_cxx.Base.{
  ℕ, zero, suc, ◌+◌, ◌*◌, ◌<◌, Bool, true, false, inl, inr, ◌⊎◌, List, [], ◌∷◌, ◌++◌, append-nil,
  replicate, length, get_elem?, set, some, ◌≡◌, ◌≢◌, refl, subst, ap, ◌∙◌, arith,
}
use cmdr_cxx.Pool.{Worker, waiting, running, returned, total, total-set}
use cmdr_cxx.Pool.Lite.{
  ThreadPoolLite, wake, joined, Event, began, ended, left, Step, enqueues, refuses, stops_all,
  begins, ends, returns, Run, started, later, put_in, begun, finished,
}
use cmdr_cxx.Pool.Lite.Runs.{wake-takes, wake-leaves, enqueue-some, Run-Fifo, at_work, Run-at_work}

module _ {T : Type 0} where
  -- Some worker has left its loop.
  abbrev AnyReturned : List (Worker T) → Type 0
  AnyReturned ws = (i : ℕ) × (get_elem? ws i ≡ some returned)

  AnyReturned-set :
      (ws : List (Worker T)) (i : ℕ) (w v : Worker T)
      → get_elem? ws i ≡ some w
      → w ≢ returned
      → v ≢ returned
      → AnyReturned (set ws i v)
      → AnyReturned ws
  AnyReturned-set [] i w v e n m (j, f) = cc f
  AnyReturned-set (x ∷ ws) zero w v e n m (zero, f) = absurd (m (cc f))
  AnyReturned-set (x ∷ ws) zero w v e n m (suc j, f) = (suc j, f)
  AnyReturned-set (x ∷ ws) (suc i) w v e n m (zero, f) = (0, f)
  AnyReturned-set (x ∷ ws) (suc i) w v e n m (suc j, f) =
      let (k, g) = AnyReturned-set ws i w v e n m (j, f) in (suc k, g)

  not-AnyReturned : (n : ℕ) → ¬ AnyReturned (replicate n waiting)
  not-AnyReturned zero (j, f) = cc f
  not-AnyReturned (suc n) (zero, f) = cc f
  not-AnyReturned (suc n) (suc j, f) = not-AnyReturned n (j, f)

  -- A worker leaves only when the pool is stopped and the queue is empty, and that stays so.
  Run-left :
      {n : ℕ} {es : List (Event T)} {p : ThreadPoolLite T}
      → Run n es p
      → AnyReturned p.workers
      → (p.stop ≡ true) × (p.tasks ≡ [])
  Run-left {n} started a = absurd (not-AnyReturned n a)
  Run-left (later {p} r (enqueues t {q} e)) a =
      let (b, d) = enqueue-some p q t e in
      let (c, _) = Run-left r (subst (λ x. AnyReturned x.workers) d a) in cc (b, c)
  Run-left (later r (refuses t e)) a = Run-left r a
  Run-left (later r stops_all) a = (refl, (Run-left r a).1)
  Run-left (later {p} r (begins i t ts e w)) a =
      let (_, c) =
        Run-left r (AnyReturned-set p.workers i waiting (running t) e (λ x. cc x) (λ x. cc x) a) in
      cc (wake-takes p.stop p.tasks t ts w, c)
  Run-left (later {p} r (ends i t e)) a =
      Run-left r (AnyReturned-set p.workers i (running t) waiting e (λ x. cc x) (λ x. cc x) a)
  Run-left (later {p} r (returns i e w)) a = wake-leaves p.stop p.tasks w

  joined-at_work : (ws : List (Worker T)) → joined ws ≡ true → at_work ws ≡ []
  joined-at_work [] e = refl
  joined-at_work (waiting ∷ ws) e = cc e
  joined-at_work (running t ∷ ws) e = cc e
  joined-at_work (returned ∷ ws) e = joined-at_work ws e

  joined-AnyReturned : (ws : List (Worker T)) → 0 < length ws → joined ws ≡ true → AnyReturned ws
  joined-AnyReturned [] l e = absurd (omega (arith, l))
  joined-AnyReturned (waiting ∷ ws) l e = cc e
  joined-AnyReturned (running t ∷ ws) l e = cc e
  joined-AnyReturned (returned ∷ ws) l e = (0, refl)

  -- When join() comes back on a pool with a worker, every task that was put in has ended.
  pub joined-AllEnded :
      {n : ℕ} {es : List (Event T)} {p : ThreadPoolLite T}
      → Run n es p
      → 0 < length p.workers
      → joined p.workers ≡ true
      → Perm (put_in es) (finished es)
  joined-AllEnded {es = es} {p = p} r l j =
      let (_, c) = Run-left r (joined-AnyReturned p.workers l j) in
      let e : put_in es ≡ begun es = Run-Fifo r ∙ ap (◌++◌ (begun es)) c ∙ append-nil (begun es) in
      let d : finished es ++ at_work p.workers ≡ finished es =
        ap (◌++◌ (finished es)) (joined-at_work p.workers j) ∙ append-nil (finished es) in
      rw e (subst (Perm (begun es)) d (Run-at_work r))

  -- How many steps the workers have left at most, once the pool is stopped.
  abbrev left_of : Worker T → ℕ
  left_of waiting = 1
  left_of (running t) = 2
  left_of returned = 0

  abbrev pub steps_left : ThreadPoolLite T → ℕ
  steps_left p = 2 * length p.tasks + total left_of p.workers

  abbrev pub by_worker : Event T → Bool
  by_worker (began i t) = true
  by_worker (ended i t) = true
  by_worker (left i) = true
  by_worker _ = false

  pub Step-steps_left :
      {p : ThreadPoolLite T} {e : Event T} {q : ThreadPoolLite T}
      → Step p e q
      → by_worker e ≡ true
      → steps_left q < steps_left p
  Step-steps_left (enqueues t e) b = cc b
  Step-steps_left (refuses t e) b = cc b
  Step-steps_left stops_all b = cc b
  Step-steps_left {p} (begins i t ts e w) b = omega (
    arith,
    total-set left_of p.workers i waiting (running t) e,
    ap length (wake-takes p.stop p.tasks t ts w),
  )
  Step-steps_left {p} (ends i t e) b =
      omega (arith, total-set left_of p.workers i (running t) waiting e)
  Step-steps_left {p} (returns i e w) b =
      omega (arith, total-set left_of p.workers i waiting returned e)

  Step-stop :
      {p : ThreadPoolLite T} {e : Event T} {q : ThreadPoolLite T}
      → Step p e q
      → by_worker e ≡ true
      → q.stop ≡ p.stop
  Step-stop (enqueues t e) b = cc b
  Step-stop (refuses t e) b = cc b
  Step-stop stops_all b = cc b
  Step-stop (begins i t ts e w) b = refl
  Step-stop (ends i t e) b = refl
  Step-stop (returns i e w) b = refl

  -- A worker that has not left.
  unreturned :
      (ws : List (Worker T))
      → (joined ws ≡ true) ⊎ ((i : ℕ) × (w : Worker T) × (get_elem? ws i ≡ some w) × (w ≢ returned))
  unreturned [] = inl refl
  unreturned (waiting ∷ ws) = inr (0, waiting, refl, λ x. cc x)
  unreturned (running t ∷ ws) = inr (0, running t, refl, λ x. cc x)
  unreturned (returned ∷ ws) = elim (unreturned ws) [
    | inl e ↦ inl e
    | inr (i, w, e, n) ↦ inr (suc i, w, e, n)
  ]

  abbrev CanStep : ThreadPoolLite T → Type 0
  CanStep p = (e : Event T) × (q : ThreadPoolLite T) × Step p e q × (by_worker e ≡ true)

  wakes :
      (p : ThreadPoolLite T) (i : ℕ) (tasks : List T)
      → p.tasks ≡ tasks
      → p.stop ≡ true
      → get_elem? p.workers i ≡ some waiting
      → CanStep p
  unfolding wake
  wakes p i [] e s g = (left i, _, returns i g (ap (wake p.stop) e ∙ ap (λ b. wake b []) s), refl)
  wakes p i (t ∷ ts) e s g = (began i t, _, begins i t ts g (ap (wake p.stop) e), refl)

  works :
      (p : ThreadPoolLite T) (i : ℕ) (w : Worker T)
      → w ≢ returned
      → p.stop ≡ true
      → get_elem? p.workers i ≡ some w
      → CanStep p
  works p i waiting n s g = wakes p i p.tasks refl s g
  works p i (running t) n s g = (ended i t, _, ends i t g, refl)
  works p i returned n s g = absurd (n refl)

  stopped_moves : (p : ThreadPoolLite T) → p.stop ≡ true → (joined p.workers ≡ true) ⊎ CanStep p
  stopped_moves p s = elim (unreturned p.workers) [
    | inl e ↦ inl e
    | inr (i, w, g, n) ↦ inr (works p i w n s g)
  ]

-- On a stopped pool a step of a worker leaves fewer steps to make, two for each queued task and
-- two for each worker at most, and as long as a worker has not left, one of them can make a step.
pub stopped_drains :
    {T : Type 0} (p : ThreadPoolLite T)
    → p.stop ≡ true
    → ((e : Event T) (q : ThreadPoolLite T)
        → Step p e q
        → by_worker e ≡ true
        → (steps_left q < steps_left p) × (q.stop ≡ true))
      × ((joined p.workers ≡ true)
          ⊎ ((e : Event T) × (q : ThreadPoolLite T) × Step p e q × (by_worker e ≡ true)))
stopped_drains p s = (λ e q w b. (Step-steps_left w b, Step-stop w b ∙ s), stopped_moves p s)
