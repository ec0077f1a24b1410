-- ===== src/Pool/Lite/Runs.antt =====
-- What holds in every run of thread_pool_lite.
use mathlib.Core.List.{Perm, perm_append_singleton, perm_middle}
use mathlib.Core.List.Perm
use cmdr_cxx.Base.{
  ℕ, zero, suc, Bool, true, false, Bool-cases, inl, inr, replicate, List, [], ◌∷◌, ◌++◌,
  append_assoc, get_elem?, set, Option, none, some, ◌≡◌, refl, sym, subst, ap, ◌∙◌,
}
use cmdr_cxx.Pool.{Worker, waiting, running, returned}
use cmdr_cxx.Pool.Lite.{
  ThreadPoolLite, leaves, takes, enqueue, wake, Event, enqueues, refuses, stops_all, begins, ends,
  returns, Run, started, later, put_in, begun, finished,
}

module _ {T : Type 0} where
  pub wake-takes :
      (stop : Bool) (tasks : List T) (t : T) (ts : List T)
      → wake stop tasks ≡ takes t ts
      → tasks ≡ t ∷ ts
  unfolding wake
  wake-takes true [] t ts e = cc e
  wake-takes false [] t ts e = cc e
  wake-takes stop (x ∷ xs) t ts e = cc e

  pub wake-leaves :
      (stop : Bool) (tasks : List T) → wake stop tasks ≡ leaves → (stop ≡ true) × (tasks ≡ [])
  unfolding wake
  wake-leaves true [] e = (refl, refl)
  wake-leaves false [] e = cc e
  wake-leaves stop (x ∷ xs) e = cc e

  by_stop :
      (b : Bool) (o : Option (ThreadPoolLite T))
      → b ≡ false
      → elim b [ true ↦ none | false ↦ o ] ≡ o
  by_stop true o e = cc e
  by_stop false o e = refl

  enqueue-open :
      (p : ThreadPoolLite T) (t : T)
      → p.stop ≡ false
      → enqueue p t ≡ some (record p { tasks = p.tasks ++ t ∷ [] })
  unfolding enqueue
  enqueue-open p t e = by_stop p.stop _ e

  enqueue-stopped : (p : ThreadPoolLite T) (t : T) → p.stop ≡ true → enqueue p t ≡ none
  unfolding enqueue
  enqueue-stopped p t e = rw (e, enqueue) refl

  -- What an enqueue that does not throw tells.
  pub enqueue-some :
      (p q : ThreadPoolLite T) (t : T)
      → enqueue p t ≡ some q
      → (p.stop ≡ false) × (q ≡ record p { tasks = p.tasks ++ t ∷ [] })
  enqueue-some p q t e = elim (Bool-cases p.stop) [
    | inl s ↦ cc (enqueue-stopped p t s, e)
    | inr s ↦ (s, cc (enqueue-open p t s, e))
  ]

  -- The tasks are begun in the order in which they were put in, and those that are not begun are in
  -- the queue.
  pub Run-Fifo :
      {n : ℕ} {es : List (Event T)} {p : ThreadPoolLite T}
      → Run n es p
      → put_in es ≡ begun es ++ p.tasks
  Run-Fifo started = refl
  Run-Fifo (later {es} {p} r (enqueues t {q} e)) =
      ap (λ l. l ++ t ∷ []) (Run-Fifo r)
      ∙ append_assoc (begun es) p.tasks (t ∷ [])
      ∙ ap (λ x. begun es ++ x.tasks) (sym (enqueue-some p q t e).1)
  Run-Fifo (later r (refuses t e)) = Run-Fifo r
  Run-Fifo (later r stops_all) = Run-Fifo r
  Run-Fifo (later {es} {p} r (begins i t ts e w)) =
      Run-Fifo r
      ∙ ap (◌++◌ (begun es)) (wake-takes p.stop p.tasks t ts w)
      ∙ sym (append_assoc (begun es) (t ∷ []) ts)
  Run-Fifo (later r (ends i t e)) = Run-Fifo r
  Run-Fifo (later r (returns i e w)) = Run-Fifo r

  -- The tasks that the workers run.
  abbrev pub at_work : List (Worker T) → List T
  at_work [] = []
  at_work (running t ∷ ws) = t ∷ at_work ws
  at_work (_ ∷ ws) = at_work ws

  at_work-begins :
      (ws : List (Worker T)) (i : ℕ) (t : T)
      → get_elem? ws i ≡ some waiting
      → Perm (at_work (set ws i (running t))) (t ∷ at_work ws)
  at_work-begins [] i t e = cc e
  at_work-begins (waiting ∷ ws) zero t e = Perm.refl _
  at_work-begins (running s ∷ ws) zero t e = cc e
  at_work-begins (returned ∷ ws) zero t e = cc e
  at_work-begins (waiting ∷ ws) (suc i) t e = at_work-begins ws i t e
  at_work-begins (running s ∷ ws) (suc i) t e =
      Perm.trans (Perm.cons s (at_work-begins ws i t e)) (Perm.swap _ _ _)
  at_work-begins (returned ∷ ws) (suc i) t e = at_work-begins ws i t e

  at_work-ends :
      (ws : List (Worker T)) (i : ℕ) (t : T)
      → get_elem? ws i ≡ some (running t)
      → Perm (at_work ws) (t ∷ at_work (set ws i waiting))
  at_work-ends [] i t e = cc e
  at_work-ends (waiting ∷ ws) zero t e = cc e
  at_work-ends (running s ∷ ws) zero t e = let d : s ≡ t = cc e in rw d (Perm.refl _)
  at_work-ends (returned ∷ ws) zero t e = cc e
  at_work-ends (waiting ∷ ws) (suc i) t e = at_work-ends ws i t e
  at_work-ends (running s ∷ ws) (suc i) t e =
      Perm.trans (Perm.cons s (at_work-ends ws i t e)) (Perm.swap _ _ _)
  at_work-ends (returned ∷ ws) (suc i) t e = at_work-ends ws i t e

  at_work-returns :
      (ws : List (Worker T)) (i : ℕ)
      → get_elem? ws i ≡ some waiting
      → at_work (set ws i returned) ≡ at_work ws
  at_work-returns [] i e = cc e
  at_work-returns (waiting ∷ ws) zero e = refl
  at_work-returns (running s ∷ ws) zero e = cc e
  at_work-returns (returned ∷ ws) zero e = refl
  at_work-returns (waiting ∷ ws) (suc i) e = at_work-returns ws i e
  at_work-returns (running s ∷ ws) (suc i) e = ap (◌∷◌ s) (at_work-returns ws i e)
  at_work-returns (returned ∷ ws) (suc i) e = at_work-returns ws i e

  at_work-start : (n : ℕ) → at_work (replicate n waiting) ≡ []
  at_work-start zero = refl
  at_work-start (suc n) = at_work-start n

  -- What was begun has ended or is run by a worker.
  pub Run-at_work :
      {n : ℕ} {es : List (Event T)} {p : ThreadPoolLite T}
      → Run n es p
      → Perm (begun es) (finished es ++ at_work p.workers)
  Run-at_work {n} started = rw (at_work-start n) (Perm.refl [])
  Run-at_work (later {es} {p} r (enqueues t {q} e)) =
      subst (λ x. Perm (begun es) (finished es ++ at_work x.workers)) (sym (enqueue-some p q t e).1)
        (Run-at_work r)
  Run-at_work (later r (refuses t e)) = Run-at_work r
  Run-at_work (later r stops_all) = Run-at_work r
  Run-at_work (later {es} {p} r (begins i t ts e w)) =
      Perm.trans (perm_append_singleton t (begun es)) (
        Perm.trans (Perm.cons t (Run-at_work r)) (
          Perm.symm (
            Perm.trans (Perm.append_left (finished es) (at_work-begins p.workers i t e))
              (perm_middle (finished es) (at_work p.workers)))))
  Run-at_work (later {es} {p} r (ends i t e)) =
      rw (append_assoc (finished es) (t ∷ []) (at_work (set p.workers i waiting)))
        (Perm.trans (Run-at_work r) (Perm.append_left (finished es) (at_work-ends p.workers i t e)))
  Run-at_work (later {es} {p} r (returns i e w)) =
      rw (at_work-returns p.workers i e) (Run-at_work r)
