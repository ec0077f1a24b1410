-- ===== src/Pool/Tests.antt =====
-- Runs of the thread pools, for the theorems.
use mathlib.Core.List.{Perm}
use cmdr_cxx.Base.{ℕ, ◌<◌, Bool, true, false, List, [], ◌∷◌, ◌++◌, ◌≡◌, ◌↔◌, ◌⊎◌, refl, arith}
use cmdr_cxx.Messages.{emplace_back, pop_front}
use cmdr_cxx.Pool.{total, waiting, returned}
use cmdr_cxx.Pool.Wait.{is_over}
use cmdr_cxx.Pool.Lite.{
  ThreadPoolLite, enqueue, wake, joined, Event, enqueued, refused, stopped, began, ended, left,
  Step, enqueues, refuses, stops_all, begins, ends, returns, Run, started, later,
}
use cmdr_cxx.Pool.Lite.Runs.{Run-Fifo}
use cmdr_cxx.Pool.Lite.Drained.{joined-AllEnded, stopped_drains, steps_left, by_worker}
use cmdr_cxx.Pool.Threads as Threads
use cmdr_cxx.Pool.Threads.Counts.{Reach-active, runs, left as has_left, starts_up}

-- One worker, two tasks, of which one is begun after the pool was stopped.
abbrev events : List (Event ℕ)
events =
    left 0
    ∷ ended 0 8
    ∷ began 0 8
    ∷ ended 0 7
    ∷ refused 9
    ∷ stopped
    ∷ began 0 7
    ∷ enqueued 8
    ∷ enqueued 7
    ∷ []

abbrev pool : List ℕ → Bool → ThreadPoolLite ℕ
pool tasks stop = record { workers = waiting ∷ []; tasks = tasks; stop = stop }

abbrev at_end : ThreadPoolLite ℕ
at_end = record { workers = returned ∷ []; tasks = []; stop = true }

whole_run : Run 1 events at_end
unfolding enqueue wake
whole_run =
    later
      (later
        (later
          (later
            (later
              (later
                (later (later (later started (enqueues 7 refl)) (enqueues 8 refl))
                  (begins 0 7 (8 ∷ []) refl refl))
                stops_all)
              (refuses 9 refl))
            (ends 0 7 refl))
          (begins 0 8 [] refl refl))
        (ends 0 8 refl))
      (returns 0 refl refl)

abbrev two : List ℕ
two = 7 ∷ 8 ∷ []

Run-Fifo_example : two ≡ two ++ []
Run-Fifo_example = Run-Fifo whole_run

joined-AllEnded_example : Perm two two
joined-AllEnded_example = joined-AllEnded whole_run (omega arith) refl

stopped_drains_example :
    ((e : Event ℕ) (q : ThreadPoolLite ℕ)
      → Step (pool (8 ∷ []) true) e q
      → by_worker e ≡ true
      → (steps_left q < 3) × (q.stop ≡ true))
    × ((joined (pool (8 ∷ []) true).workers ≡ true)
        ⊎ ((e : Event ℕ) × (q : ThreadPoolLite ℕ) × Step (pool (8 ∷ []) true) e q
            × (by_worker e ≡ true)))
stopped_drains_example = stopped_drains (pool (8 ∷ []) true) refl

-- Two threads; one of them has started and runs a task.
abbrev busy : Threads.ThreadPool ℕ
busy =
    Threads.get_task (Threads.start_loop (Threads.queue_task (Threads.new_pool 2) 5) 0) 0 5
      (record { data_ = []; abort = false })

busy_run : Threads.Reach 2 busy
unfolding emplace_back pop_front
busy_run =
    Threads.later
      (Threads.later (Threads.later Threads.started (Threads.queues 5)) (Threads.starts 0 refl))
      (Threads.gets 0 5 (record { data_ = []; abort = false }) refl refl)

Reach-active_example :
    (1 ≡ total runs busy.threads)
    × ((is_over busy.cv_started ≡ true) ↔ (total starts_up busy.threads ≡ 0))
    × ((is_over busy.future_ended ≡ true) ↔ (0 < total has_left busy.threads))
Reach-active_example = Reach-active busy_run
