-- ===== src/Pool/Threads.antt =====
-- thread_pool: threads that take tasks from a threaded_message_queue, in the build with
-- CMDR_ENABLE_THREAD_POOL_READY_SIGNAL and without std::barrier.
pub mod Counts
use cmdr_cxx.Base.{
  ℕ, zero, suc, ◌+◌, ◌-◌, Bool, true, false, List, [], ◌∷◌, replicate, get_elem?, set, Option, none,
  some, ◌≡◌,
}
use cmdr_cxx.Messages.{MessageQueue, empty_messages, pops, aborts, emplace_back, pop_front, clear}
use cmdr_cxx.Pool.Wait.{ConditionalWait, wait_for_int, set_var}

-- Where a thread stands: it has not set _cv_started, waits for a task, runs one, or has left its
-- loop.
pub data Thread (T : Type 0) : Type 0 where
  starting : Thread T
  waiting : Thread T
  running : T → Thread T
  returned : Thread T

pub record ThreadPool (T : Type 0) : Type 0 where
  pub threads : List (Thread T)
  pub tasks : MessageQueue T
  pub active : ℕ
  pub cv_started : ConditionalWait ℕ
  pub future_ended : ConditionalWait ℕ

module _ {T : Type 0} where
  -- thread_pool(n) and start_thread(n), where n is DEFAULT_POOL_SIZE.
  abbrev pub new_pool : ℕ → ThreadPool T
  new_pool n = record {
    threads = replicate n starting;
    tasks = empty_messages T;
    active = 0;
    cv_started = wait_for_int n;
    future_ended = wait_for_int 1;
  }

  -- queue_task(task)
  abbrev pub queue_task : ThreadPool T → T → ThreadPool T
  queue_task p task = record p { tasks = emplace_back p.tasks task }

  -- `_cv_started.set();`
  abbrev pub start_loop : ThreadPool T → ℕ → ThreadPool T
  start_loop p i = record p { threads = set p.threads i waiting; cv_started = set_var p.cv_started }

  -- The loop of a thread: a task is there.
  abbrev pub get_task : ThreadPool T → ℕ → T → MessageQueue T → ThreadPool T
  get_task p i task q = record p {
    threads = set p.threads i (running task);
    tasks = q;
    active = p.active + 1;
  }

  -- The task comes back.
  abbrev pub end_task : ThreadPool T → ℕ → ThreadPool T
  end_task p i = record p { threads = set p.threads i waiting; active = p.active - 1 }

  -- `--_active; throw;`, and the destructor of the cw_setter.
  abbrev pub throw_task : ThreadPool T → ℕ → ThreadPool T
  throw_task p i = record p {
    threads = set p.threads i returned;
    active = p.active - 1;
    future_ended = set_var p.future_ended;
  }

  -- The loop ends on std::nullopt, and the destructor of the cw_setter follows.
  abbrev pub end_loop : ThreadPool T → ℕ → ThreadPool T
  end_loop p i = record p {
    threads = set p.threads i returned;
    future_ended = set_var p.future_ended;
  }

  -- `_tasks.clear()` of clear_threads, which then waits for _future_ended.
  abbrev pub clear_tasks : ThreadPool T → ThreadPool T
  clear_tasks p = record p { tasks = clear p.tasks }

-- One step of some thread.
pub data Step {T : Type 0} (p : ThreadPool T) : ThreadPool T → Type 0 where
  queues : (task : T) → Step p (queue_task p task)
  starts : (i : ℕ) → get_elem? p.threads i ≡ some starting → Step p (start_loop p i)
  gets :
      (i : ℕ) (task : T) (q : MessageQueue T)
      → get_elem? p.threads i ≡ some waiting
      → pop_front p.tasks ≡ pops task q
      → Step p (get_task p i task q)
  ends : (i : ℕ) (task : T) → get_elem? p.threads i ≡ some (running task) → Step p (end_task p i)
  throws :
      (i : ℕ) (task : T) → get_elem? p.threads i ≡ some (running task) → Step p (throw_task p i)
  leaves :
      (i : ℕ)
      → get_elem? p.threads i ≡ some waiting
      → pop_front p.tasks ≡ aborts
      → Step p (end_loop p i)
  clears : Step p (clear_tasks p)

pub data Reach {T : Type 0} (n : ℕ) : ThreadPool T → Type 0 where
  started : Reach n (new_pool n)
  later : {p q : ThreadPool T} → Reach n p → Step p q → Reach n q
