-- ===== src/Pool/Lite.antt =====
-- thread_pool_lite: a first-in first-out queue of tasks that workers take from until the pool is
-- stopped and the queue is empty.
pub mod Runs
pub mod Drained
use cmdr_cxx.Base.{
  ℕ, zero, Bool, true, false, not, ◌&&◌, ◌||◌, List, [], ◌∷◌, ◌++◌, replicate, get_elem?, set,
  is_empty, Option, none, some, ◌≡◌,
}
use cmdr_cxx.Pool.{Worker, waiting, running, returned}

pub record ThreadPoolLite (T : Type 0) : Type 0 where
  pub workers : List (Worker T)
  pub tasks : List T
  pub stop : Bool

-- What a worker that waits finds when it has the lock: it waits on, leaves the loop, or takes a
-- task.
pub data Woken (T : Type 0) : Type 0 where
  waits : Woken T
  leaves : Woken T
  takes : T → List T → Woken T

module _ {T : Type 0} where
  -- thread_pool_lite(threads) and start(threads)
  abbrev pub start : ℕ → ThreadPoolLite T
  start threads = record { workers = replicate threads waiting; tasks = []; stop = false }

  -- enqueue(f, args...): none is that it throws.
  unfoldable pub enqueue : ThreadPoolLite T → T → Option (ThreadPoolLite T)
  enqueue p task = elim p.stop [
    | true ↦ none
    | false ↦ some (record p { tasks = p.tasks ++ task ∷ [] })
  ]

  -- From the lock of the mutex to its release, in the loop of a worker.
  unfoldable pub wake : Bool → List T → Woken T
  wake stop (task ∷ tasks) = takes task tasks
  wake true [] = leaves
  wake false [] = waits

  -- The part of clear() under the mutex.
  abbrev pub stop_pool : ThreadPoolLite T → ThreadPoolLite T
  stop_pool p = record p { stop = true }

  abbrev is_returned : Worker T → Bool
  is_returned returned = true
  is_returned _ = false

  -- join() comes back.
  abbrev pub joined : List (Worker T) → Bool
  joined [] = true
  joined (w ∷ ws) = is_returned w && joined ws

-- What the threads do: calls of enqueue that put a task in or throw, a call of clear, and the
-- steps of the workers. A task that is run ends: it is a packaged_task, and throws nothing.
pub data Event (T : Type 0) : Type 0 where
  enqueued : T → Event T
  refused : T → Event T
  stopped : Event T
  began : ℕ → T → Event T
  ended : ℕ → T → Event T
  left : ℕ → Event T

pub data Step {T : Type 0} (p : ThreadPoolLite T) : Event T → ThreadPoolLite T → Type 0 where
  enqueues : (task : T) {q : ThreadPoolLite T} → enqueue p task ≡ some q → Step p (enqueued task) q
  refuses : (task : T) → enqueue p task ≡ none → Step p (refused task) p
  stops_all : Step p stopped (stop_pool p)
  begins :
      (i : ℕ) (task : T) (tasks : List T)
      → get_elem? p.workers i ≡ some waiting
      → wake p.stop p.tasks ≡ takes task tasks
      → Step p (began i task) (record p { workers = set p.workers i (running task); tasks = tasks })
  ends :
      (i : ℕ) (task : T)
      → get_elem? p.workers i ≡ some (running task)
      → Step p (ended i task) (record p { workers = set p.workers i waiting })
  returns :
      (i : ℕ)
      → get_elem? p.workers i ≡ some waiting
      → wake p.stop p.tasks ≡ leaves
      → Step p (left i) (record p { workers = set p.workers i returned })

-- The runs of a pool with n workers, with what happened, the last event first.
pub data Run {T : Type 0} (n : ℕ) : List (Event T) → ThreadPoolLite T → Type 0 where
  started : Run n [] (start n)
  later :
      {es : List (Event T)} {p : ThreadPoolLite T} {e : Event T} {q : ThreadPoolLite T}
      → Run n es p
      → Step p e q
      → Run n (e ∷ es) q

-- The tasks that were put in, begun and ended, in their order.
module _ {T : Type 0} where
  abbrev pub put_in : List (Event T) → List T
  put_in [] = []
  put_in (enqueued t ∷ es) = put_in es ++ t ∷ []
  put_in (_ ∷ es) = put_in es

  abbrev pub begun : List (Event T) → List T
  begun [] = []
  begun (began i t ∷ es) = begun es ++ t ∷ []
  begun (_ ∷ es) = begun es

  abbrev pub finished : List (Event T) → List T
  finished [] = []
  finished (ended i t ∷ es) = finished es ++ t ∷ []
  finished (_ ∷ es) = finished es
