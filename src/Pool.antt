-- ===== src/Pool.antt =====
-- The thread pools and conditional_wait of libs/cmdr11/include/cmdr11/cmdr_pool.hh. The work under
-- a mutex is one step; a run is any order of steps of any number of threads.
pub mod Wait
pub mod Lite
pub mod Threads
mod Tests
use cmdr_cxx.Base.{
  ℕ, ◌+◌, List, [], ◌∷◌, ◌++◌, get_elem?, set, Option, none, some, ◌≡◌, refl, ap, arith, zero, suc,
}

-- Where a worker of a pool stands: it waits for a task, runs one, or has left its loop.
pub data Worker (T : Type 0) : Type 0 where
  waiting : Worker T
  running : T → Worker T
  returned : Worker T

-- The sum of the numbers of the workers.
abbrev pub total : {W : Type 0} → (W → ℕ) → List W → ℕ
total f [] = 0
total f (w ∷ ws) = f w + total f ws

pub total-set :
    {W : Type 0} (f : W → ℕ) (ws : List W) (i : ℕ) (w v : W)
    → get_elem? ws i ≡ some w
    → total f (set ws i v) + f w ≡ total f ws + f v
total-set f [] i w v e = cc e
total-set f (x ∷ ws) zero w v e = let d : f x ≡ f w = ap f (cc e) in omega (arith, d)
total-set f (x ∷ ws) (suc i) w v e = omega (arith, total-set f ws i w v e)
