-- ===== src/Messages.antt =====
-- threaded_message_queue of libs/cmdr11/include/cmdr11/cmdr_pool.hh. Its mutex makes every
-- operation one step; a run is any order of steps of any number of threads.
pub mod Laws
mod Tests
use cmdr_cxx.Base.{Bool, true, false, List, [], ◌∷◌, ◌++◌, Option, none, some, ◌≡◌}

pub record MessageQueue (T : Type 0) : Type 0 where
  pub data_ : List T
  pub abort : Bool

abbrev pub empty_messages : (T : Type 0) → MessageQueue T
empty_messages T = record { data_ = []; abort = false }

-- What pop_front does at the condition variable: it waits, it gives std::nullopt, or it gives the
-- message and leaves the queue.
pub data PopFront (T : Type 0) : Type 0 where
  waits : PopFront T
  aborts : PopFront T
  pops : T → MessageQueue T → PopFront T

module _ {T : Type 0} where
  -- emplace_back(t)
  unfoldable pub emplace_back : MessageQueue T → T → MessageQueue T
  emplace_back q t = record q { data_ = q.data_ ++ t ∷ [] }

  -- _data.back() with the elements in front of it, which _data.pop_back() leaves.
  pub back : T → List T → List T × T
  back x [] = ([], x)
  back x (y ∷ ys) = let (front, last) = back y ys in (x ∷ front, last)

  -- pop_front()
  unfoldable pub pop_front : MessageQueue T → PopFront T
  unfolding back
  pop_front q = elim q.abort [
    | true ↦ aborts
    | false ↦ elim q.data_ [
      | [] ↦ waits
      | x ∷ xs ↦ let (front, last) = back x xs in pops last (record q { data_ = front })
    ]
  ]

  -- clear()
  unfoldable pub clear : MessageQueue T → MessageQueue T
  clear q = record q { data_ = []; abort = true }

-- A run so far: the queue, with the messages that were put in, taken out and cleared away.
pub record Run (T : Type 0) : Type 0 where
  pub queue : MessageQueue T
  pub put_in : List T
  pub taken : List T
  pub cleared : List T

-- One operation of some thread. A thread that waits in pop_front makes no step.
pub data Step {T : Type 0} : Run T → Run T → Type 0 where
  puts :
      (r : Run T) (t : T)
      → Step r (record r { queue = emplace_back r.queue t; put_in = r.put_in ++ t ∷ [] })
  takes :
      (r : Run T) (t : T) (q : MessageQueue T)
      → pop_front r.queue ≡ pops t q
      → Step r (record r { queue = q; taken = r.taken ++ t ∷ [] })
  leaves : (r : Run T) → pop_front r.queue ≡ aborts → Step r r
  clears :
      (r : Run T)
      → Step r (record r { queue = clear r.queue; cleared = r.cleared ++ r.queue.data_ })

pub data Steps {T : Type 0} : Run T → Run T → Type 0 where
  done : (r : Run T) → Steps r r
  next : (r s t : Run T) → Step r s → Steps s t → Steps r t

abbrev pub start_run : (T : Type 0) → Run T
start_run T = record { queue = empty_messages T; put_in = []; taken = []; cleared = [] }
