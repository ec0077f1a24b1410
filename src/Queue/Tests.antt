-- ===== src/Queue/Tests.antt =====
-- The theorems on the priority queue at concrete inputs.
use mathlib.Core.List.{Perm}
use cmdr_cxx.Base.{
  none, some, ℕ, ◌<◌, ◌⊎◌, ◌-◌, [], ◌∷◌, ◌≡◌, refl, true, false, arith, leb, if◌then◌else◌, ℤ, pos,
  negsuc,
}
use cmdr_cxx.Queue.{PriorityQueue, empty_queue, push, pop}
use cmdr_cxx.Queue.Drain.{elements, drain, IsCounted, order_of, drain-order_of}
use cmdr_cxx.Queue.Order.{IsPreorder, Descending}
use cmdr_cxx.Queue.Sorted.{push_all, drain-push_all}
use cmdr_cxx.Queue.Iterator.{It, asserted, moved, next, increment}
use cmdr_cxx.Queue.Iterator.Laws.{Visited, Visited-skips, iterator_stops}
use cmdr_cxx.Queue.Refill.{refilled, refill_breaks_order}

-- a - b
abbrev by_size : ℕ → ℕ → ℤ
by_size a b = if leb b a then pos (a - b) else negsuc (b - a - 1)

by_size-IsPreorder : IsPreorder by_size
by_size-IsPreorder = record { flip = λ a b. ground arith; trans = λ a b c h k. ground arith }

-- 5, 3 and 7 were pushed.
abbrev three : PriorityQueue ℕ
three = push by_size (push by_size (push by_size (empty_queue ℕ) 5) 3) 7

three-IsCounted : IsCounted false three
unfolding push elements
three-IsCounted = record { counted = refl; bounded = omega arith }

drain-order_of_example : drain 0 false three.count three ≡ order_of false three.root
drain-order_of_example = drain-order_of 0 false three three-IsCounted

drain-push_all_example :
    let out =
      drain 0 false 3 (push_all by_size by_size-IsPreorder (empty_queue ℕ) (5 ∷ 3 ∷ 7 ∷ [])) in
    Perm out (5 ∷ 3 ∷ 7 ∷ []) × Descending by_size out
drain-push_all_example = drain-push_all by_size by_size-IsPreorder 0 (5 ∷ 3 ∷ 7 ∷ []) (omega arith)

refill_breaks_order_example : ¬ Descending by_size (drain 0 false 2 (refilled by_size 0 3 5 1))
refill_breaks_order_example = refill_breaks_order by_size 0 3 5 1 refl refl

drain_runs : drain 0 false 3 three ≡ 7 ∷ 5 ∷ 3 ∷ []
unfolding drain push pop
drain_runs = refl

drain_reverse_runs : drain 0 true 3 three ≡ 3 ∷ 5 ∷ 7 ∷ []
unfolding drain push pop
drain_reverse_runs = refl

iterator_stops_example :
    increment true false
      ((push_all by_size by_size-IsPreorder (empty_queue ℕ) (5 ∷ 3 ∷ 7 ∷ [])).root, 0)
    ≡ moved none
iterator_stops_example =
    iterator_stops by_size by_size-IsPreorder true false (5 ∷ 3 ∷ 7 ∷ []) (omega arith)
      (((λ e. cc e), ((λ e. cc e), tt)), (((λ e. cc e), tt), (tt, tt)))

-- 5, 5 and 3 were pushed.
abbrev twice : PriorityQueue ℕ
twice = push by_size (push by_size (push by_size (empty_queue ℕ) 5) 5) 3

second : Visited true false twice.root (twice.root, 1)
unfolding push next
second = Visited.moves Visited.begins refl

abbrev first_place : It ℕ
first_place = (twice.root, 0)

abbrev second_place : It ℕ
second_place = (twice.root, 1)

Visited-skips_example : (second_place ≡ first_place) ⊎ (0 < second_place.1)
Visited-skips_example = Visited-skips true false twice.root second_place second

-- 5 was pushed and popped again: the empty list at the root.
abbrev none_left : PriorityQueue ℕ
none_left = (pop 0 false (push by_size (empty_queue ℕ) 5)).1

-- On an empty list the assert fails; without asserts the iterator goes to a place that is not there.
empty_list :
    (increment true false (none_left.root, 0) ≡ asserted)
    × (increment false false (none_left.root, 0) ≡ moved (some (none_left.root, 1)))
unfolding push pop next
empty_list = (refl, refl)
