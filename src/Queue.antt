-- ===== src/Queue.antt =====
-- The priority queue of libs/cmdr11/include/cmdr11/cmdr_priority_queue.hh: a binary tree whose
-- nodes hold lists of elements that compare equal. The comparer gives an `int`.
pub mod Drain
pub mod Order
pub mod Sorted
pub mod Refill
pub mod Walk
pub mod Iterator
mod Tests
use cmdr_cxx.Base.{
  ℕ, zero, suc, ◌+◌, ◌-◌, ◌%◌, ◌^◌, Bool, true, false, ◌&&◌, List, [], ◌∷◌, ◌++◌, ltb,
  if◌then◌else◌, ℤ, pos, negsuc, is_negative, is_positive, lt_ℤ,
}

-- A shared_ptr<element>: `null`, or an element with its _list, _min_value, _left and _right.
pub data Element (T : Type 0) : Type 0 where
  null : Element T
  element : List T → ℤ → Element T → Element T → Element T

abbrev pub exists : {T : Type 0} → Element T → Bool
exists null = false
exists (element xs m l r) = true

pub record PriorityQueue (T : Type 0) : Type 0 where
  pub root : Element T
  pub count : ℕ

-- priority_queue()
abbrev pub empty_queue : (T : Type 0) → PriorityQueue T
empty_queue T = record { root = element [] (pos 0) null null; count = 0 }

-- `count--` on a std::size_t
abbrev pub dec : ℕ → ℕ
dec count = (count + 2 ^ 64 - 1) % 2 ^ 64

module _ {T : Type 0} (comparer : T → T → ℤ) where
  -- The loop of _push over the elements of a node: the least negative and the greatest positive
  -- result.
  pub scan : T → List T → ℤ → ℤ → ℤ × ℤ
  scan d [] l r = (l, r)
  scan d (v ∷ vs) l r =
      let ret = comparer d v in
      scan d vs (if is_negative ret then (if lt_ℤ ret l then ret else l) else l) (
        if is_negative ret
        then r
        else if is_positive ret
        then (if lt_ℤ r ret then ret else r)
        else r)

  -- _push(at, data). At an absent child the new element is made with the value `m`.
  pub push_at : Element T → T → ℤ → Element T
  unfolding scan
  push_at null d m = element (d ∷ []) m null null
  push_at (element xs v left right) d m =
      let (l, r) = scan d xs (pos 0) (pos 0) in
      let in_left = element xs v (push_at left d l) right in
      let in_right = element xs v left (push_at right d r) in
      if is_negative l
      then in_left
      else if is_positive r
      then in_right
      else element (xs ++ d ∷ []) v left right

  -- push(data)
  unfoldable pub push : PriorityQueue T → T → PriorityQueue T
  unfolding push_at
  push q d = record { root = push_at q.root d (pos 0); count = q.count + 1 }

-- What element::pop leaves: the value, the element and the count.
pub record Popped (T : Type 0) : Type 0 where
  pub value : T
  pub rest : Element T
  pub left_over : ℕ

module _ {T : Type 0} (none_value : T) where
  -- The part of element::pop behind the first child: the list, then the other child, whose pop
  -- gives `other`. `rebuild` puts a list and that child back.
  abbrev pub pop_list :
      List T → Bool → Popped T → (List T → Element T → Element T) → Element T → ℕ → Popped T
  pop_list (x ∷ xs) there other rebuild child count = record {
    value = x;
    rest = rebuild xs child;
    left_over = dec count;
  }
  pop_list [] there other rebuild child count = record {
    value = if there && ltb other.left_over count then other.value else none_value;
    rest = rebuild [] other.rest;
    left_over = other.left_over;
  }

  -- element::pop(count) where ReverseComp is false: right, the list, left. `count` is a reference:
  -- each step goes on from what the step before left in it.
  pub pop_at : Element T → ℕ → Popped T
  pop_at null count = record { value = none_value; rest = null; left_over = count }
  pop_at (element xs v left right) count =
      let first = pop_at right count in
      let second = pop_at left first.left_over in
      if exists right && ltb first.left_over count
      then record {
        value = first.value;
        rest = element xs v left first.rest;
        left_over = first.left_over;
      }
      else pop_list xs (exists left) second (λ ys child. element ys v child first.rest) left
          first.left_over

  -- element::pop(count) where ReverseComp is true: left, the list, right.
  pub pop_reverse_at : Element T → ℕ → Popped T
  pop_reverse_at null count = record { value = none_value; rest = null; left_over = count }
  pop_reverse_at (element xs v left right) count =
      let first = pop_reverse_at left count in
      let second = pop_reverse_at right first.left_over in
      if exists left && ltb first.left_over count
      then record {
        value = first.value;
        rest = element xs v first.rest right;
        left_over = first.left_over;
      }
      else pop_list xs (exists right) second (λ ys child. element ys v first.rest child) right
          first.left_over

  -- pop()
  unfoldable pub pop : Bool → PriorityQueue T → T × PriorityQueue T
  unfolding pop_at pop_reverse_at
  pop reverse q =
      let out = if reverse then pop_reverse_at q.root q.count else pop_at q.root q.count in
      (out.value, record { root = out.rest; count = out.left_over })
