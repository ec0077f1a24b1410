-- ===== src/Queue/Refill.antt =====
-- A pop leaves an empty list at the root, where the next push puts its element whatever it is.
use cmdr_cxx.Base.{true, false, [], ◌∷◌, ◌≡◌, arith, ℤ, is_negative, is_positive}
use cmdr_cxx.Queue.{PriorityQueue, empty_queue, push, pop}
use cmdr_cxx.Queue.Order.{Descending}
use cmdr_cxx.Queue.Drain.{drain}

module _ {T : Type 0} (comparer : T → T → ℤ) (none_value : T) where
  -- Push b, push a, pop, push c.
  pub refilled : T → T → T → PriorityQueue T
  refilled a b c =
      push comparer (pop none_value false (push comparer (push comparer (empty_queue T) b) a)).1 c

  first_pops :
      (a b c : T)
      → is_negative (comparer a b) ≡ true
      → drain none_value false 2 (refilled a b c) ≡ c ∷ a ∷ []
  unfolding refilled push pop drain
  first_pops a b c h = ground arith

  -- Where a is below b and c is below a, the two pops behind a refill give c before a: the queue is
  -- not drained in descending order.
  pub refill_breaks_order :
      (a b c : T)
      → is_negative (comparer a b) ≡ true
      → is_positive (comparer a c) ≡ true
      → ¬ Descending comparer (drain none_value false 2 (refilled a b c))
  refill_breaks_order a b c h k sorted =
      let d : Descending comparer (c ∷ a ∷ []) = rw (first_pops a b c h) at sorted in
      let no : is_positive (comparer a c) ≡ false = d.0.0 in cc (no, k)
