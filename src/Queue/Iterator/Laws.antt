-- ===== src/Queue/Iterator/Laws.antt =====
-- Where a walk with the iterator comes to.
use cmdr_cxx.Base.{
  ℕ, zero, suc, ◌+◌, ◌<◌, Bool, true, false, List, [], ◌∷◌, none, some, length, ltb, All, All-map,
  All-map₂, All-append_left, All-append_right, if◌then◌else◌, ◌≡◌, ◌≢◌, ◌⊎◌, inl, inr, refl, sym,
  subst, ap, ◌∙◌, arith, ℤ, pos, negsuc, is_negative, is_positive,
}
use cmdr_cxx.Queue.{Element, null, element, dec, PriorityQueue, empty_queue, push_at, push}
use cmdr_cxx.Queue.Drain.{elements}
use cmdr_cxx.Queue.Order.{IsPreorder, any_less, any_greater, push_at_step, push_at-All}
use cmdr_cxx.Queue.Sorted.{push_all}
use cmdr_cxx.Queue.Iterator.{It, Moved, asserted, moved, fails, next, increment}

module _ {T : Type 0} where
  -- The iterators that a walk from begin() passes, as long as it is not at the end and no assert
  -- fails.
  pub data Visited (checked reverse_comp : Bool) (root : Element T) : It T → Type 0 where
    begins : Visited checked reverse_comp root (root, 0)
    moves :
        {i j : It T}
        → Visited checked reverse_comp root i
        → increment checked reverse_comp i ≡ moved (some j)
        → Visited checked reverse_comp root j

  -- One step of next inside an element.
  inner :
      (e j : It T) (f b : Bool) (p : ℕ) (rest : Moved T)
      → e.1 ≡ p + 1
      → (if f then asserted else if b then moved (some e) else rest) ≡ moved (some j)
      → (rest ≡ moved (some j) → 0 < j.1)
      → 0 < j.1
  inner e j true b p rest q h k = cc h
  inner e j false true p rest q h k = let s : e ≡ j = cc h in omega (arith, q, ap (λ i. i.1) s)
  inner e j false false p rest q h k = k h

  next_behind :
      (checked reverse_comp : Bool) (e : Element T) (p : ℕ) (j : It T)
      → next checked reverse_comp e (some p) ≡ moved (some j)
      → 0 < j.1
  unfolding next
  next_behind c b null p j h = cc h
  next_behind c true (element xs v left right) p j h =
      inner (element xs v left right, p + 1) j _ _ p _ refl h (next_behind c true right 0 j)
  next_behind c false (element xs v left right) p j h =
      inner (element xs v left right, p + 1) j _ _ p _ refl h (next_behind c false left 0 j)

  -- In any priority queue a walk with the iterator never stands at the first value of an element,
  -- except where it begins, at the root.
  pub Visited-skips :
      (checked reverse_comp : Bool) (root : Element T) (i : It T)
      → Visited checked reverse_comp root i
      → (i ≡ (root, 0)) ⊎ (0 < i.1)
  Visited-skips c b root i Visited.begins = inl refl
  Visited-skips c b root i (Visited.moves {i = k} v e) = inr (next_behind c b k.0 k.1 i e)

  -- Every element holds one value.
  abbrev pub Single : Element T → Type 0
  Single null = Unit
  Single (element xs v left right) = (length xs ≡ 1) × Single left × Single right

  single_step :
      (checked : Bool) (xs : List T) (x y : Moved T)
      → length xs ≡ 1
      → (if fails checked xs 0 then asserted else if ltb 0 (dec (length xs)) then x else y) ≡ y
  single_step checked xs x y e = rw e refl

  Single-stops :
      (checked reverse_comp : Bool) (e : Element T)
      → Single e
      → next checked reverse_comp e (some 0) ≡ moved none
  unfolding next
  Single-stops c b null s = refl
  Single-stops c true (element xs v left right) (e, l, r) =
      single_step c xs _ _ e ∙ Single-stops c true right r
  Single-stops c false (element xs v left right) (e, l, r) =
      single_step c xs _ _ e ∙ Single-stops c false left l

module _ {T : Type 0} (comparer : T → T → ℤ) where
  abbrev Differs : T → T → Type 0
  Differs d x = comparer d x ≢ pos 0

  -- No value compares as equal with one in front of it.
  abbrev pub Different : List T → Type 0
  Different [] = Unit
  Different (d ∷ ds) = All (λ e. Differs e d) ds × Different ds

  less_or_greater :
      (n : ℤ)
      → n ≢ pos 0
      → (is_negative n ≡ true) ⊎ ((is_negative n ≡ false) × (is_positive n ≡ true))
  less_or_greater (pos zero) h = absurd (h refl)
  less_or_greater (pos (suc n)) h = inr (refl, refl)
  less_or_greater (negsuc n) h = inl refl

  push_at_less :
      (x : T) (v : ℤ) (left right : Element T) (d : T) (m : ℤ)
      → is_negative (comparer d x) ≡ true
      → (l : ℤ) × (push_at comparer (element (x ∷ []) v left right) d m
          ≡ element (x ∷ []) v (push_at comparer left d l) right)
  unfolding any_less
  push_at_less x v left right d m h =
      let (l, r, step) = push_at_step comparer (x ∷ []) v left right d m in
      (l, step ∙ rw (h, any_less) refl)

  push_at_greater :
      (x : T) (v : ℤ) (left right : Element T) (d : T) (m : ℤ)
      → is_negative (comparer d x) ≡ false
      → is_positive (comparer d x) ≡ true
      → (r : ℤ) × (push_at comparer (element (x ∷ []) v left right) d m
          ≡ element (x ∷ []) v left (push_at comparer right d r))
  unfolding any_less any_greater
  push_at_greater x v left right d m h k =
      let (l, r, step) = push_at_step comparer (x ∷ []) v left right d m in
      (r, step ∙ rw (h, k, any_less, any_greater) refl)

  push_at-Single :
      (e : Element T) (d : T) (m : ℤ)
      → Single e
      → All (Differs d) (elements e)
      → Single (push_at comparer e d m)
  unfolding push_at elements
  push_at-Single null d m s h = (refl, tt, tt)
  push_at-Single (element [] v left right) d m s h = absurd (omega (arith, s.0))
  push_at-Single (element (x ∷ y ∷ xs) v left right) d m s h = absurd (omega (arith, s.0))
  push_at-Single (element (x ∷ []) v left right) d m (e, l, r) h =
      let hr = All-append_left (Differs d) (elements right) (x ∷ elements left) h in
      let (hx, hl) = All-append_right (Differs d) (elements right) (x ∷ elements left) h in
      elim (less_or_greater (comparer d x) hx) [
        | inl b ↦
            let (k, step) = push_at_less x v left right d m b in
            subst Single (sym step) (refl, push_at-Single left d k l hl, r)
        | inr (b, c) ↦
            let (k, step) = push_at_greater x v left right d m b c in
            subst Single (sym step) (refl, l, push_at-Single right d k r hr)
      ]

  module _ (o : IsPreorder comparer) where
    push_all-Single :
        (q : PriorityQueue T) (ds : List T)
        → Single q.root
        → Different ds
        → All (λ d. All (Differs d) (elements q.root)) ds
        → Single (push_all comparer o q ds).root
    unfolding push_all push
    push_all-Single q [] s f h = s
    push_all-Single q (d ∷ ds) s (g, f) (hd, h) =
        push_all-Single (push comparer q d) ds (push_at-Single q.root d (pos 0) s hd) f
          (All-map₂ (λ e p a. push_at-All comparer (Differs e) q.root d (pos 0) p a) ds g h)

    -- In a queue of values that were pushed into an empty one, of which no two compare as equal,
    -- the iterator is at the end behind the root's value, however many values there are, and no
    -- assert fails.
    pub iterator_stops :
        (checked reverse_comp : Bool) (ds : List T)
        → 0 < length ds
        → Different ds
        → increment checked reverse_comp ((push_all comparer o (empty_queue T) ds).root, 0)
          ≡ moved none
    unfolding push_all push push_at elements
    iterator_stops c b [] p f = absurd (omega (arith, p))
    iterator_stops c b (d ∷ ds) p (g, f) = Single-stops c b _ (
        push_all-Single (push comparer (empty_queue T) d) ds (refl, tt, tt) f
          (All-map (λ e a. (a, tt)) ds g))
