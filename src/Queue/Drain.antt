-- ===== src/Queue/Drain.antt =====
-- The queue as the list of its elements in the order in which they are popped.
use cmdr_cxx.Base.{
  ℕ, zero, suc, ◌+◌, ◌^◌, ◌<◌, ◌≤◌, Bool, true, false, ◌&&◌, List, [], ◌∷◌, ◌++◌, ◌≡◌, refl, sym,
  ap, ◌∙◌, arith, ltb, if◌then◌else◌, length, length-append,
}
use cmdr_cxx.Queue.{
  Element, null, element, exists, PriorityQueue, Popped, pop_at, pop_reverse_at, pop, pop_list,
}

module _ {T : Type 0} where
  -- Greatest first: right, the list, left.
  unfoldable pub elements : Element T → List T
  elements null = []
  elements (element xs v left right) = elements right ++ (xs ++ elements left)

  -- Least first.
  unfoldable pub elements_reverse : Element T → List T
  elements_reverse null = []
  elements_reverse (element xs v left right) =
      elements_reverse left ++ (xs ++ elements_reverse right)

module _ {T : Type 0} (none_value : T) where
  -- What a pop of a tree that holds this list does, where `list` reads off the elements.
  abbrev pub Pops : (Element T → List T) → List T → Popped T → ℕ → Type 0
  Pops list [] p count = (p.value ≡ none_value) × (list p.rest ≡ []) × (p.left_over ≡ count)
  Pops list (x ∷ xs) p count = (p.value ≡ x) × (list p.rest ≡ xs) × (p.left_over + 1 ≡ count)

  exists-nonempty :
      (list : Element T → List T)
      → list null ≡ []
      → (t : Element T) (x : T) (xs : List T) → list t ≡ x ∷ xs
      → exists t ≡ true
  exists-nonempty list n null x xs e = cc (n, e)
  exists-nonempty list n (element ys v l r) x xs e = refl

  -- One node, for either order of its children: `first` is the pop of the child that goes first.
  node-Pops :
      (list : Element T → List T)
      → list null ≡ []
      → (xs : List T) (a b : Element T) (build : List T → Element T → Element T → Element T)
      → ((ys : List T) (c d : Element T) → list (build ys c d) ≡ list c ++ (ys ++ list d))
      → (first second : Popped T) (count : ℕ) (us ws : List T) → list a ≡ us
      → list b ≡ ws
      → length (us ++ (xs ++ ws)) ≤ count
      → count < 2 ^ 64
      → Pops list us first count
      → Pops list ws second first.left_over
      → Pops list
          (us ++ (xs ++ ws))
          (if exists a && ltb first.left_over count
            then record {
              value = first.value;
              rest = build xs first.rest b;
              left_over = first.left_over;
            }
            else pop_list none_value xs
                (exists b)
                second
                (λ ys d. build ys first.rest d)
                b
                first.left_over)
          count
  node-Pops list n xs a b build law first second count (x ∷ us) ws ea eb h k (v, r, c) q =
      let there = exists-nonempty list n a x us ea in
      let less : ltb first.left_over count ≡ true = ground arith in
      rw (there, less) (v, (law xs first.rest b ∙ rw (r, eb)), c)
  node-Pops list n (x ∷ xs) a b build law first second count [] ws ea eb h k (v, r, c) q =
      let same : ltb first.left_over count ≡ false = ground (arith, c) in
      let test : (exists a && ltb first.left_over count) ≡ false = ground (arith, same) in
      rw test (refl, (law xs first.rest b ∙ rw (r, eb)), omega arith)
  node-Pops list n [] a b build law first second count [] [] ea eb h k (v, r, c) (v', r', c') =
      let test : (exists a && ltb first.left_over count) ≡ false = ground (arith, c) in
      let test' : (exists b && ltb second.left_over first.left_over) ≡ false = ground (arith, c') in
      rw (test, test') (refl, (law [] first.rest second.rest ∙ rw (r, r')), c' ∙ c)
  node-Pops list n [] a b build law first second count [] (y ∷ ws) ea eb h k (v, r, c)
        (v', r', c') =
      let there = exists-nonempty list n b y ws eb in
      let test : (exists a && ltb first.left_over count) ≡ false = ground (arith, c) in
      let test' : ltb second.left_over first.left_over ≡ true = ground (arith, c') in
      rw (test, there, test') (v', (law [] first.rest second.rest ∙ rw (r, r')), c' ∙ c)

  left_enough :
      (list : Element T → List T) (us : List T) (p : Popped T) (count m : ℕ)
      → Pops list us p count
      → length us + m ≤ count
      → (m ≤ p.left_over) × (p.left_over ≤ count)
  left_enough list [] p count m (v, r, c) k = omega arith
  left_enough list (x ∷ us) p count m (v, r, c) k = omega arith

  pop_at-Pops :
      (t : Element T) (count : ℕ)
      → length (elements t) ≤ count
      → count < 2 ^ 64
      → Pops elements (elements t) (pop_at none_value t count) count
  unfolding pop_at elements
  pop_at-Pops null count h k = (refl, refl, refl)
  pop_at-Pops (element xs v left right) count h k =
      let total = length-append (elements right) (xs ++ elements left) in
      let tail = length-append xs (elements left) in
      let first = pop_at-Pops right count (omega arith) k in
      let (enough, below) =
        left_enough elements (elements right) (pop_at none_value right count) count
          (length (elements left)) first (omega arith) in
      node-Pops elements refl xs right left (λ ys c d. element ys v d c) (λ ys c d. refl) _ _ count
        (elements right) (elements left) refl refl h k first
        (pop_at-Pops left (pop_at none_value right count).left_over enough (omega arith))

  pop_reverse_at-Pops :
      (t : Element T) (count : ℕ)
      → length (elements_reverse t) ≤ count
      → count < 2 ^ 64
      → Pops elements_reverse (elements_reverse t) (pop_reverse_at none_value t count) count
  unfolding pop_reverse_at elements_reverse
  pop_reverse_at-Pops null count h k = (refl, refl, refl)
  pop_reverse_at-Pops (element xs v left right) count h k =
      let total = length-append (elements_reverse left) (xs ++ elements_reverse right) in
      let tail = length-append xs (elements_reverse right) in
      let first = pop_reverse_at-Pops left count (omega arith) k in
      let (enough, below) =
        left_enough elements_reverse (elements_reverse left) (pop_reverse_at none_value left count)
          count (length (elements_reverse right)) first (omega arith) in
      node-Pops elements_reverse refl xs left right (λ ys c d. element ys v c d) (λ ys c d. refl) _
        _ count (elements_reverse left) (elements_reverse right) refl refl h k first
        (pop_reverse_at-Pops right (pop_reverse_at none_value left count).left_over enough
          (omega arith))

-- The elements in the order of pops, for either value of ReverseComp.
abbrev pub order_of : {T : Type 0} → Bool → Element T → List T
order_of false t = elements t
order_of true t = elements_reverse t

-- The count is the number of elements, and a std::size_t holds it.
pub record IsCounted {T : Type 0} (reverse : Bool) (q : PriorityQueue T) : Type 0 where
  pub counted : length (order_of reverse q.root) ≡ q.count
  pub bounded : q.count < 2 ^ 64

module _ {T : Type 0} (none_value : T) where
  -- The pop of a queue with these elements.
  abbrev pub PopsFrom : Bool → List T → PriorityQueue T → T × PriorityQueue T → Type 0
  PopsFrom reverse [] q (x, q') =
      (x ≡ none_value) × (order_of reverse q'.root ≡ []) × (q'.count ≡ q.count)
  PopsFrom reverse (y ∷ ys) q (x, q') =
      (x ≡ y) × (order_of reverse q'.root ≡ ys) × (q'.count + 1 ≡ q.count)

  -- A pop takes the first element in the order of the queue and leaves the others as they were; on
  -- an empty queue it gives the null value and changes nothing.
  pub pop-PopsFrom :
      (reverse : Bool) (q : PriorityQueue T)
      → IsCounted reverse q
      → PopsFrom reverse (order_of reverse q.root) q (pop none_value reverse q)
  unfolding pop
  pop-PopsFrom false q v =
      split (elements q.root) (pop_at-Pops none_value q.root q.count (omega arith) v.bounded)
    where
      split :
          (us : List T)
          → Pops none_value elements us (pop_at none_value q.root q.count) q.count
          → PopsFrom false us q (
            (pop_at none_value q.root q.count).value,
            record {
              root = (pop_at none_value q.root q.count).rest;
              count = (pop_at none_value q.root q.count).left_over;
            },
          )
      split [] h = h
      split (x ∷ us) h = h
  pop-PopsFrom true q v =
      split (elements_reverse q.root)
        (pop_reverse_at-Pops none_value q.root q.count (omega arith) v.bounded)
    where
      split :
          (us : List T)
          → Pops none_value elements_reverse us (pop_reverse_at none_value q.root q.count) q.count
          → PopsFrom true us q (
            (pop_reverse_at none_value q.root q.count).value,
            record {
              root = (pop_reverse_at none_value q.root q.count).rest;
              count = (pop_reverse_at none_value q.root q.count).left_over;
            },
          )
      split [] h = h
      split (x ∷ us) h = h

  -- So many pops, one behind the other.
  unfoldable pub drain : Bool → ℕ → PriorityQueue T → List T
  drain reverse zero q = []
  drain reverse (suc n) q = let out = pop none_value reverse q in out.0 ∷ drain reverse n out.1

  drain-list :
      (reverse : Bool) (us : List T) (q : PriorityQueue T)
      → order_of reverse q.root ≡ us
      → IsCounted reverse q
      → drain reverse (length us) q ≡ us
  unfolding drain
  drain-list reverse [] q e v = refl
  drain-list reverse (x ∷ us) q e v =
      let step : PopsFrom reverse (x ∷ us) q (pop none_value reverse q) =
        rw e at (pop-PopsFrom reverse q v) in
      let next : IsCounted reverse (pop none_value reverse q).1 = record {
        counted = ap length step.1 ∙ omega (arith, v.counted, ap length e, step.2);
        bounded = omega (arith, step.2, v.bounded);
      } in
      rw (step.0, drain-list reverse us (pop none_value reverse q).1 step.1 next)

  -- As many pops as there are elements give them all, in the order of the queue.
  pub drain-order_of :
      (reverse : Bool) (q : PriorityQueue T)
      → IsCounted reverse q
      → drain reverse q.count q ≡ order_of reverse q.root
  drain-order_of reverse q v =
      ap (λ n. drain reverse n q) (sym v.counted)
      ∙ drain-list reverse (order_of reverse q.root) q refl v
