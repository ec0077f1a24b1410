-- ===== src/Queue/Sorted.antt =====
-- Elements that were only pushed come out sorted; a pop can break the order of later pushes.
use mathlib.Core.List.{Perm, perm_middle}
use mathlib.Core.List.Perm
use cmdr_cxx.Base.{
  zero, suc, ◌+◌, ◌^◌, ◌<◌, Bool, true, false, List, [], ◌∷◌, ◌++◌, append-nil, ◌≡◌, ◌≢◌, refl, sym,
  ap, ◌∙◌, arith, length, All, All-append, All-map, All-map₂, All-swap, Bool-cases, inl, inr, ◌⊎◌,
  subst, ℤ, pos, negsuc, is_negative, is_positive,
}
use cmdr_cxx.Queue.{Element, null, element, PriorityQueue, empty_queue, push_at, push}
use cmdr_cxx.Queue.Drain.{elements, drain, IsCounted, drain-order_of}
use cmdr_cxx.Queue.Order.{
  IsPreorder, gt, Descending, any_less, any_greater, push_at_step, push_at-All, push_at-length,
  push-perm,
}

module _ {T : Type 0} (comparer : T → T → ℤ) (o : IsPreorder comparer) where
  greater : T → T → Bool
  greater a b = gt comparer a b

  less_is_greater : (a b : T) → is_negative (comparer a b) ≡ greater b a
  unfolding greater
  less_is_greater a b = o.flip a b

  asym_sign : (n : ℤ) → is_positive n ≡ true → is_negative n ≡ false
  asym_sign (pos zero) h = refl
  asym_sign (pos (suc n)) h = refl
  asym_sign (negsuc n) h = cc

  not_both : (n : ℤ) → is_negative n ≡ is_positive n → is_positive n ≡ false
  not_both (pos zero) h = refl
  not_both (pos (suc n)) h = cc
  not_both (negsuc n) h = cc

  greater_irrefl : (a : T) → greater a a ≡ false
  unfolding greater
  greater_irrefl a = not_both (comparer a a) (o.flip a a)

  greater_asym : (a b : T) → greater a b ≡ true → greater b a ≡ false
  unfolding greater
  greater_asym a b h = cc (asym_sign (comparer a b) h, o.flip a b)

  not_greater_trans : (a b c : T) → greater a b ≡ false → greater b c ≡ false → greater a c ≡ false
  unfolding greater
  not_greater_trans a b c = o.trans a b c

  -- What is greater than a third stays so if the first is replaced by something not below it.
  greater_from : (x y d : T) → greater x d ≡ true → greater x y ≡ false → greater y d ≡ true
  greater_from x y d h k = elim (Bool-cases (greater y d)) [
    | inl e ↦ e
    | inr e ↦ let no = not_greater_trans x y d k e in cc (no, h)
  ]

  greater_to : (u x d : T) → greater u x ≡ true → greater d x ≡ false → greater u d ≡ true
  greater_to u x d h k = elim (Bool-cases (greater u d)) [
    | inl e ↦ e
    | inr e ↦ let no = not_greater_trans u d x e k in cc (no, h)
  ]

  Same : T → T → Type 0
  Same x y = (greater x y ≡ false) × (greater y x ≡ false)

  abbrev Ordered : Element T → Type 0
  Ordered null = Unit
  Ordered (element xs v left right) =
      (xs ≢ [])
      × All (λ x. All (Same x) xs) xs
      × All (λ x. All (λ u. greater x u ≡ true) (elements left)) xs
      × All (λ x. All (λ u. greater u x ≡ true) (elements right)) xs
      × Ordered left
      × Ordered right

  less_witness {κ} :
      (P : T → Type κ) (d : T) (xs : List T)
      → All P xs
      → any_less comparer d xs ≡ true
      → (x : T) × P x × (greater x d ≡ true)
  unfolding any_less
  less_witness P d [] h e = cc
  less_witness P d (x ∷ xs) (p, h) e = elim (Bool-cases (is_negative (comparer d x))) [
    | inl f ↦ (x, p, sym (less_is_greater d x) ∙ f)
    | inr f ↦ less_witness P d xs h (rw f at e)
  ]

  greater_witness {κ} :
      (P : T → Type κ) (d : T) (xs : List T)
      → All P xs
      → any_greater comparer d xs ≡ true
      → (x : T) × P x × (greater d x ≡ true)
  unfolding any_greater greater
  greater_witness P d [] h e = cc
  greater_witness P d (x ∷ xs) (p, h) e = elim (Bool-cases (is_positive (comparer d x))) [
    | inl f ↦ (x, p, f)
    | inr f ↦ greater_witness P d xs h (rw f at e)
  ]

  All-Same :
      (d : T) (xs : List T)
      → any_less comparer d xs ≡ false
      → any_greater comparer d xs ≡ false
      → All (λ x. Same x d) xs
  unfolding any_less any_greater greater Same
  All-Same d [] e f = tt
  All-Same d (x ∷ xs) e f =
      let first : is_negative (comparer d x) ≡ false = ground arith in
      let rest : any_less comparer d xs ≡ false = ground arith in
      let first' : is_positive (comparer d x) ≡ false = ground arith in
      let rest' : any_greater comparer d xs ≡ false = ground arith in
      ((sym (less_is_greater d x) ∙ first, first'), All-Same d xs rest rest')

  below-All :
      (d : T) (xs : List T)
      → All (λ x. All (Same x) xs) xs
      → any_less comparer d xs ≡ true
      → All (λ y. greater y d ≡ true) xs
  unfolding Same
  below-All d xs flat e =
      let (x, same, h) = less_witness (λ x. All (Same x) xs) d xs flat e in
      All-map (λ y s. greater_from x y d h s.0) xs same

  above-All :
      (d : T) (xs : List T)
      → All (λ x. All (Same x) xs) xs
      → any_greater comparer d xs ≡ true
      → All (λ y. greater d y ≡ true) xs
  unfolding Same
  above-All d xs flat e =
      let (x, same, h) = greater_witness (λ x. All (Same x) xs) d xs flat e in
      All-map (λ y s. greater_to d x y h s.1) xs same

  Same-self : (d : T) → Same d d
  unfolding Same
  Same-self d = (greater_irrefl d, greater_irrefl d)

  Same-flip : (x y : T) → Same x y → Same y x
  unfolding Same
  Same-flip x y (a, b) = (b, a)

  append_one-ne-nil : (xs : List T) (d : T) → xs ++ d ∷ [] ≢ []
  append_one-ne-nil [] d = λ e. cc
  append_one-ne-nil (x ∷ xs) d = λ e. cc

  -- The element joins a list of its equals.
  join_equals :
      (xs : List T) (v : ℤ) (left right : Element T) (d : T)
      → Ordered (element xs v left right)
      → All (λ x. Same x d) xs
      → Ordered (element (xs ++ d ∷ []) v left right)
  unfolding Same
  join_equals [] v left right d h same = absurd (h.0 refl)
  join_equals (x ∷ xs) v left right d (ne, flat, low, high, ol, or) same =
      let ys = x ∷ xs in
      let wide = All-map₂ (λ y f s. All-append (Same y) ys (d ∷ []) f (s, tt)) ys flat same in
      let own =
        All-append (Same d) ys (d ∷ []) (All-map (λ y s. Same-flip y d s) ys same)
          (Same-self d, tt) in
      let like : (greater x d ≡ false) × (greater d x ≡ false) = same.0 in
      (
        append_one-ne-nil ys d,
        All-append _ ys (d ∷ []) wide (own, tt),
        All-append _ ys (d ∷ []) low
            (All-map (λ u h. greater_from x d u h like.0) (elements left) low.0, tt),
        All-append _ ys (d ∷ []) high
            (All-map (λ u h. greater_to u x d h like.1) (elements right) high.0, tt),
        ol,
        or,
      )

  push_at-Ordered : (t : Element T) (d : T) (m : ℤ) → Ordered t → Ordered (push_at comparer t d m)
  unfolding push_at elements
  push_at-Ordered null d m o = ((λ e. cc), ((Same-self d, tt), tt), (tt, tt), (tt, tt), tt, tt)
  push_at-Ordered (element xs v left right) d m (ne, flat, low, high, ol, or) =
      let (l, r, step) = push_at_step comparer xs v left right d m in
      elim (Bool-cases (any_less comparer d xs)) [
        | inl e ↦
            rw (step, e)
              (
                ne,
                flat,
                All-map₂ (λ x h k. push_at-All comparer (λ u. greater x u ≡ true) left d l h k) xs
                    (below-All d xs flat e) low,
                high,
                push_at-Ordered left d l ol,
                or,
              )
        | inr e ↦ elim (Bool-cases (any_greater comparer d xs)) [
          | inl f ↦
              rw (step, e, f)
                (
                  ne,
                  flat,
                  low,
                  All-map₂ (λ x h k. push_at-All comparer (λ u. greater u x ≡ true) right d r h k)
                      xs (above-All d xs flat f) high,
                  ol,
                  push_at-Ordered right d r or,
                )
          | inr f ↦
              rw (step, e, f)
                (join_equals xs v left right d (ne, flat, low, high, ol, or) (All-Same d xs e f))
        ]
      ]

  Descending-append :
      (xs ys : List T)
      → Descending comparer xs
      → Descending comparer ys
      → All (λ x. All (λ y. gt comparer y x ≡ false) ys) xs
      → Descending comparer (xs ++ ys)
  Descending-append [] ys h k c = k
  Descending-append (x ∷ xs) ys (p, h) k (c, cs) =
      (All-append (λ y. gt comparer y x ≡ false) xs ys p c, Descending-append xs ys h k cs)

  Descending-Same : (xs : List T) → All (λ x. All (Same x) xs) xs → Descending comparer xs
  unfolding Same greater
  Descending-Same [] h = tt
  Descending-Same (x ∷ xs) (p, h) =
      (All-map (λ y s. s.1) xs p.1, Descending-Same xs (All-map (λ y s. s.1) xs h))

  Ordered-Descending : (t : Element T) → Ordered t → Descending comparer (elements t)
  unfolding elements greater
  Ordered-Descending null o = tt
  Ordered-Descending (element [] v left right) h = absurd (h.0 refl)
  Ordered-Descending (element (x ∷ xs) v left right) (ne, flat, low, high, ol, or) =
      let ys = x ∷ xs in
      let inner =
        Descending-append ys (elements left) (Descending-Same ys flat) (Ordered-Descending left ol)
          (All-map (λ y h. All-map (λ u g. greater_asym y u g) (elements left) h) ys low) in
      let below = λ (u : T) (h : All (λ y. gt comparer u y ≡ true) ys).
        All-append (λ y. gt comparer y u ≡ false) ys (elements left)
          (All-map (λ y g. greater_asym u y g) ys h)
          (All-map (λ w g. not_greater_trans w x u (greater_asym x w g) (greater_asym u x h.0))
            (elements left) low.0) in
      Descending-append (elements right) (ys ++ elements left) (Ordered-Descending right or) inner (
        All-map below (elements right)
          (All-swap (λ x u. gt comparer u x ≡ true) ys (elements right) high))

  -- A queue that is empty, or whose nodes all hold elements in their places.
  IsOrdered : Element T → Type 0
  IsOrdered t = ((v : ℤ) × (t ≡ element [] v null null)) ⊎ Ordered t

  IsOrdered-Descending : (t : Element T) → IsOrdered t → Descending comparer (elements t)
  unfolding IsOrdered elements
  IsOrdered-Descending t (inl (v, e)) = rw e tt
  IsOrdered-Descending t (inr o) = Ordered-Descending t o

  push_at_fresh : (v : ℤ) (d : T) (m : ℤ) → Ordered (push_at comparer (element [] v null null) d m)
  unfolding push_at elements
  push_at_fresh v d m = ((λ e. cc), ((Same-self d, tt), tt), (tt, tt), (tt, tt), tt, tt)

  push_at-IsOrdered :
      (t : Element T) (d : T) (m : ℤ) → IsOrdered t → Ordered (push_at comparer t d m)
  unfolding IsOrdered
  push_at-IsOrdered t d m (inr o) = push_at-Ordered t d m o
  push_at-IsOrdered t d m (inl (v, e)) = rw e (push_at_fresh v d m)

  unfoldable pub push_all : PriorityQueue T → List T → PriorityQueue T
  push_all q [] = q
  push_all q (d ∷ ds) = push_all (push comparer q d) ds

  push_all-lem :
      (q : PriorityQueue T) (ds : List T)
      → IsOrdered q.root
      → IsOrdered (push_all q ds).root
        × Perm (elements (push_all q ds).root) (ds ++ elements q.root)
        × (length (elements (push_all q ds).root) ≡ length ds + length (elements q.root))
        × ((push_all q ds).count ≡ length ds + q.count)
  unfolding push_all push IsOrdered
  push_all-lem q [] o = (o, Perm.refl (elements q.root), omega arith, omega arith)
  push_all-lem q (d ∷ ds) o =
      let q' = push comparer q d in
      let (o', p, n, c) = push_all-lem q' ds (inr (push_at-IsOrdered q.root d (pos 0) o)) in
      (
        o',
        Perm.trans p (
            Perm.trans (Perm.append_left ds (push-perm comparer q d).0)
              (perm_middle ds (elements q.root))),
        omega (arith, n, push_at-length comparer q.root d (pos 0)),
        omega (arith, c),
      )

  -- Elements that are pushed into an empty queue and then popped come out in descending order, each
  -- of them as often as it was pushed.
  pub drain-push_all :
      (none_value : T) (ds : List T)
      → length ds < 2 ^ 64
      → let out = drain none_value false (length ds) (push_all (empty_queue T) ds) in
        Perm out ds × Descending comparer out
  unfolding IsOrdered elements
  drain-push_all none_value ds h =
      let q = push_all (empty_queue T) ds in
      let (o, p, n, c) = push_all-lem (empty_queue T) ds (inl (pos 0, refl)) in
      let counted : IsCounted false q = record {
        counted = n ∙ sym c;
        bounded = omega (arith, c);
      } in
      let size : q.count ≡ length ds = c ∙ omega arith in
      let out : drain none_value false (length ds) q ≡ elements q.root =
        ap (λ k. drain none_value false k q) (sym size)
        ∙ drain-order_of none_value false q counted in
      rw out
        (subst (λ us. Perm (elements q.root) us) (append-nil ds) p, IsOrdered-Descending q.root o)
