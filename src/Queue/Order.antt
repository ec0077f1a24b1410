-- ===== src/Queue/Order.antt =====
-- Where `push` puts an element, for a comparer that is a total preorder by the sign of its result.
use mathlib.Core.List.{Perm, perm_middle}
use mathlib.Core.List.Perm
use cmdr_cxx.Base.{
  zero, suc, ◌+◌, Bool, true, false, ◌||◌, List, [], ◌∷◌, ◌++◌, append_assoc, ◌≡◌, refl, ap, ◌∙◌,
  arith, length, length-append, if◌then◌else◌, All, All-append, All-append_left, All-append_right,
  Bool-cases, inl, inr, ℤ, pos, negsuc, is_negative, is_positive, lt_ℤ,
}
use cmdr_cxx.Queue.{Element, null, element, PriorityQueue, scan, push_at, push}
use cmdr_cxx.Queue.Drain.{elements}

-- What a comparer is to be.
pub record IsPreorder {T : Type 0} (comparer : T → T → ℤ) : Type 0 where
  pub flip : (a b : T) → is_negative (comparer a b) ≡ is_positive (comparer b a)
  pub trans :
      (a b c : T)
      → is_positive (comparer a b) ≡ false
      → is_positive (comparer b c) ≡ false
      → is_positive (comparer a c) ≡ false

module _ {T : Type 0} (comparer : T → T → ℤ) where
  -- a is greater than b.
  abbrev pub gt : T → T → Bool
  gt a b = is_positive (comparer a b)

  -- No later element is greater than an earlier one.
  abbrev pub Descending : List T → Type 0
  Descending [] = Unit
  Descending (x ∷ xs) = All (λ y. gt y x ≡ false) xs × Descending xs

  unfoldable pub any_less : T → List T → Bool
  any_less d [] = false
  any_less d (v ∷ vs) = is_negative (comparer d v) || any_less d vs

  unfoldable pub any_greater : T → List T → Bool
  any_greater d [] = false
  any_greater d (v ∷ vs) = is_positive (comparer d v) || any_greater d vs

  less_step :
      (ret l : ℤ)
      → is_negative (if is_negative ret then (if lt_ℤ ret l then ret else l) else l)
        ≡ is_negative l || is_negative ret
  less_step (pos a) (pos b) = refl
  less_step (pos a) (negsuc b) = refl
  less_step (negsuc a) (pos b) = refl
  less_step (negsuc a) (negsuc b) = ground arith

  greater_step :
      (ret r : ℤ)
      → is_positive (
          if is_negative ret
          then r
          else if is_positive ret
          then (if lt_ℤ r ret then ret else r)
          else r)
        ≡ is_positive r || is_positive ret
  greater_step (pos zero) (pos zero) = refl
  greater_step (pos zero) (pos (suc b)) = refl
  greater_step (pos (suc a)) (pos zero) = ground arith
  greater_step (pos (suc a)) (pos (suc b)) = ground arith
  greater_step (pos zero) (negsuc b) = refl
  greater_step (pos (suc a)) (negsuc b) = refl
  greater_step (negsuc a) (pos zero) = refl
  greater_step (negsuc a) (pos (suc b)) = refl
  greater_step (negsuc a) (negsuc b) = refl

  or_assoc : (a b c : Bool) → (a || b) || c ≡ a || (b || c)
  or_assoc true b c = refl
  or_assoc false b c = refl

  scan-any_less :
      (d : T) (xs : List T) (l r : ℤ)
      → is_negative (scan comparer d xs l r).0 ≡ is_negative l || any_less d xs
  unfolding scan any_less
  scan-any_less d [] l r = ground arith
  scan-any_less d (v ∷ vs) l r =
      let ret = comparer d v in
      let ih = scan-any_less d vs (if is_negative ret then (if lt_ℤ ret l then ret else l) else l) (
        if is_negative ret
        then r
        else if is_positive ret
        then (if lt_ℤ r ret then ret else r)
        else r) in
      ih
      ∙ ap (λ b. b || any_less d vs) (less_step ret l)
      ∙ or_assoc (is_negative l) (is_negative ret) (any_less d vs)

  scan-any_greater :
      (d : T) (xs : List T) (l r : ℤ)
      → is_positive (scan comparer d xs l r).1 ≡ is_positive r || any_greater d xs
  unfolding scan any_greater
  scan-any_greater d [] l r = ground arith
  scan-any_greater d (v ∷ vs) l r =
      let ret = comparer d v in
      let ih =
        scan-any_greater d vs (if is_negative ret then (if lt_ℤ ret l then ret else l) else l) (
          if is_negative ret
          then r
          else if is_positive ret
          then (if lt_ℤ r ret then ret else r)
          else r) in
      ih
      ∙ ap (λ b. b || any_greater d vs) (greater_step ret r)
      ∙ or_assoc (is_positive r) (is_positive ret) (any_greater d vs)

  -- One level of `_push`, by what its scan finds.
  pub push_at_step :
      (xs : List T) (v : ℤ) (left right : Element T) (d : T) (m : ℤ)
      → (l r : ℤ) × (push_at comparer (element xs v left right) d m ≡ (
          if any_less d xs
          then element xs v (push_at comparer left d l) right
          else if any_greater d xs
          then element xs v left (push_at comparer right d r)
          else element (xs ++ d ∷ []) v left right))
  unfolding push_at
  push_at_step xs v left right d m = (
    (scan comparer d xs (pos 0) (pos 0)).0,
    (scan comparer d xs (pos 0) (pos 0)).1,
    rw (scan-any_less d xs (pos 0) (pos 0), scan-any_greater d xs (pos 0) (pos 0)),
  )

  push_at-perm :
      (t : Element T) (d : T) (m : ℤ) → Perm (elements (push_at comparer t d m)) (d ∷ elements t)
  unfolding push_at elements
  push_at-perm null d m = Perm.refl (d ∷ [])
  push_at-perm (element xs v left right) d m =
      let (l, r, step) = push_at_step xs v left right d m in
      elim (Bool-cases (any_less d xs)) [
        | inl e ↦
            rw (step, e, elements)
              (let moved =
                  Perm.append_left (elements right) (Perm.append_left xs (push_at-perm left d l)) in
                Perm.trans moved (
                  Perm.trans (Perm.append_left (elements right) (perm_middle xs (elements left)))
                    (perm_middle (elements right) (xs ++ elements left))))
        | inr e ↦ elim (Bool-cases (any_greater d xs)) [
          | inl f ↦
              rw (step, e, f, elements)
                (Perm.append_right (xs ++ elements left) (push_at-perm right d r))
          | inr f ↦
              rw (step, e, f, elements, append_assoc xs (d ∷ []) (elements left))
                (Perm.trans (Perm.append_left (elements right) (perm_middle xs (elements left)))
                  (perm_middle (elements right) (xs ++ elements left)))
        ]
      ]

  pub push_at-length :
      (t : Element T) (d : T) (m : ℤ)
      → length (elements (push_at comparer t d m)) ≡ suc (length (elements t))
  unfolding push_at elements
  push_at-length null d m = refl
  push_at-length (element xs v left right) d m =
      let (l, r, step) = push_at_step xs v left right d m in
      let a = length-append (elements right) (xs ++ elements left) in
      let b = length-append xs (elements left) in
      elim (Bool-cases (any_less d xs)) [
        | inl e ↦
            let left' = elements (push_at comparer left d l) in
            rw (step, e, elements)
              (omega (
                arith,
                length-append (elements right) (xs ++ left'),
                length-append xs left',
                push_at-length left d l,
              ))
        | inr e ↦ elim (Bool-cases (any_greater d xs)) [
          | inl f ↦
              let right' = elements (push_at comparer right d r) in
              rw (step, e, f, elements)
                (omega
                  (arith, length-append right' (xs ++ elements left), push_at-length right d r))
          | inr f ↦
              rw (step, e, f, elements)
                (omega (
                  arith,
                  length-append (elements right) ((xs ++ d ∷ []) ++ elements left),
                  length-append (xs ++ d ∷ []) (elements left),
                  length-append xs (d ∷ []),
                ))
        ]
      ]

  pub push_at-All {κ} :
      (P : T → Type κ) (t : Element T) (d : T) (m : ℤ)
      → P d
      → All P (elements t)
      → All P (elements (push_at comparer t d m))
  unfolding push_at elements
  push_at-All P null d m p h = (p, tt)
  push_at-All P (element xs v left right) d m p h =
      let (l, r, step) = push_at_step xs v left right d m in
      let hr = All-append_left P (elements right) (xs ++ elements left) h in
      let rest = All-append_right P (elements right) (xs ++ elements left) h in
      let hx = All-append_left P xs (elements left) rest in
      let hl = All-append_right P xs (elements left) rest in
      elim (Bool-cases (any_less d xs)) [
        | inl e ↦
            rw (step, e, elements)
              (All-append P (elements right) _ hr
                (All-append P xs _ hx (push_at-All P left d l p hl)))
        | inr e ↦ elim (Bool-cases (any_greater d xs)) [
          | inl f ↦ rw (step, e, f, elements) (All-append P _ _ (push_at-All P right d r p hr) rest)
          | inr f ↦
              rw (step, e, f, elements)
                (All-append P (elements right) _ hr (
                  All-append P (xs ++ d ∷ []) (elements left) (All-append P xs (d ∷ []) hx (p, tt))
                    hl))
        ]
      ]

  -- A push adds its element, and no other, and counts it.
  pub push-perm :
      (q : PriorityQueue T) (d : T)
      → Perm (elements (push comparer q d).root) (d ∷ elements q.root)
        × ((push comparer q d).count ≡ q.count + 1)
  unfolding push
  push-perm q d = (push_at-perm q.root d (pos 0), refl)
