-- ===== src/SmallString/Contents.antt =====
-- The characters of a small string: what does not fit is dropped at the end.
use cmdr_cxx.Base.{
  ℕ, zero, suc, ◌+◌, ◌-◌, ◌≤◌, ◌<◌, Bool, true, false, Bool-cases, inl, inr, List, [], ◌∷◌, ◌++◌,
  append_assoc, append-nil, Str, length, length-set, length-append, length-take, set, take, drop,
  take-set_le, take-append_length, take_all, ltb, ltb→lt, leb, leb→le, if◌then◌else◌, ◌≡◌, refl,
  sym, ap, ◌∙◌, subst, arith,
}
use cmdr_cxx.SmallString.{
  SmallString, capacity, size, set_size, copied, append, append_all, assign_literal, chars,
}
use cmdr_cxx.SmallString.Sizes.{IsFit, size-set_size, copied-IsFit}

-- What every operation on literals and appended characters keeps.
abbrev pub IsSmall : SmallString → Type 0
IsSmall s = IsFit s × (size s ≤ capacity s)

take-set-suc :
    {A : Type 0} (xs : List A) (k : ℕ) (v : A)
    → k < length xs
    → take (suc k) (set xs k v) ≡ take k xs ++ v ∷ []
take-set-suc [] k v h = absurd (omega (arith, h))
take-set-suc (x ∷ xs) zero v h = refl
take-set-suc (x ∷ xs) (suc k) v h = ap (◌∷◌ x) (take-set-suc xs k v (omega (arith, h)))

take-append_le :
    {A : Type 0} (n : ℕ) (xs ys : List A) → n ≤ length xs → take n (xs ++ ys) ≡ take n xs
take-append_le zero xs ys h = refl
take-append_le (suc n) [] ys h = absurd (omega (arith, h))
take-append_le (suc n) (x ∷ xs) ys h = ap (◌∷◌ x) (take-append_le n xs ys (omega (arith, h)))

set_size-IsFit : (n : ℕ) (s : SmallString) → IsFit s → IsFit (set_size n s)
unfolding set_size
set_size-IsFit n s (l, p, h) = (length-set s.buffer (capacity s) _ ∙ l, p, h)

-- The free place behind the characters is no one of them.
chars-set_size :
    (n : ℕ) (s : SmallString) → IsFit s → n ≤ capacity s → chars (set_size n s) ≡ take n s.buffer
unfolding set_size
chars-set_size n s f h =
    ap (λ k. take k (set_size n s).buffer) (size-set_size s n f h)
    ∙ take-set_le s.buffer (capacity s) n _ h

length-chars : (s : SmallString) → IsSmall s → length (chars s) ≡ size s
length-chars s ((l, p, h), k) = length-take (size s) s.buffer ∙ omega (arith, l, p, k)

not_lt : (a b : ℕ) → ltb a b ≡ false → b ≤ a
not_lt a b h = ground arith

module _ (v : ℕ) (s : SmallString) where
  appended : SmallString
  appended = set_size (size s + 1) (record s { buffer = set s.buffer (size s) v })

  append-room : ltb (size s) (capacity s) ≡ true → append v s ≡ appended
  unfolding append appended
  append-room e = rw (e, append) refl

  append-full : ltb (size s) (capacity s) ≡ false → append v s ≡ s
  unfolding append
  append-full e = rw (e, append) refl

  appended-IsSmall :
      IsSmall s
      → size s < capacity s
      → IsSmall appended × (size appended ≡ size s + 1) × (chars appended ≡ chars s ++ v ∷ [])
  unfolding appended set_size size
  appended-IsSmall ((l, p, h), k) r =
      let t : SmallString = record s { buffer = set s.buffer (size s) v } in
      let f : IsFit t = (length-set s.buffer (size s) v ∙ l, p, h) in
      let e = size-set_size t (size s + 1) f (omega (arith, r)) in
      let n : size s + 1 ≡ suc (size s) = omega arith in
      (
        (set_size-IsFit (size s + 1) t f, omega (arith, e, r)),
        e,
        chars-set_size (size s + 1) t f (omega (arith, r))
            ∙ ap (λ m. take m (set s.buffer (size s) v)) n
            ∙ take-set-suc s.buffer (size s) v (omega (arith, l, r)),
      )

appended-capacity : (v : ℕ) (s : SmallString) → capacity (appended v s) ≡ capacity s
unfolding appended set_size
appended-capacity v s = refl

append-IsSmall : (v : ℕ) (s : SmallString) → IsSmall s → IsSmall (append v s)
append-IsSmall v s i = elim (Bool-cases (ltb (size s) (capacity s))) [
  | inl e ↦
      subst IsSmall (sym (append-room v s e))
        (appended-IsSmall v s i (ltb→lt (size s) (capacity s) e)).0
  | inr e ↦ subst IsSmall (sym (append-full v s e)) i
]

append-chars :
    (v : ℕ) (s : SmallString)
    → IsSmall s
    → chars (append v s) ≡ take (capacity s) (chars s ++ v ∷ [])
append-chars v s i = elim (Bool-cases (ltb (size s) (capacity s))) [
  | inl e ↦
      let r = ltb→lt (size s) (capacity s) e in
      ap chars (append-room v s e)
      ∙ (appended-IsSmall v s i r).2
      ∙ sym (
          take_all (capacity s) (chars s ++ v ∷ [])
            (omega (arith, length-append (chars s) (v ∷ []), length-chars s i, r)))
  | inr e ↦
      let r : size s ≡ capacity s = omega (arith, not_lt (size s) (capacity s) e, i.1) in
      ap chars (append-full v s e)
      ∙ sym (
          ap (λ n. take n (chars s ++ v ∷ [])) (sym r ∙ sym (length-chars s i))
          ∙ take-append_length (chars s) (v ∷ []))
]

append-capacity : (v : ℕ) (s : SmallString) → capacity (append v s) ≡ capacity s
append-capacity v s = elim (Bool-cases (ltb (size s) (capacity s))) [
  | inl e ↦ ap capacity (append-room v s e) ∙ appended-capacity v s
  | inr e ↦ ap capacity (append-full v s e)
]

take-append-take :
    {A : Type 0} (n : ℕ) (xs ys : List A) → take n (take n xs ++ ys) ≡ take n (xs ++ ys)
take-append-take zero xs ys = refl
take-append-take (suc n) [] ys = refl
take-append-take (suc n) (x ∷ xs) ys = ap (◌∷◌ x) (take-append-take n xs ys)

-- For a Size up to 128 appending characters one by one keeps the string within its buffer, and gives
-- the characters that were there and the new ones, as many as the capacity allows.
pub append_all-chars :
    (cs : Str) (s : SmallString)
    → IsSmall s
    → IsSmall (append_all cs s) × (chars (append_all cs s) ≡ take (capacity s) (chars s ++ cs))
unfolding append_all
append_all-chars [] s i = (
  i,
  sym (
      ap (take (capacity s)) (append-nil (chars s))
      ∙ take_all (capacity s) (chars s) (omega (arith, length-chars s i, i.1))),
)
append_all-chars (c ∷ cs) s i =
    let (j, e) = append_all-chars cs (append c s) (append-IsSmall c s i) in
    (
      j,
      e
          ∙ ap (λ n. take n (chars (append c s) ++ cs)) (append-capacity c s)
          ∙ ap (λ l. take (capacity s) (l ++ cs)) (append-chars c s i)
          ∙ take-append-take (capacity s) (chars s ++ c ∷ []) cs
          ∙ ap (take (capacity s)) (append_assoc (chars s) (c ∷ []) cs),
    )

literal_at :
    (str : Str) (s : SmallString)
    → IsFit s
    → (n : ℕ) → n ≤ length str
    → n ≤ capacity s
    → take n str ≡ take (capacity s) str
    → IsSmall (set_size n (copied str n s))
      × (chars (set_size n (copied str n s)) ≡ take (capacity s) str)
unfolding set_size
literal_at str s f n h k e =
    let g = copied-IsFit s str n h (omega (arith, k)) f in
    let d = size-set_size (copied str n s) n g k in
    (
      (set_size-IsFit n (copied str n s) g, omega (arith, d, k)),
      chars-set_size n (copied str n s) g k
          ∙ take-append_le n (take n str) (drop n s.buffer) (omega (arith, length-take n str, h))
          ∙ take_all n (take n str) (omega (arith, length-take n str))
          ∙ e,
    )

not_le : (a b : ℕ) → leb a b ≡ false → b < a
not_le a b h = ground arith

cut_length :
    (b : Bool) (str : Str) (size_ : ℕ)
    → (b ≡ true → size_ ≤ length str + 1)
    → (b ≡ false → length str + 1 < size_)
    → ((if b then size_ - 1 else length str) ≤ length str)
      × ((if b then size_ - 1 else length str) ≤ size_ - 1)
      × (take (if b then size_ - 1 else length str) str ≡ take (size_ - 1) str)
cut_length true str size_ h k = (omega (arith, h refl), omega arith, refl)
cut_length false str size_ h k = (
  omega arith,
  omega (arith, k refl),
  take_all (length str) str (omega arith) ∙ sym (take_all (size_ - 1) str (omega (arith, k refl))),
)

-- A literal gives the string as many of its characters as the capacity allows.
pub assign_literal-chars :
    (str : Str) (s : SmallString)
    → IsFit s
    → IsSmall (assign_literal str s) × (chars (assign_literal str s) ≡ take (capacity s) str)
unfolding assign_literal
assign_literal-chars str s f =
    let n = if leb s.size_ (length str + 1) then s.size_ - 1 else length str in
    let (a, b, c) =
      cut_length (leb s.size_ (length str + 1)) str s.size_ (leb→le s.size_ (length str + 1))
        (not_le s.size_ (length str + 1)) in
    literal_at str s f n a b c
