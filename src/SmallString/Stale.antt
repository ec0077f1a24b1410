-- ===== src/SmallString/Stale.antt =====
-- What an assignment leaves behind the new characters.
use cmdr_cxx.Base.{
  ℕ, zero, suc, ◌+◌, ◌-◌, ◌≤◌, ◌<◌, ◌==◌, ==_iff, ==_refl, false, Bool-cases, inl, inr, List, [],
  ◌∷◌, ◌++◌, Str, length, replicate, set, take, take_all, drop, leb, if◌then◌else◌, ◌≡◌, ◌≢◌, refl,
  sym, ap, ◌∙◌, arith,
}
use cmdr_cxx.SmallString.{
  SmallString, char_at, capacity, set_size, copied, assign_literal, from_literal, compare_chars,
  same_string, chars,
}
use cmdr_cxx.SmallString.Sizes.{IsFit, fresh-IsFit}
use cmdr_cxx.SmallString.Contents.{assign_literal-chars}

-- No character is 0.
abbrev pub NoZero : Str → Type 0
NoZero [] = Unit
NoZero (c ∷ cs) = (c ≢ 0) × NoZero cs

nonzero : (c : ℕ) → c ≢ 0 → (c == 0) ≡ false
nonzero c h = elim (Bool-cases (c == 0)) [ inl e ↦ absurd (h ((==_iff c 0).0 e)) | inr e ↦ e ]

-- Two texts that agree up to where one ends and the other goes on.
compare-ends :
    (str : Str) (c : ℕ) (xs ys : Str)
    → NoZero str
    → c ≢ 0
    → compare_chars (str ++ c ∷ xs) (str ++ 0 ∷ ys) ≡ false
unfolding compare_chars
compare-ends [] c xs ys h n = rw (nonzero c n) refl
compare-ends (a ∷ str) c xs ys (k, h) n = rw (nonzero a k, ==_refl a) (compare-ends str c xs ys h n)

set-append :
    {A : Type 0} (xs ys : List A) (i : ℕ) (v : A)
    → length xs ≤ i
    → set (xs ++ ys) i v ≡ xs ++ set ys (i - length xs) v
set-append [] ys i v h = let e : i - 0 ≡ i = omega arith in rw e refl
set-append (x ∷ xs) ys zero v h = absurd (omega (arith, h))
set-append (x ∷ xs) ys (suc i) v h =
    let e : suc i - suc (length xs) ≡ i - length xs = omega arith in
    ap (◌∷◌ x) (set-append xs ys i v (omega (arith, h)) ∙ ap (λ k. xs ++ set ys k v) (sym e))

drop-head : (buf : Str) (i : ℕ) → i < length buf → drop i buf ≡ char_at buf i ∷ drop (suc i) buf
drop-head [] i h = absurd (omega (arith, h))
drop-head (x ∷ xs) zero h = refl
drop-head (x ∷ xs) (suc i) h = drop-head xs i (omega (arith, h))

set-cons : (c : ℕ) (xs : Str) (i v : ℕ) → 0 < i → set (c ∷ xs) i v ≡ c ∷ set xs (i - 1) v
set-cons c xs zero v h = absurd (omega (arith, h))
set-cons c xs (suc i) v h = let e : suc i - 1 ≡ i = omega arith in rw e refl

not_leb : (a b : ℕ) → b < a → leb a b ≡ false
not_leb a b h = ground arith

assign_literal-room :
    (str : Str) (s : SmallString)
    → length str < capacity s
    → assign_literal str s ≡ set_size (length str) (copied str (length str) s)
unfolding assign_literal
assign_literal-room str s h =
    let e = not_leb s.size_ (length str + 1) (omega (arith, h)) in
    ap (λ b. let n = if b then s.size_ - 1 else length str in set_size n (copied str n s)) e

set_size-buffer :
    (n : ℕ) (s : SmallString) → (v : ℕ) × ((set_size n s).buffer ≡ set s.buffer (capacity s) v)
unfolding set_size
set_size-buffer n s = (_, refl)

-- The buffer behind a literal that leaves room: the literal, and the characters that were there.
assigned :
    (str : Str) (s : SmallString)
    → IsFit s
    → length str < capacity s
    → (zs : Str) × ((assign_literal str s).buffer ≡ str ++ char_at s.buffer (length str) ∷ zs)
assigned str s (l, p, h) k =
    let n = length str in
    let (v, e) = set_size-buffer n (copied str n s) in
    let c = char_at s.buffer n in
    let d : take n str ++ drop n s.buffer ≡ str ++ c ∷ drop (suc n) s.buffer =
      ap (λ x. x ++ drop n s.buffer) (take_all n str (omega arith))
      ∙ ap (λ x. str ++ x) (drop-head s.buffer n (omega (arith, k, l))) in
    (
      set (drop (suc n) s.buffer) (capacity s - n - 1) v,
      ap (λ x. x.buffer) (assign_literal-room str s k)
          ∙ e
          ∙ ap (λ x. set x (capacity s) v) d
          ∙ set-append str (c ∷ drop (suc n) s.buffer) (capacity s) v (omega (arith, k))
          ∙ ap (λ x. str ++ x)
              (set-cons c (drop (suc n) s.buffer) (capacity s - n) v (omega (arith, k))),
    )

char_at-replicate : (n i : ℕ) → char_at (replicate n 0) i ≡ 0
char_at-replicate zero i = refl
char_at-replicate (suc n) zero = refl
char_at-replicate (suc n) (suc i) = char_at-replicate n i

-- For a Size up to 128: a literal without zeros that leaves room, and is assigned over a text that
-- goes on where it ends, gives the string its characters, but the string does not compare as equal
-- to a new string of the same literal.
pub assign_literal_stale :
    (str : Str) (s : SmallString)
    → IsFit s
    → NoZero str
    → length str < capacity s
    → char_at s.buffer (length str) ≢ 0
    → (chars (assign_literal str s) ≡ str)
      × (same_string (assign_literal str s) (from_literal s.size_ str) ≡ false)
unfolding from_literal
assign_literal_stale str s f z k n =
    let fresh : SmallString = record { size_ = s.size_; buffer = replicate s.size_ 0 } in
    let (xs, a) = assigned str s f k in
    let (ys, b) = assigned str fresh (fresh-IsFit s.size_ f.1 f.2) k in
    let d = char_at-replicate s.size_ (length str) in
    (
      (assign_literal-chars str s f).1 ∙ take_all (capacity s) str (omega (arith, k)),
      ap (λ x. compare_chars x (assign_literal str fresh).buffer) a
          ∙ ap (compare_chars (str ++ char_at s.buffer (length str) ∷ xs))
              (b ∙ ap (λ x. str ++ x ∷ ys) d)
          ∙ compare-ends str (char_at s.buffer (length str)) xs ys z n,
    )
