-- ===== src/Text/Find.antt =====
-- What `std::string::find` returns, for the loops that call it.
use mathlib.Core.Option
use cmdr_cxx.Base.{
  ℕ, zero, suc, ◌+◌, ◌≤◌, true, [], ◌∷◌, ◌++◌, Option, none, some, Str, ◌≡◌, ◌≢◌, refl, arith,
  length, take, drop, length-append, drop-append_length, is_prefix, is_prefix_sound,
  is_prefix-append, find_str, find_from, Bool-cases, Option-cases, inl, inr, ap, append_assoc,
  take-append-drop,
}

-- The text at the position, split off.
pub find_str_sound :
    (p s : Str) (k : ℕ)
    → find_str p s ≡ some k
    → (drop k s ≡ p ++ drop (k + length p) s) × (k + length p ≤ length s)
unfolding find_str
find_str_sound [] [] k h = let e : k ≡ 0 = ground arith in rw e (refl, omega arith)
find_str_sound (q ∷ p) [] k h = cc
find_str_sound p (c ∷ s) k h = elim (Bool-cases (is_prefix p (c ∷ s))) [
  | inl e ↦
      let zero_at : k ≡ 0 = ground arith in
      let (r, same) = is_prefix_sound p (c ∷ s) e in
      rw (zero_at, same)
        (let l : 0 + length p ≡ length p = omega arith in
          rw (l, drop-append_length p r) (refl, omega (arith, length-append p r, ap length same)))
  | inr e ↦ elim (Option-cases (find_str p s)) [
    | inl f ↦ let no : none ≡ some k = rw (← f) (ground (arith, h)) in cc no
    | inr (j, f) ↦
        let at : k ≡ suc j = ground arith in
        let (same, fits) = find_str_sound p s j f in
        let l : suc j + length p ≡ suc (j + length p) = omega arith in
        rw (at, l) (same, omega arith)
  ]
]

is_prefix-take : (p s : Str) (k : ℕ) → is_prefix p (take k s) ≡ true → is_prefix p s ≡ true
is_prefix-take p s k h =
    let (r, e) = is_prefix_sound p (take k s) h in
    rw (← take-append-drop k s, e, append_assoc p r (drop k s)) (is_prefix-append p (r ++ drop k s))

-- No earlier position holds the pattern.
pub find_str_first :
    (p s : Str) (k : ℕ) → p ≢ [] → find_str p s ≡ some k → find_str p (take k s) ≡ none
unfolding find_str
find_str_first [] s k ne h = absurd (ne refl)
find_str_first (q ∷ p) [] k ne h = cc
find_str_first (q ∷ p) (c ∷ s) zero ne h = refl
find_str_first (q ∷ p) (c ∷ s) (suc k) ne h = elim (Bool-cases (is_prefix (q ∷ p) (c ∷ s))) [
  | inl e ↦ let no : zero ≡ suc k = ground arith in absurd (omega arith)
  | inr e ↦
      let f : find_str (q ∷ p) s ≡ some k = ground arith in
      let ih = find_str_first (q ∷ p) s k ne f in
      elim (Bool-cases (is_prefix (q ∷ p) (c ∷ take k s))) [
        | inl g ↦ let no = is_prefix-take (q ∷ p) (c ∷ s) (suc k) g in cc (no, e)
        | inr g ↦ rw (g, ih)
      ]
]

pub find_from_eq :
    (p s r : Str) (a : ℕ) (found : Option ℕ)
    → drop a s ≡ r
    → find_str p r ≡ found
    → find_from p s a ≡ Option.map (λ k. a + k) found
unfolding find_from
find_from_eq p s r a found h e = rw (h, e)
